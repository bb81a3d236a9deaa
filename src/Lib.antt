-- ===== src/Lib.antt =====
-- tox-defragmenter splits long Tox messages into fragments that fit toxcore's limit, sends them,
-- waits for a receipt for each, and puts fragments from other peers together again. It stands
-- between a client and toxcore. A fragment is a marker and a piece of the message. The sender
-- keeps its messages in a ring, the receipts it waits for in a table, and a copy of each message
-- in a database, from which it takes up work after a restart. The receiver collects the pieces in
-- the same database and hands a message to the client when the last one has come.
--
-- The files and the code:
--
-- Marker.antt with the modules below it is marker.c: num_digits, marker_max_size_bytes,
-- marker_print, marker_parse_fields, marker_exists and marker_parse are the functions of the same
-- names in camel case. Decimal.antt is what sprintf, strtoul and isdigit do with decimal numbers.
-- A message is a list of bytes with its length given apart, as in the code, since markerParse can
-- look behind the length; memory behind the list reads as 0.
--
-- Database.antt is database.c: Types has the rows of the two tables and the lock, Statements one
-- function for each SQL statement and blob call, Inbound and Outbound the functions that the rest
-- of the program calls. A table is the list of its rows. The rowid of a new row is SQLite's choice
-- and a parameter, and 0 is none. An abort of the process is the result `aborted`. The lock
-- callback is modelled by the number of locks held. Where the outcome depends on the order of
-- rows, the order is that of insertion, the last row first.
--
-- Sender.antt is the sending side of tox-defragmenter.c: Split is splitMessage, Receipts the table
-- of receipts with addReceipt, findReceipt and the clearing of a slot, Heap the messages in memory
-- and the links between them, State the static data with generateMsgId and generateReceiptNo, Send
-- msgSendPart and msgSendNextParts, Long friend_send_message, Confirm tryProcessReceipt and
-- msgIsComplete, Periodic resendExpiredReceipts and sendMore, Load loadPendingSentMessage, Api the
-- functions of tox-defragmenter.h. Channel has toxcore and the clock as parameters, which answer
-- each call as they like, and a log of the calls made. Pointers to messages are numbers, NULL is
-- 0, and an address is not used again after free.
--
-- Receiver.antt is the receiving side: friend_message_cb, processInFragment and messageReady.
-- Below it, Mask says what a message in the database looks like when some of its pieces have come,
-- Phase has the promise of a receiver as a machine of three phases, Insert sets the database
-- against it, Wire follows a fragment of the sender into the database, Reassembly and Delivery a
-- whole message. Faults has the inputs that the receiver does not bear, Short messages that need
-- no fragments.
--
-- Database/Prepared.antt is the layer between the functions of database.c and SQLite: the cached
-- prepared statements, the functions that bind parameters by position, with the conversion to int,
-- and, in Sql, the text of each statement as a function of its parameters. Runs puts them
-- together; the other modules of the program use Statements. Clock is about the time of the last
-- fragment.
--
-- Peer.antt is test-peer.c, a program that connects the library with another peer by a socket and
-- with its user by two streams. Packets is its linked lists, with Fifo for what they stand for;
-- Input and Output are the reading and writing of texts, Wire both together; State has the static
-- data and the functions that the library calls, Events the handlers onIfaceRD, onNetRD, onIfaceWR
-- and onNetWR, Loop receivedAllReceipts, needContinue and loop3, Main main. Growth says that what
-- is read only adds packets to the queues, Loop/Ledger, Body, Runs and Drains follow the packets
-- through the loop, Short a message without fragments from one peer to the other, and Fragments a
-- message in fragments: Departure from the interface to the queue to the net, Delivery from the
-- net to the other interface, Passage both. The bytes that a stream will bring are a list, and a
-- read at its end is the end of the stream; a read that would find fewer bytes at one time than it
-- asks for, with others still to come, is not modelled. The answers of select are inputs, and
-- packets are written at once. The library sees the base functions as a Tox whose replies are the
-- next values of msgIdNet; the calls that it made are served when it returns. No instance of Tox
-- is made, so that doPeriodic does nothing there. An outcome tells an abort from a packet picked
-- from an empty list and from other bad accesses to memory.
--
-- Machine integers: uint8_t, uint32_t, uint64_t and size_t are natural numbers cut off by u8, u32
-- and u64 where the code computes with them. Whole messages are taken to be shorter than 2^31
-- bytes, as blobs are; ids are times in milliseconds of 13 digits, as marker.c takes them to be.
-- The difference of the greatest length and the size of a marker wraps in splitMessage as in the
-- code, but a division by 0 there is not modelled. The table of receipts notes in `overrun` when
-- the code would go behind its array or ask for a size in bytes that is cut off. The arrays of
-- receipts in test-peer.c have receipts_limit entries: a write behind them is a bad access, and
-- receivedAllReceipts finds nothing there.
--
-- Loops that do not follow a list run on a number of rounds. split_loop has one round for each
-- byte of the message and one more, raise_id one for each id up to the last, free_receipt one more
-- than there are messages in the ring, walk one for each message in memory, find_loop, skip_holes,
-- raise_lo, lower_hi and grow as many as the table has slots in use, or more. The loops end
-- before: the rest of the message, the distance to the last id and the slots left all shrink, and
-- of so many receipts one is free, unless the range is used up. Then the code goes round for ever,
-- and free_receipt has no result when its rounds are over. resend_loop has twice the rounds of the
-- slots in use and one more: a record that it adds is new, and is not sent again while the clock
-- does not go back.
--
-- loop3 has a round for each answer of select, and received_all_receipts one for each number up to
-- msgIdIface.
--
-- Not modelled: the opening of the database and its schema, the cached blob handle, which is
-- switched off, the thread that runs doPeriodic and with it races between threads, the
-- registration of callbacks, tox_new and tox_kill, logging, and, of the test peer, the opening of
-- sockets and the script that starts it.
mod Prelude
pub mod Decimal
pub mod Marker
pub mod Sender
pub mod Database
pub mod Receiver
pub mod Peer
pub mod Tests
