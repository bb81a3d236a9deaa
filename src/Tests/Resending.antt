-- ===== src/Tests/Resending.antt =====
-- Resending at concrete inputs.
use tox_defragmenter.Prelude.{ℕ, ◌+◌, [], ◌∷◌, ◌≡◌, ◌<◌, refl, arith, true, false, some, get_or}
use tox_defragmenter.Sender.Types.{Fragment, MsgOutbound}
use tox_defragmenter.Sender.Receipts.{Table, hole}
use tox_defragmenter.Sender.Receipts.Bounds.{IsTable}
use tox_defragmenter.Sender.Channel.{Tox}
use tox_defragmenter.Sender.State.{State}
use tox_defragmenter.Sender.Periodic.{resend_loop, resend_expired_receipts}
use tox_defragmenter.Sender.Periodic.Ends.{expired, IsSteady, resend_expired_receipts-ends}
use tox_defragmenter.Tests.Data.{test_id, quiet, idle}

-- A clock that stands still.
abbrev steady_tox : Tox
steady_tox = record { reply = λ k p. 100 + k; online = λ k friend. true; clock = λ k. test_id }

steady_tox-IsSteady : IsSteady steady_tox 20000
steady_tox-IsSteady = record { forward = λ j k h. omega arith; small = λ k. omega arith }

abbrev part : ℕ → Fragment
part receipt = record {
  size = 1;
  bytes = some (7 ∷ []);
  receipt = receipt;
  times_sent = 1;
  confirmed = 0;
}

-- A message with two parts in transit: the receipt of the first has expired.
abbrev waiting : MsgOutbound
waiting = record {
  friend_number = 3;
  id = test_id;
  type = 0;
  num_parts = 2;
  fragments = part 50 ∷ part 60 ∷ [];
  receipt = 1001;
  last_sent = 1;
  num_transit = 2;
  num_confirmed = 0;
  num_loss = 0;
  from_db = 0;
}

abbrev two_slots : Table
two_slots = record {
  slots =
      record { receipt = 50; msg = 1; part_no = 1; timestamp = 5 }
      ∷ record { receipt = 60; msg = 1; part_no = 2; timestamp = test_id }
      ∷ [];
  lo = 0;
  hi = 2;
  num = 2;
  alloc = 2;
  overrun = false;
}

two_slots-IsTable : IsTable two_slots
two_slots-IsTable = record {
  array = refl;
  some_alloc = omega arith;
  ordered = omega arith;
  within = omega arith;
}

abbrev aged : State
aged = record idle {
  heap = record { prev = 1; next = 1; msg = waiting; freed = false } ∷ [];
  head = 1;
  channel = record quiet { table = two_slots };
}

resend_expired_receipts-ends_example :
    let begun = record aged { channel = record quiet { table = two_slots; readings = 0 + 1 } } in
    let s' = resend_expired_receipts steady_tox aged in
    (resend_loop steady_tox 5 test_id 0 begun ≡ s')
    × ((j : ℕ)
        → j < s'.channel.table.hi
        → expired 20000 test_id (get_or s'.channel.table.slots j hole) ≡ false)
resend_expired_receipts-ends_example =
    resend_expired_receipts-ends steady_tox aged 5 steady_tox-IsSteady two_slots-IsTable
      (omega arith) (λ j h. absurd (omega (arith, h))) (omega arith)
