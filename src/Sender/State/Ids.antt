-- ===== src/Sender/State/Ids.antt =====
-- `generateMsgId`: ids go up, even when messages are made faster than the clock ticks.
use tox_defragmenter.Prelude.{
  ℕ, zero, suc, ◌+◌, ◌-◌, ◌^◌, ◌≤◌, ◌<◌, ◌≡◌, max, leb, u64, arith, Bool-cases, inl, inr, refl, ◌∙◌,
}
use tox_defragmenter.Sender.Channel.{Tox, get_curr_time_ms}
use tox_defragmenter.Sender.State.{State, raise_id, generate_msg_id}

-- As many rounds as the last id is ahead are enough.
raise_id-max :
    (f last id : ℕ)
    → last < 2 ^ 64 - 1
    → id < 2 ^ 64
    → last + 1 ≤ f + id
    → raise_id f last id ≡ max id (last + 1)
unfolding raise_id
raise_id-max zero last id hl hi enough = ground arith
raise_id-max (suc f) last id hl hi enough = elim (Bool-cases (leb id last)) [
  | inl behind ↦
      let low : id ≤ last = ground arith in
      let next : u64 (id + 1) ≡ id + 1 = omega arith in
      rw (behind, next) (raise_id-max f last (id + 1) hl (omega arith) (omega arith) ∙ omega arith)
  | inr ahead ↦ ground arith
]

-- While the last id is below 2^64 - 1 and the clock below 2^64, the loop of `generateMsgId` ends, and
-- the new id is the time in milliseconds or the last id plus one, whichever is greater. It is kept as
-- the last id.
pub generate_msg_id-max :
    (tox : Tox) (s : State)
    → s.last_msg_id < 2 ^ 64 - 1
    → tox.clock s.channel.readings < 2 ^ 64
    → ((generate_msg_id tox s).0 ≡ max (tox.clock s.channel.readings) (s.last_msg_id + 1))
      × ((generate_msg_id tox s).1.last_msg_id ≡ (generate_msg_id tox s).0)
unfolding generate_msg_id get_curr_time_ms
generate_msg_id-max tox s hl ht = (
  raise_id-max (suc s.last_msg_id) s.last_msg_id (tox.clock s.channel.readings) hl ht (omega arith),
  refl,
)
