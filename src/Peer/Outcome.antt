-- ===== src/Peer/Outcome.antt =====
-- What a call of test-peer.c ends in.
pub mod Post
use tox_defragmenter.Database.Types.{Result}

-- `abort` ends the process. `empty_list` is a call of `packetPickFront` without a packet, or a link that
-- leads nowhere; `bad_access` is any other access to memory that is not there.
pub data Outcome {ℓ} (A : Type ℓ) : Type ℓ where
  done : A → Outcome A
  abort : Outcome A
  empty_list : Outcome A
  bad_access : Outcome A

infixl 5 ◌>>=◌
abbrev pub ◌>>=◌ {ℓ κ} : {A : Type ℓ} {B : Type κ} → Outcome A → (A → Outcome B) → Outcome B
done a >>= f = f a
abort >>= f = abort
empty_list >>= f = empty_list
bad_access >>= f = bad_access

-- What a call of the library ends in.
abbrev pub of_result {ℓ} : {A : Type ℓ} → Result A → Outcome A
of_result (Result.ok a) = done a
of_result Result.aborted = abort
