-- ===== src/Peer/Outcome/Post.antt =====
-- What holds of a call that ends, where it never picks from an empty list.
use tox_defragmenter.Prelude.{Bool, true, false, if◌then◌else◌, ◌≢◌}
use tox_defragmenter.Database.Types.{Result}
use tox_defragmenter.Peer.Outcome.{Outcome, done, abort, empty_list, bad_access, ◌>>=◌, of_result}

-- `P` holds of the value, and the call did not end in `empty_list`.
abbrev pub Post {ℓ} : {A : Type ℓ} → (A → Type 0) → Outcome A → Type 0
Post P (done a) = P a
Post P abort = Unit {0}
Post P empty_list = ⊥
Post P bad_access = Unit {0}

abbrev pub Any {ℓ} : {A : Type ℓ} → A → Type 0
Any _ = Unit {0}

pub Post-bind {ℓ κ} :
    {A : Type ℓ} {B : Type κ} (P : A → Type 0) (Q : B → Type 0) (o : Outcome A) (f : A → Outcome B)
    → Post P o
    → ((a : A) → P a → Post Q (f a))
    → Post Q (o >>= f)
Post-bind P Q (done a) f h k = k a h
Post-bind P Q abort f h k = tt
Post-bind P Q empty_list f h k = h
Post-bind P Q bad_access f h k = tt

pub Post-if {ℓ} :
    {A : Type ℓ} (P : A → Type 0) (b : Bool) (x y : Outcome A)
    → Post P x
    → Post P y
    → Post P (if b then x else y)
Post-if P true x y hx hy = hx
Post-if P false x y hx hy = hy

pub Post-of_result {ℓ} : {A : Type ℓ} (r : Result A) → Post Any (of_result r)
Post-of_result (Result.ok a) = tt
Post-of_result Result.aborted = tt

pub Post-ne-empty_list {ℓ} :
    {A : Type ℓ} (P : A → Type 0) (o : Outcome A) → Post P o → o ≢ empty_list
Post-ne-empty_list P (done a) h e = cc
Post-ne-empty_list P abort h e = cc
Post-ne-empty_list P empty_list h e = h
Post-ne-empty_list P bad_access h e = cc
