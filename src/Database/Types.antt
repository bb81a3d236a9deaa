-- ===== src/Database/Types.antt =====
-- The tables of `createSchema`, what a statement or a call can end in, and the lock.
use tox_defragmenter.Prelude.{ℕ, List, Bytes, Option, Bool, ◌+◌, ◌-◌, if◌then◌else◌, ◌≡◌, refl}

-- A row of fragmented_meta.
pub record MetaRow : Type 0 where
  pub outbound : ℕ
  pub friend_id : ℕ
  pub type : ℕ
  pub frags_id : ℕ
  pub timestamp_first : ℕ
  pub timestamp_last : ℕ
  pub frags_done : ℕ
  pub frags_num : ℕ

-- A row of fragmented_data, with the rowid that SQLite gives it. `none` is NULL.
pub record DataRow : Type 0 where
  pub rowid : ℕ
  pub outbound : ℕ
  pub friend_id : ℕ
  pub frags_id : ℕ
  pub message : Bytes
  pub confirmed : Option Bytes
  pub receipt : Option ℕ

-- The database, whether a lock callback is set that returns a lock, and how many locks are held.
pub record Db : Type 0 where
  pub meta : List MetaRow
  pub rows : List DataRow
  pub lock_set : Bool
  pub held : ℕ

-- `err`, `errSql` and `ERROR` abort the process; a loop that does not end is `aborted` as well.
pub data Result {ℓ} (A : Type ℓ) : Type ℓ where
  ok : A → Result A
  aborted : Result A

infixl 5 ◌>>=◌
abbrev pub ◌>>=◌ {ℓ κ} : {A : Type ℓ} {B : Type κ} → Result A → (A → Result B) → Result B
ok a >>= f = f a
aborted >>= f = aborted

-- A chain that ends well ended well at each step.
pub >>=-eq-ok {ℓ κ} :
    {A : Type ℓ} {B : Type κ} (o : Result A) (f : A → Result B) (b : B)
    → (o >>= f) ≡ ok b
    → (a : A) × (o ≡ ok a) × (f a ≡ ok b)
>>=-eq-ok (ok a) f b h = (a, refl, h)
>>=-eq-ok aborted f b h = cc

-- `dbLock` and `dbUnlock`: without a callback the lock is NULL, and unlocking does nothing.
abbrev pub db_lock : Db → Db
db_lock db = record db { held = if db.lock_set then db.held + 1 else db.held }

abbrev pub db_unlock : Db → Db
db_unlock db = record db { held = if db.lock_set then db.held - 1 else db.held }
