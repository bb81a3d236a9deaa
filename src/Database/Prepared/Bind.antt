-- ===== src/Database/Prepared/Bind.antt =====
-- Binding sets every parameter, whatever the statement was bound to before.
use tox_defragmenter.Prelude.{
  ℕ, ◌+◌, ◌-◌, ◌==◌, [], ◌∷◌, ◌++◌, false, ◌≡◌, ◌∙◌, refl, ap, arith, ltb, length, length-append,
  length-replicate, set, List, Option, none, some, append_assoc,
}
use tox_defragmenter.Database.Types.{Result, ok, ◌>>=◌}
use tox_defragmenter.Database.Prepared.{Value, null, Bindings, prepare, bind_value}

-- A statement that is not made yet, or has this number of parameters.
abbrev pub Takes : ℕ → Option Bindings → Type 0
Takes n none = Unit {0}
Takes n (some ps) = length ps ≡ n

pub length-prepare : (n : ℕ) (stmt : Option Bindings) → Takes n stmt → length (prepare n stmt) ≡ n
unfolding prepare
length-prepare n none h = length-replicate n null
length-prepare n (some ps) h = h

-- Values bound one after the other.
unfoldable pub bind_list : Bindings → ℕ → List Value → Result Bindings
bind_list ps n [] = ok ps
bind_list ps n (v ∷ []) = bind_value ps n v
bind_list ps n (v ∷ w ∷ vs) =
    bind_value ps n v >>= λ (ps' : Bindings). bind_list ps' (n + 1) (w ∷ vs)

set-append :
    (before behind : Bindings) (o v : Value)
    → set (before ++ o ∷ behind) (length before) v ≡ before ++ v ∷ behind
set-append [] behind o v = refl
set-append (b ∷ before) behind o v = ap (◌∷◌ b) (set-append before behind o v)

bind_value-append :
    (before behind : Bindings) (o v : Value)
    → bind_value (before ++ o ∷ behind) (length before + 1) v ≡ ok (before ++ v ∷ behind)
unfolding bind_value
bind_value-append before behind o v =
    let n : length before + 1 - 1 ≡ length before = omega arith in
    let positive : (length before + 1 == 0) ≡ false = ground arith in
    let inside : ltb (length (before ++ o ∷ behind)) (length before + 1) ≡ false =
      ground (arith, length-append before (o ∷ behind)) in
    rw (positive, inside, n, set-append before behind o v) refl

bind_list-append :
    (vs before old : Bindings)
    → length old ≡ length vs
    → bind_list (before ++ old) (length before + 1) vs ≡ ok (before ++ vs)
unfolding bind_list
bind_list-append [] before [] h = refl
bind_list-append [] before (o ∷ old) h = absurd (omega arith)
bind_list-append (v ∷ vs) before [] h = absurd (omega arith)
bind_list-append (v ∷ []) before (o ∷ []) h = bind_value-append before [] o v
bind_list-append (v ∷ []) before (o ∷ o' ∷ old) h = absurd (omega arith)
bind_list-append (v ∷ w ∷ vs) before (o ∷ old) h =
    let n : length before + 1 + 1 ≡ length (before ++ v ∷ []) + 1 =
      omega (arith, length-append before (v ∷ [])) in
    rw (bind_value-append before old o v) (
      rw (n, ← append_assoc before (v ∷ []) old)
        (bind_list-append (w ∷ vs) (before ++ v ∷ []) old (omega arith)
          ∙ ap ok (append_assoc before (v ∷ []) (w ∷ vs))))

-- All parameters are bound.
pub bind_list_all : (ps vs : Bindings) → length ps ≡ length vs → bind_list ps 1 vs ≡ ok vs
bind_list_all ps vs h = bind_list-append vs [] ps h
