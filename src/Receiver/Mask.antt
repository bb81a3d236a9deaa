-- ===== src/Receiver/Mask.antt =====
-- What the blob of a message holds when some of its pieces have arrived: those pieces at their
-- places, and zeros elsewhere.
use mathlib.Core.List.{flatten}
use tox_defragmenter.Prelude.{
  ℕ, zero, suc, ◌+◌, ◌≤◌, ◌<◌, [], ◌∷◌, ◌++◌, Bool, true, false, Bytes, ◌≡◌, refl, ap, sym, ◌∙◌,
  arith, if◌then◌else◌, length, take, drop, get_or, set, replicate, List, append_assoc,
  length-append, length-replicate, drop-append_length,
}
use tox_defragmenter.Database.Statements.{write_at}

-- The bytes of a piece that has arrived, or as many zeros.
abbrev shown : Bool → Bytes → Bytes
shown b p = if b then p else replicate (length p) 0

unfoldable pub masked : List Bool → List Bytes → Bytes
masked bs [] = []
masked [] (p ∷ ps) = []
masked (b ∷ bs) (p ∷ ps) = shown b p ++ masked bs ps

-- Where a piece begins.
unfoldable pub offset : ℕ → List Bytes → ℕ
offset zero ps = 0
offset (suc k) [] = 0
offset (suc k) (p ∷ ps) = length p + offset k ps

unfoldable pub piece : ℕ → List Bytes → Bytes
piece k ps = get_or ps k []

abbrev pub arrived : ℕ → List Bool → Bool
arrived k bs = get_or bs k false

unfoldable pub count : List Bool → ℕ
count [] = 0
count (b ∷ bs) = (if b then 1 else 0) + count bs

length-shown : (b : Bool) (p : Bytes) → length (shown b p) ≡ length p
length-shown true p = refl
length-shown false p = length-replicate (length p) 0

take-append : (x rest : Bytes) (o : ℕ) → take (length x + o) (x ++ rest) ≡ x ++ take o rest
take-append [] rest o = ap (λ n. take n rest) (omega arith)
take-append (c ∷ x) rest o =
    let e : suc (length x) + o ≡ suc (length x + o) = omega arith in
    rw e (ap (◌∷◌ c) (take-append x rest o))

drop-append : (x rest : Bytes) (o : ℕ) → drop (length x + o) (x ++ rest) ≡ drop o rest
drop-append [] rest o = ap (λ n. drop n rest) (omega arith)
drop-append (c ∷ x) rest o =
    let e : suc (length x) + o ≡ suc (length x + o) = omega arith in rw e (drop-append x rest o)

get_or-append : (x rest : Bytes) (o : ℕ) → get_or (x ++ rest) (length x + o) 0 ≡ get_or rest o 0
get_or-append [] rest o = ap (λ n. get_or rest n 0) (omega arith)
get_or-append (c ∷ x) rest o =
    let e : suc (length x) + o ≡ suc (length x + o) = omega arith in rw e (get_or-append x rest o)

write_at-append :
    (x rest new : Bytes) (o : ℕ)
    → write_at (x ++ rest) (length x + o) new ≡ x ++ write_at rest o new
unfolding write_at
write_at-append x rest new o =
    let e : length x + o + length new ≡ length x + (o + length new) = omega arith in
    rw (take-append x rest o, e, drop-append x rest (o + length new))
      (append_assoc x (take o rest) (new ++ drop (o + length new) rest))

write_at_start :
    (x rest new : Bytes) → length new ≡ length x → write_at (x ++ rest) 0 new ≡ new ++ rest
unfolding write_at
write_at_start x rest new e =
    let z : 0 + length new ≡ length x = omega arith in rw (z, drop-append_length x rest)

-- Writing a piece at its place marks it as arrived.
pub write_at-masked :
    (k : ℕ) (bs : List Bool) (ps : List Bytes)
    → k < length ps
    → length bs ≡ length ps
    → write_at (masked bs ps) (offset k ps) (piece k ps) ≡ masked (set bs k true) ps
unfolding masked offset piece
write_at-masked k bs [] h e = elim h [ ]
write_at-masked k [] (p ∷ ps) h e = absurd (omega arith)
write_at-masked zero (b ∷ bs) (p ∷ ps) h e =
    write_at_start (shown b p) (masked bs ps) p (sym (length-shown b p))
write_at-masked (suc k) (b ∷ bs) (p ∷ ps) h e =
    ap (λ l. write_at (shown b p ++ masked bs ps) (l + offset k ps) (piece k ps))
      (sym (length-shown b p))
    ∙ write_at-append (shown b p) (masked bs ps) (piece k ps) (offset k ps)
    ∙ ap (◌++◌ (shown b p)) (write_at-masked k bs ps (omega arith) (omega arith))

-- The byte at the place of a piece: 0, or the first byte of the piece.
pub get_or-masked :
    (k : ℕ) (bs : List Bool) (ps : List Bytes)
    → k < length ps
    → length bs ≡ length ps
    → 1 ≤ length (piece k ps)
    → get_or (masked bs ps) (offset k ps) 0 ≡ (if arrived k bs then get_or (piece k ps) 0 0 else 0)
unfolding masked offset piece
get_or-masked k bs [] h e n = elim h [ ]
get_or-masked k [] (p ∷ ps) h e n = absurd (omega arith)
get_or-masked zero (true ∷ bs) ([] ∷ ps) h e n = absurd (omega arith)
get_or-masked zero (true ∷ bs) ((c ∷ p) ∷ ps) h e n = refl
get_or-masked zero (false ∷ bs) ([] ∷ ps) h e n = absurd (omega arith)
get_or-masked zero (false ∷ bs) ((c ∷ p) ∷ ps) h e n = refl
get_or-masked (suc k) (b ∷ bs) (p ∷ ps) h e n =
    ap (λ l. get_or (shown b p ++ masked bs ps) (l + offset k ps) 0) (sym (length-shown b p))
    ∙ get_or-append (shown b p) (masked bs ps) (offset k ps)
    ∙ get_or-masked k bs ps (omega arith) (omega arith) n

pub length-masked :
    (bs : List Bool) (ps : List Bytes)
    → length bs ≡ length ps
    → length (masked bs ps) ≡ length (flatten ps)
unfolding masked flatten
length-masked bs [] e = refl
length-masked [] (p ∷ ps) e = absurd (omega arith)
length-masked (b ∷ bs) (p ∷ ps) e = omega (
  arith,
  length-append (shown b p) (masked bs ps),
  length-append p (flatten ps),
  length-shown b p,
  length-masked bs ps (omega arith),
)

abbrev zeros : ℕ → Bytes
zeros n = replicate n 0

replicate-add : (m n : ℕ) → zeros (m + n) ≡ zeros m ++ zeros n
replicate-add zero n = ap zeros (omega arith)
replicate-add (suc m) n =
    let e : suc m + n ≡ suc (m + n) = omega arith in rw e (ap (◌∷◌ 0) (replicate-add m n))

pub masked_none :
    (ps : List Bytes) → masked (replicate (length ps) false) ps ≡ replicate (length (flatten ps)) 0
unfolding masked flatten
masked_none [] = refl
masked_none (p ∷ ps) =
    rw (masked_none ps, length-append p (flatten ps))
      (sym (replicate-add (length p) (length (flatten ps))))

pub offset-piece-le :
    (k : ℕ) (ps : List Bytes)
    → k < length ps
    → offset k ps + length (piece k ps) ≤ length (flatten ps)
unfolding offset piece flatten
offset-piece-le k [] h = elim h [ ]
offset-piece-le zero (p ∷ ps) h = omega (arith, length-append p (flatten ps))
offset-piece-le (suc k) (p ∷ ps) h =
    omega (arith, length-append p (flatten ps), offset-piece-le k ps (omega arith))

count-le : (bs : List Bool) → count bs ≤ length bs
unfolding count
count-le [] = omega arith
count-le (b ∷ bs) = ground (arith, count-le bs)

pub count-set :
    (k : ℕ) (bs : List Bool)
    → k < length bs
    → arrived k bs ≡ false
    → count (set bs k true) ≡ count bs + 1
unfolding count
count-set k [] h e = elim h [ ]
count-set zero (b ∷ bs) h e = ground arith
count-set (suc k) (b ∷ bs) h e = ground (arith, count-set k bs (omega arith) e)

-- When all pieces have arrived the blob is the message.
pub masked_all :
    (bs : List Bool) (ps : List Bytes)
    → length bs ≡ length ps
    → count bs ≡ length ps
    → masked bs ps ≡ flatten ps
unfolding masked flatten count
masked_all bs [] e c = refl
masked_all [] (p ∷ ps) e c = absurd (omega arith)
masked_all (true ∷ bs) (p ∷ ps) e c = ap (◌++◌ p) (masked_all bs ps (omega arith) (omega arith))
masked_all (false ∷ bs) (p ∷ ps) e c = absurd (omega (arith, count-le bs))

pub count_none : (n : ℕ) → count (replicate n false) ≡ 0
unfolding count
count_none zero = refl
count_none (suc n) = omega (arith, count_none n)

pub arrived_none : (n j : ℕ) → arrived j (replicate n false) ≡ false
arrived_none zero j = refl
arrived_none (suc n) zero = refl
arrived_none (suc n) (suc j) = arrived_none n j
