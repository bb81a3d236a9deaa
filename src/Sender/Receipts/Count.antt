-- ===== src/Sender/Receipts/Count.antt =====
-- How many records of the table a test accepts.
use tox_defragmenter.Prelude.{
  ℕ, zero, suc, ◌+◌, ◌-◌, ◌≤◌, ◌<◌, ◌≡◌, [], ◌∷◌, ◌++◌, Bool, true, false, if◌then◌else◌, refl,
  arith, length, take, drop, get_or, set, replicate, List,
}
use tox_defragmenter.Sender.Types.{ReceiptRecord}
use tox_defragmenter.Sender.Receipts.{hole}

module _ (accepts : ReceiptRecord → Bool) where
  -- The records among the first `n` slots.
  abbrev pub count : ℕ → List ReceiptRecord → ℕ
  count zero rs = 0
  count (suc n) [] = 0
  count (suc n) (r ∷ rs) = (if accepts r then 1 else 0) + count n rs

  pub count_all_le : (n : ℕ) (rs : List ReceiptRecord) → count n rs ≤ n
  count_all_le zero rs = omega arith
  count_all_le (suc n) [] = omega arith
  count_all_le (suc n) (r ∷ rs) = ground (arith, count_all_le n rs)

  count_empty : (n : ℕ) → count n [] ≡ 0
  count_empty zero = refl
  count_empty (suc n) = refl

  pub count_mono : (n k : ℕ) (rs : List ReceiptRecord) → n ≤ k → count n rs ≤ count k rs
  count_mono zero k rs h = omega arith
  count_mono (suc n) zero rs h = elim h [ ]
  count_mono (suc n) (suc k) [] h = omega arith
  count_mono (suc n) (suc k) (r ∷ rs) h = omega (arith, count_mono n k rs (omega arith))

  -- One more slot.
  pub count-next :
      (n : ℕ) (rs : List ReceiptRecord)
      → accepts (get_or rs n hole) ≡ false
      → count (n + 1) rs ≤ count n rs
  count-next zero [] e = omega arith
  count-next zero (r ∷ rs) e = rw e (omega arith)
  count-next (suc n) [] e = omega (arith, count_empty (suc n + 1))
  count-next (suc n) (r ∷ rs) e =
      let z : suc n + 1 ≡ suc (n + 1) = omega arith in rw z (omega (arith, count-next n rs e))

  -- Where no record is accepted, none is counted.
  pub count_none :
      (n : ℕ) (rs : List ReceiptRecord)
      → ((i : ℕ) → i < n → accepts (get_or rs i hole) ≡ false)
      → count n rs ≡ 0
  count_none zero rs h = refl
  count_none (suc n) [] h = refl
  count_none (suc n) (r ∷ rs) h =
      let first : accepts r ≡ false = h 0 (omega arith) in
      rw first (omega (arith, count_none n rs (λ i lt. h (suc i) (omega arith))))

  -- Where none is counted, no record is accepted.
  pub count_zero :
      (n i : ℕ) (rs : List ReceiptRecord)
      → accepts hole ≡ false
      → count n rs ≡ 0
      → i < n
      → accepts (get_or rs i hole) ≡ false
  count_zero zero i rs no_hole e h = elim h [ ]
  count_zero (suc n) i [] no_hole e h = no_hole
  count_zero (suc n) zero (r ∷ rs) no_hole e h = ground (arith, e)
  count_zero (suc n) (suc i) (r ∷ rs) no_hole e h =
      count_zero n i rs no_hole (omega (arith, e)) (omega arith)

  pub count-append :
      (n : ℕ) (xs ys : List ReceiptRecord)
      → count n (xs ++ ys) ≡ count n xs + count (n - length xs) ys
  count-append zero xs ys = let z : 0 - length xs ≡ 0 = omega arith in rw z (omega arith)
  count-append (suc n) [] ys = let z : suc n - 0 ≡ suc n = omega arith in rw z (omega arith)
  count-append (suc n) (x ∷ xs) ys =
      let z : suc n - suc (length xs) ≡ n - length xs = omega arith in
      rw z (omega (arith, count-append n xs ys))

  pub count-drop :
      (a b : ℕ) (xs : List ReceiptRecord) → count (a + b) xs ≡ count a xs + count b (drop a xs)
  count-drop zero b xs = let z : 0 + b ≡ b = omega arith in rw z (omega arith)
  count-drop (suc a) b [] = omega (arith, count_empty (suc a + b), count_empty b)
  count-drop (suc a) b (x ∷ xs) =
      let z : suc a + b ≡ suc (a + b) = omega arith in rw z (omega (arith, count-drop a b xs))

  pub count-take_le : (n k : ℕ) (xs : List ReceiptRecord) → count n (take k xs) ≤ count k xs
  count-take_le zero k xs = omega arith
  count-take_le (suc n) zero xs = omega arith
  count-take_le (suc n) (suc k) [] = omega arith
  count-take_le (suc n) (suc k) (x ∷ xs) = omega (arith, count-take_le n k xs)

  pub count-take_same : (n k : ℕ) (xs : List ReceiptRecord) → count n (take k xs) ≤ count n xs
  count-take_same zero k xs = omega arith
  count-take_same (suc n) zero xs = omega arith
  count-take_same (suc n) (suc k) [] = omega arith
  count-take_same (suc n) (suc k) (x ∷ xs) = omega (arith, count-take_same n k xs)

  module _ (no_hole : accepts hole ≡ false) where
    pub count-holes : (n k : ℕ) → count n (replicate k hole) ≡ 0
    count-holes zero k = refl
    count-holes (suc n) zero = refl
    count-holes (suc n) (suc k) = rw no_hole (omega (arith, count-holes n k))

    pub count_past :
        (n : ℕ) (rs : List ReceiptRecord) (k : ℕ) → count n (rs ++ replicate k hole) ≡ count n rs
    count_past n rs k =
        omega (arith, count-append n rs (replicate k hole), count-holes (n - length rs) k)

    -- A slot that the test accepts, and what is put there instead.
    pub count-set_less :
        (n i : ℕ) (rs : List ReceiptRecord) (r : ReceiptRecord)
        → i < n
        → accepts (get_or rs i hole) ≡ true
        → accepts r ≡ false
        → count n (set rs i r) + 1 ≤ count n rs
    count-set_less zero i rs r h e other = elim h [ ]
    count-set_less (suc n) i [] r h e other = absurd (cc)
    count-set_less (suc n) zero (x ∷ rs) r h e other = rw (e, other) (omega arith)
    count-set_less (suc n) (suc i) (x ∷ rs) r h e other =
        omega (arith, count-set_less n i rs r (omega arith) e other)

  pub count-set_le :
      (n i : ℕ) (rs : List ReceiptRecord) (r : ReceiptRecord)
      → accepts r ≡ false
      → count n (set rs i r) ≤ count n rs
  count-set_le zero i rs r other = omega arith
  count-set_le (suc n) i [] r other = omega arith
  count-set_le (suc n) zero (x ∷ rs) r other = rw other (omega arith)
  count-set_le (suc n) (suc i) (x ∷ rs) r other = omega (arith, count-set_le n i rs r other)

  -- What is put behind the first `n` slots.
  pub count-set_behind :
      (n : ℕ) (rs : List ReceiptRecord) (r : ReceiptRecord)
      → accepts r ≡ false
      → count (n + 1) (set rs n r) ≤ count n rs
  count-set_behind zero [] r other = omega arith
  count-set_behind zero (x ∷ rs) r other = rw other (omega arith)
  count-set_behind (suc n) [] r other = omega (arith, count_empty (suc n + 1))
  count-set_behind (suc n) (x ∷ rs) r other =
      let z : suc n + 1 ≡ suc (n + 1) = omega arith in
      rw z (omega (arith, count-set_behind n rs r other))
