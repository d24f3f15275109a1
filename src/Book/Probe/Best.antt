-- ===== src/Book/Probe/Best.antt =====
-- Probe chooses the first legal move of the highest value among the moves of an entry.
use jhbr.Base.{
  ℕ, zero, suc, ◌+◌, ◌<◌, ◌≡◌, refl, sym, subst, inl, inr, Bool, true, false, List, Option, none,
  some, Bool-cases, arith, ◌==◌, ==→eq, ℤ, pos, negsuc, ltℤ,
}
use jhbr.Shogi.Move.{Move}
use jhbr.Book.Format.{YbbIndexEntry, YbbMoveRecord}
use jhbr.Book.Reader.{OpeningBook, read_move}
use jhbr.Book.Probe.{is_legal, keep_best, best_move}

-- Of the records before `i`: the first legal one that none exceeds, or that none is legal.
pub data BestOf (legal_moves : List Move) (records : ℕ → YbbMoveRecord) (i : ℕ)
    (b : Option YbbMoveRecord) : Type 0 where
  none_legal :
      b ≡ none
      → ((j : ℕ) → j < i → is_legal legal_moves (records j).move ≡ false)
      → BestOf legal_moves records i b
  first_best :
      (k : ℕ)
      → k < i
      → b ≡ some (records k)
      → is_legal legal_moves (records k).move ≡ true
      → ((j : ℕ)
          → j < i
          → is_legal legal_moves (records j).move ≡ true
          → ltℤ (records k).eval (records j).eval ≡ false)
      → ((j : ℕ)
          → j < k
          → is_legal legal_moves (records j).move ≡ true
          → ltℤ (records j).eval (records k).eval ≡ true)
      → BestOf legal_moves records i b

ltℤ-irrefl : (a : ℤ) → ltℤ a a ≡ false
ltℤ-irrefl (pos a) = ground arith
ltℤ-irrefl (negsuc a) = ground arith

ltℤ-asym : (a b : ℤ) → ltℤ a b ≡ true → ltℤ b a ≡ false
ltℤ-asym a b h = ground arith

-- What does not exceed `b` is below what `b` is below.
ltℤ-trans : (a b c : ℤ) → ltℤ b a ≡ false → ltℤ b c ≡ true → ltℤ a c ≡ true
ltℤ-trans a b c h k = ground arith

module _ (legal_moves : List Move) (records : ℕ → YbbMoveRecord) where
  abbrev legal : ℕ → Bool
  legal j = is_legal legal_moves (records j).move

  abbrev value : ℕ → ℤ
  value j = (records j).eval

  -- A legal move `j` is not above the move `i`.
  abbrev Below : ℕ → ℕ → Type 0
  Below i j = legal j ≡ true → ltℤ (value i) (value j) ≡ false

  -- What holds before `i` and at `i` holds before the next.
  extend : (P : ℕ → Type 0) (i : ℕ) → ((j : ℕ) → j < i → P j) → P i → (j : ℕ) → j < i + 1 → P j
  extend P i h p j lt = elim (Bool-cases (j == i)) [
    | inl e ↦ subst P (sym (==→eq j i e)) p
    | inr e ↦ h j (ground (arith, e))
  ]

  keep_best-BestOf :
      (i : ℕ) (b : Option YbbMoveRecord)
      → BestOf legal_moves records i b
      → BestOf legal_moves records (i + 1) (keep_best legal_moves (records i) b)
  unfolding keep_best
  keep_best-BestOf i b (none_legal e h) = elim (Bool-cases (legal i)) [
    | inl l ↦
        rw (e, l)
          (first_best i (omega arith) refl l
            (extend (Below i) i (λ j lt q. absurd cc (h j lt)) (λ q. ltℤ-irrefl (value i)))
            (λ j lt q. absurd cc (h j lt)))
    | inr l ↦ rw (e, l) (none_legal refl (extend (λ j. legal j ≡ false) i h l))
  ]
  keep_best-BestOf i b (first_best k lt e l top first) = elim (Bool-cases (legal i)) [
    | inr n ↦
        rw (e, n)
          (first_best k (omega arith) refl l (extend (Below k) i top (λ q. absurd cc n)) first)
    | inl n ↦ elim (Bool-cases (ltℤ (value k) (value i))) [
      | inl g ↦
          rw (e, n, g)
            (first_best i (omega arith) refl n
              (extend (Below i) i (λ j lt q. ltℤ-asym (value j) (value i) (over g j lt q))
                (λ q. ltℤ-irrefl (value i)))
              (over g))
      | inr g ↦
          rw (e, n, g) (first_best k (omega arith) refl l (extend (Below k) i top (λ q. g)) first)
    ]
  ]
    where
      over :
          ltℤ (value k) (value i) ≡ true
          → (j : ℕ) → j < i
          → legal j ≡ true
          → ltℤ (value j) (value i) ≡ true
      over g j lt q = ltℤ-trans (value j) (value k) (value i) (top j lt q) g

  module _ (book : OpeningBook) (entry : YbbIndexEntry)
      (readable : (i : ℕ) → i < entry.move_count → read_move book entry i ≡ some (records i)) where
    best_from :
        (n i : ℕ) (b : Option YbbMoveRecord)
        → i + n ≡ entry.move_count
        → BestOf legal_moves records i b
        → (c : Option YbbMoveRecord) × (best_move book entry legal_moves n i b ≡ some c)
          × BestOf legal_moves records entry.move_count c
    unfolding best_move
    best_from zero i b e h =
        let q : i ≡ entry.move_count = omega (arith, e) in
        (b, refl, subst (λ t. BestOf legal_moves records t b) q h)
    best_from (suc n) i b e h =
        let r = readable i (omega (arith, e)) in
        let rest =
          best_from n (i + 1) (keep_best legal_moves (records i) b) (omega (arith, e))
            (keep_best-BestOf i b h) in
        (rest.0, rw r rest.1, rest.2)

    -- Where every move record of an entry can be read, Probe ends its loop over them with the first
    -- legal move of the highest value, or with none where no move of the entry is legal.
    pub best_move_lem :
        (c : Option YbbMoveRecord) × (best_move book entry legal_moves entry.move_count 0 none
          ≡ some c)
        × BestOf legal_moves records entry.move_count c
    best_move_lem =
        best_from entry.move_count 0 none (omega arith)
          (none_legal refl (λ j lt. absurd (omega arith)))
