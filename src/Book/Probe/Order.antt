-- ===== src/Book/Probe/Order.antt =====
-- The order of packed positions is strict and transitive.
use jhbr.Base.{◌≡◌, ◌≢◌, refl, ap₂, inl, inr, [], ◌∷◌, Bool-cases, arith, length, ltb}
use jhbr.Book.Format.{PackedSfen}
use jhbr.Book.Probe.{compare_packed_sfen, less, equal, greater}

abbrev pub Before : PackedSfen → PackedSfen → Type 0
Before a b = compare_packed_sfen a b ≡ less

pub compare-flip : (a b : PackedSfen) → compare_packed_sfen a b ≡ greater → Before b a
unfolding compare_packed_sfen
compare-flip [] b e = absurd cc
compare-flip (x ∷ xs) [] e = absurd cc
compare-flip (x ∷ xs) (y ∷ ys) e = ground (arith, compare-flip xs ys)

pub Before-not_equal : (a b : PackedSfen) → Before a b → compare_packed_sfen b a ≢ equal
unfolding compare_packed_sfen
Before-not_equal [] b e = absurd cc
Before-not_equal (x ∷ xs) [] e = absurd cc
Before-not_equal (x ∷ xs) (y ∷ ys) e = ground (arith, Before-not_equal xs ys)

pub Before-trans : (a b c : PackedSfen) → Before a b → Before b c → Before a c
unfolding compare_packed_sfen
Before-trans [] b c e f = absurd cc
Before-trans (x ∷ xs) [] c e f = absurd cc
Before-trans (x ∷ xs) (y ∷ ys) [] e f = absurd cc
Before-trans (x ∷ xs) (y ∷ ys) (w ∷ ws) e f = ground (arith, Before-trans xs ys ws)

pub compare_self : (a : PackedSfen) → compare_packed_sfen a a ≡ equal
unfolding compare_packed_sfen
compare_self [] = refl
compare_self (x ∷ xs) = ground (arith, compare_self xs)

pub equal→≡ : (a b : PackedSfen) → length a ≡ length b → compare_packed_sfen a b ≡ equal → a ≡ b
unfolding compare_packed_sfen
equal→≡ [] [] h e = refl
equal→≡ [] (y ∷ ys) h e = absurd (omega arith)
equal→≡ (x ∷ xs) [] h e = absurd (omega arith)
equal→≡ (x ∷ xs) (y ∷ ys) h e = elim (Bool-cases (ltb x y)) [
  | inl l ↦ absurd cc (rw l at e)
  | inr l ↦ elim (Bool-cases (ltb y x)) [
    | inl g ↦ absurd cc (rw (l, g) at e)
    | inr g ↦ ap₂ ◌∷◌ (ground (arith, l, g)) (equal→≡ xs ys (omega arith) (rw (l, g) at e))
  ]
]
