-- ===== src/Shogi/Sfen/Decimal.antt =====
-- Decimal numbers in SFEN text are read back.
use jhbr.Base.{
  ℕ, zero, suc, ◌+◌, ◌-◌, ◌*◌, ◌/◌, ◌%◌, ◌^◌, ◌<◌, ◌≡◌, ap, ◌∙◌, Bool, true, List, [], ◌∷◌, ◌++◌,
  arith, ltb, Bool-cases, inl, inr,
}
use mathlib.Core.List.{append_assoc}
use native.Mathlib.Nat.{pow-suc}
use jhbr.Shogi.Sfen.{digits_of, to_decimal}
use jhbr.Shogi.Sfen.Read.{is_digit}

-- A digit is read as its value.
digit_lem : (n : ℕ) → n < 10 → (is_digit (b'0' + n) ≡ true) × (b'0' + n - b'0' ≡ n)
unfolding is_digit
digit_lem n h = (ground arith, omega arith)

module _ {A : Type 0} (read : List ℕ → ℕ → A)
    (step : (c : ℕ) (cs : List ℕ) (n : ℕ)
      → is_digit c ≡ true
      → read (c ∷ cs) n ≡ read cs (n * 10 + (c - b'0'))) where
  one_digit :
      (d n : ℕ) (rest : List ℕ) → d < 10 → read ((b'0' + d) ∷ rest) n ≡ read rest (n * 10 + d)
  one_digit d n rest h =
      step (b'0' + d) rest n (digit_lem d h).0 ∙ ap (λ k. read rest (n * 10 + k)) (digit_lem d h).1

  -- A reader that takes digits one by one reads a printed number.
  read-digits_of :
      (fuel n : ℕ) (rest : List ℕ)
      → n < 10 ^ suc fuel
      → read (digits_of (suc fuel) n ++ rest) 0 ≡ read rest n
  unfolding digits_of
  read-digits_of zero n rest h =
      let e : ltb n 10 ≡ true = ground arith in
      rw e (one_digit n 0 rest (omega arith) ∙ ap (read rest) (omega arith))
  read-digits_of (suc fuel) n rest h = elim (Bool-cases (ltb n 10)) [
    | inl e ↦ rw e (one_digit n 0 rest (ground (arith, e)) ∙ ap (read rest) (omega arith))
    | inr e ↦
        let fits : n / 10 < 10 ^ suc fuel = omega (arith, pow-suc 10 (suc fuel)) in
        rw e (
          ap (λ cs. read cs 0)
            (append_assoc (digits_of (suc fuel) (n / 10)) ((b'0' + n % 10) ∷ []) rest)
          ∙ read-digits_of fuel (n / 10) ((b'0' + n % 10) ∷ rest) fits
          ∙ one_digit (n % 10) (n / 10) rest (omega arith)
          ∙ ap (read rest) (omega arith))
  ]

  pub read-to_decimal :
      (n : ℕ) (rest : List ℕ) → n < 10 ^ 10 → read (to_decimal n ++ rest) 0 ≡ read rest n
  unfolding to_decimal
  read-to_decimal n rest h = read-digits_of 9 n rest h

-- Texts all of whose characters pass a test, and texts whose first does.
abbrev pub Every : (ℕ → Bool) → List ℕ → Type 0
Every p [] = Unit
Every p (c ∷ cs) = (p c ≡ true) × Every p cs

abbrev pub Begins : (ℕ → Bool) → List ℕ → Type 0
Begins p [] = ⊥
Begins p (c ∷ cs) = p c ≡ true

pub Every-append : (p : ℕ → Bool) (cs ds : List ℕ) → Every p cs → Every p ds → Every p (cs ++ ds)
Every-append p [] ds h k = k
Every-append p (c ∷ cs) ds h k = (h.0, Every-append p cs ds h.1 k)

pub Begins-append : (p : ℕ → Bool) (cs ds : List ℕ) → Begins p cs → Begins p (cs ++ ds)
Begins-append p [] ds h = absurd h
Begins-append p (c ∷ cs) ds h = h

digits_of-Every : (fuel n : ℕ) → Every is_digit (digits_of fuel n)
unfolding digits_of
digits_of-Every zero n = tt
digits_of-Every (suc fuel) n = elim (Bool-cases (ltb n 10)) [
  | inl e ↦ rw e ((digit_lem n (ground (arith, e))).0, tt)
  | inr e ↦ rw e (
      Every-append is_digit (digits_of fuel (n / 10)) ((b'0' + n % 10) ∷ [])
        (digits_of-Every fuel (n / 10)) ((digit_lem (n % 10) (omega arith)).0, tt))
]

digits_of-Begins : (fuel n : ℕ) → Begins is_digit (digits_of (suc fuel) n)
unfolding digits_of
digits_of-Begins zero n = elim (Bool-cases (ltb n 10)) [
  | inl e ↦ rw e (digit_lem n (ground (arith, e))).0
  | inr e ↦ rw e (digit_lem (n % 10) (omega arith)).0
]
digits_of-Begins (suc fuel) n = elim (Bool-cases (ltb n 10)) [
  | inl e ↦ rw e (digit_lem n (ground (arith, e))).0
  | inr e ↦ rw e (
      Begins-append is_digit (digits_of (suc fuel) (n / 10)) ((b'0' + n % 10) ∷ [])
        (digits_of-Begins fuel (n / 10)))
]

pub to_decimal-Every : (n : ℕ) → Every is_digit (to_decimal n)
unfolding to_decimal
to_decimal-Every n = digits_of-Every 10 n

pub to_decimal-Begins : (n : ℕ) → Begins is_digit (to_decimal n)
unfolding to_decimal
to_decimal-Begins n = digits_of-Begins 9 n
