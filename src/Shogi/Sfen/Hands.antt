-- ===== src/Shogi/Sfen/Hands.antt =====
-- The hands of SFEN text are read back.
use jhbr.Base.{
  ℕ, zero, suc, ◌+◌, ◌-◌, ◌*◌, ◌^◌, ◌<◌, ◌≡◌, refl, sym, ap, ◌∙◌, Bool, true, false, not, ◌&&◌,
  ◌||◌, List, [], ◌∷◌, ◌++◌, arith, leb, ◌==◌, ==→eq, if◌then◌else◌, Bool-cases, inl, inr,
  check_below, check_below_lem,
}
use mathlib.Core.List.{append_assoc, append-nil}
use jhbr.Shogi.Piece.{Color, black, white, PieceType, type_to_char, type_parse}
use jhbr.Shogi.Hand.{Hand, count}
use jhbr.Shogi.Hand.Count.{count-pack}
use jhbr.Shogi.Position.{Position, Sides, side, set_side, both}
use jhbr.Shogi.Position.Consistent.{same_color, same_color_lem}
use jhbr.Shogi.Sfen.{
  letter, to_lower, hand_item, hand_text, k_sfen_hand_order, hands_text, or_dash, to_decimal,
}
use jhbr.Shogi.Sfen.Read.{is_dash, read_hands, add_times, color_of_letter, is_digit, is_space}
use jhbr.Shogi.Sfen.Decimal.{Every, Every-append, read-to_decimal}
use jhbr.Shogi.Sfen.Totals.{add_all, add_all-pack, IsHand, tally_small}
use jhbr.Shogi.Sfen.Words.{is_plain}
use jhbr.Shogi.Sfen.Plain.{to_decimal-IsPlain}

-- The letter of a type in hand is no digit and no dash, and is read as the type and its side.
abbrev holds : Color → PieceType → Bool
holds c pt =
    let l = letter c pt in
    pt == 0
    || (not (is_digit l)
        && (is_plain l && (same_color (color_of_letter l) c && (type_parse l == pt))))

letters_checked : (c : Color) → check_below (holds c) 8 ≡ true
unfolding check_below letter to_lower type_to_char type_parse is_digit is_plain is_space
letters_checked black = refl
letters_checked white = refl

record HandLetter (c : Color) (pt : PieceType) : Type 0 where
  pub no_digit : is_digit (letter c pt) ≡ false
  pub plain : is_plain (letter c pt) ≡ true
  pub color : color_of_letter (letter c pt) ≡ c
  pub type : type_parse (letter c pt) ≡ pt

hand_letter_lem : (c : Color) (pt : PieceType) → 0 < pt → pt < 8 → HandLetter c pt
hand_letter_lem c pt lo hi =
    let t = check_below_lem (holds c) pt 8 hi (letters_checked c) in
    record {
      no_digit = ground (arith, t, lo);
      plain = ground (arith, t, lo);
      color = same_color_lem _ c (ground (arith, t, lo));
      type = ==→eq _ pt (ground (arith, t, lo));
    }

-- A side written with what it holds, twice, and read after a write.
set_side-side : (s : Sides Hand) (c : Color) → set_side s c (side s c) ≡ s
set_side-side s black = refl
set_side-side s white = refl

set_side-set_side :
    (s : Sides Hand) (c : Color) (a b : Hand) → set_side (set_side s c a) c b ≡ set_side s c b
set_side-set_side s black a b = refl
set_side-set_side s white a b = refl

side_written : (s : Sides Hand) (c : Color) (a : Hand) → side (set_side s c a) c ≡ a
side_written s black a = refl
side_written s white a = refl

-- What a count of a type adds to a hand.
add_hand : Sides Hand → Color → PieceType → ℕ → Sides Hand
add_hand s c pt n = set_side s c (add_times n pt (side s c))

module _ (c : Color) (pt : PieceType) (l : HandLetter c pt) where
  read_letter :
      (n times : ℕ) (rest : List ℕ) (s : Sides Hand)
      → (if n == 0 then 1 else n) ≡ times
      → read_hands (letter c pt ∷ rest) n s ≡ read_hands rest 0 (add_hand s c pt times)
  unfolding read_hands add_hand
  read_letter n times rest s h = rw (l.no_digit, l.color, l.type, h) refl

  read_number :
      (n : ℕ) (rest : List ℕ) (s : Sides Hand)
      → n < 10 ^ 10
      → read_hands (to_decimal n ++ rest) 0 s ≡ read_hands rest n s
  read_number n rest s h = read-to_decimal (λ cs k. read_hands cs k s) step n rest h
    where
      step :
          (d : ℕ) (cs : List ℕ) (k : ℕ)
          → is_digit d ≡ true
          → read_hands (d ∷ cs) k s ≡ read_hands cs (k * 10 + (d - b'0')) s
      step d cs k e = unfold read_hands in rw e refl

  read_item :
      (n : ℕ) (rest : List ℕ) (s : Sides Hand)
      → n < 10 ^ 10
      → read_hands (hand_item c pt n ++ rest) 0 s ≡ read_hands rest 0 (add_hand s c pt n)
  unfolding hand_item add_hand add_times
  read_item zero rest s h = ap (read_hands rest 0) (sym (set_side-side s c))
  read_item (suc zero) rest s h = read_letter 0 1 rest s refl
  read_item (suc (suc n)) rest s h =
      let many : leb (suc (suc n)) 1 ≡ false = ground arith in
      let some : (suc (suc n) == 0) ≡ false = ground arith in
      rw (some, many)
        (ap (λ t. read_hands t 0 s)
            (append_assoc (to_decimal (suc (suc n))) (letter c pt ∷ []) rest)
          ∙ read_number (suc (suc n)) (letter c pt ∷ rest) s h
          ∙ read_letter (suc (suc n)) (suc (suc n)) rest s (rw some refl))

  item-Every : (n : ℕ) → Every is_plain (hand_item c pt n)
  unfolding hand_item
  item-Every n = elim (Bool-cases (n == 0)) [
    | inl e ↦ rw e tt
    | inr e ↦ elim (Bool-cases (leb n 1)) [
      | inl f ↦ rw (e, f) (l.plain, tt)
      | inr f ↦
          rw (e, f) (Every-append is_plain (to_decimal n) _ (to_decimal-IsPlain n).0 (l.plain, tt))
    ]
  ]

-- The types that a hand holds.
abbrev InHand : List PieceType → Type 0
InHand [] = Unit
InHand (pt ∷ pts) = ((0 < pt) × (pt < 8)) × InHand pts

module _ (c : Color) (h : Hand) (small : (pt : PieceType) → count h pt < 10 ^ 10) where
  read-hand_text :
      (pts : List PieceType) (rest : List ℕ) (s : Sides Hand)
      → InHand pts
      → read_hands (hand_text c pts h ++ rest) 0 s
        ≡ read_hands rest 0 (set_side s c (add_all pts h (side s c)))
  unfolding hand_text add_all
  read-hand_text [] rest s i = ap (read_hands rest 0) (sym (set_side-side s c))
  read-hand_text (pt ∷ pts) rest s i =
      ap (λ t. read_hands t 0 s)
        (append_assoc (hand_item c pt (count h pt)) (hand_text c pts h) rest)
      ∙ read_item c pt (hand_letter_lem c pt i.0.0 i.0.1) (count h pt) (hand_text c pts h ++ rest) s
          (small pt)
      ∙ read-hand_text pts rest (add_hand s c pt (count h pt)) i.1
      ∙ ap (read_hands rest 0) (
          unfold add_hand in
          rw (side_written s c (add_times (count h pt) pt (side s c))) (set_side-set_side s c _ _))

  hand_text-Every : (pts : List PieceType) → InHand pts → Every is_plain (hand_text c pts h)
  unfolding hand_text
  hand_text-Every [] i = tt
  hand_text-Every (pt ∷ pts) i =
      Every-append is_plain (hand_item c pt (count h pt)) _
        (item-Every c pt (hand_letter_lem c pt i.0.0 i.0.1) (count h pt)) (hand_text-Every pts i.1)

in_order : InHand k_sfen_hand_order
in_order = (
  (omega arith, omega arith),
  (
    (omega arith, omega arith),
    (
      (omega arith, omega arith),
      (
        (omega arith, omega arith),
        (
          (omega arith, omega arith),
          ((omega arith, omega arith), ((omega arith, omega arith), tt)),
        ),
      ),
    ),
  ),
)

module _ (h : Hand) (i : IsHand h) where
  count_small : (pt : PieceType) → count h pt < 10 ^ 10
  count_small pt = rw i.packed (rw (count-pack i.counts i.fits pt) (tally_small i.counts i.fits pt))

  read_side :
      (c : Color) (rest : List ℕ) (s : Sides Hand)
      → side s c ≡ 0
      → read_hands (hand_text c k_sfen_hand_order h ++ rest) 0 s
        ≡ read_hands rest 0 (set_side s c h)
  read_side c rest s e =
      read-hand_text c h count_small k_sfen_hand_order rest s in_order
      ∙ ap (λ x. read_hands rest 0 (set_side s c x))
          (ap (add_all k_sfen_hand_order h) e ∙ rw i.packed (add_all-pack i.counts i.fits))

module _ (p : Position) (b : IsHand p.hand.of_black) (w : IsHand p.hand.of_white) where
  pub hands_text-Every : Every is_plain (hands_text p)
  unfolding hands_text
  hands_text-Every =
      Every-append is_plain (hand_text black k_sfen_hand_order p.hand.of_black) _
        (hand_text-Every black p.hand.of_black (count_small p.hand.of_black b) k_sfen_hand_order
          in_order)
        (hand_text-Every white p.hand.of_white (count_small p.hand.of_white w) k_sfen_hand_order
          in_order)

  -- The hands that ToSfen prints are read back into empty hands.
  pub read-hands_text : read_hands (hands_text p) 0 (both 0) ≡ p.hand
  unfolding hands_text
  read-hands_text =
      read_side p.hand.of_black b black (hand_text white k_sfen_hand_order p.hand.of_white) (both 0)
        refl
      ∙ ap (λ t. read_hands t 0 (set_side (both 0) black p.hand.of_black)) (sym (append-nil _))
      ∙ read_side p.hand.of_white w white [] (set_side (both 0) black p.hand.of_black) refl
      ∙ unfold read_hands in refl

-- A dash stands for no pieces.
pub dash_lem :
    (t : List ℕ) (s : Sides Hand)
    → Every is_plain t
    → (if is_dash (or_dash t) then s else read_hands (or_dash t) 0 s) ≡ read_hands t 0 s
unfolding read_hands is_plain
dash_lem [] s h = refl
dash_lem (c ∷ []) s h = let no : (c == b'-') ≡ false = ground (arith, h.0) in rw no refl
dash_lem (c ∷ d ∷ ds) s h = refl
