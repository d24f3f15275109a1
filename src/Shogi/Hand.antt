-- ===== src/Shogi/Hand.antt =====
-- class Hand of shogi/types.h: the captured pieces of one side in a uint32_t.
pub mod Count
pub mod Dominates
use jhbr.Base.{ℕ, ◌+◌, ◌-◌, ◌*◌, ◌/◌, ◌%◌, ◌^◌, bit_and, Bool, not, List, [], ◌∷◌, ◌==◌, get_or}
use jhbr.Shogi.Piece.{PieceType}

-- `data_`
abbrev pub Hand : Type 0
Hand = ℕ

abbrev pub u32 : ℕ → ℕ
u32 n = n % 2 ^ 32

abbrev pub empty_hand : Hand
empty_hand = 0

-- kBits: where the count of a type starts; promoted types and the king stand at 0.
abbrev pub k_bits : List ℕ
k_bits = 0 ∷ 0 ∷ 8 ∷ 12 ∷ 16 ∷ 20 ∷ 24 ∷ 28 ∷ []

-- kMask: the width of the count of a type, as a mask.
abbrev pub k_mask : List ℕ
k_mask = 0 ∷ 31 ∷ 7 ∷ 7 ∷ 7 ∷ 3 ∷ 3 ∷ 7 ∷ []

abbrev pub shift_of : PieceType → ℕ
shift_of pt = get_or k_bits pt 0

abbrev pub mask_of : PieceType → ℕ
mask_of pt = get_or k_mask pt 0

-- kMask2, the mask at its place.
abbrev pub mask_at : PieceType → ℕ
mask_at pt = mask_of pt * 2 ^ shift_of pt

-- kOne: one piece at its place, and 0 for what cannot be in hand.
abbrev pub k_one : List ℕ
k_one = 0 ∷ 2 ^ 0 ∷ 2 ^ 8 ∷ 2 ^ 12 ∷ 2 ^ 16 ∷ 2 ^ 20 ∷ 2 ^ 24 ∷ 2 ^ 28 ∷ []

abbrev pub one_of : PieceType → ℕ
one_of pt = get_or k_one pt 0

unfoldable pub count : Hand → PieceType → ℕ
count h pt = bit_and (h / 2 ^ shift_of pt) (mask_of pt)

unfoldable pub has : Hand → PieceType → Bool
has h pt = not (bit_and h (mask_at pt) == 0)

unfoldable pub is_empty_hand : Hand → Bool
is_empty_hand h = h == 0

-- Both wrap in 32 bits.
unfoldable pub add : Hand → PieceType → Hand
add h pt = u32 (h + one_of pt)

unfoldable pub sub : Hand → PieceType → Hand
sub h pt = u32 (h + 2 ^ 32 - one_of pt)

abbrev pub borrow_mask : ℕ
borrow_mask = 2 ^ 5 + 2 ^ 11 + 2 ^ 15 + 2 ^ 19 + 2 ^ 22 + 2 ^ 26 + 2 ^ 31

unfoldable pub dominates : Hand → Hand → Bool
dominates h other = bit_and (u32 (h + 2 ^ 32 - other)) borrow_mask == 0
