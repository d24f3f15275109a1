-- ===== src/Shogi/Sfen/Read.antt =====
-- ShogiBoard::SetFromSfen of shogi/board.cc.
use jhbr.Base.{
  ℕ, zero, suc, ◌+◌, ◌-◌, ◌*◌, Bool, true, false, not, ◌&&◌, ◌||◌, List, [], ◌∷◌, ltb, leb, ◌==◌,
  if◌then◌else◌,
}
use jhbr.Shogi.Piece.{Color, black, white, PieceType, make, promote_type, is_valid_type, type_parse}
use jhbr.Shogi.Square.{square_of}
use jhbr.Shogi.Hand.{Hand, add}
use jhbr.Shogi.Zobrist.{Zobrist}
use jhbr.Shogi.Position.{Position, Sides, side, set_side, empty_position, put_piece}
use jhbr.Shogi.Position.Keys.{compute_hash}
use jhbr.Shogi.Repetition.{clear_history}

-- What reading a text comes to. `outside` is what the model leaves out: a piece off the board, which
-- the code does not exclude, and a ply with a minus sign.
pub data SfenResult {ℓ} (A : Type ℓ) : Type ℓ where
  accepted : A → SfenResult A
  rejected outside : SfenResult A

infixl 5 ◌>>=◌
abbrev pub ◌>>=◌ {ℓ κ} :
    {A : Type ℓ} {B : Type κ} → SfenResult A → (A → SfenResult B) → SfenResult B
accepted a >>= f = f a
rejected >>= f = rejected
outside >>= f = outside

-- `operator>>` into a string: the white space before a word is skipped, and the word ends before the
-- next.
unfoldable pub is_space : ℕ → Bool
is_space c = c == b' ' || (leb 9 c && leb c 13)

unfoldable pub skip_spaces : List ℕ → List ℕ
skip_spaces [] = []
skip_spaces (c ∷ cs) = let rest = skip_spaces cs in if is_space c then rest else c ∷ cs

unfoldable pub word : List ℕ → List ℕ × List ℕ
word [] = ([], [])
word (c ∷ cs) = let rest = word cs in if is_space c then ([], c ∷ cs) else (c ∷ rest.0, rest.1)

unfoldable pub next_word : List ℕ → List ℕ × List ℕ
next_word cs = word (skip_spaces cs)

-- The loop over the placement. `left` is `f + 1`, and 0 where `f` is negative.
pub record Cursor : Type 0 where
  pub left : ℕ
  pub rank : ℕ
  pub promoted : Bool
  pub placed : Position

abbrev pub color_of_letter : ℕ → Color
color_of_letter c = if leb b'A' c && leb c b'Z' then black else white

unfoldable pub place_letter : ℕ → Cursor → SfenResult Cursor
place_letter c k =
    let pt = type_parse c in
    let put = if k.promoted then promote_type pt else pt in
    if not (is_valid_type pt)
    then rejected
    else if k.left == 0 || leb 9 k.rank
    then outside
    else accepted (record k {
      left = k.left - 1;
      promoted = false;
      placed = put_piece (square_of (k.left - 1) k.rank) (make (color_of_letter c) put) k.placed;
    })

unfoldable pub place_char : ℕ → Cursor → SfenResult Cursor
place_char c k =
    if c == b'/'
    then accepted (record k { left = 9; rank = k.rank + 1 })
    else if c == b'+'
    then accepted (record k { promoted = true })
    else if leb b'1' c && leb c b'9'
    then accepted (record k { left = k.left - (c - b'0') })
    else place_letter c k

unfoldable pub place_all : List ℕ → Cursor → SfenResult Cursor
place_all [] k = accepted k
place_all (c ∷ cs) k = place_char c k >>= place_all cs

unfoldable pub add_times : ℕ → PieceType → Hand → Hand
add_times zero pt h = h
add_times (suc n) pt h = add_times n pt (add h pt)

unfoldable pub is_digit : ℕ → Bool
is_digit c = leb b'0' c && leb c b'9'

-- The loop over the hand pieces, after the number `n`, which may pass the range of an int.
unfoldable pub read_hands : List ℕ → ℕ → Sides Hand → Sides Hand
read_hands [] n hands = hands
read_hands (c ∷ cs) n hands =
    let who = color_of_letter c in
    let times = if n == 0 then 1 else n in
    let number = read_hands cs (n * 10 + (c - b'0')) hands in
    let held =
      read_hands cs 0 (set_side hands who (add_times times (type_parse c) (side hands who))) in
    if is_digit c then number else held

abbrev pub is_dash : List ℕ → Bool
is_dash [] = false
is_dash (c ∷ []) = c == b'-'
is_dash (c ∷ d ∷ ds) = false

-- std::stoi, with 1 for what it throws on.
unfoldable pub leading_number : List ℕ → ℕ → ℕ
leading_number [] n = n
leading_number (c ∷ cs) n =
    let rest = leading_number cs (n * 10 + (c - b'0')) in if is_digit c then rest else n

unfoldable pub unsigned_ply : List ℕ → SfenResult ℕ
unsigned_ply [] = accepted 1
unsigned_ply (c ∷ cs) =
    let n = leading_number (c ∷ cs) 0 in
    if is_digit c then (if ltb 2147483647 n then accepted 1 else accepted n) else accepted 1

-- After a minus sign.
unfoldable pub negative_ply : List ℕ → SfenResult ℕ
negative_ply [] = accepted 1
negative_ply (c ∷ cs) = if is_digit c then outside else accepted 1

unfoldable pub read_ply : List ℕ → SfenResult ℕ
read_ply [] = accepted 1
read_ply (c ∷ cs) =
    if c == b'-'
    then negative_ply cs
    else if c == b'+'
    then unsigned_ply cs
    else unsigned_ply (c ∷ cs)

abbrev pub is_w : List ℕ → Bool
is_w [] = false
is_w (c ∷ []) = c == b'w'
is_w (c ∷ d ∷ ds) = false

abbrev pub set_up_sfen : Zobrist → Color → Sides Hand → ℕ → Position → Position
set_up_sfen z turn hands ply p =
    let q = record p { side_to_move = turn; hand = hands; ply = ply } in
    clear_history (record q { hash = compute_hash z q })

abbrev pub sfen_start : Cursor
sfen_start = record { left = 9; rank = 0; promoted = false; placed = empty_position }

-- What SetFromSfen does with the four words.
unfoldable pub set_from_words : Zobrist → List ℕ → List ℕ → List ℕ → List ℕ → SfenResult Position
set_from_words z board_str side_str hand_str ply_str =
    let hands =
      (if is_dash hand_str
        then empty_position.hand
        else read_hands hand_str 0 empty_position.hand) in
    place_all board_str sfen_start >>= λ k. read_ply ply_str >>= λ ply.
    accepted (set_up_sfen z (if is_w side_str then white else black) hands ply k.placed)

-- ShogiBoard::SetFromSfen
unfoldable pub set_from_sfen : Zobrist → List ℕ → SfenResult Position
unfolding set_from_words
set_from_sfen z text =
    let board_str = next_word text in
    let side_str = next_word board_str.1 in
    let hand_str = next_word side_str.1 in
    let ply_str = next_word hand_str.1 in
    set_from_words z board_str.0 side_str.0 hand_str.0 ply_str.0
