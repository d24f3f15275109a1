-- ===== src/Shogi/Position/Placement.antt =====
-- The placement of the pieces is restored when a move is taken back, step by step.
use jhbr.Base.{
  ℕ, ◌<◌, ◌≡◌, ◌≢◌, refl, sym, ap, ◌∙◌, subst, inl, inr, true, false, List, arith, ◌==◌, ==→eq,
  if◌then◌else◌, length, length-set, get_or, set, get_or-set_self, get_or-set_ne, set-set, set_comm,
  set-get_or, Bool-cases,
}
use jhbr.Shogi.Piece.{Color, black, white, Piece, is_none, get_color, get_type, make, king}
use jhbr.Shogi.Piece.Laws.{get_type-mod, make_lem}
use jhbr.Shogi.Square.{Square}
use jhbr.Shogi.Position.{Position, Sides, side, set_side, piece_on, put_piece, remove_piece}
use jhbr.Shogi.Position.Consistent.{
  Consistent, put_piece-Consistent, remove_piece-Consistent, by_color_determined,
  by_type_determined,
}

-- The king squares are those where the kings stand.
abbrev pub KingsKnown : Position → Type 0
KingsKnown p =
    (c : Color) (sq : Square) → sq < 81 → piece_on p sq ≡ make c king → side p.king_sq c ≡ sq

pub king-ne-zero : (k : Color) → make k king ≢ 0
unfolding make
king-ne-zero black e = omega arith
king-ne-zero white e = omega arith

-- A write to an empty cell is undone by emptying it.
drop_undone : (xs : List Piece) (i : ℕ) (v : Piece) → get_or xs i 0 ≡ 0 → set (set xs i v) i 0 ≡ xs
drop_undone xs i v e = set-set xs i v 0 ∙ ap (set xs i) (sym e) ∙ set-get_or xs i 0

-- Moving a value from `i` to `j` as `v` and back as what it was leaves `j` emptied.
shift_undone :
    (xs : List Piece) (i j : ℕ) (v : Piece)
    → i ≢ j
    → set (set (set (set xs i 0) j v) j 0) i (get_or xs i 0) ≡ set xs j 0
shift_undone xs i j v ne =
    ap (λ ys. set ys i (get_or xs i 0)) (set-set (set xs i 0) j v 0)
    ∙ ap (λ ys. set ys i (get_or xs i 0)) (set_comm xs i j 0 0 ne)
    ∙ set-set (set xs j 0) i 0 (get_or xs i 0)
    ∙ ap (λ v. set (set xs j 0) i v) (sym (get_or-set_ne xs j i 0 0 (λ e. ne (sym e))))
    ∙ set-get_or (set xs j 0) i 0

-- The same pieces on the same squares.
pub record SamePlacement (p q : Position) : Type 0 where
  pub same_board : p.board ≡ q.board
  pub same_type : p.by_type ≡ q.by_type
  pub same_color : p.by_color ≡ q.by_color
  pub same_king : p.king_sq ≡ q.king_sq

pub set_side_self {ℓ} : {A : Type ℓ} (s : Sides A) (c : Color) → set_side s c (side s c) ≡ s
set_side_self s black = refl
set_side_self s white = refl

pub set_side_twice {ℓ} :
    {A : Type ℓ} (s : Sides A) (c : Color) (v w : A)
    → set_side (set_side s c v) c w ≡ set_side s c w
set_side_twice s black v w = refl
set_side_twice s white v w = refl

pub is_none-of-type : (x : Piece) → 0 < get_type x → is_none x ≡ false
unfolding is_none
is_none-of-type x h = ground (arith, get_type-mod x)

-- Writing the square of a king where it is known already.
king_written :
    (kings : Sides Square) (x : Piece) (sq : Square)
    → (get_type x ≡ king → side kings (get_color x) ≡ sq)
    → (if get_type x == king then set_side kings (get_color x) sq else kings) ≡ kings
king_written kings x sq h = elim (Bool-cases (get_type x == king)) [
  | inl e ↦ rw e (
      subst (λ t. set_side kings (get_color x) t ≡ kings) (h (==→eq (get_type x) king e))
        (set_side_self kings (get_color x)))
  | inr e ↦ rw e
]

placement_of_board :
    (p q : Position)
    → Consistent p
    → Consistent q
    → p.board ≡ q.board
    → p.king_sq ≡ q.king_sq
    → SamePlacement p q
placement_of_board p q cp cq b k = record {
  same_board = b;
  same_type = by_type_determined p q cp cq b;
  same_color = by_color_determined p q cp cq b;
  same_king = k;
}

module _ (p : Position) (c : Consistent p) (known : KingsKnown p) where
  -- A piece on the board is of one of the fourteen types.
  pub piece_valid :
      (sq : Square)
      → sq < 81
      → is_none (piece_on p sq) ≡ false
      → (0 < get_type (piece_on p sq)) × (get_type (piece_on p sq) < 15) × (piece_on p sq < 32)
  unfolding is_none
  piece_valid sq h e = ground (arith, c.valid sq h)

  pub remove_piece-KingsKnown : (sq : Square) → sq < 81 → KingsKnown (remove_piece sq p)
  unfolding remove_piece
  remove_piece-KingsKnown sq small k s h e = elim (Bool-cases (sq == s)) [
    | inl q ↦ absurd (king-ne-zero k (sym e ∙ gone q))
    | inr q ↦
        known k s h (sym (get_or-set_ne p.board sq s 0 0 (λ r. absurd ground (arith, q, r))) ∙ e)
  ]
    where
      gone : (sq == s) ≡ true → get_or (set p.board sq 0) s 0 ≡ 0
      gone q =
          ap (λ t. get_or (set p.board sq 0) t 0) (sym (==→eq sq s q))
          ∙ get_or-set_self p.board sq 0 0 (omega (arith, c.squares))

  king_home :
      (sq : Square)
      → sq < 81
      → is_none (piece_on p sq) ≡ false
      → get_type (piece_on p sq) ≡ king
      → side p.king_sq (get_color (piece_on p sq)) ≡ sq
  king_home sq h e k = known (get_color (piece_on p sq)) sq h (
      sym (make_lem (piece_on p sq) (piece_valid sq h e).2)
      ∙ ap (make (get_color (piece_on p sq))) k)

  -- What was captured is put back.
  pub capture_back :
      (to : Square)
      → to < 81
      → is_none (piece_on p to) ≡ false
      → SamePlacement (put_piece to (piece_on p to) (remove_piece to p)) p
  unfolding put_piece remove_piece
  capture_back to small taken =
      placement_of_board (put_piece to x (remove_piece to p)) p back c
        (set-set p.board to 0 x ∙ set-get_or p.board to 0)
        (king_written p.king_sq x to (king_home to small taken))
    where
      x : Piece
      x = piece_on p to

      v : (0 < get_type x) × (get_type x < 15) × (x < 32)
      v = piece_valid to small taken

      back : Consistent (put_piece to x (remove_piece to p))
      back =
          put_piece-Consistent (remove_piece to p) (remove_piece-Consistent p c to small taken) to
            small x (get_or-set_self p.board to 0 0 (omega (arith, c.squares))) v.0 v.1 v.2

  -- A drop is taken off.
  pub drop_back :
      (to : Square) (x : Piece)
      → to < 81
      → piece_on p to ≡ 0
      → 0 < get_type x
      → get_type x < 8
      → x < 32
      → SamePlacement (remove_piece to (put_piece to x p)) p
  unfolding put_piece remove_piece
  drop_back to x small free lo hi range =
      placement_of_board (remove_piece to (put_piece to x p)) p back c
        (drop_undone p.board to x free) (king_written p.king_sq x to (λ e. absurd (omega arith)))
    where
      there : Consistent (put_piece to x p)
      there = put_piece-Consistent p c to small x free lo (omega arith) range

      shown : is_none (piece_on (put_piece to x p) to) ≡ false
      shown =
          ap is_none (get_or-set_self p.board to x 0 (omega (arith, c.squares)))
          ∙ is_none-of-type x lo

      back : Consistent (remove_piece to (put_piece to x p))
      back = remove_piece-Consistent (put_piece to x p) there to small shown

  -- A piece that moved, and perhaps was promoted, is put back as it was.
  module _ (from to : Square) (l : Piece) (hf : from < 81) (ht : to < 81) (ne : from ≢ to)
      (there : is_none (piece_on p from) ≡ false) (free : piece_on p to ≡ 0) (lo : 0 < get_type l)
      (hi : get_type l < 15) (range : l < 32) (colored : get_color l ≡ get_color (piece_on p from))
      (crowned : (get_type l == king) ≡ (get_type (piece_on p from) == king)) where
    abbrev x : Piece
    x = piece_on p from

    abbrev lifted : Position
    lifted = remove_piece from p

    abbrev shifted : Position
    shifted = put_piece to l lifted

    abbrev relifted : Position
    relifted = remove_piece to shifted

    shifted-Consistent : Consistent shifted
    unfolding remove_piece
    shifted-Consistent =
        put_piece-Consistent lifted (remove_piece-Consistent p c from hf there) to ht l
          (get_or-set_ne p.board from to 0 0 ne ∙ free) lo hi range

    relifted-Consistent : Consistent relifted
    unfolding put_piece remove_piece
    relifted-Consistent =
        remove_piece-Consistent shifted shifted-Consistent to ht
          (ap is_none (get_or-set_self (set p.board from 0) to l 0 fits) ∙ is_none-of-type l lo)
      where
        fits : to < length (set p.board from 0)
        fits = omega (arith, length-set p.board from 0, c.squares)

    returned-Consistent : Consistent (put_piece from x relifted)
    unfolding put_piece remove_piece
    returned-Consistent =
        put_piece-Consistent relifted relifted-Consistent from hf x gone v.0 v.1 v.2
      where
        v : (0 < get_type x) × (get_type x < 15) × (x < 32)
        v = piece_valid from hf there

        gone : piece_on relifted from ≡ 0
        gone =
            get_or-set_ne (set (set p.board from 0) to l) to from 0 0 (λ e. ne (sym e))
            ∙ get_or-set_ne (set p.board from 0) to from l 0 (λ e. ne (sym e))
            ∙ get_or-set_self p.board from 0 0 (omega (arith, c.squares))

    kings_back : (put_piece from x relifted).king_sq ≡ p.king_sq
    unfolding put_piece remove_piece
    kings_back = elim (Bool-cases (get_type x == king)) [
      | inl e ↦
          rw (crowned, e, colored)
            (set_side_twice p.king_sq (get_color x) to from
              ∙ subst (λ t. set_side p.king_sq (get_color x) t ≡ p.king_sq)
                  (king_home from hf there (==→eq (get_type x) king e))
                  (set_side_self p.king_sq (get_color x)))
      | inr e ↦ rw (crowned, e)
    ]

    pub shift_back : SamePlacement (put_piece from x relifted) p
    unfolding put_piece remove_piece
    shift_back =
        placement_of_board (put_piece from x relifted) p returned-Consistent c
          (shift_undone p.board from to l ne
            ∙ ap (set p.board to) (sym free)
            ∙ set-get_or p.board to 0)
          kings_back
