-- ===== src/Shogi/Position/Invariant.antt =====
-- Every playable move keeps a position well formed: the bitboards, the king squares and the hash.
use jhbr.Base.{
  ◌<◌, ◌≡◌, ◌≢◌, refl, sym, ap, ap₂, subst, ◌∙◌, inl, inr, Bool, true, false, Option, arith, ◌==◌,
  ==→eq, eq→==, length, get_or, set, get_or-set_self, get_or-set_ne, Bool-cases,
}
use jhbr.Shogi.Piece.{Color, black, white, Piece, is_none, get_color, get_type, make, king}
use jhbr.Shogi.Piece.Laws.{get_type-make, get_color-make, make-lt, make_lem}
use jhbr.Shogi.Square.{Square}
use jhbr.Shogi.Move.{Move, is_drop, drop_piece, to_square, from_square}
use jhbr.Shogi.Zobrist.{Zobrist}
use jhbr.Shogi.Position.{Position, Sides, side, set_side, piece_on, put_piece, remove_piece}
use jhbr.Shogi.Position.Make.{landing, do_move_internal}
use jhbr.Shogi.Position.Keys.{compute_hash}
use jhbr.Shogi.Position.Consistent.{Consistent, put_piece-Consistent, remove_piece-Consistent}
use jhbr.Shogi.Position.Placement.{KingsKnown, king-ne-zero, remove_piece-KingsKnown, piece_valid}
use jhbr.Shogi.Position.Shift.{
  IsShift, Lands, landing-Lands, moved, uncovered, uncovered_free, uncovered-KingsKnown,
  uncovered-IsShift,
}
use jhbr.Shogi.Position.Undo.{IsPlayable, IsDropOf}
use jhbr.Shogi.Position.Hash.{after}
use jhbr.Shogi.Position.HashInvariant.{hash-do_move}

side-set_side {ℓ} : {A : Type ℓ} (s : Sides A) (k : Color) (v : A) → side (set_side s k v) k ≡ v
side-set_side s black v = refl
side-set_side s white v = refl

-- A side is kept by a write to the other, and a write to itself is excluded.
side_kept {ℓ} :
    {A : Type ℓ} (s : Sides A) (j k : Color) (v : A) → j ≢ k → side (set_side s j v) k ≡ side s k
side_kept s black black v n = absurd (n refl)
side_kept s black white v n = refl
side_kept s white black v n = refl
side_kept s white white v n = absurd (n refl)

module _ (p : Position) (c : Consistent p) (known : KingsKnown p) (sq : Square)
    (small : sq < 81) where
  inside : sq < length p.board
  inside = omega (arith, c.squares)

  -- Where no second king of one side is put.
  pub put_piece-KingsKnown :
      (pc : Piece)
      → ((k : Color) (s : Square) → s < 81 → pc ≡ make k king → piece_on p s ≢ make k king)
      → (get_type pc ≡ king → pc < 32)
      → KingsKnown (put_piece sq pc p)
  unfolding put_piece
  put_piece-KingsKnown pc single range k s h e = elim (Bool-cases (sq == s)) [
    | inl q ↦
        subst (λ t. side (put_piece sq pc p).king_sq k ≡ t) (==→eq sq s q) (crowned (is_king q))
    | inr q ↦ elim (Bool-cases (get_type pc == king)) [
      | inl t ↦ rw t (side_kept p.king_sq (get_color pc) k sq (other q t) ∙ known k s h (old q))
      | inr t ↦ rw t (known k s h (old q))
    ]
  ]
    where
      is_king : (sq == s) ≡ true → pc ≡ make k king
      is_king q =
          sym (get_or-set_self p.board sq pc 0 inside)
          ∙ ap (λ t. get_or (set p.board sq pc) t 0) (==→eq sq s q)
          ∙ e

      crowned : pc ≡ make k king → side (put_piece sq pc p).king_sq k ≡ sq
      crowned q =
          unfold put_piece in
          rw (q, get_type-make k king (omega arith), get_color-make k king (omega arith))
            (side-set_side p.king_sq k sq)

      old : (sq == s) ≡ false → piece_on p s ≡ make k king
      old q = sym (get_or-set_ne p.board sq s pc 0 (λ r. absurd ground (arith, q, r))) ∙ e

      other : (sq == s) ≡ false → (get_type pc == king) ≡ true → get_color pc ≢ k
      other q t r =
          single k s h (sym (make_lem pc (range (==→eq _ king t))) ∙ ap₂ make r (==→eq _ king t))
            (old q)

-- What a position keeps from move to move.
pub record WellFormed (z : Zobrist) (p : Position) : Type 0 where
  pub consistent : Consistent p
  pub known : KingsKnown p
  pub hashed : p.hash ≡ compute_hash z p

-- The placement after a move to an empty square.
module _ (m : Move) (p : Position) (c : Consistent p) (known : KingsKnown p) (h : IsShift m p)
    (free : piece_on p (to_square m) ≡ 0) where
  abbrev x : Piece
  x = piece_on p (from_square m)

  abbrev l : Piece
  l = landing m x

  abbrev lifted : Position
  lifted = remove_piece (from_square m) p

  lands : Lands x l m
  lands =
      let v = piece_valid p c known (from_square m) h.from_small h.there in
      landing-Lands m x v.0 v.1 v.2 h.promotes

  lifted-Consistent : Consistent lifted
  lifted-Consistent = remove_piece-Consistent p c (from_square m) h.from_small h.there

  moved-Consistent : Consistent (moved m p)
  unfolding remove_piece
  moved-Consistent =
      put_piece-Consistent lifted lifted-Consistent (to_square m) h.to_small l
        (get_or-set_ne p.board (from_square m) (to_square m) 0 0 h.moves ∙ free) lands.lo lands.hi
        lands.range

  lifted-KingsKnown : KingsKnown lifted
  lifted-KingsKnown = remove_piece-KingsKnown p c known (from_square m) h.from_small

  moved-KingsKnown : KingsKnown (moved m p)
  moved-KingsKnown =
      put_piece-KingsKnown lifted lifted-Consistent lifted-KingsKnown (to_square m) h.to_small l
        alone (λ e. lands.range)
    where
      crowned : (k : Color) → l ≡ make k king → get_type x ≡ king
      crowned k e =
          ==→eq _ king
            (sym lands.crowned ∙ eq→== _ king (ap get_type e ∙ get_type-make k king (omega arith)))

      at_from : (k : Color) → l ≡ make k king → x ≡ make k king
      at_from k e =
          sym (make_lem x (piece_valid p c known (from_square m) h.from_small h.there).2)
          ∙ ap₂ make (sym lands.colored ∙ ap get_color e ∙ get_color-make k king (omega arith))
              (crowned k e)

      alone : (k : Color) (s : Square) → s < 81 → l ≡ make k king → piece_on lifted s ≢ make k king
      alone k s small e there = elim (Bool-cases (from_square m == s)) [
        | inl q ↦ king-ne-zero k (sym there ∙ gone (==→eq (from_square m) s q))
        | inr q ↦ ground (
          arith,
          q,
          known k (from_square m) h.from_small (at_from k e),
          known k s small (sym (elsewhere s (λ r. absurd ground (arith, q, r))) ∙ there),
        )
      ]
        where
          gone : from_square m ≡ s → piece_on lifted s ≡ 0
          gone q =
              unfold remove_piece in
              ap (λ t. get_or (set p.board (from_square m) 0) t 0) (sym q)
              ∙ get_or-set_self p.board (from_square m) 0 0 (omega (arith, c.squares, h.from_small))

          elsewhere : (t : Square) → from_square m ≢ t → piece_on lifted t ≡ piece_on p t
          elsewhere t n = unfold remove_piece in get_or-set_ne p.board (from_square m) t 0 0 n

module _ (z : Zobrist) (in_check : Position → Color → Bool) (m : Move) (gives_check : Option Bool)
    (p : Position) (c : Consistent p) (known : KingsKnown p) where
  abbrev next : Position
  next = after z in_check m gives_check p

  abbrev to : Square
  to = to_square m

  abbrev from : Square
  from = from_square m

  module _ (d : is_drop m ≡ true) (h : IsDropOf m p) where
    abbrev pc : Piece
    pc = make p.side_to_move (drop_piece m)

    type : get_type pc ≡ drop_piece m
    type = get_type-make p.side_to_move (drop_piece m) (omega (arith, h.hi))

    range : pc < 32
    range = make-lt p.side_to_move (drop_piece m) (omega (arith, h.hi))

    drop-Consistent : Consistent next
    unfolding do_move_internal put_piece
    drop-Consistent =
        rw (d, do_move_internal)
          (put_piece-Consistent p c to h.to_small pc h.free (omega (arith, type, h.lo))
            (omega (arith, type, h.hi)) range)

    drop-KingsKnown : KingsKnown next
    unfolding do_move_internal put_piece
    drop-KingsKnown =
        rw (d, do_move_internal)
          (put_piece-KingsKnown p c known to h.to_small pc
            (λ k s lt e. absurd (omega (arith, type, h.hi, ap get_type e, get_type-make k king)))
            (λ e. range))

  module _ (d : is_drop m ≡ false) (h : IsShift m p) where
    quiet-Consistent : piece_on p to ≡ 0 → is_none (piece_on p to) ≡ true → Consistent next
    unfolding do_move_internal put_piece remove_piece
    quiet-Consistent free n = rw (d, n, do_move_internal) (moved-Consistent m p c known h free)

    quiet-KingsKnown : piece_on p to ≡ 0 → is_none (piece_on p to) ≡ true → KingsKnown next
    unfolding do_move_internal put_piece remove_piece
    quiet-KingsKnown free n = rw (d, n, do_move_internal) (moved-KingsKnown m p c known h free)

    module _ (n : is_none (piece_on p to) ≡ false) where
      abbrev u : Position
      u = uncovered m p c known h n

      u-Consistent : Consistent u
      u-Consistent = remove_piece-Consistent p c to h.to_small n

      capture-Consistent : Consistent next
      unfolding do_move_internal put_piece remove_piece
      capture-Consistent =
          rw (d, n, do_move_internal)
            (moved-Consistent m u u-Consistent (uncovered-KingsKnown m p c known h n)
              (uncovered-IsShift m p c known h n) (uncovered_free m p c known h n))

      capture-KingsKnown : KingsKnown next
      unfolding do_move_internal put_piece remove_piece
      capture-KingsKnown =
          rw (d, n, do_move_internal)
            (moved-KingsKnown m u u-Consistent (uncovered-KingsKnown m p c known h n)
              (uncovered-IsShift m p c known h n) (uncovered_free m p c known h n))

    empty_square : is_none (piece_on p to) ≡ true → piece_on p to ≡ 0
    unfolding is_none
    empty_square n = ==→eq _ 0 n

    shift-WellFormed : Consistent next × KingsKnown next
    shift-WellFormed = elim (Bool-cases (is_none (piece_on p to))) [
      | inl n ↦ (quiet-Consistent (empty_square n) n, quiet-KingsKnown (empty_square n) n)
      | inr n ↦ (capture-Consistent n, capture-KingsKnown n)
    ]

  placed : IsPlayable m p → Consistent next × KingsKnown next
  placed h = elim (Bool-cases (is_drop m)) [
    | inl d ↦ (drop-Consistent d (rw d at h), drop-KingsKnown d (rw d at h))
    | inr d ↦ shift-WellFormed d (rw d at h)
  ]

-- A playable move leads from a well-formed position to a well-formed one.
pub do_move-WellFormed :
    (z : Zobrist) (in_check : Position → Color → Bool) (m : Move) (gives_check : Option Bool)
    (p : Position)
    → WellFormed z p
    → IsPlayable m p
    → WellFormed z (after z in_check m gives_check p)
do_move-WellFormed z in_check m gives_check p w h =
    let q = placed z in_check m gives_check p w.consistent w.known h in
    record {
      consistent = q.0;
      known = q.1;
      hashed = hash-do_move z in_check m gives_check p w.consistent w.known w.hashed h;
    }
