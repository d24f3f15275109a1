-- ===== src/Shogi/Sfen/Plain.antt =====
-- The placement part of SFEN text is one word.
use jhbr.Base.{
  ℕ, zero, suc, ◌+◌, ◌<◌, ◌≡◌, refl, Bool, true, false, List, [], ◌∷◌, ◌++◌, arith, ◌==◌,
  if◌then◌else◌, Bool-cases, inl, inr,
}
use jhbr.Shogi.Piece.{Piece, is_none, get_type, is_promoted}
use jhbr.Shogi.Square.{square_of}
use jhbr.Shogi.Position.{Position, piece_on}
use jhbr.Shogi.Position.Consistent.{Consistent}
use jhbr.Shogi.Sfen.{piece_text, flush, rank_text, ranks_text, to_decimal}
use jhbr.Shogi.Sfen.Read.{is_digit, is_space}
use jhbr.Shogi.Sfen.Decimal.{
  Every, Begins, Every-append, Begins-append, to_decimal-Every, to_decimal-Begins,
}
use jhbr.Shogi.Sfen.Words.{is_plain, digit-plain, Every-impl, visible, IsWord}
use jhbr.Shogi.Sfen.Letters.{Letter}
use jhbr.Shogi.Sfen.Placing.{Letter-piece_on}

pub plain-visible : (c : ℕ) → is_plain c ≡ true → visible c ≡ true
unfolding is_plain
plain-visible c h = ground (arith, h)

-- Not empty, and free of white space and dashes.
abbrev pub IsPlain : List ℕ → Type 0
IsPlain cs = Every is_plain cs × Begins is_plain cs

pub Begins-Every :
    (p : ℕ → Bool) (cs : List ℕ) (q : ℕ → Bool)
    → ((c : ℕ) → p c ≡ true → q c ≡ true)
    → Begins p cs
    → Begins q cs
Begins-Every p [] q f h = absurd h
Begins-Every p (c ∷ cs) q f h = f c h

pub IsPlain-IsWord : (cs : List ℕ) → IsPlain cs → IsWord cs
IsPlain-IsWord cs h = (
  Every-impl is_plain visible cs plain-visible h.0,
  Begins-Every is_plain cs visible plain-visible h.1,
)

pub IsPlain-append : (cs ds : List ℕ) → IsPlain cs → Every is_plain ds → IsPlain (cs ++ ds)
IsPlain-append cs ds h k = (Every-append is_plain cs ds h.0 k, Begins-append is_plain cs ds h.1)

pub to_decimal-IsPlain : (n : ℕ) → IsPlain (to_decimal n)
to_decimal-IsPlain n = (
  Every-impl is_digit is_plain (to_decimal n) digit-plain (to_decimal-Every n),
  Begins-Every is_digit (to_decimal n) is_plain digit-plain (to_decimal-Begins n),
)

flush-Every : (e : ℕ) → Every is_plain (flush e)
flush-Every zero = tt
flush-Every (suc e) = (to_decimal-IsPlain (suc e)).0

-- A text after a count is plain.
flush-IsPlain : (e : ℕ) (cs : List ℕ) → IsPlain cs → IsPlain (flush e ++ cs)
flush-IsPlain zero cs h = h
flush-IsPlain (suc e) cs h = IsPlain-append (to_decimal (suc e)) cs (to_decimal-IsPlain (suc e)) h.0

piece_text-IsPlain : (pc : Piece) → Letter pc → IsPlain (piece_text pc)
unfolding piece_text is_plain is_space
piece_text-IsPlain pc l = elim (Bool-cases (is_promoted (get_type pc))) [
  | inl e ↦ rw e ((refl, ((rw e at l.plain), tt)), refl)
  | inr e ↦ rw e (((rw e at l.plain), tt), (rw e at l.plain))
]

module _ (p : Position) (c : Consistent p) where
  piece_after :
      (e f r : ℕ)
      → f < 9
      → r < 9
      → is_none (piece_on p (square_of f r)) ≡ false
      → IsPlain (flush e ++ piece_text (piece_on p (square_of f r)))
  piece_after e f r hf hr b =
      flush-IsPlain e (piece_text (piece_on p (square_of f r)))
        (piece_text-IsPlain _ (Letter-piece_on p c f r hf hr b))

  rank_text-Every : (r n e : ℕ) → r < 9 → n < 10 → Every is_plain (rank_text p r n e)
  unfolding rank_text
  rank_text-Every r zero e hr hn = flush-Every e
  rank_text-Every r (suc f) e hr hn = elim (Bool-cases (is_none (piece_on p (square_of f r)))) [
    | inl b ↦ rw b (rank_text-Every r f (e + 1) hr (omega arith))
    | inr b ↦ rw b (
        Every-append is_plain _ _ (piece_after e f r (omega arith) hr b).0
          (rank_text-Every r f 0 hr (omega arith)))
  ]

  rank_text-Begins : (r n e : ℕ) → r < 9 → n < 10 → 0 < n + e → Begins is_plain (rank_text p r n e)
  unfolding rank_text
  rank_text-Begins r zero zero hr hn pos = absurd (omega arith)
  rank_text-Begins r zero (suc e) hr hn pos = (to_decimal-IsPlain (suc e)).1
  rank_text-Begins r (suc f) e hr hn pos =
      elim (Bool-cases (is_none (piece_on p (square_of f r)))) [
        | inl b ↦ rw b (rank_text-Begins r f (e + 1) hr (omega arith) (omega arith))
        | inr b ↦
            rw b (
              Begins-append is_plain _ (rank_text p r f 0) (piece_after e f r (omega arith) hr b).1)
      ]

  slash_before : (r : ℕ) → Every is_plain (if r == 0 then [] else b'/' ∷ [])
  unfolding is_plain is_space
  slash_before zero = tt
  slash_before (suc r) = let some : (suc r == 0) ≡ false = ground arith in rw some (refl, tt)

  ranks_text-Every : (n r : ℕ) → r + n ≡ 9 → Every is_plain (ranks_text p r n)
  unfolding ranks_text
  ranks_text-Every zero r h = tt
  ranks_text-Every (suc n) r h =
      Every-append is_plain (_ ++ rank_text p r 9 0) _
        (Every-append is_plain (if r == 0 then [] else b'/' ∷ []) (rank_text p r 9 0)
          (slash_before r) (rank_text-Every r 9 0 (omega arith) (omega arith)))
        (ranks_text-Every n (r + 1) (omega arith))

  -- The placement has no white space in it.
  pub placement-IsWord : IsWord (ranks_text p 0 9)
  unfolding ranks_text
  placement-IsWord = IsPlain-IsWord _ (
      IsPlain-append (rank_text p 0 9 0) (ranks_text p 1 8)
        (
          rank_text-Every 0 9 0 (omega arith) (omega arith),
          rank_text-Begins 0 9 0 (omega arith) (omega arith) (omega arith),
        )
        (ranks_text-Every 8 1 refl))
