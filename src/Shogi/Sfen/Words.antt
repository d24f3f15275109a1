-- ===== src/Shogi/Sfen/Words.antt =====
-- The words of SFEN text are found between its spaces.
use jhbr.Base.{
  ℕ, ◌≡◌, refl, ap, ◌∙◌, Bool, true, false, not, ◌&&◌, List, [], ◌∷◌, ◌++◌, arith, ◌==◌,
}
use jhbr.Shogi.Sfen.Read.{is_space, is_digit, skip_spaces, word, next_word}
use jhbr.Shogi.Sfen.Decimal.{Every, Begins}

-- Neither white space nor a dash.
unfoldable pub is_plain : ℕ → Bool
is_plain c = not (is_space c) && not (c == b'-')

pub plain_not_space : (c : ℕ) → is_plain c ≡ true → is_space c ≡ false
unfolding is_plain
plain_not_space c h = ground (arith, h)

pub digit-plain : (c : ℕ) → is_digit c ≡ true → is_plain c ≡ true
unfolding is_plain is_space is_digit
digit-plain c h = ground (arith, h)

pub Every-impl :
    (p q : ℕ → Bool) (cs : List ℕ) → ((c : ℕ) → p c ≡ true → q c ≡ true) → Every p cs → Every q cs
Every-impl p q [] f h = tt
Every-impl p q (c ∷ cs) f h = (f c h.0, Every-impl p q cs f h.1)

abbrev pub visible : ℕ → Bool
visible c = not (is_space c)

visible_lem : (c : ℕ) → visible c ≡ true → is_space c ≡ false
visible_lem c h = ground (arith, h)

-- A text without white space, and not empty.
abbrev pub IsWord : List ℕ → Type 0
IsWord cs = Every visible cs × Begins visible cs

word_spaced : (cs rest : List ℕ) → Every visible cs → word (cs ++ b' ' ∷ rest) ≡ (cs, b' ' ∷ rest)
unfolding word is_space
word_spaced [] rest h = refl
word_spaced (c ∷ cs) rest h =
    rw (visible_lem c h.0) (ap (λ (r : List ℕ × List ℕ). (c ∷ r.0, r.1)) (word_spaced cs rest h.1))

word_last : (cs : List ℕ) → Every visible cs → word cs ≡ (cs, [])
unfolding word
word_last [] h = refl
word_last (c ∷ cs) h =
    rw (visible_lem c h.0) (ap (λ (r : List ℕ × List ℕ). (c ∷ r.0, r.1)) (word_last cs h.1))

skip_word : (cs rest : List ℕ) → Begins visible cs → skip_spaces (cs ++ rest) ≡ cs ++ rest
unfolding skip_spaces
skip_word [] rest h = absurd h
skip_word (c ∷ cs) rest h = rw (visible_lem c h) refl

-- The first word of a text is read up to the space, past a space before it.
pub next_word-spaced :
    (cs rest : List ℕ) → IsWord cs → next_word (cs ++ b' ' ∷ rest) ≡ (cs, b' ' ∷ rest)
unfolding next_word
next_word-spaced cs rest h = ap word (skip_word cs (b' ' ∷ rest) h.1) ∙ word_spaced cs rest h.0

pub next_word-space : (rest : List ℕ) → next_word (b' ' ∷ rest) ≡ next_word rest
unfolding next_word skip_spaces is_space
next_word-space rest = refl

skip_last : (cs : List ℕ) → Begins visible cs → skip_spaces cs ≡ cs
unfolding skip_spaces
skip_last [] h = absurd h
skip_last (c ∷ cs) h = rw (visible_lem c h) refl

pub next_word-last : (cs : List ℕ) → IsWord cs → next_word cs ≡ (cs, [])
unfolding next_word
next_word-last cs h = ap word (skip_last cs h.1) ∙ word_last cs h.0
