-- ===== src/Book/Probe.antt =====
-- OpeningBook::Probe of book/opening_book.cc, and the choice of a book of book/book_selection.h.
pub mod Order
pub mod Search
pub mod Best
use jhbr.Base.{
  ℕ, zero, suc, ◌+◌, ◌-◌, ◌/◌, Bool, true, false, ◌&&◌, ◌||◌, ◌==◌, ltb, List, [], ◌∷◌, Option,
  none, some, if◌then◌else◌, ℤ, ltℤ, ◌>>=◌,
}
use jhbr.Shogi.Piece.{Color, black, white}
use jhbr.Shogi.Move.{Move}
use jhbr.Book.Format.{PackedSfen, YbbIndexEntry, YbbMoveRecord}
use jhbr.Book.Reader.{OpeningBook, read_index_entry, read_move}

-- The sign of a memcmp.
pub data Sign : Type 0 where
  less equal greater : Sign

-- ComparePackedSfen, on two arrays of one length.
unfoldable pub compare_packed_sfen : PackedSfen → PackedSfen → Sign
compare_packed_sfen [] ys = equal
compare_packed_sfen (x ∷ xs) [] = equal
compare_packed_sfen (x ∷ xs) (y ∷ ys) =
    let rest = compare_packed_sfen xs ys in
    if ltb x y then less else if ltb y x then greater else rest

pub data SearchResult : Type 0 where
  unreadable absent : SearchResult
  found : ℕ → YbbIndexEntry → SearchResult

-- The loop of the binary search. Each round uses one unit of fuel.
unfoldable pub search : OpeningBook → PackedSfen → ℕ → ℕ → ℕ → SearchResult
search book target zero left right = absent
search book target (suc fuel) left right = elim (ltb left right) [
  | false ↦ absent
  | true ↦ elim (read_index_entry book (left + (right - left) / 2)) [
    | none ↦ unreadable
    | some entry ↦ elim (compare_packed_sfen target entry.packed_sfen) [
      | less ↦ search book target fuel left (left + (right - left) / 2)
      | greater ↦ search book target fuel (left + (right - left) / 2 + 1) right
      | equal ↦ found (left + (right - left) / 2) entry
    ]
  ]
]

unfoldable pub is_legal : List Move → Move → Bool
is_legal [] m = false
is_legal (l ∷ ls) m = l == m || is_legal ls m

-- A legal candidate takes the place of the best one when its value is higher.
unfoldable pub keep_best : List Move → YbbMoveRecord → Option YbbMoveRecord → Option YbbMoveRecord
keep_best legal_moves candidate none =
    if is_legal legal_moves candidate.move then some candidate else none
keep_best legal_moves candidate (some best) =
    if is_legal legal_moves candidate.move && ltℤ best.eval candidate.eval
    then some candidate
    else some best

-- The loop over the moves of an entry from `i` on, `n` of which are left. A failed read ends it.
unfoldable pub best_move :
    OpeningBook
    → YbbIndexEntry
    → List Move
    → ℕ
    → ℕ
    → Option YbbMoveRecord
    → Option (Option YbbMoveRecord)
best_move book entry legal_moves zero i best = some best
best_move book entry legal_moves (suc n) i best = read_move book entry i >>= λ candidate.
    best_move book entry legal_moves n (i + 1) (keep_best legal_moves candidate best)

pub record BookEntry : Type 0 where
  pub move : Move
  pub eval : ℤ
  pub depth : ℕ

abbrev pub book_entry : YbbMoveRecord → BookEntry
book_entry best = record { move = best.move; eval = best.eval; depth = best.depth }

abbrev pub answer : Option (Option YbbMoveRecord) → Option BookEntry
answer none = none
answer (some none) = none
answer (some (some best)) = some (book_entry best)

abbrev pub probe_entry : OpeningBook → List Move → SearchResult → Option BookEntry
probe_entry book legal_moves unreadable = none
probe_entry book legal_moves absent = none
probe_entry book legal_moves (found i entry) =
    if entry.move_count == 0
    then none
    else answer (best_move book entry legal_moves entry.move_count 0 none)

-- Probe: `target` is the packed position, if it can be packed.
unfoldable pub probe : OpeningBook → Option PackedSfen → List Move → Option BookEntry
probe book none legal_moves = none
probe book (some target) legal_moves =
    probe_entry book legal_moves (search book target book.record_count 0 book.record_count)

pub data OpeningBookChoice : Type 0 where
  no_book normal gote_exit : OpeningBookChoice

-- ChooseOpeningBook
unfoldable pub choose_opening_book : Color → Bool → Bool → Bool → OpeningBookChoice
choose_opening_book side_to_move use_gote_exit_book normal_book_loaded gote_exit_book_loaded =
    if elim side_to_move [ white ↦ true | black ↦ false ] && use_gote_exit_book
    then (if gote_exit_book_loaded then gote_exit else no_book)
    else if normal_book_loaded
    then normal
    else no_book
