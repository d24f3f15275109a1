-- ===== src/Book/Tests.antt =====
-- The theorems on YBB books at a concrete file of one entry.
use jhbr.Base.{
  not, ◌==◌, if◌then◌else◌, ℕ, zero, suc, ◌+◌, ◌*◌, ◌<◌, ◌≡◌, refl, List, [], ◌∷◌, ◌++◌, Option,
  none, some, arith, replicate, take, drop, get_or-replicate, negsuc, int16_of, uint16_of,
}
use jhbr.Book.Exit.{
  degrees, count_nodes, count_edges, count_edge, count_internal, solve_degrees, offsets_from,
  place_nodes, place_edges, place_edge, seed, immediately_finite, propagate, relax_all, relax,
  Graph, ExitResult, solved, GoteExitSolution, solve_gote_exit_graph,
}
use jhbr.Book.Format.{
  YbbIndexEntry, YbbMoveRecord, store_le16, store_le64, read_le16, read_le64, ybb_index_size,
  ybb_move_record_size, ybb_header, encode_ybb_index_entry, decode_ybb_index_entry,
  encode_ybb_move_record, decode_ybb_move_record,
}
use jhbr.Book.Format.Bytes.{IsBytes}
use jhbr.Book.Format.Index.{IsEntry, decode-encode_ybb_index_entry}
use jhbr.Book.Format.Record.{stored, decode-encode_ybb_move_record}
use jhbr.Book.Reader.{
  OpeningBook, loaded, load, read_at, validate_file, read_index_entry, read_move,
}
use jhbr.Book.Reader.Loaded.{load-read_index_entry}
use jhbr.Book.Probe.{search, best_move}
use jhbr.Book.Probe.Search.{IsSortedIndex, Searched, search_lem}
use jhbr.Book.Probe.Best.{BestOf, best_move_lem}

zeros-IsBytes : (n : ℕ) → IsBytes (replicate n 0)
zeros-IsBytes n i = omega (arith, get_or-replicate {A = ℕ} n i 0)

abbrev an_entry : YbbIndexEntry
an_entry = record { packed_sfen = replicate 32 0; moves_offset = 0; ply = 7; move_count = 1 }

an_entry-IsEntry : IsEntry an_entry
an_entry-IsEntry = record {
  packed_length = refl;
  packed_bytes = zeros-IsBytes 32;
  offset_range = omega arith;
  ply_range = omega arith;
  count_range = omega arith;
}

decode-encode_ybb_index_entry_example :
    decode_ybb_index_entry (encode_ybb_index_entry an_entry (replicate 44 0)) ≡ an_entry
decode-encode_ybb_index_entry_example =
    decode-encode_ybb_index_entry an_entry (replicate 44 0) an_entry-IsEntry refl (zeros-IsBytes 44)

abbrev a_record : YbbMoveRecord
a_record = record { move = 3869; eval = negsuc 41; depth = 12 }

decode-encode_ybb_move_record_example :
    decode_ybb_move_record (encode_ybb_move_record a_record (replicate 6 0)) 1 ≡ stored 1 a_record
decode-encode_ybb_move_record_example =
    decode-encode_ybb_move_record a_record (replicate 6 0) 1
      (record { move_range = omega arith; eval_range = omega arith; depth_range = omega arith })
      refl (zeros-IsBytes 6)

-- A file with one position and one move.
abbrev a_file : List ℕ
a_file =
    ybb_header 1 1
    ++ encode_ybb_index_entry an_entry (replicate 44 0)
    ++ encode_ybb_move_record a_record (replicate 6 0)

abbrev a_book : OpeningBook
a_book = record { file = a_file; record_count = 1; flags = 1; moves_base = 76; file_size = 82 }

a_file_loads : load (some a_file) ≡ loaded a_book
unfolding load read_at ybb_header store_le64 encode_ybb_index_entry store_le16
    encode_ybb_move_record read_le64 ybb_index_size validate_file read_index_entry
    decode_ybb_index_entry read_le16 ybb_move_record_size
a_file_loads = refl

load-read_index_entry_example :
    read_index_entry a_book 0 ≡ some (decode_ybb_index_entry (take 44 (drop (32 + 0 * 44) a_file)))
load-read_index_entry_example = load-read_index_entry a_file a_book 0 a_file_loads (omega arith)

reads_entry : (i : ℕ) → i < 1 → read_index_entry a_book i ≡ some an_entry
unfolding read_at ybb_header store_le64 encode_ybb_index_entry store_le16 encode_ybb_move_record
    read_le64 read_index_entry decode_ybb_index_entry read_le16
reads_entry zero lt = refl
reads_entry (suc i) lt = absurd (omega arith)

a_book-IsSortedIndex : IsSortedIndex a_book (λ i. an_entry)
a_book-IsSortedIndex = record {
  readable = reads_entry;
  ascending = λ i j lt small. absurd (omega arith);
}

search_lem_example :
    Searched a_book (λ i. an_entry) (replicate 32 0) (search a_book (replicate 32 0) 1 0 1)
search_lem_example =
    search_lem a_book (λ i. an_entry) (replicate 32 0) a_book-IsSortedIndex (λ i lt. refl)

reads_move : (i : ℕ) → i < 1 → read_move a_book an_entry i ≡ some a_record
unfolding read_at ybb_header store_le64 encode_ybb_index_entry store_le16 encode_ybb_move_record
    read_move ybb_move_record_size decode_ybb_move_record read_le16 int16_of uint16_of
reads_move zero lt = refl
reads_move (suc i) lt = absurd (omega arith)

best_move_lem_example :
    (c : Option YbbMoveRecord) × (best_move a_book an_entry (3869 ∷ []) 1 0 none ≡ some c)
    × BestOf (3869 ∷ []) (λ i. a_record) 1 c
best_move_lem_example = best_move_lem (3869 ∷ []) (λ i. a_record) a_book an_entry reads_move

-- A gote node with an edge to a sente node, which leads back or to a gote node that leaves the book.
abbrev children : ℕ → ℕ → ℕ
children node edge =
    if node == 0 then 1 else if node == 1 then (if edge == 0 then 0 else 2) else 4294967295

abbrev a_graph : Graph
a_graph = record {
  node_count = 3;
  is_gote = λ node. not (node == 1);
  edge_count = λ node. if node == 1 then 2 else 1;
  edge_child = children;
}

abbrev a_solution : ExitResult GoteExitSolution
a_solution = solve_gote_exit_graph a_graph

-- Sente keeps to the cycle: only the last node can be forced out.
a_graph_solved :
    a_solution
    ≡ solved (record {
      distance = 4294967295 ∷ 4294967295 ∷ 1 ∷ [];
      allowed_internal_edges = 3;
      finite_nodes = 1;
      infinite_nodes = 2;
    })
unfolding solve_gote_exit_graph degrees count_nodes count_edges count_edge count_internal
    solve_degrees offsets_from place_nodes place_edges place_edge seed immediately_finite propagate
    relax_all relax
a_graph_solved = refl
