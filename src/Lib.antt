-- ===== src/Lib.antt =====
-- JHBR5, a USI shogi engine in C++: a model of its board, its repetition rule, its packed
-- positions, its opening book, the stores beside its network, its search tree and its clock.
--
-- Parts and files.
-- Base: numbers, lists, bits of words, digits of exclusive ors, signed 16-bit integers.
-- Shogi/Piece, Square, Move, Hand: shogi/types.h and struct Piece of shogi/board.h. A value of each
--   class is its raw number (PieceType::idx, Piece::val, Square::idx_, Move::data_, Hand::data_);
--   8-, 16- and 32-bit wrap-around is written out.
-- Shogi/Bitboard: class Bitboard of shogi/bitboard.h, its portable two-word form.
-- Shogi/Zobrist: the key tables, Rand64 and HashHand of shogi/board.cc. The theorems hold of any tables.
-- Shogi/Position: class ShogiBoard. PutPiece and RemovePiece are put_piece and remove_piece; Make has
--   DoMoveInternal and UndoMove, branch by branch; Keys has ComputeHash, HashAfter, BoardKey and
--   BoardKeyAfter. Consistent, Placement, Shift, Undo, Hash, HashInvariant and Invariant prove what one
--   move keeps, Line what a whole line of moves keeps. What they keep holds for any InCheck, which is the
--   parameter in_check of the moves and of the declaration.
-- Shogi/Repetition: ClearHistory, RepetitionCount, CheckRepetition and mcts/search_repetition.h. The
--   back of history_ is the head of the list. The loop has one unit of fuel for each ply of its limit,
--   more than its rounds. Scan says what CheckRepetition returns, Streak what the counters and the history
--   hold after a line of moves; Checked says which moves of a line gave check, by AttackersTo.
-- Shogi/Sfen: ToSfen of shogi/board.cc, and in Read SetFromSfen. A text is a list of character codes;
--   reading ends in a position, in a refusal, or outside of the model: a piece off the board, which the
--   code does not exclude, and a ply with a minus sign. Decimal, Words, Letters, Placing, Plain, Copy,
--   Totals and Hands prove how each part is read back, RoundTrip the whole.
-- Shogi/Flipped: Flipped of shogi/board.cc. Position/Filled has the positions that arise when pieces are
--   put one by one on an empty board, for Flipped and for Sfen.
-- Shogi/Entering: ComputeEnteringKingInfo and CanDeclareWin of shogi/board.cc and the promotion zones of
--   shogi/bitboard.cc. An int that may be negative is an integer ℤ. Rule states the rule square by square
--   and over the types in hand, Info what is computed.
-- Shogi/Attacks: StepAttacks, SlidingAttacks, PieceAttacks, AttackersTo, IsSquareAttacked and InCheck of
--   shogi/board.cc; Tables and Sliding have the tables that Init of shogi/bitboard.cc makes and the
--   effects of shogi/bitboard.h, a Bitboard256 as its two halves. Tables are functions of the square.
-- Shogi/PackedSfen: shogi/packed_sfen.cc. BitWriter, BitReader and the piece codes stand in the
--   parent, Stream, Pieces and Board prove that they are read back, Codec has ToPackedSfen and
--   SetFromPackedSfen. The loop over the hands has more fuel than the stream has bits.
-- Book/Format: book/ybb_format.h. A buffer is a list of bytes and a pointer an offset into it.
-- Book/Reader: OpeningBook::Load, ValidateFile, ReadIndexEntry and ReadMove of book/opening_book.cc.
--   The two streams read one file, a list of bytes; a read past its end fails.
-- Book/Probe: OpeningBook::Probe and book/book_selection.h. The packed key of the position and the
--   legal moves are arguments. The binary search has one unit of fuel for each index entry.
-- Book/Exit: SolveGoteExitGraph of book/gote_exit_solver.h over any graph, its loops and its errors.
--   The queue is run with one unit of fuel for each node and one more.
-- Nnue/EvalCache: class EvalCache of nnue/eval_cache.h on one thread. The float operations are a
--   parameter, Nnue/Floats; its IsRounding says what is assumed of how values between 0 and 1 round.
-- Nnue/Record: the record files of nnue/record.cc; an open file is the list of its bytes.
-- Mcts/Node, Tree: mcts/uct_node.cc. A node owns its children, so that a tree is a value; the head of a
--   NodeTree is a depth below its root. Heap has TreeMemory::Bytes and the queue of the collector.
--   Memory proves what is counted, Reuse what a new position keeps, Session both over a whole game. The
--   sizes of the structs are those of a 64-bit target.
-- Mcts/Slot: child_node_slot_t::GetOrCreate as a schedule of atomic actions of any number of threads.
-- Mcts/Butterfly: ButterflyTable of mcts/butterfly.h on one thread. The centipawns of a score, which floats
--   make, are an argument of Update, and are none where the score is not finite.
-- Usi/TimeManager, TimeController: usi/time_manager.cc. The float operations are a parameter, Floats, of
--   which nothing is assumed. Bounds, Stops and Search have the proofs.
--
-- Assertions (a free square in PutPiece, a piece in RemovePiece) are hypotheses. A playable move is a
-- drop of a hand piece on an empty square, or a piece that goes to another square and promotes only if
-- its type can; it is what the move generators produce, and weaker than legality.
--
-- Not modelled: move generation, check tables and mate probes (shogi/board.cc, bitboard.cc,
-- mate1ply.cc), the network (the rest of nnue/), the search over the tree (the rest
-- of mcts/), the mate solvers (mate/), the
-- protocol (the rest of usi/), data generation, tools and bindings.
pub mod Base
pub mod Shogi
pub mod Book
pub mod Nnue
pub mod Mcts
pub mod Usi
