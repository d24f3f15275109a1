-- ===== src/Book.antt =====
-- book/: the YBB opening book, its file format and the choice between books.
pub mod Format
pub mod Reader
pub mod Probe
pub mod Exit
mod Tests
