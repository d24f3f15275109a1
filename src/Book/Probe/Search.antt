-- ===== src/Book/Probe/Search.antt =====
-- The binary search of Probe finds the entry of a position exactly where the index has one.
use jhbr.Base.{
  ℕ, zero, suc, ◌+◌, ◌-◌, ◌/◌, ◌<◌, ◌≤◌, ◌≡◌, ◌≢◌, refl, sym, ◌⊎◌, inl, inr, some, Bool-cases,
  arith, length, ltb,
}
use jhbr.Book.Format.{PackedSfen, YbbIndexEntry}
use jhbr.Book.Reader.{OpeningBook, read_index_entry}
use jhbr.Book.Probe.{
  compare_packed_sfen, Sign, less, equal, greater, SearchResult, absent, found, search,
}
use jhbr.Book.Probe.Order.{
  Before, compare-flip, Before-not_equal, Before-trans, compare_self, equal→≡,
}

Sign-cases : (s : Sign) → (s ≡ less) ⊎ ((s ≡ equal) ⊎ (s ≡ greater))
Sign-cases less = inl refl
Sign-cases equal = inr (inl refl)
Sign-cases greater = inr (inr refl)

-- A readable index whose keys ascend.
pub record IsSortedIndex (book : OpeningBook) (entries : ℕ → YbbIndexEntry) : Type 0 where
  pub readable : (i : ℕ) → i < book.record_count → read_index_entry book i ≡ some (entries i)
  pub ascending :
      (i j : ℕ)
      → i < j
      → j < book.record_count
      → Before (entries i).packed_sfen (entries j).packed_sfen

-- The entry with the key `target`, or that no entry has it.
pub data Searched (book : OpeningBook) (entries : ℕ → YbbIndexEntry) (target : PackedSfen)
    (r : SearchResult) : Type 0 where
  hit :
      (i : ℕ)
      → i < book.record_count
      → r ≡ found i (entries i)
      → (entries i).packed_sfen ≡ target
      → Searched book entries target r
  miss :
      r ≡ absent
      → ((i : ℕ) → i < book.record_count → (entries i).packed_sfen ≢ target)
      → Searched book entries target r

module _ (book : OpeningBook) (entries : ℕ → YbbIndexEntry) (target : PackedSfen)
    (s : IsSortedIndex book entries)
    (sized : (i : ℕ) → i < book.record_count → length (entries i).packed_sfen ≡ length target) where
  abbrev key : ℕ → PackedSfen
  key i = (entries i).packed_sfen

  -- Past a key that the target precedes no key is the target.
  above :
      (m i : ℕ)
      → compare_packed_sfen target (key m) ≡ less
      → m ≤ i
      → i < book.record_count
      → key i ≢ target
  above m i e le lt = elim (Bool-cases (ltb m i)) [
    | inl h ↦ λ q.
        Before-not_equal target (key i)
          (Before-trans target (key m) (key i) e (s.ascending m i (ground (arith, h)) lt))
          (rw q (compare_self target))
    | inr h ↦ λ q.
        Before-not_equal target (key m) e
          (let z : m ≡ i = ground (arith, h) in rw (z, q) (compare_self target))
  ]

  below :
      (m i : ℕ)
      → compare_packed_sfen target (key m) ≡ greater
      → i ≤ m
      → m < book.record_count
      → key i ≢ target
  below m i e le lt = elim (Bool-cases (ltb i m)) [
    | inl h ↦ λ q.
        Before-not_equal (key i) target
          (Before-trans (key i) (key m) target (s.ascending i m (ground (arith, h)) lt)
            (compare-flip target (key m) e))
          (rw q (compare_self target))
    | inr h ↦ λ q.
        Before-not_equal (key m) target (compare-flip target (key m) e)
          (let z : m ≡ i = ground (arith, h) in rw (z, q) (compare_self target))
  ]

  -- The loop between `left` and `right`, outside of which no key is the target.
  searched :
      (fuel left right : ℕ)
      → left ≤ right
      → right ≤ book.record_count
      → right - left ≤ fuel
      → ((i : ℕ) → i < left → key i ≢ target)
      → ((i : ℕ) → right ≤ i → i < book.record_count → key i ≢ target)
      → Searched book entries target (search book target fuel left right)
  unfolding search
  searched zero left right le fits enough lo hi = miss refl λ i lt. elim (Bool-cases (ltb i left)) [
    | inl h ↦ lo i (ground (arith, h))
    | inr h ↦ hi i (ground (arith, h)) lt
  ]
  searched (suc fuel) left right le fits enough lo hi =
      let m : ℕ = left + (right - left) / 2 in
      elim (Bool-cases (ltb left right)) [
        | inr h ↦
            rw (h, search)
              (miss refl λ i lt. elim (Bool-cases (ltb i left)) [
                | inl g ↦ lo i (ground (arith, g))
                | inr g ↦ hi i (ground (arith, g, h)) lt
              ])
        | inl h ↦
            let small : m < right = ground (arith, h) in
            let r = s.readable m (omega arith) in
            elim (Sign-cases (compare_packed_sfen target (key m))) [
              | inl e ↦
                  rw (h, r, e, search)
                    (searched fuel left m (omega arith) (omega arith) (omega arith) lo
                      (λ i. above m i e))
              | inr (inl e) ↦
                  rw (h, r, e, search)
                    (hit m (omega arith) refl
                      (sym (equal→≡ target (key m) (sym (sized m (omega arith))) e)))
              | inr (inr e) ↦
                  rw (h, r, e, search)
                    (searched fuel (m + 1) right (omega arith) fits (omega arith)
                      (λ i lt. below m i e (omega arith) (omega arith)) hi)
            ]
      ]

  -- On an index that can be read and whose keys ascend, the binary search of Probe returns the entry
  -- whose key is the target, or reports that there is none where no entry has that key; it neither
  -- runs out of rounds nor fails to read.
  pub search_lem :
      Searched book entries target (search book target book.record_count 0 book.record_count)
  search_lem =
      searched book.record_count 0 book.record_count (omega arith) (omega arith) (omega arith)
        (λ i lt. absurd (omega arith)) (λ i le lt. absurd (omega arith))
