-- ===== src/Base/Count.antt =====
-- How many numbers of a range pass a test, and the set digits of a word.
use Prim.Native.Nat.{ℕ, zero, suc, ◌+◌, ◌-◌, ◌/◌, ◌%◌, ◌≤◌, ◌<◌}
use mathlib.Core.Path.{◌≡◌, refl, ap, ap₂, ◌∙◌}
use mathlib.Core.Bool.{Bool, false, not, ◌&&◌}
use native.Mathlib.Omega.{arith}
use jhbr.Base.Tests.{◌==◌, if◌then◌else◌}
use jhbr.Base.Bits.{bit}

-- Among `n` numbers from `i` on.
unfoldable pub count_from : (ℕ → Bool) → ℕ → ℕ → ℕ
count_from f i zero = 0
count_from f i (suc n) = (if f i then 1 else 0) + count_from f (suc i) n

pub count_from-ext :
    (f g : ℕ → Bool) (n i : ℕ)
    → ((j : ℕ) → i ≤ j → j < i + n → f j ≡ g j)
    → count_from f i n ≡ count_from g i n
unfolding count_from
count_from-ext f g zero i h = refl
count_from-ext f g (suc n) i h = rw (h i (omega arith) (omega arith)) (
    ap (λ k. (if g i then 1 else 0) + k)
      (count_from-ext f g n (suc i) (λ j lo hi. h j (omega arith) (omega arith))))

pub count_from-none :
    (f : ℕ → Bool) (n i : ℕ) → ((j : ℕ) → i ≤ j → j < i + n → f j ≡ false) → count_from f i n ≡ 0
unfolding count_from
count_from-none f zero i h = refl
count_from-none f (suc n) i h =
    rw (h i (omega arith) (omega arith))
      (omega (arith, count_from-none f n (suc i) (λ j lo hi. h j (omega arith) (omega arith))))

pub count_from-append :
    (f : ℕ → Bool) (n m i : ℕ) → count_from f i (n + m) ≡ count_from f i n + count_from f (i + n) m
unfolding count_from
count_from-append f zero m i =
    let e : 0 + m ≡ m = omega arith in let e2 : i + 0 ≡ i = omega arith in rw (e, e2) (omega arith)
count_from-append f (suc n) m i =
    let e : suc n + m ≡ suc (n + m) = omega arith in
    let e2 : i + suc n ≡ suc i + n = omega arith in
    rw (e, e2, count_from-append f n m (suc i)) (omega arith)

pub count_from-shift :
    (f : ℕ → Bool) (k n i : ℕ) → count_from (λ j. f (j + k)) i n ≡ count_from f (i + k) n
unfolding count_from
count_from-shift f k zero i = refl
count_from-shift f k (suc n) i =
    let e : suc (i + k) ≡ suc i + k = omega arith in
    rw e (ap (λ t. (if f (i + k) then 1 else 0) + t) (count_from-shift f k n (suc i)))

-- A second test splits the count.
pub count_from-split :
    (f g : ℕ → Bool) (n i : ℕ)
    → count_from f i n ≡ count_from (λ s. f s && g s) i n + count_from (λ s. f s && not (g s)) i n
unfolding count_from
count_from-split f g zero i = refl
count_from-split f g (suc n) i = ground (arith, count_from-split f g n (suc i))

-- At one number.
pub count_from-at :
    (f : ℕ → Bool) (k n : ℕ)
    → k < n
    → count_from (λ s. f s && (s == k)) 0 n ≡ (if f k then 1 else 0)
count_from-at f k n h =
    let e : n ≡ k + (1 + (n - k - 1)) = omega arith in
    ap (count_from (λ s. f s && (s == k)) 0) e
    ∙ count_from-append (λ s. f s && (s == k)) k (1 + (n - k - 1)) 0
    ∙ omega (
      arith,
      count_from-none (λ s. f s && (s == k)) k 0 (λ j lo hi. ground arith),
      count_from-append (λ s. f s && (s == k)) 1 (n - k - 1) (0 + k),
      count_from-none (λ s. f s && (s == k)) (n - k - 1) (0 + k + 1) (λ j lo hi. ground arith),
      here,
    )
  where
    here : count_from (λ s. f s && (s == k)) (0 + k) 1 ≡ (if f k then 1 else 0)
    here = let e : 0 + k ≡ k = omega arith in unfold count_from in rw e (ground arith)

-- std::popcount of a word of `n` digits.
unfoldable pub popcount : ℕ → ℕ → ℕ
popcount zero x = 0
popcount (suc n) x = x % 2 + popcount n (x / 2)

pub popcount_lem : (n x : ℕ) → popcount n x ≡ count_from (λ j. bit x j == 1) 0 n
unfolding popcount count_from
popcount_lem zero x = refl
popcount_lem (suc n) x =
    let low : x % 2 ≡ (if x % 2 == 1 then 1 else 0) = ground arith in
    ap₂ (λ a b. a + b) low (popcount_lem n (x / 2) ∙ shifted)
  where
    shifted : count_from (λ j. bit (x / 2) j == 1) 0 n ≡ count_from (λ j. bit x j == 1) 1 n
    shifted =
        count_from-ext (λ j. bit (x / 2) j == 1) (λ j. bit x (j + 1) == 1) n 0
          (λ j lo hi. let e : j + 1 ≡ suc j = omega arith in rw e refl)
        ∙ count_from-shift (λ j. bit x j == 1) 1 n 0
