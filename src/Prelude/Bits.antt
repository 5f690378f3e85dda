-- ===== src/Prelude/Bits.antt =====
-- The binary digits of a word, and what `&`, `|` and `^` do to them.
use Prim.Native.Nat.{
  differ, digits, bitwise, bit_and, bit_or, bit_xor, bit_and-bitwise, bit_or-bitwise,
  bit_xor-bitwise,
}
use native.Mathlib.Nat.{pow-suc}
use native.Mathlib.Decide.{ℕ_discrete}
use class_assignments.Prelude.{
  ℕ, zero, suc, ◌+◌, ◌-◌, ◌*◌, ◌/◌, ◌%◌, ◌^◌, ◌≤◌, ◌<◌, min, max, ◌≡◌, refl, ap, ◌∙◌, Bool, true,
  false, ◌&&◌, ◌||◌, not, beq, arith, ltb, ltb→lt, ◌==◌,
}

-- Digit `k` of `w`, lowest first.
unfoldable pub test_bit : ℕ → ℕ → Bool
test_bit w zero = w % 2 == 1
test_bit w (suc k) = test_bit (w / 2) k

-- A native operation recurs on the digits of its first number, which also counts the rounds. Rounds
-- beyond those that the number needs change nothing.
module _ (end : ℕ → ℕ) (op : ℕ → ℕ → ℕ) where
  one_more_round : (n a b : ℕ) → a ≤ n → digits end op (suc n) a b ≡ digits end op n a b
  one_more_round n zero b h = no_digits n
    where
      no_digits : (n : ℕ) → digits end op (suc n) 0 b ≡ digits end op n 0 b
      no_digits zero = refl
      no_digits (suc n) = refl
  one_more_round zero (suc a) b h = elim h [ ]
  one_more_round (suc n) (suc a) b h =
      ap (λ (t : ℕ). t * 2 + op (suc a % 2) (b % 2))
        (one_more_round n (suc a / 2) (b / 2) (omega arith))

  more_rounds : (k n a b : ℕ) → a ≤ n → digits end op (k + n) a b ≡ digits end op n a b
  more_rounds zero n a b h = let e : 0 + n ≡ n = omega arith in rw e
  more_rounds (suc k) n a b h =
      let e : suc k + n ≡ suc (k + n) = omega arith in
      rw (e, one_more_round (k + n) a b (omega arith)) (more_rounds k n a b h)

  lowest_digit :
      (a b : ℕ)
      → bitwise end op (suc a) b ≡ 2 * bitwise end op (suc a / 2) (b / 2) + op (suc a % 2) (b % 2)
  lowest_digit a b =
      let half = suc a / 2 in
      let spare : a ≡ a - half + half = omega arith in
      let rest = more_rounds (a - half) half half (b / 2) (omega arith) in
      omega (arith, ap (λ n. digits end op n half (b / 2)) spare ∙ rest)

and-halves : (a b : ℕ) → bit_and a b ≡ 2 * bit_and (a / 2) (b / 2) + min (a % 2) (b % 2)
and-halves zero b = omega (arith, bit_and-bitwise 0 b, bit_and-bitwise 0 (b / 2))
and-halves (suc a) b = omega (
  arith,
  bit_and-bitwise (suc a) b,
  bit_and-bitwise (suc a / 2) (b / 2),
  lowest_digit (λ _. 0) min a b,
)

or-halves : (a b : ℕ) → bit_or a b ≡ 2 * bit_or (a / 2) (b / 2) + max (a % 2) (b % 2)
or-halves zero b = omega (arith, bit_or-bitwise 0 b, bit_or-bitwise 0 (b / 2))
or-halves (suc a) b = omega (
  arith,
  bit_or-bitwise (suc a) b,
  bit_or-bitwise (suc a / 2) (b / 2),
  lowest_digit (λ y. y) max a b,
)

xor-halves : (a b : ℕ) → bit_xor a b ≡ 2 * bit_xor (a / 2) (b / 2) + differ (a % 2) (b % 2)
xor-halves zero b = omega (arith, bit_xor-bitwise 0 b, bit_xor-bitwise 0 (b / 2))
xor-halves (suc a) b = omega (
  arith,
  bit_xor-bitwise (suc a) b,
  bit_xor-bitwise (suc a / 2) (b / 2),
  lowest_digit (λ y. y) differ a b,
)

pub test_bit-bit_and : (k a b : ℕ) → test_bit (bit_and a b) k ≡ (test_bit a k && test_bit b k)
unfolding test_bit
test_bit-bit_and zero a b = ground (arith, and-halves a b)
test_bit-bit_and (suc k) a b =
    let half : bit_and a b / 2 ≡ bit_and (a / 2) (b / 2) = omega (arith, and-halves a b) in
    rw half (test_bit-bit_and k (a / 2) (b / 2))

pub test_bit-bit_or : (k a b : ℕ) → test_bit (bit_or a b) k ≡ (test_bit a k || test_bit b k)
unfolding test_bit
test_bit-bit_or zero a b = ground (arith, or-halves a b)
test_bit-bit_or (suc k) a b =
    let half : bit_or a b / 2 ≡ bit_or (a / 2) (b / 2) = omega (arith, or-halves a b) in
    rw half (test_bit-bit_or k (a / 2) (b / 2))

differ_bits :
    (x y : ℕ) → x < 2 → y < 2 → (differ x y < 2) × ((differ x y == 1) ≡ not (beq (x == 1) (y == 1)))
differ_bits zero zero h l = (omega arith, refl)
differ_bits zero (suc zero) h l = (omega arith, refl)
differ_bits (suc zero) zero h l = (omega arith, refl)
differ_bits (suc zero) (suc zero) h l = (omega arith, refl)
differ_bits (suc (suc x)) y h l = absurd (omega arith)
differ_bits x (suc (suc y)) h l = absurd (omega arith)

pub test_bit-bit_xor :
    (k a b : ℕ) → test_bit (bit_xor a b) k ≡ not (beq (test_bit a k) (test_bit b k))
unfolding test_bit
test_bit-bit_xor zero a b =
    let (small, low) = differ_bits (a % 2) (b % 2) (omega arith) (omega arith) in
    let digit : bit_xor a b % 2 ≡ differ (a % 2) (b % 2) = omega (arith, xor-halves a b) in
    rw digit low
test_bit-bit_xor (suc k) a b =
    let (small, low) = differ_bits (a % 2) (b % 2) (omega arith) (omega arith) in
    let half : bit_xor a b / 2 ≡ bit_xor (a / 2) (b / 2) = omega (arith, xor-halves a b) in
    rw half (test_bit-bit_xor k (a / 2) (b / 2))

zero-bit_and : (b : ℕ) → bit_and 0 b ≡ 0
zero-bit_and b = bit_and-bitwise 0 b

zero-bit_or : (b : ℕ) → bit_or 0 b ≡ b
zero-bit_or b = bit_or-bitwise 0 b

zero-bit_xor : (b : ℕ) → bit_xor 0 b ≡ b
zero-bit_xor b = bit_xor-bitwise 0 b

no_common_digits : (n a : ℕ) → digits (λ _. 0) min n a 0 ≡ 0
no_common_digits zero a = refl
no_common_digits (suc n) zero = refl
no_common_digits (suc n) (suc a) = omega (arith, no_common_digits n (suc a / 2))

bit_and-zero : (a : ℕ) → bit_and a 0 ≡ 0
bit_and-zero a = bit_and-bitwise a 0 ∙ no_common_digits a a

-- The operations keep a word in its width.
pub bit_and-lt : (k a b : ℕ) → a < 2 ^ k → bit_and a b < 2 ^ k
bit_and-lt zero zero b h = omega (arith, zero-bit_and b)
bit_and-lt zero (suc a) b h = absurd (omega arith)
bit_and-lt (suc k) a b h =
    omega (
      arith,
      pow-suc 2 k,
      and-halves a b,
      bit_and-lt k (a / 2) (b / 2) (omega (arith, pow-suc 2 k)),
    )

pub bit_or-lt : (k a b : ℕ) → a < 2 ^ k → b < 2 ^ k → bit_or a b < 2 ^ k
bit_or-lt zero zero b h l = omega (arith, zero-bit_or b)
bit_or-lt zero (suc a) b h l = absurd (omega arith)
bit_or-lt (suc k) a b h l =
    let two = pow-suc 2 k in
    omega (arith, or-halves a b, bit_or-lt k (a / 2) (b / 2) (omega arith) (omega arith))

pub bit_xor-lt : (k a b : ℕ) → a < 2 ^ k → b < 2 ^ k → bit_xor a b < 2 ^ k
bit_xor-lt zero zero b h l = omega (arith, zero-bit_xor b)
bit_xor-lt zero (suc a) b h l = absurd (omega arith)
bit_xor-lt (suc k) a b h l =
    let two = pow-suc 2 k in
    let (small, low) = differ_bits (a % 2) (b % 2) (omega arith) (omega arith) in
    omega (arith, xor-halves a b, bit_xor-lt k (a / 2) (b / 2) (omega arith) (omega arith))

test_bit_zero : (j : ℕ) → test_bit 0 j ≡ false
unfolding test_bit
test_bit_zero zero = refl
test_bit_zero (suc j) = test_bit_zero j

-- The mask of one digit.
pub test_bit-pow : (k j : ℕ) → test_bit (2 ^ k) j ≡ (k == j)
unfolding test_bit
test_bit-pow zero zero = refl
test_bit-pow zero (suc j) = rw test_bit_zero (ground arith)
test_bit-pow (suc k) zero = ground (arith, pow-suc 2 k)
test_bit-pow (suc k) (suc j) =
    let half : 2 ^ suc k / 2 ≡ 2 ^ k = omega (arith, pow-suc 2 k) in
    rw half (ground (arith, test_bit-pow k j))

-- `w & (1 << k)` is nonzero exactly when digit `k` is set.
pub bit_and-pow : (k w : ℕ) → (bit_and w (2 ^ k) == 0) ≡ not (test_bit w k)
unfolding test_bit
bit_and-pow zero w = ground (arith, and-halves w 1, bit_and-zero (w / 2))
bit_and-pow (suc k) w =
    let half : 2 ^ suc k / 2 ≡ 2 ^ k = omega (arith, pow-suc 2 k) in
    let even : 2 ^ suc k % 2 ≡ 0 = omega (arith, pow-suc 2 k) in
    let step : bit_and w (2 ^ suc k) ≡ bit_and (w / 2) (2 ^ k) * 2 =
      rw (← half) (omega (arith, and-halves w (2 ^ suc k))) in
    rw (← bit_and-pow k (w / 2)) (ground (arith, step))

-- A test of the numbers below `n`, for laws that evaluation can check.
holds_below : (ℕ → Bool) → ℕ → Bool
holds_below test zero = true
holds_below test (suc n) = holds_below test n && test n

holds_below-at :
    (test : ℕ → Bool) (n : ℕ) → holds_below test n ≡ true → (i : ℕ) → i < n → test i ≡ true
unfolding holds_below
holds_below-at test zero h i l = elim l [ ]
holds_below-at test (suc n) h i l = elim (ℕ_discrete n i) [
  | yes e ↦ rw (← e) (ground arith)
  | no ne ↦ holds_below-at test n (ground arith) i (omega arith)
]

clear_table :
    holds_below (λ k. holds_below (λ j. beq (test_bit (2 ^ 32 - 1 - 2 ^ k) j) (not (k == j))) 32) 32
    ≡ true
unfolding holds_below test_bit
clear_table = refl

beq→eq : (a b : Bool) → beq a b ≡ true → a ≡ b
beq→eq a b h = ground arith

-- The complement of that mask, in 32 digits.
pub test_bit-complement :
    (k j : ℕ) → k < 32 → j < 32 → test_bit (2 ^ 32 - 1 - 2 ^ k) j ≡ not (k == j)
test_bit-complement k j h l =
    beq→eq _ _ (holds_below-at _ 32 (holds_below-at _ 32 clear_table k h) j l)

pow_table : holds_below (λ k. ltb (2 ^ k) (2 ^ 32)) 32 ≡ true
unfolding holds_below
pow_table = refl

pub pow-word : (k : ℕ) → k < 32 → 2 ^ k < 2 ^ 32
pow-word k h = ltb→lt (2 ^ k) (2 ^ 32) (holds_below-at _ 32 pow_table k h)

pow-positive : (n : ℕ) → 0 < 2 ^ n
pow-positive zero = omega arith
pow-positive (suc n) = omega (arith, pow-suc 2 n, pow-positive n)

-- The mask of the `n` lowest digits.
pub test_bit-ones : (n k : ℕ) → k < n → test_bit (2 ^ n - 1) k ≡ true
unfolding test_bit
test_bit-ones zero k h = absurd (omega arith)
test_bit-ones (suc n) zero h = ground (arith, pow-suc 2 n, pow-positive n)
test_bit-ones (suc n) (suc k) h =
    let half : (2 ^ suc n - 1) / 2 ≡ 2 ^ n - 1 = omega (arith, pow-suc 2 n, pow-positive n) in
    rw half (test_bit-ones n k (omega arith))
