-- ===== src/Common/Bits.antt =====
-- Bits of a number by their index, and what the bitwise operations do to each.
use Prim.Native.Nat.{
  ℕ, zero, suc, ◌+◌, ◌-◌, ◌*◌, ◌/◌, ◌%◌, ◌^◌, ◌≤◌, ◌<◌, min, max, digits, bit_and, bit_or,
  bit_and-bitwise, bit_or-bitwise,
}
use mathlib.Core.Path.{◌≡◌, refl, ap}
use native.Mathlib.Nat.{two-pow-succ, one-le-pow}
use native.Mathlib.Omega.{arith}
use univr_info_workshop.Common.Tests.{◌==◌, if◌then◌else◌}

-- The bit at an index, 0 or 1.
unfoldable pub bit : (index value : ℕ) → ℕ
bit zero v = v % 2
bit (suc i) v = bit i (v / 2)

module _ (z : ℕ → ℕ) (f : ℕ → ℕ → ℕ) where
  -- Rounds beyond the digits of the first number change nothing.
  digits_enough : (k l a b : ℕ) → a ≤ k → a ≤ l → digits z f k a b ≡ digits z f l a b
  digits_enough zero zero a b h h' = refl
  digits_enough zero (suc l) zero b h h' = refl
  digits_enough zero (suc l) (suc a) b h h' = absurd (omega arith)
  digits_enough (suc k) zero zero b h h' = refl
  digits_enough (suc k) zero (suc a) b h h' = absurd (omega arith)
  digits_enough (suc k) (suc l) zero b h h' = refl
  digits_enough (suc k) (suc l) (suc a) b h h' =
      omega (arith, digits_enough k l (suc a / 2) (b / 2) (omega arith) (omega arith))

pub bit_and_lowest : (a b : ℕ) → bit_and a b ≡ bit_and (a / 2) (b / 2) * 2 + min (a % 2) (b % 2)
bit_and_lowest zero b = omega (arith, bit_and-bitwise 0 b, bit_and-bitwise 0 (b / 2))
bit_and_lowest (suc a) b = omega (
  arith,
  bit_and-bitwise (suc a) b,
  bit_and-bitwise (suc a / 2) (b / 2),
  digits_enough (λ _. 0) min a (suc a / 2) (suc a / 2) (b / 2) (omega arith) (omega arith),
)

pub bit_or_lowest : (a b : ℕ) → bit_or a b ≡ bit_or (a / 2) (b / 2) * 2 + max (a % 2) (b % 2)
bit_or_lowest zero b = omega (arith, bit_or-bitwise 0 b, bit_or-bitwise 0 (b / 2))
bit_or_lowest (suc a) b = omega (
  arith,
  bit_or-bitwise (suc a) b,
  bit_or-bitwise (suc a / 2) (b / 2),
  digits_enough (λ y. y) max a (suc a / 2) (suc a / 2) (b / 2) (omega arith) (omega arith),
)

pub bit-lt-two : (i v : ℕ) → bit i v < 2
unfolding bit
bit-lt-two zero v = omega arith
bit-lt-two (suc i) v = bit-lt-two i (v / 2)

pub bit-bit_and : (i a b : ℕ) → bit i (bit_and a b) ≡ min (bit i a) (bit i b)
unfolding bit
bit-bit_and zero a b = omega (arith, bit_and_lowest a b)
bit-bit_and (suc i) a b =
    let half : bit_and a b / 2 ≡ bit_and (a / 2) (b / 2) = omega (arith, bit_and_lowest a b) in
    rw half (bit-bit_and i (a / 2) (b / 2))

pub bit-bit_or : (i a b : ℕ) → bit i (bit_or a b) ≡ max (bit i a) (bit i b)
unfolding bit
bit-bit_or zero a b = omega (arith, bit_or_lowest a b)
bit-bit_or (suc i) a b =
    let half : bit_or a b / 2 ≡ bit_or (a / 2) (b / 2) = omega (arith, bit_or_lowest a b) in
    rw half (bit-bit_or i (a / 2) (b / 2))

bit-zero : (i : ℕ) → bit i 0 ≡ 0
unfolding bit
bit-zero zero = refl
bit-zero (suc i) = bit-zero i

half_pow : (b : ℕ) → 2 ^ suc b / 2 ≡ 2 ^ b
half_pow b = omega (arith, two-pow-succ b)

pub bit-pow : (i b : ℕ) → bit i (2 ^ b) ≡ (if i == b then 1 else 0)
unfolding bit
bit-pow zero zero = refl
bit-pow zero (suc b) = ground (arith, two-pow-succ b)
bit-pow (suc i) zero = ground (arith, bit-zero i)
bit-pow (suc i) (suc b) = rw (half_pow b) (ground (arith, bit-pow i b))

-- All the bits below the width `w` but the one at `b`.
bit-ones : (i w : ℕ) → i < w → bit i (2 ^ w - 1) ≡ 1
unfolding bit
bit-ones i zero h = absurd (omega arith)
bit-ones zero (suc w) h = omega (arith, two-pow-succ w, one-le-pow w 2)
bit-ones (suc i) (suc w) h =
    let half : (2 ^ suc w - 1) / 2 ≡ 2 ^ w - 1 = omega (arith, two-pow-succ w, one-le-pow w 2) in
    rw half (bit-ones i w (omega arith))

pub pow-lt-pow : (b w : ℕ) → b < w → 2 ^ b < 2 ^ w
pow-lt-pow b zero h = absurd (omega arith)
pow-lt-pow zero (suc w) h = omega (arith, two-pow-succ w, one-le-pow w 2)
pow-lt-pow (suc b) (suc w) h =
    omega (arith, two-pow-succ w, two-pow-succ b, pow-lt-pow b w (omega arith))

pub bit_complement :
    (i b w : ℕ) → i < w → b < w → bit i (2 ^ w - 1 - 2 ^ b) ≡ (if i == b then 0 else 1)
unfolding bit
bit_complement i b zero h k = absurd (omega arith)
bit_complement zero zero (suc w) h k = omega (arith, two-pow-succ w, one-le-pow w 2)
bit_complement zero (suc b) (suc w) h k =
    ground (arith, two-pow-succ w, two-pow-succ b, pow-lt-pow b w)
bit_complement (suc i) zero (suc w) h k =
    let half : (2 ^ suc w - 1 - 2 ^ 0) / 2 ≡ 2 ^ w - 1 =
      omega (arith, two-pow-succ w, one-le-pow w 2) in
    rw half (ground (arith, bit-ones i w))
bit_complement (suc i) (suc b) (suc w) h k =
    let half : (2 ^ suc w - 1 - 2 ^ suc b) / 2 ≡ 2 ^ w - 1 - 2 ^ b =
      omega (arith, two-pow-succ w, two-pow-succ b, pow-lt-pow b w (omega arith)) in
    rw half (ground (arith, bit_complement i b w))

bit_and_none : (k v : ℕ) → v ≤ k → bit_and v 0 ≡ 0
bit_and_none k zero h = bit_and-bitwise 0 0
bit_and_none zero (suc v) h = absurd (omega arith)
bit_and_none (suc k) (suc v) h =
    omega (arith, bit_and_lowest (suc v) 0, bit_and_none k (suc v / 2) (omega arith))

-- A number masked by one bit.
pub bit_and-pow : (v b : ℕ) → bit_and v (2 ^ b) ≡ bit b v * 2 ^ b
unfolding bit
bit_and-pow v zero = omega (arith, bit_and_lowest v 1, bit_and_none (v / 2) (v / 2) (omega arith))
bit_and-pow v (suc b) = omega (
  arith,
  bit_and_lowest v (2 ^ suc b),
  ap (bit_and (v / 2)) (half_pow b),
  bit_and-pow (v / 2) b,
  two-pow-succ b,
  ap (λ (t : ℕ). bit b (v / 2) * t) (two-pow-succ b),
)

pub bit_or-lt : (w a b : ℕ) → a < 2 ^ w → b < 2 ^ w → bit_or a b < 2 ^ w
bit_or-lt zero zero zero h k = omega (arith, bit_or-bitwise 0 0)
bit_or-lt zero zero (suc b) h k = absurd (omega arith)
bit_or-lt zero (suc a) b h k = absurd (omega arith)
bit_or-lt (suc w) a b h k = omega (
  arith,
  bit_or_lowest a b,
  two-pow-succ w,
  bit_or-lt w (a / 2) (b / 2) (omega (arith, two-pow-succ w)) (omega (arith, two-pow-succ w)),
)

bit_and-le_fuel : (k a b : ℕ) → a ≤ k → bit_and a b ≤ a
bit_and-le_fuel k zero b h = omega (arith, bit_and-bitwise 0 b)
bit_and-le_fuel zero (suc a) b h = absurd (omega arith)
bit_and-le_fuel (suc k) (suc a) b h =
    omega (arith, bit_and_lowest (suc a) b, bit_and-le_fuel k (suc a / 2) (b / 2) (omega arith))

pub bit_and-le : (a b : ℕ) → bit_and a b ≤ a
bit_and-le a b = bit_and-le_fuel a a b (omega arith)
