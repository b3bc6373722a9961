-- ===== src/Common/Bits.antt =====
-- Bytes, and `|` and `&` of the native numbers as arithmetic.
use Prim.Native.Nat.{
  ℕ, zero, suc, ◌+◌, ◌*◌, ◌/◌, ◌%◌, ◌^◌, ◌≤◌, ◌<◌, ◌-◌, min, max, bit_and, bit_or, digits, bitwise,
  bit_and-bitwise, bit_or-bitwise,
}
use mathlib.Core.Path.{◌≡◌, refl, ap, ◌∙◌}
use mathlib.Core.Logic.{◌≢◌}
use mathlib.Core.List.{List, [], ◌∷◌}
use native.Mathlib.Nat.{pow-suc, one-le-pow}
use native.Mathlib.Omega.{arith}

-- Every value of the list is a byte.
abbrev pub Bytes : List ℕ → Type 0
Bytes [] = Unit {0}
Bytes (b ∷ bs) = (b < 256) × Bytes bs

-- The recursion that the native operations stand for, with the operation on two digits and what
-- is left when the first number has no more.
module _ (left : ℕ → ℕ) (digit : ℕ → ℕ → ℕ) where
  one_more :
      (fuel x y : ℕ) → x ≤ fuel → digits left digit (suc fuel) x y ≡ digits left digit fuel x y
  one_more zero zero y small = refl
  one_more (suc fuel) zero y small = refl
  one_more zero (suc x) y small = absurd (omega arith)
  one_more (suc fuel) (suc x) y small =
      ground (arith, one_more fuel (suc x / 2) (y / 2) (omega arith))

  any_more : (extra n x y : ℕ) → n ≡ extra + x → digits left digit n x y ≡ digits left digit x x y
  any_more zero n x y e =
      let same : n ≡ x = omega arith in ap (λ (m : ℕ). digits left digit m x y) same
  any_more (suc extra) n x y e =
      let more : n ≡ suc (extra + x) = omega arith in
      ap (λ (m : ℕ). digits left digit m x y) more
      ∙ one_more (extra + x) x y (omega arith)
      ∙ any_more extra (extra + x) x y refl

  split_digit :
      (x y : ℕ)
      → x ≢ 0
      → bitwise left digit x y ≡ digit (x % 2) (y % 2) + 2 * bitwise left digit (x / 2) (y / 2)
  split_digit zero y positive = absurd (positive refl)
  split_digit (suc x) y positive =
      let half = suc x / 2 in
      let spare = any_more (x - half) x half (y / 2) (omega arith) in omega (arith, spare)

bit_or-lowest : (x y : ℕ) → bit_or x y ≡ max (x % 2) (y % 2) + 2 * bit_or (x / 2) (y / 2)
bit_or-lowest zero y = simp bit_or-bitwise (omega arith)
bit_or-lowest (suc x) y = simp bit_or-bitwise (split_digit (λ rest. rest) max (suc x) y cc)

bit_or-nothing : (k a : ℕ) → a < k → bit_or a 0 ≡ a
bit_or-nothing zero a h = absurd (omega arith)
bit_or-nothing (suc k) zero h = refl
bit_or-nothing (suc k) (suc a) h =
    omega (arith, bit_or-lowest (suc a) 0, bit_or-nothing k (suc a / 2) (omega arith))

double-shift : (q k : ℕ) → q * 2 ^ suc k ≡ 2 * (q * 2 ^ k)
double-shift q k = omega (arith, ap (λ (t : ℕ). q * t) (pow-suc 2 k))

-- A field shifted by `k` bits, or-ed with one below, is their sum.
pub bit_or-shifted : (k q r : ℕ) → r < 2 ^ k → bit_or (q * 2 ^ k) r ≡ q * 2 ^ k + r
bit_or-shifted zero q r h = ground (arith, bit_or-nothing (suc q) q)
bit_or-shifted (suc k) q r h = ground (
  arith,
  bit_or-lowest (q * 2 ^ suc k) r,
  double-shift q k,
  bit_or-shifted k q (r / 2) (omega arith),
)

bit_and-lowest : (x y : ℕ) → bit_and x y ≡ min (x % 2) (y % 2) + 2 * bit_and (x / 2) (y / 2)
bit_and-lowest zero y = simp bit_and-bitwise (omega arith)
bit_and-lowest (suc x) y = simp bit_and-bitwise (split_digit (λ rest. 0) min (suc x) y cc)

bit_and-nothing : (k a : ℕ) → a < k → bit_and a 0 ≡ 0
bit_and-nothing zero a h = absurd (omega arith)
bit_and-nothing (suc k) zero h = refl
bit_and-nothing (suc k) (suc a) h =
    omega (arith, bit_and-lowest (suc a) 0, bit_and-nothing k (suc a / 2) (omega arith))

-- The lowest `k` bits of a number, by any way of splitting them off.
bit_and-low_part : (k a q r : ℕ) → a ≡ q * 2 ^ k + r → r < 2 ^ k → bit_and a (2 ^ k - 1) ≡ r
bit_and-low_part zero a q r e h = ground (arith, bit_and-nothing (suc a) a)
bit_and-low_part (suc k) a q r e h =
    let power = pow-suc 2 k in
    let half = double-shift q k in
    let positive = one-le-pow k 2 in
    let rest = bit_and-low_part k (a / 2) q (r / 2) (omega arith) (omega arith) in
    let mask : (2 ^ suc k - 1) / 2 ≡ 2 ^ k - 1 = omega arith in
    let odd : (2 ^ suc k - 1) % 2 ≡ 1 = omega arith in
    ground (arith, bit_and-lowest a (2 ^ suc k - 1), mask, odd, rest)

-- A mask of the `k` lowest bits is the remainder by 2 ^ k.
pub bit_and-mask : (k a : ℕ) → bit_and a (2 ^ k - 1) ≡ a % 2 ^ k
bit_and-mask k a =
    let positive = one-le-pow k 2 in
    bit_and-low_part k a (a / 2 ^ k) (a % 2 ^ k) (ground arith) (ground arith)

bit_or-nothing_left : (b : ℕ) → bit_or 0 b ≡ b
bit_or-nothing_left b = simp bit_or-bitwise

-- The same with the shifted field on the right.
pub bit_or-shifted_right : (k q r : ℕ) → r < 2 ^ k → bit_or r (q * 2 ^ k) ≡ q * 2 ^ k + r
bit_or-shifted_right zero q zero h = ground (arith, bit_or-nothing_left (q * 2 ^ 0))
bit_or-shifted_right zero q (suc r) h = absurd (omega arith)
bit_or-shifted_right (suc k) q r h = ground (
  arith,
  bit_or-lowest r (q * 2 ^ suc k),
  double-shift q k,
  bit_or-shifted_right k q (r / 2) (omega arith),
)

bit_and-double : (x m : ℕ) → bit_and x (2 * m) ≡ 2 * bit_and (x / 2) m
bit_and-double x m =
    let half : 2 * m / 2 ≡ m = omega arith in
    let even : 2 * m % 2 ≡ 0 = omega arith in ground (arith, bit_and-lowest x (2 * m), half, even)

-- A number without its `k` lowest bits, one at a time.
without_low : ℕ → ℕ → ℕ
without_low zero x = x
without_low (suc k) x = without_low k (x / 2)

-- A mask that stands `k` bits up.
bit_and-raised : (k x m : ℕ) → bit_and x (m * 2 ^ k) ≡ bit_and (without_low k x) m * 2 ^ k
unfolding without_low
bit_and-raised zero x m =
    let unit : m * 2 ^ 0 ≡ m = omega arith in omega (arith, ap (bit_and x) unit)
bit_and-raised (suc k) x m = omega (
  arith,
  ap (bit_and x) (double-shift m k),
  bit_and-double x (m * 2 ^ k),
  bit_and-raised k (x / 2) m,
  double-shift (bit_and (without_low k (x / 2)) m) k,
)

-- Bit 8 of a number.
pub bit_and-256 : (x : ℕ) → bit_and x 0x100 ≡ x / 256 % 2 * 256
unfolding without_low
bit_and-256 x =
    let whole : without_low 8 x ≡ x / 256 = omega arith in
    bit_and-raised 8 x 1
    ∙ ap (λ (t : ℕ). t * 256) (bit_and-mask 1 (without_low 8 x) ∙ ap (λ (t : ℕ). t % 2) whole)

-- The high half of a byte.
pub bit_and-high_nibble : (x : ℕ) → x < 256 → bit_and x 0xf0 ≡ x / 16 * 16
unfolding without_low
bit_and-high_nibble x h =
    let whole : without_low 4 x ≡ x / 16 = omega arith in
    let low : bit_and (without_low 4 x) 15 ≡ without_low 4 x % 16 =
      bit_and-mask 4 (without_low 4 x) in
    omega (arith, bit_and-raised 4 x 15, low, whole)
