-- ===== src/Compression/Register.antt =====
-- The flags register of decompress_lzss while a group is read: the flags that are left, behind them
-- padding and a marker of ones whose arrival at bit 8 tells that a group goes on.
use kext_tools.Common.{
  ℕ, zero, suc, ◌+◌, ◌-◌, ◌*◌, ◌/◌, ◌%◌, ◌^◌, ◌≤◌, ◌<◌, ◌≡◌, refl, false, List, [], ◌∷◌, ◌==◌,
  length, arith, bit_or-shifted_right, bit_and-256,
}
use Prim.Native.Nat.{bit_and, bit_or}
use native.Mathlib.Nat.{pow-suc, one-le-pow, pow-le-pow_right}
use kext_tools.Compression.Format.{LzUnit, letter, pair, flag, flags_of}

power-suc : (n p : ℕ) → 2 ^ (suc n + p) ≡ 2 * 2 ^ (n + p)
power-suc n p =
    let e : suc n + p ≡ suc (n + p) = omega arith in rw e (omega (arith, pow-suc 2 (n + p)))

power-zero : (p : ℕ) → 2 ^ (0 + p) ≡ 2 ^ p
power-zero p = let e : 0 + p ≡ p = omega arith in rw e

power-pred : (n : ℕ) → 0 < n → 2 ^ n ≡ 2 * 2 ^ (n - 1)
power-pred zero h = absurd (omega arith)
power-pred (suc n) h = let e : suc n - 1 ≡ n = omega arith in rw e (omega (arith, pow-suc 2 n))

pub register : List LzUnit → ℕ → ℕ
register [] padding = 2 ^ padding * 255
register (u ∷ us) padding = flag u + 2 * register us padding

flag-le_one : (u : LzUnit) → flag u ≤ 1
flag-le_one (letter c) = omega arith
flag-le_one (pair position len) = omega arith

pub register-mod :
    (u : LzUnit) (us : List LzUnit) (padding : ℕ) → register (u ∷ us) padding % 2 ≡ flag u
unfolding register
register-mod u us padding = omega (arith, flag-le_one u)

pub register-div :
    (u : LzUnit) (us : List LzUnit) (padding : ℕ)
    → register (u ∷ us) padding / 2 ≡ register us padding
unfolding register
register-div u us padding = omega (arith, flag-le_one u)

-- The register's value lies between the marker and the marker with all bits below it set.
register-range :
    (us : List LzUnit) (padding : ℕ)
    → (2 ^ (length us + padding) * 255 ≤ register us padding)
      × (register us padding + 1 ≤ 2 ^ (length us + padding) * 256)
unfolding register
register-range [] padding = omega (arith, power-zero padding, one-le-pow padding 2)
register-range (u ∷ us) padding =
    omega (arith, power-suc (length us) padding, flag-le_one u, register-range us padding)

-- While flags or padding are left, bit 8 is set.
pub register-more :
    (us : List LzUnit) (padding : ℕ)
    → 0 < length us + padding
    → length us + padding ≤ 8
    → (bit_and (register us padding) 0x100 == 0) ≡ false
register-more us padding pos le =
    let m = length us + padding - 1 in
    let even : 2 ^ (length us + padding) ≡ 2 * 2 ^ m = power-pred (length us + padding) pos in
    let small : 2 ^ (length us + padding) ≤ 256 = pow-le-pow_right (omega arith) le in
    let range = register-range us padding in
    let bit : register us padding / 256 % 2 ≡ 1 =
      omega (arith, even, small, range, one-le-pow m 2) in
    ground (arith, bit_and-256 (register us padding), bit)

-- The byte of flags, or-ed with the marker, is the register of its group.
flags_of-register :
    (us : List LzUnit) (padding : ℕ)
    → flags_of us + 2 ^ (length us + padding) * 255 ≡ register us padding
unfolding register flags_of
flags_of-register [] padding = omega (arith, power-zero padding)
flags_of-register (u ∷ us) padding =
    omega (arith, power-suc (length us) padding, flags_of-register us padding)

pub flags_of-lt : (us : List LzUnit) → flags_of us < 2 ^ length us
unfolding flags_of
flags_of-lt [] = omega arith
flags_of-lt (u ∷ us) = omega (arith, pow-suc 2 (length us), flag-le_one u, flags_of-lt us)

pub load-register :
    (us : List LzUnit) (padding : ℕ)
    → length us + padding ≡ 8
    → bit_or (flags_of us) 0xff00 ≡ register us padding
load-register us padding e =
    let total : 2 ^ (length us + padding) ≡ 256 = rw e in
    let width : 2 ^ length us ≤ 2 ^ 8 = pow-le-pow_right (omega arith) {j = 8} (omega arith) in
    omega (
      arith,
      bit_or-shifted_right 8 255 (flags_of us) (omega (arith, flags_of-lt us)),
      flags_of-register us padding,
      total,
    )

pub register-exhausted : register [] 0 ≡ 255
unfolding register
register-exhausted = refl

pub register-padding : (padding : ℕ) → register [] (suc padding) % 2 ≡ 0
unfolding register
register-padding padding = omega (arith, pow-suc 2 padding)
