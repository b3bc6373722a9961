-- ===== src/Compression/Checksum.antt =====
-- compression.c: local_adler32, which takes remainders only every 5000 bytes, against the Adler-32
-- checksum, which takes them at every byte.
use kext_tools.Common.{
  ℕ, zero, suc, ◌+◌, ◌*◌, ◌%◌, ◌^◌, ◌≤◌, ◌<◌, ◌≡◌, refl, ap, List, [], ◌∷◌, if◌then◌else◌, ◌==◌,
  arith, Bool-cases, inl, inr, Bytes, bit_or-shifted,
}
use Prim.Native.Nat.{bit_or}
use native.Mathlib.Decide.{dec_le}

record Halves : Type 0 where
  pub low : ℕ
  pub high : ℕ

-- One round of the loop, at index `cnt`; the halves are 32-bit unsigned.
abbrev add_byte : ℕ → ℕ → Halves → Halves
add_byte cnt byte h =
    let reduce = cnt % 5000 == 0 in
    let low = (if reduce then h.low % 65521 else h.low) in
    let high = (if reduce then h.high % 65521 else h.high) in
    let low' = (low + byte) % 2 ^ 32 in record { low = low'; high = (high + low') % 2 ^ 32 }

adler_loop : ℕ → Halves → List ℕ → Halves
adler_loop cnt h [] = h
adler_loop cnt h (byte ∷ bytes) = adler_loop (cnt + 1) (add_byte cnt byte h) bytes

unfoldable pub local_adler32 : List ℕ → ℕ
unfolding adler_loop
local_adler32 buffer =
    let h = adler_loop 0 (record { low = 1; high = 0 }) buffer in
    bit_or (h.high % 65521 * 2 ^ 16 % 2 ^ 32) (h.low % 65521)

-- The checksum as it is defined: both sums modulo 65521 throughout.
abbrev adler_step : ℕ → Halves → Halves
adler_step byte h =
    let low = (h.low + byte) % 65521 in record { low = low; high = (h.high + low) % 65521 }

adler_sums : Halves → List ℕ → Halves
adler_sums h [] = h
adler_sums h (byte ∷ bytes) = adler_sums (adler_step byte h) bytes

unfoldable pub adler32 : List ℕ → ℕ
unfolding adler_sums
adler32 bytes = let h = adler_sums (record { low = 1; high = 0 }) bytes in h.high * 65536 + h.low

-- What the high half can reach in `j` rounds after a remainder was taken.
high_bound : ℕ → ℕ
high_bound zero = 65520
high_bound (suc j) = high_bound j + 65520 + 255 * suc j

high_bound-le : (n j : ℕ) → j ≤ n → high_bound j ≤ high_bound n
unfolding high_bound
high_bound-le zero zero h = omega arith
high_bound-le zero (suc j) h = absurd (omega arith)
high_bound-le (suc n) j h = elim (dec_le j n) [
  | yes p ↦ omega (arith, high_bound-le n j p)
  | no p ↦ let e : j ≡ suc n = omega arith in rw e (omega arith)
]

high_bound-5000 : high_bound 5000 < 2 ^ 32
unfolding high_bound
high_bound-5000 = omega arith

-- The halves after `j` rounds since a remainder was taken stand for the sums `s`.
record StandsFor (j : ℕ) (h s : Halves) : Type 0 where
  low_bounded : h.low ≤ 65520 + 255 * j
  high_bounded : h.high ≤ high_bound j
  same_low : h.low % 65521 ≡ s.low
  same_high : h.high % 65521 ≡ s.high

-- A round does not overflow while at most 5000 have gone by since the remainder.
sum-StandsFor :
    (low high byte j : ℕ) (s : Halves)
    → byte < 256
    → j < 5000
    → StandsFor j (record { low = low; high = high }) s
    → let low' = (low + byte) % 2 ^ 32 in
      StandsFor (suc j) (record { low = low'; high = (high + low') % 2 ^ 32 }) (adler_step byte s)
unfolding high_bound
sum-StandsFor low high byte j s hb hj sf =
    let total = high_bound-le 5000 (suc j) (omega arith) in
    let below = high_bound-5000 in
    record {
      low_bounded = omega arith;
      high_bounded = omega arith;
      same_low = omega arith;
      same_high = omega arith;
    }

-- The rounds since the last remainder, counted from 1 behind a multiple of 5000.
add_byte-StandsFor :
    (cnt byte j : ℕ) (h s : Halves)
    → byte < 256
    → j ≤ 5000
    → cnt % 5000 ≡ j % 5000
    → StandsFor j h s
    → (j' : ℕ) × (j' ≤ 5000)
      × (suc cnt % 5000 ≡ j' % 5000)
      × StandsFor j' (add_byte cnt byte h) (adler_step byte s)
add_byte-StandsFor cnt byte j h s hb hj hc sf = elim (Bool-cases (cnt % 5000 == 0)) [
  | inl due ↦ (
    1,
    omega arith,
    ground arith,
    rw due (sum-StandsFor (h.low % 65521) (h.high % 65521) byte 0 s hb (omega arith) (reduced)),
  )
  | inr going ↦ (
    suc j,
    ground arith,
    ground arith,
    rw going (sum-StandsFor h.low h.high byte j s hb (ground arith) sf),
  )
]
  where
    reduced : StandsFor 0 (record { low = h.low % 65521; high = h.high % 65521 }) s
    reduced =
        unfold high_bound in
        record {
          low_bounded = omega arith;
          high_bounded = omega arith;
          same_low = omega (arith, sf.same_low);
          same_high = omega (arith, sf.same_high);
        }

adler_loop-sums :
    (bytes : List ℕ) (cnt j : ℕ) (h s : Halves)
    → Bytes bytes
    → j ≤ 5000
    → cnt % 5000 ≡ j % 5000
    → StandsFor j h s
    → ((adler_loop cnt h bytes).low % 65521 ≡ (adler_sums s bytes).low)
      × ((adler_loop cnt h bytes).high % 65521 ≡ (adler_sums s bytes).high)
unfolding adler_loop adler_sums
adler_loop-sums [] cnt j h s hb hj hc sf = (sf.same_low, sf.same_high)
adler_loop-sums (byte ∷ bytes) cnt j h s hb hj hc sf =
    let (j', hj', hc', sf') = add_byte-StandsFor cnt byte j h s hb.0 hj hc sf in
    adler_loop-sums bytes (cnt + 1) j' (add_byte cnt byte h) (adler_step byte s) hb.1 hj'
      (omega arith) sf'

shift-fits : (q : ℕ) → q < 65521 → q * 2 ^ 16 % 2 ^ 32 ≡ q * 2 ^ 16
shift-fits q h = omega arith

abbrev at_start : Halves
at_start = record { low = 1; high = 0 }

at_start-StandsFor : StandsFor 0 at_start at_start
unfolding high_bound
at_start-StandsFor = record {
  low_bounded = omega arith;
  high_bounded = omega arith;
  same_low = refl;
  same_high = refl;
}

-- On a buffer of bytes local_adler32 is the Adler-32 checksum.
pub local_adler32-adler32 : (buffer : List ℕ) → Bytes buffer → local_adler32 buffer ≡ adler32 buffer
unfolding local_adler32 adler32
local_adler32-adler32 buffer hb =
    let (low, high) =
      adler_loop-sums buffer 0 0 at_start at_start hb (omega arith) refl at_start-StandsFor in
    let h = adler_loop 0 at_start buffer in
    omega (
      arith,
      bit_or-shifted 16 (h.high % 65521) (h.low % 65521) (omega arith),
      ap (λ (t : ℕ). bit_or t (h.low % 65521)) (shift-fits (h.high % 65521) (omega arith)),
      low,
      high,
    )

adler_sums-below :
    (bytes : List ℕ) (h : Halves)
    → h.low < 65521
    → h.high < 65521
    → ((adler_sums h bytes).low < 65521) × ((adler_sums h bytes).high < 65521)
unfolding adler_sums
adler_sums-below [] h low high = (low, high)
adler_sums-below (byte ∷ bytes) h low high =
    adler_sums-below bytes (adler_step byte h) (omega arith) (omega arith)

pub local_adler32-below : (buffer : List ℕ) → Bytes buffer → local_adler32 buffer < 2 ^ 32
unfolding adler32
local_adler32-below buffer hb =
    let (low, high) = adler_sums-below buffer at_start (omega arith) (omega arith) in
    omega (arith, local_adler32-adler32 buffer hb, low, high)
