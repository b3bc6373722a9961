-- ===== src/Compression/Bounds.antt =====
-- decompress_lzss ends, writes no more than the destination holds, and stays in its ring buffer.
use kext_tools.Common.{
  ℕ, zero, suc, ◌+◌, ◌-◌, ◌^◌, ◌*◌, ◌/◌, ◌≤◌, ◌<◌, ◌≡◌, refl, true, false, Option, some, List, [],
  ◌∷◌, ◌==◌, length, length-append, arith, bit_and-mask, Bool-cases, inl, inr, ◌⊎◌,
}
use Prim.Native.Nat.{bit_and, bit_or}
use kext_tools.Compression.Decode.{
  Decoder, ring_size, threshold, write_byte, put, copy, decode_unit, decode_loop, start,
  decompress_lzss,
}

-- `size` bytes fit the destination, and the ring buffer is written inside its first ring_size bytes.
record IsWithin (size : ℕ) (d : Decoder) : Type 0 where
  fits : length d.out + d.room ≡ size
  in_ring : d.r < ring_size

write_byte-IsWithin :
    {size : ℕ} (c : ℕ) (d : Decoder)
    → IsWithin size d
    → (d.room == 0) ≡ false
    → IsWithin size (write_byte c d)
write_byte-IsWithin c d h e =
    ground (arith, length-append d.out (c ∷ []), bit_and-mask 12 (d.r + 1))

-- Without room the loop over a match writes nothing, with room it writes a byte and goes on.
pub copy-full : (left i k : ℕ) (d : Decoder) → (d.room == 0) ≡ true → copy left i k d ≡ d
unfolding copy put
copy-full zero i k d e = refl
copy-full (suc left) i k d e = ground arith

pub copy-suc :
    (left i k : ℕ) (d : Decoder)
    → (d.room == 0) ≡ false
    → copy (suc left) i k d
      ≡ copy left i (k + 1) (write_byte (d.text_buf (bit_and (i + k) (ring_size - 1))) d)
unfolding copy put
copy-suc left i k d e = ground arith

copy-IsWithin :
    {size : ℕ} (left i k : ℕ) (d : Decoder)
    → IsWithin size d
    → IsWithin size (copy left i k d) × ((copy left i k d).src ≡ d.src)
copy-IsWithin zero i k d h = unfold copy in (h, refl)
copy-IsWithin (suc left) i k d h = elim (Bool-cases (d.room == 0)) [
  | inl full ↦ rw (copy-full (suc left) i k d full) (h, refl)
  | inr room ↦ rw (copy-suc left i k d room) (
      copy-IsWithin left i (k + 1) (write_byte (d.text_buf (bit_and (i + k) (ring_size - 1))) d)
        (write_byte-IsWithin _ d h room))
]

-- `m` ends with a decoder that is within `size`.
abbrev Ends : ℕ → Option Decoder → Type 0
Ends size m = (d : Decoder) × (m ≡ some d) × IsWithin size d

-- Where a round of the loop goes on, it has taken a byte.
abbrev GoesOn : ℕ → (Decoder → Option Decoder) → List ℕ → Type 0
GoesOn size next src =
    (d : Decoder) → length d.src < length src → IsWithin size d → Ends size (next d)

literal-Ends :
    (size : ℕ) (next : Decoder → Option Decoder) (d : Decoder) (src : List ℕ)
    → IsWithin size d
    → GoesOn size next src
    → (bit_and d.flags 1 == 0) ≡ false
    → Ends size (decode_unit next (record d { src = src }))
unfolding decode_unit
literal-Ends size next d [] h ends e =
    (record d { src = [] }, ground arith, record { fits = h.fits; in_ring = h.in_ring })
literal-Ends size next d (c ∷ src) h ends e = elim (Bool-cases (d.room == 0)) [
  | inl full ↦ (record d { src = src }, ground arith, record { fits = h.fits; in_ring = h.in_ring })
  | inr room ↦
      let d' = write_byte c (record d { src = src }) in
      let (last, eq, within) = ends d' (omega arith) (
        write_byte-IsWithin c (record d { src = src })
          (record { fits = h.fits; in_ring = h.in_ring }) room) in
      (last, ground arith, within)
]

match-Ends :
    (size : ℕ) (next : Decoder → Option Decoder) (d : Decoder) (src : List ℕ)
    → IsWithin size d
    → GoesOn size next src
    → (bit_and d.flags 1 == 0) ≡ true
    → Ends size (decode_unit next (record d { src = src }))
match-Ends size next d [] h ends e = (
  record d { src = [] },
  unfold decode_unit in ground arith,
  record { fits = h.fits; in_ring = h.in_ring },
)
match-Ends size next d (i ∷ []) h ends e = (
  record d { src = [] },
  unfold decode_unit in ground arith,
  record { fits = h.fits; in_ring = h.in_ring },
)
match-Ends size next d (i ∷ j ∷ src) h ends e =
    let d₁ = record d { src = src } in
    let n = bit_and j 0x0f + threshold + 1 in
    let position = bit_or i (bit_and j 0xf0 * 2 ^ 4) in
    let (within', same) =
      copy-IsWithin n position 0 d₁ (record { fits = h.fits; in_ring = h.in_ring }) in
    let (last, eq, within) = ends (copy n position 0 d₁) (rw same (omega arith)) within' in
    (last, unfold decode_unit in ground arith, within)

decode_unit-Ends :
    (size : ℕ) (next : Decoder → Option Decoder) (d : Decoder)
    → IsWithin size d
    → GoesOn size next d.src
    → Ends size (decode_unit next d)
decode_unit-Ends size next d h ends = elim (Bool-cases (bit_and d.flags 1 == 0)) [
  | inl pair ↦ match-Ends size next d d.src h ends pair
  | inr literal ↦ literal-Ends size next d d.src h ends literal
]

decode_loop-Ends :
    (size fuel : ℕ) (d : Decoder) (src : List ℕ)
    → length src < fuel
    → IsWithin size d
    → Ends size (decode_loop fuel (record d { src = src }))
decode_loop-Ends size zero d src enough h = absurd (omega arith)
decode_loop-Ends size (suc fuel) d src enough h =
    by_flags src enough (Bool-cases (bit_and (d.flags / 2) 0x100 == 0))
      (λ d' shorter within. decode_loop-Ends size fuel d' d'.src (omega arith) within)
  where
    same :
        (d' : Decoder) (flags : ℕ) → IsWithin size d' → IsWithin size (record d' { flags = flags })
    same d' flags w = record { fits = w.fits; in_ring = w.in_ring }

    by_flags :
        (src : List ℕ)
        → length src < suc fuel
        → ((bit_and (d.flags / 2) 0x100 == 0) ≡ true) ⊎ ((bit_and (d.flags / 2) 0x100 == 0) ≡ false)
        → ((d' : Decoder)
            → length d'.src < length src
            → IsWithin size d'
            → Ends size (decode_loop fuel d'))
        → Ends size (decode_loop (suc fuel) (record d { src = src }))
    by_flags src enough (inr more) ends =
        let d' = record d { src = src; flags = d.flags / 2 } in
        let (last, eq, within) =
          decode_unit-Ends size (decode_loop fuel) d'
            (record { fits = h.fits; in_ring = h.in_ring }) ends in
        (last, unfold decode_loop in ground arith, within)
    by_flags [] enough (inl done) ends = (
      record d { src = []; flags = d.flags / 2 },
      unfold decode_loop in ground arith,
      record { fits = h.fits; in_ring = h.in_ring },
    )
    by_flags (c ∷ src) enough (inl done) ends =
        let d' = record d { src = src; flags = bit_or c 0xff00 } in
        let (last, eq, within) =
          decode_unit-Ends size (decode_loop fuel) d'
            (record { fits = h.fits; in_ring = h.in_ring })
            (λ d'' shorter w. ends d'' (omega arith) w) in
        (last, unfold decode_loop in ground arith, within)

-- On every input, bytes or not, the decoder ends and has written at most `dstlen` bytes.
pub decompress_lzss-le_dstlen :
    (uninitialised : ℕ → ℕ) (dstlen : ℕ) (src : List ℕ)
    → (out : List ℕ) × (decompress_lzss uninitialised dstlen src ≡ some out) × (length out ≤ dstlen)
unfolding decompress_lzss
decompress_lzss-le_dstlen uninitialised dstlen src =
    let d = start uninitialised dstlen src in
    let (last, eq, within) =
      decode_loop-Ends dstlen (suc (length src)) d src (omega arith)
        (record { fits = omega arith; in_ring = omega arith }) in
    (last.out, ground arith, omega (arith, within.fits))
