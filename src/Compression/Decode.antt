-- ===== src/Compression/Decode.antt =====
-- compression.c: decompress_lzss, with the ring buffer as a function of the index. The part of it that the source leaves
-- uninitialised is a parameter.
use kext_tools.Common.{
  ℕ, zero, suc, ◌+◌, ◌-◌, ◌*◌, ◌/◌, ◌^◌, not, Option, none, some, List, [], ◌∷◌, ◌++◌,
  if◌then◌else◌, ◌==◌, ltb, length,
}
use Prim.Native.Nat.{bit_and, bit_or}

-- N, F and THRESHOLD.
abbrev pub ring_size : ℕ
ring_size = 4096

abbrev pub max_match : ℕ
max_match = 18

abbrev pub threshold : ℕ
threshold = 2

-- `room` is dstend - dst; `out` is what has been written from dststart to dst.
pub record Decoder : Type 0 where
  pub src : List ℕ
  pub out : List ℕ
  pub room : ℕ
  pub text_buf : ℕ → ℕ
  pub r : ℕ
  pub flags : ℕ

abbrev pub store : (ℕ → ℕ) → ℕ → ℕ → ℕ → ℕ
store buf at value = λ i. if i == at then value else buf i

-- A byte goes to the output, if there is room, and to the ring buffer.
abbrev pub write_byte : ℕ → Decoder → Decoder
write_byte c d = record d {
  out = d.out ++ c ∷ [];
  room = d.room - 1;
  text_buf = store d.text_buf d.r c;
  r = bit_and (d.r + 1) (ring_size - 1);
}

unfoldable pub put : ℕ → Decoder → Option Decoder
put c d = if d.room == 0 then none else some (write_byte c d)

-- The for loop over `k`; it ends where there is no room.
unfoldable pub copy : ℕ → ℕ → ℕ → Decoder → Decoder
copy zero i k d = d
copy (suc left) i k d = elim (put (d.text_buf (bit_and (i + k) (ring_size - 1))) d) [
  | none ↦ d
  | some d' ↦ copy left i (k + 1) d'
]

-- The body of the loop behind the flags; `next` is the next round, and a `break` returns.
unfoldable pub decode_unit : (Decoder → Option Decoder) → Decoder → Option Decoder
unfolding put copy
decode_unit next d =
    if not (bit_and d.flags 1 == 0)
    then elim d.src [
      | [] ↦ some d
      | c ∷ src ↦ elim (put c (record d { src = src })) [
        | none ↦ some (record d { src = src })
        | some d' ↦ next d'
      ]
    ]
    else elim d.src [
      | [] ↦ some d
      | i ∷ rest ↦ elim rest [
        | [] ↦ some (record d { src = [] })
        | j ∷ src ↦ next (
            copy (bit_and j 0x0f + threshold + 1) (bit_or i (bit_and j 0xf0 * 2 ^ 4)) 0
              (record d { src = src }))
      ]
    ]

-- The loop, which ends at a `break`; `none` means that the fuel ran out.
unfoldable pub decode_loop : ℕ → Decoder → Option Decoder
unfolding decode_unit
decode_loop zero d = none
decode_loop (suc fuel) d =
    let flags = d.flags / 2 in
    if bit_and flags 0x100 == 0
    then elim d.src [
      | [] ↦ some (record d { flags = flags })
      | c ∷ src ↦ decode_unit (decode_loop fuel) (record d { src = src; flags = bit_or c 0xff00 })
    ]
    else decode_unit (decode_loop fuel) (record d { flags = flags })

unfoldable pub start : (ℕ → ℕ) → ℕ → List ℕ → Decoder
start uninitialised dstlen src = record {
  src = src;
  out = [];
  room = dstlen;
  text_buf = λ i. if ltb i (ring_size - max_match) then 0x20 else uninitialised i;
  r = ring_size - max_match;
  flags = 0;
}

-- The bytes written. Each round takes a byte of the source or ends the loop, so the fuel is one
-- more than there are.
unfoldable pub decompress_lzss : (ℕ → ℕ) → ℕ → List ℕ → Option (List ℕ)
unfolding decode_loop start
decompress_lzss uninitialised dstlen src =
    elim (decode_loop (suc (length src)) (start uninitialised dstlen src)) [
      | none ↦ none
      | some d ↦ some d.out
    ]
