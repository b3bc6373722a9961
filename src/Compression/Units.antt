-- ===== src/Compression/Units.antt =====
-- One round of decompress_lzss, on the code of one unit.
use kext_tools.Common.{
  ℕ, zero, suc, ◌+◌, ◌-◌, ◌*◌, ◌/◌, ◌%◌, ◌^◌, ◌≤◌, ◌≡◌, refl, ◌∙◌, sym, ap, true, false, Option,
  List, [], ◌∷◌, ◌++◌, append_assoc, append-nil, ◌==◌, length, length-append, arith, bit_and-mask,
  bit_or-shifted, bit_or-shifted_right, bit_and-high_nibble,
}
use Prim.Native.Nat.{bit_and, bit_or}
use kext_tools.Compression.Decode.{Decoder, ring_size, threshold, write_byte, copy, decode_unit}
use kext_tools.Compression.Bounds.{copy-suc}
use kext_tools.Compression.Format.{
  LzUnit, letter, pair, IsLzUnit, flag, code, Window, push, match_bytes, match_window, unit_bytes,
  unit_window,
}

-- The decoder that has written `bytes` and moved on to the window `w`.
abbrev pub advance : Decoder → List ℕ → Window → Decoder
advance d bytes w = record d {
  out = d.out ++ bytes;
  room = d.room - length bytes;
  text_buf = w.text_buf;
  r = w.r;
}

abbrev pub window : Decoder → Window
window d = record { text_buf = d.text_buf; r = d.r }

write_byte-advance : (c : ℕ) (d : Decoder) → write_byte c d ≡ advance d (c ∷ []) (push c (window d))
write_byte-advance c d = rw (bit_and-mask 12 (d.r + 1))

length-match_bytes : (n position k : ℕ) (w : Window) → length (match_bytes n position k w) ≡ n
unfolding match_bytes
length-match_bytes zero position k w = refl
length-match_bytes (suc n) position k w = ap suc (length-match_bytes n position (k + 1) _)

pub advance-advance :
    (d : Decoder) (xs ys : List ℕ) (w w' : Window)
    → advance (advance d xs w) ys w' ≡ advance d (xs ++ ys) w'
advance-advance d xs ys w w' =
    let room : d.room - length xs - length ys ≡ d.room - length (xs ++ ys) =
      omega (arith, length-append xs ys) in
    λ i. record d {
      out = append_assoc d.out xs ys i;
      room = room i;
      text_buf = w'.text_buf;
      r = w'.r;
    }

pub advance-nothing : (d : Decoder) → d ≡ advance d [] (window d)
advance-nothing d =
    let room : d.room ≡ d.room - 0 = omega arith in
    λ i. record d { out = sym (append-nil d.out) i; room = room i }

-- With room for the match, the loop writes it.
copy-advance :
    (n position k : ℕ) (d : Decoder)
    → n ≤ d.room
    → copy n position k d
      ≡ advance d (match_bytes n position k (window d)) (match_window n position k (window d))
unfolding match_bytes match_window
copy-advance zero position k d h = unfold copy in advance-nothing d
copy-advance (suc n) position k d h =
    let c = d.text_buf ((position + k) % ring_size) in
    let room : (d.room == 0) ≡ false = ground arith in
    let written : write_byte (d.text_buf (bit_and (position + k) (ring_size - 1))) d
        ≡ advance d (c ∷ []) (push c (window d)) =
      rw (bit_and-mask 12 (position + k)) (write_byte-advance c d) in
    copy-suc n position k d room
    ∙ ap (copy n position (k + 1)) written
    ∙ copy-advance n position (k + 1) (advance d (c ∷ []) (push c (window d))) (omega arith)
    ∙ advance-advance d (c ∷ []) (match_bytes n position (k + 1) (push c (window d)))
        (push c (window d)) _

-- The fields that the decoder reads back from the bytes of a pair.
pair-position :
    (position len : ℕ)
    → IsLzUnit (pair position len)
    → let j = bit_or (bit_and (position / 2 ^ 4) 0xf0) (len - (threshold + 1)) % 256 in
      (bit_or (position % 256) (bit_and j 0xf0 * 2 ^ 4) ≡ position)
      × (bit_and j 0x0f + threshold + 1 ≡ len)
pair-position position len h =
    let hi = position / 256 in
    let lo = len - (threshold + 1) in
    let nibble : bit_and (position / 16) 0xf0 ≡ hi * 16 =
      omega (arith, bit_and-high_nibble (position / 16) (omega arith)) in
    let joined : bit_or (hi * 16) lo ≡ hi * 16 + lo = bit_or-shifted 4 hi lo (omega arith) in
    let byte : (hi * 16 + lo) % 256 ≡ hi * 16 + lo = omega arith in
    let high : bit_and (hi * 16 + lo) 0xf0 * 16 ≡ hi * 256 =
      omega (arith, bit_and-high_nibble (hi * 16 + lo) (omega arith)) in
    let low : bit_and (hi * 16 + lo) 0x0f ≡ lo = omega (arith, bit_and-mask 4 (hi * 16 + lo)) in
    let position' : bit_or (position % 256) (hi * 256) ≡ hi * 256 + position % 256 =
      bit_or-shifted_right 8 hi (position % 256) (omega arith) in
    (
      rw (nibble, joined, byte, high, position') (omega arith),
      rw (nibble, joined, byte, low) (omega arith),
    )

abbrev pub after_unit : LzUnit → Decoder → Decoder
after_unit u d = advance d (unit_bytes u (window d)) (unit_window u (window d))

-- A round on a unit's code, with its flag lowest, writes what the unit stands for.
pub decode_unit-code :
    (u : LzUnit) (next : Decoder → Option Decoder) (d : Decoder) (rest : List ℕ)
    → IsLzUnit u
    → d.flags % 2 ≡ flag u
    → length (unit_bytes u (window d)) ≤ d.room
    → decode_unit next (record d { src = code u ++ rest })
      ≡ next (after_unit u (record d { src = rest }))
decode_unit-code (letter c) next d rest h e room =
    let one : (bit_and d.flags 1 == 0) ≡ false = ground (arith, bit_and-mask 1 d.flags) in
    let space : (d.room == 0) ≡ false = unfold unit_bytes in ground arith in
    unfold decode_unit code unit_bytes unit_window in
    ground (arith, write_byte-advance c (record d { src = rest }))
decode_unit-code (pair position len) next d rest h e room =
    let clear : (bit_and d.flags 1 == 0) ≡ true = ground (arith, bit_and-mask 1 d.flags) in
    let d' = record d { src = rest } in
    let (position', len') = pair-position position len h in
    let fits : len ≤ d.room =
      unfold unit_bytes in omega (arith, length-match_bytes len position 0 (window d)) in
    reads clear ∙ ap next (args position' len' ∙ copied fits)
  where
    j : ℕ
    j = bit_or (bit_and (position / 2 ^ 4) 0xf0) (len - (threshold + 1)) % 256

    reads :
        (bit_and d.flags 1 == 0) ≡ true
        → decode_unit next (record d { src = code (pair position len) ++ rest })
          ≡ next (
              copy
                (bit_and j 0x0f + threshold + 1)
                (bit_or (position % 256) (bit_and j 0xf0 * 2 ^ 4))
                0
                (record d { src = rest }))
    reads clear = unfold decode_unit code in ground arith

    args :
        bit_or (position % 256) (bit_and j 0xf0 * 2 ^ 4) ≡ position
        → bit_and j 0x0f + threshold + 1 ≡ len
        → copy
            (bit_and j 0x0f + threshold + 1)
            (bit_or (position % 256) (bit_and j 0xf0 * 2 ^ 4))
            0
            (record d { src = rest })
          ≡ copy len position 0 (record d { src = rest })
    args p q = cc

    copied :
        len ≤ d.room
        → copy len position 0 (record d { src = rest })
          ≡ after_unit (pair position len) (record d { src = rest })
    copied fits =
        unfold unit_bytes unit_window in copy-advance len position 0 (record d { src = rest }) fits
