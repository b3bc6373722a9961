-- ===== src/Compression/RoundTrip.antt =====
-- decompress_lzss reads a stream of groups back: its output is what the units stand for.
use kext_tools.Common.{
  ℕ, zero, suc, ◌+◌, ◌-◌, ◌/◌, ◌≤◌, ◌<◌, ◌≡◌, refl, ◌∙◌, sym, ap, true, false, Option, none, some,
  List, [], ◌∷◌, ◌++◌, append_assoc, append-nil, if◌then◌else◌, ltb, ◌==◌, length, length-append,
  arith, bit_and-mask,
}
use Prim.Native.Nat.{bit_and}
use kext_tools.Compression.Decode.{
  Decoder, ring_size, max_match, decode_unit, decode_loop, start, decompress_lzss,
}
use kext_tools.Compression.Format.{
  LzUnit, AllUnits, IsStream, codes, flags_of, stream, Window, expanded, expanded_window,
  expanded_groups,
}
use kext_tools.Compression.Units.{window}
use kext_tools.Compression.Register.{
  register, register-more, load-register, register-exhausted, register-padding,
}
use kext_tools.Compression.Stream.{
  Behind, Behind-flags, unit-Behind, units-Behind, after_units, loop-load, loop-more,
}

abbrev outcome : Option Decoder → Option (List ℕ)
outcome none = none
outcome (some d) = some d.out

-- The source has ended: the rest of the flags is padding, or there is no further group.
at_end :
    (padding fuel : ℕ) (d : Decoder)
    → d.flags / 2 ≡ register [] padding
    → padding ≤ 8
    → 0 < fuel
    → outcome (decode_loop fuel (record d { src = [] })) ≡ some d.out
at_end padding zero d e le pos = absurd (omega arith)
at_end zero (suc fuel) d e le pos = unfold decode_loop in rw (e, register-exhausted)
at_end (suc padding) (suc fuel) d e le pos =
    let more : (bit_and (d.flags / 2) 0x100 == 0) ≡ false =
      rw e (register-more [] (suc padding) (omega arith) (omega arith)) in
    let clear : (bit_and (d.flags / 2) 1 == 0) ≡ true =
      ground (arith, bit_and-mask 1 (d.flags / 2), e, register-padding padding) in
    rw (loop-more fuel (record d { src = [] }) more) (unfold decode_unit in ground arith)

-- A group, from its byte of flags on.
group-Behind :
    (u : LzUnit) (us : List LzUnit) (padding fuel : ℕ) (d : Decoder) (rest : List ℕ)
    → AllUnits (u ∷ us)
    → length (u ∷ us) + padding ≡ 8
    → (bit_and (d.flags / 2) 0x100 == 0) ≡ true
    → length (expanded (u ∷ us) (window d)) ≤ d.room
    → suc (length (codes (u ∷ us) ++ rest)) < suc fuel
    → Behind
        (u ∷ us)
        padding
        d
        rest
        (decode_loop (suc fuel) (record d { src = flags_of (u ∷ us) ∷ (codes (u ∷ us) ++ rest) }))
group-Behind u us padding fuel d rest hu width exhausted room enough =
    rw
      (
        loop-load fuel d (flags_of (u ∷ us)) (codes (u ∷ us) ++ rest) exhausted,
        load-register (u ∷ us) padding width,
      )
      (Behind-flags (
        unit-Behind u us padding fuel (record d { flags = register (u ∷ us) padding }) rest hu.0
          refl room (omega arith)
          (λ d' hf room' enough'.
            units-Behind us padding fuel d' rest hu.1 hf (omega arith) room' enough')))

-- A stream, where no flags are left of a group before it.
stream-expanded :
    (gs : List (List LzUnit)) (fuel : ℕ) (d : Decoder)
    → IsStream gs
    → (bit_and (d.flags / 2) 0x100 == 0) ≡ true
    → length (stream gs) < fuel
    → length (expanded_groups gs (window d)) ≤ d.room
    → outcome (decode_loop fuel (record d { src = stream gs }))
      ≡ some (d.out ++ expanded_groups gs (window d))
unfolding stream expanded_groups
stream-expanded gs zero d h exhausted enough room = absurd (omega arith)
stream-expanded [] (suc fuel) d h exhausted enough room =
    unfold decode_loop in rw (exhausted, append-nil)
stream-expanded ([] ∷ []) (suc fuel) d h exhausted enough room = absurd (omega (arith, h.1))
stream-expanded ([] ∷ g ∷ gs) (suc fuel) d h exhausted enough room = absurd (omega (arith, h.1))
stream-expanded ((u ∷ us) ∷ []) (suc fuel) d h exhausted enough room =
    let padding = 7 - length us in
    let bytes = expanded (u ∷ us) (window d) in
    let fits : length bytes ≤ d.room = omega (arith, length-append bytes []) in
    let width : length (u ∷ us) + padding ≡ 8 = omega (arith, h.2) in
    let b = group-Behind u us padding fuel d [] h.0 width exhausted fits enough in
    let some_fuel : 0 < b.fuel' = omega (arith, b.enough) in
    ap outcome b.goes_on
    ∙ at_end padding b.fuel' (after_units (u ∷ us) [] b.flags' d) b.marker (omega arith) some_fuel
    ∙ ap (λ (t : List ℕ). some (d.out ++ t)) (sym (append-nil bytes))
stream-expanded ((u ∷ us) ∷ g ∷ gs) (suc fuel) d h exhausted enough room =
    let rest = stream (g ∷ gs) in
    let bytes = expanded (u ∷ us) (window d) in
    let later = expanded_groups (g ∷ gs) (expanded_window (u ∷ us) (window d)) in
    let fits : length bytes ≤ d.room = omega (arith, length-append bytes later) in
    let width : length (u ∷ us) + 0 ≡ 8 = omega (arith, h.1) in
    let b = group-Behind u us 0 fuel d rest h.0 width exhausted fits enough in
    let d' = after_units (u ∷ us) rest b.flags' d in
    let fits' : length later ≤ d.room - length bytes = omega (arith, length-append bytes later) in
    ap outcome b.goes_on
    ∙ stream-expanded (g ∷ gs) b.fuel' d' h.2 (rw (b.marker, register-exhausted)) b.enough fits'
    ∙ ap some (append_assoc d.out bytes later)

-- The window at the start: blanks, and behind them what the source leaves uninitialised.
abbrev pub start_window : (ℕ → ℕ) → Window
start_window uninitialised = record {
  text_buf = λ i. if ltb i (ring_size - max_match) then 0x20 else uninitialised i;
  r = ring_size - max_match;
}

-- A stream of groups, of eight valid units each but the last, decompresses into a destination
-- that is large enough to what its units stand for, whatever is in the uninitialised part of the
-- ring buffer.
pub decompress_lzss-stream :
    (uninitialised : ℕ → ℕ) (dstlen : ℕ) (gs : List (List LzUnit))
    → IsStream gs
    → length (expanded_groups gs (start_window uninitialised)) ≤ dstlen
    → decompress_lzss uninitialised dstlen (stream gs)
      ≡ some (expanded_groups gs (start_window uninitialised))
unfolding decompress_lzss
decompress_lzss-stream uninitialised dstlen gs h room = ground (
  arith,
  stream-expanded gs (suc (length (stream gs))) (start uninitialised dstlen (stream gs)) h refl
      (omega arith) room,
)
