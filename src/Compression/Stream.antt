-- ===== src/Compression/Stream.antt =====
-- decompress_lzss reads a stream of groups back: the decoder's output is what the units stand for.
use kext_tools.Common.{
  ℕ, zero, suc, ◌+◌, ◌/◌, ◌≤◌, ◌<◌, ◌≡◌, ◌∙◌, ap, true, false, Option, List, [], ◌∷◌, ◌++◌,
  append_assoc, ◌==◌, length, length-append, arith,
}
use Prim.Native.Nat.{bit_and, bit_or}
use kext_tools.Compression.Decode.{Decoder, decode_unit, decode_loop}
use kext_tools.Compression.Format.{
  LzUnit, letter, pair, IsLzUnit, AllUnits, code, codes, unit_bytes, unit_window, expanded,
  expanded_window,
}
use kext_tools.Compression.Units.{
  advance, window, advance-advance, advance-nothing, after_unit, decode_unit-code,
}
use kext_tools.Compression.Register.{register, register-mod, register-div, register-more}

pub loop-more :
    (fuel : ℕ) (d : Decoder)
    → (bit_and (d.flags / 2) 0x100 == 0) ≡ false
    → decode_loop (suc fuel) d ≡ decode_unit (decode_loop fuel) (record d { flags = d.flags / 2 })
unfolding decode_loop
loop-more fuel d e = rw e

pub loop-load :
    (fuel : ℕ) (d : Decoder) (c : ℕ) (src : List ℕ)
    → (bit_and (d.flags / 2) 0x100 == 0) ≡ true
    → decode_loop (suc fuel) (record d { src = c ∷ src })
      ≡ decode_unit (decode_loop fuel) (record d { src = src; flags = bit_or c 0xff00 })
unfolding decode_loop
loop-load fuel d c src e = rw e

length-code : (u : LzUnit) → 0 < length (code u)
unfolding code
length-code (letter c) = omega arith
length-code (pair position len) = omega arith

-- The decoder behind the units, in front of `rest` and with the register `flags`.
abbrev pub after_units : List LzUnit → List ℕ → ℕ → Decoder → Decoder
after_units us rest flags d =
    record (advance d (expanded us (window d)) (expanded_window us (window d))) {
      src = rest;
      flags = flags;
    }

-- What is known where the units of a group have been read.
pub record Behind (us : List LzUnit) (padding : ℕ) (d : Decoder) (rest : List ℕ)
    (result : Option Decoder) : Type 0 where
  pub fuel' : ℕ
  pub flags' : ℕ
  pub enough : length rest < fuel'
  pub marker : flags' / 2 ≡ register [] padding
  pub goes_on : result ≡ decode_loop fuel' (after_units us rest flags' d)

-- The register of the decoder that began does not matter.
pub Behind-flags :
    {us : List LzUnit} {padding flags : ℕ} {d : Decoder} {rest : List ℕ} {result : Option Decoder}
    → Behind us padding (record d { flags = flags }) rest result
    → Behind us padding d rest result
Behind-flags b = record {
  fuel' = b.fuel';
  flags' = b.flags';
  enough = b.enough;
  marker = b.marker;
  goes_on = b.goes_on;
}

-- One unit, and then those behind it.
pub unit-Behind :
    (u : LzUnit) (us : List LzUnit) (padding fuel : ℕ) (d : Decoder) (rest : List ℕ)
    → IsLzUnit u
    → d.flags ≡ register (u ∷ us) padding
    → length (expanded (u ∷ us) (window d)) ≤ d.room
    → length (codes (u ∷ us) ++ rest) < suc fuel
    → ((d' : Decoder)
        → d'.flags / 2 ≡ register us padding
        → length (expanded us (window d')) ≤ d'.room
        → length (codes us ++ rest) < fuel
        → Behind us padding d' rest (decode_loop fuel (record d' { src = codes us ++ rest })))
    → Behind
        (u ∷ us)
        padding
        d
        rest
        (decode_unit (decode_loop fuel) (record d { src = codes (u ∷ us) ++ rest }))
unfolding expanded expanded_window codes
unit-Behind u us padding fuel d rest hu hf room enough behind = record {
  fuel' = later.fuel';
  flags' = later.flags';
  enough = later.enough;
  marker = later.marker;
  goes_on = here ∙ later.goes_on ∙ ap (decode_loop later.fuel') (joined later.flags');
}
  where
    d₁ : Decoder
    d₁ = after_unit u (record d { src = codes us ++ rest })

    later : Behind us padding d₁ rest (decode_loop fuel (record d₁ { src = codes us ++ rest }))
    later =
        behind d₁ (rw hf (register-div u us padding))
          (omega (
            arith,
            length-append (unit_bytes u (window d)) (expanded us (unit_window u (window d))),
          ))
          (omega (
            arith,
            length-append (code u ++ codes us) rest,
            length-append (code u) (codes us),
            length-append (codes us) rest,
            length-code u,
          ))

    unit_room : length (unit_bytes u (window d)) ≤ d.room
    unit_room =
        omega
          (arith, length-append (unit_bytes u (window d)) (expanded us (unit_window u (window d))))

    here :
        decode_unit (decode_loop fuel) (record d { src = (code u ++ codes us) ++ rest })
        ≡ decode_loop fuel d₁
    here = rw (append_assoc (code u) (codes us) rest) (
        decode_unit-code u (decode_loop fuel) d (codes us ++ rest) hu
          (rw hf (register-mod u us padding)) unit_room)

    joined : (flags : ℕ) → after_units us rest flags d₁ ≡ after_units (u ∷ us) rest flags d
    joined flags =
        ap (λ (t : Decoder). record t { src = rest; flags = flags })
          (advance-advance d (unit_bytes u (window d)) (expanded us (unit_window u (window d)))
            (unit_window u (window d)) _)

-- The units of a group behind the first.
pub units-Behind :
    (us : List LzUnit) (padding fuel : ℕ) (d : Decoder) (rest : List ℕ)
    → AllUnits us
    → d.flags / 2 ≡ register us padding
    → length us + padding ≤ 8
    → length (expanded us (window d)) ≤ d.room
    → length (codes us ++ rest) < fuel
    → Behind us padding d rest (decode_loop fuel (record d { src = codes us ++ rest }))
units-Behind us padding zero d rest hu hf le room enough = absurd (omega arith)
units-Behind [] padding (suc fuel) d rest hu hf le room enough = record {
  fuel' = suc fuel;
  flags' = d.flags;
  enough = unfold codes in enough;
  marker = hf;
  goes_on =
      unfold codes expanded expanded_window in
      ap (λ (t : Decoder). decode_loop (suc fuel) (record t { src = rest })) (advance-nothing d);
}
units-Behind (u ∷ us) padding (suc fuel) d rest hu hf le room enough = rw entry (
    Behind-flags (
      unit-Behind u us padding fuel (record d { flags = d.flags / 2 }) rest hu.0 hf room enough
        (λ d' hf' room' enough'.
          units-Behind us padding fuel d' rest hu.1 hf' (omega arith) room' enough')))
  where
    more : (bit_and (d.flags / 2) 0x100 == 0) ≡ false
    more = rw hf (register-more (u ∷ us) padding (omega arith) le)

    entry :
        decode_loop (suc fuel) (record d { src = codes (u ∷ us) ++ rest })
        ≡ decode_unit
            (decode_loop fuel)
            (record d { src = codes (u ∷ us) ++ rest; flags = d.flags / 2 })
    entry = loop-more fuel (record d { src = codes (u ∷ us) ++ rest }) more
