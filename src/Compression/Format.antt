-- ===== src/Compression/Format.antt =====
-- The LZSS format that compress_lzss writes: groups of up to eight units behind a byte of flags, and what the
-- units stand for.
use kext_tools.Common.{
  ℕ, zero, suc, ◌+◌, ◌-◌, ◌*◌, ◌/◌, ◌%◌, ◌^◌, ◌≤◌, ◌<◌, ◌≡◌, List, [], ◌∷◌, ◌++◌, length,
}
use Prim.Native.Nat.{bit_and, bit_or}
use kext_tools.Compression.Decode.{ring_size, max_match, threshold, store}

-- A letter, or the position and the length of a match.
pub data LzUnit : Type 0 where
  letter : ℕ → LzUnit
  pair : ℕ → ℕ → LzUnit

abbrev pub IsLzUnit : LzUnit → Type 0
IsLzUnit (letter c) = c < 256
IsLzUnit (pair position len) = (position < ring_size) × (threshold < len) × (len ≤ max_match)

abbrev pub flag : LzUnit → ℕ
flag (letter c) = 1
flag (pair position len) = 0

-- The bytes of a unit, as compress_lzss stores them in code_buf.
unfoldable pub code : LzUnit → List ℕ
code (letter c) = c ∷ []
code (pair position len) =
    (position % 256) ∷ bit_or (bit_and (position / 2 ^ 4) 0xf0) (len - (threshold + 1)) % 256 ∷ []

unfoldable pub codes : List LzUnit → List ℕ
unfolding code
codes [] = []
codes (u ∷ us) = code u ++ codes us

-- code_buf[0], with the first unit's flag in the lowest bit.
unfoldable pub flags_of : List LzUnit → ℕ
flags_of [] = 0
flags_of (u ∷ us) = flag u + 2 * flags_of us

unfoldable pub stream : List (List LzUnit) → List ℕ
unfolding flags_of codes
stream [] = []
stream (g ∷ gs) = flags_of g ∷ (codes g ++ stream gs)

abbrev pub AllUnits : List LzUnit → Type 0
AllUnits [] = Unit {0}
AllUnits (u ∷ us) = IsLzUnit u × AllUnits us

-- Every group but the last has eight units.
abbrev pub IsStream : List (List LzUnit) → Type 0
IsStream [] = Unit {0}
IsStream (g ∷ []) = AllUnits g × (0 < length g) × (length g ≤ 8)
IsStream (g ∷ h ∷ gs) = AllUnits g × (length g ≡ 8) × IsStream (h ∷ gs)

-- The last ring_size bytes, and where the next one goes.
pub record Window : Type 0 where
  pub text_buf : ℕ → ℕ
  pub r : ℕ

abbrev pub push : ℕ → Window → Window
push c w = record { text_buf = store w.text_buf w.r c; r = (w.r + 1) % ring_size }

-- The bytes of a match from its `k`th on: each is read from the window behind those before it.
unfoldable pub match_bytes : ℕ → ℕ → ℕ → Window → List ℕ
match_bytes zero position k w = []
match_bytes (suc left) position k w =
    let c = w.text_buf ((position + k) % ring_size) in
    c ∷ match_bytes left position (k + 1) (push c w)

unfoldable pub match_window : ℕ → ℕ → ℕ → Window → Window
match_window zero position k w = w
match_window (suc left) position k w =
    match_window left position (k + 1) (push (w.text_buf ((position + k) % ring_size)) w)

unfoldable pub unit_bytes : LzUnit → Window → List ℕ
unfolding match_bytes
unit_bytes (letter c) w = c ∷ []
unit_bytes (pair position len) w = match_bytes len position 0 w

unfoldable pub unit_window : LzUnit → Window → Window
unfolding match_window
unit_window (letter c) w = push c w
unit_window (pair position len) w = match_window len position 0 w

unfoldable pub expanded : List LzUnit → Window → List ℕ
unfolding unit_bytes unit_window
expanded [] w = []
expanded (u ∷ us) w = unit_bytes u w ++ expanded us (unit_window u w)

unfoldable pub expanded_window : List LzUnit → Window → Window
unfolding unit_window
expanded_window [] w = w
expanded_window (u ∷ us) w = expanded_window us (unit_window u w)

unfoldable pub expanded_groups : List (List LzUnit) → Window → List ℕ
unfolding expanded expanded_window
expanded_groups [] w = []
expanded_groups (g ∷ gs) w = expanded g w ++ expanded_groups gs (expanded_window g w)
