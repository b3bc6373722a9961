-- ===== src/Compression/Tests.antt =====
-- Tests of the decompression and the checksum, and their theorems at concrete inputs.
use kext_tools.Common.{ℕ, ◌≡◌, ◌≤◌, refl, some, List, [], ◌∷◌, length, arith}
use kext_tools.Compression.Checksum.{local_adler32, adler32, local_adler32-adler32}
use kext_tools.Compression.Decode.{decompress_lzss}
use kext_tools.Compression.Bounds.{decompress_lzss-le_dstlen}
use kext_tools.Compression.Format.{LzUnit, letter, pair, stream, expanded_groups}
use kext_tools.Compression.RoundTrip.{start_window, decompress_lzss-stream}

-- "abc", and then five bytes from where it stands.
abbrev sample : List (List LzUnit)
sample = (letter 97 ∷ letter 98 ∷ letter 99 ∷ pair 4078 5 ∷ []) ∷ []

abbrev garbage : ℕ → ℕ
garbage i = 0

sample-stream : stream sample ≡ 7 ∷ 97 ∷ 98 ∷ 99 ∷ 238 ∷ 242 ∷ []
unfolding stream
sample-stream = refl

decompress_sample :
    decompress_lzss garbage 20 (7 ∷ 97 ∷ 98 ∷ 99 ∷ 238 ∷ 242 ∷ [])
    ≡ some (97 ∷ 98 ∷ 99 ∷ 97 ∷ 98 ∷ 99 ∷ 97 ∷ 98 ∷ [])
unfolding decompress_lzss
decompress_sample = refl

adler_wikipedia :
    local_adler32 (87 ∷ 105 ∷ 107 ∷ 105 ∷ 112 ∷ 101 ∷ 100 ∷ 105 ∷ 97 ∷ []) ≡ 0x11e60398
unfolding local_adler32
adler_wikipedia = refl

decompress_lzss-stream_example :
    decompress_lzss garbage 20 (stream sample)
    ≡ some (expanded_groups sample (start_window garbage))
unfolding expanded_groups
decompress_lzss-stream_example =
    decompress_lzss-stream garbage 20 sample (omega arith) (omega arith)

decompress_lzss-le_dstlen_example :
    (out : List ℕ) × (decompress_lzss garbage 2 (7 ∷ 97 ∷ 98 ∷ 99 ∷ []) ≡ some out)
    × (length out ≤ 2)
decompress_lzss-le_dstlen_example = decompress_lzss-le_dstlen garbage 2 (7 ∷ 97 ∷ 98 ∷ 99 ∷ [])

local_adler32-adler32_example : local_adler32 (255 ∷ 255 ∷ 1 ∷ []) ≡ adler32 (255 ∷ 255 ∷ 1 ∷ [])
local_adler32-adler32_example = local_adler32-adler32 (255 ∷ 255 ∷ 1 ∷ []) (omega arith)
