-- ===== src/Archive/Slice.antt =====
-- kernelcache.c: uncompressPrelinkedSlice and compressPrelinkedSlice, with the header of kernelcache.h.
use kext_tools.Common.{
  ℕ, zero, suc, ◌+◌, ◌-◌, ◌%◌, ◌^◌, Bool, not, Option, none, some, List, [], ◌∷◌, ◌++◌,
  if◌then◌else◌, ◌==◌, ◌||◌, ltb, length, take,
}
use kext_tools.Compression.Decode.{decompress_lzss}
use kext_tools.Compression.Checksum.{local_adler32}
use kext_tools.Archive.Memory.{read, read_be32, be32}
use kext_tools.Archive.Entry.{Machine}
use kext_tools.Archive.Writer.{Compressor}

-- 'comp', COMP_TYPE_LZSS and COMP_TYPE_FASTLIB.
abbrev pub comp : ℕ
comp = 0x636f6d70

abbrev pub comp_type_lzss : ℕ
comp_type_lzss = 0x6c7a7373

abbrev pub comp_type_fastlib : ℕ
comp_type_fastlib = 0x6c7a766e

-- sizeof(PrelinkedKernelHeader).
abbrev pub header_size : ℕ
header_size = 384

-- compress_lzss and the functions of the lzvn library: the size of the buffer, the data, and the bytes that are
-- written there. lzvn_encode writes none where it fails.
pub record Codecs : Type 0 where
  pub compress_lzss : Compressor
  pub lzvn_encode : ℕ → List ℕ → List ℕ
  pub lzvn_decode : ℕ → List ℕ → List ℕ

-- The int result of decompress_lzss, as it is compared with the size: from 2 ^ 31 bytes on it is
-- negative, and then not the size.
abbrev pub as_int : Option (List ℕ) → Option (List ℕ)
as_int none = none
as_int (some out) = if ltb (length out) (2 ^ 31) then some out else none

-- local_adler32 with a length of 32 bits, of which it takes an int: a negative one leaves the
-- checksum of no bytes.
unfoldable pub adler32_of_int : List ℕ → ℕ → ℕ
adler32_of_int buffer n = if ltb n (2 ^ 31) then local_adler32 (take n buffer) else local_adler32 []

-- The decoder for a compression type.
unfoldable pub decoded : Machine → Codecs → ℕ → ℕ → List ℕ → Option (List ℕ)
decoded machine codecs compress_type bufsize file_data =
    if compress_type == comp_type_lzss
    then as_int (decompress_lzss machine.uninitialised bufsize file_data)
    else some (codecs.lzvn_decode bufsize file_data)

-- What is decoded of a slice; the length of one that is shorter than the header wraps around, in
-- 32 bits or in 64.
unfoldable pub decoded_slice : Machine → Codecs → ℕ → ℕ → List ℕ → Option (List ℕ)
unfolding decoded
decoded_slice machine codecs compress_type bufsize image =
    decoded machine codecs compress_type bufsize (
      if compress_type == comp_type_lzss
      then read machine.outside image header_size ((length image + 2 ^ 32 - header_size) % 2 ^ 32)
      else read machine.outside image header_size ((length image + 2 ^ 64 - header_size) % 2 ^ 64))

-- The tests behind the decoder: the size, and the checksum of the header.
unfoldable pub checked_slice : ℕ → ℕ → Option (List ℕ) → Option (List ℕ)
unfolding adler32_of_int
checked_slice bufsize adler none = none
checked_slice bufsize adler (some out) =
    if not (length out == bufsize)
    then none
    else if adler == adler32_of_int out bufsize
    then some out
    else none

unfoldable pub uncompress_prelinked_slice : Machine → Codecs → List ℕ → Option (List ℕ)
unfolding decoded_slice checked_slice
uncompress_prelinked_slice machine codecs image =
    let compress_type = read_be32 machine.outside image 4 in
    let bufsize = read_be32 machine.outside image 12 in
    if not (read_be32 machine.outside image 0 == comp)
    then none
    else if not ((compress_type == comp_type_lzss) || (compress_type == comp_type_fastlib))
    then none
    else checked_slice bufsize (read_be32 machine.outside image 8)
        (decoded_slice machine codecs compress_type bufsize image)

unfoldable pub zeros : ℕ → List ℕ
zeros zero = []
zeros (suc n) = 0 ∷ zeros n

-- The header of a slice with `compsize` bytes of data: the words, the reserved ones and the names.
unfoldable pub prelinked_kernel_header : ℕ → List ℕ → ℕ → Bool → List ℕ
unfolding zeros adler32_of_int
prelinked_kernel_header compress_type image compsize has_relocs =
    be32 comp
    ++ (be32 compress_type
        ++ (be32 (adler32_of_int image (length image % 2 ^ 32))
            ++ (be32 (length image)
                ++ (be32 compsize ++ (be32 (if has_relocs then 1 else 0) ++ zeros 360)))))

abbrev pub none_if_empty : List ℕ → Option (List ℕ)
none_if_empty [] = none
none_if_empty (x ∷ xs) = some (x ∷ xs)

unfoldable pub encoded_slice : Codecs → ℕ → List ℕ → Option (List ℕ)
encoded_slice codecs compress_type image =
    let bufsize = length image + header_size in
    if compress_type == comp_type_fastlib
    then none_if_empty (codecs.lzvn_encode bufsize image)
    else if compress_type == comp_type_lzss
    then codecs.compress_lzss (bufsize % 2 ^ 32) (take (length image % 2 ^ 32) image)
    else none

unfoldable pub compress_prelinked_slice : Machine → Codecs → ℕ → List ℕ → Bool → Option (List ℕ)
compress_prelinked_slice machine codecs compress_type image has_relocs =
    if read_be32 machine.outside image 0 == comp
    then none
    else elim (encoded_slice codecs compress_type image) [
      | none ↦ none
      | some added ↦
          some (prelinked_kernel_header compress_type image (length added) has_relocs ++ added)
    ]
