-- ===== src/Archive/Tests.antt =====
-- Tests of the archives and kernel caches, and their theorems at concrete ones.
use kext_tools.Common.{
  ℕ, ◌≡◌, ◌≢◌, refl, sym, ◌∙◌, ◌⊎◌, ◌≤◌, ◌<◌, ◌^◌, ◌↔◌, String, ◌&&◌, ◌||◌, Bool, true, false, none,
  some, List, [], ◌∷◌, ◌++◌, if◌then◌else◌, ◌==◌, arith, length, inl, inr,
}
use kext_tools.Compression.Decode.{put, copy, decode_unit, decode_loop, start, decompress_lzss}
use kext_tools.Compression.Format.{
  LzUnit, letter, code, codes, flags_of, stream, unit_bytes, expanded, expanded_groups,
}
use kext_tools.Compression.Checksum.{local_adler32}
use kext_tools.Archive.Memory.{byte_at, read, read_be32}
use kext_tools.Archive.Entry.{MkextFile, Machine, uncompress_mkext1_entry}
use kext_tools.Archive.Writer.{
  Mkext1Context, Compressor, set_kext, same_bytes, check_compressed, compressed_data,
  add_data_to_mkext, KextFiles, add_executable, add_to_mkext1, add_all, zero_kexts, Sizes,
  create_mkext1,
}
use kext_tools.Archive.Bounds.{uncompress_mkext1_entry-inside, uncompress_mkext1_entry-realsize}
use kext_tools.Archive.Added.{IsCompressor}
use kext_tools.Archive.RoundTrip.{AllRead, create_mkext1-AllRead}
use kext_tools.Archive.Newest.{
  OsKext, get_value, set_value, choose_kext, choose_kexts, AllCovered, AllSupport,
  choose_kexts-AllCovered,
}
use kext_tools.Archive.Slice.{
  comp, comp_type_lzss, comp_type_fastlib, header_size, Codecs, adler32_of_int, decoded,
  decoded_slice, checked_slice, uncompress_prelinked_slice, zeros, prelinked_kernel_header,
  encoded_slice, compress_prelinked_slice,
}
use kext_tools.Archive.SliceTrip.{
  compress_prelinked_slice-uncompress, uncompress_prelinked_slice-stream,
  uncompress_prelinked_slice-inside, uncompress_prelinked_slice-checked,
}

abbrev machine : Machine
machine = record { outside = λ i. i; uninitialised = λ i. 0 }

abbrev spaces : List ℕ
spaces =
    32 ∷ 32 ∷ 32 ∷ 32 ∷ 32 ∷ 32 ∷ 32 ∷ 32 ∷ 32 ∷ 32 ∷ 32 ∷ 32 ∷ 32 ∷ 32 ∷ 32 ∷ 32 ∷ 32 ∷ 32 ∷ []

-- Eighteen spaces are compressed to one match with the spaces of the first ring buffer.
abbrev of_spaces : Compressor
of_spaces n file_data =
    if ((n == 18) || (n == 402)) && same_bytes file_data spaces
    then some (0 ∷ 0 ∷ 15 ∷ [])
    else none

decompress_18 : (u : ℕ → ℕ) → decompress_lzss u 18 (0 ∷ 0 ∷ 15 ∷ []) ≡ some spaces
unfolding decompress_lzss decode_loop decode_unit put copy start
decompress_18 u = refl

decompress_402 : (u : ℕ → ℕ) → decompress_lzss u 402 (0 ∷ 0 ∷ 15 ∷ []) ≡ some spaces
unfolding decompress_lzss decode_loop decode_unit put copy start
decompress_402 u = refl

of_spaces-IsCompressor : IsCompressor of_spaces
of_spaces-IsCompressor = record {
  steady = λ u u' n file_data added e.
      let is_match : added ≡ 0 ∷ 0 ∷ 15 ∷ [] = ground (arith, e) in
      let sized : (n ≡ 18) ⊎ (n ≡ 402) = ground (arith, e) in
      elim sized [
        | inl s ↦ rw (is_match, s) (decompress_18 u ∙ sym (decompress_18 u'))
        | inr s ↦ rw (is_match, s) (decompress_402 u ∙ sym (decompress_402 u'))
      ];
  fits = λ n file_data added e. ground (arith, e);
}

abbrev decode_tail : ℕ → List ℕ → List ℕ
decode_tail n [] = []
decode_tail n (x ∷ xs) = xs

abbrev codecs : Codecs
codecs = record {
  compress_lzss = of_spaces;
  lzvn_encode = λ n file_data. 0 ∷ file_data;
  lzvn_decode = decode_tail;
}

abbrev sizes : Sizes
sizes = record { header = 32; descriptor = 32 }

abbrev two_kexts : List KextFiles
two_kexts =
    record {
      info_dict = some spaces;
      executable = some (1 ∷ 2 ∷ 3 ∷ []);
      declares_executable = true;
    }
    ∷ record { info_dict = some (60 ∷ []); executable = none; declares_executable = false }
    ∷ []

abbrev filled : Mkext1Context
filled = record {
  descriptors =
      record {
        plist = record { offset = 96; compsize = 3; realsize = 18; modifiedsecs = 0 };
        module_file = record { offset = 99; compsize = 0; realsize = 3; modifiedsecs = 0 };
      }
      ∷ record {
        plist = record { offset = 102; compsize = 0; realsize = 1; modifiedsecs = 0 };
        module_file = record { offset = 0; compsize = 0; realsize = 0; modifiedsecs = 0 };
      }
      ∷ [];
  body_start = 96;
  body = 0 ∷ 0 ∷ 15 ∷ 1 ∷ 2 ∷ 3 ∷ 60 ∷ [];
  kext_index = 2;
  compress_offset = 103;
  compress = true;
}

create_two_kexts : create_mkext1 of_spaces (λ i. 0) sizes true two_kexts ≡ some filled
unfolding create_mkext1 add_all add_to_mkext1 add_executable add_data_to_mkext compressed_data
    set_kext zero_kexts check_compressed same_bytes decompress_lzss decode_loop decode_unit put copy
    start
create_two_kexts = refl

abbrev thirty_two : List ℕ
thirty_two =
    0 ∷ 0 ∷ 0 ∷ 0 ∷ 0 ∷ 0 ∷ 0 ∷ 0 ∷ 0 ∷ 0 ∷ 0 ∷ 0 ∷ 0 ∷ 0 ∷ 0 ∷ 0 ∷ 0 ∷ 0 ∷ 0 ∷ 0 ∷ 0 ∷ 0 ∷ 0 ∷ 0
    ∷ 0 ∷ 0 ∷ 0 ∷ 0 ∷ 0 ∷ 0 ∷ 0 ∷ 0 ∷ []

abbrev front : List ℕ
front = thirty_two ++ (thirty_two ++ thirty_two)

create_mkext1-AllRead_example : AllRead machine (front ++ filled.body) filled.descriptors two_kexts
create_mkext1-AllRead_example =
    create_mkext1-AllRead of_spaces (λ i. 0) of_spaces-IsCompressor sizes true two_kexts filled
      (ground arith) (omega arith) create_two_kexts machine front refl

abbrev small_archive : List ℕ
small_archive = 9 ∷ 8 ∷ 7 ∷ 6 ∷ []

abbrev last_two : MkextFile
last_two = record { offset = 2; compsize = 0; realsize = 2; modifiedsecs = 0 }

abbrev two_bytes : List ℕ
two_bytes = 7 ∷ 6 ∷ []

uncompress_mkext1_entry-inside_example :
    uncompress_mkext1_entry machine small_archive last_two
    ≡ uncompress_mkext1_entry (record machine { outside = λ i. 255 }) small_archive last_two
uncompress_mkext1_entry-inside_example =
    uncompress_mkext1_entry-inside machine (λ i. 255) small_archive last_two (omega arith)

uncompress_mkext1_entry-realsize_example : length two_bytes ≡ last_two.realsize
unfolding uncompress_mkext1_entry read byte_at
uncompress_mkext1_entry-realsize_example =
    uncompress_mkext1_entry-realsize machine small_archive last_two two_bytes refl

abbrev os_kext : String → ℕ → Bool → OsKext
os_kext identifier version supports = record {
  identifier = identifier;
  version = version;
  supports = supports;
  files = record { info_dict = none; executable = none; declares_executable = false };
}

abbrev three_versions : List OsKext
three_versions = os_kext "a" 1 true ∷ os_kext "a" 3 true ∷ os_kext "a" 9 false ∷ []

newest_supported : choose_kexts three_versions [] ≡ os_kext "a" 3 true ∷ []
unfolding choose_kexts choose_kext get_value set_value
newest_supported = refl

choose_kexts-AllCovered_example :
    AllCovered three_versions (choose_kexts three_versions [])
    × AllSupport (choose_kexts three_versions [])
choose_kexts-AllCovered_example = choose_kexts-AllCovered three_versions

plain_image : read_be32 machine.outside spaces 0 ≢ comp
unfolding read_be32 byte_at
plain_image = ground arith

spaces_slice : List ℕ
unfolding prelinked_kernel_header adler32_of_int zeros
spaces_slice = prelinked_kernel_header comp_type_lzss spaces 3 false ++ (0 ∷ 0 ∷ 15 ∷ [])

compress_prelinked_slice-uncompress_example :
    (out : List ℕ) × (compress_prelinked_slice machine codecs comp_type_lzss spaces false
      ≡ some out)
    × ((file_data : List ℕ)
        → (uncompress_prelinked_slice machine codecs out ≡ some file_data) ↔ (
            (decoded machine codecs comp_type_lzss (length spaces) (0 ∷ 0 ∷ 15 ∷ [])
              ≡ some file_data)
            × (length file_data ≡ length spaces)
            × (local_adler32 file_data ≡ local_adler32 spaces)))
unfolding encoded_slice same_bytes
compress_prelinked_slice-uncompress_example =
    compress_prelinked_slice-uncompress machine codecs comp_type_lzss false spaces (0 ∷ 0 ∷ 15 ∷ [])
      refl plain_image (ground arith) (omega arith) (omega arith)

spaces_again : decoded machine codecs comp_type_lzss (length spaces) (0 ∷ 0 ∷ 15 ∷ []) ≡ some spaces
unfolding decoded decompress_lzss decode_loop decode_unit put copy start
spaces_again = refl

abbrev one_letter : List (List LzUnit)
one_letter = (letter 65 ∷ []) ∷ []

uncompress_prelinked_slice-stream_example :
    uncompress_prelinked_slice machine codecs
      (prelinked_kernel_header comp_type_lzss (65 ∷ []) 2 false ++ stream one_letter)
    ≡ some (65 ∷ [])
unfolding stream codes code flags_of expanded_groups expanded unit_bytes
uncompress_prelinked_slice-stream_example =
    uncompress_prelinked_slice-stream machine codecs 2 false one_letter (ground arith)
      (ground arith) (omega arith) (omega arith)

spaces_slice-long : header_size ≤ length spaces_slice
unfolding spaces_slice prelinked_kernel_header zeros
spaces_slice-long = omega arith

uncompress_prelinked_slice-inside_example :
    uncompress_prelinked_slice machine codecs spaces_slice
    ≡ uncompress_prelinked_slice (record machine { outside = λ i. 255 }) codecs spaces_slice
unfolding spaces_slice prelinked_kernel_header zeros
uncompress_prelinked_slice-inside_example =
    uncompress_prelinked_slice-inside machine codecs (λ i. 255) spaces_slice spaces_slice-long
      (omega arith)

uncompress_spaces_slice : uncompress_prelinked_slice machine codecs spaces_slice ≡ some spaces
unfolding spaces_slice uncompress_prelinked_slice decoded_slice decoded adler32_of_int checked_slice
    read read_be32 byte_at prelinked_kernel_header zeros decompress_lzss decode_loop decode_unit put
    copy start local_adler32
uncompress_spaces_slice = refl

uncompress_prelinked_slice-checked_example :
    (read_be32 machine.outside spaces_slice 0 ≡ comp)
    × (length spaces ≡ read_be32 machine.outside spaces_slice 12)
    × (((length spaces < 2 ^ 31)
          × (local_adler32 spaces ≡ read_be32 machine.outside spaces_slice 8))
        ⊎ ((2 ^ 31 ≤ length spaces)
            × (read_be32 machine.outside spaces_slice 4 ≡ comp_type_fastlib)
            × (read_be32 machine.outside spaces_slice 8 ≡ 1)))
uncompress_prelinked_slice-checked_example =
    uncompress_prelinked_slice-checked machine codecs spaces_slice spaces uncompress_spaces_slice
