-- ===== src/Archive/Entry.antt =====
-- mkextunpack_main.c: one file of an mkext archive of format 1.
use kext_tools.Common.{
  ℕ, not, Option, none, some, List, if◌then◌else◌, ◌==◌, ◌&&◌, ◌||◌, length, ◌^◌, ltb, Bool,
}
use kext_tools.Compression.Decode.{decompress_lzss}
use kext_tools.Archive.Memory.{read}

-- struct mkext_file, in the byte order of the host.
pub record MkextFile : Type 0 where
  pub offset : ℕ
  pub compsize : ℕ
  pub realsize : ℕ
  pub modifiedsecs : ℕ

-- What a call of uncompressMkext1Entry finds: the memory of the archive and behind it, and the part of the
-- decoder's ring buffer that is not initialised.
pub record Machine : Type 0 where
  pub outside : ℕ → ℕ
  pub uninitialised : ℕ → ℕ

-- decompress_lzss returns an int, which a size_t takes: from 2 ^ 31 bytes on it is negative, and
-- then equal to no size of 32 bits.
abbrev pub is_int_size : ℕ → ℕ → Bool
is_int_size n size = ltb n (2 ^ 31) && (n == size)

-- `none` where the function returns false, and `some none` where there is nothing to uncompress.
unfoldable pub uncompress_mkext1_entry : Machine → List ℕ → MkextFile → Option (Option (List ℕ))
uncompress_mkext1_entry machine mkext entry =
    if (entry.realsize == 0)
      || ((entry.offset == 0) && ((entry.compsize == 0) && (entry.modifiedsecs == 0)))
    then some none
    else if not (entry.compsize == 0)
    then elim (decompress_lzss machine.uninitialised entry.realsize
        (read machine.outside mkext entry.offset entry.compsize)) [
          | none ↦ none
          | some out ↦ if is_int_size (length out) entry.realsize then some (some out) else none
        ]
    else some (some (read machine.outside mkext entry.offset entry.realsize))
