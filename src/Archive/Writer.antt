-- ===== src/Archive/Writer.antt =====
-- mkext1_file.c: the creation of an mkext archive of format 1.
use kext_tools.Common.{
  ℕ, zero, suc, ◌+◌, ◌-◌, ◌*◌, ◌%◌, ◌^◌, Bool, true, false, not, Option, none, some, List, [], ◌∷◌,
  ◌++◌, if◌then◌else◌, ◌==◌, ◌&&◌, length, take,
}
use kext_tools.Compression.Decode.{decompress_lzss}
use kext_tools.Archive.Entry.{MkextFile, is_int_size}

-- struct mkext_kext.
pub record MkextKext : Type 0 where
  pub plist : MkextFile
  pub module_file : MkextFile

-- struct Mkext1Context, with the archive in two parts: the descriptors of the kexts, which stand behind the header,
-- and the bytes behind them. `body_start` is the offset of these bytes.
pub record Mkext1Context : Type 0 where
  pub descriptors : List MkextKext
  pub body_start : ℕ
  pub body : List ℕ
  pub kext_index : ℕ
  pub compress_offset : ℕ
  pub compress : Bool

abbrev pub no_file : MkextFile
no_file = record { offset = 0; compsize = 0; realsize = 0; modifiedsecs = 0 }

abbrev pub no_kext : MkextKext
no_kext = record { plist = no_file; module_file = no_file }

unfoldable pub set_kext : ℕ → (MkextKext → MkextKext) → List MkextKext → List MkextKext
set_kext i change [] = []
set_kext zero change (k ∷ ks) = change k ∷ ks
set_kext (suc i) change (k ∷ ks) = k ∷ set_kext i change ks

-- compress_lzss: the size of the buffer, and the data; `none` when the data does not fit when it is compressed.
abbrev pub Compressor : Type 0
Compressor = ℕ → List ℕ → Option (List ℕ)

unfoldable pub same_bytes : List ℕ → List ℕ → Bool
same_bytes [] [] = true
same_bytes (x ∷ xs) (y ∷ ys) = (x == y) && same_bytes xs ys
same_bytes _ _ = false

-- The compressed bytes are uncompressed again, and compared.
unfoldable pub check_compressed : (ℕ → ℕ) → List ℕ → List ℕ → Option (List ℕ × ℕ)
unfolding same_bytes
check_compressed uninitialised file_data added =
    let full = length file_data % 2 ^ 32 in
    elim (decompress_lzss uninitialised full added) [
      | none ↦ none
      | some check ↦
          if not (is_int_size (length check) full)
          then none
          else if same_bytes check file_data
          then some (added, length added % 2 ^ 32)
          else none
    ]

-- The bytes that are added, and compsize; `none` when the check of the compressed bytes fails.
unfoldable pub compressed_data : Compressor → (ℕ → ℕ) → Bool → List ℕ → Option (List ℕ × ℕ)
unfolding check_compressed
compressed_data compressor uninitialised compress file_data =
    elim (if compress then compressor (length file_data % 2 ^ 32) file_data else none) [
      | none ↦ some (file_data, 0)
      | some added ↦ check_compressed uninitialised file_data added
    ]

abbrev pub set_file : Bool → MkextFile → MkextKext → MkextKext
set_file is_info_dict file kext =
    if is_info_dict then record kext { plist = file } else record kext { module_file = file }

-- The bytes go to compressOffset, and the archive is cut behind them. Where the function returns false the archive
-- is given up.
unfoldable pub add_data_to_mkext :
    Compressor → (ℕ → ℕ) → Bool → List ℕ → Mkext1Context → Option Mkext1Context
unfolding compressed_data set_kext
add_data_to_mkext compressor uninitialised is_info_dict file_data context =
    elim (compressed_data compressor uninitialised context.compress file_data) [
      | none ↦ none
      | some (added, compsize) ↦ some (record context {
        descriptors =
            set_kext context.kext_index
              (set_file is_info_dict (record {
                offset = context.compress_offset;
                compsize = compsize;
                realsize = length file_data % 2 ^ 32;
                modifiedsecs = 0;
              }))
              context.descriptors;
        body = take (context.compress_offset - context.body_start) context.body ++ added;
        compress_offset = (context.compress_offset + length added) % 2 ^ 32;
      })
    ]

-- What addToMkext1 gets of a kext: the raw info dictionary, when its bundle opens and the file can be read, and
-- the executable for the architecture.
pub record KextFiles : Type 0 where
  pub info_dict : Option (List ℕ)
  pub executable : Option (List ℕ)
  pub declares_executable : Bool

-- addToMkext1 from the executable on.
unfoldable pub add_executable :
    Compressor → (ℕ → ℕ) → Option (List ℕ) → Bool → Mkext1Context → Option Mkext1Context
unfolding add_data_to_mkext
add_executable compressor uninitialised none declares context =
    if declares then none else some (record context { kext_index = context.kext_index + 1 })
add_executable compressor uninitialised (some executable) declares context =
    elim (add_data_to_mkext compressor uninitialised false executable context) [
      | none ↦ none
      | some added ↦ some (record added { kext_index = added.kext_index + 1 })
    ]

unfoldable pub add_to_mkext1 :
    Compressor → (ℕ → ℕ) → KextFiles → Mkext1Context → Option Mkext1Context
unfolding add_data_to_mkext add_executable
add_to_mkext1 compressor uninitialised kext context = elim kext.info_dict [
  | none ↦ none
  | some info ↦ elim (add_data_to_mkext compressor uninitialised true info context) [
    | none ↦ none
    | some added ↦
        add_executable compressor uninitialised kext.executable kext.declares_executable added
  ]
]

-- CFDictionaryApplyFunction; a fatal error skips the kexts behind it.
unfoldable pub add_all :
    Compressor → (ℕ → ℕ) → List KextFiles → Mkext1Context → Option Mkext1Context
unfolding add_to_mkext1
add_all compressor uninitialised [] context = some context
add_all compressor uninitialised (kext ∷ kexts) context =
    elim (add_to_mkext1 compressor uninitialised kext context) [
      | none ↦ none
      | some added ↦ add_all compressor uninitialised kexts added
    ]

unfoldable pub zero_kexts : List KextFiles → List MkextKext
zero_kexts [] = []
zero_kexts (kext ∷ kexts) = no_kext ∷ zero_kexts kexts

-- The sizes of mkext1_header and mkext_kext.
pub record Sizes : Type 0 where
  pub header : ℕ
  pub descriptor : ℕ

-- The part of createMkext1ForArch from where the kexts are chosen to where the header is filled in.
unfoldable pub create_mkext1 :
    Compressor → (ℕ → ℕ) → Sizes → Bool → List KextFiles → Option Mkext1Context
unfolding add_all zero_kexts
create_mkext1 compressor uninitialised sizes compress kexts =
    let start = sizes.header + length kexts * sizes.descriptor in
    add_all compressor uninitialised kexts (record {
      descriptors = zero_kexts kexts;
      body_start = start;
      body = [];
      kext_index = 0;
      compress_offset = start % 2 ^ 32;
      compress = compress;
    })
