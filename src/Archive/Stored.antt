-- ===== src/Archive/Stored.antt =====
-- mkext1_file.c, mkextunpack_main.c: what addDataToMkext stores for a file, and what is read back.
use kext_tools.Common.{
  ℕ, ◌%◌, ◌^◌, ◌<◌, ◌≡◌, ◌≢◌, refl, sym, ap, ◌∙◌, Bool, true, false, Option, none, some, List, [],
  ◌∷◌, ◌++◌, arith, length, ◌⊎◌, inl, inr,
}
use kext_tools.Compression.Decode.{decompress_lzss, decode_loop, start}
use kext_tools.Compression.Bounds.{decompress_lzss-le_dstlen}
use kext_tools.Archive.Memory.{read-between}
use kext_tools.Archive.Entry.{MkextFile, Machine, uncompress_mkext1_entry}
use kext_tools.Archive.Writer.{Compressor, same_bytes, check_compressed, compressed_data}

-- The compressed bytes do not stand for memory that the decoder has not initialised.
abbrev pub IsSteady : Compressor → Type 0
IsSteady compressor =
    (u u' : ℕ → ℕ) (n : ℕ) (file_data added : List ℕ)
    → compressor n file_data ≡ some added
    → decompress_lzss u n added ≡ decompress_lzss u' n added

-- Nothing is read back for an empty file.
abbrev pub data_of : List ℕ → Option (List ℕ)
data_of [] = none
data_of (x ∷ xs) = some (x ∷ xs)

same_bytes-eq : (xs ys : List ℕ) → same_bytes xs ys ≡ true → xs ≡ ys
unfolding same_bytes
same_bytes-eq [] [] h = refl
same_bytes-eq [] (y ∷ ys) h = absurd (ground (arith, h))
same_bytes-eq (x ∷ xs) [] h = absurd (ground (arith, h))
same_bytes-eq (x ∷ xs) (y ∷ ys) h =
    let tail : same_bytes xs ys ≡ true = ground (arith, h) in
    let head : x ≡ y = ground (arith, h) in rw (head, same_bytes-eq xs ys tail) refl

-- What the bytes that are added are for the file.
abbrev pub IsStored : Compressor → (ℕ → ℕ) → List ℕ → List ℕ → ℕ → Type 0
IsStored compressor u file_data added compsize =
    ((added ≡ file_data) × (compsize ≡ 0))
    ⊎ ((compressor (length file_data) file_data ≡ some added)
        × (decompress_lzss u (length file_data) added ≡ some file_data)
        × (compsize ≡ length added % 2 ^ 32)
        × (length file_data < 2 ^ 31))

check_compressed-IsStored :
    (compressor : Compressor) (u : ℕ → ℕ) (file_data out added : List ℕ) (compsize : ℕ)
    → compressor (length file_data % 2 ^ 32) file_data ≡ some out
    → check_compressed u file_data out ≡ some (added, compsize)
    → IsStored compressor u file_data added compsize
unfolding check_compressed
check_compressed-IsStored compressor u file_data out added compsize c h =
    let full = length file_data % 2 ^ 32 in
    let (check, e, within) = decompress_lzss-le_dstlen u full out in
    let h' = rw (check_compressed, e) at h in
    let same : same_bytes check file_data ≡ true = ground (arith, h') in
    let sized : length check ≡ full = ground (arith, h') in
    let small : length check < 2 ^ 31 = ground (arith, h') in
    let equal : check ≡ file_data = same_bytes-eq check file_data same in
    let whole : full ≡ length file_data = sym sized ∙ ap length equal in
    let is_out : out ≡ added = ground (arith, h') in
    inr (
      ap (λ (n : ℕ). compressor n file_data) (sym whole) ∙ c ∙ ap some is_out,
      ap (λ (n : ℕ). decompress_lzss u n added) (sym whole)
          ∙ ap (decompress_lzss u full) (sym is_out)
          ∙ e
          ∙ ap some equal,
      ground (arith, h'),
      omega (arith, ap length equal, small),
    )

pub compressed_data-IsStored :
    (compressor : Compressor) (u : ℕ → ℕ) (compress : Bool) (file_data added : List ℕ)
    (compsize : ℕ)
    → compressed_data compressor u compress file_data ≡ some (added, compsize)
    → IsStored compressor u file_data added compsize
unfolding compressed_data
compressed_data-IsStored compressor u false file_data added compsize h = inl (ground (arith, h))
compressed_data-IsStored compressor u true file_data added compsize h =
    by_output (compressor (length file_data % 2 ^ 32) file_data) refl
  where
    by_output :
        (o : Option (List ℕ))
        → compressor (length file_data % 2 ^ 32) file_data ≡ o
        → IsStored compressor u file_data added compsize
    by_output none e = inl (ground (arith, h, e))
    by_output (some out) e =
        check_compressed-IsStored compressor u file_data out added compsize e (ground (arith, h, e))

-- The entry of a file of which `added` was stored at an offset.
abbrev pub entry_of : ℕ → List ℕ → ℕ → MkextFile
entry_of offset file_data compsize = record {
  offset = offset;
  compsize = compsize;
  realsize = length file_data % 2 ^ 32;
  modifiedsecs = 0;
}

decompress_lzss-empty : (u : ℕ → ℕ) (n : ℕ) → decompress_lzss u n [] ≡ some []
unfolding decompress_lzss decode_loop start
decompress_lzss-empty u n = ground arith

not_empty :
    (u : ℕ → ℕ) (n x : ℕ) (xs added : List ℕ)
    → decompress_lzss u n added ≡ some (x ∷ xs)
    → length added ≢ 0
not_empty u n x xs [] d z = absurd (ground (arith, sym (decompress_lzss-empty u n) ∙ d))
not_empty u n x xs (y ∷ added) d z = absurd (omega (arith, z))

pub uncompress_mkext1_entry-stored :
    (compressor : Compressor) (u : ℕ → ℕ) (machine : Machine) (file_data added : List ℕ)
    (compsize : ℕ) (front behind : List ℕ)
    → IsSteady compressor
    → IsStored compressor u file_data added compsize
    → length added < 2 ^ 32
    → length front ≢ 0
    → uncompress_mkext1_entry machine
        (front ++ (added ++ behind))
        (entry_of (length front) file_data compsize)
      ≡ some (data_of file_data)
unfolding uncompress_mkext1_entry
uncompress_mkext1_entry-stored compressor u machine [] added compsize front behind steady st small
      away =
    ground arith
uncompress_mkext1_entry-stored compressor u machine (x ∷ xs) added compsize front behind steady
      (inl (same, raw)) small away =
    let whole : length (x ∷ xs) % 2 ^ 32 ≡ length added = omega (arith, ap length same) in
    let back = read-between machine.outside front added behind in
    rw (raw, whole, back) (ground (arith, same))
uncompress_mkext1_entry-stored compressor u machine (x ∷ xs) added compsize front behind steady
      (inr (c, d, n, l)) small away =
    let whole : length (x ∷ xs) % 2 ^ 32 ≡ length (x ∷ xs) = omega (arith, l) in
    let exact : compsize ≡ length added = omega (arith, n) in
    let back = read-between machine.outside front added behind in
    let out = steady machine.uninitialised u (length (x ∷ xs)) (x ∷ xs) added c ∙ d in
    let filled = not_empty u (length (x ∷ xs)) x xs added d in
    rw (whole, exact, back, out) (ground (arith, whole, filled, l))
