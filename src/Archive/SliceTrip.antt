-- ===== src/Archive/SliceTrip.antt =====
-- kernelcache.c: kernel caches are compressed and uncompressed.
use kext_tools.Common.{
  ℕ, ◌+◌, ◌-◌, ◌*◌, ◌/◌, ◌%◌, ◌^◌, ◌≤◌, ◌<◌, ◌≡◌, ◌≢◌, refl, sym, ap, ◌∙◌, Bool, Option, some, List,
  [], ◌++◌, if◌then◌else◌, ◌==◌, append-nil, arith, length, take-length, none, false, true,
  Bool-cases, ltb, ◌↔◌, ◌==◌, inr, length-append, ◌⊎◌, inl, Bytes,
}
use kext_tools.Compression.Decode.{decompress_lzss}
use kext_tools.Compression.Checksum.{local_adler32, local_adler32-below}
use kext_tools.Compression.Format.{LzUnit, stream, IsStream, expanded_groups}
use kext_tools.Compression.RoundTrip.{start_window, decompress_lzss-stream}
use kext_tools.Archive.Memory.{
  byte_at, read, read_be32, read-between, read-inside, read_be32-inside,
}
use kext_tools.Archive.Entry.{Machine}
use kext_tools.Archive.Slice.{
  comp, comp_type_lzss, comp_type_fastlib, header_size, Codecs, as_int, adler32_of_int, decoded,
  decoded_slice, checked_slice, uncompress_prelinked_slice, zeros, prelinked_kernel_header,
  encoded_slice, compress_prelinked_slice,
}

length-header :
    (compress_type compsize : ℕ) (has_relocs : Bool) (image : List ℕ)
    → length (prelinked_kernel_header compress_type image compsize has_relocs) ≡ header_size
unfolding prelinked_kernel_header zeros
length-header compress_type compsize has_relocs image = refl

adler32_of_int-whole :
    (buffer : List ℕ) (n : ℕ)
    → n ≡ length buffer
    → n < 2 ^ 31
    → adler32_of_int buffer n ≡ local_adler32 buffer
unfolding adler32_of_int
adler32_of_int-whole buffer n e small = rw (e, take-length buffer) (ground (arith, e, small))

be32-whole :
    (x : ℕ)
    → x < 2 ^ 32
    → x / 2 ^ 24 % 256 * 2 ^ 24 + x / 2 ^ 16 % 256 * 2 ^ 16 + x / 2 ^ 8 % 256 * 2 ^ 8 + x % 256 ≡ x
be32-whole x h = omega arith

module _ (outside : ℕ → ℕ) (compress_type compsize : ℕ) (has_relocs : Bool)
    (image added : List ℕ) where
  abbrev slice : List ℕ
  slice = prelinked_kernel_header compress_type image compsize has_relocs ++ added

  slice-signature : read_be32 outside slice 0 ≡ comp
  unfolding prelinked_kernel_header read_be32 byte_at
  slice-signature = refl

  slice-type : compress_type < 2 ^ 32 → read_be32 outside slice 4 ≡ compress_type
  unfolding prelinked_kernel_header read_be32 byte_at
  slice-type h = be32-whole compress_type h

  slice-checksum :
      Bytes image → length image < 2 ^ 31 → read_be32 outside slice 8 ≡ local_adler32 image
  unfolding prelinked_kernel_header read_be32 byte_at
  slice-checksum b small =
      rw
        (adler32_of_int-whole image (length image % 2 ^ 32) (omega (arith, small))
          (omega (arith, small)))
        (be32-whole (local_adler32 image) (local_adler32-below image b))

  slice-size : length image < 2 ^ 32 → read_be32 outside slice 12 ≡ length image
  unfolding prelinked_kernel_header read_be32 byte_at
  slice-size h = be32-whole (length image) h

  slice-added : (n : ℕ) → n ≡ length added → read outside slice header_size n ≡ added
  slice-added n e =
      let header = prelinked_kernel_header compress_type image compsize has_relocs in
      ap (λ (k : ℕ). read outside slice header_size k) e
      ∙ ap (λ (t : List ℕ). read outside (header ++ t) header_size (length added))
          (sym (append-nil added))
      ∙ ap (λ (k : ℕ). read outside (header ++ (added ++ [])) k (length added))
          (sym (length-header compress_type compsize has_relocs image))
      ∙ read-between outside header added []

  slice-length : length slice ≡ header_size + length added
  slice-length = omega (
    arith,
    length-append (prelinked_kernel_header compress_type image compsize has_relocs) added,
    length-header compress_type compsize has_relocs image,
  )

same_branches : (b : Bool) (xs : List ℕ) → (if b then xs else xs) ≡ xs
same_branches false xs = refl
same_branches true xs = refl

decoded_slice-decoded :
    (machine : Machine) (codecs : Codecs) (compress_type compsize bufsize : ℕ) (has_relocs : Bool)
    (image added : List ℕ)
    → length added < 2 ^ 32
    → decoded_slice machine codecs compress_type bufsize
        (slice machine.outside compress_type compsize has_relocs image added)
      ≡ decoded machine codecs compress_type bufsize added
unfolding decoded_slice
decoded_slice-decoded machine codecs compress_type compsize bufsize has_relocs image added fits =
    let o = machine.outside in
    let whole = slice-length o compress_type compsize has_relocs image added in
    let n = length (slice o compress_type compsize has_relocs image added) in
    rw
      (
        slice-added o compress_type compsize has_relocs image added
            ((n + 2 ^ 32 - header_size) % 2 ^ 32) (omega (arith, whole, fits)),
        slice-added o compress_type compsize has_relocs image added
            ((n + 2 ^ 64 - header_size) % 2 ^ 64) (omega (arith, whole, fits)),
      )
      (ap (decoded machine codecs compress_type bufsize)
        (same_branches (compress_type == comp_type_lzss) added))

as_int-small : (out : List ℕ) → length out < 2 ^ 31 → as_int (some out) ≡ some out
as_int-small out small = ground (arith, small)

-- What a slice with a header uncompresses to.
slice_with_header :
    (machine : Machine) (codecs : Codecs) (compress_type compsize : ℕ) (has_relocs : Bool)
    (image added : List ℕ)
    → (compress_type ≡ comp_type_lzss) ⊎ (compress_type ≡ comp_type_fastlib)
    → Bytes image
    → length image < 2 ^ 31
    → length added < 2 ^ 32
    → uncompress_prelinked_slice machine codecs
        (prelinked_kernel_header compress_type image compsize has_relocs ++ added)
      ≡ checked_slice
          (length image)
          (local_adler32 image)
          (decoded machine codecs compress_type (length image) added)
unfolding uncompress_prelinked_slice
slice_with_header machine codecs compress_type compsize has_relocs image added t b small fits =
    let o = machine.outside in
    rw
      (
        slice-type o compress_type compsize has_relocs image added (ground (arith, t)),
        slice-checksum o compress_type compsize has_relocs image added b small,
        slice-size o compress_type compsize has_relocs image added (omega (arith, small)),
        decoded_slice-decoded machine codecs compress_type compsize (length image) has_relocs image
            added fits,
      )
      (ground (arith, t, slice-signature o compress_type compsize has_relocs image added))

encoded_slice-type :
    (codecs : Codecs) (compress_type : ℕ) (image added : List ℕ)
    → encoded_slice codecs compress_type image ≡ some added
    → (compress_type ≡ comp_type_lzss) ⊎ (compress_type ≡ comp_type_fastlib)
unfolding encoded_slice
encoded_slice-type codecs compress_type image added h = ground (arith, h)

-- What the tests behind the decoder let through.
checked_slice-accepted :
    (bufsize adler : ℕ) (o : Option (List ℕ)) (file_data : List ℕ)
    → bufsize < 2 ^ 31
    → checked_slice bufsize adler o ≡ some file_data
    → (o ≡ some file_data) × (length file_data ≡ bufsize) × (local_adler32 file_data ≡ adler)
unfolding checked_slice
checked_slice-accepted bufsize adler none file_data small h = absurd (ground (arith, h))
checked_slice-accepted bufsize adler (some out) file_data small h =
    let same : out ≡ file_data = ground (arith, h) in
    let sized : length out ≡ bufsize = ground (arith, h) in
    let summed : adler ≡ adler32_of_int out bufsize = ground (arith, h) in
    (
      ap some same,
      ap length (sym same) ∙ sized,
      ap local_adler32 (sym same)
          ∙ sym (adler32_of_int-whole out bufsize (sym sized) small)
          ∙ sym summed,
    )

checked_slice-accepts :
    (bufsize adler : ℕ) (o : Option (List ℕ)) (file_data : List ℕ)
    → bufsize < 2 ^ 31
    → o ≡ some file_data
    → length file_data ≡ bufsize
    → local_adler32 file_data ≡ adler
    → checked_slice bufsize adler o ≡ some file_data
unfolding checked_slice
checked_slice-accepts bufsize adler o file_data small e sized summed =
    let whole = adler32_of_int-whole file_data bufsize (sym sized) small in
    rw (e, whole) (ground (arith, sized, summed))

-- What compressPrelinkedSlice writes for a kernel cache is uncompressed exactly to what the
-- decoder of the compression type makes of the encoded bytes, where that has the size and the
-- checksum of the cache: to other data it is never uncompressed. The cache is of bytes, it is
-- shorter than 2 ^ 31 bytes and not a compressed one, and the encoder, whatever it does, has
-- written fewer than 2 ^ 32 bytes.
pub compress_prelinked_slice-uncompress :
    (machine : Machine) (codecs : Codecs) (compress_type : ℕ) (has_relocs : Bool)
    (image added : List ℕ)
    → encoded_slice codecs compress_type image ≡ some added
    → read_be32 machine.outside image 0 ≢ comp
    → Bytes image
    → length image < 2 ^ 31
    → length added < 2 ^ 32
    → (out : List ℕ) × (compress_prelinked_slice machine codecs compress_type image has_relocs
        ≡ some out)
      × ((file_data : List ℕ)
          → (uncompress_prelinked_slice machine codecs out ≡ some file_data) ↔ (
              (decoded machine codecs compress_type (length image) added ≡ some file_data)
              × (length file_data ≡ length image)
              × (local_adler32 file_data ≡ local_adler32 image)))
unfolding compress_prelinked_slice
compress_prelinked_slice-uncompress machine codecs compress_type has_relocs image added e plain b
      small fits =
    let t = encoded_slice-type codecs compress_type image added e in
    let d = decoded machine codecs compress_type (length image) added in
    let sum = local_adler32 image in
    let uncompressed =
      slice_with_header machine codecs compress_type (length added) has_relocs image added t b small
        fits in
    (
      prelinked_kernel_header compress_type image (length added) has_relocs ++ added,
      rw e (ground (arith, plain)),
      λ file_data. (
        λ h. checked_slice-accepted (length image) sum d file_data small (sym uncompressed ∙ h),
        λ h. uncompressed ∙ checked_slice-accepts (length image) sum d file_data small h.0 h.1 h.2,
      ),
    )

-- A kernel cache that is an LZSS stream behind the header of what the stream stands for is
-- uncompressed to that. It is of bytes, and shorter than 2 ^ 31 bytes, and the stream is shorter
-- than 2 ^ 32 bytes.
pub uncompress_prelinked_slice-stream :
    (machine : Machine) (codecs : Codecs) (compsize : ℕ) (has_relocs : Bool)
    (gs : List (List LzUnit))
    → IsStream gs
    → Bytes (expanded_groups gs (start_window machine.uninitialised))
    → length (expanded_groups gs (start_window machine.uninitialised)) < 2 ^ 31
    → length (stream gs) < 2 ^ 32
    → uncompress_prelinked_slice machine codecs (
        prelinked_kernel_header comp_type_lzss
          (expanded_groups gs (start_window machine.uninitialised))
          compsize
          has_relocs
        ++ stream gs)
      ≡ some (expanded_groups gs (start_window machine.uninitialised))
unfolding decoded
uncompress_prelinked_slice-stream machine codecs compsize has_relocs gs h b small fits =
    let image = expanded_groups gs (start_window machine.uninitialised) in
    let sum = local_adler32 image in
    let out = decompress_lzss-stream machine.uninitialised (length image) gs h (omega arith) in
    slice_with_header machine codecs comp_type_lzss compsize has_relocs image (stream gs) (inl refl)
      b small fits
    ∙ checked_slice-accepts (length image) sum _ image small
        (ap as_int out ∙ as_int-small image small) refl refl

-- Uncompressing a slice that is not shorter than the header does not depend on the memory behind
-- it.
pub uncompress_prelinked_slice-inside :
    (machine : Machine) (codecs : Codecs) (outside : ℕ → ℕ) (image : List ℕ)
    → header_size ≤ length image
    → length image < 2 ^ 32
    → uncompress_prelinked_slice machine codecs image
      ≡ uncompress_prelinked_slice (record machine { outside = outside }) codecs image
unfolding uncompress_prelinked_slice decoded_slice
uncompress_prelinked_slice-inside machine codecs outside image long small =
    let o = machine.outside in
    rw
      (
        read_be32-inside o outside image 0 (omega (arith, long)),
        read_be32-inside o outside image 4 (omega (arith, long)),
        read_be32-inside o outside image 8 (omega (arith, long)),
        read_be32-inside o outside image 12 (omega (arith, long)),
        read-inside o outside image header_size ((length image + 2 ^ 32 - header_size) % 2 ^ 32)
            (omega (arith, long, small)),
        read-inside o outside image header_size ((length image + 2 ^ 64 - header_size) % 2 ^ 64)
            (omega (arith, long, small)),
      )
      refl

checked_slice-large :
    (bufsize adler : ℕ) (o : Option (List ℕ)) (out : List ℕ)
    → 2 ^ 31 ≤ bufsize
    → checked_slice bufsize adler o ≡ some out
    → (o ≡ some out) × (length out ≡ bufsize) × (adler ≡ 1)
unfolding checked_slice adler32_of_int local_adler32
checked_slice-large bufsize adler none out large h = absurd (ground (arith, h))
checked_slice-large bufsize adler (some x) out large h =
    let over : ltb bufsize (2 ^ 31) ≡ false = ground (arith, large) in
    let h' = rw over at h in
    let same : x ≡ out = ground (arith, h') in
    (ap some same, ap length (sym same) ∙ ground (arith, h'), ground (arith, h'))

as_int-below : (o : Option (List ℕ)) (out : List ℕ) → as_int o ≡ some out → length out < 2 ^ 31
as_int-below none out h = absurd (ground (arith, h))
as_int-below (some x) out h =
    let same : x ≡ out = ground (arith, h) in
    let small : length x < 2 ^ 31 = ground (arith, h) in rw (sym same) small

decoded_slice-below :
    (machine : Machine) (codecs : Codecs) (bufsize : ℕ) (image out : List ℕ)
    → decoded_slice machine codecs comp_type_lzss bufsize image ≡ some out
    → length out < 2 ^ 31
unfolding decoded_slice decoded
decoded_slice-below machine codecs bufsize image out h =
    let n = (length image + 2 ^ 32 - header_size) % 2 ^ 32 in
    let file_data = read machine.outside image header_size n in
    as_int-below (decompress_lzss machine.uninitialised bufsize file_data) out h

-- A kernel cache is uncompressed only to data with the size of its header. Below 2 ^ 31 bytes the
-- data also has the checksum of the header; from there on the type of the cache is not LZSS, and
-- the checksum of the header is 1, whatever the data is.
pub uncompress_prelinked_slice-checked :
    (machine : Machine) (codecs : Codecs) (image out : List ℕ)
    → uncompress_prelinked_slice machine codecs image ≡ some out
    → (read_be32 machine.outside image 0 ≡ comp)
      × (length out ≡ read_be32 machine.outside image 12)
      × (((length out < 2 ^ 31) × (local_adler32 out ≡ read_be32 machine.outside image 8))
          ⊎ ((2 ^ 31 ≤ length out)
              × (read_be32 machine.outside image 4 ≡ comp_type_fastlib)
              × (read_be32 machine.outside image 8 ≡ 1)))
unfolding uncompress_prelinked_slice
uncompress_prelinked_slice-checked machine codecs image out h =
    let compress_type = read_be32 machine.outside image 4 in
    let bufsize = read_be32 machine.outside image 12 in
    let adler = read_be32 machine.outside image 8 in
    let d = decoded_slice machine codecs compress_type bufsize image in
    let accepted : checked_slice bufsize adler d ≡ some out = ground (arith, h) in
    let typed : (compress_type ≡ comp_type_lzss) ⊎ (compress_type ≡ comp_type_fastlib) =
      ground (arith, h) in
    elim (Bool-cases (ltb bufsize (2 ^ 31))) [
      | inl below ↦
          let (e, sized, summed) =
            checked_slice-accepted bufsize adler d out (ground (arith, below)) accepted in
          (ground (arith, h), sized, inl (ground (arith, below, sized), summed))
      | inr above ↦
          let large : 2 ^ 31 ≤ bufsize = ground (arith, above) in
          let (e, sized, one) = checked_slice-large bufsize adler d out large accepted in
          elim typed [
            | inl lzss ↦
                let small =
                  decoded_slice-below machine codecs bufsize image out
                    (ap (λ (t : ℕ). decoded_slice machine codecs t bufsize image) (sym lzss) ∙ e) in
                absurd (omega (arith, small, sized, large))
            | inr fastlib ↦
                (ground (arith, h), sized, inr (omega (arith, sized, large), fastlib, one))
          ]
    ]
