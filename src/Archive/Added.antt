-- ===== src/Archive/Added.antt =====
-- mkext1_file.c: what addDataToMkext does to the archive.
use kext_tools.Common.{
  ℕ, ◌+◌, ◌-◌, ◌%◌, ◌^◌, ◌≤◌, ◌<◌, ◌≡◌, ◌≢◌, refl, sym, ap, ◌∙◌, Bool, Option, none, some,
  some-injective, List, ◌++◌, append_assoc, arith, length, length-append, take-length, take, inl,
  inr,
}
use kext_tools.Archive.Entry.{Machine, uncompress_mkext1_entry}
use kext_tools.Archive.Writer.{
  Mkext1Context, Compressor, set_kext, set_file, compressed_data, add_data_to_mkext,
}
use kext_tools.Archive.Stored.{
  IsSteady, data_of, IsStored, compressed_data-IsStored, entry_of, uncompress_mkext1_entry-stored,
}

-- The compressor's output does not depend on memory that is not initialised, and fits into its
-- buffer.
pub record IsCompressor (compressor : Compressor) : Type 0 where
  pub steady : IsSteady compressor
  pub fits :
      (n : ℕ) (file_data added : List ℕ) → compressor n file_data ≡ some added → length added ≤ n

abbrev pub IsPlaced : Mkext1Context → Type 0
IsPlaced c = c.compress_offset ≡ c.body_start + length c.body

pub record Adds (is_info_dict : Bool) (file_data : List ℕ) (c c' : Mkext1Context) : Type 0 where
  pub added : List ℕ
  pub compsize : ℕ
  pub body : c'.body ≡ c.body ++ added
  pub descriptors :
      c'.descriptors
      ≡ set_kext c.kext_index
          (set_file is_info_dict (entry_of c.compress_offset file_data compsize))
          c.descriptors
  pub same_start : c'.body_start ≡ c.body_start
  pub same_index : c'.kext_index ≡ c.kext_index
  pub placed : IsPlaced c'
  pub short : length added ≤ length file_data
  pub reads :
      (machine : Machine) (front later : List ℕ)
      → length front ≡ c.body_start
      → uncompress_mkext1_entry machine
          (front ++ (c.body ++ (added ++ later)))
          (entry_of c.compress_offset file_data compsize)
        ≡ some (data_of file_data)

module _ (compressor : Compressor) (u : ℕ → ℕ) (k : IsCompressor compressor) where
  IsStored-short :
      (file_data added : List ℕ) (compsize : ℕ)
      → IsStored compressor u file_data added compsize
      → length added ≤ length file_data
  IsStored-short file_data added compsize (inl (same, raw)) = omega (arith, ap length same)
  IsStored-short file_data added compsize (inr (out, d, n, l)) =
      k.fits (length file_data) file_data added out

  stored-Adds :
      (b : Bool) (file_data : List ℕ) (c : Mkext1Context) (added : List ℕ) (compsize : ℕ)
      → IsPlaced c
      → c.body_start ≢ 0
      → c.body_start + length c.body + length file_data < 2 ^ 32
      → IsStored compressor u file_data added compsize
      → Adds b file_data c (record c {
        descriptors =
            set_kext c.kext_index
              (set_file b (entry_of c.compress_offset file_data compsize))
              c.descriptors;
        body = take (c.compress_offset - c.body_start) c.body ++ added;
        compress_offset = (c.compress_offset + length added) % 2 ^ 32;
      })
  stored-Adds b file_data c added compsize placed away small st =
      let short = IsStored-short file_data added compsize st in
      let whole : c.compress_offset - c.body_start ≡ length c.body = omega (arith, placed) in
      let kept : take (c.compress_offset - c.body_start) c.body ≡ c.body =
        ap (λ (n : ℕ). take n c.body) whole ∙ take-length c.body in
      let body' : take (c.compress_offset - c.body_start) c.body ++ added ≡ c.body ++ added =
        ap (λ (t : List ℕ). t ++ added) kept in
      record {
        added = added;
        compsize = compsize;
        body = body';
        descriptors = refl;
        same_start = refl;
        same_index = refl;
        placed = rw body' (omega (arith, placed, small, short, length-append c.body added));
        short = short;
        reads = λ machine front later e.
            let before : c.compress_offset ≡ length (front ++ c.body) =
              omega (arith, placed, e, length-append front c.body) in
            let away' : length (front ++ c.body) ≢ 0 =
              ground (arith, away, e, length-append front c.body) in
            rw (before, sym (append_assoc front c.body (added ++ later)))
              (uncompress_mkext1_entry-stored compressor u machine file_data added compsize
                (front ++ c.body) later k.steady st (omega (arith, small, short)) away');
      }

  pub add_data_to_mkext-Adds :
      (b : Bool) (file_data : List ℕ) (c c' : Mkext1Context)
      → IsPlaced c
      → c.body_start ≢ 0
      → c.body_start + length c.body + length file_data < 2 ^ 32
      → add_data_to_mkext compressor u b file_data c ≡ some c'
      → Adds b file_data c c'
  unfolding add_data_to_mkext
  add_data_to_mkext-Adds b file_data c c' placed away small h =
      by_data (compressed_data compressor u c.compress file_data) refl
    where
      by_data :
          (o : Option (List ℕ × ℕ))
          → compressed_data compressor u c.compress file_data ≡ o
          → Adds b file_data c c'
      by_data none e = absurd (ground (arith, rw (add_data_to_mkext, e) at h))
      by_data (some (added, compsize)) e =
          let same = rw (add_data_to_mkext, e) at h in
          let st = compressed_data-IsStored compressor u c.compress file_data added compsize e in
          rw (sym (some-injective _ _ same))
            (stored-Adds b file_data c added compsize placed away small st)
