-- ===== src/Archive/RoundTrip.antt =====
-- mkext1_file.c, mkextunpack_main.c: an archive is created and read.
use kext_tools.Common.{
  ℕ, ◌+◌, ◌*◌, ◌^◌, ◌<◌, ◌≡◌, ◌≢◌, refl, sym, ap, ◌∙◌, Bool, Option, none, some, some-injective,
  List, [], ◌∷◌, ◌++◌, append_assoc, append-nil, arith, length, length-append,
}
use kext_tools.Archive.Entry.{Machine}
use kext_tools.Archive.Writer.{
  MkextKext, Mkext1Context, Compressor, KextFiles, add_to_mkext1, add_all, zero_kexts, Sizes,
  create_mkext1,
}
use kext_tools.Archive.Added.{IsCompressor, IsPlaced}
use kext_tools.Archive.Kexts.{size_of, IsRead, AddsKext, add_files-Adds}

abbrev pub total_size : List KextFiles → ℕ
total_size [] = 0
total_size (kext ∷ kexts) = size_of kext.info_dict + size_of kext.executable + total_size kexts

-- The kexts of a list, in their order.
abbrev pub AllRead : Machine → List ℕ → List MkextKext → List KextFiles → Type 0
AllRead machine mkext [] [] = Unit {0}
AllRead machine mkext [] (files ∷ kexts) = ⊥
AllRead machine mkext (kext ∷ descriptors) [] = ⊥
AllRead machine mkext (kext ∷ descriptors) (files ∷ kexts) =
    IsRead machine mkext kext files × AllRead machine mkext descriptors kexts

module _ (compressor : Compressor) (u : ℕ → ℕ) (k : IsCompressor compressor) where
  -- The descriptors and the bytes of the kexts that are added behind `before`.
  AllAdded : List KextFiles → List MkextKext → Mkext1Context → Mkext1Context → Type 0
  AllAdded kexts before c final =
      (later : List ℕ) × (new : List MkextKext) × (final.body ≡ c.body ++ later)
      × (final.descriptors ≡ before ++ new)
      × ((machine : Machine) (front : List ℕ)
          → length front ≡ c.body_start
          → AllRead machine (front ++ final.body) new kexts)

  Addable : List KextFiles → Mkext1Context → Type 0
  unfolding AllAdded
  Addable kexts final =
      (before : List MkextKext) (c : Mkext1Context)
      → c.descriptors ≡ before ++ zero_kexts kexts
      → c.kext_index ≡ length before
      → IsPlaced c
      → c.body_start ≢ 0
      → c.body_start + length c.body + total_size kexts < 2 ^ 32
      → add_all compressor u kexts c ≡ some final
      → AllAdded kexts before c final

  add_all-cons :
      (files : KextFiles) (kexts : List KextFiles) (before : List MkextKext)
      (c c' final : Mkext1Context)
      → Addable kexts final
      → AddsKext files before (zero_kexts kexts) c c'
      → c.kext_index ≡ length before
      → c.body_start ≢ 0
      → c.body_start + length c.body + total_size (files ∷ kexts) < 2 ^ 32
      → add_all compressor u kexts c' ≡ some final
      → AllAdded (files ∷ kexts) before c final
  unfolding Addable AllAdded
  add_all-cons files kexts before c c' final rest a i away small h =
      let (later, new, body, descriptors, reads) =
        rest (before ++ (a.kext ∷ [])) c'
          (a.descriptors ∙ sym (append_assoc before (a.kext ∷ []) (zero_kexts kexts)))
          (omega (arith, i, a.next_index, length-append before (a.kext ∷ []))) a.placed
          (rw (a.same_start) away)
          (omega
            (arith, a.same_start, a.short, small, ap length a.body, length-append c.body a.added))
          h in
      let whole : final.body ≡ c.body ++ (a.added ++ later) =
        body ∙ ap (λ (t : List ℕ). t ++ later) a.body ∙ append_assoc c.body a.added later in
      (
        a.added ++ later,
        a.kext ∷ new,
        whole,
        descriptors ∙ append_assoc before (a.kext ∷ []) new,
        λ machine front l.
            (rw whole (a.reads machine front later l), reads machine front (l ∙ sym a.same_start)),
      )

  add_all-read : (kexts : List KextFiles) (final : Mkext1Context) → Addable kexts final
  unfolding Addable AllAdded add_all zero_kexts
  add_all-read [] final before c d i p away small h =
      let e = some-injective _ _ h in
      ([], [], rw (sym e) (sym (append-nil c.body)), rw (sym e) d, λ machine front l. tt)
  add_all-read (files ∷ kexts) final before c d i p away small h =
      by_kext (add_to_mkext1 compressor u files c) refl (add_all-read kexts final)
    where
      by_kext :
          (o : Option Mkext1Context)
          → add_to_mkext1 compressor u files c ≡ o
          → Addable kexts final
          → AllAdded (files ∷ kexts) before c final
      by_kext none e rest = absurd (ground (arith, rw (add_all, e) at h))
      by_kext (some c') e rest =
          add_all-cons files kexts before c c' final rest
            (add_files-Adds compressor u k files.info_dict files.executable
              files.declares_executable before (zero_kexts kexts) c c' d i p away
              (omega (arith, small)) e)
            i away small (rw (add_all, e) at h)

  -- Whatever the compressor is, if its output fits into its buffer and does not depend on memory
  -- that is not initialised, an archive that createMkext1ForArch fills holds every kext: each info
  -- dictionary and each executable is read back as it was, in the order of the descriptors. The
  -- files fit into 32 bits with the header, which is not empty.
  pub create_mkext1-AllRead :
      (sizes : Sizes) (compress : Bool) (kexts : List KextFiles) (final : Mkext1Context)
      → sizes.header ≢ 0
      → sizes.header + length kexts * sizes.descriptor + total_size kexts < 2 ^ 32
      → create_mkext1 compressor u sizes compress kexts ≡ some final
      → (machine : Machine) (front : List ℕ)
      → length front ≡ sizes.header + length kexts * sizes.descriptor
      → AllRead machine (front ++ final.body) final.descriptors kexts
  unfolding create_mkext1 Addable AllAdded
  create_mkext1-AllRead sizes compress kexts final header small h machine front l =
      let (later, new, body, descriptors, reads) =
        add_all-read kexts final [] _ refl refl (omega (arith, small)) (omega (arith, header))
          (omega (arith, small)) h in
      rw descriptors (reads machine front l)
