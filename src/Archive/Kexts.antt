-- ===== src/Archive/Kexts.antt =====
-- mkext1_file.c: what addToMkext1 does to the archive.
use kext_tools.Common.{
  ℕ, suc, ◌+◌, ◌^◌, ◌≤◌, ◌<◌, ◌≡◌, ◌≢◌, refl, sym, ap, ◌∙◌, Bool, true, false, Option, none, some,
  some-injective, List, [], ◌∷◌, ◌++◌, append_assoc, arith, length, length-append,
}
use kext_tools.Archive.Entry.{Machine, uncompress_mkext1_entry}
use kext_tools.Archive.Writer.{
  MkextKext, Mkext1Context, Compressor, no_kext, set_kext, set_file, add_data_to_mkext, KextFiles,
  add_executable, add_to_mkext1,
}
use kext_tools.Archive.Stored.{data_of, entry_of}
use kext_tools.Archive.Added.{IsCompressor, IsPlaced, Adds, add_data_to_mkext-Adds}

abbrev pub size_of : Option (List ℕ) → ℕ
size_of none = 0
size_of (some file_data) = length file_data

abbrev pub executable_of : Option (List ℕ) → Option (List ℕ)
executable_of none = none
executable_of (some file_data) = data_of file_data

-- The two files of a kext are read back from an archive.
pub record IsRead (machine : Machine) (mkext : List ℕ) (kext : MkextKext) (files : KextFiles)
    : Type 0 where
  pub info : List ℕ
  pub has_info : files.info_dict ≡ some info
  pub plist : uncompress_mkext1_entry machine mkext kext.plist ≡ some (data_of info)
  pub executable :
      uncompress_mkext1_entry machine mkext kext.module_file ≡ some (executable_of files.executable)

set_kext-behind :
    (change : MkextKext → MkextKext) (before : List MkextKext) (kext : MkextKext)
    (rest : List MkextKext)
    → set_kext (length before) change (before ++ (kext ∷ rest)) ≡ before ++ (change kext ∷ rest)
unfolding set_kext
set_kext-behind change [] kext rest = refl
set_kext-behind change (x ∷ before) kext rest =
    ap (λ (t : List MkextKext). x ∷ t) (set_kext-behind change before kext rest)

-- What addToMkext1 does to the archive, for a kext with this list of descriptors before and behind its own.
pub record AddsKext (files : KextFiles) (before rest : List MkextKext) (c c' : Mkext1Context)
    : Type 0 where
  pub added : List ℕ
  pub kext : MkextKext
  pub body : c'.body ≡ c.body ++ added
  pub descriptors : c'.descriptors ≡ before ++ (kext ∷ rest)
  pub same_start : c'.body_start ≡ c.body_start
  pub next_index : c'.kext_index ≡ suc c.kext_index
  pub placed : IsPlaced c'
  pub short : length added ≤ size_of files.info_dict + size_of files.executable
  pub reads :
      (machine : Machine) (front later : List ℕ)
      → length front ≡ c.body_start
      → IsRead machine (front ++ (c.body ++ (added ++ later))) kext files

module _ (compressor : Compressor) (u : ℕ → ℕ) (k : IsCompressor compressor) where
  plist_only :
      (info : List ℕ) (declares : Bool) (before rest : List MkextKext) (c c1 : Mkext1Context)
      → c.descriptors ≡ before ++ (no_kext ∷ rest)
      → c.kext_index ≡ length before
      → Adds true info c c1
      → AddsKext
          (record { info_dict = some info; executable = none; declares_executable = declares })
          before
          rest
          c
          (record c1 { kext_index = c1.kext_index + 1 })
  plist_only info declares before rest c c1 d i a = record {
    added = a.added;
    kext = set_file true (entry_of c.compress_offset info a.compsize) no_kext;
    body = a.body;
    descriptors = a.descriptors ∙ rw (d, i) (set_kext-behind _ before no_kext rest);
    same_start = a.same_start;
    next_index = omega (arith, a.same_index);
    placed = a.placed;
    short = omega (arith, a.short);
    reads = λ machine front later e. record {
      info = info;
      has_info = refl;
      plist = a.reads machine front later e;
      executable = unfold uncompress_mkext1_entry in refl;
    };
  }

  with_executable :
      (info file_data : List ℕ) (declares : Bool) (before rest : List MkextKext)
      (c c1 c2 : Mkext1Context)
      → c.descriptors ≡ before ++ (no_kext ∷ rest)
      → c.kext_index ≡ length before
      → Adds true info c c1
      → Adds false file_data c1 c2
      → AddsKext
          (record {
            info_dict = some info;
            executable = some file_data;
            declares_executable = declares;
          })
          before
          rest
          c
          (record c2 { kext_index = c2.kext_index + 1 })
  with_executable info file_data declares before rest c c1 c2 d i a b =
      let first = set_file true (entry_of c.compress_offset info a.compsize) no_kext in
      let d1 : c1.descriptors ≡ before ++ (first ∷ rest) =
        a.descriptors ∙ rw (d, i) (set_kext-behind _ before no_kext rest) in
      let i1 : c1.kext_index ≡ length before = a.same_index ∙ i in
      record {
        added = a.added ++ b.added;
        kext = set_file false (entry_of c1.compress_offset file_data b.compsize) first;
        body =
            b.body ∙ ap (λ (t : List ℕ). t ++ b.added) a.body ∙ append_assoc c.body a.added b.added;
        descriptors = b.descriptors ∙ rw (d1, i1) (set_kext-behind _ before first rest);
        same_start = b.same_start ∙ a.same_start;
        next_index = omega (arith, a.same_index, b.same_index);
        placed = b.placed;
        short = omega (arith, a.short, b.short, length-append a.added b.added);
        reads = λ machine front later e. record {
          info = info;
          has_info = refl;
          plist =
              rw (append_assoc a.added b.added later) (a.reads machine front (b.added ++ later) e);
          executable =
              rw
                (
                  append_assoc a.added b.added later,
                  sym (append_assoc c.body a.added (b.added ++ later)),
                  sym a.body,
                )
                (b.reads machine front later (e ∙ sym a.same_start));
        };
      }

  with_plist :
      (info : List ℕ) (executable : Option (List ℕ)) (b : Bool) (before rest : List MkextKext)
      (c c1 c' : Mkext1Context)
      → c.descriptors ≡ before ++ (no_kext ∷ rest)
      → c.kext_index ≡ length before
      → c.body_start ≢ 0
      → c.body_start + length c.body + (length info + size_of executable) < 2 ^ 32
      → Adds true info c c1
      → add_executable compressor u executable b c1 ≡ some c'
      → AddsKext
          (record { info_dict = some info; executable = executable; declares_executable = b })
          before
          rest
          c
          c'
  unfolding add_executable
  with_plist info none true before rest c c1 c' d i away small a h = absurd (ground (arith, h))
  with_plist info none false before rest c c1 c' d i away small a h =
      rw (sym (some-injective _ _ h)) (plist_only info false before rest c c1 d i a)
  with_plist info (some file_data) b before rest c c1 c' d i away small a h =
      by_module (add_data_to_mkext compressor u false file_data c1) refl
    where
      by_module :
          (o : Option Mkext1Context)
          → add_data_to_mkext compressor u false file_data c1 ≡ o
          → AddsKext
              (record {
                info_dict = some info;
                executable = some file_data;
                declares_executable = b;
              })
              before
              rest
              c
              c'
      by_module none e = absurd (ground (arith, rw (add_executable, e) at h))
      by_module (some c2) e =
          let next =
            add_data_to_mkext-Adds compressor u k false file_data c1 c2 a.placed
              (rw (a.same_start) away)
              (omega (
                arith,
                a.same_start,
                a.short,
                small,
                ap length a.body,
                length-append c.body a.added,
              ))
              e in
          rw (sym (some-injective _ _ (rw (add_executable, e) at h)))
            (with_executable info file_data b before rest c c1 c2 d i a next)

  pub add_files-Adds :
      (info executable : Option (List ℕ)) (b : Bool) (before rest : List MkextKext)
      (c c' : Mkext1Context)
      → c.descriptors ≡ before ++ (no_kext ∷ rest)
      → c.kext_index ≡ length before
      → IsPlaced c
      → c.body_start ≢ 0
      → c.body_start + length c.body + (size_of info + size_of executable) < 2 ^ 32
      → add_to_mkext1 compressor u
          (record { info_dict = info; executable = executable; declares_executable = b })
          c
        ≡ some c'
      → AddsKext
          (record { info_dict = info; executable = executable; declares_executable = b })
          before
          rest
          c
          c'
  unfolding add_to_mkext1
  add_files-Adds none executable b before rest c c' d i p away small h = absurd (ground (arith, h))
  add_files-Adds (some info) executable b before rest c c' d i p away small h =
      by_plist (add_data_to_mkext compressor u true info c) refl
    where
      by_plist :
          (o : Option Mkext1Context)
          → add_data_to_mkext compressor u true info c ≡ o
          → AddsKext
              (record { info_dict = some info; executable = executable; declares_executable = b })
              before
              rest
              c
              c'
      by_plist none e = absurd (ground (arith, rw (add_to_mkext1, e) at h))
      by_plist (some c1) e =
          with_plist info executable b before rest c c1 c' d i away small
            (add_data_to_mkext-Adds compressor u k true info c c1 p away (omega (arith, small)) e)
            (rw (add_to_mkext1, e) at h)
