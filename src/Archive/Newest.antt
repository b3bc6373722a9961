-- ===== src/Archive/Newest.antt =====
-- mkext1_file.c: the choice of the kexts of an archive, in createMkext1ForArch.
use kext_tools.Common.{
  ℕ, ◌≤◌, ◌≡◌, refl, sym, ap, ◌∙◌, String, Bool, true, false, not, Option, none, some,
  some-injective, List, [], ◌∷◌, if◌then◌else◌, ltb, arith, Bool-cases, inl, inr, str_eq, eq_iff,
}
use kext_tools.Archive.Writer.{KextFiles}

-- What the OSKext functions say of a kext: its version, counted from the invalid one, and whether it supports the
-- architecture.
pub record OsKext : Type 0 where
  pub identifier : String
  pub version : ℕ
  pub supports : Bool
  pub files : KextFiles

-- The dictionary kextsByIdentifier.
unfoldable pub get_value : String → List OsKext → Option OsKext
get_value key [] = none
get_value key (kext ∷ kexts) = if str_eq kext.identifier key then some kext else get_value key kexts

unfoldable pub set_value : OsKext → List OsKext → List OsKext
set_value kext [] = kext ∷ []
set_value kext (saved ∷ kexts) =
    if str_eq saved.identifier kext.identifier then kext ∷ kexts else saved ∷ set_value kext kexts

-- One round of the loop.
unfoldable pub choose_kext : OsKext → List OsKext → List OsKext
unfolding get_value set_value
choose_kext kext kexts =
    if not kext.supports then kexts else elim (get_value kext.identifier kexts) [
      | none ↦ set_value kext kexts
      | some saved ↦ if ltb saved.version kext.version then set_value kext kexts else kexts
    ]

unfoldable pub choose_kexts : List OsKext → List OsKext → List OsKext
unfolding choose_kext
choose_kexts [] kexts = kexts
choose_kexts (kext ∷ archive_kexts) kexts = choose_kexts archive_kexts (choose_kext kext kexts)

-- A kext of an identifier that supports the architecture, with at least a version, is in the
-- dictionary.
pub record IsCovered (key : String) (version : ℕ) (kexts : List OsKext) : Type 0 where
  pub saved : OsKext
  pub found : get_value key kexts ≡ some saved
  pub newest : version ≤ saved.version
  pub same : saved.identifier ≡ key
  pub supported : saved.supports ≡ true

-- Every kext of a dictionary supports the architecture.
abbrev pub AllSupport : List OsKext → Type 0
AllSupport [] = Unit {0}
AllSupport (kext ∷ kexts) = (kext.supports ≡ true) × AllSupport kexts

get_value-supports :
    (key : String) (kexts : List OsKext) (saved : OsKext)
    → AllSupport kexts
    → get_value key kexts ≡ some saved
    → (saved.identifier ≡ key) × (saved.supports ≡ true)
unfolding get_value
get_value-supports key [] saved all h = absurd (ground (arith, h))
get_value-supports key (kext ∷ kexts) saved (s, all) h =
    elim (Bool-cases (str_eq kext.identifier key)) [
      | inl e ↦
          let same : kext ≡ saved = ground (arith, e, h) in
          (
            ap (λ (k : OsKext). k.identifier) (sym same) ∙ (eq_iff kext.identifier key).0 e,
            ap (λ (k : OsKext). k.supports) (sym same) ∙ s,
          )
      | inr e ↦ get_value-supports key kexts saved all (ground (arith, e, h))
    ]

set_value-AllSupport :
    (kext : OsKext) (kexts : List OsKext)
    → kext.supports ≡ true
    → AllSupport kexts
    → AllSupport (set_value kext kexts)
unfolding set_value
set_value-AllSupport kext [] s all = (s, tt)
set_value-AllSupport kext (saved ∷ kexts) s (t, all) =
    elim (Bool-cases (str_eq saved.identifier kext.identifier)) [
      | inl e ↦ rw e (s, all)
      | inr e ↦ rw e (t, set_value-AllSupport kext kexts s all)
    ]

same_text : (s : String) → str_eq s s ≡ true
same_text s = (eq_iff s s).1 refl

get_value-set_value-same :
    (kext : OsKext) (kexts : List OsKext)
    → get_value kext.identifier (set_value kext kexts) ≡ some kext
unfolding get_value set_value
get_value-set_value-same kext [] = rw (same_text kext.identifier) refl
get_value-set_value-same kext (saved ∷ kexts) =
    elim (Bool-cases (str_eq saved.identifier kext.identifier)) [
      | inl e ↦ rw (e, same_text kext.identifier) refl
      | inr e ↦ rw (e, e) (get_value-set_value-same kext kexts)
    ]

get_value-set_value-other :
    (key : String) (kext : OsKext) (kexts : List OsKext)
    → str_eq kext.identifier key ≡ false
    → get_value key (set_value kext kexts) ≡ get_value key kexts
unfolding get_value set_value
get_value-set_value-other key kext [] h = rw h refl
get_value-set_value-other key kext (saved ∷ kexts) h =
    elim (Bool-cases (str_eq saved.identifier kext.identifier)) [
      | inl e ↦
          let same = (eq_iff saved.identifier kext.identifier).0 e in
          let apart : str_eq saved.identifier key ≡ false =
            ap (λ (t : String). str_eq t key) same ∙ h in
          rw (e, h, apart) refl
      | inr e ↦ rw e (
          ap (λ (t : Option OsKext). if str_eq saved.identifier key then some saved else t)
            (get_value-set_value-other key kext kexts h))
    ]

-- Setting a kext that is at least as new as what is saved keeps what is covered.
set_value-IsCovered :
    (key : String) (version : ℕ) (kext : OsKext) (kexts : List OsKext)
    → ((saved : OsKext)
        → get_value kext.identifier kexts ≡ some saved
        → saved.version ≤ kext.version)
    → kext.supports ≡ true
    → IsCovered key version kexts
    → IsCovered key version (set_value kext kexts)
set_value-IsCovered key version kext kexts newer supported c =
    elim (Bool-cases (str_eq kext.identifier key)) [
      | inl e ↦
          let same = (eq_iff kext.identifier key).0 e in
          record {
            saved = kext;
            found =
                ap (λ (t : String). get_value t (set_value kext kexts)) (sym same)
                ∙ get_value-set_value-same kext kexts;
            newest =
                let at_least =
                  newer c.saved (ap (λ (t : String). get_value t kexts) same ∙ c.found) in
                omega (arith, c.newest, at_least);
            same = same;
            supported = supported;
          }
      | inr e ↦ record {
        saved = c.saved;
        found = get_value-set_value-other key kext kexts e ∙ c.found;
        newest = c.newest;
        same = c.same;
        supported = c.supported;
      }
    ]

-- What one round does to an identifier that is covered and to the dictionary, and that it covers its kext.
record IsChosen (kext : OsKext) (before after : List OsKext) : Type 0 where
  kept : (key : String) (version : ℕ) → IsCovered key version before → IsCovered key version after
  chosen : kext.supports ≡ true → IsCovered kext.identifier kext.version after
  sound : AllSupport after

set_value-IsChosen :
    (kext : OsKext) (kexts : List OsKext)
    → AllSupport kexts
    → kext.supports ≡ true
    → ((saved : OsKext)
        → get_value kext.identifier kexts ≡ some saved
        → saved.version ≤ kext.version)
    → IsChosen kext kexts (set_value kext kexts)
set_value-IsChosen kext kexts all supported newer = record {
  kept = λ key version c. set_value-IsCovered key version kext kexts newer supported c;
  chosen = λ s. record {
    saved = kext;
    found = get_value-set_value-same kext kexts;
    newest = omega arith;
    same = refl;
    supported = supported;
  };
  sound = set_value-AllSupport kext kexts supported all;
}

choose_kext-IsChosen :
    (kext : OsKext) (kexts : List OsKext)
    → AllSupport kexts
    → IsChosen kext kexts (choose_kext kext kexts)
unfolding choose_kext
choose_kext-IsChosen kext kexts all = by_support kext.supports refl
  where
    by_saved :
        (o : Option OsKext)
        → get_value kext.identifier kexts ≡ o
        → kext.supports ≡ true
        → IsChosen kext kexts (elim o [
          | none ↦ set_value kext kexts
          | some saved ↦ if ltb saved.version kext.version then set_value kext kexts else kexts
        ])
    by_saved none e t =
        set_value-IsChosen kext kexts all t (λ saved f. absurd (ground (arith, sym e ∙ f)))
    by_saved (some saved) e t = elim (Bool-cases (ltb saved.version kext.version)) [
      | inl newer ↦ rw newer (
          set_value-IsChosen kext kexts all t (λ saved' f.
            let same = some-injective _ _ (sym e ∙ f) in rw (sym same) (ground (arith, newer))))
      | inr older ↦
          let is_saved = get_value-supports kext.identifier kexts saved all e in
          rw older (record {
            kept = λ key version c. c;
            chosen = λ s. record {
              saved = saved;
              found = e;
              newest = ground (arith, older);
              same = is_saved.0;
              supported = is_saved.1;
            };
            sound = all;
          })
    ]

    by_support :
        (b : Bool)
        → kext.supports ≡ b
        → IsChosen kext kexts (
            if not b then kexts else elim (get_value kext.identifier kexts) [
              | none ↦ set_value kext kexts
              | some saved ↦ if ltb saved.version kext.version then set_value kext kexts else kexts
            ])
    by_support true e = by_saved (get_value kext.identifier kexts) refl e
    by_support false e = record {
      kept = λ key version c. c;
      chosen = λ s. absurd (ground (arith, e, s));
      sound = all;
    }

-- Every kext of a list that supports the architecture is covered.
abbrev pub AllCovered : List OsKext → List OsKext → Type 0
AllCovered [] kexts = Unit {0}
AllCovered (kext ∷ archive_kexts) kexts =
    (kext.supports ≡ true → IsCovered kext.identifier kext.version kexts)
    × AllCovered archive_kexts kexts

choose_kexts-kept :
    (archive_kexts kexts : List OsKext) (key : String) (version : ℕ)
    → AllSupport kexts
    → IsCovered key version kexts
    → IsCovered key version (choose_kexts archive_kexts kexts)
unfolding choose_kexts
choose_kexts-kept [] kexts key version all c = c
choose_kexts-kept (kext ∷ archive_kexts) kexts key version all c =
    let round = choose_kext-IsChosen kext kexts all in
    choose_kexts-kept archive_kexts (choose_kext kext kexts) key version round.sound
      (round.kept key version c)

choose_kexts-from :
    (archive_kexts kexts : List OsKext)
    → AllSupport kexts
    → AllCovered archive_kexts (choose_kexts archive_kexts kexts)
      × AllSupport (choose_kexts archive_kexts kexts)
unfolding choose_kexts
choose_kexts-from [] kexts all = (tt, all)
choose_kexts-from (kext ∷ archive_kexts) kexts all =
    let round = choose_kext-IsChosen kext kexts all in
    let rest = choose_kexts-from archive_kexts (choose_kext kext kexts) round.sound in
    (
      (
        λ s.
            choose_kexts-kept archive_kexts (choose_kext kext kexts) kext.identifier kext.version
              round.sound (round.chosen s),
        rest.0,
      ),
      rest.1,
    )

-- createMkext1ForArch takes only kexts that support the architecture, and for every kext of its
-- list that supports it, one with the same identifier and no older version.
pub choose_kexts-AllCovered :
    (archive_kexts : List OsKext)
    → AllCovered archive_kexts (choose_kexts archive_kexts [])
      × AllSupport (choose_kexts archive_kexts [])
choose_kexts-AllCovered archive_kexts = choose_kexts-from archive_kexts [] tt
