-- ===== src/Helper/Erases.antt =====
-- update_boot.c: the steps of BREraseBootFiles that end without an error.
use kext_tools.Common.{
  ◌∙◌, ℕ, ◌≡◌, ◌≢◌, refl, Bool, true, false, not, List, [], ◌∷◌, if◌then◌else◌, ◌==◌, ◌&&◌, ◌||◌,
  arith, Bool-cases, inl, inr, ap,
}
use kext_tools.Helper.Data.{
  recerr, enoent, unlink_label, unlink_2x, unlink_details, unlink_uuid, erase_of, erase_efi,
  erase_once, erase_misc, RpsDir, MiscFile, Disk, Target, Up, Site, Call, System, write, get, set,
  exists, rock, paper, scissors, missing, partial, whole, rps, flat, extra_paper, erased_previous,
  erased_current, erased_next, zero_file, unlink_dir,
}
use kext_tools.Helper.Rps.{Found, names_of, erase_rps, find_rps_dir}
use kext_tools.Helper.Labels.{unlink_recording}
use kext_tools.Helper.Booters.{has_file}
use kext_tools.Helper.Erase.{recording, erase_found, erase_all_rps}

abbrev pub NoLabels : Disk → Type 0
NoLabels d =
    (d.label ≡ false) × (d.label_2x ≡ false) × (d.label_details ≡ false) × (d.root_uuid ≡ false)

abbrev pub NoBooters : System → Disk → Type 0
NoBooters system d =
    ((system.has_of && has_file d.of_booter) ≡ false)
    × ((system.has_efi && has_file d.efi_booter) ≡ false)

abbrev pub NoDirs : Disk → Type 0
NoDirs d = (d.r_dir ≡ missing) × (d.p_dir ≡ missing) × (d.s_dir ≡ missing)

abbrev pub NoMisc : List MiscFile → Type 0
NoMisc [] = Unit {0}
NoMisc (file ∷ files) = (file.active ≡ false) × NoMisc files

-- A step that ends without an error, where none was recorded before: a fact holds then, and P is
-- kept.
unfoldable pub Erases : (Disk → Type 0) → (Disk → Type 0) → Up × ℕ → Up × ℕ → Type 0
Erases P gone r r' = r'.1 ≡ 0 → (r.1 ≡ 0) × gone r'.0.disk × (P r.0.disk → P r'.0.disk)

pub unlink_recording-Erases :
    (P : Disk → Type 0) (system : System) (call : Call) (there : Disk → Bool)
    (without : Disk → Disk)
    → system.fails call ≢ enoent
    → ((d : Disk) → there (without d) ≡ false)
    → ((d : Disk) → P d → P (without d))
    → (r : Up × ℕ)
    → Erases P (λ d. there d ≡ false) r (unlink_recording system call there without r)
unfolding unlink_recording Erases
unlink_recording-Erases P system call there without honest law closed (up, first) =
    by_file (there up.disk) refl
  where
    by_file :
        (b : Bool)
        → there up.disk ≡ b
        → Erases P
            (λ d. there d ≡ false)
            (up, first)
            (if not b
              then (up, first)
              else if system.fails call == 0
              then (write (without up.disk) up, first)
              else (up, recerr (system.fails call) first))
    by_file false e h = (h, e, λ p. p)
    by_file true e h = elim (Bool-cases (system.fails call == 0)) [
      | inl done ↦ (rw done at h, rw done (law up.disk), rw done (closed up.disk))
      | inr failed ↦ absurd (ground (arith, failed, honest, rw failed at h))
    ]

pub unlink_recording-result :
    (system : System) (call : Call) (there : Disk → Bool) (without : Disk → Disk) (r : Up × ℕ)
    → r.1 ≢ enoent
    → (unlink_recording system call there without r).1 ≢ enoent
unfolding unlink_recording
unlink_recording-result system call there without (up, first) h = ground (arith, h)

-- The calls that erase something.
abbrev pub is_erasing : Call → Bool
is_erasing (unlink_dir site) = true
is_erasing unlink_label = true
is_erasing unlink_2x = true
is_erasing unlink_details = true
is_erasing unlink_uuid = true
is_erasing erase_of = true
is_erasing erase_efi = true
is_erasing erase_once = true
is_erasing (erase_misc i) = true
is_erasing _ = false

-- Erasing what is there does not fail with ENOENT.
abbrev pub IsHonest : System → Type 0
IsHonest system = (call : Call) → is_erasing call ≡ true → system.fails call ≢ enoent

-- From P before to Q behind, when no error is recorded.
unfoldable pub Yields : (Disk → Type 0) → (Disk → Type 0) → Up × ℕ → Up × ℕ → Type 0
Yields P Q r r' = r'.1 ≡ 0 → (r.1 ≡ 0) × (P r.0.disk → Q r'.0.disk)

abbrev pub Anything : Disk → Type 0
Anything d = Unit {0}

pub Yields-Yields :
    (P Q R : Disk → Type 0) (r r' r'' : Up × ℕ)
    → Yields P Q r r'
    → Yields Q R r' r''
    → Yields P R r r''
unfolding Yields
Yields-Yields P Q R r r' r'' a b h =
    let (z, later) = b h in let (z', first) = a z in (z', λ p. later (first p))

pub Erases-Yields :
    (P gone : Disk → Type 0) (r r' : Up × ℕ)
    → Erases P gone r r'
    → Yields P (λ d. gone d × P d) r r'
unfolding Erases Yields
Erases-Yields P gone r r' a h = let (z, g, kept) = a h in (z, λ p. (g, kept p))

abbrev pub HasDir : Target → Disk → Type 0
HasDir t d = get t d ≡ missing

get-set-same : (t : Target) (x : RpsDir) (d : Disk) → get t (set t x d) ≡ x
get-set-same (rps rock) x d = refl
get-set-same (rps paper) x d = refl
get-set-same (rps scissors) x d = refl
get-set-same flat x d = refl

pub recerr-zero : (e first : ℕ) → e ≢ enoent → recerr e first ≡ 0 → (e ≡ 0) × (first ≡ 0)
recerr-zero e first other h = ground (arith, other, h)

-- RECERR with an error that is neither 0 nor ENOENT.
recerr-failed :
    (e first : ℕ)
    → (e == 0) ≡ false
    → e ≢ enoent
    → (if false || (e == enoent) then first else if first == 0 then e else first) ≡ 0
    → ⊥
recerr-failed e first n other h = ground (arith, n, other, h)

module _ (system : System) (honest : IsHonest system) where
  erase_rps-Erases :
      (P : Disk → Type 0) (site : Site) (t : Target)
      → ((x : RpsDir) (d : Disk) → P d → P (set t x d))
      → (r : Up × ℕ) → Erases P (HasDir t) r (recording (erase_rps system site t) r)
  unfolding Erases erase_rps
  erase_rps-Erases P site t closed (up, first) = by_dir (get t up.disk) refl
    where
      there :
          exists (get t up.disk) ≡ true
          → Erases P (HasDir t) (up, first) (recording (erase_rps system site t) (up, first))
      there x h =
          let unfailed : (system.zeroes_props && not (system.fails (zero_file site) == 0)) ≡ false =
            ground (arith, x, rw (erase_rps, x) at h) in
          let done : (system.fails (unlink_dir site) == 0) ≡ true =
            ground (
              arith,
              x,
              unfailed,
              honest (unlink_dir site) refl,
              rw (erase_rps, x, unfailed) at h,
            ) in
          rw (erase_rps, x, unfailed, done)
            (
              ground (arith, rw (erase_rps, x, unfailed, done) at h),
              get-set-same t missing (set t partial up.disk),
              λ p. closed missing (set t partial up.disk) (closed partial up.disk p),
            )

      by_dir :
          (x : RpsDir)
          → get t up.disk ≡ x
          → Erases P (HasDir t) (up, first) (recording (erase_rps system site t) (up, first))
      by_dir missing e h = rw (erase_rps, e) (ground (arith, rw (erase_rps, e) at h), e, λ p. p)
      by_dir partial e h = there (ap exists e) h
      by_dir (whole v) e h = there (ap exists e) h

  -- The three directories, when erasing one does not touch the others.
  erase_three :
      (P : Disk → Type 0) (f : Found)
      → ((t : Target) (x : RpsDir) (d : Disk) → P d → P (set t x d))
      → ((x : RpsDir) (d : Disk)
          → get (rps f.previous) (set (rps f.current) x d) ≡ get (rps f.previous) d)
      → ((x : RpsDir) (d : Disk)
          → get (rps f.previous) (set (rps f.next) x d) ≡ get (rps f.previous) d)
      → ((x : RpsDir) (d : Disk)
          → get (rps f.current) (set (rps f.next) x d) ≡ get (rps f.current) d)
      → (r : Up × ℕ)
      → Yields P
          (λ d.
            HasDir (rps f.next) d × (HasDir (rps f.current) d × (HasDir (rps f.previous) d × P d)))
          r
          (erase_found system f r)
  unfolding Yields Erases erase_found
  erase_three P f closed pc pn cn r h =
      let r1 = recording (erase_rps system erased_previous (rps f.previous)) r in
      let r2 = recording (erase_rps system erased_current (rps f.current)) r1 in
      let Q : Disk → Type 0 = λ d. HasDir (rps f.previous) d × P d in
      let R : Disk → Type 0 = λ d. HasDir (rps f.current) d × Q d in
      let (z2, e3, k3) =
        erase_rps-Erases R erased_next (rps f.next)
          (λ x d q. (cn x d ∙ q.0, (pn x d ∙ q.1.0, closed (rps f.next) x d q.1.1))) r2 h in
      let (z1, e2, k2) =
        erase_rps-Erases Q erased_current (rps f.current)
          (λ x d q. (pc x d ∙ q.0, closed (rps f.current) x d q.1)) r1 z2 in
      let (z, e1, k1) =
        erase_rps-Erases P erased_previous (rps f.previous) (closed (rps f.previous)) r z1 in
      (z, λ p. (e3, k3 (e2, k2 (e1, k1 p))))

  erase_from_rock :
      (P : Disk → Type 0)
      → ((t : Target) (x : RpsDir) (d : Disk) → P d → P (set t x d))
      → (r : Up × ℕ)
      → Yields P (λ d. NoDirs d × P d) r (erase_found system (names_of true false false) r)
  unfolding Yields
  erase_from_rock P closed r h =
      let (z, kept) =
        erase_three P (names_of true false false) closed (λ x d. refl) (λ x d. refl) (λ x d. refl) r
          h in
      (z, λ p. let (n, (c, (v, q))) = kept p in ((c, n, v), q))

  erase_from_paper :
      (P : Disk → Type 0)
      → ((t : Target) (x : RpsDir) (d : Disk) → P d → P (set t x d))
      → (r : Up × ℕ)
      → Yields P (λ d. NoDirs d × P d) r (erase_found system (names_of false true false) r)
  unfolding Yields
  erase_from_paper P closed r h =
      let (z, kept) =
        erase_three P (names_of false true false) closed (λ x d. refl) (λ x d. refl) (λ x d. refl) r
          h in
      (z, λ p. let (n, (c, (v, q))) = kept p in ((v, c, n), q))

  erase_from_scissors :
      (P : Disk → Type 0)
      → ((t : Target) (x : RpsDir) (d : Disk) → P d → P (set t x d))
      → (r : Up × ℕ)
      → Yields P (λ d. NoDirs d × P d) r (erase_found system (names_of false false true) r)
  unfolding Yields
  erase_from_scissors P closed r h =
      let (z, kept) =
        erase_three P (names_of false false true) closed (λ x d. refl) (λ x d. refl) (λ x d. refl) r
          h in
      (z, λ p. let (n, (c, (v, q))) = kept p in ((n, v, c), q))

  erase_found-Yields :
      (P : Disk → Type 0) (a b c : Bool)
      → ((t : Target) (x : RpsDir) (d : Disk) → P d → P (set t x d))
      → (r : Up × ℕ) → Yields P (λ d. NoDirs d × P d) r (erase_found system (names_of a b c) r)
  erase_found-Yields P true true true closed r = erase_from_rock P closed r
  erase_found-Yields P true true false closed r = erase_from_paper P closed r
  erase_found-Yields P true false true closed r = erase_from_rock P closed r
  erase_found-Yields P true false false closed r = erase_from_rock P closed r
  erase_found-Yields P false true true closed r = erase_from_scissors P closed r
  erase_found-Yields P false true false closed r = erase_from_paper P closed r
  erase_found-Yields P false false true closed r = erase_from_scissors P closed r
  erase_found-Yields P false false false closed r = erase_from_rock P closed r

  find_rps_dir-kept :
      (P : Disk → Type 0)
      → ((t : Target) (x : RpsDir) (d : Disk) → P d → P (set t x d))
      → (up : Up) → (find_rps_dir system up).1 ≡ 0
      → P up.disk
      → P (find_rps_dir system up).0.disk
  unfolding find_rps_dir Erases
  find_rps_dir-kept P closed up h p =
      elim (Bool-cases (exists up.disk.r_dir && (exists up.disk.p_dir && exists up.disk.s_dir))) [
        | inl e ↦
            let z : (erase_rps system extra_paper (rps paper) up).1 ≡ 0 =
              rw (find_rps_dir, e) at h in
            rw (find_rps_dir, e)
              ((erase_rps-Erases P extra_paper (rps paper) (closed (rps paper)) (up, 0)
                  (ap (λ (n : ℕ). recerr n 0) z)).2
                p)
        | inr e ↦ rw (find_rps_dir, e) p
      ]

  find_rps_dir-result : (up : Up) → (find_rps_dir system up).1 ≢ enoent
  unfolding find_rps_dir erase_rps
  find_rps_dir-result up =
      let other : system.fails (unlink_dir extra_paper) ≢ enoent =
        honest (unlink_dir extra_paper) refl in
      ground (arith, other)

  pub erase_all_rps-Yields :
      (P : Disk → Type 0)
      → ((t : Target) (x : RpsDir) (d : Disk) → P d → P (set t x d))
      → (r : Up × ℕ) → Yields P (λ d. NoDirs d × P d) r (erase_all_rps system r)
  unfolding Yields erase_all_rps
  erase_all_rps-Yields P closed (up, first) h =
      elim (Bool-cases ((find_rps_dir system up).1 == 0)) [
        | inl e ↦
            let (z, kept) =
              erase_found-Yields P (exists up.disk.r_dir) (exists up.disk.p_dir)
                (exists up.disk.s_dir) closed ((find_rps_dir system up).0, first)
                (rw (erase_all_rps, e) at h) in
            rw (erase_all_rps, e)
              (z, λ p. kept (find_rps_dir-kept P closed up (ground (arith, e)) p))
        | inr e ↦
            let other = find_rps_dir-result up in
            absurd
              (recerr-failed (find_rps_dir system up).1 first e other (rw (erase_all_rps, e) at h))
      ]
