-- ===== src/Helper/Crash.antt =====
-- update_boot.c: a helper partition at every moment of its update.
use kext_tools.Common.{
  ℕ, ◌≡◌, refl, sym, ◌∙◌, Bool, true, false, not, [], if◌then◌else◌, ◌==◌, ◌&&◌, ◌||◌, arith, inl,
  inr,
}
use kext_tools.Helper.Data.{Reversion, Up, System, whole, nothing_serious, mount}
use kext_tools.Helper.Rps.{erase_rps, find_rps_dir, erase_previous}
use kext_tools.Helper.Booters.{
  has_file, revert_state, drop_old_of_last, drop_old_efi_last, drop_old_booters,
}
use kext_tools.Helper.Update.{
  misc_missing, check_boot_contents, update_steps, nuke_fallbacks, update_helper,
}
use kext_tools.Helper.Safe.{
  is_whole, current_dir, has_boot_files, AllHaveFiles, IsSafe, IsSound, IsSound-IsSafe, CanFree,
}
use kext_tools.Helper.Kept.{IsClosed}
use kext_tools.Helper.Reverted.{drop_old_booters-Keeps, revert_state-Keeps}
use kext_tools.Helper.Steps.{erase_previous-IsSound, erase_previous-IsSafe, erase_previous-version}
use kext_tools.Helper.Stages.{
  IsUpdated, Behind, Failed, IsSound-closed, IsSound-stated, IsUpdated-closed, Behind-IsSound,
}
use kext_tools.Helper.Outcome.{Ends, Outcome}
use kext_tools.Helper.Phases.{CanStart, update_steps-Outcome}

drop_old_booters-IsSafe :
    (system : System) (up : Up) → IsSafe up → IsSafe (drop_old_booters system up)
unfolding drop_old_booters drop_old_of_last drop_old_efi_last
drop_old_booters-IsSafe system up h = record {
  able = ground (arith, h.able);
  ever = ground (arith, h.able, h.ever);
}

nuke_fallbacks-IsSafe : (system : System) (up : Up) → IsSafe up → IsSafe (nuke_fallbacks system up)
unfolding nuke_fallbacks
nuke_fallbacks-IsSafe system up h =
    let dropped = drop_old_booters-IsSafe system up h in
    ground (
      arith,
      h,
      dropped,
      erase_previous-IsSafe system up h,
      erase_previous-IsSafe system (drop_old_booters system up) dropped,
    )

erase_previous-IsUpdated :
    (system : System) (v : ℕ) (up : Up) → IsUpdated v up → IsUpdated v (erase_previous system up).0
erase_previous-IsUpdated system v up h = record {
  sound = erase_previous-IsSound system up h.sound;
  current = erase_previous-version system up v h.current;
}

IsUpdated-stated :
    (v : ℕ) (up : Up) (s : Reversion) → IsUpdated v up → IsUpdated v (record up { changestate = s })
IsUpdated-stated v up s h = record { sound = IsSound-stated up s h.sound; current = h.current }

nuke_fallbacks-IsUpdated :
    (system : System) (v : ℕ) (up : Up) → IsUpdated v up → IsUpdated v (nuke_fallbacks system up)
unfolding nuke_fallbacks
nuke_fallbacks-IsUpdated system v up h =
    let dropped =
      drop_old_booters-Keeps (IsUpdated v) (IsUpdated-closed v) (IsUpdated-stated v) system up h in
    ground (
      arith,
      h,
      dropped,
      erase_previous-IsUpdated system v up h,
      erase_previous-IsUpdated system v (drop_old_booters system up) dropped,
    )

reverted-IsSafe : (system : System) (up : Up) → Failed up → IsSafe (revert_state system up)
unfolding revert_state
reverted-IsSafe system up (inl (h, e)) = rw (revert_state, e) h
reverted-IsSafe system up (inr h) =
    IsSound-IsSafe _ (revert_state-Keeps IsSound IsSound-closed IsSound-stated system up h)

ended-IsSafe :
    (system : System) (r : Up × ℕ)
    → Outcome Failed (Behind system.version) r
    → IsSafe (revert_state system r.0)
ended-IsSafe system (up, e) o = by_result (e == 0) o
  where
    by_result :
        (b : Bool) → Ends Failed (Behind system.version) b up → IsSafe (revert_state system up)
    by_result true h = reverted-IsSafe system up (inr (Behind-IsSound system.version up h))
    by_result false h = reverted-IsSafe system up h

-- A helper that starts, with its current directory complete, in its update.
pub record CanUpdate (system : System) (up : Up) : Type 0 where
  pub in_place : system.to_flat ≡ false
  pub frees : CanFree system up.disk
  pub complete : is_whole (current_dir up.disk) ≡ true
  pub unwritten : up.history ≡ []

checked-CanStart :
    (system : System) (up : Up)
    → CanUpdate system up
    → CanStart system (check_boot_contents system (record up { changestate = nothing_serious }))
unfolding check_boot_contents
checked-CanStart system up c =
    let started = record up { changestate = nothing_serious } in by_default system.not_default
  where
    sound :
        (a b c' : Bool)
        → IsSound
            (record up { changestate = nothing_serious; do_rps = a; do_booters = b; do_misc = c' })
    sound a b c' = record { complete = c.complete; ever = ground (arith, c.unwritten) }

    by_default :
        (d : Bool)
        → CanStart system (
            if d
            then record up {
              changestate = nothing_serious;
              do_rps = true;
              do_booters = true;
              do_misc = true;
            }
            else record up {
              changestate = nothing_serious;
              do_misc = up.do_misc || misc_missing system.misc_sources up.disk.misc;
              do_booters =
                  up.do_booters
                  || ((system.has_efi && not (has_file up.disk.efi_booter))
                      || (system.has_of && not (has_file up.disk.of_booter)));
            })
    by_default true = record {
      in_place = c.in_place;
      frees = c.frees;
      sound = sound true true true;
      fresh = refl;
    }
    by_default false = record {
      in_place = c.in_place;
      frees = c.frees;
      sound = sound _ _ _;
      fresh = refl;
    }

-- At every write of an update of a helper partition and at its end, the recovery system is blessed
-- or the directory that the booter reads is complete. Whether the booter's own file is there is no
-- part of it. The update uses the default directories, and the booter finds a complete one at
-- first. Every call may fail, except on a partition with a recovery system the calls that bless
-- it and that erase the directory which it replaces.
pub update_helper-AllHaveFiles :
    (system : System) (up : Up)
    → CanUpdate system up
    → (has_boot_files (update_helper system up).0.disk ≡ true)
      × AllHaveFiles (update_helper system up).0.history
unfolding update_helper
update_helper-AllHaveFiles system up c = by_mount (system.fails mount == 0) refl
  where
    started : Up
    started = check_boot_contents system (record up { changestate = nothing_serious })

    finished : IsSafe (nuke_fallbacks system (revert_state system (update_steps system started).0))
    finished = nuke_fallbacks-IsSafe system _ (
        ended-IsSafe system (update_steps system started)
          (update_steps-Outcome system started (checked-CanStart system up c)))

    by_mount :
        (b : Bool)
        → (system.fails mount == 0) ≡ b
        → (has_boot_files (update_helper system up).0.disk ≡ true)
          × AllHaveFiles (update_helper system up).0.history
    by_mount true e = rw (update_helper, e) (finished.able, finished.ever)
    by_mount false e = rw (update_helper, e) (ground (arith, c.complete), rw c.unwritten tt)

erase_previous-do_rps :
    (system : System) (up : Up) → (erase_previous system up).0.do_rps ≡ up.do_rps
unfolding erase_previous find_rps_dir erase_rps
erase_previous-do_rps system up = ground arith

HasRps-closed : (b : Bool) → IsClosed (λ up. up.do_rps ≡ b)
HasRps-closed b up d s same h = h

tidied-do_rps :
    (system : System) (up : Up)
    → (nuke_fallbacks system (revert_state system up)).do_rps ≡ up.do_rps
unfolding nuke_fallbacks erase_previous
tidied-do_rps system up =
    let P : Up → Type 0 = λ u. u.do_rps ≡ up.do_rps in
    let reverted = revert_state system up in
    let kept = revert_state-Keeps P (HasRps-closed up.do_rps) (λ u s h. h) system up refl in
    let dropped =
      drop_old_booters-Keeps P (HasRps-closed up.do_rps) (λ u s h. h) system reverted kept in
    ground (
      arith,
      kept,
      dropped,
      erase_previous-do_rps system reverted,
      erase_previous-do_rps system (drop_old_booters system reverted),
    )

IsUpdated-Outcome :
    (system : System) (r : Up × ℕ)
    → Outcome Failed (Behind system.version) r
    → r.1 ≡ 0
    → r.0.do_rps ≡ true
    → IsUpdated system.version (nuke_fallbacks system (revert_state system r.0))
IsUpdated-Outcome system (up, e) o z d = by_result (e == 0) (ground (arith, z)) o
  where
    updated :
        IsUpdated system.version up
        → IsUpdated system.version (nuke_fallbacks system (revert_state system up))
    updated h = nuke_fallbacks-IsUpdated system system.version _ (
        revert_state-Keeps (IsUpdated system.version) (IsUpdated-closed system.version)
          (IsUpdated-stated system.version) system up h)

    by_result :
        (b : Bool)
        → b ≡ true
        → Ends Failed (Behind system.version) b up
        → IsUpdated system.version (nuke_fallbacks system (revert_state system up))
    by_result true t (inl (r, h)) = updated h
    by_result true t (inr (r, h)) = absurd (ground (arith, r, d))
    by_result false t h = absurd (ground (arith, t))

-- When the update of a helper partition ends with 0 and the directories were to be updated, the
-- booter finds the new version. The update uses the default directories, the booter finds a
-- complete one at first, and on a partition with a recovery system the calls that bless it and
-- that erase the directory which it replaces do not fail.
pub update_helper-version :
    (system : System) (up : Up)
    → CanUpdate system up
    → (update_helper system up).1 ≡ 0
    → (update_helper system up).0.do_rps ≡ true
    → current_dir (update_helper system up).0.disk ≡ whole system.version
unfolding update_helper
update_helper-version system up c z d = by_mount (system.fails mount == 0) refl
  where
    started : Up
    started = check_boot_contents system (record up { changestate = nothing_serious })

    finished :
        (update_steps system started).1 ≡ 0
        → (nuke_fallbacks system (revert_state system (update_steps system started).0)).do_rps
          ≡ true
        → current_dir
            (nuke_fallbacks system (revert_state system (update_steps system started).0)).disk
          ≡ whole system.version
    finished e d =
        (IsUpdated-Outcome system (update_steps system started)
          (update_steps-Outcome system started (checked-CanStart system up c)) e
          (sym (tidied-do_rps system (update_steps system started).0) ∙ d)).current

    by_mount :
        (b : Bool)
        → (system.fails mount == 0) ≡ b
        → current_dir (update_helper system up).0.disk ≡ whole system.version
    by_mount true e =
        rw (update_helper, e) (finished (rw (update_helper, e) at z) (rw (update_helper, e) at d))
    by_mount false e = absurd (ground (arith, e, z))
