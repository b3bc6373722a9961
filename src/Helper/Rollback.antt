-- ===== src/Helper/Rollback.antt =====
-- update_boot.c: the EFI booter after an update that was rolled back.
use kext_tools.Common.{ℕ, ◌≡◌, ◌≢◌, refl, Bool, true, false, ◌==◌, arith, ◌⊎◌, none, some}
use kext_tools.Helper.Data.{
  Blessed, BooterFile, Reversion, Up, System, ◌>>◌, nothing_serious, no_label, copying_of,
  copying_efi, copied_booters, activating_of, activating_efi, activated_booters, set_nvram,
  restore_efi,
}
use kext_tools.Helper.Labels.{rename_misc_step, move_label_back, activate_misc}
use kext_tools.Helper.Booters.{
  ucopy_booters, activate_booters, unlink_new_efi, rename_old_efi, restore_efi_booter,
  unlink_new_of, rename_old_of, restore_of_booter, restore_label, revert_state,
}
use kext_tools.Helper.Outcome.{Ends, Outcome, seq-Outcome}
use kext_tools.Helper.Restore.{
  IsInPlace, IsAside, IsRecoverable, IsEither, IsRolledBack, In, ucopied-Outcome, activated-Outcome,
}

module _ (system : System) (f : BooterFile) (b : Blessed) where
  abbrev IsBack : Up → Type 0
  IsBack up = (up.disk.efi_booter ≡ some f) × (up.disk.blessed ≡ b)

  restore_efi_booter-IsBack :
      (up : Up)
      → system.has_efi ≡ true
      → system.fails restore_efi ≡ 0
      → (IsInPlace system f b up ⊎ IsAside system f b up)
      → IsBack (restore_efi_booter system up)
  unfolding restore_efi_booter unlink_new_efi rename_old_efi
  restore_efi_booter-IsBack up e r h = ground (arith, e, r, h)

  restore_of_booter-IsBack : (up : Up) → IsBack up → IsBack (restore_of_booter system up)
  unfolding restore_of_booter unlink_new_of rename_old_of
  restore_of_booter-IsBack up h = ground (arith, h)

  restore_label-IsBack : (up : Up) → IsBack up → IsBack (restore_label system up)
  unfolding activate_misc rename_misc_step move_label_back
  restore_label-IsBack up h = ground (arith, h)

  tail-IsBack : (up : Up) → IsBack up → IsBack (restore_label system (restore_of_booter system up))
  tail-IsBack up h = restore_label-IsBack _ (restore_of_booter-IsBack up h)

  revert_state-IsBack :
      (s : Reversion) (up : Up)
      → system.has_efi ≡ true
      → system.fails restore_efi ≡ 0
      → up.changestate ≡ s
      → IsRecoverable system f b s up
      → IsBack (revert_state system up)
  unfolding revert_state
  revert_state-IsBack copying_of up e r c h = rw (revert_state, c) (tail-IsBack up (h.0, h.2))
  revert_state-IsBack copying_efi up e r c h =
      rw (revert_state, c) (tail-IsBack _ (restore_efi_booter-IsBack up e r h))
  revert_state-IsBack copied_booters up e r c h =
      rw (revert_state, c) (tail-IsBack _ (restore_efi_booter-IsBack up e r h))
  revert_state-IsBack activating_of up e r c h =
      rw (revert_state, c) (tail-IsBack _ (restore_efi_booter-IsBack up e r h))
  revert_state-IsBack activating_efi up e r c h =
      rw (revert_state, c) (tail-IsBack _ (restore_efi_booter-IsBack up e r h))
  revert_state-IsBack activated_booters up e r c h = absurd h
  revert_state-IsBack no_label up e r c h = absurd h
  revert_state-IsBack nothing_serious up e r c h = absurd h

  rolled_back :
      (r : Up × ℕ)
      → Outcome (IsRolledBack system f b) (λ _. Unit {0}) r
      → system.has_efi ≡ true
      → system.fails restore_efi ≡ 0
      → r.1 ≢ 0
      → IsBack (revert_state system r.0)
  rolled_back (up, code) o e r z = by_result (code == 0) refl o
    where
      by_result :
          (t : Bool)
          → (code == 0) ≡ t
          → Ends (IsRolledBack system f b) (λ _. Unit {0}) t up
          → IsBack (revert_state system up)
      by_result true t h = absurd (z (ground (arith, t)))
      by_result false t h = revert_state-IsBack up.changestate up e r refl h

-- When copying or activating the booters fails, other than by setting the boot device, the
-- rollback leaves the same EFI booter in place as before the update, and blessed what was blessed
-- before. This holds where an EFI booter was in place, no older one was left beside it, and the
-- rollback can rename it.
pub booters-restored :
    (system : System) (up : Up) (f : BooterFile)
    → system.has_efi ≡ true
    → up.disk.efi_booter ≡ some f
    → up.disk.efi_old ≡ none
    → system.fails (set_nvram false) ≡ 0
    → system.fails restore_efi ≡ 0
    → ((ucopy_booters system >> activate_booters system false) up).1 ≢ 0
    → ((revert_state system
          ((ucopy_booters system >> activate_booters system false) up).0).disk.efi_booter
        ≡ some f)
      × ((revert_state system
            ((ucopy_booters system >> activate_booters system false) up).0).disk.blessed
          ≡ up.disk.blessed)
booters-restored system up f e p o n r =
    let b = up.disk.blessed in
    let Any : Up → Type 0 = λ _. Unit {0} in
    rolled_back system f b ((ucopy_booters system >> activate_booters system false) up)
      (seq-Outcome (IsRolledBack system f b) (In system f b copied_booters (IsEither system f b))
        Any (ucopy_booters system) (activate_booters system false) up
        (ucopied-Outcome system f b up (p, o, refl)) (λ u k. activated-Outcome system f b u k n))
      e r
