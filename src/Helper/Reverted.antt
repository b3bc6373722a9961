-- ===== src/Helper/Reverted.antt =====
-- update_boot.c: activating, reverting and tidying, and the directories that the booter reads from.
use kext_tools.Common.{◌≡◌, refl, Bool, true, false, not, if◌then◌else◌, ◌==◌, ◌&&◌, Option, none}
use kext_tools.Helper.Data.{
  BooterFile, Disk, Reversion, Up, Call, System, enoent, elast_1, Op, write, ◌>>◌, when, booter,
  nothing_serious, no_label, copying_of, copying_efi, copied_booters, activating_of, activating_efi,
  activated_booters, sync_booters, open_of, open_efi, set_boot_info, set_nvram, unlink_of,
  restore_of, unlink_efi, restore_efi, drop_old_of, drop_old_efi, type_label, label_back,
}
use kext_tools.Helper.Labels.{
  now, rename_misc_files, rename_misc_step, move_label_back, activate_misc,
}
use kext_tools.Helper.Booters.{
  has_file, copy_of_booter, copy_efi_booter, ucopy_booters, of_at, efi_at, open_booter, id_of,
  bless_booter, activate_booters, unlink_new_efi, rename_old_efi, restore_efi_booter, unlink_new_of,
  rename_old_of, restore_of_booter, revert_state, drop_old_of_last, drop_old_efi_last,
  drop_old_booters,
}
use kext_tools.Helper.Exchange.{Keeps, seq-Keeps, when-Keeps}
use kext_tools.Helper.Kept.{
  HasSameDirs, IsClosed, if-Up, if-Op, written, now-Keeps, copy_of_booter-Keeps,
  copy_efi_booter-Keeps,
}

module _ (P : Up → Type 0) (closed : IsClosed P)
    (stated : (up : Up) (s : Reversion) → P up → P (record up { changestate = s }))
    (system : System) where
  state-Keeps : (s : Reversion) → Keeps P (now s)
  state-Keeps s = now-Keeps P closed stated system s

  write-Keeps : (up : Up) (d : Disk) → HasSameDirs d up.disk → P up → P (write d up)
  write-Keeps = written P closed stated system

  pub ucopy_booters-Keeps : Keeps P (ucopy_booters system)
  unfolding ucopy_booters
  ucopy_booters-Keeps =
      seq-Keeps P
        (now copying_of
          >> when (λ _. system.has_of) (copy_of_booter system)
          >> now copying_efi
          >> when (λ _. system.has_efi) (copy_efi_booter system))
        (now copied_booters)
        (seq-Keeps P
          (now copying_of >> when (λ _. system.has_of) (copy_of_booter system) >> now copying_efi)
          (when (λ _. system.has_efi) (copy_efi_booter system))
          (seq-Keeps P (now copying_of >> when (λ _. system.has_of) (copy_of_booter system))
            (now copying_efi)
            (seq-Keeps P (now copying_of) (when (λ _. system.has_of) (copy_of_booter system))
              (state-Keeps copying_of)
              (when-Keeps P (λ _. system.has_of) (copy_of_booter system)
                (copy_of_booter-Keeps P closed stated system)))
            (state-Keeps copying_efi))
          (when-Keeps P (λ _. system.has_efi) (copy_efi_booter system)
            (copy_efi_booter-Keeps P closed stated system)))
        (state-Keeps copied_booters)

  open_booter-Keeps :
      (call : Call) (file : Disk → Option BooterFile) → Keeps P (open_booter system call file)
  unfolding open_booter
  open_booter-Keeps call file up h =
      if-Op P (has_file (file up.disk)) (up, system.fails call) (up, enoent) h h

  bless_booter-Keeps : (old : Bool) → Keeps P (bless_booter system old)
  unfolding bless_booter
  bless_booter-Keeps old up h =
      if-Op P (system.fails (set_boot_info old) == 0) _ (up, system.fails (set_boot_info old))
        (write-Keeps up
          (record (up.disk) {
            blessed = booter (if system.has_efi then id_of (efi_at old up.disk) else 0);
          })
          (refl, refl, refl, refl, refl) h)
        h

  rename_misc_step-Keeps :
      (do_misc : Bool) (up : Up) → P up → P (rename_misc_step system do_misc up).0
  unfolding rename_misc_step
  rename_misc_step-Keeps true up h =
      write-Keeps up (record (up.disk) { misc = (rename_misc_files system 0 up.disk.misc).0 })
        (refl, refl, refl, refl, refl) h
  rename_misc_step-Keeps false up h = h

  move_label_back-Keeps : (up : Up) → P up → P (move_label_back system up)
  unfolding move_label_back
  move_label_back-Keeps up h =
      if-Up P (up.disk.label_new && (system.fails label_back == 0))
        (write (record (up.disk) { label = true; label_new = false }) up) up
        (write-Keeps up (record (up.disk) { label = true; label_new = false })
          (refl, refl, refl, refl, refl) h)
        h

  pub activate_misc-Keeps : (do_misc : Bool) → Keeps P (activate_misc system do_misc)
  unfolding activate_misc
  activate_misc-Keeps do_misc up h =
      let moved = move_label_back-Keeps _ (rename_misc_step-Keeps do_misc up h) in
      let labelled = move_label_back system (rename_misc_step system do_misc up).0 in
      if-Op P (labelled.disk.label && not (system.fails type_label == 0)) (labelled, elast_1) _
        moved moved

  unlink_new_of-Keeps : (up : Up) → P up → P (unlink_new_of system up)
  unfolding unlink_new_of
  unlink_new_of-Keeps up h =
      if-Up P (system.fails unlink_of == 0) (write (record (up.disk) { of_booter = none }) up) up
        (write-Keeps up (record (up.disk) { of_booter = none }) (refl, refl, refl, refl, refl) h) h

  rename_old_of-Keeps : (up : Up) → P up → P (rename_old_of system up)
  unfolding rename_old_of
  rename_old_of-Keeps up h =
      if-Up P (system.fails restore_of == 0)
        (write (record (up.disk) { of_booter = up.disk.of_old; of_old = none }) up) up
        (write-Keeps up (record (up.disk) { of_booter = up.disk.of_old; of_old = none })
          (refl, refl, refl, refl, refl) h)
        h

  restore_of_booter-Keeps : (up : Up) → P up → P (restore_of_booter system up)
  unfolding restore_of_booter
  restore_of_booter-Keeps up h =
      if-Up P (system.has_of && has_file up.disk.of_old)
        (rename_old_of system (unlink_new_of system up)) up
        (rename_old_of-Keeps _ (unlink_new_of-Keeps up h)) h

  drop_old_of_last-Keeps : (up : Up) → P up → P (drop_old_of_last system up)
  unfolding drop_old_of_last
  drop_old_of_last-Keeps up h =
      if-Up P (system.has_of && (has_file up.disk.of_old && (system.fails drop_old_of == 0)))
        (write (record (up.disk) { of_old = none }) up) up
        (write-Keeps up (record (up.disk) { of_old = none }) (refl, refl, refl, refl, refl) h) h

  unlink_new_efi-Keeps : (up : Up) → P up → P (unlink_new_efi system up)
  unfolding unlink_new_efi
  unlink_new_efi-Keeps up h =
      if-Up P (system.fails unlink_efi == 0) (write (record (up.disk) { efi_booter = none }) up) up
        (write-Keeps up (record (up.disk) { efi_booter = none }) (refl, refl, refl, refl, refl) h) h

  rename_old_efi-Keeps : (up : Up) → P up → P (rename_old_efi system up)
  unfolding rename_old_efi
  rename_old_efi-Keeps up h =
      if-Up P (system.fails restore_efi == 0)
        (write (record (up.disk) { efi_booter = up.disk.efi_old; efi_old = none }) up) up
        (write-Keeps up (record (up.disk) { efi_booter = up.disk.efi_old; efi_old = none })
          (refl, refl, refl, refl, refl) h)
        h

  restore_efi_booter-Keeps : (up : Up) → P up → P (restore_efi_booter system up)
  unfolding restore_efi_booter
  restore_efi_booter-Keeps up h =
      if-Up P (system.has_efi && has_file up.disk.efi_old)
        (rename_old_efi system (unlink_new_efi system up)) up
        (rename_old_efi-Keeps _ (unlink_new_efi-Keeps up h)) h

  drop_old_efi_last-Keeps : (up : Up) → P up → P (drop_old_efi_last system up)
  unfolding drop_old_efi_last
  drop_old_efi_last-Keeps up h =
      if-Up P (system.has_efi && (has_file up.disk.efi_old && (system.fails drop_old_efi == 0)))
        (write (record (up.disk) { efi_old = none }) up) up
        (write-Keeps up (record (up.disk) { efi_old = none }) (refl, refl, refl, refl, refl) h) h

  pub drop_old_booters-Keeps : (up : Up) → P up → P (drop_old_booters system up)
  unfolding drop_old_booters
  drop_old_booters-Keeps up h = drop_old_efi_last-Keeps _ (drop_old_of_last-Keeps up h)

  pub activate_booters-Keeps : (old : Bool) → Keeps P (activate_booters system old)
  unfolding activate_booters
  activate_booters-Keeps old =
      let synced : Op = λ up. (up, system.fails (sync_booters old)) in
      let opens_of = when (λ _. system.has_of) (open_booter system (open_of old) (of_at old)) in
      let opens_efi = when (λ _. system.has_efi) (open_booter system (open_efi old) (efi_at old)) in
      let blesses = when (λ _. system.bless_default) (bless_booter system old) in
      let nvram : Op = λ up. (up, if system.fails (set_nvram old) == 0 then 0 else 19) in
      let sets = when (λ _. system.sets_nvram) nvram in
      let k1 = seq-Keeps P synced (now activating_of) (λ up h. h) (state-Keeps activating_of) in
      let k2 =
        seq-Keeps P (synced >> now activating_of) opens_of k1
          (when-Keeps P (λ _. system.has_of) _ (open_booter-Keeps (open_of old) (of_at old))) in
      let k3 =
        seq-Keeps P (synced >> now activating_of >> opens_of) (now activating_efi) k2
          (state-Keeps activating_efi) in
      let k4 =
        seq-Keeps P (synced >> now activating_of >> opens_of >> now activating_efi) opens_efi k3
          (when-Keeps P (λ _. system.has_efi) _ (open_booter-Keeps (open_efi old) (efi_at old))) in
      let k5 =
        seq-Keeps P (synced >> now activating_of >> opens_of >> now activating_efi >> opens_efi)
          blesses k4 (when-Keeps P (λ _. system.bless_default) _ (bless_booter-Keeps old)) in
      let k6 =
        seq-Keeps P
          (synced >> now activating_of >> opens_of >> now activating_efi >> opens_efi >> blesses)
          sets k5 (when-Keeps P (λ _. system.sets_nvram) nvram (λ up h. h)) in
      seq-Keeps P
        (synced
          >> now activating_of
          >> opens_of
          >> now activating_efi
          >> opens_efi
          >> blesses
          >> sets)
        (now activated_booters) k6 (state-Keeps activated_booters)

  restore_booters-Keeps :
      (up : Up) → P up → P (restore_of_booter system (restore_efi_booter system up))
  restore_booters-Keeps up h = restore_of_booter-Keeps _ (restore_efi_booter-Keeps up h)

  revert-Keeps : (s : Reversion) (up : Up) → P up → up.changestate ≡ s → P (revert_state system up)
  unfolding revert_state
  revert-Keeps nothing_serious up h e = rw (revert_state, e) h
  revert-Keeps no_label up h e = rw (revert_state, e) (activate_misc-Keeps false _ h)
  revert-Keeps copying_of up h e =
      rw (revert_state, e) (activate_misc-Keeps false _ (restore_of_booter-Keeps _ h))
  revert-Keeps copying_efi up h e =
      rw (revert_state, e) (activate_misc-Keeps false _ (restore_booters-Keeps up h))
  revert-Keeps copied_booters up h e =
      rw (revert_state, e) (activate_misc-Keeps false _ (restore_booters-Keeps up h))
  revert-Keeps activating_of up h e =
      rw (revert_state, e) (activate_misc-Keeps false _ (restore_booters-Keeps up h))
  revert-Keeps activating_efi up h e =
      rw (revert_state, e) (activate_misc-Keeps false _ (restore_booters-Keeps up h))
  revert-Keeps activated_booters up h e =
      rw (revert_state, e)
        (activate_misc-Keeps false _ (restore_booters-Keeps _ (activate_booters-Keeps true up h)))

  pub revert_state-Keeps : (up : Up) → P up → P (revert_state system up)
  revert_state-Keeps up h = revert-Keeps up.changestate up h refl
