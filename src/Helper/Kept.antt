-- ===== src/Helper/Kept.antt =====
-- update_boot.c: the operations on booters, labels and misc files, and the directories of the
-- files that the booter reads.
use kext_tools.Common.{ℕ, ◌≡◌, refl, Bool, true, false, not, if◌then◌else◌, ◌==◌, none}
use kext_tools.Helper.Data.{
  ◌>>◌, Disk, Reversion, Up, Call, System, elast_1, write, ◌>>◌, no_label, unlink_old_of, rename_of,
  copy_of, unlink_old_efi, rename_efi, copy_efi, move_label, clear_type,
}
use kext_tools.Helper.Labels.{
  now, unlink_recording, nuke_label, nuke_label_2x, nuke_label_details, nuke_root_uuid, nuke_labels,
  move_labels,
}
use kext_tools.Helper.Booters.{
  has_file, drop_old_of_first, move_of_booter, with_of, write_of_booter, copy_of_booter,
  drop_old_efi_first, move_efi_booter, with_efi, write_efi_booter, copy_efi_booter,
}
use kext_tools.Helper.Update.{copy_misc_files, put_label_aside}
use kext_tools.Helper.Exchange.{Keeps, seq-Keeps}

-- The same directories, and the same system is blessed.
abbrev pub HasSameDirs : Disk → Disk → Type 0
HasSameDirs d d' =
    (d.r_dir ≡ d'.r_dir)
    × (d.p_dir ≡ d'.p_dir)
    × (d.s_dir ≡ d'.s_dir)
    × (d.flat_dir ≡ d'.flat_dir)
    × (d.has_recovery ≡ d'.has_recovery)

abbrev pub IsClosed : (Up → Type 0) → Type 0
IsClosed P =
    (up : Up) (d : Disk) (s : Reversion)
    → HasSameDirs d up.disk
    → P up
    → P (record (write d up) { changestate = s })

module _ (P : Up → Type 0) where
  pub if-Up : (t : Bool) (a b : Up) → P a → P b → P (if t then a else b)
  if-Up true a b h k = h
  if-Up false a b h k = k

  pub if-Op : (t : Bool) (a b : Up × ℕ) → P a.0 → P b.0 → P (if t then a else b).0
  if-Op true a b h k = h
  if-Op false a b h k = k

module _ (P : Up → Type 0) (closed : IsClosed P)
    (stated : (up : Up) (s : Reversion) → P up → P (record up { changestate = s }))
    (system : System) where
  pub written : (up : Up) (d : Disk) → HasSameDirs d up.disk → P up → P (write d up)
  written up d same h = closed up d up.changestate same h

  pub now-Keeps : (s : Reversion) → Keeps P (now s)
  now-Keeps s up h = stated up s h

  pub copy_misc_files-Keeps : Keeps P (copy_misc_files system)
  unfolding copy_misc_files
  copy_misc_files-Keeps up h = written up _ (refl, refl, refl, refl, refl) h

  unlink_recording-Keeps :
      (call : Call) (there : Disk → Bool) (without : Disk → Disk)
      → ((d : Disk) → HasSameDirs (without d) d)
      → (r : Up × ℕ) → P r.0
      → P (unlink_recording system call there without r).0
  unfolding unlink_recording
  unlink_recording-Keeps call there without same (up, first) h =
      if-Op P (not (there up.disk)) (up, first) _ h
        (if-Op P (system.fails call == 0) (write (without up.disk) up, first) _
          (written up (without up.disk) (same up.disk) h) h)

  nuke_label-Keeps : (r : Up × ℕ) → P r.0 → P (nuke_label system r).0
  unfolding nuke_label
  nuke_label-Keeps = unlink_recording-Keeps _ _ _ (λ d. (refl, refl, refl, refl, refl))

  nuke_label_2x-Keeps : (r : Up × ℕ) → P r.0 → P (nuke_label_2x system r).0
  unfolding nuke_label_2x
  nuke_label_2x-Keeps = unlink_recording-Keeps _ _ _ (λ d. (refl, refl, refl, refl, refl))

  nuke_label_details-Keeps : (r : Up × ℕ) → P r.0 → P (nuke_label_details system r).0
  unfolding nuke_label_details
  nuke_label_details-Keeps = unlink_recording-Keeps _ _ _ (λ d. (refl, refl, refl, refl, refl))

  nuke_root_uuid-Keeps : (r : Up × ℕ) → P r.0 → P (nuke_root_uuid system r).0
  unfolding nuke_root_uuid
  nuke_root_uuid-Keeps = unlink_recording-Keeps _ _ _ (λ d. (refl, refl, refl, refl, refl))

  nuke_labels-Keeps : Keeps P (nuke_labels system)
  unfolding nuke_labels
  nuke_labels-Keeps up h = stated _ no_label (
      nuke_root_uuid-Keeps _
        (nuke_label_details-Keeps _ (nuke_label_2x-Keeps _ (nuke_label-Keeps (up, 0) h))))

  move_labels-Keeps : Keeps P (move_labels system)
  unfolding move_labels
  move_labels-Keeps up h =
      let moved =
        written up (record (up.disk) { label = false; label_new = true })
          (refl, refl, refl, refl, refl) h in
      if-Op P (not up.disk.label) _ _ (stated up no_label h) (
        if-Op P (not (system.fails move_label == 0)) _ _ h
          (if-Op P (system.fails clear_type == 0) _ _ (stated _ no_label moved) moved))

  pub put_label_aside-Keeps : Keeps P (put_label_aside system)
  unfolding put_label_aside
  put_label_aside-Keeps up h =
      if-Op P system.expect_up_to_date _ _ (move_labels-Keeps up h) (nuke_labels-Keeps up h)

  drop_old_of_first-Keeps : Keeps P (drop_old_of_first system)
  unfolding drop_old_of_first
  drop_old_of_first-Keeps up h =
      if-Up P (system.fails unlink_old_of == 0) (write (record (up.disk) { of_old = none }) up) up
        (written up (record (up.disk) { of_old = none }) (refl, refl, refl, refl, refl) h) h

  move_of_booter-Keeps : Keeps P (move_of_booter system)
  unfolding move_of_booter
  move_of_booter-Keeps up h =
      if-Op P (not (has_file up.disk.of_booter)) (up, 0) _ h
        (if-Op P (system.fails rename_of == 0) _ (up, elast_1)
          (written up (record (up.disk) { of_old = up.disk.of_booter; of_booter = none })
            (refl, refl, refl, refl, refl) h)
          h)

  write_of_booter-Keeps : Keeps P (write_of_booter system)
  unfolding write_of_booter
  write_of_booter-Keeps up h =
      let begun = written up (with_of system false up).disk (refl, refl, refl, refl, refl) h in
      if-Op P (system.fails copy_of == 0) (with_of system true (with_of system false up), 0) _
        (written (with_of system false up) (with_of system true (with_of system false up)).disk
          (refl, refl, refl, refl, refl) begun)
        begun

  pub copy_of_booter-Keeps : Keeps P (copy_of_booter system)
  unfolding copy_of_booter
  copy_of_booter-Keeps =
      seq-Keeps P (drop_old_of_first system >> move_of_booter system) (write_of_booter system)
        (seq-Keeps P (drop_old_of_first system) (move_of_booter system) drop_old_of_first-Keeps
          move_of_booter-Keeps)
        write_of_booter-Keeps

  drop_old_efi_first-Keeps : Keeps P (drop_old_efi_first system)
  unfolding drop_old_efi_first
  drop_old_efi_first-Keeps up h =
      if-Up P (system.fails unlink_old_efi == 0) (write (record (up.disk) { efi_old = none }) up) up
        (written up (record (up.disk) { efi_old = none }) (refl, refl, refl, refl, refl) h) h

  move_efi_booter-Keeps : Keeps P (move_efi_booter system)
  unfolding move_efi_booter
  move_efi_booter-Keeps up h =
      if-Op P (not (has_file up.disk.efi_booter)) (up, 0) _ h
        (if-Op P (system.fails rename_efi == 0) _ (up, elast_1)
          (written up (record (up.disk) { efi_old = up.disk.efi_booter; efi_booter = none })
            (refl, refl, refl, refl, refl) h)
          h)

  write_efi_booter-Keeps : Keeps P (write_efi_booter system)
  unfolding write_efi_booter
  write_efi_booter-Keeps up h =
      let begun = written up (with_efi system false up).disk (refl, refl, refl, refl, refl) h in
      if-Op P (system.fails copy_efi == 0) (with_efi system true (with_efi system false up), 0) _
        (written (with_efi system false up) (with_efi system true (with_efi system false up)).disk
          (refl, refl, refl, refl, refl) begun)
        begun

  pub copy_efi_booter-Keeps : Keeps P (copy_efi_booter system)
  unfolding copy_efi_booter
  copy_efi_booter-Keeps =
      seq-Keeps P (drop_old_efi_first system >> move_efi_booter system) (write_efi_booter system)
        (seq-Keeps P (drop_old_efi_first system) (move_efi_booter system) drop_old_efi_first-Keeps
          move_efi_booter-Keeps)
        write_efi_booter-Keeps
