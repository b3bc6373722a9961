-- ===== src/Helper/Tests.antt =====
-- Tests of the updates of helper partitions, and their theorems at concrete partitions.
use kext_tools.Common.{ℕ, ◌≡◌, refl, true, false, none, some, List, [], ◌∷◌, arith, ◌↔◌}
use kext_tools.Helper.Data.{
  unlink_dir, erased_current, partial, BooterFile, Disk, Up, Call, System, ◌>>◌, missing, whole,
  booter, bless_recovery_info, set_boot_info, set_nvram,
}
use kext_tools.Helper.Rps.{
  found, erase_rps, find_rps_dir, bless_recovery, erase_rps_if_recovery_blessed, copy_items,
  make_target, erase_target, copy_files, write_props, fill_target, choose_target, ucopy_rps,
  rename_previous, sync, activate_rps, erase_previous,
}
use kext_tools.Helper.Labels.{
  unlink_recording, nuke_label, nuke_label_2x, nuke_label_details, nuke_root_uuid, nuke_labels,
  move_labels, ucopy_misc, rename_misc_files, rename_misc_step, move_label_back, activate_misc,
}
use kext_tools.Helper.Booters.{
  drop_old_of_first, move_of_booter, write_of_booter, copy_of_booter, drop_old_efi_first,
  move_efi_booter, write_efi_booter, copy_efi_booter, ucopy_booters, open_booter, bless_booter,
  activate_booters, unlink_new_efi, rename_old_efi, restore_efi_booter, unlink_new_of,
  rename_old_of, restore_of_booter, revert_state, drop_old_of_last, drop_old_efi_last,
  drop_old_booters,
}
use kext_tools.Helper.Update.{
  misc_missing, check_boot_contents, copy_misc_files, put_label_aside, renew_booters, renew_misc,
  update_steps, nuke_fallbacks, update_helper, Flags, opened, update_loop, length_of,
  update_boot_helpers,
}
use kext_tools.Helper.Safe.{current_dir, has_boot_files, AllHaveFiles}
use kext_tools.Helper.Erase.{
  bless_or_unbless, erase_of_booter, erase_efi_booter, erase_found, erase_all_rps, erase_misc_files,
  erase_all_misc, erase_once_dir, erase_boot_files,
}
use kext_tools.Helper.Crash.{CanUpdate, update_helper-AllHaveFiles, update_helper-version}
use kext_tools.Helper.Rollback.{booters-restored}
use kext_tools.Helper.Loop.{update_boot_helpers-all}
use kext_tools.Helper.Stranded.{recovery_not_blessed, blessed_booter_unlinked}

abbrev efi_file : BooterFile
efi_file = record { id = 7; complete = true }

abbrev new_file : BooterFile
new_file = record { id = 9; complete = true }

-- Version 1 in com.apple.boot.R, an EFI booter and a label.
abbrev helper_disk : Disk
helper_disk = record {
  r_dir = whole 1;
  p_dir = missing;
  s_dir = missing;
  flat_dir = missing;
  has_recovery = false;
  blessed = booter 7;
  of_booter = none;
  of_old = none;
  efi_booter = some efi_file;
  efi_old = none;
  label = true;
  label_new = false;
  label_2x = false;
  label_details = false;
  root_uuid = true;
  misc = [];
}

abbrev no_failure : Call → ℕ
no_failure call = 0

abbrev fails_set_boot_info : Call → ℕ
fails_set_boot_info (set_boot_info old) = 5
fails_set_boot_info _ = 0

abbrev fails_set_nvram : Call → ℕ
fails_set_nvram (set_nvram old) = 5
fails_set_nvram _ = 0

abbrev fails_bless_recovery : Call → ℕ
fails_bless_recovery bless_recovery_info = 5
fails_bless_recovery _ = 0

abbrev to_version_2 : (Call → ℕ) → System
to_version_2 fails = record {
  fails = fails;
  items = [];
  version = 2;
  to_flat = false;
  recovery_asked = false;
  writes_props = true;
  zeroes_props = false;
  has_of = false;
  has_efi = true;
  new_of_id = 8;
  new_efi_id = 9;
  bless_default = true;
  sets_nvram = true;
  expect_up_to_date = true;
  misc_sources = [];
  not_default = false;
  helpers_optional = false;
}

abbrev all_flags : Flags
all_flags = record { do_rps = true; do_booters = true; do_misc = true }

abbrev started : Up
started = opened all_flags helper_disk

abbrev calm : System
calm = to_version_2 no_failure

-- Everything succeeds: version 2 and the new booter are left, and the old ones are gone.
updated_disk : (update_helper calm started).0.disk ≡ record helper_disk {
  r_dir = missing;
  p_dir = whole 2;
  blessed = booter 9;
  efi_booter = some new_file;
}
unfolding erase_rps find_rps_dir bless_recovery erase_rps_if_recovery_blessed copy_items make_target
    erase_target copy_files write_props fill_target choose_target ucopy_rps rename_previous sync
    activate_rps erase_previous unlink_recording nuke_label nuke_label_2x nuke_label_details
    nuke_root_uuid nuke_labels move_labels drop_old_of_first move_of_booter write_of_booter
    copy_of_booter drop_old_efi_first move_efi_booter write_efi_booter copy_efi_booter ucopy_booters
    open_booter bless_booter activate_booters ucopy_misc rename_misc_files rename_misc_step
    move_label_back activate_misc unlink_new_efi rename_old_efi restore_efi_booter unlink_new_of
    rename_old_of restore_of_booter revert_state drop_old_of_last drop_old_efi_last drop_old_booters
    misc_missing check_boot_contents copy_misc_files put_label_aside renew_booters renew_misc
    update_steps nuke_fallbacks update_helper update_loop update_boot_helpers
updated_disk = refl

failed_result : (update_helper (to_version_2 fails_set_boot_info) started).1 ≡ 5
unfolding erase_rps find_rps_dir bless_recovery erase_rps_if_recovery_blessed copy_items make_target
    erase_target copy_files write_props fill_target choose_target ucopy_rps rename_previous sync
    activate_rps erase_previous unlink_recording nuke_label nuke_label_2x nuke_label_details
    nuke_root_uuid nuke_labels move_labels drop_old_of_first move_of_booter write_of_booter
    copy_of_booter drop_old_efi_first move_efi_booter write_efi_booter copy_efi_booter ucopy_booters
    open_booter bless_booter activate_booters ucopy_misc rename_misc_files rename_misc_step
    move_label_back activate_misc unlink_new_efi rename_old_efi restore_efi_booter unlink_new_of
    rename_old_of restore_of_booter revert_state drop_old_of_last drop_old_efi_last drop_old_booters
    misc_missing check_boot_contents copy_misc_files put_label_aside renew_booters renew_misc
    update_steps nuke_fallbacks update_helper update_loop update_boot_helpers
failed_result = refl

-- The old booter is back, and the directories are as before.
failed_disk :
    (update_helper (to_version_2 fails_set_boot_info) started).0.disk
    ≡ record helper_disk { s_dir = missing }
unfolding erase_rps find_rps_dir bless_recovery erase_rps_if_recovery_blessed copy_items make_target
    erase_target copy_files write_props fill_target choose_target ucopy_rps rename_previous sync
    activate_rps erase_previous unlink_recording nuke_label nuke_label_2x nuke_label_details
    nuke_root_uuid nuke_labels move_labels drop_old_of_first move_of_booter write_of_booter
    copy_of_booter drop_old_efi_first move_efi_booter write_efi_booter copy_efi_booter ucopy_booters
    open_booter bless_booter activate_booters ucopy_misc rename_misc_files rename_misc_step
    move_label_back activate_misc unlink_new_efi rename_old_efi restore_efi_booter unlink_new_of
    rename_old_of restore_of_booter revert_state drop_old_of_last drop_old_efi_last drop_old_booters
    misc_missing check_boot_contents copy_misc_files put_label_aside renew_booters renew_misc
    update_steps nuke_fallbacks update_helper update_loop update_boot_helpers
failed_disk = refl

started-CanUpdate : CanUpdate calm started
started-CanUpdate = record {
  in_place = refl;
  frees = record { blesses = refl; zeroes = refl; unlinks = refl };
  complete = refl;
  unwritten = refl;
}

update_helper-AllHaveFiles_example :
    (has_boot_files (update_helper calm started).0.disk ≡ true)
    × AllHaveFiles (update_helper calm started).0.history
update_helper-AllHaveFiles_example = update_helper-AllHaveFiles calm started started-CanUpdate

update_helper-version_example : current_dir (update_helper calm started).0.disk ≡ whole 2
unfolding erase_rps find_rps_dir bless_recovery erase_rps_if_recovery_blessed copy_items make_target
    erase_target copy_files write_props fill_target choose_target ucopy_rps rename_previous sync
    activate_rps erase_previous unlink_recording nuke_label nuke_label_2x nuke_label_details
    nuke_root_uuid nuke_labels move_labels drop_old_of_first move_of_booter write_of_booter
    copy_of_booter drop_old_efi_first move_efi_booter write_efi_booter copy_efi_booter ucopy_booters
    open_booter bless_booter activate_booters ucopy_misc rename_misc_files rename_misc_step
    move_label_back activate_misc unlink_new_efi rename_old_efi restore_efi_booter unlink_new_of
    rename_old_of restore_of_booter revert_state drop_old_of_last drop_old_efi_last drop_old_booters
    misc_missing check_boot_contents copy_misc_files put_label_aside renew_booters renew_misc
    update_steps nuke_fallbacks update_helper update_loop update_boot_helpers
update_helper-version_example = update_helper-version calm started started-CanUpdate refl refl

abbrev unblessed : System
unblessed = to_version_2 fails_set_boot_info

abbrev rolled_back : Up
rolled_back =
    revert_state unblessed ((ucopy_booters unblessed >> activate_booters unblessed false) started).0

booters-restored_example :
    (rolled_back.disk.efi_booter ≡ some efi_file) × (rolled_back.disk.blessed ≡ booter 7)
unfolding erase_rps find_rps_dir bless_recovery erase_rps_if_recovery_blessed copy_items make_target
    erase_target copy_files write_props fill_target choose_target ucopy_rps rename_previous sync
    activate_rps erase_previous unlink_recording nuke_label nuke_label_2x nuke_label_details
    nuke_root_uuid nuke_labels move_labels drop_old_of_first move_of_booter write_of_booter
    copy_of_booter drop_old_efi_first move_efi_booter write_efi_booter copy_efi_booter ucopy_booters
    open_booter bless_booter activate_booters ucopy_misc rename_misc_files rename_misc_step
    move_label_back activate_misc unlink_new_efi rename_old_efi restore_efi_booter unlink_new_of
    rename_old_of restore_of_booter revert_state drop_old_of_last drop_old_efi_last drop_old_booters
    misc_missing check_boot_contents copy_misc_files put_label_aside renew_booters renew_misc
    update_steps nuke_fallbacks update_helper update_loop update_boot_helpers
booters-restored_example =
    booters-restored unblessed started efi_file refl refl refl refl refl (ground arith)

abbrev not_stale : ℕ
not_stale = 0

abbrev two_helpers : List (System × Disk)
two_helpers = (calm, helper_disk) ∷ (unblessed, helper_disk) ∷ []

update_boot_helpers-all_example :
    ((update_boot_helpers not_stale false two_helpers all_flags).result ≡ 0) ↔ (
      (not_stale ≡ 0)
      × ((update_loop two_helpers all_flags 0 0).bootupdates ≡ length_of two_helpers))
update_boot_helpers-all_example = update_boot_helpers-all not_stale two_helpers all_flags

abbrev with_recovery : Up
with_recovery = record started { disk = record helper_disk { has_recovery = true } }

abbrev unrecovered : System
unrecovered = to_version_2 fails_bless_recovery

recovery_not_blessed_example :
    has_boot_files (choose_target unrecovered (found with_recovery.disk) with_recovery).disk ≡ false
recovery_not_blessed_example =
    recovery_not_blessed unrecovered with_recovery 1 refl refl refl refl refl refl (ground arith)
      refl refl refl

abbrev no_nvram : System
no_nvram = to_version_2 fails_set_nvram

abbrev copied : Up
copied = record started {
  disk = record helper_disk { efi_booter = some new_file; efi_old = some efi_file };
}

blessed_booter_unlinked_example :
    (((activate_booters no_nvram false) copied).1 ≡ 19)
    × ((revert_state no_nvram (activate_booters no_nvram false copied).0).disk.efi_booter
        ≡ some efi_file)
    × ((revert_state no_nvram (activate_booters no_nvram false copied).0).disk.blessed ≡ booter 9)
blessed_booter_unlinked_example =
    blessed_booter_unlinked no_nvram copied new_file efi_file refl refl refl refl refl refl refl
      refl refl (ground arith) refl refl

-- A stale errno: the directory is not erased, and the result is 0.
abbrev stale_errno : Call → ℕ
stale_errno (unlink_dir erased_current) = 2
stale_errno _ = 0

directory_left :
    ((erase_boot_files (to_version_2 stale_errno) started).1 ≡ 0)
    × ((erase_boot_files (to_version_2 stale_errno) started).0.disk.r_dir ≡ partial)
unfolding erase_boot_files bless_or_unbless erase_of_booter erase_efi_booter erase_found
    erase_all_rps erase_misc_files erase_all_misc erase_once_dir bless_recovery unlink_recording
    nuke_label nuke_label_2x nuke_label_details nuke_root_uuid nuke_labels find_rps_dir erase_rps
directory_left = (refl, refl)
