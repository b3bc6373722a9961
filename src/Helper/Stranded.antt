-- ===== src/Helper/Stranded.antt =====
-- update_boot.c: errors that leave a helper partition without the files that it starts from.
use kext_tools.Common.{ℕ, ◌≡◌, ◌≢◌, true, false, arith, some}
use kext_tools.Helper.Data.{
  BooterFile, Up, System, missing, whole, booter, freed_for_recovery, zero_file, unlink_dir,
  bless_recovery_info, sync_recovery, sync_booters, open_efi, set_boot_info, set_nvram, unlink_efi,
  restore_efi,
}
use kext_tools.Helper.Rps.{
  found, erase_rps, bless_recovery, erase_rps_if_recovery_blessed, choose_target,
}
use kext_tools.Helper.Labels.{rename_misc_step, move_label_back, activate_misc}
use kext_tools.Helper.Booters.{
  open_booter, bless_booter, activate_booters, unlink_new_efi, rename_old_efi, restore_efi_booter,
  restore_of_booter, revert_state,
}
use kext_tools.Helper.Safe.{is_recovery, has_boot_files}

-- Where blessing the recovery system fails and the flush behind it succeeds, ucopyRPS erases the
-- directory that the booter finds, though the recovery system is not blessed: when it is the only
-- one and can be erased, neither the recovery system is blessed nor a complete directory there
-- while the new files are copied.
pub recovery_not_blessed :
    (system : System) (up : Up) (v : ℕ)
    → system.to_flat ≡ false
    → up.disk.has_recovery ≡ true
    → is_recovery up.disk.blessed ≡ false
    → up.disk.r_dir ≡ whole v
    → up.disk.p_dir ≡ missing
    → up.disk.s_dir ≡ missing
    → system.fails bless_recovery_info ≢ 0
    → system.fails sync_recovery ≡ 0
    → system.fails (zero_file freed_for_recovery) ≡ 0
    → system.fails (unlink_dir freed_for_recovery) ≡ 0
    → has_boot_files (choose_target system (found up.disk) up).disk ≡ false
unfolding choose_target erase_rps_if_recovery_blessed bless_recovery erase_rps
recovery_not_blessed system up v t has other r p s bad flushed zeroed unlinked = ground arith

-- When the booter in place has been blessed and setting the boot device fails, the update is
-- rolled back as if nothing had been blessed: the old booter is in place again, and the file that
-- is blessed is gone.
pub blessed_booter_unlinked :
    (system : System) (up : Up) (new old : BooterFile)
    → system.has_efi ≡ true
    → system.has_of ≡ false
    → system.bless_default ≡ true
    → system.sets_nvram ≡ true
    → up.disk.efi_booter ≡ some new
    → up.disk.efi_old ≡ some old
    → system.fails (sync_booters false) ≡ 0
    → system.fails (open_efi false) ≡ 0
    → system.fails (set_boot_info false) ≡ 0
    → system.fails (set_nvram false) ≢ 0
    → system.fails unlink_efi ≡ 0
    → system.fails restore_efi ≡ 0
    → (((activate_booters system false) up).1 ≡ 19)
      × ((revert_state system (activate_booters system false up).0).disk.efi_booter ≡ some old)
      × ((revert_state system (activate_booters system false up).0).disk.blessed ≡ booter new.id)
unfolding activate_booters open_booter bless_booter revert_state restore_efi_booter
    restore_of_booter unlink_new_efi rename_old_efi activate_misc rename_misc_step move_label_back
blessed_booter_unlinked system up new old e o b n inplace aside f1 f2 f3 f4 f5 f6 =
    (ground arith, ground arith, ground arith)
