-- ===== src/Helper/Booters.antt =====
-- update_boot.c: the booters, and the roll-back of a failed update.
use kext_tools.Common.{ℕ, Bool, true, false, not, Option, none, some, if◌then◌else◌, ◌==◌, ◌&&◌}
use kext_tools.Helper.Data.{
  booter, BooterFile, Disk, nothing_serious, no_label, copying_of, copying_efi, copied_booters,
  activating_of, activating_efi, activated_booters, Up, Call, unlink_old_of, rename_of, copy_of,
  unlink_old_efi, rename_efi, copy_efi, sync_booters, open_of, open_efi, set_boot_info, set_nvram,
  unlink_of, restore_of, unlink_efi, restore_efi, drop_old_of, drop_old_efi, System, enoent,
  elast_1, Op, write, ◌>>◌, when,
}
use kext_tools.Helper.Labels.{now, activate_misc}

abbrev pub has_file : Option BooterFile → Bool
has_file none = false
has_file (some f) = true

-- One booter: the old copy goes, the one in place becomes the old one, and the new one is copied.
unfoldable pub drop_old_of_first : System → Op
drop_old_of_first system up = (
  if system.fails unlink_old_of == 0 then write (record (up.disk) { of_old = none }) up else up,
  0,
)

-- Renaming a booter that is missing is no error.
unfoldable pub move_of_booter : System → Op
move_of_booter system up =
    if not (has_file up.disk.of_booter)
    then (up, 0)
    else if system.fails rename_of == 0
    then (write (record (up.disk) { of_old = up.disk.of_booter; of_booter = none }) up, 0)
    else (up, elast_1)

abbrev pub with_of : System → Bool → Up → Up
with_of system complete up =
    write
      (record (up.disk) {
        of_booter = some (record { id = system.new_of_id; complete = complete });
      })
      up

unfoldable pub write_of_booter : System → Op
write_of_booter system up =
    let begun = with_of system false up in
    if system.fails copy_of == 0
    then (with_of system true begun, 0)
    else (begun, system.fails copy_of)

unfoldable pub copy_of_booter : System → Op
unfolding drop_old_of_first move_of_booter write_of_booter
copy_of_booter system = drop_old_of_first system >> move_of_booter system >> write_of_booter system

unfoldable pub drop_old_efi_first : System → Op
drop_old_efi_first system up = (
  if system.fails unlink_old_efi == 0 then write (record (up.disk) { efi_old = none }) up else up,
  0,
)

-- Renaming a booter that is missing is no error.
unfoldable pub move_efi_booter : System → Op
move_efi_booter system up =
    if not (has_file up.disk.efi_booter)
    then (up, 0)
    else if system.fails rename_efi == 0
    then (write (record (up.disk) { efi_old = up.disk.efi_booter; efi_booter = none }) up, 0)
    else (up, elast_1)

abbrev pub with_efi : System → Bool → Up → Up
with_efi system complete up =
    write
      (record (up.disk) {
        efi_booter = some (record { id = system.new_efi_id; complete = complete });
      })
      up

unfoldable pub write_efi_booter : System → Op
write_efi_booter system up =
    let begun = with_efi system false up in
    if system.fails copy_efi == 0
    then (with_efi system true begun, 0)
    else (begun, if system.helpers_optional then elast_1 else system.fails copy_efi)

unfoldable pub copy_efi_booter : System → Op
unfolding drop_old_efi_first move_efi_booter write_efi_booter
copy_efi_booter system =
    drop_old_efi_first system >> move_efi_booter system >> write_efi_booter system

unfoldable pub ucopy_booters : System → Op
unfolding copy_of_booter copy_efi_booter
ucopy_booters system =
    now copying_of
    >> when (λ _. system.has_of) (copy_of_booter system)
    >> now copying_efi
    >> when (λ _. system.has_efi) (copy_efi_booter system)
    >> now copied_booters

abbrev pub of_at : Bool → Disk → Option BooterFile
of_at old d = if old then d.of_old else d.of_booter

abbrev pub efi_at : Bool → Disk → Option BooterFile
efi_at old d = if old then d.efi_old else d.efi_booter

-- Opening a booter, which may be missing.
unfoldable pub open_booter : System → Call → (Disk → Option BooterFile) → Op
open_booter system call file up =
    if has_file (file up.disk) then (up, system.fails call) else (up, enoent)

abbrev pub id_of : Option BooterFile → ℕ
id_of none = 0
id_of (some f) = f.id

-- The file ID that is blessed, 0 where there is no EFI booter.
unfoldable pub bless_booter : System → Bool → Op
bless_booter system old up =
    if system.fails (set_boot_info old) == 0
    then (
      write
          (record (up.disk) {
            blessed = booter (if system.has_efi then id_of (efi_at old up.disk) else 0);
          })
          up,
      0,
    )
    else (up, system.fails (set_boot_info old))

-- activateBooters, for the booters in place or for the old ones; ENODEV is 19.
unfoldable pub activate_booters : System → Bool → Op
unfolding open_booter bless_booter
activate_booters system old =
    (λ up. (up, system.fails (sync_booters old)))
    >> now activating_of
    >> when (λ _. system.has_of) (open_booter system (open_of old) (of_at old))
    >> now activating_efi
    >> when (λ _. system.has_efi) (open_booter system (open_efi old) (efi_at old))
    >> when (λ _. system.bless_default) (bless_booter system old)
    >> when (λ _. system.sets_nvram)
        (λ up. (up, if system.fails (set_nvram old) == 0 then 0 else 19))
    >> now activated_booters

unfoldable pub unlink_new_efi : System → Up → Up
unlink_new_efi system up =
    if system.fails unlink_efi == 0 then write (record (up.disk) { efi_booter = none }) up else up

unfoldable pub rename_old_efi : System → Up → Up
rename_old_efi system up =
    if system.fails restore_efi == 0
    then write (record (up.disk) { efi_booter = up.disk.efi_old; efi_old = none }) up
    else up

unfoldable pub restore_efi_booter : System → Up → Up
unfolding unlink_new_efi rename_old_efi
restore_efi_booter system up =
    if system.has_efi && has_file up.disk.efi_old
    then rename_old_efi system (unlink_new_efi system up)
    else up

unfoldable pub unlink_new_of : System → Up → Up
unlink_new_of system up =
    if system.fails unlink_of == 0 then write (record (up.disk) { of_booter = none }) up else up

unfoldable pub rename_old_of : System → Up → Up
rename_old_of system up =
    if system.fails restore_of == 0
    then write (record (up.disk) { of_booter = up.disk.of_old; of_old = none }) up
    else up

unfoldable pub restore_of_booter : System → Up → Up
unfolding unlink_new_of rename_old_of
restore_of_booter system up =
    if system.has_of && has_file up.disk.of_old
    then rename_old_of system (unlink_new_of system up)
    else up

abbrev pub restore_label : System → Up → Up
restore_label system up = (activate_misc system false up).0

-- The cases of revertState's switch fall through.
unfoldable pub revert_state : System → Up → Up
revert_state system up = elim up.changestate [
  | nothing_serious ↦ up
  | no_label ↦ restore_label system up
  | copying_of ↦ restore_label system (restore_of_booter system up)
  | activated_booters ↦
      restore_label system
        (restore_of_booter system (restore_efi_booter system (activate_booters system true up).0))
  | _ ↦ restore_label system (restore_of_booter system (restore_efi_booter system up))
]

unfoldable pub drop_old_of_last : System → Up → Up
drop_old_of_last system up =
    if system.has_of && (has_file up.disk.of_old && (system.fails drop_old_of == 0))
    then write (record (up.disk) { of_old = none }) up
    else up

unfoldable pub drop_old_efi_last : System → Up → Up
drop_old_efi_last system up =
    if system.has_efi && (has_file up.disk.efi_old && (system.fails drop_old_efi == 0))
    then write (record (up.disk) { efi_old = none }) up
    else up

-- The first half of nukeFallbacks.
unfoldable pub drop_old_booters : System → Up → Up
unfolding drop_old_of_last drop_old_efi_last
drop_old_booters system up = drop_old_efi_last system (drop_old_of_last system up)
