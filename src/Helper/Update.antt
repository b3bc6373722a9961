-- ===== src/Helper/Update.antt =====
-- update_boot.c: updateBootHelpers and the checks of one helper partition.
use kext_tools.Common.{
  ℕ, ◌+◌, Bool, true, false, not, List, [], ◌∷◌, if◌then◌else◌, ◌==◌, ◌&&◌, ◌||◌,
}
use kext_tools.Helper.Data.{
  MiscFile, Disk, nothing_serious, Up, mount, System, elast_1, Op, flat, write, ◌>>◌, when,
}
use kext_tools.Helper.Rps.{ucopy_rps, activate_rps, erase_previous}
use kext_tools.Helper.Labels.{nuke_labels, move_labels, ucopy_misc, activate_misc}
use kext_tools.Helper.Booters.{
  has_file, ucopy_booters, activate_booters, revert_state, drop_old_booters,
}

-- A misc file that the source has and the helper has not.
unfoldable pub misc_missing : List Bool → List MiscFile → Bool
misc_missing [] files = false
misc_missing (source ∷ sources) [] = false
misc_missing (source ∷ sources) (file ∷ files) =
    (source && not file.active) || misc_missing sources files

unfoldable pub check_boot_contents : System → Up → Up
check_boot_contents system up =
    if system.not_default
    then record up { do_rps = true; do_booters = true; do_misc = true }
    else record up {
      do_misc = up.do_misc || misc_missing system.misc_sources up.disk.misc;
      do_booters =
          up.do_booters
          || ((system.has_efi && not (has_file up.disk.efi_booter))
              || (system.has_of && not (has_file up.disk.of_booter)));
    }

unfoldable pub copy_misc_files : System → Op
copy_misc_files system up =
    (write (record (up.disk) { misc = ucopy_misc system 0 system.misc_sources up.disk.misc }) up, 0)

unfoldable pub put_label_aside : System → Op
put_label_aside system up =
    if system.expect_up_to_date then move_labels system up else nuke_labels system up

-- From ucopyMisc to activateBooters.
unfoldable pub renew_booters : System → Op
renew_booters system =
    when (λ up. up.do_misc) (copy_misc_files system)
    >> put_label_aside system
    >> when (λ up. up.do_booters) (ucopy_booters system)
    >> when (λ up. up.do_booters) (activate_booters system false)

unfoldable pub renew_misc : System → Op
renew_misc system up = activate_misc system up.do_misc up

-- From ucopyRPS to activateMisc.
unfoldable pub update_steps : System → Op
unfolding renew_booters renew_misc
update_steps system =
    when (λ up. up.do_rps) (ucopy_rps system)
    >> renew_booters system
    >> when (λ up. up.do_rps) (activate_rps system)
    >> renew_misc system
    >> (λ up. (record up { changestate = nothing_serious }, 0))

unfoldable pub nuke_fallbacks : System → Up → Up
nuke_fallbacks system up =
    let up' = (if up.do_booters then drop_old_booters system up else up) in
    if up'.do_rps then (erase_previous system up').0 else up'

-- One round of the loop: the helper, and the result that it leaves.
unfoldable pub update_helper : System → Op
update_helper system up =
    let started = record up { changestate = nothing_serious } in
    if not (system.fails mount == 0)
    then (started, system.fails mount)
    else (let (up', e) = update_steps system (check_boot_contents system started) in
        (nuke_fallbacks system (revert_state system up'), e))

pub record Flags : Type 0 where
  pub do_rps : Bool
  pub do_booters : Bool
  pub do_misc : Bool

abbrev pub opened : Flags → Disk → Up
opened flags d = record {
  disk = d;
  history = [];
  changestate = nothing_serious;
  do_rps = flags.do_rps;
  do_booters = flags.do_booters;
  do_misc = flags.do_misc;
  dst = flat;
}

pub record Updates : Type 0 where
  pub disks : List Disk
  pub bootupdates : ℕ
  pub result : ℕ

-- The loop over the helper partitions; what is to be updated carries over to the next one.
unfoldable pub update_loop : List (System × Disk) → Flags → ℕ → ℕ → Updates
update_loop [] flags bootupdates result = record {
  disks = [];
  bootupdates = bootupdates;
  result = result;
}
update_loop ((system, d) ∷ helpers) flags bootupdates result =
    let (up, e) = update_helper system (opened flags d) in
    let flags' : Flags = record {
      do_rps = up.do_rps;
      do_booters = up.do_booters;
      do_misc = up.do_misc;
    } in
    let rest = update_loop helpers flags' (if e == 0 then bootupdates + 1 else bootupdates) e in
    record rest { disks = up.disk ∷ rest.disks }

abbrev pub length_of : List (System × Disk) → ℕ
length_of [] = 0
length_of (h ∷ hs) = length_of hs + 1

-- The plist is statted first; its error is the result then.
unfoldable pub update_boot_helpers : ℕ → Bool → List (System × Disk) → Flags → Updates
update_boot_helpers stale helpers_optional helpers flags =
    if not (stale == 0)
    then record { disks = []; bootupdates = 0; result = stale }
    else (let done = update_loop helpers flags 0 0 in
        if not (done.bootupdates == length_of helpers) && not helpers_optional
        then record done { result = if done.result == 0 then elast_1 else done.result }
        else done)
