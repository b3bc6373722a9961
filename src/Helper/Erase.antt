-- ===== src/Helper/Erase.antt =====
-- update_boot.c: BREraseBootFiles.
use kext_tools.Common.{ℕ, ◌+◌, false, not, none, List, [], ◌∷◌, if◌then◌else◌, ◌==◌}
use kext_tools.Helper.Data.{
  recerr, missing, nothing_blessed, MiscFile, rps, Up, erased_previous, erased_current, erased_next,
  mount, unbless, erase_of, erase_efi, erase_once, erase_misc, System, Op, write, exists,
}
use kext_tools.Helper.Rps.{Found, found, erase_rps, find_rps_dir, bless_recovery}
use kext_tools.Helper.Labels.{unlink_recording, nuke_labels}
use kext_tools.Helper.Booters.{has_file}

-- The next step, and RECERR on its result.
abbrev pub recording : Op → Up × ℕ → Up × ℕ
recording step (up, first) = let (up', e) = step up in (up', recerr e first)

-- The recovery system is blessed, or nothing is.
unfoldable pub bless_or_unbless : System → Op
unfolding bless_recovery
bless_or_unbless system up =
    let (up', e) = bless_recovery system up in
    if e == 0
    then (up', 0)
    else if system.fails unbless == 0
    then (write (record (up'.disk) { blessed = nothing_blessed }) up', 0)
    else (up', system.fails unbless)

unfoldable pub erase_of_booter : System → Up × ℕ → Up × ℕ
unfolding unlink_recording
erase_of_booter system (up, first) =
    if system.has_of
    then unlink_recording system erase_of (λ d. has_file d.of_booter)
        (λ d. record d { of_booter = none }) (up, first)
    else (up, first)

unfoldable pub erase_efi_booter : System → Up × ℕ → Up × ℕ
unfolding unlink_recording
erase_efi_booter system (up, first) =
    if system.has_efi
    then unlink_recording system erase_efi (λ d. has_file d.efi_booter)
        (λ d. record d { efi_booter = none }) (up, first)
    else (up, first)

-- The three directories, by the names that FindRPSDir finds.
unfoldable pub erase_found : System → Found → Up × ℕ → Up × ℕ
unfolding erase_rps
erase_found system f r = recording (erase_rps system erased_next (rps f.next)) (
    recording (erase_rps system erased_current (rps f.current))
      (recording (erase_rps system erased_previous (rps f.previous)) r))

unfoldable pub erase_all_rps : System → Up × ℕ → Up × ℕ
unfolding find_rps_dir erase_found
erase_all_rps system (up, first) =
    let f = found up.disk in
    let (up', e) = find_rps_dir system up in
    if e == 0 then erase_found system f (up', first) else (up', recerr e first)

-- The misc files, and the first error.
unfoldable pub erase_misc_files : System → ℕ → List MiscFile → ℕ → List MiscFile × ℕ
erase_misc_files system i [] first = ([], first)
erase_misc_files system i (file ∷ files) first =
    let gone = not file.active in
    let fails = (if gone then 0 else system.fails (erase_misc i)) in
    let (files', first') = erase_misc_files system (i + 1) files (recerr fails first) in
    ((if fails == 0 then record file { active = false } else file) ∷ files', first')

unfoldable pub erase_all_misc : System → Up × ℕ → Up × ℕ
unfolding erase_misc_files
erase_all_misc system (up, first) =
    let (files, first') = erase_misc_files system 0 up.disk.misc first in
    (write (record (up.disk) { misc = files }) up, first')

-- com.apple.boot.once.
unfoldable pub erase_once_dir : System → Up × ℕ → Up × ℕ
unfolding unlink_recording
erase_once_dir system =
    unlink_recording system erase_once (λ d. exists d.flat_dir)
      (λ d. record d { flat_dir = missing })

unfoldable pub erase_boot_files : System → Op
unfolding bless_or_unbless erase_of_booter erase_efi_booter erase_all_rps erase_all_misc
    erase_once_dir
erase_boot_files system up =
    if not (system.fails mount == 0)
    then (up, system.fails mount)
    else erase_once_dir system (
        erase_all_misc system (
          erase_all_rps system (
            erase_efi_booter system (
              erase_of_booter system
                (recording (nuke_labels system) (bless_or_unbless system up))))))
