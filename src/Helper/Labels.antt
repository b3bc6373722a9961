-- ===== src/Helper/Labels.antt =====
-- update_boot.c: the labels and the files that are read before the booter runs.
use kext_tools.Common.{ℕ, ◌+◌, Bool, true, false, not, List, [], ◌∷◌, if◌then◌else◌, ◌==◌, ◌&&◌}
use kext_tools.Helper.Data.{
  recerr, MiscFile, Disk, Reversion, no_label, Up, Call, unlink_label, unlink_2x, unlink_details,
  unlink_uuid, move_label, clear_type, type_label, label_back, copy_misc, rename_misc, System,
  elast_1, Op, write,
}

abbrev pub now : Reversion → Op
now state up = (record up { changestate = state }, 0)

-- A file that is there is unlinked, with RECERR on the result.
unfoldable pub unlink_recording : System → Call → (Disk → Bool) → (Disk → Disk) → Up × ℕ → Up × ℕ
unlink_recording system call there without (up, first) =
    if not (there up.disk)
    then (up, first)
    else if system.fails call == 0
    then (write (without up.disk) up, first)
    else (up, recerr (system.fails call) first)

unfoldable pub nuke_label : System → Up × ℕ → Up × ℕ
unfolding unlink_recording
nuke_label system =
    unlink_recording system unlink_label (λ d. d.label) (λ d. record d { label = false })

unfoldable pub nuke_label_2x : System → Up × ℕ → Up × ℕ
unfolding unlink_recording
nuke_label_2x system =
    unlink_recording system unlink_2x (λ d. d.label_2x) (λ d. record d { label_2x = false })

unfoldable pub nuke_label_details : System → Up × ℕ → Up × ℕ
unfolding unlink_recording
nuke_label_details system =
    unlink_recording system unlink_details (λ d. d.label_details)
      (λ d. record d { label_details = false })

unfoldable pub nuke_root_uuid : System → Up × ℕ → Up × ℕ
unfolding unlink_recording
nuke_root_uuid system =
    unlink_recording system unlink_uuid (λ d. d.root_uuid) (λ d. record d { root_uuid = false })

unfoldable pub nuke_labels : System → Op
unfolding nuke_label nuke_label_2x nuke_label_details nuke_root_uuid
nuke_labels system up =
    let (up', first) =
      nuke_root_uuid system
        (nuke_label_details system (nuke_label_2x system (nuke_label system (up, 0)))) in
    (record up' { changestate = no_label }, first)

unfoldable pub move_labels : System → Op
move_labels system up =
    if not up.disk.label
    then now no_label up
    else if not (system.fails move_label == 0)
    then (up, system.fails move_label)
    else (let moved = write (record (up.disk) { label = false; label_new = true }) up in
        if system.fails clear_type == 0 then now no_label moved else (moved, 0))

unfoldable pub ucopy_misc : System → ℕ → List Bool → List MiscFile → List MiscFile
ucopy_misc system i (source ∷ sources) (file ∷ files) =
    (if source && (system.fails (copy_misc i) == 0) then record file { fresh = true } else file)
    ∷ ucopy_misc system (i + 1) sources files
ucopy_misc system i [] files = files
ucopy_misc system i (source ∷ sources) [] = []

-- The files, and whether each was processed.
unfoldable pub rename_misc_files : System → ℕ → List MiscFile → List MiscFile × Bool
rename_misc_files system i [] = ([], true)
rename_misc_files system i (file ∷ files) =
    let (files', all) = rename_misc_files system (i + 1) files in
    if not file.fresh
    then (file ∷ files', all)
    else if system.fails (rename_misc i) == 0
    then (record { active = true; fresh = false } ∷ files', all)
    else (file ∷ files', false)

-- The files, and whether all were processed.
unfoldable pub rename_misc_step : System → Bool → Up → Up × Bool
rename_misc_step system do_misc up =
    if do_misc
    then (let (misc, all) = rename_misc_files system 0 up.disk.misc in
        (write (record (up.disk) { misc = misc }) up, all))
    else (up, true)

unfoldable pub move_label_back : System → Up → Up
move_label_back system up =
    if up.disk.label_new && (system.fails label_back == 0)
    then write (record (up.disk) { label = true; label_new = false }) up
    else up

unfoldable pub activate_misc : System → Bool → Op
unfolding rename_misc_step move_label_back
activate_misc system do_misc up =
    let (renamed, all) = rename_misc_step system do_misc up in
    let labelled = move_label_back system renamed in
    if labelled.disk.label && not (system.fails type_label == 0)
    then (labelled, elast_1)
    else (labelled, if all then 0 else 1)
