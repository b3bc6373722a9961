-- ===== src/Helper/Rps.antt =====
-- update_boot.c: the directories of the files that the booter reads.
use kext_tools.Common.{ℕ, Bool, true, false, not, List, [], ◌∷◌, if◌then◌else◌, ◌==◌, ◌&&◌}
use kext_tools.Helper.Data.{
  Name, rock, paper, scissors, missing, partial, whole, recovery, Disk, Target, rps, flat, Up, Site,
  extra_paper, stale_target, freed_for_recovery, fallback, zero_file, unlink_dir, make_dir,
  write_flat_props, rename_rps, sync_rps, bless_recovery_info, sync_recovery, Item, System, enoent,
  elast_1, Op, write, ◌>>◌, when, get, set, exists, same_name,
}

pub record Found : Type 0 where
  pub previous : Name
  pub current : Name
  pub next : Name

-- FindRPSDir's choice: paper beats rock, scissors beat paper, rock beats scissors.
abbrev pub names_of : Bool → Bool → Bool → Found
names_of true true true = record { current = rock; next = paper; previous = scissors }
names_of true true false = record { current = paper; next = scissors; previous = rock }
names_of true false true = record { current = rock; next = paper; previous = scissors }
names_of false true true = record { current = scissors; next = rock; previous = paper }
names_of true false false = record { current = rock; next = paper; previous = scissors }
names_of false true false = record { current = paper; next = scissors; previous = rock }
names_of false false true = record { current = scissors; next = rock; previous = paper }
names_of false false false = record { current = rock; next = paper; previous = scissors }

abbrev pub found : Disk → Found
found d = names_of (exists d.r_dir) (exists d.p_dir) (exists d.s_dir)

-- A directory whose property cache is overwritten counts as partial, and so does one of which
-- some files are unlinked.
unfoldable pub erase_rps : System → Site → Target → Op
erase_rps system site target up =
    if not (exists (get target up.disk))
    then (up, 0)
    else if system.zeroes_props && not (system.fails (zero_file site) == 0)
    then (up, elast_1)
    else (let begun = write (set target partial up.disk) up in
        if system.fails (unlink_dir site) == 0
        then (write (set target missing begun.disk) begun, 0)
        else (begun, system.fails (unlink_dir site)))

-- What FindRPSDir does to the partition; its choice is the one for the directories before.
unfoldable pub find_rps_dir : System → Op
unfolding erase_rps
find_rps_dir system up =
    if exists up.disk.r_dir && (exists up.disk.p_dir && exists up.disk.s_dir)
    then erase_rps system extra_paper (rps paper) up
    else (up, 0)

-- The result of the blessing itself is overwritten by that of the flush.
unfoldable pub bless_recovery : System → Op
bless_recovery system up =
    if not up.disk.has_recovery
    then (up, enoent)
    else (let up' =
          (if system.fails bless_recovery_info == 0
            then write (record (up.disk) { blessed = recovery }) up
            else up) in
        (up', system.fails sync_recovery))

unfoldable pub erase_rps_if_recovery_blessed : System → Name → Up → Up
unfolding bless_recovery erase_rps
erase_rps_if_recovery_blessed system name up =
    let (up', e) = bless_recovery system up in
    if e == 0
    then record (erase_rps system freed_for_recovery (rps name) up').0 { do_booters = true }
    else up'

-- The loop over rpspaths, with the extra kernel caches in front.
unfoldable pub copy_items : List Item → ℕ
copy_items [] = 0
copy_items (item ∷ items) =
    let rest = copy_items items in
    if item.skipped
    then rest
    else if item.error == 0
    then rest
    else if item.optional && (item.error == enoent)
    then rest
    else item.error

unfoldable pub make_target : System → Op
make_target system up =
    if system.fails make_dir == 0
    then (write (set up.dst partial up.disk) up, 0)
    else (up, system.fails make_dir)

unfoldable pub erase_target : System → Op
erase_target system up = erase_rps system stale_target up.dst up

unfoldable pub copy_files : System → Op
unfolding copy_items
copy_files system up = (up, copy_items system.items)

unfoldable pub write_props : System → Op
write_props system up =
    (up, if system.to_flat && system.writes_props then system.fails write_flat_props else 0)

-- The directory has all files now.
abbrev pub whole_target : System → Op
whole_target system up = (write (set up.dst (whole system.version) up.disk) up, 0)

-- ucopyRPS from where dstdir is known.
unfoldable pub fill_target : System → Op
unfolding erase_target make_target copy_files write_props
fill_target system =
    erase_target system
    >> make_target system
    >> copy_files system
    >> write_props system
    >> whole_target system

unfoldable pub choose_target : System → Found → Up → Up
choose_target system f up =
    let aimed = record up { dst = if system.to_flat then flat else rps f.previous } in
    if system.to_flat && not system.recovery_asked
    then aimed
    else erase_rps_if_recovery_blessed system f.current aimed

unfoldable pub ucopy_rps : System → Op
ucopy_rps system up =
    let f = found up.disk in
    (find_rps_dir system >> (λ up. fill_target system (choose_target system f up))) up

unfoldable pub rename_previous : System → Found → Op
rename_previous system f up =
    if same_name f.current up.dst
    then (up, 0)
    else if system.fails rename_rps == 0
    then (
      write (set (rps f.previous) missing (set (rps f.next) (get (rps f.previous) up.disk) up.disk))
          up,
      0,
    )
    else (up, elast_1)

unfoldable pub sync : System → Op
sync system up = (up, if system.fails sync_rps == 0 then 0 else elast_1)

unfoldable pub activate_rps : System → Op
activate_rps system up =
    let f = found up.disk in
    (when (λ _. not system.to_flat)
          (λ up.
            let (up', e) = find_rps_dir system up in
            if e == 0 then rename_previous system f up' else (up', elast_1))
        >> sync system)
      up

-- The second half of nukeFallbacks.
unfoldable pub erase_previous : System → Op
erase_previous system up =
    let f = found up.disk in
    let (up', e) = find_rps_dir system up in
    if e == 0 then erase_rps system fallback (rps f.previous) up' else (up', 0)
