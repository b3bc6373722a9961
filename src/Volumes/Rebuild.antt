-- ===== src/Volumes/Rebuild.antt =====
-- kextd_watchvol.c: check_rebuild and the scans that call it.
use kext_tools.Common.{
  ℕ, ◌+◌, String, Bool, true, false, not, none, some, List, [], ◌∷◌, ◌++◌, str_eq, if◌then◌else◌,
  ltb, ◌&&◌, ◌||◌,
}
use kext_tools.Volumes.Data.{
  WatchedVol, Moment, Checks, System, Daemon, Entry, create_watched_vol, find, held, put,
}

abbrev pub max_update_failures : ℕ
max_update_failures = 5

abbrev pub max_update_attempts : ℕ
max_update_attempts = 25

unfoldable pub any_extra_stale : List (Bool × Bool) → Bool
any_extra_stale [] = false
any_extra_stale ((has_path, stale) ∷ rest) = (has_path && stale) || any_extra_stale rest

-- check_boots_set_nvram; `rebuild` is its call of check_rebuild, of a volume that has gained a
-- helper partition.
unfoldable pub check_boots_with : (WatchedVol → WatchedVol) → Moment → WatchedVol → WatchedVol
check_boots_with rebuild c v = elim c.has_boots [
  | none ↦ v
  | some b ↦
      if b
      then (if v.is_boot_root then v else rebuild (record v { is_boot_root = true }))
      else record v { is_boot_root = false }
]

-- Whether check_rebuild wants a rebuild, without regard to the helper partitions.
unfoldable pub caches_stale : Moment → Bool
unfolding any_extra_stale
caches_stale c =
    (c.boot_cache_stale || any_extra_stale c.extra_kernel_caches) && not c.auto_rebuild_disabled

-- The volume, and whether kextcache was launched.
unfoldable pub launch_rebuild : Moment → WatchedVol → WatchedVol × Bool
launch_rebuild c v =
    if c.launches
    then (record v { updtattempts = v.updtattempts + 1 }, true)
    else (record v { updterrs = v.updterrs + 1 }, false)

unfoldable pub check_rebuild_with :
    (WatchedVol → WatchedVol) → Moment → WatchedVol → WatchedVol × Bool
unfolding check_boots_with caches_stale launch_rebuild
check_rebuild_with rebuild c v =
    let v = record v { delayer = false } in
    if ltb max_update_attempts v.updtattempts
    then (v, false)
    else if c.get_out_of_my_way
    then (v, false)
    else if caches_stale c
    then launch_rebuild c v
    else (let v' = check_boots_with rebuild c v in
        if v'.is_boot_root && (c.csfde_stale || c.needs_updates)
        then launch_rebuild c v'
        else (v', false))

-- The call that check_boots_set_nvram makes. The volume is a boot root then, so this call does
-- not come to another one.
unfoldable pub check_rebuild_again : Checks → WatchedVol → WatchedVol
unfolding check_rebuild_with
check_rebuild_again c v = (check_rebuild_with (λ v. v) c.inner v).0

unfoldable pub check_boots_set_nvram : Checks → WatchedVol → WatchedVol
unfolding check_boots_with check_rebuild_again
check_boots_set_nvram c v = check_boots_with (check_rebuild_again c) c.outer v

-- The volume, and whether kextcache was launched by this call itself.
unfoldable pub check_rebuild : Checks → WatchedVol → WatchedVol × Bool
unfolding check_rebuild_with check_rebuild_again
check_rebuild c v = check_rebuild_with (check_rebuild_again c) c.outer v

-- Whether check_rebuild comes to want a rebuild.
unfoldable pub wants_rebuild : Checks → WatchedVol → Bool
unfolding caches_stale check_boots_set_nvram
wants_rebuild c v =
    caches_stale c.outer
    || ((check_boots_set_nvram c (record v { delayer = false })).is_boot_root
        && (c.outer.csfde_stale || c.outer.needs_updates))

unfoldable pub check_vol_busy : Checks → WatchedVol → WatchedVol × Bool
check_vol_busy c v =
    if held v.lock
    then (v, true)
    else if ltb v.updterrs max_update_failures && ltb v.updtattempts max_update_attempts
    then check_rebuild c v
    else (v, false)

-- check_locked, over the dictionary; the string is busyVol.
unfoldable pub check_locked : (ℕ → Checks) → List Entry → String → List Entry × String
check_locked checks [] busy_vol = ([], busy_vol)
check_locked checks ((id, v) ∷ rest) busy_vol =
    let (v', busy) = check_vol_busy (checks id) v in
    let (rest', busy_vol') = check_locked checks rest (if busy then v'.root else busy_vol) in
    ((id, v') ∷ rest', busy_vol')

-- The volumes, busyVol, and whether the result is EBUSY.
unfoldable pub check_all_watched : System → Daemon → List Entry × (String × Bool)
check_all_watched system d =
    if d.ready
    then (let (volumes, busy_vol) = check_locked system.checks d.volumes "" in
        (volumes, (busy_vol, not (str_eq busy_vol ""))))
    else (d.volumes, ("", false))

-- vol_appeared, from where the volume is known to hold a system.
unfoldable pub vol_appeared : System → ℕ → String → List Entry → List Entry × Bool
vol_appeared system id root volumes =
    let v = create_watched_vol root (system.starts_boot_root id) in
    if system.auto_update_delayed
    then (volumes ++ (id, v) ∷ [], false)
    else (let (v', launched) = check_rebuild (system.checks id) v in
        (volumes ++ (id, v') ∷ [], launched))

unfoldable pub reconsider_volume : System → ℕ → String → List Entry → List Entry × Bool
reconsider_volume system id root volumes = elim (find id volumes) [
  | none ↦ vol_appeared system id root volumes
  | some v ↦ (volumes, false)
]

-- The volumes, busyVol, and the result; busyVol is set for the first busy mount alone.
unfoldable pub reconsider_mounts :
    System → List (ℕ × String) → List Entry → String → Bool → List Entry × (String × Bool)
reconsider_mounts system [] volumes busy_vol rval = (volumes, (busy_vol, rval))
reconsider_mounts system ((id, root) ∷ mounts) volumes busy_vol rval =
    let (volumes', launched) = reconsider_volume system id root volumes in
    let first = launched && not rval in
    reconsider_mounts system mounts volumes' (if first then root else busy_vol)
      (if first then true else rval)

unfoldable pub reconsider_volumes : System → List Entry → String → List Entry × (String × Bool)
unfolding reconsider_mounts
reconsider_volumes system volumes busy_vol =
    reconsider_mounts system system.mounts volumes busy_vol false

-- vol_changed, for a watched volume whose media has changed. For another one it is vol_appeared.
unfoldable pub media_changed : System → ℕ → Daemon → Daemon
media_changed system id d = elim (find id d.volumes) [
  | none ↦ d
  | some v ↦ record d { volumes = put id (check_boots_set_nvram (system.checks id) v) d.volumes }
]

-- The timer's function: a volume that is no longer watched is left alone.
unfoldable pub check_now : System → ℕ → Daemon → Daemon
check_now system id d = elim (find id d.volumes) [
  | none ↦ d
  | some v ↦ record d { volumes = put id (check_rebuild (system.checks id) v).0 d.volumes }
]
