-- ===== src/Volumes/Safety.antt =====
-- kextd_watchvol.c: what the scans, the new volumes and the queue leave the volumes as.
use kext_tools.Common.{ℕ, ◌≡◌, refl, String, Bool, false, not, Option, List, [], ◌∷◌, str_eq, arith}
use kext_tools.Volumes.Data.{create_watched_vol, Entry, Daemon, System}
use kext_tools.Volumes.Rebuild.{
  check_rebuild, check_all_watched, vol_appeared, reconsider_volume, reconsider_mounts,
}
use kext_tools.Volumes.Locks.{cleanup_port, signal_waiter, next_locker}
use kext_tools.Volumes.Exclusion.{
  IsIdle, IsSettled, All, IsUnlocked, IsExclusive, append-All, check_rebuild-IsSettled,
  check_rebuild-lock, check_locked-IsSettled, check_locked-free,
}

-- Each mount has a name.
abbrev pub AreNamed : List (ℕ × String) → Type 0
AreNamed [] = Unit {0}
AreNamed ((id, root) ∷ mounts) = (str_eq root "" ≡ false) × AreNamed mounts

pub create_watched_vol-IsSettled :
    (root : String) (b : Bool) → str_eq root "" ≡ false → IsSettled (create_watched_vol root b)
unfolding create_watched_vol
create_watched_vol-IsSettled root b e = record {
  idle = (refl, refl);
  named = e;
  bounded = omega arith;
}

pub vol_appeared-IsSettled :
    (system : System) (id : ℕ) (root : String) (vs : List Entry)
    → str_eq root "" ≡ false
    → All IsSettled vs
    → All IsSettled (vol_appeared system id root vs).0
unfolding vol_appeared
vol_appeared-IsSettled system id root vs e h =
    let fresh = create_watched_vol-IsSettled root (system.starts_boot_root id) e in
    let checked =
      check_rebuild-IsSettled (system.checks id)
        (create_watched_vol root (system.starts_boot_root id)) fresh in
    ground (arith, append-All IsSettled vs id _ fresh h, append-All IsSettled vs id _ checked h)

pub vol_appeared-free :
    (system : System) (id : ℕ) (root : String) (vs : List Entry)
    → All IsUnlocked vs
    → All IsUnlocked (vol_appeared system id root vs).0
unfolding vol_appeared create_watched_vol
vol_appeared-free system id root vs h = ground (
  arith,
  append-All IsUnlocked vs id (create_watched_vol root (system.starts_boot_root id)) refl h,
  append-All IsUnlocked vs id
      (check_rebuild (system.checks id) (create_watched_vol root (system.starts_boot_root id))).0
      (check_rebuild-lock (system.checks id) (create_watched_vol root (system.starts_boot_root id)))
      h,
)

pub reconsider_mounts-IsSettled :
    (system : System) (mounts : List (ℕ × String)) (vs : List Entry) (busy_vol : String)
    (rval : Bool)
    → AreNamed mounts
    → All IsSettled vs
    → All IsSettled (reconsider_mounts system mounts vs busy_vol rval).0
unfolding reconsider_mounts reconsider_volume
reconsider_mounts-IsSettled system [] vs busy_vol rval n h = h
reconsider_mounts-IsSettled system ((id, root) ∷ mounts) vs busy_vol rval n h =
    reconsider_mounts-IsSettled system mounts _ _ _ n.1
      (ground (arith, vol_appeared-IsSettled system id root vs n.0 h))

pub reconsider_mounts-free :
    (system : System) (mounts : List (ℕ × String)) (vs : List Entry) (busy_vol : String)
    (rval : Bool)
    → All IsUnlocked vs
    → All IsUnlocked (reconsider_mounts system mounts vs busy_vol rval).0
unfolding reconsider_mounts reconsider_volume
reconsider_mounts-free system [] vs busy_vol rval h = h
reconsider_mounts-free system ((id, root) ∷ mounts) vs busy_vol rval h =
    reconsider_mounts-free system mounts _ _ _
      (ground (arith, vol_appeared-free system id root vs h))

pub check_all_watched-IsSettled :
    (system : System) (d : Daemon)
    → All IsSettled d.volumes
    → All IsSettled (check_all_watched system d).0
unfolding check_all_watched
check_all_watched-IsSettled system d h =
    ground (arith, check_locked-IsSettled system.checks d.volumes "" h)

pub check_all_watched-free :
    (system : System) (d : Daemon)
    → IsExclusive (not d.ready) d.volumes
    → All IsSettled d.volumes
    → (check_all_watched system d).1.1 ≡ false
    → All IsUnlocked (check_all_watched system d).0
unfolding check_all_watched
check_all_watched-free system d w h e =
    ground (arith, check_locked-free system.checks d.volumes "" h)

pub next_locker-IsIdle :
    (system : System) (rebooter : Option ℕ) (waiters : List ℕ) (ports : ℕ → ℕ)
    → IsIdle
        (next_locker system rebooter waiters ports).0
        (next_locker system rebooter waiters ports).1.0
        0
unfolding next_locker
next_locker-IsIdle system rebooter [] ports = (refl, refl)
next_locker-IsIdle system rebooter (w ∷ ws) ports =
    let later =
      next_locker-IsIdle system rebooter ws
        (cleanup_port w (signal_waiter system rebooter w ports).0) in
    ground (arith, later)
