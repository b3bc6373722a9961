-- ===== src/Volumes/Reach.antt =====
-- kextd_watchvol.c: the states that the handlers reach, and what holds of all of them.
use kext_tools.Common.{
  ℕ, ◌≤◌, ◌≡◌, refl, String, Bool, true, false, not, Option, none, some, List, [], str_eq, ◌||◌,
  arith,
}
use kext_tools.Volumes.Data.{WatchedVol, Entry, Daemon, System, find, held}
use kext_tools.Volumes.Rebuild.{vol_appeared, check_now, media_changed}
use kext_tools.Volumes.Locks.{
  lock_reboot, lock_volume, unlock_volume, reboot_port_died, volume_port_died,
}
use kext_tools.Volumes.Exclusion.{IsIdle, IsSettled, is_closed, IsExclusive, IsSafe, found-All}
use kext_tools.Volumes.Safety.{AreNamed, vol_appeared-IsSettled, vol_appeared-free}
use kext_tools.Volumes.Handlers.{locked-is_open}
use kext_tools.Volumes.Requests.{lock_reboot-IsSafe, lock_volume-IsSafe, unlock_volume-IsSafe}
use kext_tools.Volumes.Deaths.{
  volume_port_died-IsSafe, reboot_port_died-IsSafe, check_now-IsSafe, media_changed-IsSafe,
}

-- kextd once the watch is set up.
abbrev pub watching : Daemon
watching = record {
  ready = true;
  volumes = [];
  reboot_lock = none;
  reboot_waiter = none;
  reply_ports = λ _. 0;
}

-- One event that kextd's run loop handles. A mount has a name.
pub data Step (d : Daemon) : Daemon → Type 0 where
  reboot_locked :
      (system : System) (client_is_root : Bool) (reply_port client : ℕ) (wait has_status : Bool)
      → AreNamed system.mounts
      → Step d (lock_reboot system client_is_root reply_port client wait has_status d).0
  volume_locked :
      (system : System) (client_is_root : Bool) (reply_port client id : ℕ) (wait has_status : Bool)
      → Step d (lock_volume system client_is_root reply_port client id wait has_status d).0
  volume_unlocked :
      (system : System) (client_is_root : Bool) (client id exit_status : ℕ)
      → Step d (unlock_volume system client_is_root client id exit_status d).0
  reboot_client_died : (port : ℕ) → Step d (reboot_port_died port d)
  volume_client_died : (system : System) (port id : ℕ) → Step d (volume_port_died system port id d)
  timer_fired : (system : System) (id : ℕ) → Step d (check_now system id d)
  media_has_changed : (system : System) (id : ℕ) → Step d (media_changed system id d)
  volume_found :
      (system : System) (id : ℕ) (root : String)
      → str_eq root "" ≡ false
      → find id d.volumes ≡ none
      → Step d (record d { volumes = (vol_appeared system id root d.volumes).0 })

pub data Reachable : Daemon → Type 0 where
  at_start : Reachable watching
  after : {d d' : Daemon} → Reachable d → Step d d' → Reachable d'

appeared-IsExclusive :
    (system : System) (id : ℕ) (root : String) (b : Bool) (vs : List Entry)
    → IsExclusive b vs
    → IsExclusive b (vol_appeared system id root vs).0
appeared-IsExclusive system id root true vs h = vol_appeared-free system id root vs h
appeared-IsExclusive system id root false vs h = tt

Step-IsSafe : (d d' : Daemon) → Step d d' → IsSafe d → IsSafe d'
Step-IsSafe d _ (reboot_locked system r p c w s n) h = lock_reboot-IsSafe system r p c w s d n h
Step-IsSafe d _ (volume_locked system r p c id w s) h = lock_volume-IsSafe system r p c id w s d h
Step-IsSafe d _ (volume_unlocked system r c id e) h = unlock_volume-IsSafe system r c id e d h
Step-IsSafe d _ (reboot_client_died port) h = reboot_port_died-IsSafe port d h
Step-IsSafe d _ (volume_client_died system port id) h = volume_port_died-IsSafe system port id d h
Step-IsSafe d _ (timer_fired system id) h = check_now-IsSafe system id d h
Step-IsSafe d _ (media_has_changed system id) h = media_changed-IsSafe system id d h
Step-IsSafe d _ (volume_found system id root e new) h = record {
  settled = vol_appeared-IsSettled system id root d.volumes e h.settled;
  exclusive = appeared-IsExclusive system id root (is_closed d) d.volumes h.exclusive;
}

Reachable-IsSafe : (d : Daemon) → Reachable d → IsSafe d
Reachable-IsSafe _ at_start = record { settled = tt; exclusive = tt }
Reachable-IsSafe _ (after {d} {d'} r s) = Step-IsSafe d d' s (Reachable-IsSafe d r)

-- In every state that kextd reaches by its handlers from an empty watch, whatever the system
-- answers, as long as each mount and each volume found has a name: while a watched volume is
-- locked, nobody holds the reboot lock.
pub reboot_lock-excluded :
    (d : Daemon) (id : ℕ) (v : WatchedVol)
    → Reachable d
    → find id d.volumes ≡ some v
    → held v.lock ≡ true
    → d.reboot_lock ≡ none
reboot_lock-excluded d id v r e locked =
    let opened = locked-is_open id v d (Reachable-IsSafe d r) e locked in
    by_lock d.reboot_lock opened
  where
    by_lock : (lock : Option ℕ) → (held lock || not d.ready) ≡ false → lock ≡ none
    by_lock none e = refl
    by_lock (some client) e = absurd (ground arith)

-- In every state that kextd reaches by its handlers from an empty watch, whatever the system
-- answers, as long as each mount and each volume found has a name: a watched volume that nobody has
-- locked has no waiter left in its queue and no mount flags left to restore, and kextd has launched
-- at most 27 updates of any watched volume since the count was last set to 0.
pub unlocked_volume-served :
    (d : Daemon) (id : ℕ) (v : WatchedVol)
    → Reachable d
    → find id d.volumes ≡ some v
    → (v.updtattempts ≤ 27) × (v.lock ≡ none → (v.waiters ≡ []) × (v.orig_mnt_flags ≡ 0))
unlocked_volume-served d id v r e =
    let s = found-All IsSettled id d.volumes v (Reachable-IsSafe d r).settled e in
    (s.bounded, by_lock v.lock s.idle)
  where
    by_lock :
        (lock : Option ℕ)
        → IsIdle lock v.waiters v.orig_mnt_flags
        → lock ≡ none
        → (v.waiters ≡ []) × (v.orig_mnt_flags ≡ 0)
    by_lock none h e = h
    by_lock (some locker) h e = absurd (ground arith)
