-- ===== src/Volumes/Deaths.antt =====
-- kextd_watchvol.c: the death of a port, the timer and changes of media, and the invariant of the locks.
use kext_tools.Common.{
  ℕ, ◌≡◌, refl, sym, Bool, true, false, Option, none, some, List, [], inl, inr, arith, Bool-cases,
}
use kext_tools.Volumes.Data.{WatchedVol, Entry, Daemon, System, find, put, is_port}
use kext_tools.Volumes.Rebuild.{check_now, media_changed}
use kext_tools.Volumes.Locks.{
  remove_last, drop_waiter, drop_waiter, reboot_port_died, volume_port_died,
}
use kext_tools.Volumes.Exclusion.{
  IsIdle, IsSettled, All, IsUnlocked, is_closed, IsExclusive, IsSafe, found-All, put-All,
  check_rebuild-IsSettled, check_rebuild-lock, check_boots_set_nvram-IsSettled,
  check_boots_set_nvram-lock,
}
use kext_tools.Volumes.Handlers.{locked-is_open}
use kext_tools.Volumes.Handover.{hand_over-IsSafe}
use kext_tools.Volumes.Requests.{found-cases, is_port-held}

remove_last-empty : (port : ℕ) (ws : List ℕ) → remove_last port [] ≡ some ws → ws ≡ []
unfolding remove_last
remove_last-empty port ws e = ground arith

-- A waiter that leaves the queue leaves a settled volume.
left-IsSettled :
    (port : ℕ) (v : WatchedVol) (ws : List ℕ)
    → remove_last port v.waiters ≡ some ws
    → IsSettled v
    → IsSettled (record v { waiters = ws })
left-IsSettled port v ws e h = record {
  idle = by_lock v.lock v.waiters v.orig_mnt_flags h.idle e;
  named = h.named;
  bounded = h.bounded;
}
  where
    by_lock :
        (lock : Option ℕ) (waiters : List ℕ) (flags : ℕ)
        → IsIdle lock waiters flags
        → remove_last port waiters ≡ some ws
        → IsIdle lock ws flags
    by_lock (some locker) waiters flags h e = tt
    by_lock none waiters flags h e = (remove_last-empty port ws (rw (sym h.0) e), h.1)

put-IsExclusive :
    (id : ℕ) (v : WatchedVol) (b : Bool) (vs : List Entry)
    → (All IsUnlocked vs → IsUnlocked v)
    → IsExclusive b vs
    → IsExclusive b (put id v vs)
put-IsExclusive id v true vs same h = put-All IsUnlocked id vs v (same h) h
put-IsExclusive id v false vs same h = tt

-- A volume whose lock is not touched.
pub same_lock-IsSafe :
    (id : ℕ) (v w : WatchedVol) (d : Daemon) (ports : ℕ → ℕ)
    → find id d.volumes ≡ some v
    → w.lock ≡ v.lock
    → IsSettled w
    → IsSafe d
    → IsSafe (record d { volumes = put id w d.volumes; reply_ports = ports })
same_lock-IsSafe id v w d ports e same s h = record {
  settled = put-All IsSettled id d.volumes w s h.settled;
  exclusive =
      put-IsExclusive id w (is_closed d) d.volumes
        (λ quiet. rw same (found-All IsUnlocked id d.volumes v quiet e)) h.exclusive;
}

pub drop_waiter-IsSafe :
    (port id : ℕ) (v : WatchedVol) (d : Daemon) (left : Option (List ℕ))
    → find id d.volumes ≡ some v
    → IsSettled v
    → remove_last port v.waiters ≡ left
    → IsSafe d
    → IsSafe (drop_waiter port id v d left)
unfolding drop_waiter
drop_waiter-IsSafe port id v d none e s l h = h
drop_waiter-IsSafe port id v d (some ws) e s l h =
    same_lock-IsSafe id v _ d _ e refl (left-IsSettled port v ws l s) h

pub volume_port_died-IsSafe :
    (system : System) (port id : ℕ) (d : Daemon)
    → IsSafe d
    → IsSafe (volume_port_died system port id d)
unfolding volume_port_died
volume_port_died-IsSafe system port id d h = elim (found-cases (find id d.volumes)) [
  | inl e ↦ rw (volume_port_died, e) (record { settled = h.settled; exclusive = h.exclusive })
  | inr (v, e) ↦
      let s = found-All IsSettled id d.volumes v h.settled e in
      elim (Bool-cases (is_port v.lock port)) [
        | inl mine ↦
            rw (volume_port_died, e, mine)
              (hand_over-IsSafe system id _ d
                (locked-is_open id v d h e (is_port-held v.lock port mine))
                (record { idle = s.idle; named = s.named; bounded = s.bounded }) h)
        | inr other ↦
            rw (volume_port_died, e, other)
              (drop_waiter-IsSafe port id v d (remove_last port v.waiters) e s refl h)
      ]
]

pub reboot_port_died-IsSafe : (port : ℕ) (d : Daemon) → IsSafe d → IsSafe (reboot_port_died port d)
unfolding reboot_port_died
reboot_port_died-IsSafe port d h = record {
  settled = ground (arith, h.settled);
  exclusive = ground (arith, h.exclusive);
}

pub check_now-IsSafe :
    (system : System) (id : ℕ) (d : Daemon) → IsSafe d → IsSafe (check_now system id d)
unfolding check_now
check_now-IsSafe system id d h = elim (found-cases (find id d.volumes)) [
  | inl e ↦ rw (check_now, e) h
  | inr (v, e) ↦
      rw (check_now, e)
        (same_lock-IsSafe id v _ d d.reply_ports e (check_rebuild-lock (system.checks id) v)
          (check_rebuild-IsSettled (system.checks id) v
            (found-All IsSettled id d.volumes v h.settled e))
          h)
]

pub media_changed-IsSafe :
    (system : System) (id : ℕ) (d : Daemon) → IsSafe d → IsSafe (media_changed system id d)
unfolding media_changed
media_changed-IsSafe system id d h = elim (found-cases (find id d.volumes)) [
  | inl e ↦ rw (media_changed, e) h
  | inr (v, e) ↦
      rw (media_changed, e)
        (same_lock-IsSafe id v _ d d.reply_ports e (check_boots_set_nvram-lock (system.checks id) v)
          (check_boots_set_nvram-IsSettled (system.checks id) v
            (found-All IsSettled id d.volumes v h.settled e))
          h)
]
