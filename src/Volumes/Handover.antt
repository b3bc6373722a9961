-- ===== src/Volumes/Handover.antt =====
-- kextd_watchvol.c: unlocking and the request for the reboot lock, and the invariant of the locks.
use kext_tools.Common.{
  ℕ, ◌≡◌, refl, Bool, true, false, Option, none, some, List, inl, inr, if◌then◌else◌, arith,
  Bool-cases,
}
use kext_tools.Volumes.Data.{WatchedVol, Entry, Daemon, System}
use kext_tools.Volumes.Rebuild.{check_all_watched, reconsider_volumes}
use kext_tools.Volumes.Locks.{
  reboot_if_waiting, release, handle_watched_handoff, hand_over, reboot_busy, take_reboot_lock,
  check_and_lock_reboot,
}
use kext_tools.Volumes.Exclusion.{IsSettled, All, IsUnlocked, is_closed, IsSafe}
use kext_tools.Volumes.Safety.{
  AreNamed, reconsider_mounts-IsSettled, reconsider_mounts-free, check_all_watched-IsSettled,
  check_all_watched-free, next_locker-IsIdle,
}
use kext_tools.Volumes.Handlers.{
  unlocked-IsExclusive, scanned-IsSafe, handle_reboot_handoff-IsSafe, changed-IsSafe,
}

pub handed-IsSettled :
    (system : System) (rebooter : Option ℕ) (v : WatchedVol) (ports : ℕ → ℕ)
    → IsSettled v
    → IsSettled (handle_watched_handoff system rebooter (record v { orig_mnt_flags = 0 }) ports).0
unfolding handle_watched_handoff
handed-IsSettled system rebooter v ports h = record {
  idle = next_locker-IsIdle system rebooter v.waiters (release v.lock ports);
  named = h.named;
  bounded = h.bounded;
}

with_reboot : Option ℕ → Option ℕ → Daemon → Daemon
with_reboot lock waiter d = record d { reboot_lock = lock; reboot_waiter = waiter }

reboot_if_waiting-cases :
    (system : System) (lock waiter : Option ℕ) (d : Daemon)
    → IsSafe (with_reboot lock waiter d)
    → IsSafe (reboot_if_waiting system (with_reboot lock waiter d))
unfolding reboot_if_waiting with_reboot
reboot_if_waiting-cases system (some client) waiter d h = h
reboot_if_waiting-cases system none none d h = h
reboot_if_waiting-cases system none (some w) d h =
    handle_reboot_handoff-IsSafe system w (with_reboot none (some w) d) refl h

pub reboot_if_waiting-IsSafe :
    (system : System) (d : Daemon) → IsSafe d → IsSafe (reboot_if_waiting system d)
unfolding with_reboot
reboot_if_waiting-IsSafe system d h =
    reboot_if_waiting-cases system d.reboot_lock d.reboot_waiter d h

pub hand_over-IsSafe :
    (system : System) (id : ℕ) (v : WatchedVol) (d : Daemon)
    → is_closed d ≡ false
    → IsSettled v
    → IsSafe d
    → IsSafe (hand_over system id v d)
unfolding hand_over
hand_over-IsSafe system id v d opened s h =
    reboot_if_waiting-IsSafe system _
      (changed-IsSafe id _ d _ opened (handed-IsSettled system d.reboot_waiter v d.reply_ports s) h)

pub reboot_busy-IsSafe :
    (system : System) (reply_port client : ℕ) (wait : Bool) (d : Daemon)
    → IsSafe d
    → IsSafe (reboot_busy system reply_port client wait d).0
unfolding reboot_busy
reboot_busy-IsSafe system reply_port client wait d h = record {
  settled = ground (arith, h.settled);
  exclusive = ground (arith, h.exclusive);
}

pub take_reboot_lock-IsSafe :
    (system : System) (client : ℕ) (d : Daemon)
    → All IsUnlocked d.volumes
    → IsSafe d
    → IsSafe (take_reboot_lock system client d).0
unfolding take_reboot_lock
take_reboot_lock-IsSafe system client d quiet h = record {
  settled = ground (arith, h.settled);
  exclusive = unlocked-IsExclusive _ _ (ground (arith, quiet));
}

pub reconsidered-IsSafe :
    (system : System) (reply_port client : ℕ) (wait : Bool) (d : Daemon) (volumes : List Entry)
    (launched : Bool)
    → IsSafe (record d { volumes = volumes })
    → All IsUnlocked volumes
    → IsSafe
        (if launched
          then reboot_busy system reply_port client wait (record d { volumes = volumes })
          else take_reboot_lock system client (record d { volumes = volumes })).0
reconsidered-IsSafe system reply_port client wait d volumes true h quiet =
    reboot_busy-IsSafe system reply_port client wait _ h
reconsidered-IsSafe system reply_port client wait d volumes false h quiet =
    take_reboot_lock-IsSafe system client _ quiet h

pub check_and_lock_reboot-IsSafe :
    (system : System) (reply_port client : ℕ) (wait : Bool) (d : Daemon)
    → AreNamed system.mounts
    → d.reboot_lock ≡ none
    → IsSafe d
    → IsSafe (check_and_lock_reboot system reply_port client wait d).0
unfolding check_and_lock_reboot reconsider_volumes
check_and_lock_reboot-IsSafe system reply_port client wait d n free h =
    elim (Bool-cases (check_all_watched system d).1.1) [
      | inl busy ↦
          rw busy (
            reboot_busy-IsSafe system reply_port client wait _
              (scanned-IsSafe system d free busy h))
      | inr clean ↦
          let settled =
            reconsider_mounts-IsSettled system system.mounts _ (check_all_watched system d).1.0
              false n (check_all_watched-IsSettled system d h.settled) in
          let quiet =
            reconsider_mounts-free system system.mounts _ (check_all_watched system d).1.0 false
              (check_all_watched-free system d (ground (arith, h.exclusive)) h.settled clean) in
          rw clean (
            reconsidered-IsSafe system reply_port client wait d _ _
              (record { settled = settled; exclusive = unlocked-IsExclusive _ _ quiet }) quiet)
    ]
