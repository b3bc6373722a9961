-- ===== src/Volumes/Requests.antt =====
-- kextd_watchvol.c: the requests of a client, and the invariant of the locks.
use kext_tools.Common.{
  ℕ, ◌≡◌, refl, Bool, true, false, Option, none, some, ◌⊎◌, inl, inr, arith, Bool-cases,
}
use kext_tools.Volumes.Data.{WatchedVol, Daemon, System, find, is_port, held}
use kext_tools.Volumes.Locks.{
  lock_reboot, lock_watched, lock_volume, account_for_exit, unlock_volume,
}
use kext_tools.Volumes.Exclusion.{IsSettled, is_closed, IsSafe, found-All}
use kext_tools.Volumes.Safety.{AreNamed}
use kext_tools.Volumes.Handlers.{changed-IsSafe, locked-is_open}
use kext_tools.Volumes.Handover.{hand_over-IsSafe, check_and_lock_reboot-IsSafe}

pub lock_reboot-IsSafe :
    (system : System) (is_root : Bool) (reply_port client : ℕ) (wait has_status : Bool) (d : Daemon)
    → AreNamed system.mounts
    → IsSafe d
    → IsSafe (lock_reboot system is_root reply_port client wait has_status d).0
unfolding lock_reboot
lock_reboot-IsSafe system is_root reply_port client wait false d n h = h
lock_reboot-IsSafe system false reply_port client wait true d n h = h
lock_reboot-IsSafe system true reply_port client wait true d n h = by_lock d.reboot_lock h
  where
    by_lock :
        (lock : Option ℕ)
        → IsSafe (record d { reboot_lock = lock })
        → IsSafe
            (lock_reboot system true reply_port client wait true
              (record d { reboot_lock = lock })).0
    by_lock (some locker) h = h
    by_lock none h = check_and_lock_reboot-IsSafe system reply_port client wait _ n refl h

pub lock_watched-IsSafe :
    (system : System) (reply_port client id : ℕ) (wait : Bool) (v : WatchedVol) (d : Daemon)
    → is_closed d ≡ false
    → IsSettled v
    → IsSafe d
    → IsSafe (lock_watched system reply_port client id wait v d).0
unfolding lock_watched
lock_watched-IsSafe system reply_port client id wait v d opened s h = by_lock v.lock s
  where
    by_lock :
        (lock : Option ℕ)
        → IsSettled (record v { lock = lock })
        → IsSafe (lock_watched system reply_port client id wait (record v { lock = lock }) d).0
    by_lock none s = elim (Bool-cases (system.port_created client)) [
      | inl e ↦ rw e (
          changed-IsSafe id _ d _ opened
            (record { idle = tt; named = s.named; bounded = s.bounded }) h)
      | inr e ↦ rw e h
    ]
    by_lock (some locker) s = elim (Bool-cases wait) [
      | inr e ↦ rw e h
      | inl e ↦ elim (Bool-cases (system.port_created client)) [
        | inl e' ↦
            rw (e, e')
              (changed-IsSafe id _ d _ opened
                (record { idle = tt; named = s.named; bounded = s.bounded }) h)
        | inr e' ↦ rw (e, e') h
      ]
    ]

pub found-cases :
    (found : Option WatchedVol) → (found ≡ none) ⊎ ((v : WatchedVol) × (found ≡ some v))
found-cases none = inl refl
found-cases (some v) = inr (v, refl)

pub lock_volume-IsSafe :
    (system : System) (is_root : Bool) (reply_port client id : ℕ) (wait has_status : Bool)
    (d : Daemon)
    → IsSafe d
    → IsSafe (lock_volume system is_root reply_port client id wait has_status d).0
unfolding lock_volume
lock_volume-IsSafe system is_root reply_port client id wait false d h = h
lock_volume-IsSafe system false reply_port client id wait true d h = h
lock_volume-IsSafe system true reply_port client id wait true d h = by_state d.ready d.reboot_lock h
  where
    by_state :
        (ready : Bool) (lock : Option ℕ)
        → IsSafe (record d { ready = ready; reboot_lock = lock })
        → IsSafe
            (lock_volume system true reply_port client id wait true
              (record d { ready = ready; reboot_lock = lock })).0
    by_state false lock h = h
    by_state true (some locker) h = h
    by_state true none h = elim (found-cases (find id d.volumes)) [
      | inl e ↦ rw e h
      | inr (v, e) ↦ rw e (
          lock_watched-IsSafe system reply_port client id wait v _ refl
            (found-All IsSettled id d.volumes v h.settled e) h)
    ]

pub account_for_exit-IsSettled :
    (exit_status : ℕ) (v : WatchedVol) → IsSettled v → IsSettled (account_for_exit exit_status v)
unfolding account_for_exit
account_for_exit-IsSettled exit_status v h = record {
  idle = ground (arith, h.idle);
  named = ground (arith, h.named);
  bounded = ground (arith, h.bounded);
}

pub is_port-held : (lock : Option ℕ) (port : ℕ) → is_port lock port ≡ true → held lock ≡ true
is_port-held lock port e = ground arith

pub unlock_volume-IsSafe :
    (system : System) (is_root : Bool) (client id exit_status : ℕ) (d : Daemon)
    → IsSafe d
    → IsSafe (unlock_volume system is_root client id exit_status d).0
unfolding unlock_volume
unlock_volume-IsSafe system false client id exit_status d h = h
unlock_volume-IsSafe system true client id exit_status d h = by_ready d.ready h
  where
    by_ready :
        (ready : Bool)
        → IsSafe (record d { ready = ready })
        → IsSafe (unlock_volume system true client id exit_status (record d { ready = ready })).0
    by_ready false h = h
    by_ready true h = elim (found-cases (find id d.volumes)) [
      | inl e ↦ rw e h
      | inr (v, e) ↦ elim (Bool-cases (is_port v.lock client)) [
        | inr other ↦ rw (e, other) h
        | inl mine ↦
            rw (e, mine)
              (hand_over-IsSafe system id _ _
                (locked-is_open id v (record d { ready = true }) h e
                  (is_port-held v.lock client mine))
                (account_for_exit-IsSettled exit_status v
                  (found-All IsSettled id d.volumes v h.settled e))
                h)
      ]
    ]
