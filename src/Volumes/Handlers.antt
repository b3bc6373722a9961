-- ===== src/Volumes/Handlers.antt =====
-- kextd_watchvol.c: the hand-over of the reboot lock, and the invariant of the locks.
use kext_tools.Common.{ℕ, ◌≡◌, Bool, true, false, none, some, List, inl, inr, arith, Bool-cases}
use kext_tools.Volumes.Data.{WatchedVol, Entry, Daemon, System, find, put, held}
use kext_tools.Volumes.Rebuild.{check_all_watched}
use kext_tools.Volumes.Locks.{handle_reboot_handoff}
use kext_tools.Volumes.Exclusion.{
  IsSettled, All, IsUnlocked, is_closed, IsExclusive, IsSafe, found-All, put-All,
}
use kext_tools.Volumes.Safety.{check_all_watched-IsSettled, check_all_watched-free}

pub unlocked-IsExclusive : (b : Bool) (vs : List Entry) → All IsUnlocked vs → IsExclusive b vs
unlocked-IsExclusive true vs h = h
unlocked-IsExclusive false vs h = tt

-- A scan finds no volume busy unless the watch is set up.
check_all_watched-ready :
    (system : System) (d : Daemon) → (check_all_watched system d).1.1 ≡ true → d.ready ≡ true
unfolding check_all_watched
check_all_watched-ready system d e = ground arith

pub scanned-IsSafe :
    (system : System) (d : Daemon)
    → d.reboot_lock ≡ none
    → (check_all_watched system d).1.1 ≡ true
    → IsSafe d
    → IsSafe (record d { volumes = (check_all_watched system d).0 })
scanned-IsSafe system d free busy h = record {
  settled = check_all_watched-IsSettled system d h.settled;
  exclusive = rw (free, check_all_watched-ready system d busy) tt;
}

pub handle_reboot_handoff-IsSafe :
    (system : System) (waiter : ℕ) (d : Daemon)
    → d.reboot_lock ≡ none
    → IsSafe d
    → IsSafe (handle_reboot_handoff system waiter d)
unfolding handle_reboot_handoff
handle_reboot_handoff-IsSafe system waiter d free h =
    elim (Bool-cases (check_all_watched system d).1.1) [
      | inl busy ↦ rw busy (scanned-IsSafe system d free busy h)
      | inr clean ↦ rw clean (record {
        settled = check_all_watched-IsSettled system d h.settled;
        exclusive =
            unlocked-IsExclusive _ _
              (check_all_watched-free system d (ground (arith, h.exclusive)) h.settled clean);
      })
    ]

pub changed-IsSafe :
    (id : ℕ) (v : WatchedVol) (d : Daemon) (ports : ℕ → ℕ)
    → is_closed d ≡ false
    → IsSettled v
    → IsSafe d
    → IsSafe (record d { volumes = put id v d.volumes; reply_ports = ports })
changed-IsSafe id v d ports opened s h = record {
  settled = put-All IsSettled id d.volumes v s h.settled;
  exclusive = rw opened tt;
}

-- A locked volume shows that the locks are opened.
pub locked-is_open :
    (id : ℕ) (v : WatchedVol) (d : Daemon)
    → IsSafe d
    → find id d.volumes ≡ some v
    → held v.lock ≡ true
    → is_closed d ≡ false
locked-is_open id v d h e locked = elim (Bool-cases (is_closed d)) [
  | inr opened ↦ opened
  | inl closed ↦
      absurd (
        ground (arith, found-All IsUnlocked id d.volumes v (ground (arith, h.exclusive, closed)) e))
]
