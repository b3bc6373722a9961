-- ===== src/Volumes/Limits.antt =====
-- kextd_watchvol.c: the error limits and the reboot lock.
use kext_tools.Common.{
  ℕ, ◌≡◌, refl, String, Bool, true, false, not, Option, none, some, List, [], ◌∷◌, if◌then◌else◌,
  leb, str_eq, ◌||◌, arith,
}
use kext_tools.Volumes.Data.{WatchedVol, Entry, Daemon, Checks, System, held, ok, ealready, replied}
use kext_tools.Volumes.Rebuild.{
  max_update_failures, max_update_attempts, wants_rebuild, check_boots_set_nvram,
  check_rebuild_with, launch_rebuild, check_rebuild, check_vol_busy, check_locked,
  check_all_watched, reconsider_volumes,
}
use kext_tools.Volumes.Locks.{reboot_busy, take_reboot_lock, check_and_lock_reboot, lock_reboot}

-- Nobody has locked the volume, and its updates failed too often or were too many, or its files
-- are up to date, or kextd is told to stay out of the way.
pub record IsGivenUp (c : Checks) (v : WatchedVol) : Type 0 where
  pub free : v.lock ≡ none
  pub spent :
      (c.outer.get_out_of_my_way
        || (not (wants_rebuild c v)
            || (leb max_update_failures v.updterrs || leb max_update_attempts v.updtattempts)))
      ≡ true

abbrev pub AllGivenUp : (ℕ → Checks) → List Entry → Type 0
AllGivenUp checks [] = Unit {0}
AllGivenUp checks ((id, v) ∷ vs) = IsGivenUp (checks id) v × AllGivenUp checks vs

given_up-free : (c : Checks) (v : WatchedVol) → IsGivenUp c v → (check_vol_busy c v).1 ≡ false
unfolding check_vol_busy check_rebuild check_rebuild_with launch_rebuild wants_rebuild
    check_boots_set_nvram
given_up-free c v h = ground (arith, h.free, h.spent)

given_up-quiet :
    (checks : ℕ → Checks) (vs : List Entry)
    → AllGivenUp checks vs
    → (check_locked checks vs "").1 ≡ ""
unfolding check_locked
given_up-quiet checks [] h = refl
given_up-quiet checks ((id, v) ∷ vs) h =
    ground (arith, given_up-free (checks id) v h.0, given_up-quiet checks vs h.1)

check_all_watched-quiet :
    (system : System) (d : Daemon)
    → AllGivenUp system.checks d.volumes
    → (check_all_watched system d).1.1 ≡ false
unfolding check_all_watched
check_all_watched-quiet system d h =
    let empty : str_eq (check_locked system.checks d.volumes "").1 "" ≡ true =
      rw (given_up-quiet system.checks d.volumes h) refl in
    ground (arith, empty)

-- The volumes that the request finds new, after its scan.
abbrev pub new_mounts : System → Daemon → List Entry × (String × Bool)
new_mounts system d =
    let scan = check_all_watched system d in reconsider_volumes system scan.0 scan.1.0

locked_or_not :
    (system : System) (reply_port client : ℕ) (wait : Bool) (d : Daemon) (volumes : List Entry)
    (launched : Bool)
    → launched ≡ false
    → system.port_created client ≡ true
    → let result =
        (if launched
          then reboot_busy system reply_port client wait (record d { volumes = volumes })
          else take_reboot_lock system client (record d { volumes = volumes })) in
      (result.1 ≡ replied ok) × (result.0.reboot_lock ≡ some client)
unfolding take_reboot_lock
locked_or_not system reply_port client wait d volumes true l p = absurd (ground arith)
locked_or_not system reply_port client wait d volumes false l p = ground (arith, p)

check_and_lock_reboot-granted :
    (system : System) (reply_port client : ℕ) (wait : Bool) (d : Daemon)
    → AllGivenUp system.checks d.volumes
    → (new_mounts system d).1.1 ≡ false
    → system.port_created client ≡ true
    → ((check_and_lock_reboot system reply_port client wait d).1 ≡ replied ok)
      × ((check_and_lock_reboot system reply_port client wait d).0.reboot_lock ≡ some client)
unfolding check_and_lock_reboot
check_and_lock_reboot-granted system reply_port client wait d h m p =
    rw (check_and_lock_reboot, check_all_watched-quiet system d h)
      (locked_or_not system reply_port client wait d _ _ m p)

-- When nobody holds the reboot lock, root's request for it is granted at once, if each watched
-- volume is unlocked and either up to date or given up (its updates failed 5 times, or were
-- launched 25 times, or kextd is told to stay out of the way), no update is launched for a mount
-- that is new, and a port can be made.
pub lock_reboot-granted :
    (system : System) (reply_port client : ℕ) (wait : Bool) (d : Daemon)
    → d.reboot_lock ≡ none
    → AllGivenUp system.checks d.volumes
    → (new_mounts system d).1.1 ≡ false
    → system.port_created client ≡ true
    → ((lock_reboot system true reply_port client wait true d).1 ≡ replied ok)
      × ((lock_reboot system true reply_port client wait true d).0.reboot_lock ≡ some client)
unfolding lock_reboot
lock_reboot-granted system reply_port client wait d f h m p =
    by_lock d.reboot_lock f (check_and_lock_reboot-granted system reply_port client wait d h m p)
  where
    by_lock :
        (lock : Option ℕ)
        → lock ≡ none
        → ((check_and_lock_reboot system reply_port client wait d).1 ≡ replied ok)
          × ((check_and_lock_reboot system reply_port client wait d).0.reboot_lock ≡ some client)
        → let result =
            (if held lock
              then (d, replied ealready)
              else check_and_lock_reboot system reply_port client wait d) in
          (result.1 ≡ replied ok) × (result.0.reboot_lock ≡ some client)
    by_lock none e g = g
    by_lock (some locker) e g = absurd (ground arith)
