-- ===== src/Volumes/Tests.antt =====
-- Tests of the locks, and their theorems at concrete states.
use kext_tools.Common.{ℕ, ◌≡◌, ◌≤◌, refl, true, false, Option, none, some, List, [], ◌∷◌}
use kext_tools.Volumes.Data.{
  WatchedVol, create_watched_vol, Daemon, Moment, Checks, System, find, ok, enolck, ebusy, replied,
}
use kext_tools.Volumes.Rebuild.{
  any_extra_stale, wants_rebuild, check_boots_with, caches_stale, launch_rebuild,
  check_rebuild_with, check_rebuild_again, check_boots_set_nvram, check_rebuild, check_vol_busy,
  check_locked, check_all_watched, vol_appeared, reconsider_mounts, reconsider_volumes,
}
use kext_tools.Volumes.Locks.{
  cleanup_port, signal_waiter, next_locker, release, handle_watched_handoff, reboot_if_waiting,
  hand_over, reboot_busy, take_reboot_lock, check_and_lock_reboot, lock_reboot, flags_to_restore,
  lock_watched, lock_volume, account_for_exit, unlock_volume,
}
use kext_tools.Volumes.Reach.{
  volume_found, volume_locked, Reachable, at_start, after, watching, reboot_lock-excluded,
  unlocked_volume-served,
}
use kext_tools.Volumes.Order.{IsServed, handle_watched_handoff-IsServed}
use kext_tools.Volumes.Limits.{AllGivenUp, new_mounts, lock_reboot-granted}

abbrev up_to_date : Moment
up_to_date = record {
  get_out_of_my_way = false;
  boot_cache_stale = false;
  auto_rebuild_disabled = false;
  extra_kernel_caches = [];
  has_boots = some false;
  csfde_stale = false;
  needs_updates = false;
  launches = true;
}

abbrev always : Moment → ℕ → Checks
always c id = record { outer = c; inner = c }

abbrev calm : System
calm = record {
  checks = always up_to_date;
  starts_boot_root = λ _. false;
  port_created = λ _. true;
  delivered = λ reboot port. true;
  statfs = λ _. some 0x200000;
  auto_update_delayed = false;
  mounts = [];
}

abbrev stale : System
stale = record calm { checks = always (record up_to_date { boot_cache_stale = true }) }

-- Volume 7 appears, client 11 locks it, and client 12 waits.
abbrev found : Daemon
found = record watching { volumes = (vol_appeared calm 7 "/" []).0 }

abbrev locked : Daemon
locked = (lock_volume calm true 21 11 7 false true found).0

abbrev queued : Daemon
queued = (lock_volume calm true 22 12 7 true true locked).0

Reachable-queued : Reachable queued
Reachable-queued =
    after
      (after (after at_start (volume_found calm 7 "/" refl refl))
        (volume_locked calm true 21 11 7 false true))
      (volume_locked calm true 22 12 7 true true)

abbrev root_volume : Option ℕ → List ℕ → ℕ → WatchedVol
root_volume lock waiters flags = record {
  root = "/";
  delayer = false;
  lock = lock;
  waiters = waiters;
  updterrs = 0;
  updtattempts = 0;
  orig_mnt_flags = flags;
  is_boot_root = false;
}

abbrev volume_7 : WatchedVol
volume_7 = root_volume (some 11) (12 ∷ []) 0x200000

queued_volume : find 7 queued.volumes ≡ some (root_volume (some 11) (12 ∷ []) 0x200000)
unfolding lock_volume lock_watched vol_appeared create_watched_vol check_rebuild check_rebuild_with
    check_boots_with caches_stale launch_rebuild any_extra_stale flags_to_restore
queued_volume = refl

-- The hand-over to the client that waits.
handed : (unlock_volume calm true 11 7 0 queued).0.volumes ≡ (7, root_volume (some 12) [] 0) ∷ []
unfolding lock_volume lock_watched vol_appeared create_watched_vol check_rebuild check_rebuild_with
    check_boots_with caches_stale launch_rebuild any_extra_stale flags_to_restore unlock_volume
    hand_over handle_watched_handoff next_locker release signal_waiter reboot_if_waiting
    account_for_exit cleanup_port
handed = refl

-- A reboot is refused while the volume is locked, and the volume once the reboot is under way.
reboot_refused : (lock_reboot calm true 31 13 false true queued).1 ≡ replied ebusy
unfolding lock_volume lock_watched vol_appeared create_watched_vol check_rebuild check_rebuild_with
    check_boots_with caches_stale launch_rebuild any_extra_stale flags_to_restore lock_reboot
    check_and_lock_reboot check_all_watched check_locked check_vol_busy reboot_busy
reboot_refused = refl

volume_refused :
    (lock_volume calm true 21 11 7 false true (lock_reboot calm true 31 13 false true found).0).1
    ≡ replied enolck
unfolding lock_volume lock_watched vol_appeared create_watched_vol check_rebuild check_rebuild_with
    check_boots_with caches_stale launch_rebuild any_extra_stale lock_reboot check_and_lock_reboot
    check_all_watched check_locked check_vol_busy reboot_busy take_reboot_lock reconsider_volumes
    reconsider_mounts
volume_refused = refl

update_launched : (check_vol_busy (stale.checks 7) (root_volume none [] 0)).1 ≡ true
unfolding check_vol_busy check_rebuild check_rebuild_with check_boots_with caches_stale
    launch_rebuild
update_launched = refl

-- A volume that gains a helper partition after 25 updates is updated twice by one call.
abbrev gained : Checks
gained = always (record up_to_date { has_boots = some true; needs_updates = true }) 7

updated_twice :
    (check_rebuild gained (record (root_volume none [] 0) { updtattempts = 25 })).0.updtattempts
    ≡ 27
unfolding check_rebuild check_rebuild_with check_rebuild_again check_boots_with caches_stale
    launch_rebuild any_extra_stale
updated_twice = refl

reboot_lock-excluded_example : queued.reboot_lock ≡ none
reboot_lock-excluded_example =
    reboot_lock-excluded queued 7 (root_volume (some 11) (12 ∷ []) 0x200000) Reachable-queued
      queued_volume refl

unlocked_volume-served_example :
    (volume_7.updtattempts ≤ 27)
    × (volume_7.lock ≡ none → (volume_7.waiters ≡ []) × (volume_7.orig_mnt_flags ≡ 0))
unlocked_volume-served_example =
    unlocked_volume-served queued 7 volume_7 Reachable-queued queued_volume

abbrev one_lost : System
one_lost = record calm { delivered = λ reboot port. false }

handle_watched_handoff-IsServed_example :
    IsServed one_lost none
      (12 ∷ 14 ∷ [])
      (release (some 11) (λ port. port))
      (handle_watched_handoff one_lost none
        (root_volume (some 11) (12 ∷ 14 ∷ []) 0)
        (λ port. port)).0.lock
      (handle_watched_handoff one_lost none
        (root_volume (some 11) (12 ∷ 14 ∷ []) 0)
        (λ port. port)).0.waiters
handle_watched_handoff-IsServed_example =
    handle_watched_handoff-IsServed one_lost none (root_volume (some 11) (12 ∷ 14 ∷ []) 0)
      (λ port. port)

abbrev given_up_state : Daemon
given_up_state = record watching {
  volumes = (7, record (root_volume none [] 0) { updterrs = 5 }) ∷ [];
}

given_up : AllGivenUp stale.checks given_up_state.volumes
unfolding wants_rebuild caches_stale any_extra_stale check_boots_set_nvram check_boots_with
given_up = (record { free = refl; spent = refl }, tt)

no_new_mounts : (new_mounts stale given_up_state).1.1 ≡ false
unfolding reconsider_volumes reconsider_mounts
no_new_mounts = refl

lock_reboot-granted_example :
    ((lock_reboot stale true 31 13 true true given_up_state).1 ≡ replied ok)
    × ((lock_reboot stale true 31 13 true true given_up_state).0.reboot_lock ≡ some 13)
lock_reboot-granted_example =
    lock_reboot-granted stale 31 13 true given_up_state refl given_up no_new_mounts refl
