-- ===== src/Volumes/Locks.antt =====
-- kextd_watchvol.c: the handlers that lock and unlock volumes and the whole system for reboot.
-- The rights to ports that the system counts, the log and updateMount's effect on the mount are
-- not part of the state.
use Prim.Native.Nat.{bit_and}
use kext_tools.Common.{
  ℕ, ◌+◌, Bool, true, false, not, Option, none, some, List, [], ◌∷◌, ◌++◌, if◌then◌else◌, ◌==◌,
  ◌&&◌,
}
use kext_tools.Volumes.Data.{
  WatchedVol, System, Daemon, Reply, replied, no_reply, invalid_argument, failure, ok, einval,
  eperm, eagain, enolck, enoent, ebusy, ealready, find, put, set_port, is_port, held,
}
use kext_tools.Volumes.Rebuild.{check_all_watched, reconsider_volumes}

-- cleanupPort, as far as sReplyPorts goes.
unfoldable pub cleanup_port : ℕ → (ℕ → ℕ) → ℕ → ℕ
cleanup_port port ports = set_port port 0 ports

-- The reply ports that are left, and whether the reply was delivered.
unfoldable pub signal_waiter : System → Option ℕ → ℕ → (ℕ → ℕ) → (ℕ → ℕ) × Bool
signal_waiter system reboot_waiter waiter ports =
    let reply_port = ports waiter in
    (
      set_port waiter 0 ports,
      not (reply_port == 0) && system.delivered (is_port reboot_waiter waiter) reply_port,
    )

unfoldable pub handle_reboot_handoff : System → ℕ → Daemon → Daemon
handle_reboot_handoff system waiter d =
    let (volumes, (busy_vol, busy)) = check_all_watched system d in
    let d' = record d { volumes = volumes } in
    if busy
    then d'
    else (let (ports, delivered) = signal_waiter system d.reboot_waiter waiter d.reply_ports in
        record d' {
          reply_ports = ports;
          reboot_lock = if delivered then some waiter else d.reboot_lock;
          reboot_waiter = none;
        })

-- The new locker, the waiters behind it, and the reply ports.
unfoldable pub next_locker : System → Option ℕ → List ℕ → (ℕ → ℕ) → Option ℕ × (List ℕ × (ℕ → ℕ))
next_locker system reboot_waiter [] ports = (none, ([], ports))
next_locker system reboot_waiter (waiter ∷ waiters) ports =
    let (ports', delivered) = signal_waiter system reboot_waiter waiter ports in
    let rest = next_locker system reboot_waiter waiters (cleanup_port waiter ports') in
    if delivered then (some waiter, (waiters, ports')) else rest

unfoldable pub release : Option ℕ → (ℕ → ℕ) → ℕ → ℕ
release none ports = ports
release (some locker) ports = cleanup_port locker ports

unfoldable pub handle_watched_handoff :
    System → Option ℕ → WatchedVol → (ℕ → ℕ) → WatchedVol × (ℕ → ℕ)
handle_watched_handoff system reboot_waiter v ports =
    let (lock, (waiters, ports')) =
      next_locker system reboot_waiter v.waiters (release v.lock ports) in
    (record v { lock = lock; waiters = waiters }, ports')

-- `if (!sRebootLock && sRebootWaiter) handleRebootHandoff()`.
unfoldable pub reboot_if_waiting : System → Daemon → Daemon
reboot_if_waiting system d =
    if held d.reboot_lock
    then d
    else elim d.reboot_waiter [ none ↦ d | some waiter ↦ handle_reboot_handoff system waiter d ]

-- What follows a volume's unlocking, in unlock_volume and port_died.
unfoldable pub hand_over : System → ℕ → WatchedVol → Daemon → Daemon
hand_over system id v d =
    let restored = record v { orig_mnt_flags = 0 } in
    let (v', ports) = handle_watched_handoff system d.reboot_waiter restored d.reply_ports in
    reboot_if_waiting system (record d { volumes = put id v' d.volumes; reply_ports = ports })

-- The reply after the wait: only one process waits for the reboot.
unfoldable pub reboot_busy : System → ℕ → ℕ → Bool → Daemon → Daemon × Reply
reboot_busy system reply_port client wait_for_lock d =
    if wait_for_lock && not (held d.reboot_waiter)
    then (if system.port_created client
        then (
          record d {
            reboot_waiter = some client;
            reply_ports = set_port client reply_port d.reply_ports;
          },
          no_reply,
        )
        else (d, replied ebusy))
    else (d, replied ebusy)

unfoldable pub take_reboot_lock : System → ℕ → Daemon → Daemon × Reply
take_reboot_lock system client d =
    if system.port_created client
    then (record d { reboot_lock = some client }, replied ok)
    else (d, failure)

unfoldable pub check_and_lock_reboot : System → ℕ → ℕ → Bool → Daemon → Daemon × Reply
check_and_lock_reboot system reply_port client wait_for_lock d =
    let (volumes, (busy_vol, busy)) = check_all_watched system d in
    if busy
    then reboot_busy system reply_port client wait_for_lock (record d { volumes = volumes })
    else (let (volumes', (busy_vol', launched)) = reconsider_volumes system volumes busy_vol in
        let d' = record d { volumes = volumes' } in
        if launched
        then reboot_busy system reply_port client wait_for_lock d'
        else take_reboot_lock system client d')

unfoldable pub lock_reboot : System → Bool → ℕ → ℕ → Bool → Bool → Daemon → Daemon × Reply
lock_reboot system client_is_root reply_port client wait_for_lock has_status d =
    if not has_status
    then (d, replied einval)
    else if not client_is_root
    then (d, replied eperm)
    else if held d.reboot_lock
    then (d, replied ealready)
    else check_and_lock_reboot system reply_port client wait_for_lock d

abbrev pub ignore_ownership_cleared : ℕ
ignore_ownership_cleared = 0xffdfffff

-- The mount flags to restore when the lock goes: those of a mount that ignores owners.
unfoldable pub flags_to_restore : Option ℕ → ℕ → ℕ
flags_to_restore none before = before
flags_to_restore (some flags) before =
    if flags == bit_and flags ignore_ownership_cleared then before else flags

unfoldable pub lock_watched : System → ℕ → ℕ → ℕ → Bool → WatchedVol → Daemon → Daemon × Reply
lock_watched system reply_port client id wait_for_lock v d =
    if not (held v.lock)
    then (if system.port_created client
        then (
          record d {
            volumes =
                put id
                  (record v {
                    lock = some client;
                    orig_mnt_flags = flags_to_restore (system.statfs id) v.orig_mnt_flags;
                  })
                  d.volumes;
          },
          replied ok,
        )
        else (d, failure))
    else if not wait_for_lock
    then (d, replied ebusy)
    else if system.port_created client
    then (
      record d {
        volumes = put id (record v { waiters = v.waiters ++ client ∷ [] }) d.volumes;
        reply_ports = set_port client reply_port d.reply_ports;
      },
      no_reply,
    )
    else (d, failure)

unfoldable pub lock_volume : System → Bool → ℕ → ℕ → ℕ → Bool → Bool → Daemon → Daemon × Reply
lock_volume system client_is_root reply_port client id wait_for_lock has_status d =
    if not has_status
    then (d, invalid_argument)
    else if not client_is_root
    then (d, replied eperm)
    else if not d.ready
    then (d, replied eagain)
    else if held d.reboot_lock
    then (d, replied enolck)
    else elim (find id d.volumes) [
      | none ↦ (d, replied enoent)
      | some v ↦ lock_watched system reply_port client id wait_for_lock v d
    ]

unfoldable pub account_for_exit : ℕ → WatchedVol → WatchedVol
account_for_exit exit_status v =
    if exit_status == 0
    then (if v.updterrs == 0 then v else record v { updterrs = 0; updtattempts = 0 })
    else record v { updterrs = v.updterrs + 1 }

-- The daemon, and whether rval is KERN_SUCCESS.
unfoldable pub unlock_volume : System → Bool → ℕ → ℕ → ℕ → Daemon → Daemon × Bool
unlock_volume system client_is_root client id exit_status d =
    if not client_is_root
    then (d, true)
    else if not d.ready
    then (d, false)
    else elim (find id d.volumes) [
      | none ↦ (d, false)
      | some v ↦
          if is_port v.lock client
          then (hand_over system id (account_for_exit exit_status v) d, true)
          else (d, false)
    ]

-- The last waiter with that port leaves the queue.
unfoldable pub remove_last : ℕ → List ℕ → Option (List ℕ)
remove_last port [] = none
remove_last port (w ∷ ws) = elim (remove_last port ws) [
  | some ws' ↦ some (w ∷ ws')
  | none ↦ if w == port then some ws else none
]

-- port_died, for the ports that were created for the reboot lock.
unfoldable pub reboot_port_died : ℕ → Daemon → Daemon
reboot_port_died port d =
    if is_port d.reboot_lock port
    then record d { reboot_lock = none; reply_ports = cleanup_port port d.reply_ports }
    else if is_port d.reboot_waiter port
    then record d { reboot_waiter = none; reply_ports = cleanup_port port d.reply_ports }
    else d

unfoldable pub drop_waiter : ℕ → ℕ → WatchedVol → Daemon → Option (List ℕ) → Daemon
drop_waiter port id v d none = d
drop_waiter port id v d (some waiters) = record d {
  volumes = put id (record v { waiters = waiters }) d.volumes;
  reply_ports = cleanup_port port d.reply_ports;
}

-- port_died, for a port that was created for a volume.
unfoldable pub volume_port_died : System → ℕ → ℕ → Daemon → Daemon
volume_port_died system port id d = elim (find id d.volumes) [
  | none ↦ record d { reply_ports = cleanup_port port d.reply_ports }
  | some v ↦
      if is_port v.lock port
      then hand_over system id (record v { updterrs = v.updterrs + 1 }) d
      else drop_waiter port id v d (remove_last port v.waiters)
]
