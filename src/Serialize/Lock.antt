-- ===== src/Serialize/Lock.antt =====
-- kextd_serialize_kextload.c: the handlers of the kextutil lock; kextd_request.c: svc_kextd_ping.
-- The lock is a dispatch source on its client's port, which stays in place from its cancellation
-- until dispatch runs its cancel handler.
use kext_tools.Common.{ℕ, Bool, true, false, not, Option, none, some, if◌then◌else◌, ◌==◌}

pub record KextloadLock : Type 0 where
  pub lock : Option ℕ
  pub cancelled : Bool
  pub kernel_requests_pending : Bool

pub data Status : Type 0 where
  ok einval eperm ebusy failure : Status

abbrev pub locked : KextloadLock → Bool
locked s = elim s.lock [ none ↦ false | some client ↦ true ]

-- Where the kext tools are disabled, the requests are left alone.
unfoldable pub process_kernel_requests : Bool → KextloadLock → KextloadLock
process_kernel_requests disabled s =
    if disabled then s else record s { kernel_requests_pending = false }

unfoldable pub remove_kextutil_lock : Bool → KextloadLock → KextloadLock
unfolding process_kernel_requests
remove_kextutil_lock disabled s =
    let s = if locked s then record s { cancelled = true } else s in
    if s.kernel_requests_pending then process_kernel_requests disabled s else s

unfoldable pub lock_kextload : Bool → Bool → Bool → Bool → ℕ → KextloadLock → KextloadLock × Status
lock_kextload disabled source_created has_status client_is_root client s =
    if not has_status
    then (s, einval)
    else if not client_is_root
    then (s, eperm)
    else if locked s
    then (s, ebusy)
    else if source_created
    then (record s { lock = some client; cancelled = false }, ok)
    else (remove_kextutil_lock disabled s, failure)

-- The lock, and whether the result is KERN_SUCCESS; without a lock the source asks dispatch for
-- the handle of NULL, and there is no result.
unfoldable pub unlock_kextload : Bool → Bool → ℕ → KextloadLock → Option (KextloadLock × Bool)
unlock_kextload disabled client_is_root client s =
    if not client_is_root then some (s, true) else elim s.lock [
      | none ↦ none
      | some holder ↦
          if client == holder then some (remove_kextutil_lock disabled s, true) else some (s, false)
    ]

-- The handler of the source's event: its client has died.
unfoldable pub client_exited : Bool → KextloadLock → KextloadLock
client_exited disabled s = remove_kextutil_lock disabled s

unfoldable pub cancel_handler : KextloadLock → KextloadLock
cancel_handler s = record s { lock = none; cancelled = false }

unfoldable pub kextd_ping : Bool → KextloadLock → KextloadLock
kextd_ping disabled s =
    if locked s
    then record s { kernel_requests_pending = true }
    else process_kernel_requests disabled s
