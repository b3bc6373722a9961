-- ===== src/Serialize/Holder.antt =====
-- kextd_serialize_kextload.c: who can take the lock from its holder, and what its release forgets.
use kext_tools.Common.{ℕ, ◌≡◌, ◌≢◌, Bool, true, false, none, some, ◌⊎◌, arith}
use kext_tools.Serialize.Lock.{
  KextloadLock, ok, locked, process_kernel_requests, remove_kextutil_lock, lock_kextload,
  unlock_kextload, client_exited, cancel_handler, kextd_ping,
}

-- What the run loop handles: dispatch runs a cancel handler after the cancellation alone, and the
-- event of a source that is not cancelled.
pub data Step (s : KextloadLock) : KextloadLock → Type 0 where
  lock_asked :
      (disabled created has_status is_root : Bool) (client : ℕ)
      → Step s (lock_kextload disabled created has_status is_root client s).0
  unlock_asked :
      (disabled is_root : Bool) (client : ℕ) (s' : KextloadLock) (success : Bool)
      → unlock_kextload disabled is_root client s ≡ some (s', success)
      → Step s s'
  exited :
      (disabled : Bool) → locked s ≡ true → s.cancelled ≡ false → Step s (client_exited disabled s)
  cancel_handled : s.cancelled ≡ true → Step s (cancel_handler s)
  pinged : (disabled : Bool) → Step s (kextd_ping disabled s)

-- The step is the release of the lock: the holder's unlocking, as root, or the holder's death.
abbrev pub IsRelease : ℕ → (s s' : KextloadLock) → Step s s' → Type 0
IsRelease holder s _ (lock_asked disabled created has_status is_root client) = ⊥
IsRelease holder s _ (unlock_asked disabled is_root client s' success e) =
    (is_root ≡ true) × (client ≡ holder)
IsRelease holder s _ (exited disabled e e') = Unit {0}
IsRelease holder s _ (cancel_handled e) = ⊥
IsRelease holder s _ (pinged disabled) = ⊥

-- While a client holds the lock and has not released it, no step takes the lock away: it is still
-- held by that client afterwards, and it is not cancelled either, unless the step is the client's
-- own unlocking or its death.
pub holder-keeps :
    (holder : ℕ) (s s' : KextloadLock) (step : Step s s')
    → s.lock ≡ some holder
    → s.cancelled ≡ false
    → (s'.lock ≡ some holder) × ((s'.cancelled ≡ false) ⊎ IsRelease holder s s' step)
unfolding lock_kextload unlock_kextload client_exited remove_kextutil_lock process_kernel_requests
    kextd_ping
holder-keeps holder s _ (lock_asked disabled created has_status is_root client) h c = ground arith
holder-keeps holder s _ (unlock_asked disabled is_root client s' success e) h c = ground arith
holder-keeps holder s _ (exited disabled e e') h c = ground arith
holder-keeps holder s _ (cancel_handled e) h c = absurd (ground arith)
holder-keeps holder s _ (pinged disabled) h c = ground arith

-- When the kernel pings between the holder's unlocking and the cancel handler, its requests are
-- still pending when the lock is gone: nothing is left that will process them but a later ping or
-- a later release. In between a second client that asks for the lock is refused.
pub request_left_behind :
    (disabled is_root : Bool) (holder other : ℕ) (s : KextloadLock)
    → s.lock ≡ some holder
    → (released : KextloadLock) × (unlock_kextload disabled true holder s ≡ some (released, true))
      × ((lock_kextload disabled true true is_root other released).1 ≢ ok)
      × ((cancel_handler (kextd_ping disabled released)).lock ≡ none)
      × ((cancel_handler (kextd_ping disabled released)).kernel_requests_pending ≡ true)
unfolding lock_kextload unlock_kextload remove_kextutil_lock process_kernel_requests kextd_ping
    cancel_handler
request_left_behind disabled is_root holder other s h =
    (remove_kextutil_lock disabled s, ground arith, ground arith, ground arith, ground arith)
