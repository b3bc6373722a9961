-- ===== src/Serialize/Tests.antt =====
-- Tests of the kextutil lock, and its theorems at concrete states.
use kext_tools.Common.{◌≡◌, ◌≢◌, ◌⊎◌, refl, true, false, none, some}
use kext_tools.Serialize.Lock.{
  KextloadLock, ok, ebusy, lock_kextload, unlock_kextload, cancel_handler, kextd_ping,
  remove_kextutil_lock, process_kernel_requests,
}
use kext_tools.Serialize.Holder.{Step, unlock_asked, IsRelease, holder-keeps, request_left_behind}

abbrev nobody : KextloadLock
nobody = record { lock = none; cancelled = false; kernel_requests_pending = false }

abbrev held_by_5 : KextloadLock
held_by_5 = record nobody { lock = some 5 }

granted : lock_kextload false true true true 5 nobody ≡ (held_by_5, ok)
unfolding lock_kextload
granted = refl

refused : lock_kextload false true true true 9 held_by_5 ≡ (held_by_5, ebusy)
unfolding lock_kextload
refused = refl

unlock_without_lock : unlock_kextload false true 5 nobody ≡ none
unfolding unlock_kextload
unlock_without_lock = refl

abbrev released_by_5 : KextloadLock
released_by_5 = record held_by_5 { cancelled = true }

unlocked : unlock_kextload false true 5 held_by_5 ≡ some (released_by_5, true)
unfolding unlock_kextload remove_kextutil_lock process_kernel_requests
unlocked = refl

abbrev unlocks : Step held_by_5 released_by_5
unlocks = unlock_asked false true 5 released_by_5 true unlocked

holder-keeps_example :
    (released_by_5.lock ≡ some 5)
    × ((released_by_5.cancelled ≡ false) ⊎ IsRelease 5 held_by_5 released_by_5 unlocks)
holder-keeps_example = holder-keeps 5 held_by_5 released_by_5 unlocks refl refl

request_left_behind_example :
    (released : KextloadLock) × (unlock_kextload false true 5 held_by_5 ≡ some (released, true))
    × ((lock_kextload false true true true 9 released).1 ≢ ok)
    × ((cancel_handler (kextd_ping false released)).lock ≡ none)
    × ((cancel_handler (kextd_ping false released)).kernel_requests_pending ≡ true)
request_left_behind_example = request_left_behind false true 5 9 held_by_5 refl
