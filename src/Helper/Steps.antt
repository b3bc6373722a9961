-- ===== src/Helper/Steps.antt =====
-- update_boot.c: the steps of the exchange of directories, one by one.
use kext_tools.Common.{ℕ, ◌≡◌, refl, false, arith}
use kext_tools.Helper.Data.{Up, System, whole}
use kext_tools.Helper.Rps.{found, erase_rps, find_rps_dir, rename_previous, erase_previous}
use kext_tools.Helper.Safe.{current_dir, IsSafe, IsSound, all_exist}
use kext_tools.Helper.Exchange.{Keeps, IsCopied}

pub find_rps_dir-none :
    (system : System) (up : Up) → all_exist up.disk ≡ false → find_rps_dir system up ≡ (up, 0)
unfolding find_rps_dir
find_rps_dir-none system up two = rw (find_rps_dir, two) refl

pub erase_previous-IsSound : (system : System) → Keeps IsSound (erase_previous system)
unfolding erase_previous find_rps_dir erase_rps
erase_previous-IsSound system up h = record {
  complete = ground (arith, h.complete);
  ever = ground (arith, h.complete, h.ever);
}

pub erase_previous-IsSafe : (system : System) → Keeps IsSafe (erase_previous system)
unfolding erase_previous find_rps_dir erase_rps
erase_previous-IsSafe system up h = record {
  able = ground (arith, h.able);
  ever = ground (arith, h.able, h.ever);
}

-- The version that the booter finds does not change by the erasure.
pub erase_previous-version :
    (system : System) (up : Up) (v : ℕ)
    → current_dir up.disk ≡ whole v
    → current_dir (erase_previous system up).0.disk ≡ whole v
unfolding erase_previous find_rps_dir erase_rps
erase_previous-version system up v h = ground (arith, h)

pub rename_previous-IsSound :
    (system : System) (v : ℕ) (up : Up)
    → IsCopied v up
    → IsSound (rename_previous system (found up.disk) up).0
unfolding rename_previous
rename_previous-IsSound system v up h = record {
  complete = ground (arith, h.sound.complete, h.content, h.place);
  ever = ground (arith, h.sound.complete, h.content, h.place, h.sound.ever);
}

pub rename_previous-version :
    (system : System) (v : ℕ) (up : Up)
    → IsCopied v up
    → (rename_previous system (found up.disk) up).1 ≡ 0
    → current_dir (rename_previous system (found up.disk) up).0.disk ≡ whole v
unfolding rename_previous
rename_previous-version system v up h e = ground (arith, h.sound.complete, h.content, h.place)
