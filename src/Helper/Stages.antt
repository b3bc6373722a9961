-- ===== src/Helper/Stages.antt =====
-- update_boot.c: the conditions between the steps of an update, and that the other steps keep them.
use kext_tools.Common.{ℕ, ◌≡◌, ◌∙◌, true, false, arith, inl, inr, ◌⊎◌}
use kext_tools.Helper.Data.{
  Disk, Reversion, Target, Up, System, get, rock, paper, scissors, whole, nothing_serious, rps,
  flat,
}
use kext_tools.Helper.Rps.{sync, activate_rps}
use kext_tools.Helper.Safe.{current_dir, IsSafe, IsSound}
use kext_tools.Helper.Exchange.{IsCopied}
use kext_tools.Helper.Kept.{HasSameDirs, IsClosed}
use kext_tools.Helper.Steps.{find_rps_dir-none, rename_previous-IsSound, rename_previous-version}

-- The new files are in use.
pub record IsUpdated (v : ℕ) (up : Up) : Type 0 where
  pub sound : IsSound up
  pub current : current_dir up.disk ≡ whole v

pub activate_rps-IsSound :
    (system : System) (v : ℕ) (up : Up) → IsCopied v up → IsSound (activate_rps system up).0
unfolding activate_rps sync
activate_rps-IsSound system v up h = ground (
  arith,
  find_rps_dir-none system up (ground (arith, h.place)),
  rename_previous-IsSound system v up h,
  h.sound,
)

pub activate_rps-IsUpdated :
    (system : System) (v : ℕ) (up : Up)
    → system.to_flat ≡ false
    → IsCopied v up
    → (activate_rps system up).1 ≡ 0
    → IsUpdated v (activate_rps system up).0
unfolding activate_rps sync
activate_rps-IsUpdated system v up t h e =
    let none_left = find_rps_dir-none system up (ground (arith, h.place)) in
    record {
      sound = ground (arith, none_left, rename_previous-IsSound system v up h, h.sound);
      current = ground (arith, none_left, rename_previous-version system v up h);
    }

-- Between ucopyRPS and activateRPS.
abbrev pub Between : ℕ → Up → Type 0
Between v up = ((up.do_rps ≡ true) × IsCopied v up) ⊎ ((up.do_rps ≡ false) × IsSound up)

-- Behind activateRPS.
abbrev pub Behind : ℕ → Up → Type 0
Behind v up = ((up.do_rps ≡ true) × IsUpdated v up) ⊎ ((up.do_rps ≡ false) × IsSound up)

-- Where a step has failed: in ucopyRPS, or later.
abbrev pub Failed : Up → Type 0
Failed up = (IsSafe up × (up.changestate ≡ nothing_serious)) ⊎ IsSound up

pub IsSound-closed : IsClosed IsSound
IsSound-closed up d s same h = record {
  complete = ground (arith, h.complete, same);
  ever = ground (arith, h.complete, h.ever, same);
}

pub IsSound-stated :
    (up : Up) (s : Reversion) → IsSound up → IsSound (record up { changestate = s })
IsSound-stated up s h = record { complete = h.complete; ever = h.ever }

same_target : (t : Target) (d d' : Disk) → HasSameDirs d d' → get t d ≡ get t d'
same_target (rps rock) d d' same = same.0
same_target (rps paper) d d' same = same.1
same_target (rps scissors) d d' same = same.2
same_target flat d d' same = same.3

IsCopied-closed : (v : ℕ) → IsClosed (IsCopied v)
IsCopied-closed v up d s same h = record {
  sound = IsSound-closed up d s same h.sound;
  content = same_target up.dst d up.disk same ∙ h.content;
  place = ground (arith, h.place, same);
}

IsCopied-stated :
    (v : ℕ) (up : Up) (s : Reversion) → IsCopied v up → IsCopied v (record up { changestate = s })
IsCopied-stated v up s h = record {
  sound = IsSound-stated up s h.sound;
  content = h.content;
  place = h.place;
}

pub Between-closed : (v : ℕ) → IsClosed (Between v)
Between-closed v up d s same (inl (r, h)) = inl (r, IsCopied-closed v up d s same h)
Between-closed v up d s same (inr (r, h)) = inr (r, IsSound-closed up d s same h)

pub Between-stated :
    (v : ℕ) (up : Up) (s : Reversion) → Between v up → Between v (record up { changestate = s })
Between-stated v up s (inl (r, h)) = inl (r, IsCopied-stated v up s h)
Between-stated v up s (inr (r, h)) = inr (r, IsSound-stated up s h)

pub Between-IsSound : (v : ℕ) (up : Up) → Between v up → IsSound up
Between-IsSound v up (inl (r, h)) = h.sound
Between-IsSound v up (inr (r, h)) = h

pub IsUpdated-closed : (v : ℕ) → IsClosed (IsUpdated v)
IsUpdated-closed v up d s same h = record {
  sound = IsSound-closed up d s same h.sound;
  current = ground (arith, h.current, same);
}

pub Behind-closed : (v : ℕ) → IsClosed (Behind v)
Behind-closed v up d s same (inl (r, h)) = inl (r, IsUpdated-closed v up d s same h)
Behind-closed v up d s same (inr (r, h)) = inr (r, IsSound-closed up d s same h)

pub Behind-stated :
    (v : ℕ) (up : Up) (s : Reversion) → Behind v up → Behind v (record up { changestate = s })
Behind-stated v up s (inl (r, h)) =
    inl (r, record { sound = IsSound-stated up s h.sound; current = h.current })
Behind-stated v up s (inr (r, h)) = inr (r, IsSound-stated up s h)

pub Behind-IsSound : (v : ℕ) (up : Up) → Behind v up → IsSound up
Behind-IsSound v up (inl (r, h)) = h.sound
Behind-IsSound v up (inr (r, h)) = h
