-- ===== src/Helper/Phases.antt =====
-- update_boot.c: the phases of an update, in their order.
use kext_tools.Common.{◌≡◌, refl, ◌∙◌, Bool, true, false, if◌then◌else◌, arith, inl, inr}
use kext_tools.Helper.Data.{
  Reversion, Target, Up, Site, System, Op, ◌>>◌, when, paper, nothing_serious, rps, flat,
  extra_paper, stale_target, freed_for_recovery,
}
use kext_tools.Helper.Rps.{
  Found, found, erase_rps, find_rps_dir, bless_recovery, erase_rps_if_recovery_blessed, make_target,
  erase_target, copy_files, write_props, whole_target, fill_target, choose_target, ucopy_rps,
  rename_previous, sync, activate_rps,
}
use kext_tools.Helper.Booters.{ucopy_booters, activate_booters}
use kext_tools.Helper.Update.{
  copy_misc_files, put_label_aside, renew_booters, renew_misc, update_steps,
}
use kext_tools.Helper.Safe.{IsSound, CanFree}
use kext_tools.Helper.Exchange.{Keeps, seq-Keeps, when-Keeps, ucopy_rps-IsSafe, ucopy_rps-IsCopied}
use kext_tools.Helper.Kept.{copy_misc_files-Keeps, put_label_aside-Keeps}
use kext_tools.Helper.Reverted.{ucopy_booters-Keeps, activate_misc-Keeps, activate_booters-Keeps}
use kext_tools.Helper.Stages.{
  activate_rps-IsSound, activate_rps-IsUpdated, Between, Behind, Failed, Between-closed,
  Between-stated, Between-IsSound, Behind-closed, Behind-stated, Behind-IsSound,
}
use kext_tools.Helper.Outcome.{Outcome, seq-Outcome, result-Outcome, kept-Outcome, when-Outcome}

-- What is to be updated of the directories, and the state of the change.
abbrev HasFlags : Bool → Reversion → Up → Type 0
HasFlags b s up = (up.do_rps ≡ b) × (up.changestate ≡ s)

module _ (b : Bool) (s : Reversion) (system : System) where
  erase_rps-HasFlags : (site : Site) (t : Target) → Keeps (HasFlags b s) (erase_rps system site t)
  unfolding erase_rps
  erase_rps-HasFlags site t up h = ground (arith, h)

  find_rps_dir-HasFlags : Keeps (HasFlags b s) (find_rps_dir system)
  unfolding find_rps_dir
  find_rps_dir-HasFlags up h = ground (arith, h, erase_rps-HasFlags extra_paper (rps paper) up h)

  bless_recovery-HasFlags : Keeps (HasFlags b s) (bless_recovery system)
  unfolding bless_recovery
  bless_recovery-HasFlags up h = ground (arith, h)

  choose_target-HasFlags :
      (f : Found) (up : Up) → HasFlags b s up → HasFlags b s (choose_target system f up)
  unfolding choose_target erase_rps_if_recovery_blessed
  choose_target-HasFlags f up h =
      let aimed = record up { dst = if system.to_flat then flat else rps f.previous } in
      let blessed = bless_recovery-HasFlags aimed h in
      let erased =
        erase_rps-HasFlags freed_for_recovery (rps f.current) (bless_recovery system aimed).0
          blessed in
      ground (arith, h, blessed, erased)

  make_target-HasFlags : Keeps (HasFlags b s) (make_target system)
  unfolding make_target
  make_target-HasFlags up h = ground (arith, h)

  fill_target-HasFlags : Keeps (HasFlags b s) (fill_target system)
  unfolding fill_target erase_target copy_files write_props
  fill_target-HasFlags =
      seq-Keeps (HasFlags b s)
        (erase_target system >> make_target system >> copy_files system >> write_props system)
        (whole_target system)
        (seq-Keeps (HasFlags b s) (erase_target system >> make_target system >> copy_files system)
          (write_props system)
          (seq-Keeps (HasFlags b s) (erase_target system >> make_target system) (copy_files system)
            (seq-Keeps (HasFlags b s) (erase_target system) (make_target system)
              (λ up h. erase_rps-HasFlags stale_target up.dst up h) make_target-HasFlags)
            (λ up h. h))
          (λ up h. h))
        (λ up h. h)

  ucopy_rps-HasFlags : Keeps (HasFlags b s) (ucopy_rps system)
  unfolding ucopy_rps
  ucopy_rps-HasFlags up =
      seq-Keeps (HasFlags b s) (find_rps_dir system)
        (λ u. fill_target system (choose_target system (found up.disk) u)) find_rps_dir-HasFlags
        (λ u h. fill_target-HasFlags _ (choose_target-HasFlags (found up.disk) u h)) up

-- The condition under which an update starts.
pub record CanStart (system : System) (up : Up) : Type 0 where
  pub in_place : system.to_flat ≡ false
  pub frees : CanFree system up.disk
  pub sound : IsSound up
  pub fresh : up.changestate ≡ nothing_serious

activate_rps-do_rps : (system : System) (up : Up) → (activate_rps system up).0.do_rps ≡ up.do_rps
unfolding activate_rps sync rename_previous
activate_rps-do_rps system up =
    ground (arith, find_rps_dir-HasFlags up.do_rps up.changestate system up (refl, refl))

copied-Outcome :
    (system : System) (up : Up)
    → CanStart system up
    → Outcome Failed (Between system.version) (when (λ u. u.do_rps) (ucopy_rps system) up)
copied-Outcome system up c =
    when-Outcome Failed (Between system.version) (λ u. u.do_rps) (ucopy_rps system) up
      (λ e.
        let flags = ucopy_rps-HasFlags true nothing_serious system up (e, c.fresh) in
        result-Outcome Failed (Between system.version) (ucopy_rps system up)
          (λ z. inl (flags.0, ucopy_rps-IsCopied system up c.in_place c.frees c.sound z))
          (λ z. inl (ucopy_rps-IsSafe system up c.in_place c.frees c.sound, flags.1)))
      (λ e. inr (e, c.sound))

renew_booters-Keeps : (system : System) → Keeps (Between system.version) (renew_booters system)
unfolding renew_booters
renew_booters-Keeps system =
    let P = Between system.version in
    let closed = Between-closed system.version in
    let stated = Between-stated system.version in
    let misc = when (λ up. up.do_misc) (copy_misc_files system) in
    let label = put_label_aside system in
    let copies = when (λ up. up.do_booters) (ucopy_booters system) in
    let activates = when (λ up. up.do_booters) (activate_booters system false) in
    seq-Keeps P (misc >> label >> copies) activates
      (seq-Keeps P (misc >> label) copies
        (seq-Keeps P misc label
          (when-Keeps P (λ up. up.do_misc) (copy_misc_files system)
            (copy_misc_files-Keeps P closed stated system))
          (put_label_aside-Keeps P closed stated system))
        (when-Keeps P (λ up. up.do_booters) (ucopy_booters system)
          (ucopy_booters-Keeps P closed stated system)))
      (when-Keeps P (λ up. up.do_booters) (activate_booters system false)
        (activate_booters-Keeps P closed stated system false))

activated-Outcome :
    (system : System) (up : Up)
    → system.to_flat ≡ false
    → Between system.version up
    → Outcome Failed (Behind system.version) (when (λ u. u.do_rps) (activate_rps system) up)
activated-Outcome system up t (inr (e, h)) =
    when-Outcome Failed (Behind system.version) (λ u. u.do_rps) (activate_rps system) up
      (λ e'. absurd (ground (arith, e, e'))) (λ _. inr (e, h))
activated-Outcome system up t (inl (e, h)) =
    when-Outcome Failed (Behind system.version) (λ u. u.do_rps) (activate_rps system) up
      (λ _.
        result-Outcome Failed (Behind system.version) (activate_rps system up)
          (λ z. inl (
            activate_rps-do_rps system up ∙ e,
            activate_rps-IsUpdated system system.version up t h z,
          ))
          (λ z. inr (activate_rps-IsSound system system.version up h)))
      (λ e'. absurd (ground (arith, e, e')))

pub update_steps-Outcome :
    (system : System) (up : Up)
    → CanStart system up
    → Outcome Failed (Behind system.version) (update_steps system up)
unfolding update_steps renew_misc
update_steps-Outcome system up c =
    let copies = when (λ u. u.do_rps) (ucopy_rps system) in
    let activates = when (λ u. u.do_rps) (activate_rps system) in
    let ends : Op = λ u. (record u { changestate = nothing_serious }, 0) in
    let v = system.version in
    seq-Outcome Failed (Behind v) (Behind v)
      (copies >> renew_booters system >> activates >> renew_misc system) ends up
      (seq-Outcome Failed (Behind v) (Behind v) (copies >> renew_booters system >> activates)
        (renew_misc system) up
        (seq-Outcome Failed (Between v) (Behind v) (copies >> renew_booters system) activates up
          (seq-Outcome Failed (Between v) (Between v) copies (renew_booters system) up
            (copied-Outcome system up c)
            (kept-Outcome Failed (Between v) (renew_booters system)
              (λ u h. inr (Between-IsSound v u h)) (renew_booters-Keeps system)))
          (λ u h. activated-Outcome system u c.in_place h))
        (kept-Outcome Failed (Behind v) (renew_misc system) (λ u h. inr (Behind-IsSound v u h))
          (λ u h.
            activate_misc-Keeps (Behind v) (Behind-closed v) (Behind-stated v) system u.do_misc u
              h)))
      (λ u h. Behind-stated v u nothing_serious h)
