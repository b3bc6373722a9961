-- ===== src/Helper/Loop.antt =====
-- update_boot.c: the result of updateBootHelpers.
use kext_tools.Common.{
  ℕ, ◌+◌, ◌≤◌, ◌≡◌, ◌↔◌, refl, false, List, [], ◌∷◌, if◌then◌else◌, ◌==◌, arith, Bool-cases, inl,
  inr,
}
use kext_tools.Helper.Data.{Disk, System}
use kext_tools.Helper.Update.{
  update_helper, Flags, opened, update_loop, length_of, update_boot_helpers,
}

flags_after : System → Disk → Flags → Flags
flags_after system d flags =
    let up = (update_helper system (opened flags d)).0 in
    record { do_rps = up.do_rps; do_booters = up.do_booters; do_misc = up.do_misc }

update_loop-le :
    (helpers : List (System × Disk)) (flags : Flags) (n result : ℕ)
    → (update_loop helpers flags n result).bootupdates ≤ n + length_of helpers
unfolding update_loop flags_after
update_loop-le [] flags n result = omega arith
update_loop-le ((system, d) ∷ helpers) flags n result =
    let e = (update_helper system (opened flags d)).1 in
    let rest =
      update_loop-le helpers (flags_after system d flags) (if e == 0 then n + 1 else n) e in
    ground (arith, rest)

-- Each round leaves its own result, so the last one is what the loop ends with.
update_loop-all :
    (helpers : List (System × Disk)) (flags : Flags) (n result : ℕ)
    → result ≡ 0
    → (update_loop helpers flags n result).bootupdates ≡ n + length_of helpers
    → (update_loop helpers flags n result).result ≡ 0
unfolding update_loop flags_after
update_loop-all [] flags n result z e = z
update_loop-all ((system, d) ∷ helpers) flags n result z e =
    let code = (update_helper system (opened flags d)).1 in
    elim (Bool-cases (code == 0)) [
      | inl ok ↦
          update_loop-all helpers (flags_after system d flags) _ code (ground (arith, ok))
            (ground (arith, e, ok))
      | inr bad ↦
          absurd
            (ground (arith, e, bad, update_loop-le helpers (flags_after system d flags) n code))
    ]

-- Without the option that makes the helpers optional, updateBootHelpers returns 0 exactly when
-- the plist has not gone stale and every helper partition was updated.
pub update_boot_helpers-all :
    (stale : ℕ) (helpers : List (System × Disk)) (flags : Flags)
    → ((update_boot_helpers stale false helpers flags).result ≡ 0)
      ↔ ((stale ≡ 0) × ((update_loop helpers flags 0 0).bootupdates ≡ length_of helpers))
unfolding update_boot_helpers
update_boot_helpers-all stale helpers flags =
    let all = update_loop-all helpers flags 0 0 refl in
    (λ h. ground (arith, h), λ h. ground (arith, h, all))
