-- ===== src/Helper/Restore.antt =====
-- update_boot.c: rolling back the copy of the EFI booter.
use kext_tools.Common.{
  ◌≡◌, refl, ◌∙◌, false, if◌then◌else◌, ◌==◌, arith, inl, ◌⊎◌, Option, none, some,
}
use kext_tools.Helper.Data.{
  Blessed, BooterFile, Disk, Reversion, Up, Call, System, Op, ◌>>◌, when, nothing_serious, no_label,
  copying_of, copying_efi, copied_booters, activating_of, activating_efi, activated_booters,
  sync_booters, open_of, open_efi, set_nvram,
}
use kext_tools.Helper.Labels.{now}
use kext_tools.Helper.Booters.{
  drop_old_of_first, move_of_booter, write_of_booter, copy_of_booter, drop_old_efi_first,
  move_efi_booter, write_efi_booter, copy_efi_booter, ucopy_booters, of_at, efi_at, open_booter,
  bless_booter, activate_booters,
}
use kext_tools.Helper.Outcome.{Outcome, seq-Outcome, result-Outcome, kept-Outcome, when-Outcome}
use kext_tools.Helper.Exchange.{Keeps}

module _ (system : System) (f : BooterFile) (b : Blessed) where
  -- The booter is in place, or put aside, and what is blessed has not changed.
  abbrev pub IsInPlace : Up → Type 0
  IsInPlace up = (up.disk.efi_booter ≡ some f) × (up.disk.efi_old ≡ none) × (up.disk.blessed ≡ b)

  abbrev pub IsAside : Up → Type 0
  IsAside up = (up.disk.efi_old ≡ some f) × (up.disk.blessed ≡ b)

  -- What a state of the change promises.
  abbrev pub IsRecoverable : Reversion → Up → Type 0
  IsRecoverable copying_of up = IsInPlace up
  IsRecoverable copying_efi up = IsInPlace up ⊎ IsAside up
  IsRecoverable copied_booters up = IsInPlace up ⊎ IsAside up
  IsRecoverable activating_of up = IsInPlace up ⊎ IsAside up
  IsRecoverable activating_efi up = IsInPlace up ⊎ IsAside up
  IsRecoverable activated_booters up = ⊥
  IsRecoverable no_label up = ⊥
  IsRecoverable nothing_serious up = ⊥

  copy_of_booter-IsInPlace : Keeps IsInPlace (copy_of_booter system)
  unfolding copy_of_booter drop_old_of_first move_of_booter write_of_booter
  copy_of_booter-IsInPlace up h = ground (arith, h)

  copy_of_booter-state : (up : Up) → (copy_of_booter system up).0.changestate ≡ up.changestate
  unfolding copy_of_booter drop_old_of_first move_of_booter write_of_booter
  copy_of_booter-state up = ground arith

  copy_efi_booter-either :
      (up : Up)
      → IsInPlace up
      → IsInPlace (copy_efi_booter system up).0 ⊎ IsAside (copy_efi_booter system up).0
  unfolding copy_efi_booter drop_old_efi_first move_efi_booter write_efi_booter
  copy_efi_booter-either up h = ground (arith, h)

  copy_efi_booter-state : (up : Up) → (copy_efi_booter system up).0.changestate ≡ up.changestate
  unfolding copy_efi_booter drop_old_efi_first move_efi_booter write_efi_booter
  copy_efi_booter-state up = ground arith

  unfoldable pub IsEither : Up → Type 0
  IsEither up = IsInPlace up ⊎ IsAside up

  abbrev pub IsRolledBack : Up → Type 0
  IsRolledBack up = IsRecoverable up.changestate up

  -- A condition in a given state of the change.
  abbrev pub In : Reversion → (Up → Type 0) → Up → Type 0
  In s P up = (up.changestate ≡ s) × P up

  pub ucopied-Outcome :
      (up : Up)
      → IsInPlace up
      → Outcome IsRolledBack (In copied_booters IsEither) (ucopy_booters system up)
  unfolding ucopy_booters IsEither
  ucopied-Outcome up h =
      let F = IsRolledBack in
      let of = when (λ _. system.has_of) (copy_of_booter system) in
      let efi = when (λ _. system.has_efi) (copy_efi_booter system) in
      let P1 = In copying_of IsInPlace in
      let P2 = In copying_efi IsInPlace in
      let P3 = In copying_efi IsEither in
      seq-Outcome F P3 (In copied_booters IsEither) (now copying_of >> of >> now copying_efi >> efi)
        (now copied_booters) up
        (seq-Outcome F P2 P3 (now copying_of >> of >> now copying_efi) efi up
          (seq-Outcome F P1 P2 (now copying_of >> of) (now copying_efi) up
            (seq-Outcome F P1 P1 (now copying_of) of up (refl, h)
              (λ u k.
                when-Outcome F P1 (λ _. system.has_of) (copy_of_booter system) u
                  (λ _.
                    kept-Outcome F P1 (copy_of_booter system) (λ w q. rw q.0 q.1)
                      (λ w q. (copy_of_booter-state w ∙ q.0, copy_of_booter-IsInPlace w q.1)) u k)
                  (λ _. k)))
            (λ u k. (refl, k.1)))
          (λ u k.
            when-Outcome F P3 (λ _. system.has_efi) (copy_efi_booter system) u
              (λ _.
                result-Outcome F P3 (copy_efi_booter system u)
                  (λ _. (copy_efi_booter-state u ∙ k.0, copy_efi_booter-either u k.1))
                  (λ _. rw (copy_efi_booter-state u ∙ k.0) (copy_efi_booter-either u k.1)))
              (λ _. (k.0, inl k.1))))
        (λ u k. (refl, k.1))

  open_booter-same :
      (call : Call) (file : Disk → Option BooterFile) (up : Up)
      → (open_booter system call file up).0 ≡ up
  unfolding open_booter
  open_booter-same call file up = ground arith

  bless_booter-failed :
      (up : Up)
      → ((bless_booter system false up).1 == 0) ≡ false
      → (bless_booter system false up).0 ≡ up
  unfolding bless_booter
  bless_booter-failed up e = ground (arith, e)

  -- From where it is blessed, only setting the boot device can fail.
  pub activated-Outcome :
      (up : Up)
      → In copied_booters IsEither up
      → system.fails (set_nvram false) ≡ 0
      → Outcome IsRolledBack (λ _. Unit {0}) (activate_booters system false up)
  unfolding activate_booters IsEither
  activated-Outcome up h n =
      let F = IsRolledBack in
      let synced : Op = λ u. (u, system.fails (sync_booters false)) in
      let opens_of = when (λ _. system.has_of) (open_booter system (open_of false) (of_at false)) in
      let opens_efi =
        when (λ _. system.has_efi) (open_booter system (open_efi false) (efi_at false)) in
      let blesses = when (λ _. system.bless_default) (bless_booter system false) in
      let nvram : Op = λ u. (u, if system.fails (set_nvram false) == 0 then 0 else 19) in
      let sets = when (λ _. system.sets_nvram) nvram in
      let P0 = In copied_booters IsEither in
      let P1 = In activating_of IsEither in
      let P2 = In activating_efi IsEither in
      let Any : Up → Type 0 = λ _. Unit {0} in
      let s1 = result-Outcome F P0 (synced up) (λ _. h) (λ _. rw h.0 h.1) in
      let s2 = seq-Outcome F P0 P1 synced (now activating_of) up s1 (λ u k. (refl, k.1)) in
      let s3 = seq-Outcome F P1 P1 (synced >> now activating_of) opens_of up s2 (λ u k.
        when-Outcome F P1 (λ _. system.has_of) (open_booter system (open_of false) (of_at false)) u
          (λ _.
            kept-Outcome F P1 (open_booter system (open_of false) (of_at false)) (λ w q. rw q.0 q.1)
              (λ w q. rw (open_booter-same (open_of false) (of_at false) w) q) u k)
          (λ _. k)) in
      let s4 =
        seq-Outcome F P1 P2 (synced >> now activating_of >> opens_of) (now activating_efi) up s3
          (λ u k. (refl, k.1)) in
      let s5 =
        seq-Outcome F P2 P2 (synced >> now activating_of >> opens_of >> now activating_efi)
          opens_efi up s4
          (λ u k.
            when-Outcome F P2 (λ _. system.has_efi)
              (open_booter system (open_efi false) (efi_at false)) u
              (λ _.
                kept-Outcome F P2 (open_booter system (open_efi false) (efi_at false))
                  (λ w q. rw q.0 q.1)
                  (λ w q. rw (open_booter-same (open_efi false) (efi_at false) w) q) u k)
              (λ _. k)) in
      let s6 =
        seq-Outcome F P2 Any
          (synced >> now activating_of >> opens_of >> now activating_efi >> opens_efi) blesses up s5
          (λ u k.
            when-Outcome F Any (λ _. system.bless_default) (bless_booter system false) u
              (λ _.
                result-Outcome F Any (bless_booter system false u) (λ _. tt)
                  (λ e. rw (bless_booter-failed u e) (rw k.0 k.1)))
              (λ _. tt)) in
      let s7 =
        seq-Outcome F Any Any
          (synced >> now activating_of >> opens_of >> now activating_efi >> opens_efi >> blesses)
          sets up s6
          (λ u k.
            when-Outcome F Any (λ _. system.sets_nvram) nvram u
              (λ _. result-Outcome F Any (nvram u) (λ _. tt) (λ e. absurd (ground (arith, e, n))))
              (λ _. tt)) in
      seq-Outcome F Any Any
        (synced
          >> now activating_of
          >> opens_of
          >> now activating_efi
          >> opens_efi
          >> blesses
          >> sets)
        (now activated_booters) up s7 (λ u k. tt)
