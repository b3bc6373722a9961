-- ===== src/Helper/Safe.antt =====
-- update_boot.c: what the booter finds while the directories are exchanged.
use kext_tools.Common.{ℕ, ◌≡◌, Bool, true, false, not, List, [], ◌∷◌, ◌==◌, ◌&&◌, ◌||◌, arith}
use kext_tools.Helper.Data.{
  RpsDir, Blessed, Disk, Target, Up, System, get, set, exists, same_name, missing, partial, whole,
  recovery, nothing_blessed, booter, rps, freed_for_recovery, zero_file, unlink_dir,
  bless_recovery_info,
}
use kext_tools.Helper.Rps.{
  found, erase_rps, find_rps_dir, bless_recovery, erase_rps_if_recovery_blessed, choose_target,
}

abbrev pub is_whole : RpsDir → Bool
is_whole missing = false
is_whole partial = false
is_whole (whole v) = true

abbrev pub is_recovery : Blessed → Bool
is_recovery recovery = true
is_recovery nothing_blessed = false
is_recovery (booter id) = false

-- The directory that the booter reads from: it makes FindRPSDir's choice.
abbrev pub current_dir : Disk → RpsDir
current_dir d = get (rps (found d).current) d

-- The recovery system is blessed, or the directory that the booter reads is complete. Whether the
-- blessed file is there does not count.
abbrev pub has_boot_files : Disk → Bool
has_boot_files d = is_recovery d.blessed || is_whole (current_dir d)

abbrev pub AllHaveFiles : List Disk → Type 0
AllHaveFiles [] = Unit {0}
AllHaveFiles (d ∷ ds) = (has_boot_files d ≡ true) × AllHaveFiles ds

-- That holds now and held at every write since the start.
pub record IsSafe (up : Up) : Type 0 where
  pub able : has_boot_files up.disk ≡ true
  pub ever : AllHaveFiles up.history

-- It has a complete directory now, whether or not the recovery system is blessed.
pub record IsSound (up : Up) : Type 0 where
  pub complete : is_whole (current_dir up.disk) ≡ true
  pub ever : AllHaveFiles up.history

pub IsSound-IsSafe : (up : Up) → IsSound up → IsSafe up
IsSound-IsSafe up h = record { able = ground (arith, h.complete); ever = h.ever }

-- Paper is erased where all three exist.
pub find_rps_dir-IsSound :
    (system : System) (up : Up) → IsSound up → IsSound (find_rps_dir system up).0
unfolding find_rps_dir erase_rps
find_rps_dir-IsSound system up h = record {
  complete = ground (arith, h.complete);
  ever = ground (arith, h.complete, h.ever);
}

abbrev pub all_exist : Disk → Bool
all_exist d = exists d.r_dir && (exists d.p_dir && exists d.s_dir)

-- Where it succeeds, at most two are left, and the choice is the same.
pub find_rps_dir-two :
    (system : System) (up : Up)
    → (find_rps_dir system up).1 ≡ 0
    → all_exist (find_rps_dir system up).0.disk ≡ false
unfolding find_rps_dir erase_rps
find_rps_dir-two system up e = ground arith

pub find_rps_dir-found :
    (system : System) (up : Up)
    → (find_rps_dir system up).1 ≡ 0
    → found (find_rps_dir system up).0.disk ≡ found up.disk
unfolding find_rps_dir erase_rps
find_rps_dir-found system up e = ground arith

-- The recovery system, if there is one, can be blessed, and the current directory erased.
pub record CanFree (system : System) (d : Disk) : Type 0 where
  pub blesses : (d.has_recovery && not (system.fails bless_recovery_info == 0)) ≡ false
  pub zeroes :
      (d.has_recovery
        && (system.zeroes_props && not (system.fails (zero_file freed_for_recovery) == 0)))
      ≡ false
  pub unlinks : (d.has_recovery && not (system.fails (unlink_dir freed_for_recovery) == 0)) ≡ false

-- The target is the directory that is found, or the one before it; at most two exist.
abbrev pub placed : Target → Disk → Bool
placed t d = not (all_exist d) && (same_name (found d).current t || same_name (found d).previous t)

-- Whatever is put in the target directory, the booter has its files; a complete one is found.
pub record IsAimed (up : Up) : Type 0 where
  pub able_with : (x : RpsDir) → has_boot_files (set up.dst x up.disk) ≡ true
  pub complete_with : (v : ℕ) → is_whole (current_dir (set up.dst (whole v) up.disk)) ≡ true
  pub placed_with : (v : ℕ) → placed up.dst (set up.dst (whole v) up.disk) ≡ true
  pub ever : AllHaveFiles up.history

pub choose_target-IsAimed :
    (system : System) (up : Up)
    → system.to_flat ≡ false
    → all_exist up.disk ≡ false
    → CanFree system up.disk
    → IsSound up
    → IsAimed (choose_target system (found up.disk) up)
unfolding choose_target erase_rps_if_recovery_blessed bless_recovery erase_rps
choose_target-IsAimed system up t two can h = record {
  able_with = λ x. ground (arith, h.complete, can.blesses, can.zeroes, can.unlinks);
  complete_with = λ v. ground (arith, h.complete, can.blesses, can.zeroes, can.unlinks);
  placed_with = λ v. ground (arith, h.complete, two, can.blesses, can.zeroes, can.unlinks);
  ever = ground (arith, h.complete, h.ever, can.blesses, can.zeroes, can.unlinks);
}

pub choose_target-able :
    (system : System) (up : Up)
    → system.to_flat ≡ false
    → all_exist up.disk ≡ false
    → CanFree system up.disk
    → IsSound up
    → has_boot_files (choose_target system (found up.disk) up).disk ≡ true
unfolding choose_target erase_rps_if_recovery_blessed bless_recovery erase_rps
choose_target-able system up t two can h =
    ground (arith, h.complete, can.blesses, can.zeroes, can.unlinks)
