-- ===== src/Helper/Exchange.antt =====
-- update_boot.c: ucopyRPS, activateRPS and nukeFallbacks, and what the booter finds meanwhile.
use kext_tools.Common.{
  ℕ, ◌≡◌, refl, sym, Bool, true, false, not, if◌then◌else◌, ◌==◌, ◌&&◌, arith, Bool-cases, inl, inr,
}
use kext_tools.Helper.Data.{
  RpsDir, Disk, Target, Up, Site, System, Op, write, ◌>>◌, when, get, set, exists, rock, paper,
  scissors, missing, partial, whole, rps, flat, stale_target, zero_file, unlink_dir, make_dir,
}
use kext_tools.Helper.Rps.{
  found, erase_rps, find_rps_dir, make_target, erase_target, copy_files, write_props, whole_target,
  fill_target, choose_target, ucopy_rps,
}
use kext_tools.Helper.Safe.{
  has_boot_files, IsSafe, IsSound, IsSound-IsSafe, find_rps_dir-IsSound, all_exist,
  find_rps_dir-two, find_rps_dir-found, CanFree, placed, IsAimed, choose_target-IsAimed,
  choose_target-able,
}

-- An operation keeps a condition, whether it succeeds or not.
abbrev pub Keeps : (Up → Type 0) → Op → Type 0
Keeps P op = (up : Up) → P up → P (op up).0

pub seq-Keeps : (P : Up → Type 0) (m k : Op) → Keeps P m → Keeps P k → Keeps P (m >> k)
seq-Keeps P m k hm hk up h = by_result (m up).1 (hk (m up).0 (hm up h)) (hm up h)
  where
    by_result :
        (e : ℕ) → P (k (m up).0).0 → P (m up).0 → P (if e == 0 then k (m up).0 else ((m up).0, e)).0
    by_result e after before = elim (Bool-cases (e == 0)) [
      | inl z ↦ rw z after
      | inr z ↦ rw z before
    ]

pub when-Keeps :
    (P : Up → Type 0) (test : Up → Bool) (op : Op) → Keeps P op → Keeps P (when test op)
when-Keeps P test op h up p = elim (Bool-cases (test up)) [ inl z ↦ rw z (h up p) | inr z ↦ rw z p ]

set-set : (t : Target) (x y : RpsDir) (d : Disk) → set t x (set t y d) ≡ set t x d
set-set (rps rock) x y d = refl
set-set (rps paper) x y d = refl
set-set (rps scissors) x y d = refl
set-set flat x y d = refl

-- A write into the target directory.
IsAimed-write : (up : Up) (x : RpsDir) → IsAimed up → IsAimed (write (set up.dst x up.disk) up)
IsAimed-write up x h = record {
  able_with = λ y. rw (set-set up.dst y x up.disk) (h.able_with y);
  complete_with = λ v. rw (set-set up.dst (whole v) x up.disk) (h.complete_with v);
  placed_with = λ v. rw (set-set up.dst (whole v) x up.disk) (h.placed_with v);
  ever = (h.able_with x, h.ever);
}

get-set : (t : Target) (x : RpsDir) (d : Disk) → get t (set t x d) ≡ x
get-set (rps rock) x d = refl
get-set (rps paper) x d = refl
get-set (rps scissors) x d = refl
get-set flat x d = refl

-- Whether something is there that an operation on the target wrote before it ended.
pub record IsLeft (up : Up) : Type 0 where
  pub aimed : IsAimed up
  pub able : has_boot_files up.disk ≡ true

IsLeft-write : (up : Up) (x : RpsDir) → IsLeft up → IsLeft (write (set up.dst x up.disk) up)
IsLeft-write up x h = record { aimed = IsAimed-write up x h.aimed; able = h.aimed.able_with x }

erase_rps-IsLeft :
    (system : System) (site : Site) → Keeps IsLeft (λ up. erase_rps system site up.dst up)
unfolding erase_rps
erase_rps-IsLeft system site up h =
    let begun = IsLeft-write up partial h in
    let gone = IsLeft-write (write (set up.dst partial up.disk) up) missing begun in
    elim (Bool-cases (exists (get up.dst up.disk))) [
      | inr e ↦ rw e h
      | inl e ↦
          elim (Bool-cases (system.zeroes_props && not (system.fails (zero_file site) == 0))) [
            | inl z ↦ rw (e, z) h
            | inr z ↦ elim (Bool-cases (system.fails (unlink_dir site) == 0)) [
              | inl u ↦ rw (e, z, u) gone
              | inr u ↦ rw (e, z, u) begun
            ]
          ]
    ]

erase_target-IsLeft : (system : System) → Keeps IsLeft (erase_target system)
unfolding erase_target
erase_target-IsLeft system up h = erase_rps-IsLeft system stale_target up h

make_target-IsLeft : (system : System) → Keeps IsLeft (make_target system)
unfolding make_target
make_target-IsLeft system up h = elim (Bool-cases (system.fails make_dir == 0)) [
  | inl e ↦ rw e (IsLeft-write up partial h)
  | inr e ↦ rw e h
]

copy_files-IsLeft : (system : System) → Keeps IsLeft (copy_files system)
unfolding copy_files
copy_files-IsLeft system up h = h

write_props-IsLeft : (system : System) → Keeps IsLeft (write_props system)
unfolding write_props
write_props-IsLeft system up h = h

prepared : System → Op
prepared system =
    erase_target system >> make_target system >> copy_files system >> write_props system

prepared-IsLeft : (system : System) → Keeps IsLeft (prepared system)
unfolding prepared
prepared-IsLeft system =
    seq-Keeps IsLeft (erase_target system >> make_target system >> copy_files system)
      (write_props system)
      (seq-Keeps IsLeft (erase_target system >> make_target system) (copy_files system)
        (seq-Keeps IsLeft (erase_target system) (make_target system) (erase_target-IsLeft system)
          (make_target-IsLeft system))
        (copy_files-IsLeft system))
      (write_props-IsLeft system)

-- What a sequence that ends well has done.
pub seq-success :
    (m k : Op) (up : Up) → ((m >> k) up).1 ≡ 0 → ((m up).1 ≡ 0) × ((m >> k) up ≡ k (m up).0)
seq-success m k up e = elim (Bool-cases ((m up).1 == 0)) [
  | inl z ↦ (ground (arith, z), rw z refl)
  | inr z ↦ absurd (ground (arith, z, e))
]

left-IsSafe : (up : Up) → IsLeft up → IsSafe up
left-IsSafe up h = record { able = h.able; ever = h.aimed.ever }

-- Filling the target leaves a partition that starts; when it succeeds, a complete directory.
pub fill_target-IsSafe : (system : System) (up : Up) → IsLeft up → IsSafe (fill_target system up).0
unfolding fill_target prepared
fill_target-IsSafe system up h = left-IsSafe (fill_target system up).0 (
    seq-Keeps IsLeft (prepared system) (whole_target system) (prepared-IsLeft system)
      (λ u l. IsLeft-write u (whole system.version) l) up h)

-- The new files are all in the target directory.
pub record IsCopied (version : ℕ) (up : Up) : Type 0 where
  pub sound : IsSound up
  pub content : get up.dst up.disk ≡ whole version
  pub place : placed up.dst up.disk ≡ true

pub fill_target-IsCopied :
    (system : System) (up : Up)
    → IsLeft up
    → (fill_target system up).1 ≡ 0
    → IsCopied system.version (fill_target system up).0
unfolding fill_target prepared
fill_target-IsCopied system up h e =
    let last = (seq-success (prepared system) (whole_target system) up e).1 in
    let before = prepared-IsLeft system up h in
    rw last (record {
      sound = record {
        complete = before.aimed.complete_with system.version;
        ever = (before.aimed.able_with (whole system.version), before.aimed.ever);
      };
      content =
          get-set (prepared system up).0.dst (whole system.version) (prepared system up).0.disk;
      place = before.aimed.placed_with system.version;
    })

chosen-IsLeft :
    (system : System) (up : Up)
    → system.to_flat ≡ false
    → all_exist up.disk ≡ false
    → CanFree system up.disk
    → IsSound up
    → IsLeft (choose_target system (found up.disk) up)
chosen-IsLeft system up t two can h = record {
  aimed = choose_target-IsAimed system up t two can h;
  able = choose_target-able system up t two can h;
}

-- FindRPSDir leaves the recovery system alone.
find_rps_dir-recovery :
    (system : System) (up : Up)
    → (find_rps_dir system up).0.disk.has_recovery ≡ up.disk.has_recovery
unfolding find_rps_dir erase_rps
find_rps_dir-recovery system up = ground arith

find_rps_dir-CanFree :
    (system : System) (up : Up)
    → CanFree system up.disk
    → CanFree system (find_rps_dir system up).0.disk
find_rps_dir-CanFree system up can = record {
  blesses = rw (find_rps_dir-recovery system up) can.blesses;
  zeroes = rw (find_rps_dir-recovery system up) can.zeroes;
  unlinks = rw (find_rps_dir-recovery system up) can.unlinks;
}

found-IsLeft :
    (system : System) (up : Up)
    → system.to_flat ≡ false
    → CanFree system up.disk
    → IsSound up
    → (find_rps_dir system up).1 ≡ 0
    → IsLeft (choose_target system (found up.disk) (find_rps_dir system up).0)
found-IsLeft system up t can h e = rw (sym (find_rps_dir-found system up e)) (
    chosen-IsLeft system (find_rps_dir system up).0 t (find_rps_dir-two system up e)
      (find_rps_dir-CanFree system up can) (find_rps_dir-IsSound system up h))

pub ucopy_rps-IsSafe :
    (system : System) (up : Up)
    → system.to_flat ≡ false
    → CanFree system up.disk
    → IsSound up
    → IsSafe (ucopy_rps system up).0
unfolding ucopy_rps
ucopy_rps-IsSafe system up t can h = elim (Bool-cases ((find_rps_dir system up).1 == 0)) [
  | inl z ↦
      rw (ucopy_rps, z)
        (fill_target-IsSafe system _ (found-IsLeft system up t can h (ground (arith, z))))
  | inr z ↦ rw (ucopy_rps, z) (IsSound-IsSafe _ (find_rps_dir-IsSound system up h))
]

pub ucopy_rps-IsCopied :
    (system : System) (up : Up)
    → system.to_flat ≡ false
    → CanFree system up.disk
    → IsSound up
    → (ucopy_rps system up).1 ≡ 0
    → IsCopied system.version (ucopy_rps system up).0
unfolding ucopy_rps
ucopy_rps-IsCopied system up t can h e =
    let fill : Op = λ u. fill_target system (choose_target system (found up.disk) u) in
    let (done, same) = seq-success (find_rps_dir system) fill up e in
    rw same (fill_target-IsCopied system _ (found-IsLeft system up t can h done) (rw same at e))
