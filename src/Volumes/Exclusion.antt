-- ===== src/Volumes/Exclusion.antt =====
-- kextd_watchvol.c: the invariant of the locks, and the scans for busy volumes.
use kext_tools.Common.{
  ℕ, ◌+◌, ◌⊎◌, inl, ◌≤◌, ◌≡◌, refl, String, Bool, true, false, not, Option, none, some, List, [],
  ◌∷◌, ◌++◌, if◌then◌else◌, ◌==◌, str_eq, ◌||◌, arith,
}
use kext_tools.Volumes.Data.{WatchedVol, Entry, Daemon, Moment, Checks, find, put, held}
use kext_tools.Volumes.Rebuild.{
  check_boots_with, launch_rebuild, check_rebuild_with, check_rebuild_again, check_boots_set_nvram,
  check_rebuild, check_vol_busy, check_locked,
}

-- Without a locker there are no waiters, and the mount flags are restored.
abbrev pub IsIdle : Option ℕ → List ℕ → ℕ → Type 0
IsIdle none waiters flags = (waiters ≡ []) × (flags ≡ 0)
IsIdle (some locker) waiters flags = Unit {0}

pub record IsSettled (v : WatchedVol) : Type 0 where
  pub idle : IsIdle v.lock v.waiters v.orig_mnt_flags
  pub named : str_eq v.root "" ≡ false
  pub bounded : v.updtattempts ≤ 27

abbrev pub All : (WatchedVol → Type 0) → List Entry → Type 0
All P [] = Unit {0}
All P ((id, v) ∷ rest) = P v × All P rest

abbrev pub IsUnlocked : WatchedVol → Type 0
IsUnlocked v = v.lock ≡ none

-- Whether no volume can be locked: the reboot lock is held, or the watch is not set up.
abbrev pub is_closed : Daemon → Bool
is_closed d = held d.reboot_lock || not d.ready

abbrev pub IsExclusive : Bool → List Entry → Type 0
IsExclusive true volumes = All IsUnlocked volumes
IsExclusive false volumes = Unit {0}

pub record IsSafe (d : Daemon) : Type 0 where
  pub settled : All IsSettled d.volumes
  pub exclusive : IsExclusive (is_closed d) d.volumes

module _ (P : WatchedVol → Type 0) where
  found-key :
      (b : Bool) (w v : WatchedVol) (rest : Option WatchedVol)
      → P w
      → (rest ≡ some v → P v)
      → (if b then some w else rest) ≡ some v
      → P v
  found-key true w v rest p k e = ground (arith, p)
  found-key false w v rest p k e = k e

  pub found-All : (id : ℕ) (vs : List Entry) (v : WatchedVol) → All P vs → find id vs ≡ some v → P v
  found-All id [] v h e = ground arith
  found-All id ((key, w) ∷ vs) v h e =
      found-key (key == id) w v (find id vs) h.0 (found-All id vs v h.1) e

  put-key :
      (b : Bool) (key : ℕ) (w v : WatchedVol) (vs vs' : List Entry)
      → P v
      → P w
      → All P vs
      → All P vs'
      → All P (if b then (key, v) ∷ vs else (key, w) ∷ vs')
  put-key true key w v vs vs' p q h h' = (p, h)
  put-key false key w v vs vs' p q h h' = (q, h')

  pub put-All : (id : ℕ) (vs : List Entry) (v : WatchedVol) → P v → All P vs → All P (put id v vs)
  put-All id [] v p h = h
  put-All id ((key, w) ∷ vs) v p h =
      put-key (key == id) key w v vs (put id v vs) p h.0 h.1 (put-All id vs v p h.1)

  pub append-All :
      (vs : List Entry) (id : ℕ) (v : WatchedVol) → P v → All P vs → All P (vs ++ (id, v) ∷ [])
  append-All [] id v p h = (p, h)
  append-All ((key, w) ∷ vs) id v p h = (h.0, append-All vs id v p h.1)

-- What check_rebuild keeps of a volume, and by how many launches it can go on.
pub record IsChecked (limit : ℕ) (v v' : WatchedVol) : Type 0 where
  pub lock : v'.lock ≡ v.lock
  pub waiters : v'.waiters ≡ v.waiters
  pub flags : v'.orig_mnt_flags ≡ v.orig_mnt_flags
  pub root : v'.root ≡ v.root
  pub attempts : (v'.updtattempts ≤ v.updtattempts) ⊎ (v'.updtattempts ≤ limit)

-- A call of check_rebuild of which the limit is known.
abbrev Bounds : ℕ → (WatchedVol → WatchedVol) → Type 0
Bounds limit rebuild = (v : WatchedVol) → IsChecked limit v (rebuild v)

check_boots_with-IsChecked :
    (limit : ℕ) (rebuild : WatchedVol → WatchedVol) (c : Moment) (v : WatchedVol)
    → Bounds limit rebuild
    → IsChecked limit v (check_boots_with rebuild c v)
unfolding check_boots_with
check_boots_with-IsChecked limit rebuild c v h =
    let inner = h (record v { is_boot_root = true }) in
    record {
      lock = ground (arith, inner.lock);
      waiters = ground (arith, inner.waiters);
      flags = ground (arith, inner.flags);
      root = ground (arith, inner.root);
      attempts = ground (arith, inner.attempts);
    }

check_rebuild_with-IsChecked :
    (limit : ℕ) (rebuild : WatchedVol → WatchedVol) (c : Moment)
    → 25 ≤ limit
    → Bounds limit rebuild
    → Bounds (limit + 1) (λ v. (check_rebuild_with rebuild c v).0)
unfolding check_rebuild_with launch_rebuild
check_rebuild_with-IsChecked limit rebuild c enough h v =
    let boots = check_boots_with-IsChecked limit rebuild c (record v { delayer = false }) h in
    record {
      lock = ground (arith, boots.lock);
      waiters = ground (arith, boots.waiters);
      flags = ground (arith, boots.flags);
      root = ground (arith, boots.root);
      attempts = ground (arith, boots.attempts, enough);
    }

check_rebuild_again-IsChecked : (c : Checks) → Bounds 26 (check_rebuild_again c)
unfolding check_rebuild_again
check_rebuild_again-IsChecked c =
    check_rebuild_with-IsChecked 25 (λ v. v) c.inner (omega arith)
      (λ v. record {
        lock = refl;
        waiters = refl;
        flags = refl;
        root = refl;
        attempts = inl (omega arith);
      })

check_rebuild-IsChecked : (c : Checks) → Bounds 27 (λ v. (check_rebuild c v).0)
unfolding check_rebuild
check_rebuild-IsChecked c =
    check_rebuild_with-IsChecked 26 (check_rebuild_again c) c.outer (omega arith)
      (check_rebuild_again-IsChecked c)

check_boots_set_nvram-IsChecked : (c : Checks) → Bounds 26 (check_boots_set_nvram c)
unfolding check_boots_set_nvram
check_boots_set_nvram-IsChecked c v =
    check_boots_with-IsChecked 26 (check_rebuild_again c) c.outer v
      (check_rebuild_again-IsChecked c)

IsChecked-IsSettled :
    (limit : ℕ) (v v' : WatchedVol) → limit ≤ 27 → IsChecked limit v v' → IsSettled v → IsSettled v'
IsChecked-IsSettled limit v v' le k h = record {
  idle = rw (k.lock, k.waiters, k.flags) h.idle;
  named = rw (k.root) h.named;
  bounded = ground (arith, le, k.attempts, h.bounded);
}

-- check_rebuild and check_boots_set_nvram change neither the locks nor the root.
pub check_rebuild-IsSettled :
    (c : Checks) (v : WatchedVol) → IsSettled v → IsSettled (check_rebuild c v).0
check_rebuild-IsSettled c v h =
    IsChecked-IsSettled 27 v _ (omega arith) (check_rebuild-IsChecked c v) h

pub check_rebuild-lock : (c : Checks) (v : WatchedVol) → (check_rebuild c v).0.lock ≡ v.lock
check_rebuild-lock c v = (check_rebuild-IsChecked c v).lock

check_rebuild-root : (c : Checks) (v : WatchedVol) → (check_rebuild c v).0.root ≡ v.root
check_rebuild-root c v = (check_rebuild-IsChecked c v).root

pub check_boots_set_nvram-IsSettled :
    (c : Checks) (v : WatchedVol) → IsSettled v → IsSettled (check_boots_set_nvram c v)
check_boots_set_nvram-IsSettled c v h =
    IsChecked-IsSettled 26 v _ (omega arith) (check_boots_set_nvram-IsChecked c v) h

pub check_boots_set_nvram-lock :
    (c : Checks) (v : WatchedVol) → (check_boots_set_nvram c v).lock ≡ v.lock
check_boots_set_nvram-lock c v = (check_boots_set_nvram-IsChecked c v).lock

check_vol_busy-IsSettled :
    (c : Checks) (v : WatchedVol) → IsSettled v → IsSettled (check_vol_busy c v).0
unfolding check_vol_busy
check_vol_busy-IsSettled c v h = ground (arith, check_rebuild-IsSettled c v h)

check_vol_busy-root : (c : Checks) (v : WatchedVol) → (check_vol_busy c v).0.root ≡ v.root
unfolding check_vol_busy
check_vol_busy-root c v = ground (arith, check_rebuild-root c v)

check_vol_busy-free :
    (c : Checks) (v : WatchedVol)
    → (check_vol_busy c v).1 ≡ false
    → IsUnlocked (check_vol_busy c v).0
unfolding check_vol_busy
check_vol_busy-free c v h = ground (arith, check_rebuild-lock c v)

-- The scan for busy volumes.
pub check_locked-IsSettled :
    (checks : ℕ → Checks) (vs : List Entry) (busy_vol : String)
    → All IsSettled vs
    → All IsSettled (check_locked checks vs busy_vol).0
unfolding check_locked
check_locked-IsSettled checks [] busy_vol h = h
check_locked-IsSettled checks ((id, v) ∷ vs) busy_vol h =
    (check_vol_busy-IsSettled (checks id) v h.0, check_locked-IsSettled checks vs _ h.1)

-- A busy volume keeps its name as busyVol until another takes its place.
check_locked-named :
    (checks : ℕ → Checks) (vs : List Entry) (busy_vol : String)
    → All IsSettled vs
    → str_eq busy_vol "" ≡ false
    → str_eq (check_locked checks vs busy_vol).1 "" ≡ false
unfolding check_locked
check_locked-named checks [] busy_vol h e = e
check_locked-named checks ((id, v) ∷ vs) busy_vol h e =
    check_locked-named checks vs _ h.1
      (ground (arith, check_vol_busy-root (checks id) v, h.0.named))

locked-clash :
    (checks : ℕ → Checks) (id : ℕ) (v : WatchedVol) (vs : List Entry) (busy_vol : String)
    (busy : Bool)
    → IsSettled v
    → All IsSettled vs
    → (check_vol_busy (checks id) v).1 ≡ busy
    → str_eq
        (check_locked checks vs
          (if busy then (check_vol_busy (checks id) v).0.root else busy_vol)).1
        ""
      ≡ true
    → busy ≡ false
locked-clash checks id v vs busy_vol false h hs e clean = refl
locked-clash checks id v vs busy_vol true h hs e clean = ground (
  arith,
  check_locked-named checks vs (check_vol_busy (checks id) v).0.root hs
      (ground (arith, check_vol_busy-root (checks id) v, h.named)),
)

pub check_locked-free :
    (checks : ℕ → Checks) (vs : List Entry) (busy_vol : String)
    → All IsSettled vs
    → str_eq (check_locked checks vs busy_vol).1 "" ≡ true
    → All IsUnlocked (check_locked checks vs busy_vol).0
unfolding check_locked
check_locked-free checks [] busy_vol h e = tt
check_locked-free checks ((id, v) ∷ vs) busy_vol h e = (
  check_vol_busy-free (checks id) v (locked-clash checks id v vs busy_vol _ h.0 h.1 refl e),
  check_locked-free checks vs _ h.1 e,
)
