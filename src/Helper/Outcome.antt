-- ===== src/Helper/Outcome.antt =====
-- update_boot.c: sequences of operations, by what holds where one fails and where all succeed.
use kext_tools.Common.{ℕ, ◌≡◌, refl, Bool, true, false, if◌then◌else◌, ◌==◌, arith}
use kext_tools.Helper.Data.{Up, Op, ◌>>◌, when}
use kext_tools.Helper.Exchange.{Keeps}

module _ (Failed : Up → Type 0) where
  abbrev pub Ends : (Up → Type 0) → Bool → Up → Type 0
  Ends P true up = P up
  Ends P false up = Failed up

  abbrev pub Outcome : (Up → Type 0) → Up × ℕ → Type 0
  Outcome P r = Ends P (r.1 == 0) r.0

  pub seq-Outcome :
      (P Q : Up → Type 0) (m k : Op) (up : Up)
      → Outcome P (m up)
      → ((u : Up) → P u → Outcome Q (k u))
      → Outcome Q ((m >> k) up)
  seq-Outcome P Q m k up h next = by_result ((m up).1 == 0) refl h
    where
      by_result : (b : Bool) → ((m up).1 == 0) ≡ b → Ends P b (m up).0 → Outcome Q ((m >> k) up)
      by_result true e g = rw e (next (m up).0 g)
      by_result false e g = rw (e, e) g

  pub result-Outcome :
      (P : Up → Type 0) (r : Up × ℕ)
      → (r.1 ≡ 0 → P r.0)
      → ((r.1 == 0) ≡ false → Failed r.0)
      → Outcome P r
  result-Outcome P r ended failed = by_result (r.1 == 0) refl
    where
      by_result : (b : Bool) → (r.1 == 0) ≡ b → Ends P b r.0
      by_result true e = ended (ground (arith, e))
      by_result false e = failed e

  -- An operation that keeps a condition, which is enough after a failure.
  pub kept-Outcome :
      (P : Up → Type 0) (op : Op)
      → ((up : Up) → P up → Failed up)
      → Keeps P op
      → (up : Up) → P up
      → Outcome P (op up)
  kept-Outcome P op enough keeps up h =
      result-Outcome P (op up) (λ _. keeps up h) (λ _. enough (op up).0 (keeps up h))

  pub when-Outcome :
      (P : Up → Type 0) (test : Up → Bool) (op : Op) (up : Up)
      → (test up ≡ true → Outcome P (op up))
      → (test up ≡ false → P up)
      → Outcome P (when test op up)
  when-Outcome P test op up done left = by_test (test up) refl
    where
      by_test : (b : Bool) → test up ≡ b → Outcome P (if b then op up else (up, 0))
      by_test true e = done e
      by_test false e = left e
