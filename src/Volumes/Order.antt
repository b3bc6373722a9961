-- ===== src/Volumes/Order.antt =====
-- kextd_watchvol.c: the order in which the waiters of a volume get its lock.
use kext_tools.Common.{
  ℕ, ◌≡◌, refl, ap, false, Option, none, some, List, [], ◌∷◌, ◌++◌, inl, inr, arith, Bool-cases,
}
use kext_tools.Volumes.Data.{WatchedVol, System}
use kext_tools.Volumes.Locks.{
  cleanup_port, signal_waiter, next_locker, release, handle_watched_handoff,
}

-- None of the waiters can be told that the lock is its own, one after the other.
abbrev pub CannotBeTold : System → Option ℕ → List ℕ → (ℕ → ℕ) → Type 0
CannotBeTold system rebooter [] ports = Unit {0}
CannotBeTold system rebooter (w ∷ ws) ports =
    ((signal_waiter system rebooter w ports).1 ≡ false)
    × CannotBeTold system rebooter ws (cleanup_port w (signal_waiter system rebooter w ports).0)

abbrev pub the_locker : Option ℕ → List ℕ
the_locker none = []
the_locker (some locker) = locker ∷ []

-- The queue before is the waiters that cannot be told, the new locker, and the queue after; with
-- no new locker the queue after is empty.
pub record IsServed (system : System) (rebooter : Option ℕ) (queue : List ℕ) (ports : ℕ → ℕ)
    (lock : Option ℕ) (left : List ℕ) : Type 0 where
  pub lost : List ℕ
  pub told_none : CannotBeTold system rebooter lost ports
  pub in_order : queue ≡ lost ++ (the_locker lock ++ left)
  pub emptied : lock ≡ none → left ≡ []

next_locker-cases :
    (system : System) (rebooter : Option ℕ) (queue : List ℕ) (ports : ℕ → ℕ)
    → IsServed system rebooter queue ports
        (next_locker system rebooter queue ports).0
        (next_locker system rebooter queue ports).1.0
unfolding next_locker
next_locker-cases system rebooter [] ports = record {
  lost = [];
  told_none = tt;
  in_order = refl;
  emptied = λ _. refl;
}
next_locker-cases system rebooter (w ∷ ws) ports =
    let rest =
      next_locker-cases system rebooter ws
        (cleanup_port w (signal_waiter system rebooter w ports).0) in
    elim (Bool-cases (signal_waiter system rebooter w ports).1) [
      | inl e ↦
          rw (next_locker, e)
            (record {
              lost = [];
              told_none = tt;
              in_order = refl;
              emptied = λ h. absurd (ground arith);
            })
      | inr e ↦
          rw (next_locker, e)
            (record {
              lost = w ∷ rest.lost;
              told_none = (e, rest.told_none);
              in_order = ap (λ (l : List ℕ). w ∷ l) rest.in_order;
              emptied = rest.emptied;
            })
    ]

-- A volume that is handed over goes to its waiters in the order of their queue: before the new
-- locker only waiters were passed over whose reply could not be delivered, those behind it keep
-- their places, and with no new locker the queue is empty.
pub handle_watched_handoff-IsServed :
    (system : System) (rebooter : Option ℕ) (v : WatchedVol) (ports : ℕ → ℕ)
    → IsServed system rebooter v.waiters
        (release v.lock ports)
        (handle_watched_handoff system rebooter v ports).0.lock
        (handle_watched_handoff system rebooter v ports).0.waiters
unfolding handle_watched_handoff
handle_watched_handoff-IsServed system rebooter v ports =
    next_locker-cases system rebooter v.waiters (release v.lock ports)
