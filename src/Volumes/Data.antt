-- ===== src/Volumes/Data.antt =====
-- kextd_watchvol.c: struct watchedVol, the module's data, and what a handler reads from outside.
-- A port is its name, with 0 for MACH_PORT_NULL; sFsysWatchDict is the list of its entries in the
-- order in which the dictionary gives them; a waiters array that is not there yet is empty.
use kext_tools.Common.{
  ℕ, String, Bool, true, false, Option, none, some, List, [], ◌∷◌, if◌then◌else◌, ◌==◌,
}

pub record WatchedVol : Type 0 where
  pub root : String
  pub delayer : Bool
  pub lock : Option ℕ
  pub waiters : List ℕ
  pub updterrs : ℕ
  pub updtattempts : ℕ
  pub orig_mnt_flags : ℕ
  pub is_boot_root : Bool

-- create_watchedVol: calloc, the root path of the caches, and hasBootRootBoots.
unfoldable pub create_watched_vol : String → Bool → WatchedVol
create_watched_vol root is_boot_root = record {
  root = root;
  delayer = false;
  lock = none;
  waiters = [];
  updterrs = 0;
  updtattempts = 0;
  orig_mnt_flags = 0;
  is_boot_root = is_boot_root;
}

abbrev pub Entry : Type 0
Entry = ℕ × WatchedVol

pub record Daemon : Type 0 where
  pub ready : Bool
  pub volumes : List Entry
  pub reboot_lock : Option ℕ
  pub reboot_waiter : Option ℕ
  pub reply_ports : ℕ → ℕ

-- The state of the files of a volume at one moment, and whether kextcache can be launched then.
pub record Moment : Type 0 where
  pub get_out_of_my_way : Bool
  pub boot_cache_stale : Bool
  pub auto_rebuild_disabled : Bool
  -- For each extra kernel cache: whether its kernel has a path, and whether it is out of date.
  pub extra_kernel_caches : List (Bool × Bool)
  -- hasBootRootBoots, and `none` where it does not know the partitions.
  pub has_boots : Option Bool
  pub csfde_stale : Bool
  pub needs_updates : Bool
  pub launches : Bool

-- What a call of check_rebuild finds, and what the call finds that it can make itself.
pub record Checks : Type 0 where
  pub outer : Moment
  pub inner : Moment

-- What one call of a handler is answered by the system.
pub record System : Type 0 where
  pub checks : ℕ → Checks
  -- hasBootRootBoots for a volume that appears.
  pub starts_boot_root : ℕ → Bool
  pub port_created : ℕ → Bool
  -- Whether a reply reaches its port; the flag is for the reply to a reboot.
  pub delivered : Bool → ℕ → Bool
  pub statfs : ℕ → Option ℕ
  pub auto_update_delayed : Bool
  -- The local mounts that hold a system, by their UUID.
  pub mounts : List (ℕ × String)

pub data Status : Type 0 where
  ok einval eperm eagain enolck enoent ebusy ealready : Status

pub data Reply : Type 0 where
  replied : Status → Reply
  no_reply invalid_argument failure : Reply

-- CFDictionaryGetValue, and a change of the volume that it gives.
abbrev pub find : ℕ → List Entry → Option WatchedVol
find id [] = none
find id ((key, v) ∷ rest) = if key == id then some v else find id rest

abbrev pub put : ℕ → WatchedVol → List Entry → List Entry
put id v' [] = []
put id v' ((key, v) ∷ rest) = if key == id then (key, v') ∷ rest else (key, v) ∷ put id v' rest

abbrev pub set_port : ℕ → ℕ → (ℕ → ℕ) → ℕ → ℕ
set_port port value ports = λ k. if port == k then value else ports k

abbrev pub is_port : Option ℕ → ℕ → Bool
is_port none port = false
is_port (some p) port = p == port

abbrev pub held : Option ℕ → Bool
held none = false
held (some p) = true
