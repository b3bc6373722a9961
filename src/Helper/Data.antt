-- ===== src/Helper/Data.antt =====
-- update_boot.c: struct updatingVol and one helper partition. Each write goes to the history of
-- the partition, since the power can fail behind it.
use kext_tools.Common.{ℕ, Bool, true, false, Option, List, ◌∷◌, if◌then◌else◌, ◌==◌, ◌||◌}

-- The names com.apple.boot.R, com.apple.boot.P and com.apple.boot.S.
pub data Name : Type 0 where
  rock paper scissors : Name

-- A directory of the files that the booter reads: all of one version, or some of them.
pub data RpsDir : Type 0 where
  missing partial : RpsDir
  whole : ℕ → RpsDir

pub data Blessed : Type 0 where
  recovery nothing_blessed : Blessed
  booter : ℕ → Blessed

-- A booter file: its file ID, and whether its copy is complete.
pub record BooterFile : Type 0 where
  pub id : ℕ
  pub complete : Bool

pub record MiscFile : Type 0 where
  pub active : Bool
  pub fresh : Bool

pub record Disk : Type 0 where
  pub r_dir : RpsDir
  pub p_dir : RpsDir
  pub s_dir : RpsDir
  pub flat_dir : RpsDir
  pub has_recovery : Bool
  pub blessed : Blessed
  pub of_booter : Option BooterFile
  pub of_old : Option BooterFile
  pub efi_booter : Option BooterFile
  pub efi_old : Option BooterFile
  pub label : Bool
  pub label_new : Bool
  pub label_2x : Bool
  pub label_details : Bool
  pub root_uuid : Bool
  pub misc : List MiscFile

-- enum bootReversions.
pub data Reversion : Type 0 where
  nothing_serious no_label copying_of copying_efi copied_booters : Reversion
  activating_of activating_efi activated_booters : Reversion

pub data Target : Type 0 where
  rps : Name → Target
  flat : Target

pub record Up : Type 0 where
  pub disk : Disk
  pub history : List Disk
  pub changestate : Reversion
  pub do_rps : Bool
  pub do_booters : Bool
  pub do_misc : Bool
  pub dst : Target

-- Where a directory is erased.
pub data Site : Type 0 where
  extra_paper stale_target freed_for_recovery fallback : Site
  erased_previous erased_current erased_next : Site

-- The calls that can fail. The flag is for the booters that the update has put aside.
pub data Call : Type 0 where
  zero_file unlink_dir : Site → Call
  make_dir write_flat_props rename_rps sync_rps : Call
  bless_recovery_info sync_recovery : Call
  unlink_old_of rename_of copy_of unlink_old_efi rename_efi copy_efi : Call
  sync_booters open_of open_efi set_boot_info set_nvram : Bool → Call
  unlink_of restore_of unlink_efi restore_efi drop_old_of drop_old_efi : Call
  unlink_label unlink_2x unlink_details unlink_uuid move_label clear_type type_label label_back :
      Call
  copy_misc rename_misc : ℕ → Call
  mount unbless erase_of erase_efi erase_once : Call
  erase_misc : ℕ → Call

-- A file of the booter's directory: whether it is left out, may be missing, and the copy's error.
pub record Item : Type 0 where
  pub skipped : Bool
  pub optional : Bool
  pub error : ℕ

-- What one update is asked to do, and how the system's calls end; 0 is success.
pub record System : Type 0 where
  pub fails : Call → ℕ
  pub items : List Item
  pub version : ℕ
  -- flatTarget or useOnceDir, and whether blessSpec asks for recovery and not for once.
  pub to_flat : Bool
  pub recovery_asked : Bool
  pub writes_props : Bool
  pub zeroes_props : Bool
  pub has_of : Bool
  pub has_efi : Bool
  pub new_of_id : ℕ
  pub new_efi_id : ℕ
  pub bless_default : Bool
  pub sets_nvram : Bool
  pub expect_up_to_date : Bool
  pub misc_sources : List Bool
  pub not_default : Bool
  pub helpers_optional : Bool

abbrev pub enoent : ℕ
enoent = 2

-- RECERR: a file that is missing is no error, and the first error is kept.
abbrev pub recerr : ℕ → ℕ → ℕ
recerr e first = if (e == 0) || (e == enoent) then first else if first == 0 then e else first

-- ELAST + 1.
abbrev pub elast_1 : ℕ
elast_1 = 107

abbrev pub Op : Type 0
Op = Up → Up × ℕ

abbrev pub write : Disk → Up → Up
write d up = record up { disk = d; history = d ∷ up.history }

-- The next call is made when the first one returns 0.
infixl 5 ◌>>◌
abbrev pub ◌>>◌ : Op → Op → Op
◌>>◌ m k up = let (up', e) = m up in if e == 0 then k up' else (up', e)

abbrev pub when : (Up → Bool) → Op → Op
when test op up = if test up then op up else (up, 0)

abbrev pub get : Target → Disk → RpsDir
get (rps rock) d = d.r_dir
get (rps paper) d = d.p_dir
get (rps scissors) d = d.s_dir
get flat d = d.flat_dir

abbrev pub set : Target → RpsDir → Disk → Disk
set (rps rock) x d = record d { r_dir = x }
set (rps paper) x d = record d { p_dir = x }
set (rps scissors) x d = record d { s_dir = x }
set flat x d = record d { flat_dir = x }

abbrev pub exists : RpsDir → Bool
exists missing = false
exists partial = true
exists (whole v) = true

abbrev pub same_name : Name → Target → Bool
same_name rock (rps rock) = true
same_name paper (rps paper) = true
same_name scissors (rps scissors) = true
same_name _ _ = false
