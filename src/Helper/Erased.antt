-- ===== src/Helper/Erased.antt =====
-- update_boot.c: what BREraseBootFiles leaves of a helper partition.
use kext_tools.Common.{◌≡◌, false, ◌&&◌}
use kext_tools.Helper.Data.{Disk, System}
use kext_tools.Helper.Booters.{has_file}
use kext_tools.Helper.Erases.{IsHonest, NoLabels, NoDirs, NoMisc}

module _ (system : System) (honest : IsHonest system) where
  abbrev NoNames : Disk → Type 0
  NoNames d =
      ((system.has_efi && has_file d.efi_booter) ≡ false)
      × (((system.has_of && has_file d.of_booter) ≡ false) × NoLabels d)

  abbrev NoDirsOrNames : Disk → Type 0
  NoDirsOrNames d = NoDirs d × NoNames d

  abbrev NoMiscOrNames : Disk → Type 0
  NoMiscOrNames d = NoMisc d.misc × NoDirsOrNames d
