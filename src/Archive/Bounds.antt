-- ===== src/Archive/Bounds.antt =====
-- mkextunpack_main.c: the bytes that an entry of an mkext archive stands for.
use kext_tools.Common.{
  ℕ, ◌+◌, ◌≤◌, ◌≡◌, refl, Bool, true, false, some, List, if◌then◌else◌, ◌==◌, arith, length,
}
use kext_tools.Archive.Memory.{read-inside, length-read}
use kext_tools.Archive.Entry.{MkextFile, Machine, uncompress_mkext1_entry}

-- The part of the archive that an entry is stored in.
abbrev pub stored : MkextFile → ℕ
stored entry = if entry.compsize == 0 then entry.realsize else entry.compsize

-- An entry that is stored inside the archive is uncompressed without regard to the memory behind
-- the archive.
pub uncompress_mkext1_entry-inside :
    (machine : Machine) (outside : ℕ → ℕ) (mkext : List ℕ) (entry : MkextFile)
    → entry.offset + stored entry ≤ length mkext
    → uncompress_mkext1_entry machine mkext entry
      ≡ uncompress_mkext1_entry (record machine { outside = outside }) mkext entry
unfolding uncompress_mkext1_entry
uncompress_mkext1_entry-inside machine outside mkext entry h = by_size (entry.compsize == 0) refl
  where
    by_size :
        (b : Bool)
        → (entry.compsize == 0) ≡ b
        → uncompress_mkext1_entry machine mkext entry
          ≡ uncompress_mkext1_entry (record machine { outside = outside }) mkext entry
    by_size true e =
        rw (uncompress_mkext1_entry, e)
          (rw
            (read-inside machine.outside outside mkext entry.offset entry.realsize
              (ground (arith, h, e)))
            refl)
    by_size false e =
        rw (uncompress_mkext1_entry, e)
          (rw
            (read-inside machine.outside outside mkext entry.offset entry.compsize
              (ground (arith, h, e)))
            refl)

-- The data of an entry has the size that the archive records, or there is none.
pub uncompress_mkext1_entry-realsize :
    (machine : Machine) (mkext : List ℕ) (entry : MkextFile) (out : List ℕ)
    → uncompress_mkext1_entry machine mkext entry ≡ some (some out)
    → length out ≡ entry.realsize
unfolding uncompress_mkext1_entry
uncompress_mkext1_entry-realsize machine mkext entry out h =
    ground (arith, h, length-read machine.outside mkext entry.offset entry.realsize)
