-- ===== src/Tests/Labels.antt =====
-- Runs of labels/dos.c.
use uparted.Base.{
  arith, false, if◌then◌else◌, ltb, negsuc, pos, refl, some, true, ◌*◌, ◌/◌, ◌<ℤ◌, ◌≡◌, ◌≢◌, ◌≤ℤ◌,
  ◌⊎◌,
}
use uparted.Disk.{is_extended}
use uparted.Disk.Walk.{get_partition, partitions, write, write_entry, write_part}
use uparted.Dos.Chs.{ChsGeometry, chs_to_sector, pack, sector_to_chs}
use uparted.Dos.Chs.Round.{chs_to_sector-sector_to_chs}
use uparted.Dos.Number.{next_from, next_primary, partition_enumerate}
use uparted.Dos.Number.Unused.{Numbered, partition_enumerate_lem, without_number}
use uparted.Tests.Sample.{boot, disk, first_logical}

abbrev bios : ChsGeometry
bios = record { heads = 255; sectors = 63 }

chs_run : sector_to_chs bios 1000000 ≡ record { head = 63; sector = 2; cylinder = 62 }
unfolding sector_to_chs pack
chs_run = refl

-- The sample disk has no numbers yet.
first_number : partition_enumerate disk boot.part ≡ some (pos 1)
unfolding partition_enumerate next_primary next_from write write_entry write_part partitions
    get_partition is_extended
first_number = refl

chs_to_sector-sector_to_chs_example :
    chs_to_sector bios (sector_to_chs bios 1000000)
    ≡ (if ltb 1021 (1000000 / (255 * 63)) then pos 0 else pos 1000000)
chs_to_sector-sector_to_chs_example =
    chs_to_sector-sector_to_chs bios 1000000 (omega arith) (omega arith) (omega arith) (omega arith)

partition_enumerate_lem_example :
    (first_logical.num ≢ negsuc 0
      → first_logical.num ≤ℤ pos 4
      → partition_enumerate disk first_logical ≡ some first_logical.num)
    × ((first_logical.num ≡ negsuc 0) ⊎ (pos 4 <ℤ first_logical.num)
        → first_logical.type.logical ≡ true
        → Numbered 60 5
            (without_number disk first_logical)
            (partition_enumerate disk first_logical))
    × ((first_logical.num ≡ negsuc 0) ⊎ (pos 4 <ℤ first_logical.num)
        → first_logical.type.logical ≡ false
        → Numbered 4 1 (without_number disk first_logical) (partition_enumerate disk first_logical))
partition_enumerate_lem_example = partition_enumerate_lem disk first_logical
