-- ===== src/Dos/Chs.antt =====
-- labels/dos.c: addresses by cylinder, head and sector. A sector of a device and the numbers of a
-- BIOS geometry are not negative.
pub mod Round
use uparted.Base.{if◌then◌else◌, ltb, ltb_ℤ, pos, ℕ, ℤ, ◌%◌, ◌*◌, ◌+ℤ◌, ◌+◌, ◌-ℤ◌, ◌-◌, ◌/◌, ◌^◌}

-- `struct _PedCHSGeometry`, without the number of cylinders, which nothing here reads.
pub record ChsGeometry : Type 0 where
  pub heads : ℕ
  pub sectors : ℕ

-- `RawCHS`, three bytes.
pub record RawChs : Type 0 where
  pub head : ℕ
  pub sector : ℕ
  pub cylinder : ℕ

-- `MAX_CHS_CYLINDER`
abbrev pub max_chs_cylinder : ℕ
max_chs_cylinder = 1021

-- `chs_get_cylinder`, `chs_get_head` and `chs_get_sector`
unfoldable pub get_cylinder : RawChs → ℕ
get_cylinder chs = chs.cylinder + chs.sector / 2 ^ 6 * 2 ^ 8

abbrev pub get_head : RawChs → ℕ
get_head chs = chs.head

unfoldable pub get_sector : RawChs → ℤ
get_sector chs = pos (chs.sector % 2 ^ 6) -ℤ pos 1

-- `chs_to_sector`
unfoldable pub chs_to_sector : ChsGeometry → RawChs → ℤ
unfolding get_cylinder get_sector
chs_to_sector bios_geom chs =
    let c = get_cylinder chs in
    let s = get_sector chs in
    if ltb max_chs_cylinder c
    then pos 0
    else if ltb_ℤ s (pos 0)
    then pos 0
    else pos ((c * bios_geom.heads + get_head chs) * bios_geom.sectors) +ℤ s

-- The bytes for a cylinder, a head and a sector of it.
unfoldable pub pack : ℕ → ℕ → ℕ → RawChs
pack c h s = record {
  head = h % 2 ^ 8;
  sector = (s + 1 + c / 2 ^ 8 * 2 ^ 6) % 2 ^ 8;
  cylinder = c % 2 ^ 8;
}

-- `sector_to_chs`
unfoldable pub sector_to_chs : ChsGeometry → ℕ → RawChs
unfolding pack
sector_to_chs bios_geom sector =
    let c = sector / (bios_geom.heads * bios_geom.sectors) in
    if ltb max_chs_cylinder c
    then pack 1023 (bios_geom.heads - 1) (bios_geom.sectors - 1)
    else pack c (sector / bios_geom.sectors % bios_geom.heads) (sector % bios_geom.sectors)
