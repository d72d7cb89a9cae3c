-- ===== src/Geom.antt =====
-- apps/parted/libparted/cs/geom.c: regions of consecutive sectors on a device.
pub mod Laws
pub mod Mapped
use uparted.Base.{
  Bool, Option, eqb_ℤ, false, if◌then◌else◌, leb_ℤ, ltb_ℤ, max_ℤ, min_ℤ, negsuc, none, pos, some, ℕ,
  ℤ, ◌&&◌, ◌+ℤ◌, ◌-ℤ◌, ◌==◌,
}

-- What the sector arithmetic reads of a `PedDevice`: the address of the structure, which `==` on
-- pointers compares, and `length`.
pub record Device : Type 0 where
  pub address : ℕ
  pub length : ℤ

-- `struct _PedGeometry`
pub record Geometry : Type 0 where
  pub dev : Device
  pub start : ℤ
  pub length : ℤ
  pub stop : ℤ

abbrev pub same_dev : Geometry → Geometry → Bool
same_dev a b = a.dev.address == b.dev.address

-- `ped_geometry_set` on the geometry of a device: `none` is the return of 0, which throws an
-- exception and leaves the geometry as it was.
unfoldable pub set : Geometry → ℤ → ℤ → Option Geometry
set geom start length =
    if ltb_ℤ length (pos 1)
    then none
    else some (record geom { start = start; length = length; stop = start +ℤ length -ℤ pos 1 })

-- `ped_geometry_init`; a variable that a failed call leaves uninitialised is `none`.
unfoldable pub init : Device → ℤ → ℤ → Option Geometry
unfolding set
init dev start length =
    set (record { dev = dev; start = pos 0; length = pos 0; stop = pos 0 }) start length

-- `ped_geometry_new`
unfoldable pub new : Device → ℤ → ℤ → Option Geometry
unfolding init
new dev start length = init dev start length

-- `ped_geometry_duplicate`
unfoldable pub duplicate : Geometry → Option Geometry
unfolding new
duplicate geom = new geom.dev geom.start geom.length

-- The part of `ped_geometry_intersect` behind the test for NULL.
unfoldable pub intersect_defined : Geometry → Geometry → Option Geometry
intersect_defined a b =
    let start = max_ℤ a.start b.start in
    let stop = min_ℤ a.stop b.stop in
    if same_dev a b
    then if ltb_ℤ stop start then none else new a.dev start (stop -ℤ start +ℤ pos 1)
    else none

-- `ped_geometry_intersect`
unfoldable pub intersect : Option Geometry → Option Geometry → Option Geometry
unfolding intersect_defined
intersect none b = none
intersect (some a) none = none
intersect (some a) (some b) = intersect_defined a b

-- `ped_geometry_set_start` and `ped_geometry_set_end`
unfoldable pub set_start : Geometry → ℤ → Option Geometry
unfolding set
set_start geom start = set geom start (geom.stop -ℤ start +ℤ pos 1)

unfoldable pub set_end : Geometry → ℤ → Option Geometry
unfolding set
set_end geom stop = set geom geom.start (stop -ℤ geom.start +ℤ pos 1)

-- `ped_geometry_test_overlap`
unfoldable pub test_overlap : Geometry → Geometry → Bool
test_overlap a b =
    if same_dev a b
    then if ltb_ℤ a.start b.start then leb_ℤ b.start a.stop else leb_ℤ a.start b.stop
    else false

-- `ped_geometry_test_inside`
unfoldable pub test_inside : Geometry → Geometry → Bool
test_inside a b = if same_dev a b then leb_ℤ a.start b.start && leb_ℤ b.stop a.stop else false

-- `ped_geometry_test_equal`
unfoldable pub test_equal : Geometry → Geometry → Bool
test_equal a b = same_dev a b && (eqb_ℤ a.start b.start && eqb_ℤ a.stop b.stop)

-- `ped_geometry_test_sector_inside`
unfoldable pub test_sector_inside : Geometry → ℤ → Bool
test_sector_inside geom sector = leb_ℤ geom.start sector && leb_ℤ sector geom.stop

-- `ped_geometry_map`; -1 is the failure.
unfoldable pub map_sector : Geometry → Geometry → ℤ → ℤ
unfolding test_sector_inside
map_sector dst src sector =
    let result = src.start +ℤ sector -ℤ dst.start in
    if test_sector_inside src sector
    then if same_dev dst src
      then if ltb_ℤ result (pos 0)
        then negsuc 0
        else if ltb_ℤ dst.length result
        then negsuc 0
        else result
      else negsuc 0
    else negsuc 0

-- The transfer that `ped_geometry_read` and `ped_geometry_write` ask of the device: the first
-- sector and the count, or `none` where they refuse.
unfoldable pub transfer : Geometry → ℤ → ℤ → Option (ℤ × ℤ)
transfer geom offset count =
    let real_start = geom.start +ℤ offset in
    if ltb_ℤ geom.stop (real_start +ℤ count -ℤ pos 1) then none else some (real_start, count)
