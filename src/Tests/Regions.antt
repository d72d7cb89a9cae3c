-- ===== src/Tests/Regions.antt =====
-- geom.c on a disk of 1000 sectors.
use uparted.Base.{
  arith, if◌then◌else◌, leb_ℤ, max_ℤ, min_ℤ, negsuc, none, pos, refl, some, ℤ, ◌+ℤ◌, ◌-ℤ◌, ◌<ℤ◌,
  ◌↔◌, ◌≡◌, ◌≢◌, ◌≤ℤ◌,
}
use uparted.Geom
use uparted.Geom.{Geometry}
use uparted.Geom.Mapped.{IsNear, map_sector-transfer}
use uparted.Geom.Laws.{Contains, IsValid, SameDev, intersect_sound, transfer_iff}

abbrev disk : Geom.Device
disk = record { address = 1; length = pos 1000 }

abbrev front : Geometry
front = record { dev = disk; start = pos 10; length = pos 20; stop = pos 29 }

abbrev middle : Geometry
middle = record { dev = disk; start = pos 25; length = pos 50; stop = pos 74 }

abbrev shared : Geometry
shared = record { dev = disk; start = pos 25; length = pos 5; stop = pos 29 }

front-IsValid : IsValid front
unfolding ◌+ℤ◌ ◌-ℤ◌
front-IsValid = record { nonempty = omega arith; last = refl }

middle-IsValid : IsValid middle
unfolding ◌+ℤ◌ ◌-ℤ◌
middle-IsValid = record { nonempty = omega arith; last = refl }

intersect_runs : Geom.intersect (some front) (some middle) ≡ some shared
unfolding Geom.intersect Geom.new Geom.intersect_defined ◌+ℤ◌ ◌-ℤ◌ max_ℤ min_ℤ
intersect_runs = refl

intersect_sound_example :
    IsValid shared
    × SameDev front middle
    × (shared.dev ≡ disk)
    × ((s : ℤ) → Contains shared s ↔ (Contains front s × Contains middle s))
intersect_sound_example = intersect_sound front middle shared intersect_runs

transfer_iff_example :
    (Geom.transfer front (pos 5) (pos 3) ≡ some (pos 10 +ℤ pos 5, pos 3))
    ↔ ((i : ℤ) → pos 0 ≤ℤ i → i <ℤ pos 3 → Contains front (pos 10 +ℤ pos 5 +ℤ i))
transfer_iff_example = transfer_iff front front-IsValid (pos 5) (pos 3) (omega arith) (omega arith)

abbrev low : Geometry
low = record { dev = disk; start = pos 5; length = pos 25; stop = pos 29 }

abbrev tail_end : Geometry
tail_end = record { dev = disk; start = pos 10; length = pos 15; stop = pos 24 }

tail_end-IsValid : IsValid tail_end
unfolding ◌+ℤ◌ ◌-ℤ◌
tail_end-IsValid = record { nonempty = omega arith; last = refl }

-- Sector 20 of `low` is the one behind `tail_end`.
map_behind : Geom.map_sector tail_end low (pos 20) ≡ pos 15
unfolding Geom.map_sector Geom.test_sector_inside ◌+ℤ◌ ◌-ℤ◌
map_behind = refl

-- The number is looked up as a sector of the device: sector 3 of `low` is not mapped.
map_below : Geom.map_sector low low (pos 3) ≡ negsuc 0
unfolding Geom.map_sector Geom.test_sector_inside ◌+ℤ◌ ◌-ℤ◌
map_below = refl

map_sector-transfer_example :
    ((Geom.map_sector tail_end low (pos 20) ≡ negsuc 0)
      ↔ (¬ (Contains low (pos 20) × IsNear tail_end low (pos 20))))
    × (Geom.map_sector tail_end low (pos 20) ≢ negsuc 0
        → Geom.transfer tail_end (Geom.map_sector tail_end low (pos 20)) (pos 1)
          ≡ (if leb_ℤ (pos 5 +ℤ pos 20) (pos 24) then some (pos 5 +ℤ pos 20, pos 1) else none))
map_sector-transfer_example = map_sector-transfer tail_end low (pos 20) tail_end-IsValid refl
