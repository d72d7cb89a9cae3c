-- ===== src/Disk.antt =====
-- apps/parted/libparted/disk.c: the partitions of a disk. A list that C links by `next` and `prev`
-- is the list of its partitions, a function on lists takes the geometry of a member as argument.
pub mod Sorted
pub mod Free
pub mod Gap
pub mod Overlap
pub mod Walk
pub mod Lookup
pub mod Next
pub mod Update
pub mod Tiled
pub mod Unlink
pub mod Delete
pub mod Resize
pub mod Add
use uparted.Base.{
  Bool, List, Option, Run, [], deref, done, if◌then◌else◌, leb_ℤ, ltb_ℤ, none, not, pos, some, trap,
  ℕ, ℤ, ◌&&◌, ◌+ℤ◌, ◌-ℤ◌, ◌-◌, ◌==◌, ◌>>=◌, ◌^◌, ◌||◌, ◌∷◌,
}
use uparted.Geom
use uparted.Geom.{Geometry}
use uparted.Constraint
use uparted.Constraint.{Constraint}

-- `PedPartitionType`, a word with one bit for each of these.
pub record PartitionType : Type 0 where
  pub logical : Bool
  pub extended : Bool
  pub freespace : Bool
  pub metadata : Bool
  pub protected : Bool

-- `struct _PedPartition`; `address` is that of the structure, which `==` on pointers compares.
pub record Partition : Type 0 where
  pub address : ℕ
  pub geom : Geometry
  pub num : ℤ
  pub type : PartitionType

-- A member of the part_list of a disk, with its own part_list, which holds the logical partitions
-- of an extended one.
pub record Entry : Type 0 where
  pub part : Partition
  pub part_list : List Partition

-- `struct _PedDisk`
pub record Disk : Type 0 where
  pub dev : Geom.Device
  pub part_list : List Entry
  pub update_mode : ℕ
  pub needs_clobber : Bool

abbrev pub partition_geom : Partition → Geometry
partition_geom part = part.geom

abbrev pub geom_of : Entry → Geometry
geom_of entry = entry.part.geom

abbrev pub address_of : Entry → ℕ
address_of entry = entry.part.address

-- `ped_partition_is_active`
unfoldable pub is_active : Partition → Bool
is_active part = not (part.type.freespace || part.type.metadata)

-- The test `type == PED_PARTITION_EXTENDED`.
unfoldable pub is_extended : Partition → Bool
is_extended part =
    part.type.extended
    && not
        (part.type.logical || (part.type.freespace || (part.type.metadata || part.type.protected)))

-- `ped_disk_extended_partition`
unfoldable pub extended_partition : List Entry → Option Entry
unfolding is_extended
extended_partition [] = none
extended_partition (walk ∷ rest) =
    let later = extended_partition rest in if is_extended walk.part then some walk else later

-- A change of the part_list of the extended partition, or a stop where there is none.
unfoldable pub update_extended : (List Partition → List Partition) → List Entry → Run (List Entry)
unfolding is_extended
update_extended f [] = trap
update_extended f (walk ∷ rest) =
    let later = update_extended f rest in
    if is_extended walk.part
    then done (record walk { part_list = f walk.part_list } ∷ rest)
    else (later >>= λ changed. done (walk ∷ changed))

-- The loop of `_disk_raw_add` with the insertion behind it.
unfoldable pub add_to : {A : Type 0} → (A → Geometry) → A → List A → List A
add_to geom part [] = part ∷ []
add_to geom part (walk ∷ rest) =
    let later = add_to geom part rest in
    if ltb_ℤ (geom part).stop (geom walk).start then part ∷ walk ∷ rest else walk ∷ later

-- `_disk_raw_add`
unfoldable pub raw_add : Disk → Entry → Run Disk
unfolding add_to update_extended
raw_add disk part =
    if part.part.type.logical
    then (update_extended (add_to (λ walk. walk.geom) part.part) disk.part_list >>= λ list.
        done (record disk { part_list = list }))
    else done (record disk { part_list = add_to geom_of part disk.part_list })

-- The loop that fills the gaps of a list with free space, and the free space behind it: in
-- `_alloc_extended_freespace` and in `_disk_alloc_freespace`.
unfoldable pub fill : {A : Type 0} → (A → Geometry) → (ℤ → ℤ → A) → ℤ → ℤ → List A → List A
fill geom free last_end limit [] =
    if ltb_ℤ last_end limit then free (last_end +ℤ pos 1) limit ∷ [] else []
fill geom free last_end limit (walk ∷ rest) =
    let later = fill geom free (geom walk).stop limit rest in
    if ltb_ℤ (last_end +ℤ pos 1) (geom walk).start
    then free (last_end +ℤ pos 1) ((geom walk).start -ℤ pos 1) ∷ walk ∷ later
    else walk ∷ later

-- `_disk_remove_freespace` on one list.
unfoldable pub remove_free : {A : Type 0} → (A → Partition) → List A → List A
remove_free part [] = []
remove_free part (walk ∷ rest) =
    let later = remove_free part rest in if (part walk).type.freespace then later else walk ∷ later

-- The loop of `_partition_get_overlap_constraint`: the first sector that is free, and the rest of
-- the list.
unfoldable pub find_gap : {A : Type 0} → (A → Geometry) → (A → ℕ) → ℕ → ℤ → ℤ → List A → ℤ × List A
find_gap geom address part start min_start [] = (min_start, [])
find_gap geom address part start min_start (walk ∷ rest) =
    let behind = if address walk == part then min_start else (geom walk).stop +ℤ pos 1 in
    let later = find_gap geom address part start behind rest in
    if ltb_ℤ (geom walk).start start || leb_ℤ (geom walk).start min_start
    then later
    else (min_start, walk ∷ rest)

-- The partition itself is not in the way.
unfoldable pub skip_self : {A : Type 0} → (A → ℕ) → ℕ → List A → List A
skip_self address part [] = []
skip_self address part (walk ∷ rest) = if address walk == part then rest else walk ∷ rest

-- The last free sector in front of the rest of the list.
unfoldable pub gap_end : {A : Type 0} → (A → Geometry) → ℤ → List A → ℤ
gap_end geom max_end [] = max_end
gap_end geom max_end (walk ∷ rest) = (geom walk).start -ℤ pos 1

-- The end of `_partition_get_overlap_constraint`, from its `while` on.
unfoldable pub overlap_in :
    {A : Type 0}
    → (A → Geometry)
    → (A → ℕ)
    → Geom.Device
    → ℕ
    → ℤ
    → ℤ
    → ℤ
    → List A
    → Run (Option Constraint)
unfolding find_gap skip_self gap_end
overlap_in geom address dev part start min_start max_end list =
    let (first, rest) = find_gap geom address part start min_start list in
    let last = gap_end geom max_end (skip_self address part rest) in
    if ltb_ℤ last first
    then done none
    else (deref (Geom.init dev first (last -ℤ first +ℤ pos 1)) >>= λ free_space.
        done (some (Constraint.new_from_max free_space)))

-- `LLONG_MAX - 1`
abbrev pub max_sector : ℤ
max_sector = pos (2 ^ 63 - 2)

-- `_partition_get_overlap_constraint`
unfoldable pub overlap_constraint : Disk → Partition → Geometry → Run (Option Constraint)
unfolding extended_partition overlap_in
overlap_constraint disk part geom =
    if part.type.logical
    then (deref (extended_partition disk.part_list) >>= λ ext_part.
        overlap_in (λ walk. walk.geom) (λ walk. walk.address) disk.dev part.address geom.start
          ext_part.part.geom.start ext_part.part.geom.stop ext_part.part_list)
    else overlap_in geom_of address_of disk.dev part.address geom.start (pos 0) max_sector
        disk.part_list
