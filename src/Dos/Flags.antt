-- ===== src/Dos/Flags.antt =====
-- labels/dos.c: the type of a partition, one byte of the table, and the flags that it stands for.
pub mod TypeId
pub mod Kept
pub mod Boot
use uparted.Base.{
  Bool, List, Option, [], false, if◌then◌else◌, none, some, true, ℕ, ◌%◌, ◌+◌, ◌-◌, ◌/◌, ◌==◌, ◌||◌,
  ◌∷◌,
}

-- The test of a `switch` with one result for several cases, and of the loop of `is_skip_type`.
unfoldable pub is_one_of : List ℕ → ℕ → Bool
is_one_of [] type_id = false
is_one_of (id ∷ ids) type_id = type_id == id || is_one_of ids type_id

-- The cases of `dos_type_id_supports_hidden`: the extended type, FAT and NTFS, each with the bit
-- `PART_FLAG_HIDDEN` (16) and without.
abbrev pub hidden_types : List ℕ
hidden_types = 5 ∷ 21 ∷ 1 ∷ 17 ∷ 6 ∷ 22 ∷ 14 ∷ 30 ∷ 4 ∷ 20 ∷ 11 ∷ 27 ∷ 12 ∷ 28 ∷ 7 ∷ 23 ∷ []

unfoldable pub supports_hidden : ℕ → Bool
unfolding is_one_of
supports_hidden type_id = is_one_of hidden_types type_id

-- `dos_type_id_is_hidden`
unfoldable pub is_hidden : ℕ → Bool
unfolding is_one_of
is_hidden type_id = is_one_of (21 ∷ 17 ∷ 22 ∷ 30 ∷ 20 ∷ 27 ∷ 28 ∷ 23 ∷ []) type_id

-- `type_id | PART_FLAG_HIDDEN` and `type_id & ~PART_FLAG_HIDDEN`
unfoldable pub with_bit : ℕ → ℕ
with_bit type_id = if type_id / 16 % 2 == 1 then type_id else type_id + 16

unfoldable pub without_bit : ℕ → ℕ
without_bit type_id = if type_id / 16 % 2 == 1 then type_id - 16 else type_id

-- `dos_type_id_set_hidden`: the status and the type.
unfoldable pub set_hidden : ℕ → Bool → Bool × ℕ
unfolding supports_hidden with_bit without_bit
set_hidden type_id state =
    if supports_hidden type_id
    then (true, if state then with_bit type_id else without_bit type_id)
    else (false, type_id)

-- The cases of `dos_type_id_supports_lba`, and `dos_type_id_is_lba`.
abbrev pub lba_types : List ℕ
lba_types = 6 ∷ 22 ∷ 14 ∷ 30 ∷ 11 ∷ 27 ∷ 12 ∷ 28 ∷ 5 ∷ 15 ∷ []

unfoldable pub supports_lba : ℕ → Bool
unfolding is_one_of
supports_lba type_id = is_one_of lba_types type_id

unfoldable pub is_lba : ℕ → Bool
unfolding is_one_of
is_lba type_id = is_one_of (14 ∷ 30 ∷ 12 ∷ 28 ∷ 15 ∷ []) type_id

-- The two `switch` statements of `dos_type_id_set_lba`, which leave any other type as it is.
unfoldable pub to_lba : ℕ → ℕ
to_lba type_id =
    if type_id == 6 then 14 else if type_id == 11 then 12 else if type_id == 5 then 15 else type_id

unfoldable pub from_lba : ℕ → ℕ
from_lba type_id =
    if type_id == 14 then 6 else if type_id == 12 then 11 else if type_id == 15 then 5 else type_id

-- `dos_type_id_set_lba`
unfoldable pub set_lba : ℕ → Bool → Bool × ℕ
unfolding supports_lba to_lba from_lba
set_lba type_id state =
    if supports_lba type_id
    then (true, if state then to_lba type_id else from_lba type_id)
    else (false, type_id)

-- `PedPartitionFlag`; `other` is any flag that dos.c does not name.
pub data Flag : Type 0 where
  bls_boot diag esp irst lvm msft_reserved palo prep raid swap hidden lba boot other : Flag

-- `flag_id_mapping` with `dos_find_flag_id_mapping`: the type of a flag, and the alternative one,
-- which is 0 where the table has none.
unfoldable pub flag_id_mapping : Flag → Option (ℕ × ℕ)
flag_id_mapping bls_boot = some (234, 0)
flag_id_mapping diag = some (18, 222)
flag_id_mapping esp = some (239, 0)
flag_id_mapping irst = some (132, 0)
flag_id_mapping lvm = some (142, 254)
flag_id_mapping msft_reserved = some (39, 0)
flag_id_mapping palo = some (240, 0)
flag_id_mapping prep = some (65, 0)
flag_id_mapping raid = some (253, 0)
flag_id_mapping swap = some (130, 0)
flag_id_mapping hidden = none
flag_id_mapping lba = none
flag_id_mapping boot = none
flag_id_mapping other = none

-- The names of file systems that `msdos_partition_set_system` compares with.
pub data FsType : Type 0 where
  fat16 fat32 ntfs hpfs hfs hfs_plus udf sun_ufs linux_swap unnamed : FsType

-- What the flags read and write of a partition: with its `DosPartitionData`, the type of its file
-- system, and whether the bit PED_PARTITION_EXTENDED of its type is set.
pub record DosPartition : Type 0 where
  pub extended : Bool
  pub fs_type : Option FsType
  pub system : ℕ
  pub boot : Bool

-- `skip_set_system_types`
abbrev pub skip_set_system_types : List ℕ
skip_set_system_types = 15 ∷ 5 ∷ 18 ∷ 39 ∷ 142 ∷ 130 ∷ 253 ∷ 240 ∷ 65 ∷ 132 ∷ 239 ∷ 234 ∷ []

-- The chain of comparisons in `msdos_partition_set_system`.
unfoldable pub system_for : Option FsType → ℕ
system_for none = 131
system_for (some fat16) = 6
system_for (some fat32) = 11
system_for (some ntfs) = 7
system_for (some hpfs) = 7
system_for (some hfs) = 175
system_for (some hfs_plus) = 175
system_for (some udf) = 7
system_for (some sun_ufs) = 191
system_for (some linux_swap) = 130
system_for (some unnamed) = 131

-- `msdos_partition_set_system`
unfoldable pub set_system : DosPartition → Option FsType → DosPartition
unfolding is_one_of system_for
set_system part fs_type =
    if is_one_of skip_set_system_types part.system
    then record part { fs_type = fs_type }
    else if part.extended
    then record part { fs_type = fs_type; system = 15 }
    else record part { fs_type = fs_type; system = system_for fs_type }

-- The part of `msdos_partition_set_flag` for a flag with a type of its own.
unfoldable pub set_mapped : DosPartition → ℕ × ℕ → Bool → Bool × DosPartition
unfolding set_system
set_mapped part (type_id, alt_type_id) state =
    if part.extended
    then (false, part)
    else if state
    then (true, record part { system = type_id })
    else if part.system == type_id || part.system == alt_type_id
    then (true, set_system (record part { system = 131 }) part.fs_type)
    else (true, part)

-- A change of the type of a partition with a status.
unfoldable pub with_system : DosPartition → Bool × ℕ → Bool × DosPartition
with_system part (status, system) = (status, record part { system = system })

-- `msdos_partition_set_flag` on the partition itself.
unfoldable pub set_flag : DosPartition → Flag → Bool → Bool × DosPartition
unfolding flag_id_mapping set_mapped set_hidden set_lba with_system
set_flag part flag state = elim (flag_id_mapping flag) [
  | some p ↦ set_mapped part p state
  | none ↦ elim flag [
    | bls_boot ↦ (false, part)
    | diag ↦ (false, part)
    | esp ↦ (false, part)
    | irst ↦ (false, part)
    | lvm ↦ (false, part)
    | msft_reserved ↦ (false, part)
    | palo ↦ (false, part)
    | prep ↦ (false, part)
    | raid ↦ (false, part)
    | swap ↦ (false, part)
    | hidden ↦ with_system part (set_hidden part.system state)
    | lba ↦ with_system part (set_lba part.system state)
    | boot ↦ (true, record part { boot = state })
    | other ↦ (false, part)
  ]
]

-- `msdos_partition_get_flag`
unfoldable pub get_flag : DosPartition → Flag → Bool
unfolding flag_id_mapping is_hidden is_lba
get_flag part flag = elim (flag_id_mapping flag) [
  | some p ↦ part.system == p.0 || part.system == p.1
  | none ↦ elim flag [
    | bls_boot ↦ false
    | diag ↦ false
    | esp ↦ false
    | irst ↦ false
    | lvm ↦ false
    | msft_reserved ↦ false
    | palo ↦ false
    | prep ↦ false
    | raid ↦ false
    | swap ↦ false
    | hidden ↦ is_hidden part.system
    | lba ↦ is_lba part.system
    | boot ↦ part.boot
    | other ↦ false
  ]
]
