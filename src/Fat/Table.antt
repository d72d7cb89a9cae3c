-- ===== src/Fat/Table.antt =====
-- apps/parted/libparted/fs/r/fat/table.c: the file allocation table.
pub mod Count
pub mod Stats
pub mod Alloc
pub mod Check
pub mod New
use uparted.Base.{
  Bool, Option, Run, done, false, if◌then◌else◌, leb, none, not, some, suc, trap, true, zero, ℕ,
  ◌%◌, ◌&&◌, ◌*◌, ◌+◌, ◌-◌, ◌/◌, ◌==◌, ◌>>=◌, ◌^◌, ◌||◌,
}
use uparted.Fat.{FatType, add_32, fat12, fat16, fat32, sub_32}

-- `struct _FatTable`. `table` has the code of each cluster, in the byte order of the processor; an
-- access outside of its `raw_size` bytes does not occur where `cluster_count + 2 <= size`.
pub record FatTable : Type 0 where
  pub table : ℕ → ℕ
  pub size : ℕ
  pub raw_size : ℕ
  pub fat_type : FatType
  pub cluster_count : ℕ
  pub free_cluster_count : ℕ
  pub bad_cluster_count : ℕ
  pub last_alloc : ℕ

-- `fat_table_entry_size`
unfoldable pub entry_size : FatType → ℕ
entry_size fat12 = 2
entry_size fat16 = 2
entry_size fat32 = 4

-- The entry that `fat_table_get` reads.
unfoldable pub read_code : FatType → (ℕ → ℕ) → ℕ → ℕ
read_code fat12 table cluster = 0
read_code fat16 table cluster = table cluster
read_code fat32 table cluster = table cluster

abbrev pub update : (ℕ → ℕ) → ℕ → ℕ → ℕ → ℕ
update table cluster value at = if cluster == at then value else table at

-- The entry that `fat_table_set` writes: 16 or 32 bits of the value.
unfoldable pub write_code : FatType → (ℕ → ℕ) → ℕ → ℕ → ℕ → ℕ
write_code fat12 table cluster value = table
write_code fat16 table cluster value = update table cluster (value % 2 ^ 16)
write_code fat32 table cluster value = update table cluster (value % 2 ^ 32)

-- `fat_table_get`: `trap` is the call of `exit` for a cluster outside of the file system.
unfoldable pub get : FatTable → ℕ → Run ℕ
unfolding read_code
get ft cluster =
    if leb (add_32 ft.cluster_count 2) cluster
    then trap
    else done (read_code ft.fat_type ft.table cluster)

-- `_test_code_available`
abbrev pub code_available : ℕ → Bool
code_available code = code == 0

-- The code of a bad cluster.
abbrev pub bad_code : FatType → ℕ
bad_code fat12 = 0xff7
bad_code fat16 = 0xfff7
bad_code fat32 = 0x0ffffff7

-- `_test_code_bad`
unfoldable pub code_bad : FatType → ℕ → Bool
code_bad fat_type code = code == bad_code fat_type

-- `_test_code_eof`, which `fat_table_is_eof` calls on its argument.
unfoldable pub code_eof : FatType → ℕ → Bool
code_eof fat_type code = leb (bad_code fat_type) code

-- `fat_table_is_available`, `fat_table_is_bad`
unfoldable pub is_available : FatTable → ℕ → Run Bool
unfolding get
is_available ft cluster = get ft cluster >>= λ code. done (code_available code)

unfoldable pub is_bad : FatTable → ℕ → Run Bool
unfolding get code_bad
is_bad ft cluster = get ft cluster >>= λ code. done (code_bad ft.fat_type code)

-- `fat_table_is_empty`, `fat_table_is_active`
unfoldable pub is_empty : FatTable → ℕ → Run Bool
unfolding is_available is_bad
is_empty ft cluster =
    is_available ft cluster >>= λ available. is_bad ft cluster >>= λ bad. done (available || bad)

unfoldable pub is_active : FatTable → ℕ → Run Bool
unfolding is_available is_bad
is_active ft cluster = is_bad ft cluster >>= λ bad.
    is_available ft cluster >>= λ available. done (not bad && not available)

-- `_update_stats` once the cluster's own state is known.
unfoldable pub update_counts : FatTable → ℕ → ℕ → Bool → Bool → FatTable
unfolding code_bad
update_counts ft cluster value available bad =
    if code_available value && not available
    then record ft {
      free_cluster_count = add_32 ft.free_cluster_count 1;
      bad_cluster_count = if bad then sub_32 ft.bad_cluster_count 1 else ft.bad_cluster_count;
    }
    else if not (code_available value) && available
    then record ft {
      free_cluster_count = sub_32 ft.free_cluster_count 1;
      bad_cluster_count =
          if code_bad ft.fat_type cluster
          then sub_32 ft.bad_cluster_count 1
          else ft.bad_cluster_count;
    }
    else ft

-- `_update_stats`
unfoldable pub update_stats : FatTable → ℕ → ℕ → Run FatTable
unfolding is_available is_bad update_counts
update_stats ft cluster value = is_available ft cluster >>= λ available.
    is_bad ft cluster >>= λ bad. done (update_counts ft cluster value available bad)

-- `fat_table_set`
unfoldable pub set : FatTable → ℕ → ℕ → Run (Bool × FatTable)
unfolding update_stats write_code
set ft cluster value =
    if leb (add_32 ft.cluster_count 2) cluster
    then done (false, ft)
    else (update_stats ft cluster value >>= λ counted.
        done (true, record counted { table = write_code ft.fat_type ft.table cluster value }))

-- `fat_table_set_eof`
unfoldable pub set_eof : FatTable → ℕ → Run (Bool × FatTable)
unfolding set
set_eof ft cluster = elim ft.fat_type [
  | fat12 ↦ done (false, ft)
  | fat16 ↦ set ft cluster 0xfff8
  | fat32 ↦ set ft cluster 0x0fffffff
]

-- `fat_table_set_bad`
unfoldable pub set_bad : FatTable → ℕ → Run (Bool × FatTable)
set_bad ft cluster = is_bad ft cluster >>= λ bad.
    set (if bad then ft else record ft { bad_cluster_count = add_32 ft.bad_cluster_count 1 })
      cluster (bad_code ft.fat_type)

-- `fat_table_set_avail`
unfoldable pub set_avail : FatTable → ℕ → Run (Bool × FatTable)
unfolding set
set_avail ft cluster = set ft cluster 0

-- `fat_table_clear`
unfoldable pub clear : FatTable → Run FatTable
unfolding set
clear ft = set (record ft { table = λ cluster. 0 }) 0 0x0ffffff8 >>= λ first.
    set first.1 1 0x0fffffff >>= λ second. done (record second.1 {
      free_cluster_count = second.1.cluster_count;
      bad_cluster_count = 0;
      last_alloc = 1;
    })

-- The table that `fat_table_new` clears: its end is filled up to a sector.
unfoldable pub blank : FatType → ℕ → FatTable
unfolding entry_size
blank fat_type size =
    let entry = entry_size fat_type in
    let full = (size * entry % 2 ^ 32 + 511) / 512 * 512 / entry in
    record {
      table = λ cluster. 0;
      size = full;
      raw_size = full * entry % 2 ^ 32;
      fat_type = fat_type;
      cluster_count = sub_32 size 2;
      free_cluster_count = sub_32 size 2;
      bad_cluster_count = 0;
      last_alloc = 0;
    }

-- `fat_table_new`
unfoldable pub new : FatType → ℕ → Run FatTable
unfolding blank clear
new fat_type size = clear (blank fat_type size)

-- `fat_table_duplicate`
unfoldable pub duplicate : FatTable → Run FatTable
unfolding new
duplicate ft = new ft.fat_type ft.size >>= λ dup_ft. done (record dup_ft {
  cluster_count = ft.cluster_count;
  free_cluster_count = ft.free_cluster_count;
  bad_cluster_count = ft.bad_cluster_count;
  last_alloc = ft.last_alloc;
  table = ft.table;
})

-- The loop of `fat_table_count_stats` from the cluster `i` on, with the count of those left.
unfoldable pub count_from : ℕ → ℕ → FatTable → Run FatTable
unfolding is_available is_bad
count_from zero i ft = done ft
count_from (suc left) i ft = is_available ft i >>= λ available. is_bad ft i >>= λ bad.
    count_from left (i + 1) (record ft {
      free_cluster_count =
          if available then add_32 ft.free_cluster_count 1 else ft.free_cluster_count;
      bad_cluster_count = if bad then add_32 ft.bad_cluster_count 1 else ft.bad_cluster_count;
    })

-- `fat_table_count_stats`
unfoldable pub count_stats : FatTable → Run FatTable
unfolding count_from
count_stats ft =
    count_from (add_32 ft.cluster_count 2 - 2) 2
      (record ft { free_cluster_count = 0; bad_cluster_count = 0 })

-- `fat_table_set_cluster_count`
unfoldable pub set_cluster_count : FatTable → ℕ → Run FatTable
unfolding count_stats
set_cluster_count ft new_cluster_count =
    count_stats (record ft { cluster_count = new_cluster_count })

-- The loop of `fat_table_compare`.
unfoldable pub compare_from : ℕ → ℕ → FatTable → FatTable → Run Bool
unfolding get
compare_from zero i a b = done true
compare_from (suc left) i a b = get a i >>= λ x.
    get b i >>= λ y. let rest = compare_from left (i + 1) a b in if x == y then rest else done false

-- `fat_table_compare`
unfoldable pub compare_tables : FatTable → FatTable → Run Bool
unfolding compare_from
compare_tables a b =
    if a.cluster_count == b.cluster_count
    then compare_from (add_32 a.cluster_count 2) 0 a b
    else done false

-- The loop of `fat_table_alloc_cluster`, with the count of the rounds that are left; 0 if no
-- cluster is found.
unfoldable pub alloc_from : ℕ → ℕ → FatTable → Run (ℕ × FatTable)
unfolding is_available
alloc_from zero i ft = done (0, ft)
alloc_from (suc left) i ft =
    let cluster = add_32 i ft.last_alloc % ft.cluster_count in
    let rest = alloc_from left (i + 1) ft in
    is_available ft cluster >>= λ available.
    if available then done (cluster, record ft { last_alloc = cluster }) else rest

-- `fat_table_alloc_cluster`
unfoldable pub alloc_cluster : FatTable → Run (ℕ × FatTable)
unfolding alloc_from
alloc_cluster ft = alloc_from (add_32 ft.cluster_count 1 - 1) 1 ft

-- `fat_table_alloc_check_cluster` on fuel; `readable` says whether `fat_read_cluster` succeeds on a
-- cluster. `none` says that the fuel ran out.
unfoldable pub alloc_check : ℕ → (ℕ → Bool) → FatTable → Run (Option (ℕ × FatTable))
alloc_check zero readable ft = done none
alloc_check (suc fuel) readable ft = alloc_cluster ft >>= λ (result, found).
    let marked = set_bad found result >>= λ (status, next). alloc_check fuel readable next in
    if result == 0
    then done (some (0, found))
    else if readable result
    then done (some (result, found))
    else marked
