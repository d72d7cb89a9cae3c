-- ===== src/Fat/Table/New.antt =====
-- `fat_table_new` makes a table on which clusters can be allocated.
use uparted.Base.{done, true, ℕ, ◌≡◌}
use uparted.Fat.{FatType, fat12, fat16, fat32}
use uparted.Fat.Table.{FatTable, set, write_code}

-- The table after one more entry is set, whatever the counts.
abbrev Entered : FatTable → ℕ → ℕ → FatTable → Type 0
Entered ft cluster value next =
    (set ft cluster value ≡ done (true, next))
    × (next.cluster_count ≡ ft.cluster_count)
    × (next.fat_type ≡ ft.fat_type)
    × (next.table ≡ write_code ft.fat_type ft.table cluster value)

-- The types whose tables the code writes.
abbrev pub IsWritten : FatType → Type 0
IsWritten fat12 = ⊥
IsWritten fat16 = Unit
IsWritten fat32 = Unit

-- The two entries that `fat_table_clear` sets.
abbrev cleared : FatType → ℕ → ℕ
cleared t = write_code t (write_code t (λ k. 0) 0 0x0ffffff8) 1 0x0fffffff
