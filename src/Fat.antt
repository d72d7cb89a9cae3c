-- ===== src/Fat.antt =====
-- apps/parted/libparted/fs/r/fat: the arithmetic and the table of the FAT file systems. A
-- `FatCluster` is a number below 2^32, whose additions and subtractions wrap around.
pub mod Table
pub mod Calc
pub mod Layout
use uparted.Base.{ℕ, ◌%◌, ◌+◌, ◌-◌, ◌^◌}

-- `enum _FatType`
pub data FatType : Type 0 where
  fat12 fat16 fat32 : FatType

-- Additions and subtractions of `FatCluster`, `uint32_t`.
abbrev pub add_32 : ℕ → ℕ → ℕ
add_32 a b = (a + b) % 2 ^ 32

abbrev pub sub_32 : ℕ → ℕ → ℕ
sub_32 a b = (a + 2 ^ 32 - b) % 2 ^ 32
