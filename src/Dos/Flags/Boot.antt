-- ===== src/Dos/Flags/Boot.antt =====
-- labels/dos.c: the boot flag, which `msdos_partition_set_flag` takes from the other partitions.
use uparted.Base.{
  Bool, Bool-cases, List, [], false, if◌then◌else◌, inl, inr, not, sym, true, ℕ, ◌==◌, ◌||◌, ◌∷◌,
  ◌≡◌,
}
use uparted.Disk.Sorted.{All}
use uparted.Dos.Flags.{DosPartition, boot, set_flag}

-- A partition that `ped_disk_next_partition` visits: its address, `ped_partition_is_active`, and
-- what the flags read of it.
pub record Member : Type 0 where
  pub address : ℕ
  pub active : Bool
  pub part : DosPartition

-- A change of one partition.
unfoldable pub change_at : ℕ → (DosPartition → DosPartition) → List Member → List Member
change_at part f [] = []
change_at part f (walk ∷ rest) =
    let later = change_at part f rest in
    if walk.address == part then record walk { part = f walk.part } ∷ later else walk ∷ later

-- The loop over the other partitions.
unfoldable pub clear_boot : ℕ → List Member → List Member
unfolding set_flag
clear_boot part [] = []
clear_boot part (walk ∷ rest) =
    let later = clear_boot part rest in
    if walk.address == part || not walk.active
    then walk ∷ later
    else record walk { part = (set_flag walk.part boot false).1 } ∷ later

-- `msdos_partition_set_flag` for PED_PARTITION_BOOT.
unfoldable pub set_boot : ℕ → Bool → List Member → List Member
unfolding change_at clear_boot set_flag
set_boot part state list =
    let changed = change_at part (λ p. (set_flag p boot state).1) list in
    if state then clear_boot part changed else changed

-- An active partition has the boot flag only if it is the given one.
abbrev pub IsOnly : ℕ → Member → Type 0
IsOnly part walk = walk.active ≡ true → walk.part.boot ≡ (walk.address == part)

-- After `msdos_partition_set_flag` has set the boot flag of a partition, that partition has it, and
-- no other active partition has.
pub set_boot_lem : (part : ℕ) (list : List Member) → All (IsOnly part) (set_boot part true list)
unfolding set_boot
set_boot_lem part [] = tt
set_boot_lem part (walk ∷ rest) = elim (Bool-cases (walk.address == part)) [
  | inl e ↦ rw (e, e) ((λ a. sym e), set_boot_lem part rest)
  | inr e ↦ elim (Bool-cases walk.active) [
    | inl f ↦ rw (e, e, f) ((λ a. sym e), set_boot_lem part rest)
    | inr f ↦ rw (e, e, f) ((λ a. cc), set_boot_lem part rest)
  ]
]
