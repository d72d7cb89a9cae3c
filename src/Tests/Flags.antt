-- ===== src/Tests/Flags.antt =====
-- Runs of the flags of labels/dos.c.
use uparted.Base.{List, [], false, if◌then◌else◌, refl, some, true, ◌∷◌, ◌≡◌}
use uparted.Dos.Flags.{
  DosPartition, get_flag, is_hidden, is_lba, linux_swap, lvm, raid, set_flag, set_lba, supports_lba,
  swap,
}
use uparted.Disk.Sorted.{All}
use uparted.Dos.Flags.Boot.{IsOnly, Member, set_boot, set_boot_lem}
use uparted.Dos.Flags.TypeId.{set_lba_lem}
use uparted.Dos.Flags.Kept.{is_overruled, set_flag_lem}

abbrev linux : DosPartition
linux = record { extended = false; fs_type = some linux_swap; system = 131; boot = false }

-- The lba flag of a hidden FAT16 partition: the status is true, and the flag is not set.
hidden_fat16 : (set_lba 22 true ≡ (true, 22)) × (is_lba 22 ≡ false)
unfolding set_lba is_lba
hidden_fat16 = (refl, refl)

-- An empty type is the alternative type of each flag that has none.
empty_type : get_flag (record linux { system = 0 }) raid ≡ true
unfolding get_flag
empty_type = refl

-- The swap flag comes back once it is cleared.
swap_again :
    set_flag (record linux { system = 130 }) swap false ≡ (true, record linux { system = 130 })
unfolding set_flag
swap_again = refl

accepted : (set_flag linux lvm true).0 ≡ true
unfolding set_flag
accepted = refl

plain : is_overruled linux lvm true ≡ false
unfolding is_overruled
plain = refl

set_flag_lem_example : get_flag (set_flag linux lvm true).1 lvm ≡ true
set_flag_lem_example = set_flag_lem linux lvm true accepted plain

set_lba_lem_example :
    (supports_lba 11 ≡ true
      → ((set_lba 11 true).0 ≡ true)
        × (is_lba (set_lba 11 true).1 ≡ (if is_hidden 11 then is_lba 11 else true))
        × (is_hidden (set_lba 11 true).1 ≡ is_hidden 11)
        × ((set_lba (set_lba 11 true).1 (is_lba 11)).1 ≡ 11))
    × (supports_lba 11 ≡ false → set_lba 11 true ≡ (false, 11))
set_lba_lem_example = set_lba_lem 11 true

abbrev three : List Member
three =
    record { address = 1; active = true; part = record linux { boot = true } }
    ∷ record { address = 2; active = true; part = linux }
    ∷ record { address = 3; active = false; part = linux }
    ∷ []

set_boot_lem_example : All (IsOnly 2) (set_boot 2 true three)
set_boot_lem_example = set_boot_lem 2 three
