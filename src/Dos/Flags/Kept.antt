-- ===== src/Dos/Flags/Kept.antt =====
-- `msdos_partition_get_flag` after `msdos_partition_set_flag`.
use uparted.Base.{
  Bool, Bool-cases, List, Option, [], ap, arith, false, inl, inr, none, not, refl, some, true, ℕ,
  ◌==◌, ◌||◌, ◌∙◌, ◌∷◌, ◌≡◌,
}
use uparted.Dos.Flags.{
  DosPartition, Flag, FsType, bls_boot, boot, diag, esp, fat16, fat32, get_flag, hfs, hfs_plus,
  hidden, hpfs, irst, is_hidden, is_lba, is_one_of, lba, linux_swap, lvm, msft_reserved, ntfs,
  other, palo, prep, raid, set_flag, set_hidden, set_lba, set_mapped, set_system, sun_ufs,
  supports_hidden, supports_lba, swap, system_for, udf, unnamed, with_system,
}
use uparted.Dos.Flags.TypeId.{every, every-is_one_of, set_hidden_lem, set_lba_lem}

-- Where setting the flag to the state is not enough to read it back: the lba flag of a hidden type,
-- and a swap flag that is cleared on a partition with a swap file system, which is given the type
-- of its file system.
unfoldable pub is_overruled : DosPartition → Flag → Bool → Bool
unfolding is_hidden
is_overruled part lba state = is_hidden part.system
is_overruled part swap true = false
is_overruled part swap false = elim part.fs_type [
  | none ↦ false
  | some fs_type ↦ elim fs_type [
    | fat16 ↦ false
    | fat32 ↦ false
    | ntfs ↦ false
    | hpfs ↦ false
    | hfs ↦ false
    | hfs_plus ↦ false
    | udf ↦ false
    | sun_ufs ↦ false
    | linux_swap ↦ true
    | unnamed ↦ false
  ]
]
is_overruled part bls_boot state = false
is_overruled part diag state = false
is_overruled part esp state = false
is_overruled part irst state = false
is_overruled part lvm state = false
is_overruled part msft_reserved state = false
is_overruled part palo state = false
is_overruled part prep state = false
is_overruled part raid state = false
is_overruled part hidden state = false
is_overruled part boot state = false
is_overruled part other state = false

is_type : ℕ × ℕ → ℕ → Bool
is_type p system = system == p.0 || system == p.1

set_mapped_lem :
    (part : DosPartition) (p : ℕ × ℕ) (state : Bool)
    → (set_mapped part p state).0 ≡ true
    → (state ≡ false → is_type p part.system ≡ true → is_type p (system_for part.fs_type) ≡ false)
    → is_type p (set_mapped part p state).1.system ≡ state
unfolding set_mapped is_type set_system is_one_of
set_mapped_lem part (id, alt) true h clear = elim (Bool-cases part.extended) [
  | inl e ↦ let gone = rw e at h in cc
  | inr e ↦ rw e (let r : (id == id) ≡ true = ground arith in rw r refl)
]
set_mapped_lem part (id, alt) false h clear = elim (Bool-cases part.extended) [
  | inl e ↦ let gone = rw e at h in cc
  | inr e ↦ elim (Bool-cases (part.system == id || part.system == alt)) [
    | inl f ↦ rw (e, f) (clear refl f)
    | inr f ↦ rw (e, f) f
  ]
]

-- The types that `msdos_partition_set_system` chooses from.
abbrev systems : List ℕ
systems = 131 ∷ 6 ∷ 11 ∷ 7 ∷ 175 ∷ 191 ∷ 130 ∷ []

system_for-is_one_of : (o : Option FsType) → is_one_of systems (system_for o) ≡ true
unfolding is_one_of system_for
system_for-is_one_of none = refl
system_for-is_one_of (some fat16) = refl
system_for-is_one_of (some fat32) = refl
system_for-is_one_of (some ntfs) = refl
system_for-is_one_of (some hpfs) = refl
system_for-is_one_of (some hfs) = refl
system_for-is_one_of (some hfs_plus) = refl
system_for-is_one_of (some udf) = refl
system_for-is_one_of (some sun_ufs) = refl
system_for-is_one_of (some linux_swap) = refl
system_for-is_one_of (some unnamed) = refl

-- A type that is none of them is gone once it is cleared.
cleared :
    (p : ℕ × ℕ)
    → every (λ n. not (is_type p n)) systems ≡ true
    → (o : Option FsType) → is_type p (system_for o) ≡ false
cleared p none_of o =
    let gone =
      every-is_one_of (λ n. not (is_type p n)) systems (system_for o) none_of
        (system_for-is_one_of o) in
    ground arith

mapped_lem :
    (part : DosPartition) (p : ℕ × ℕ) (state : Bool)
    → every (λ n. not (is_type p n)) systems ≡ true
    → (set_mapped part p state).0 ≡ true
    → is_type p (set_mapped part p state).1.system ≡ state
mapped_lem part p state none_of h =
    set_mapped_lem part p state h λ s t. cleared p none_of part.fs_type

swap_cleared :
    (part : DosPartition)
    → is_overruled part swap false ≡ false
    → is_type (130, 0) (system_for part.fs_type) ≡ false
unfolding is_overruled is_type system_for
swap_cleared part h = on_type part.fs_type h
  where
    on_type :
        (o : Option FsType)
        → is_overruled (record part { fs_type = o }) swap false ≡ false
        → is_type (130, 0) (system_for o) ≡ false
    on_type none h = refl
    on_type (some fat16) h = refl
    on_type (some fat32) h = refl
    on_type (some ntfs) h = refl
    on_type (some hpfs) h = refl
    on_type (some hfs) h = refl
    on_type (some hfs_plus) h = refl
    on_type (some udf) h = refl
    on_type (some sun_ufs) h = refl
    on_type (some linux_swap) h = cc
    on_type (some unnamed) h = refl

hidden_lem :
    (part : DosPartition) (state : Bool)
    → (set_hidden part.system state).0 ≡ true
    → is_hidden (set_hidden part.system state).1 ≡ state
hidden_lem part state h = elim (Bool-cases (supports_hidden part.system)) [
  | inl e ↦ ((set_hidden_lem part.system state).0 e).1
  | inr e ↦ let refused = (set_hidden_lem part.system state).1 e in absurd (failed refused)
]
  where
    failed : set_hidden part.system state ≡ (false, part.system) → ⊥
    failed r = let s = ap (λ x. x.0) r in cc

lba_lem :
    (part : DosPartition) (state : Bool)
    → (set_lba part.system state).0 ≡ true
    → is_hidden part.system ≡ false
    → is_lba (set_lba part.system state).1 ≡ state
lba_lem part state h shown = elim (Bool-cases (supports_lba part.system)) [
  | inl e ↦ ((set_lba_lem part.system state).0 e).1 ∙ rw shown refl
  | inr e ↦ let refused = (set_lba_lem part.system state).1 e in absurd (failed refused)
]
  where
    failed : set_lba part.system state ≡ (false, part.system) → ⊥
    failed r = let s = ap (λ x. x.0) r in cc

-- Where `msdos_partition_set_flag` returns 1, `msdos_partition_get_flag` returns the state that was
-- set, except for the lba flag of a hidden type, and for the swap flag cleared on a partition with
-- a swap file system.
pub set_flag_lem :
    (part : DosPartition) (flag : Flag) (state : Bool)
    → (set_flag part flag state).0 ≡ true
    → is_overruled part flag state ≡ false
    → get_flag (set_flag part flag state).1 flag ≡ state
unfolding set_flag get_flag is_type every with_system is_overruled
set_flag_lem part bls_boot state h k = mapped_lem part (234, 0) state refl h
set_flag_lem part diag state h k = mapped_lem part (18, 222) state refl h
set_flag_lem part esp state h k = mapped_lem part (239, 0) state refl h
set_flag_lem part irst state h k = mapped_lem part (132, 0) state refl h
set_flag_lem part lvm state h k = mapped_lem part (142, 254) state refl h
set_flag_lem part msft_reserved state h k = mapped_lem part (39, 0) state refl h
set_flag_lem part palo state h k = mapped_lem part (240, 0) state refl h
set_flag_lem part prep state h k = mapped_lem part (65, 0) state refl h
set_flag_lem part raid state h k = mapped_lem part (253, 0) state refl h
set_flag_lem part swap true h k = set_mapped_lem part (130, 0) true h λ s t. cc
set_flag_lem part swap false h k = set_mapped_lem part (130, 0) false h λ s t. swap_cleared part k
set_flag_lem part hidden state h k = hidden_lem part state h
set_flag_lem part lba state h k = lba_lem part state h k
set_flag_lem part boot state h k = refl
set_flag_lem part other state h k = cc
