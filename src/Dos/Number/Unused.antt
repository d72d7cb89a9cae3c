-- ===== src/Dos/Number/Unused.antt =====
-- The numbers that `msdos_partition_enumerate` chooses.
use uparted.Base.{
  Bool-cases, List, Option, [], ap, arith, eqb_ℤ, eqb_ℤ→eq, false, inl, inr, leb_ℤ, negsuc, none,
  not, parts_of_eq, pos, refl, some, subst, suc, sym, true, zero, ℕ, ℤ, ◌&&◌, ◌+◌, ◌<ℤ◌, ◌<◌, ◌==◌,
  ◌∷◌, ◌≡◌, ◌≢◌, ◌≤ℤ◌, ◌≤◌, ◌⊎◌,
}
use uparted.Disk.{Disk, Partition}
use uparted.Disk.Sorted.{All}
use uparted.Disk.Walk.{get_partition, partitions, write}
use uparted.Dos.Number.{next_from, next_logical, next_primary, partition_enumerate}

-- No partition but free space has the number.
abbrev pub IsUnused : ℤ → List Partition → Type 0
IsUnused n parts = All (λ walk. (walk.num ≢ n) ⊎ (walk.type.freespace ≡ true)) parts

-- What the search returns: the first unused number, or none where all are used.
abbrev pub Numbered : ℕ → ℕ → List Partition → Option ℤ → Type 0
Numbered left i parts none = (j : ℕ) → i ≤ j → j < i + left → ¬ IsUnused (pos j) parts
Numbered left i parts (some n) =
    (k : ℕ) × (n ≡ pos k)
    × (i ≤ k)
    × (k < i + left)
    × IsUnused n parts
    × ((j : ℕ) → i ≤ j → j < k → ¬ IsUnused (pos j) parts)

taken :
    (n : ℤ) (walk : Partition)
    → (eqb_ℤ walk.num n && not walk.type.freespace) ≡ true
    → ¬ ((walk.num ≢ n) ⊎ (walk.type.freespace ≡ true))
taken n walk e (inl other) = other (eqb_ℤ→eq walk.num n (ground arith))
taken n walk e (inr free) = ground arith

untaken :
    (n : ℤ) (walk : Partition)
    → (eqb_ℤ walk.num n && not walk.type.freespace) ≡ false
    → (walk.num ≢ n) ⊎ (walk.type.freespace ≡ true)
untaken n walk e = elim (Bool-cases walk.type.freespace) [
  | inl free ↦ inr free
  | inr held ↦ inl (λ same. let parts = parts_of_eq walk.num n same in ground arith)
]

get_partition-cases :
    (n : ℤ) (parts : List Partition)
    → ((get_partition n parts ≡ none) × IsUnused n parts)
      ⊎ ((part : Partition) × (get_partition n parts ≡ some part) × (¬ IsUnused n parts))
unfolding get_partition
get_partition-cases n [] = inl (refl, tt)
get_partition-cases n (walk ∷ rest) =
    elim (Bool-cases (eqb_ℤ walk.num n && not walk.type.freespace)) [
      | inl e ↦ inr (walk, rw e refl, λ (either, _). taken n walk e either)
      | inr e ↦ elim (get_partition-cases n rest) [
        | inl (empty, unused) ↦ inl (rw e empty, (untaken n walk e, unused))
        | inr (part, found, used) ↦ inr (part, rw e found, λ (_, others). used others)
      ]
    ]

at_or_after :
    (i : ℕ) (parts : List Partition) (j : ℕ)
    → ¬ IsUnused (pos i) parts
    → i ≤ j
    → (i + 1 ≤ j → ¬ IsUnused (pos j) parts)
    → ¬ IsUnused (pos j) parts
at_or_after i parts j used low past = elim (Bool-cases (j == i)) [
  | inl e ↦ let here : i ≡ j = ground arith in subst (λ k. ¬ IsUnused (pos k) parts) here used
  | inr e ↦ let other : j ≢ i = ground arith in past (omega arith)
]

later-Numbered :
    (left i : ℕ) (parts : List Partition) (r : Option ℤ)
    → ¬ IsUnused (pos i) parts
    → Numbered left (i + 1) parts r
    → Numbered (suc left) i parts r
later-Numbered left i parts none used all =
    λ j low high. at_or_after i parts j used low (λ past. all j past (omega arith))
later-Numbered left i parts (some n) used (k, e, low, high, unused, all) = (
  k,
  e,
  omega arith,
  omega arith,
  unused,
  λ j low' below. at_or_after i parts j used low' (λ past. all j past below),
)

next_from-suc :
    (left i : ℕ) (parts : List Partition) (found : Option Partition)
    → get_partition (pos i) parts ≡ found
    → next_from (suc left) i parts ≡ (elim found as (λ x. Option ℤ) [
      | none ↦ some (pos i)
      | some part ↦ next_from left (i + 1) parts
    ])
unfolding next_from
next_from-suc left i parts found e =
    ap
      (λ (o : Option Partition). elim o as (λ x. Option ℤ) [
        | none ↦ some (pos i)
        | some part ↦ next_from left (i + 1) parts
      ])
      e

next_from_lem :
    (left i : ℕ) (parts : List Partition) → Numbered left i parts (next_from left i parts)
unfolding next_from
next_from_lem zero i parts = λ j low high. absurd (omega arith)
next_from_lem (suc left) i parts = elim (get_partition-cases (pos i) parts) [
  | inl (empty, unused) ↦
      subst (Numbered (suc left) i parts) (sym (next_from-suc left i parts none empty))
        (i, refl, omega arith, omega arith, unused, λ j low below. absurd (omega arith))
  | inr (part, found, used) ↦
      subst (Numbered (suc left) i parts) (sym (next_from-suc left i parts (some part) found))
        (later-Numbered left i parts _ used (next_from_lem left (i + 1) parts))
]

-- The partitions of the disk while the number of `part` is looked for.
abbrev pub without_number : Disk → Partition → List Partition
without_number disk part =
    partitions (write part.address (λ p. record p { num = negsuc 0 }) disk).part_list

-- `msdos_partition_enumerate` keeps a number that is not above 4. A partition without a number, or
-- with one above 4, is given the first number that no partition but free space has, from 1 to 4, or
-- from 5 to 64 if it is logical; the function fails only if all these numbers are used.
pub partition_enumerate_lem :
    (disk : Disk) (part : Partition)
    → (part.num ≢ negsuc 0 → part.num ≤ℤ pos 4 → partition_enumerate disk part ≡ some part.num)
      × ((part.num ≡ negsuc 0) ⊎ (pos 4 <ℤ part.num)
          → part.type.logical ≡ true
          → Numbered 60 5 (without_number disk part) (partition_enumerate disk part))
      × ((part.num ≡ negsuc 0) ⊎ (pos 4 <ℤ part.num)
          → part.type.logical ≡ false
          → Numbered 4 1 (without_number disk part) (partition_enumerate disk part))
unfolding partition_enumerate next_primary next_logical
partition_enumerate_lem disk part = (
  λ held low. rw (kept held low) refl,
  λ other l. rw (renumbered other, l) (next_from_lem 60 5 (without_number disk part)),
  λ other l. rw (renumbered other, l) (next_from_lem 4 1 (without_number disk part)),
)
  where
    kept :
        part.num ≢ negsuc 0
        → part.num ≤ℤ pos 4
        → (not (eqb_ℤ part.num (negsuc 0)) && leb_ℤ part.num (pos 4)) ≡ true
    kept held low = elim (Bool-cases (eqb_ℤ part.num (negsuc 0))) [
      | inl e ↦ absurd (held (eqb_ℤ→eq part.num (negsuc 0) e))
      | inr e ↦ ground arith
    ]

    renumbered :
        (part.num ≡ negsuc 0) ⊎ (pos 4 <ℤ part.num)
        → (not (eqb_ℤ part.num (negsuc 0)) && leb_ℤ part.num (pos 4)) ≡ false
    renumbered (inl e) = rw e refl
    renumbered (inr high) = ground arith
