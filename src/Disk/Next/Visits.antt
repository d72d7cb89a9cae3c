-- ===== src/Disk/Next/Visits.antt =====
-- The loops that follow `ped_disk_next_partition` visit each partition once.
use uparted.Base.{
  Bool-cases, List, Option, [], arith, false, inl, inr, none, refl, some, subst, suc, sym, true,
  zero, ℕ, ◌++◌, ◌<◌, ◌∙◌, ◌∷◌, ◌≡◌, ◌⊎◌,
}
use uparted.Disk.{Entry, Partition, is_extended}
use uparted.Disk.Sorted.{All}
use uparted.Disk.Walk.{partitions}
use uparted.Disk.Next.{
  Cursor, after_extended, at_logical, at_primary, first_of, head_logical, head_primary,
  next_or_leave, next_partition, partition_at, visit,
}

abbrev pub count : List Partition → ℕ
count [] = 0
count (walk ∷ rest) = suc (count rest)

abbrev NoExtended : List Entry → Type 0
NoExtended list = All (λ walk. is_extended walk.part ≡ false) list

-- The members of the list are primary partitions, one of them at most is an extended one, and its
-- part_list holds logical partitions.
abbrev pub IsNested : List Entry → Type 0
IsNested [] = Unit
IsNested (walk ∷ rest) =
    (walk.part.type.logical ≡ false)
    × (is_extended walk.part ≡ true
        → All (λ part. part.type.logical ≡ true) walk.part_list × NoExtended rest)
    × IsNested rest

-- With enough fuel the loop visits these partitions.
abbrev Visits : List Entry → Option Cursor → List Partition → Type 0
Visits list walk l = (fuel : ℕ) → count l < fuel → visit fuel list walk ≡ some l

Visits-none : (list : List Entry) → Visits list none []
unfolding visit
Visits-none list zero h = absurd (omega arith)
Visits-none list (suc fuel) h = refl

Visits-next :
    (list : List Entry) (walk : Cursor) (next : Option Cursor) (l : List Partition)
    → next_partition list (some walk) ≡ next
    → Visits list next l
    → Visits list (some walk) (partition_at walk ∷ l)
unfolding visit
Visits-next list walk next l e visits zero h = absurd (omega arith)
Visits-next list walk next l e visits (suc fuel) h = rw (e, visits fuel (omega arith)) refl

logical-not_extended : (part : Partition) → part.type.logical ≡ true → is_extended part ≡ false
unfolding is_extended
logical-not_extended part h = ground arith

next-logical :
    (list : List Entry) (part : Partition) (l : List Partition)
    → part.type.logical ≡ true
    → next_partition list (some (at_logical part l)) ≡ first_of l (after_extended list)
unfolding next_partition first_of head_logical next_or_leave
next-logical list part [] h = rw (logical-not_extended part h, h) refl
next-logical list part (next ∷ l) h = rw (logical-not_extended part h) refl

-- The logical partitions, and then those behind the extended one.
Visits-logical :
    (list : List Entry) (l tail : List Partition)
    → All (λ part. part.type.logical ≡ true) l
    → Visits list (after_extended list) tail
    → Visits list (first_of l (after_extended list)) (l ++ tail)
unfolding first_of
Visits-logical list [] tail h rest = rest
Visits-logical list (part ∷ l) tail (here, others) rest =
    Visits-next list (at_logical part l) (first_of l (after_extended list)) (l ++ tail)
      (next-logical list part l here) (Visits-logical list l tail others rest)

next-extended :
    (list : List Entry) (walk : Entry) (rest : List Entry)
    → is_extended walk.part ≡ true
    → next_partition list (some (at_primary walk rest))
      ≡ first_of walk.part_list (head_primary rest)
unfolding next_partition
next-extended list walk rest h = rw h refl

next-primary :
    (list : List Entry) (walk : Entry) (rest : List Entry)
    → is_extended walk.part ≡ false
    → walk.part.type.logical ≡ false
    → next_partition list (some (at_primary walk rest)) ≡ head_primary rest
unfolding next_partition head_primary next_or_leave
next-primary list walk [] h plain = rw (h, plain) refl
next-primary list walk (next ∷ rest) h plain = rw h refl

-- The clauses of the two functions, for an extended partition and for another one.
at_extended :
    (walk : Entry) (rest : List Entry)
    → is_extended walk.part ≡ true
    → (partitions (walk ∷ rest) ≡ walk.part ∷ walk.part_list ++ partitions rest)
      × (after_extended (walk ∷ rest) ≡ head_primary rest)
unfolding partitions after_extended
at_extended walk rest h = (rw h refl, rw h refl)

at_other :
    (walk : Entry) (rest : List Entry)
    → is_extended walk.part ≡ false
    → (partitions (walk ∷ rest) ≡ walk.part ∷ partitions rest)
      × (after_extended (walk ∷ rest) ≡ after_extended rest)
unfolding partitions after_extended
at_other walk rest h = (rw h refl, rw h refl)

-- The partitions from a member of the list on. Before the extended partition is passed, it is the
-- first one of the rest.
Visits-primary :
    (list suffix : List Entry)
    → IsNested suffix
    → (after_extended list ≡ after_extended suffix) ⊎ NoExtended suffix
    → Visits list (head_primary suffix) (partitions suffix)
unfolding head_primary partitions
Visits-primary list [] h ahead = Visits-none list
Visits-primary list (walk ∷ rest) (plain, inner, others) ahead =
    elim (Bool-cases (is_extended walk.part)) [
      | inl e ↦
          let (logical, no_other) = inner e in
          let (visited, after) = at_extended walk rest e in
          let here = leaves ahead e ∙ after in
          let outer = Visits-primary list rest others (inr no_other) in
          let all =
            Visits-logical list walk.part_list (partitions rest) logical
              (subst (λ o. Visits list o (partitions rest)) (sym here) outer) in
          subst (Visits list (some (at_primary walk rest))) (sym visited) (
            Visits-next list (at_primary walk rest) _ _ (next-extended list walk rest e) (
              subst
                (λ o. Visits list (first_of walk.part_list o) (walk.part_list ++ partitions rest))
                here all))
      | inr e ↦
          let (visited, after) = at_other walk rest e in
          let outer = Visits-primary list rest others (further ahead after) in
          subst (Visits list (some (at_primary walk rest))) (sym visited) (
            Visits-next list (at_primary walk rest) _ _ (next-primary list walk rest e plain) outer)
    ]
  where
    leaves :
        (after_extended list ≡ after_extended (walk ∷ rest)) ⊎ NoExtended (walk ∷ rest)
        → is_extended walk.part ≡ true
        → after_extended list ≡ after_extended (walk ∷ rest)
    leaves (inl same) e = same
    leaves (inr (none_here, _)) e = absurd (ground arith)

    further :
        (after_extended list ≡ after_extended (walk ∷ rest)) ⊎ NoExtended (walk ∷ rest)
        → after_extended (walk ∷ rest) ≡ after_extended rest
        → (after_extended list ≡ after_extended rest) ⊎ NoExtended rest
    further (inl same) after = inl (same ∙ after)
    further (inr (_, others)) after = inr others

-- On a list of primary partitions with at most one extended one, whose own list holds logical
-- partitions, the loop over `ped_disk_next_partition` ends, and visits the members of the list in
-- their order, each logical partition behind the extended one.
pub visit_lem :
    (list : List Entry) (fuel : ℕ)
    → IsNested list
    → count (partitions list) < fuel
    → visit fuel list (next_partition list none) ≡ some (partitions list)
unfolding next_partition
visit_lem list fuel h enough = Visits-primary list list h (inl refl) fuel enough
