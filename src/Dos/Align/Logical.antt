-- ===== src/Dos/Align/Logical.antt =====
-- The alignment of a logical partition.
use uparted.Base.{
  Option, ap, done, eqb_ℤ, false, if◌then◌else◌, leb_ℤ, min_ℤ, none, pos, pos_part, refl, some,
  subst, suc, sym, trap, true, zero, ℕ, ℤ, ◌*ℤ◌, ◌+ℤ◌, ◌-ℤ◌, ◌>>=◌, ◌↔◌, ◌∙◌, ◌≡◌,
}
use uparted.Geom
use uparted.Geom.{Geometry}
use uparted.Geom.Laws.{IsValid}
use uparted.Rounding.{round_down_to}
use uparted.Constraint
use uparted.Constraint.{Constraint, is_solution}
use uparted.Constraint.Common.{Both, IsUsable, Parts, constraint_of, intersect_regions}
use uparted.Constraint.Meet.{IsMeet, meet-Parts, meet_lem}
use uparted.Disk.{Disk, Entry, Partition, extended_partition}
use uparted.Disk.Sorted.{All}
use uparted.Dos.Chs.{ChsGeometry}
use uparted.Dos.Limits.Room.{InExtended, Meets, Roomy, log_meta_overlap_constraint_lem}
use uparted.Dos.Align.{align_logical, align_logical_no_geom, logical_min_start_head, try_heads}
use uparted.Dos.Align.Range.{Any, logical_constraint_lem}
use uparted.Dos.Align.Search.{
  Assigns, Finds, Found, IsBios, accept_solution-Found, best_solution_lem, size-nonzero, try_in,
}
use uparted.Label.{accept_solution}
use uparted.Label.Attempt.{done-injective}
use uparted.Label.Internal.{Internal}
use uparted.Label.Types.{cylinder_size}

-- The constraint of the caller, without the room of the other logical partitions.
abbrev Narrowed : Geom.Device → Partition → Geometry → Constraint → Option Constraint → Type 0
Narrowed dev part ext c none = Unit
Narrowed dev part ext c (some d) =
    (q : Parts) × (d ≡ constraint_of q)
    × IsUsable q
    × (q.sr.dev ≡ dev)
    × (q.er.dev ≡ dev)
    × ((g : Geometry)
        → IsValid g
        → is_solution (constraint_of q) g ≡ done true
        → (is_solution c g ≡ done true) × InExtended part ext g)

intersect-none : (c : Constraint) → Constraint.intersect (some c) none ≡ done none
unfolding Constraint.intersect
intersect-none c = refl

module _ (disk : Disk) (part : Partition) (ext : Entry) (a : Parts) (ok : IsUsable a)
    (sd : a.sr.dev ≡ disk.dev) (ed : a.er.dev ≡ disk.dev)
    (found : extended_partition disk.part_list ≡ some ext)
    (all : All (Meets ext.part.geom) ext.part_list) where
  abbrev In : Geometry → Type 0
  In g = InExtended part ext.part.geom g

  narrow_lem :
      (o : Option Constraint)
      → Roomy disk.dev part ext.part.geom o
      → (r : Option Constraint) × (Constraint.intersect (some (constraint_of a)) o ≡ done r)
        × Narrowed disk.dev part ext.part.geom (constraint_of a) r
  narrow_lem none roomy = (none, intersect-none (constraint_of a), tt)
  narrow_lem (some c) (p, same, psd, ped, fs, fe, asks) =
      let (r, run, members) = meet_lem a p in
      let (r', run', both, empty) =
        intersect_regions a p (ap (λ d. d.address) (sd ∙ sym psd))
          (ap (λ d. d.address) (ed ∙ sym ped)) in
      (
        r,
        ap (λ x. Constraint.intersect (some (constraint_of a)) (some x)) same ∙ run,
        narrowed r members λ d h. both d (done-injective (sym run' ∙ run ∙ ap done h)),
      )
    where
      narrowed :
          (r : Option Constraint)
          → ((d : Constraint) → r ≡ some d → IsMeet a p d)
          → ((d : Constraint)
              → r ≡ some d
              → (g : Geometry) → (is_solution d g ≡ done true) ↔ Both a p g)
          → Narrowed disk.dev part ext.part.geom (constraint_of a) r
      narrowed none members both = tt
      narrowed (some d) members both =
          let m = members d refl in
          let (q, same', qs, qe, usable) = meet-Parts m fs fe in
          (
            q,
            same',
            usable ok,
            ap (λ x. x.dev) qs ∙ m.sr_dev ∙ sd,
            ap (λ x. x.dev) qe ∙ m.er_dev ∙ ed,
            λ g v h.
                let (mine, own) =
                  (both d refl g).0 (subst (λ x. is_solution x g ≡ done true) (sym same') h) in
                (mine, asks g v own),
          )

  -- A solution under the narrowed constraint is one that is wanted.
  widen-Found :
      (geom : Geometry) (d : Constraint) (o : Option Geometry)
      → ((g : Geometry)
          → IsValid g
          → is_solution d g ≡ done true
          → (is_solution (constraint_of a) g ≡ done true) × In g)
      → Found geom d Any o
      → Found geom (constraint_of a) In o
  widen-Found geom d none asks h = tt
  widen-Found geom d (some g) asks (s, _) =
      let (mine, inside) = asks g s.valid s.solves in
      (record { valid = s.valid; dev_eq = s.dev_eq; solves = mine }, inside)

  try_heads_lem :
      (bios : ChsGeometry) (q : Parts) (rounds : ℕ) (head : ℤ) (o : Option Geometry)
      → IsBios bios
      → IsUsable q
      → q.sr.dev ≡ disk.dev
      → q.er.dev ≡ disk.dev
      → ((g : Geometry)
          → IsValid g
          → is_solution (constraint_of q) g ≡ done true
          → (is_solution (constraint_of a) g ≡ done true) × In g)
      → Found part.geom (constraint_of a) In o
      → Finds part.geom
          (constraint_of a)
          In
          (try_heads disk part bios ext.part.geom (some (constraint_of q)) rounds head o)
  unfolding try_heads
  try_heads_lem bios q zero head o b usable qs qe asks h = (o, refl, h)
  try_heads_lem bios q (suc rounds) head o b usable qs qe asks h =
      let is_start = leb_ℤ (logical_min_start_head part bios ext.part.geom true) head in
      let offset = round_down_to part.geom.start (cylinder_size bios) +ℤ head *ℤ pos bios.sectors in
      let (c, made, internal) = logical_constraint_lem disk bios offset is_start ext b found in
      let (t, run, f) = try_in part.geom q disk.dev Any c usable qs qe internal in
      let f' = widen-Found part.geom (constraint_of q) t asks f in
      let (best, chosen, k) = best_solution_lem part.geom (constraint_of a) In bios o t b h f' in
      let (r, later, m) = try_heads_lem bios q rounds (head +ℤ pos 1) best b usable qs qe asks k in
      (r, rw (made, run, chosen) later, m)

  pub align_logical_lem :
      (bios : ChsGeometry)
      → IsBios bios
      → Assigns part.geom
          (constraint_of a)
          In
          (align_logical disk part bios (some (constraint_of a)))
  unfolding align_logical
  align_logical_lem bios b =
      let (o, run, roomy) = log_meta_overlap_constraint_lem disk part part.geom ext found all in
      let (r, meets, narrowed) = narrow_lem o roomy in
      rw (run, found, meets) (on_narrowed r narrowed)
    where
      first : ℤ
      first = logical_min_start_head part bios ext.part.geom false

      rounds : ℕ
      rounds = pos_part (min_ℤ (pos 5) (pos bios.heads) -ℤ first)

      on_narrowed :
          (r : Option Constraint)
          → Narrowed disk.dev part ext.part.geom (constraint_of a) r
          → Assigns part.geom (constraint_of a) In (elim r [
            | none ↦ done (false, part.geom)
            | some c ↦
                if eqb_ℤ (cylinder_size bios) (pos 0)
                then trap
                else try_heads disk part bios ext.part.geom (some c) rounds first none
                  >>= λ solution. done (accept_solution part.geom solution)
          ])
      on_narrowed none narrowed =
          ((false, part.geom), refl, record { taken = λ e. cc; kept = λ e. refl }, λ e. cc)
      on_narrowed (some c) (q, same, usable, qs, qe, asks) =
          let (o, run, f) = try_heads_lem bios q rounds first none b usable qs qe asks tt in
          let (aligned, inside) = accept_solution-Found part.geom (constraint_of a) In o f in
          (accept_solution part.geom o, rw (same, size-nonzero bios b, run) refl, aligned, inside)

  pub align_logical_no_geom_lem :
      Assigns part.geom
        (constraint_of a)
        In
        (align_logical_no_geom disk part (some (constraint_of a)))
  unfolding align_logical_no_geom
  align_logical_no_geom_lem =
      let (c, made, roomy) = log_meta_overlap_constraint_lem disk part part.geom ext found all in
      let (o, run, f) = try_in part.geom a disk.dev In c ok sd ed (as_internal c roomy) in
      let (aligned, inside) = accept_solution-Found part.geom (constraint_of a) In o f in
      (accept_solution part.geom o, rw (made, run) refl, aligned, inside)
    where
      as_internal :
          (c : Option Constraint) → Roomy disk.dev part ext.part.geom c → Internal disk.dev In c
      as_internal none roomy = tt
      as_internal (some c) (p, same, psd, ped, fs, fe, asks) = (p, same, psd, ped, asks)
