-- ===== src/Dos/Align/Primary.antt =====
-- The alignment of a partition that is not logical.
use uparted.Base.{
  Bool-cases, Option, arith, done, if◌then◌else◌, inl, inr, int_laws, none, pos, refl, some, true,
  ◌+ℤ◌, ◌-ℤ◌, ◌<ℤ◌, ◌∙◌, ◌≡◌, ◌≤ℤ◌,
}
use uparted.Geom.{Geometry}
use uparted.Geom.Laws.{IsValid, Made-stop, init-Made}
use uparted.Align
use uparted.Align.Intersect.{IsSmall}
use uparted.Constraint
use uparted.Constraint.{Constraint}
use uparted.Constraint.Common.{IsUsable, Parts, constraint_of}
use uparted.Constraint.Made.{new-Parts}
use uparted.Disk.{Disk, Entry, is_extended}
use uparted.Dos.Chs.{ChsGeometry}
use uparted.Dos.Limits.{
  min_extended_part_geom, no_geom_constraint, no_geom_extended_constraint, no_geom_ranges,
}
use uparted.Dos.Limits.Extended.{Between}
use uparted.Dos.Align.{align_primary, align_primary_no_geom}
use uparted.Dos.Align.OnDisk.{OnDisk, primary-OnDisk, primary_start-OnDisk}
use uparted.Dos.Align.Search.{Assigns, IsBios, accept_solution-Found, best_solution_lem, try_in}
use uparted.Label.{accept_solution}
use uparted.Label.Internal.{Internal, Internal-map, new_from_max-Internal}

module _ (disk : Disk) (part : Entry) (a : Parts) (ok : IsUsable a) (sd : a.sr.dev ≡ disk.dev)
    (ed : a.er.dev ≡ disk.dev) where
  abbrev geom : Geometry
  geom = part.part.geom

  pub align_primary_lem :
      (bios : ChsGeometry)
      → IsBios bios
      → Assigns geom
          (constraint_of a)
          (OnDisk disk.dev)
          (align_primary disk part bios (some (constraint_of a)))
  unfolding align_primary
  align_primary_lem bios b =
      let (first, run, f) =
        try_in geom a disk.dev (OnDisk disk.dev) _ ok sd ed
          (primary_start-OnDisk disk.dev geom bios min b) in
      let (second, run', s) =
        try_in geom a disk.dev (OnDisk disk.dev) _ ok sd ed (primary-OnDisk disk.dev bios min b) in
      let (best, chosen', h) =
        best_solution_lem geom (constraint_of a) (OnDisk disk.dev) bios first second b f s in
      let (aligned, on_disk) =
        accept_solution-Found geom (constraint_of a) (OnDisk disk.dev) best h in
      (accept_solution geom best, rw (run, run', chosen') refl, aligned, on_disk)
    where
      min : Option Geometry
      min =
          if is_extended part.part
          then min_extended_part_geom disk part (pos bios.sectors)
          else none

  no_geom_lem :
      pos 2 ≤ℤ disk.dev.length
      → (c : Constraint) × (no_geom_constraint disk.dev (pos 1) (disk.dev.length -ℤ pos 1) ≡ done c)
        × Internal disk.dev (OnDisk disk.dev) (some c)
  unfolding no_geom_constraint
  no_geom_lem h =
      let last = disk.dev.length -ℤ pos 1 in
      let (max, made, m) = init-Made disk.dev (pos 1) (last -ℤ pos 1 +ℤ pos 1) (omega int_laws) in
      let start = m.start_eq in
      let stop = Made-stop disk.dev (pos 1) last m in
      (
        Constraint.new_from_max max,
        rw made refl,
        Internal-map disk.dev _ (OnDisk disk.dev) (some (Constraint.new_from_max max))
            (λ g (lo, up). (omega int_laws, omega int_laws))
            (new_from_max-Internal disk.dev max m.valid m.dev_eq),
      )

  -- The two ranges of the constraint for an extended partition.
  ranges_lem :
      (min : Option Geometry)
      → pos 2 ≤ℤ disk.dev.length
      → ((m : Geometry) → min ≡ some m → Between disk.dev.length m)
      → (r : Geometry × Geometry) × (no_geom_ranges disk.dev min ≡ done r)
        × IsValid r.0
        × (r.0.dev ≡ disk.dev)
        × (pos 1 ≤ℤ r.0.start)
        × IsValid r.1
        × (r.1.dev ≡ disk.dev)
        × (r.1.stop <ℤ disk.dev.length)
  unfolding no_geom_ranges
  ranges_lem none h between =
      let (s, s_made, m) = init-Made disk.dev (pos 1) (disk.dev.length -ℤ pos 1) (omega int_laws) in
      let start = m.start_eq in
      let length = m.length_eq in
      let last = m.valid.last in
      ((s, s), rw s_made refl, m.valid, m.dev_eq, omega int_laws, m.valid, m.dev_eq, omega int_laws)
  ranges_lem (some min) h between =
      let (lo, up) = between min refl in
      let (s, s_made, m) = init-Made disk.dev (pos 1) min.start lo in
      let (e, e_made, n) =
        init-Made disk.dev min.stop (disk.dev.length -ℤ min.stop) (omega int_laws) in
      let start = m.start_eq in
      let e_start = n.start_eq in
      let length = n.length_eq in
      let last = n.valid.last in
      (
        (s, e),
        rw (s_made, e_made) refl,
        m.valid,
        m.dev_eq,
        omega int_laws,
        n.valid,
        n.dev_eq,
        omega int_laws,
      )

  no_geom_extended_lem :
      pos 2 ≤ℤ disk.dev.length
      → ((m : Geometry)
          → min_extended_part_geom disk part (pos 1) ≡ some m
          → Between disk.dev.length m)
      → (c : Constraint) × (no_geom_extended_constraint disk part ≡ done c)
        × Internal disk.dev (OnDisk disk.dev) (some c)
  unfolding no_geom_extended_constraint
  no_geom_extended_lem h between =
      let (r, run, sv, sdev, lo, ev, edev, up) = ranges_lem _ h between in
      let any_small : IsSmall Align.any = record { nonneg = omega arith; fits = omega arith } in
      let (p, same, psd, ped, asks) =
        new-Parts Align.any Align.any r.0 r.1 (pos 1) disk.dev.length any_small any_small sv ev in
      (
        _,
        rw run refl,
        (
          p,
          same,
          psd ∙ sdev,
          ped ∙ edev,
          λ g v s. let ((_, c), (_, d), _, _) = asks g s in (omega arith, omega arith),
        ),
      )

  pub align_primary_no_geom_lem :
      pos 2 ≤ℤ disk.dev.length
      → ((m : Geometry)
          → is_extended part.part ≡ true
          → min_extended_part_geom disk part (pos 1) ≡ some m
          → Between disk.dev.length m)
      → Assigns geom
          (constraint_of a)
          (OnDisk disk.dev)
          (align_primary_no_geom disk part (some (constraint_of a)))
  unfolding align_primary_no_geom
  align_primary_no_geom_lem h between = elim (Bool-cases (is_extended part.part)) [
    | inl e ↦
        let (c, made, asks) = no_geom_extended_lem h (λ m. between m e) in
        let (o, run, f) = try_in geom a disk.dev (OnDisk disk.dev) (some c) ok sd ed asks in
        let (aligned, on_disk) =
          accept_solution-Found geom (constraint_of a) (OnDisk disk.dev) o f in
        (accept_solution geom o, rw (e, made, run) refl, aligned, on_disk)
    | inr e ↦
        let (c, made, asks) = no_geom_lem h in
        let (o, run, f) = try_in geom a disk.dev (OnDisk disk.dev) (some c) ok sd ed asks in
        let (aligned, on_disk) =
          accept_solution-Found geom (constraint_of a) (OnDisk disk.dev) o f in
        (accept_solution geom o, rw (e, made, run) refl, aligned, on_disk)
  ]
