-- ===== src/Label/Types/Solves.antt =====
-- `partition_align` of the labels: what it assigns, in exact arithmetic.
use uparted.Base.{
  Bool, Option, arith, done, false, int_laws, none, pos, refl, some, suc, true, zero, ℕ, ◌*◌, ◌+ℤ◌,
  ◌-ℤ◌, ◌/◌, ◌<◌, ◌==◌, ◌>>=◌, ◌^◌, ◌≡◌, ◌≢◌, ◌≤ℤ◌,
}
use uparted.Geom
use uparted.Geom.{Geometry}
use uparted.Geom.Laws.{init-Made}
use uparted.Constraint
use uparted.Constraint.{Constraint, is_solution, solve_nearest}
use uparted.Constraint.Common.{IsUsable, Parts, constraint_of}
use uparted.Constraint.Solve.{solve_nearest_lem}
use uparted.Constraint.Window.{IsProper}
use uparted.Dos.Chs.{ChsGeometry}
use uparted.Label.{accept_solution, attempt_align}
use uparted.Label.Attempt.{IsAligned, Solved, accept_solution_lem, solve_nearest-IsValid}
use uparted.Label.Types.{
  Label, amiga, amiga_constraint, bsd, bsd_constraint, cylinder_size, dasd, dasd_constraint,
  dasd_partition_align, dvh, dvh_extended_constraint, dvh_primary_constraint, gpt, loop,
  loop_partition_align, mac, mac_constraint, max_rdb_block, non_metadata_constraint,
  partition_align, pc98, pc98_constraint, sun,
}
use uparted.Label.Internal.{Internal, Internal-map, MadeOr, init-MadeOr, new_from_max-Internal}
use uparted.Label.Types.Internal.{from_first_sector}
use uparted.Label.Types.Area.{FitsInt, Gives, InArea, IsReady, attempt_in, cylinders}
use uparted.Label.Types.Sun.{sun_lem}

loop_lem :
    (geom : Geometry) (a : Parts)
    → IsUsable a
    → Gives geom
        (constraint_of a)
        (λ g. Unit {0})
        (loop_partition_align geom (some (constraint_of a)))
unfolding loop_partition_align
loop_lem geom a ok =
    let (o, run, solves) = solve_nearest_lem proper geom in
    (
      accept_solution geom o,
      rw run refl,
      accept_solution_lem geom (constraint_of a) o (solved o run solves),
      λ e. tt,
    )
  where
    proper : IsProper (constraint_of a) a.sa a.ea a.sr a.er
    proper = record {
      start_align = refl;
      end_align = refl;
      start_range = refl;
      end_range = refl;
      start_grain = a.sa_small.nonneg;
      end_grain = a.ea_small.nonneg;
      start_first = ok.start_first;
      end_first = ok.end_first;
      smallest = ok.smallest;
    }

    solved :
        (o : Option Geometry)
        → solve_nearest (some (constraint_of a)) geom ≡ done o
        → ((g : Geometry) → o ≡ some g → is_solution (constraint_of a) g ≡ done true)
        → Solved geom (constraint_of a) o
    solved none run solves = tt
    solved (some g) run solves =
        let (v, d) = solve_nearest-IsValid (some (constraint_of a)) geom g run in
        record { valid = v; dev_eq = d; solves = solves g refl }

module _ (geom : Geometry) (a : Parts) (dev : Geom.Device) (ok : IsUsable a) (sd : a.sr.dev ≡ dev)
    (ed : a.er.dev ≡ dev) where
  mac_lem :
      (hw : ChsGeometry) (extended : Bool)
      → Gives geom
          (constraint_of a)
          (InArea mac hw hw dev extended)
          (attempt_align geom (some (constraint_of a)) (mac_constraint dev))
  unfolding mac_constraint
  mac_lem hw extended = attempt_in geom a dev ok sd ed _ _ (
      cylinders geom a dev ok sd ed _ 1 (pos 1) (dev.length -ℤ pos 1) dev.length (omega arith)
        λ g ds de lo up. (lo, omega int_laws))

  dasd_lem :
      (hw : ChsGeometry) (real_size size format : ℕ) (extended : Bool)
      → (0 < size) × (hw.sectors * (real_size / size) < 2 ^ 31) × (format ≢ 1)
      → Gives geom
          (constraint_of a)
          (InArea (dasd real_size size format) hw hw dev extended)
          (dasd_partition_align hw real_size size format dev geom (some (constraint_of a)))
  unfolding dasd_partition_align dasd_constraint
  dasd_lem hw real_size zero format extended (h, k, f) = absurd (omega arith)
  dasd_lem hw real_size (suc n) format extended (h, k, f) =
      let first = pos (2 * hw.sectors * real_size / suc n) in
      let other : (format == 1) ≡ false = ground arith in
      rw other (
        attempt_in geom a dev ok sd ed _ _ (
          cylinders geom a dev ok sd ed _ (hw.sectors * (real_size / suc n)) first dev.length
            dev.length k λ g ds de lo up. (ds, de, lo, omega int_laws)))

  pc98_lem :
      (hw : ChsGeometry) (extended : Bool)
      → FitsInt hw
      → Gives geom
          (constraint_of a)
          (InArea pc98 hw hw dev extended)
          (attempt_align geom (some (constraint_of a)) (pc98_constraint hw dev))
  unfolding pc98_constraint cylinder_size
  pc98_lem hw extended h =
      let n = hw.sectors * hw.heads in
      attempt_in geom a dev ok sd ed _ _ (
        cylinders geom a dev ok sd ed _ n (pos n) (dev.length -ℤ pos n) dev.length h
          λ g ds de lo up. (ds, de, lo, omega int_laws))

  amiga_lem :
      (hw : ChsGeometry) (extended : Bool)
      → FitsInt hw
      → Gives geom
          (constraint_of a)
          (InArea amiga hw hw dev extended)
          (attempt_align geom (some (constraint_of a)) (amiga_constraint hw dev))
  unfolding amiga_constraint cylinder_size
  amiga_lem hw extended h =
      let n = hw.sectors * hw.heads in
      let first = max_rdb_block +ℤ pos 1 in
      attempt_in geom a dev ok sd ed _ _ (
        cylinders geom a dev ok sd ed _ n first (dev.length -ℤ max_rdb_block -ℤ pos 1) dev.length h
          λ g ds de lo up. (ds, de, omega int_laws, omega int_laws))

  bsd_lem :
      (hw : ChsGeometry) (extended : Bool)
      → pos 2 ≤ℤ dev.length
      → Gives geom
          (constraint_of a)
          (InArea bsd hw hw dev extended)
          (bsd_constraint dev >>= λ c. attempt_align geom (some (constraint_of a)) (some c))
  unfolding bsd_constraint
  bsd_lem hw extended h =
      let (max, made, m) = init-Made dev (pos 1) (dev.length -ℤ pos 1) (omega int_laws) in
      let (r, run, mine, area) =
        attempt_in geom a dev ok sd ed _ (some (Constraint.new_from_max max))
          (new_from_max-Internal dev max m.valid m.dev_eq) in
      let s = m.start_eq in
      let l = m.length_eq in
      let b = m.valid.last in
      (r, rw made run, mine, λ e. let (lo, up) = area e in (omega int_laws, omega int_laws))

  primary-Internal :
      (hw : ChsGeometry) → Internal dev (InArea dvh hw hw dev false) (dvh_primary_constraint dev)
  unfolding dvh_primary_constraint
  primary-Internal hw = on_range (Geom.init dev (pos 1) (dev.length -ℤ pos 1)) (init-MadeOr dev _ _)
    where
      on_range :
          (o : Option Geometry)
          → MadeOr dev (pos 1) (dev.length -ℤ pos 1) o
          → Internal dev
              (InArea dvh hw hw dev false)
              (elim o [ none ↦ none | some max ↦ some (Constraint.new_from_max max) ])
      on_range none m = tt
      on_range (some max) m =
          let s = m.start_eq in
          let l = m.length_eq in
          let b = m.valid.last in
          Internal-map dev _ (InArea dvh hw hw dev false) (some (Constraint.new_from_max max))
            (λ g (lo, up). (omega int_laws, omega int_laws))
            (new_from_max-Internal dev max m.valid m.dev_eq)

  dvh_lem :
      (hw : ChsGeometry)
      → Gives geom
          (constraint_of a)
          (InArea dvh hw hw dev false)
          (attempt_align geom (some (constraint_of a)) (dvh_primary_constraint dev))
  dvh_lem hw =
      attempt_in geom a dev ok sd ed (InArea dvh hw hw dev false) (dvh_primary_constraint dev)
        (primary-Internal hw)

  dvh_extended_lem :
      (hw : ChsGeometry)
      → pos 1 ≤ℤ dev.length
      → Gives geom
          (constraint_of a)
          (InArea dvh hw hw dev true)
          (dvh_extended_constraint dev >>= λ c. attempt_align geom (some (constraint_of a)) c)
  unfolding dvh_extended_constraint
  dvh_extended_lem hw h =
      let (min, made, m) = init-Made dev (pos 0) (pos 1) (omega arith) in
      let (c, run, asks) = from_first_sector dev min h m in
      rw (dvh_extended_constraint, made, run) (attempt_in geom a dev ok sd ed _ (some c) asks)

-- `partition_align` in exact arithmetic.
pub partition_align_solves :
    (label : Label) (hw bios : ChsGeometry) (dev : Geom.Device) (extended : Bool) (geom : Geometry)
    (a : Parts)
    → IsUsable a
    → a.sr.dev ≡ dev
    → a.er.dev ≡ dev
    → FitsInt hw
    → FitsInt bios
    → IsReady label hw dev extended
    → (r : Bool × Geometry) × (partition_align label hw bios dev extended geom
          (some (constraint_of a))
        ≡ done r)
      × IsAligned geom (constraint_of a) r
      × (r.0 ≡ true → InArea label hw bios dev extended r.1)
unfolding partition_align non_metadata_constraint
partition_align_solves (gpt area) hw bios dev extended geom a ok sd ed fh fb (v, d) =
    attempt_in geom a dev ok sd ed _ _ (new_from_max-Internal dev area v d)
partition_align_solves (sun length) hw bios dev extended geom a ok sd ed fh fb ready =
    sun_lem bios length geom a dev ok sd ed fb
partition_align_solves (dasd real_size size format) hw bios dev extended geom a ok sd ed fh fb
      ready =
    dasd_lem geom a dev ok sd ed hw real_size size format extended ready
partition_align_solves mac hw bios dev extended geom a ok sd ed fh fb ready =
    mac_lem geom a dev ok sd ed hw extended
partition_align_solves bsd hw bios dev extended geom a ok sd ed fh fb ready =
    bsd_lem geom a dev ok sd ed hw extended ready
partition_align_solves pc98 hw bios dev extended geom a ok sd ed fh fb ready =
    pc98_lem geom a dev ok sd ed hw extended fh
partition_align_solves amiga hw bios dev extended geom a ok sd ed fh fb ready =
    amiga_lem geom a dev ok sd ed hw extended fh
partition_align_solves dvh hw bios dev true geom a ok sd ed fh fb ready =
    dvh_extended_lem geom a dev ok sd ed hw ready
partition_align_solves dvh hw bios dev false geom a ok sd ed fh fb ready =
    dvh_lem geom a dev ok sd ed hw
partition_align_solves loop hw bios dev extended geom a ok sd ed fh fb ready = loop_lem geom a ok
