-- ===== src/Label/Types/Area.antt =====
-- What a label asks of the region of a partition, and attempts under one constraint.
use uparted.Base.{
  Bool, Option, Run, ap, done, false, int_laws, negsuc, none, pos, refl, some, subst, sym, true, ℕ,
  ℤ, ◌*◌, ◌+ℤ◌, ◌-ℤ◌, ◌/◌, ◌<ℤ◌, ◌<◌, ◌^◌, ◌∙◌, ◌∣ℤ◌, ◌≡◌, ◌≢◌, ◌≤ℤ◌,
}
use uparted.Geom
use uparted.Geom.{Geometry}
use uparted.Geom.Laws.{IsValid}
use uparted.Align
use uparted.Constraint
use uparted.Constraint.{Constraint}
use uparted.Constraint.Common.{IsUsable, Parts, constraint_of}
use uparted.Constraint.Made.{init-IsSmall}
use uparted.Dos.Chs.{ChsGeometry}
use uparted.Label.{accept_solution, attempt_align, try_constraint}
use uparted.Label.Attempt.{IsAligned, attempt_align_solves}
use uparted.Label.Types.{
  Label, amiga, bsd, cylinder_size, dasd, dvh, gpt, loop, mac, max_rdb_block, new_in, pc98, sun,
}
use uparted.Label.Internal.{Internal, Internal-map}
use uparted.Label.Types.Internal.{Asks, new_in_lem}

-- The sectors that the label leaves to partitions, and their alignment.
abbrev pub InArea : Label → ChsGeometry → ChsGeometry → Geom.Device → Bool → Geometry → Type 0
InArea (gpt area) hw bios dev extended g = (area.start ≤ℤ g.start) × (g.stop ≤ℤ area.stop)
InArea (sun length) hw bios dev extended g =
    (cylinder_size bios ∣ℤ g.start) × (pos 0 ≤ℤ g.start) × (g.stop <ℤ length)
InArea (dasd real_size size format) hw bios dev extended g =
    (pos (hw.sectors * (real_size / size)) ∣ℤ g.start)
    × (pos (hw.sectors * (real_size / size)) ∣ℤ g.stop +ℤ pos 1)
    × (pos (2 * hw.sectors * real_size / size) ≤ℤ g.start)
    × (g.stop <ℤ pos (2 * hw.sectors * real_size / size) +ℤ dev.length)
InArea mac hw bios dev extended g = (pos 1 ≤ℤ g.start) × (g.stop <ℤ dev.length)
InArea bsd hw bios dev extended g = (pos 1 ≤ℤ g.start) × (g.stop <ℤ dev.length)
InArea pc98 hw bios dev extended g =
    (cylinder_size hw ∣ℤ g.start)
    × (cylinder_size hw ∣ℤ g.stop +ℤ pos 1)
    × (cylinder_size hw ≤ℤ g.start)
    × (g.stop <ℤ dev.length)
InArea amiga hw bios dev extended g =
    (cylinder_size hw ∣ℤ g.start)
    × (cylinder_size hw ∣ℤ g.stop +ℤ pos 1)
    × (max_rdb_block <ℤ g.start)
    × (g.stop <ℤ dev.length)
InArea dvh hw bios dev true g = (g.start ≡ pos 0) × (g.stop <ℤ dev.length)
InArea dvh hw bios dev false g = (pos 1 ≤ℤ g.start) × (g.stop <ℤ dev.length)
InArea loop hw bios dev extended g = Unit

-- The variables that the label does not check are in range.
abbrev pub IsReady : Label → ChsGeometry → Geom.Device → Bool → Type 0
IsReady (gpt area) hw dev extended = IsValid area × (area.dev ≡ dev)
IsReady (sun length) hw dev extended = Unit
IsReady (dasd real_size size format) hw dev extended =
    (0 < size) × (hw.sectors * (real_size / size) < 2 ^ 31) × (format ≢ 1)
IsReady mac hw dev extended = Unit
IsReady bsd hw dev extended = pos 2 ≤ℤ dev.length
IsReady pc98 hw dev extended = Unit
IsReady amiga hw dev extended = Unit
IsReady dvh hw dev true = pos 1 ≤ℤ dev.length
IsReady dvh hw dev false = Unit
IsReady loop hw dev extended = Unit

-- The product of the heads and the sectors is an `int`.
abbrev pub FitsInt : ChsGeometry → Type 0
FitsInt geom = geom.sectors * geom.heads < 2 ^ 31

attempt-none :
    (geom : Geometry) (c : Constraint) → attempt_align geom (some c) none ≡ done (false, geom)
unfolding attempt_align accept_solution try_constraint Constraint.intersect Constraint.solve_nearest
attempt-none geom c = refl

-- The status and the geometry that an attempt leaves, and what it asks for.
abbrev pub Gives : Geometry → Constraint → (Geometry → Type 0) → Run (Bool × Geometry) → Type 0
Gives geom c P run =
    (r : Bool × Geometry) × (run ≡ done r) × IsAligned geom c r × (r.0 ≡ true → P r.1)

module _ (geom : Geometry) (a : Parts) (dev : Geom.Device) (ok : IsUsable a) (sd : a.sr.dev ≡ dev)
    (ed : a.er.dev ≡ dev) where
  abbrev given : Constraint
  given = constraint_of a

  pub attempt_in :
      (P : Geometry → Type 0) (o : Option Constraint)
      → Internal dev P o
      → Gives geom given P (attempt_align geom (some given) o)
  attempt_in P none h = (
    (false, geom),
    attempt-none geom given,
    record { taken = λ e. cc; kept = λ e. refl },
    λ e. cc,
  )
  attempt_in P (some c) (p, same, psd, ped, asks) =
      let (r, run, mine, own) =
        attempt_align_solves geom a p ok (ap (λ d. d.address) (sd ∙ sym psd))
          (ap (λ d. d.address) (ed ∙ sym ped)) in
      (
        r,
        ap (λ x. attempt_align geom (some given) (some x)) same ∙ run,
        mine,
        λ e. let s = own.taken e in asks r.1 s.valid s.solves,
      )

  pub cylinders :
      (P : Geometry → Type 0) (n : ℕ) (start length hi : ℤ)
      → n < 2 ^ 31
      → ((g : Geometry)
          → pos n ∣ℤ g.start
          → pos n ∣ℤ g.stop +ℤ pos 1
          → start ≤ℤ g.start
          → g.stop ≤ℤ start +ℤ length -ℤ pos 1
          → P g)
      → Internal dev P (
          new_in
            (Align.init (pos 0) (pos n))
            (Align.init (negsuc 0) (pos n))
            (Geom.init dev start length)
            hi)
  cylinders P n start length hi h f =
      let (sa, s_made, ss, s_keeps) = init-IsSmall (pos 0) n h in
      let (ea, e_made, es, e_keeps) = init-IsSmall (negsuc 0) n h in
      rw (s_made, e_made)
        (Internal-map dev (Asks dev sa ea start length hi) P _
          (λ g (da, db, lo, up).
            f g (subst (λ x. pos n ∣ℤ x) (omega int_laws) (s_keeps g.start da))
              (subst (λ x. pos n ∣ℤ x) (omega int_laws) (e_keeps g.stop db)) lo up)
          (new_in_lem dev sa ea start length hi ss es))
