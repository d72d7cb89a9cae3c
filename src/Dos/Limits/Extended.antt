-- ===== src/Dos/Limits/Extended.antt =====
-- The least region of an extended partition, which `_get_min_extended_part_geom` finds.
use uparted.Base.{
  Bool, Bool-cases, List, Option-cases, [], eqb_ℤ, false, if◌then◌else◌, inl, inr, int_laws, ltb_ℤ,
  max_ℤ, max_ℤ_bounds, not, pos, refl, some, some-injective, subst, sym, true, ℤ, ◌*ℤ◌, ◌+ℤ◌, ◌-ℤ◌,
  ◌<ℤ◌, ◌||◌, ◌∷◌, ◌≡◌, ◌≤ℤ◌, ◌⊎◌,
}
use uparted.Geom
use uparted.Geom.{Geometry}
use uparted.Geom.Laws.{IsValid}
use uparted.Constraint.Meet.{duplicate-Made}
use uparted.Disk.{Disk, Entry, Partition, is_active}
use uparted.Disk.Sorted.{All}
use uparted.Disk.Walk.{get_partition, partitions}
use uparted.Dos.Limits.{kept_or, min_extended_part_geom, widen}

kept_or-set_start :
    (g : Geometry) (s : ℤ)
    → (h : Geometry) × (kept_or g (Geom.set_start g s) ≡ h)
      × ((h.start ≡ g.start) ⊎ (h.start ≡ s))
      × (h.stop ≡ g.stop)
unfolding Geom.set_start Geom.set
kept_or-set_start g s = elim (Bool-cases (ltb_ℤ (g.stop -ℤ s +ℤ pos 1) (pos 1))) [
  | inl e ↦ (g, rw e refl, inl refl, refl)
  | inr e ↦ (
    record g {
      start = s;
      length = g.stop -ℤ s +ℤ pos 1;
      stop = s +ℤ (g.stop -ℤ s +ℤ pos 1) -ℤ pos 1;
    },
    rw e refl,
    inr refl,
    omega int_laws,
  )
]

kept_or-set_end :
    (g : Geometry) (s : ℤ)
    → (h : Geometry) × (kept_or g (Geom.set_end g s) ≡ h)
      × (h.start ≡ g.start)
      × ((h.stop ≡ g.stop) ⊎ (h.stop ≡ s))
unfolding Geom.set_end Geom.set
kept_or-set_end g s = elim (Bool-cases (ltb_ℤ (s -ℤ g.start +ℤ pos 1) (pos 1))) [
  | inl e ↦ (g, rw e refl, refl, inl refl)
  | inr e ↦ (
    record g { length = s -ℤ g.start +ℤ pos 1; stop = g.start +ℤ (s -ℤ g.start +ℤ pos 1) -ℤ pos 1 },
    rw e refl,
    refl,
    inr (omega int_laws),
  )
]

-- A logical partition behind the first three sectors, which ends on the device.
pub record IsRoomy (limit : ℤ) (walk : Partition) : Type 0 where
  pub valid : IsValid walk.geom
  pub behind : pos 3 ≤ℤ walk.geom.start
  pub on_dev : walk.geom.stop <ℤ limit

abbrev pub Between : ℤ → Geometry → Type 0
Between limit g = (pos 1 ≤ℤ g.start) × (g.stop <ℤ limit)

lower-Between :
    (limit : ℤ) (g : Geometry) (s : ℤ)
    → pos 1 ≤ℤ s
    → Between limit g
    → Between limit (kept_or g (Geom.set_start g s))
lower-Between limit g s h (lo, up) =
    let (r, e, start, stop) = kept_or-set_start g s in
    subst (Between limit) (sym e) (elim start [
      | inl f ↦ (omega int_laws, omega int_laws)
      | inr f ↦ (omega int_laws, omega int_laws)
    ])

wider-Between :
    (limit : ℤ) (g : Geometry) (s : ℤ)
    → s <ℤ limit
    → Between limit g
    → Between limit (kept_or g (Geom.set_end g s))
wider-Between limit g s h (lo, up) =
    let (r, e, start, stop) = kept_or-set_end g s in
    subst (Between limit) (sym e) (elim stop [
      | inl f ↦ (omega int_laws, omega int_laws)
      | inr f ↦ (omega int_laws, omega int_laws)
    ])

if-Between :
    (limit : ℤ) (b : Bool) (g h : Geometry)
    → Between limit g
    → Between limit h
    → Between limit (if b then g else h)
if-Between limit true g h p q = p
if-Between limit false g h p q = q

widen-Between :
    (limit : ℤ) (l : List Partition) (min : Geometry)
    → Between limit min
    → All (IsRoomy limit) l
    → Between limit (widen (pos 1) min l)
unfolding widen ◌*ℤ◌
widen-Between limit [] min ok all = ok
widen-Between limit (walk ∷ rest) min ok (roomy, all) =
    let b = roomy.behind in
    let e = roomy.on_dev in
    let lower =
      if-Between limit (ltb_ℤ walk.geom.start min.start) _ _
        (lower-Between limit min (walk.geom.start -ℤ pos 2) (omega int_laws) ok) ok in
    let wider = if-Between limit _ _ _ (wider-Between limit _ walk.geom.stop e lower) lower in
    elim (Bool-cases (not (is_active walk) || eqb_ℤ walk.num (pos 5))) [
      | inl f ↦ rw f (widen-Between limit rest min ok all)
      | inr f ↦ rw f (widen-Between limit rest _ wider all)
    ]

-- Where the fifth partition and the logical ones are behind the first three sectors, the least
-- region leaves the first sector free and ends on the device.
pub min_extended_part_geom-Between :
    (disk : Disk) (part : Entry) (limit : ℤ) (m : Geometry)
    → ((walk : Partition)
        → get_partition (pos 5) (partitions disk.part_list) ≡ some walk
        → IsRoomy limit walk)
    → All (IsRoomy limit) part.part_list
    → min_extended_part_geom disk part (pos 1) ≡ some m
    → Between limit m
unfolding min_extended_part_geom max_ℤ
min_extended_part_geom-Between disk part limit m fifth all h =
    elim (Option-cases (get_partition (pos 5) (partitions disk.part_list))) [
      | inl e ↦ let gone = rw (min_extended_part_geom, e) at h in cc
      | inr (walk, e) ↦
          let roomy = fifth walk e in
          let (d, made, dm) = duplicate-Made walk.geom roomy.valid in
          let found = some-injective _ _ (rw (min_extended_part_geom, e, made) at h) in
          let b = roomy.behind in
          let l = roomy.on_dev in
          let start = dm.start_eq in
          let length = dm.length_eq in
          let last = roomy.valid.last in
          let d_last = dm.valid.last in
          let least = max_ℤ_bounds (pos 1) (pos 2) in
          subst (Between limit) found (
            widen-Between limit part.part_list _
              (lower-Between limit d (walk.geom.start -ℤ pos 2) (omega int_laws)
                (omega int_laws, omega int_laws))
              all)
    ]
