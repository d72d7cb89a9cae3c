-- ===== src/Align/Nearest.antt =====
-- `ped_alignment_align_up`, `_down` and `_nearest` with a geometry.
use uparted.Base.{
  Bool-cases, arith, eqb_ℤ, false, if◌then◌else◌, inl, inr, leb_ℤ, leb_ℤ→le, negsuc, pos, refl, ℕ,
  ℤ, ◌<ℤ◌, ◌<◌, ◌≡◌, ◌≤ℤ◌, ◌⊎◌,
}
use uparted.Geom
use uparted.Geom.{Geometry}
use uparted.Geom.Laws.{Contains}
use uparted.Align.{Alignment, closest_inside_geometry, down, move_down, move_up, up}
use uparted.Align.Aligned.{Aligned}
use uparted.Align.Inside.{IsNext, IsPrevious, grained, move_down-IsPrevious, move_up-IsNext}

-- `r` lies between `s` and `t`.
abbrev pub Between : ℤ → ℤ → ℤ → Type 0
Between s t r = (s ≤ℤ t → (s ≤ℤ r) × (r ≤ℤ t)) × (t ≤ℤ s → (t ≤ℤ r) × (r ≤ℤ s))

-- `t` is a sector of the geometry that satisfies the alignment.
abbrev pub Solves : Alignment → Geometry → ℤ → Type 0
Solves a geom t = Aligned a t × Contains geom t

-- The two moves, from `s` up to `u` and down to `r`, stop between `s` and each solution.
moves-Between :
    (a : Alignment) (geom : Geometry) (s t u r : ℤ)
    → Aligned a s
    → Solves a geom t
    → IsNext a geom.start s u
    → IsPrevious a geom.stop u r
    → Contains geom r × Between s t r
moves-Between a geom s t u r d (p, q) up down = elim (Bool-cases (leb_ℤ s t)) [
  | inl e ↦
      let le = leb_ℤ→le s t e in
      let u-le-t = up.least t p q.0 le in
      let u-le-r = down.greatest u up.aligned (omega arith) (omega arith) in
      omega (arith, up.from_start, up.from_s, down.to_stop, down.to_s, u-le-t, u-le-r, le, q)
  | inr e ↦
      let lt : t <ℤ s = ground arith in
      let u-le-s = up.least s d (omega arith) (omega arith) in
      let t-le-r = down.greatest t p q.1 (omega arith) in
      omega (arith, up.from_start, up.from_s, down.to_stop, down.to_s, u-le-s, t-le-r, lt, q)
]

module _ (o : ℤ) (g : ℕ) (positive : 0 < g) (geom : Geometry) where
  abbrev moved : ℤ → ℤ
  moved s = move_down (grained o g positive) geom (move_up (grained o g positive) geom s)

  closest_inside_grained :
      (s : ℤ)
      → closest_inside_geometry (grained o g positive) geom s
        ≡ (if Geom.test_sector_inside geom (moved s) then moved s else negsuc 0)
  unfolding closest_inside_geometry
  closest_inside_grained s = let grain : eqb_ℤ (pos g) (pos 0) ≡ false = ground arith in rw grain

  -- A sector is found where there is one, no further from `s` than any other.
  pub closest_inside_found :
      (s t : ℤ)
      → Aligned (grained o g positive) s
      → Solves (grained o g positive) geom t
      → let r = closest_inside_geometry (grained o g positive) geom s in
        Solves (grained o g positive) geom r × Between s t r
  closest_inside_found s t d (p, q) =
      let up = move_up-IsNext o g positive geom s d in
      let u = move_up (grained o g positive) geom s in
      let down = move_down-IsPrevious o g positive geom u up.aligned in
      let (inside, between) =
        moves-Between (grained o g positive) geom s t u (moved s) d (p, q) up down in
      rw (closest_inside_grained s, (Geom.Laws.test_sector_inside_iff geom (moved s)).1 inside)
        ((down.aligned, inside), between)

  -- Otherwise -1 is returned, or the sector returned is one that was asked for.
  pub closest_inside_sound :
      (s : ℤ)
      → Aligned (grained o g positive) s
      → (closest_inside_geometry (grained o g positive) geom s ≡ negsuc 0)
        ⊎ Solves (grained o g positive) geom (closest_inside_geometry (grained o g positive) geom s)
  closest_inside_sound s d =
      let up = move_up-IsNext o g positive geom s d in
      let u = move_up (grained o g positive) geom s in
      let down = move_down-IsPrevious o g positive geom u up.aligned in
      rw (closest_inside_grained s) (elim (Bool-cases (Geom.test_sector_inside geom (moved s))) [
        | inl e ↦ rw e (inr (down.aligned, (Geom.Laws.test_sector_inside_iff geom (moved s)).0 e))
        | inr e ↦ rw e (inl refl)
      ])
