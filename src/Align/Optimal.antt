-- ===== src/Align/Optimal.antt =====
-- `ped_alignment_align_nearest` finds the nearest solution.
use uparted.Base.{
  *ℤ-zero, Bool-cases, arith, eqb_ℤ, false, if◌then◌else◌, inl, inr, int_laws, leb_ℤ, leb_ℤ→le,
  negsuc, parts_of_eq, pos, refl, some, subst, suc, sym, zero, zero-*ℤ, ℕ, ℤ, ◌+ℤ◌, ◌-ℤ◌, ◌<ℤ◌, ◌<◌,
  ◌∙◌, ◌∣ℤ◌, ◌≡◌, ◌≢◌, ◌≤ℤ◌, ◌⊎◌,
}
use uparted.Geom
use uparted.Geom.{Geometry}
use uparted.Rounding.{round_down_to, round_up_to}
use uparted.Rounding.Laws.{dvd_gap, round_down_to_lem, round_up_to_lem}
use uparted.Align.{
  Alignment, align_down, align_nearest, align_up, closest_inside_geometry, confine, down,
  is_aligned, is_aligned_in, up,
}
use uparted.Align.Aligned.{Aligned}
use uparted.Align.Inside.{Aligned-order, grained}
use uparted.Align.Nearest.{Solves, closest_inside_found, closest_inside_sound}
use uparted.Align.Candidates.{IsNearest, IsNearest-of, abs_falling, abs_rising, closest_self}

module _ (o : ℤ) (g : ℕ) (positive : 0 < g) (s : ℤ) where
  abbrev target : Alignment
  target = grained o g positive

  up_lem :
      Aligned target (up target s)
      × (s ≤ℤ up target s)
      × ((t : ℤ) → Aligned target t → s ≤ℤ t → up target s ≤ℤ t)
  unfolding up
  up_lem =
      let grain : eqb_ℤ (pos g) (pos 0) ≡ false = ground arith in
      let ((k, e), low, high) = round_up_to_lem (s -ℤ o) g positive in
      let d : Aligned target (round_up_to (s -ℤ o) (pos g) +ℤ o) = (k, omega int_laws) in
      rw grain (d, omega int_laws, λ t p h. Aligned-order o g positive _ t d p (omega int_laws))

  down_lem :
      (s -ℤ o <ℤ pos 0 → ¬ (pos g ∣ℤ s -ℤ o))
      → Aligned target (down target s)
        × (down target s ≤ℤ s)
        × ((t : ℤ) → Aligned target t → t ≤ℤ s → t ≤ℤ down target s)
  unfolding down
  down_lem off =
      let grain : eqb_ℤ (pos g) (pos 0) ≡ false = ground arith in
      let ((k, e), low, high) = round_down_to_lem (s -ℤ o) g positive off in
      let d : Aligned target (round_down_to (s -ℤ o) (pos g) +ℤ o) = (k, omega int_laws) in
      rw grain (d, omega int_laws, λ t p h. Aligned-order o g positive t _ p d (omega int_laws))

  module _ (geom : Geometry) (start_nonneg : pos 0 ≤ℤ geom.start) where
    confined_sound :
        (r : ℤ)
        → Aligned target r
        → (confine target (some geom) r ≡ negsuc 0)
          ⊎ Solves target geom (confine target (some geom) r)
    unfolding confine
    confined_sound r d = closest_inside_sound o g positive geom r d

    confined_found :
        (r t : ℤ)
        → Aligned target r
        → Solves target geom t
        → Solves target geom (confine target (some geom) r)
          × (r ≤ℤ t → (r ≤ℤ confine target (some geom) r) × (confine target (some geom) r ≤ℤ t))
          × (t ≤ℤ r → (t ≤ℤ confine target (some geom) r) × (confine target (some geom) r ≤ℤ r))
    unfolding confine
    confined_found r t d h =
        let (found, between) = closest_inside_found o g positive geom r t d h in
        (found, between.0, between.1)

    solution-ne : (t : ℤ) → Solves target geom t → t ≢ negsuc 0
    solution-ne t (d, c) e = let p = parts_of_eq t (negsuc 0) e in omega arith

    IsNearest-grained :
        (s -ℤ o <ℤ pos 0 → ¬ (pos g ∣ℤ s -ℤ o))
        → IsNearest target geom s (align_nearest target (some geom) s)
    unfolding align_nearest align_up align_down
    IsNearest-grained off =
        let (up_d, up_low, up_least) = up_lem in
        let (down_d, down_high, down_greatest) = down_lem off in
        IsNearest-of target geom s (confine target (some geom) (up target s))
          (confine target (some geom) (down target s)) (confined_sound _ up_d)
          (confined_sound _ down_d) solution-ne
          λ t h.
            let (u_solves, u_rise, _) = confined_found (up target s) t up_d h in
            let (d_solves, _, d_fall) = confined_found (down target s) t down_d h in
            (
              u_solves,
              d_solves,
              elim (Bool-cases (leb_ℤ s t)) [
                | inl e ↦
                    let le = up_least t h.0 (leb_ℤ→le s t e) in
                    let (low, high) = u_rise le in inl (abs_rising s _ t (omega arith) high)
                | inr e ↦
                    let le = down_greatest t h.0 (ground arith) in
                    let (low, high) = d_fall le in inr (abs_falling s _ t low (omega arith))
              ],
            )

-- An alignment as `ped_alignment_init` means to leave it: the offset is a remainder.
pub record IsNormal (a : Alignment) : Type 0 where
  pub grain_nonneg : pos 0 ≤ℤ a.grain_size
  pub offset_nonneg : pos 0 ≤ℤ a.offset
  pub offset_below : pos 0 <ℤ a.grain_size → a.offset <ℤ a.grain_size

-- The alignment with the one sector `o`.
module _ (o : ℤ) (geom : Geometry) (start_nonneg : pos 0 ≤ℤ geom.start) where
  abbrev pub single : Alignment
  single = record { offset = o; grain_size = pos 0 }

  single_unique : (t : ℤ) → Aligned single t → t ≡ o
  single_unique t (k, e) = let z = e ∙ *ℤ-zero k in omega int_laws

  confined_single :
      confine single (some geom) o ≡ (if Geom.test_sector_inside geom o then o else negsuc 0)
  unfolding confine closest_inside_geometry is_aligned_in is_aligned
  confined_single = ground arith

  pub IsNearest-single : (s : ℤ) → IsNearest single geom s (align_nearest single (some geom) s)
  unfolding align_nearest align_up align_down up down
  IsNearest-single s =
      rw (closest_self s (confine single (some geom) o), confined_single)
        (elim (Bool-cases (Geom.test_sector_inside geom o)) [
          | inl e ↦ rw e (
              inr (
                (
                  (pos 0, rw zero-*ℤ (omega int_laws)),
                  (Geom.Laws.test_sector_inside_iff geom o).0 e,
                ),
                λ t h. rw (single_unique t h.0) (omega arith),
              ))
          | inr e ↦ rw e (
              inl (
                refl,
                λ t h.
                    let inside = (Geom.Laws.test_sector_inside_iff geom t).1 h.1 in
                    let same = single_unique t h.0 in let at_o = rw same at inside in cc,
              ))
        ])

IsNearest-normal :
    (o : ℤ) (g : ℕ) (geom : Geometry) (s : ℤ)
    → pos 0 ≤ℤ geom.start
    → pos 0 ≤ℤ s
    → (0 < g → o <ℤ pos g)
    → IsNearest
        (record { offset = o; grain_size = pos g })
        geom
        s
        (align_nearest (record { offset = o; grain_size = pos g }) (some geom) s)
IsNearest-normal o zero geom s h k below = IsNearest-single o geom h s
IsNearest-normal o (suc g) geom s h k below =
    let less = below (omega arith) in
    IsNearest-grained o (suc g) (omega arith) s geom h
      λ n d. let z = dvd_gap (s -ℤ o) (suc g) d (omega int_laws) in omega int_laws

-- For a sector and a geometry that are not negative and an alignment as `ped_alignment_init`
-- means to leave it, `ped_alignment_align_nearest` returns -1 exactly if the geometry holds no
-- sector that satisfies the alignment. Otherwise it returns such a sector, and none is nearer.
pub align_nearest_lem :
    (a : Alignment) (geom : Geometry) (s : ℤ)
    → IsNormal a
    → pos 0 ≤ℤ geom.start
    → pos 0 ≤ℤ s
    → IsNearest a geom s (align_nearest a (some geom) s)
align_nearest_lem a geom s v h k = on_grain a.grain_size refl
  where
    on_grain : (g : ℤ) → a.grain_size ≡ g → IsNearest a geom s (align_nearest a (some geom) s)
    on_grain (negsuc g) e = absurd (let p = parts_of_eq _ _ e in omega (arith, v.grain_nonneg))
    on_grain (pos g) e =
        let below : 0 < g → a.offset <ℤ pos g =
          λ q. subst (λ z. a.offset <ℤ z) e (v.offset_below (rw e (omega arith))) in
        subst (λ b. IsNearest b geom s (align_nearest b (some geom) s))
          (λ i. record { offset = a.offset; grain_size = sym e i })
          (IsNearest-normal a.offset g geom s h k below)
