-- ===== src/Align/Sound.antt =====
-- What `ped_alignment_align_nearest` returns is a solution, for any alignment with a grain that is
-- not negative.
use uparted.Base.{
  arith, eqb_ℤ, false, inl, inr, int_laws, negsuc, parts_of_eq, pos, refl, some, subst, suc, sym,
  zero, ℕ, ℤ, ◌-ℤ◌, ◌<◌, ◌≡◌, ◌≤ℤ◌, ◌⊎◌,
}
use uparted.Geom.{Geometry}
use uparted.Rounding.{round_down_to}
use uparted.Rounding.Laws.{dvd-sub_abs_mod, round_up_to_lem}
use uparted.Align.{Alignment, align_down, align_nearest, align_up, confine, down, up}
use uparted.Align.Aligned.{Aligned}
use uparted.Align.Inside.{grained}
use uparted.Align.Candidates.{IsNearest, closest_cases}
use uparted.Align.Nearest.{Solves, closest_inside_sound}
use uparted.Align.Optimal.{IsNearest-single}

module _ (o : ℤ) (g : ℕ) (positive : 0 < g) (geom : Geometry) (s : ℤ) where
  abbrev target : Alignment
  target = grained o g positive

  grain : eqb_ℤ (pos g) (pos 0) ≡ false
  grain = ground arith

  Aligned-up : Aligned target (up target s)
  unfolding up
  Aligned-up =
      let ((k, e), _, _) = round_up_to_lem (s -ℤ o) g positive in rw grain (k, omega int_laws)

  Aligned-down : Aligned target (down target s)
  unfolding down round_down_to
  Aligned-down = let (k, e) = dvd-sub_abs_mod (s -ℤ o) g in rw grain (k, omega int_laws)

  confined :
      (r : ℤ)
      → Aligned target r
      → (confine target (some geom) r ≡ negsuc 0)
        ⊎ Solves target geom (confine target (some geom) r)
  unfolding confine
  confined r d = closest_inside_sound o g positive geom r d

  nearest_sound :
      (align_nearest target (some geom) s ≡ negsuc 0)
      ⊎ Solves target geom (align_nearest target (some geom) s)
  unfolding align_nearest align_up align_down
  nearest_sound =
      elim (closest_cases s (confine target (some geom) (up target s))
        (confine target (some geom) (down target s))).0 [
          | inl e ↦ rw e (confined _ Aligned-up)
          | inr e ↦ rw e (confined _ Aligned-down)
        ]

IsNearest-sound :
    (a : Alignment) (geom : Geometry) (s r : ℤ)
    → IsNearest a geom s r
    → (r ≡ negsuc 0) ⊎ Solves a geom r
IsNearest-sound a geom s r (inl h) = inl h.0
IsNearest-sound a geom s r (inr h) = inr h.0

-- `ped_alignment_align_nearest` returns -1, or a sector of the geometry that satisfies the
-- alignment.
pub align_nearest_sound :
    (a : Alignment) (geom : Geometry) (s : ℤ)
    → pos 0 ≤ℤ a.grain_size
    → pos 0 ≤ℤ geom.start
    → (align_nearest a (some geom) s ≡ negsuc 0) ⊎ Solves a geom (align_nearest a (some geom) s)
align_nearest_sound a geom s h k = on_grain a.grain_size refl
  where
    known :
        (g : ℕ)
        → (align_nearest (record { offset = a.offset; grain_size = pos g }) (some geom) s
            ≡ negsuc 0)
          ⊎ Solves
              (record { offset = a.offset; grain_size = pos g })
              geom
              (align_nearest (record { offset = a.offset; grain_size = pos g }) (some geom) s)
    known zero = IsNearest-sound _ geom s _ (IsNearest-single a.offset geom k s)
    known (suc g) = nearest_sound a.offset (suc g) (omega arith) geom s

    on_grain :
        (g : ℤ)
        → a.grain_size ≡ g
        → (align_nearest a (some geom) s ≡ negsuc 0) ⊎ Solves a geom (align_nearest a (some geom) s)
    on_grain (negsuc g) e = absurd (let p = parts_of_eq _ _ e in omega arith)
    on_grain (pos g) e =
        subst
          (λ b.
            (align_nearest b (some geom) s ≡ negsuc 0)
            ⊎ Solves b geom (align_nearest b (some geom) s))
          (λ i. record { offset = a.offset; grain_size = sym e i }) (known g)
