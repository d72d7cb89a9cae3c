-- ===== src/Align/Intersect/Solve.antt =====
-- The general case of `ped_alignment_intersect`: two congruences solved at once.
use uparted.Base.{
  *ℤ_comm, *ℤ_right_comm, +ℤ-*ℤ, Bool-cases, Option, ap, ap₂, arith, done, eqb_ℤ, eqb_ℤ→eq, false,
  inl, inr, int_laws, none, pos, refl, some, subst, suc, sym, zero, ℕ, ℤ, ◌*ℤ◌, ◌*◌, ◌+ℤ◌, ◌-ℤ◌,
  ◌/ℤ◌, ◌/◌, ◌<◌, ◌^◌, ◌↔◌, ◌∙◌, ◌∣ℤ◌, ◌≡◌,
}
use uparted.Rounding.{abs_mod}
use uparted.Rounding.Laws.{dvd-sub_abs_mod}
use uparted.Euclid.{to_int}
use uparted.Euclid.Laws.{IsBezout, div-mul_cancel, dvd-add, dvd-mul, dvd-sub, dvd_trans}
use uparted.Align.{Alignment, new, solve}
use uparted.Align.Aligned.{Aligned, AlignedTo, GrainNonneg}
use uparted.Align.Intersect.Lcm.{dvd-lcm_left, dvd-lcm_right, lcm-dvd}

-- `ped_alignment_new` keeps the set of sectors.
pub new-Aligned :
    (offset : ℤ) (l : ℕ)
    → (a : Alignment) × (new offset (pos l) ≡ some a)
      × (a.grain_size ≡ pos l)
      × ((s : ℤ) → Aligned a s ↔ (pos l ∣ℤ s -ℤ offset))
unfolding new
new-Aligned offset zero =
    (record { offset = offset; grain_size = pos 0 }, refl, refl, λ s. (λ d. d, λ d. d))
new-Aligned offset (suc l) =
    (record { offset = r; grain_size = g }, ground arith, refl, λ s. (to s, from s))
  where
    g : ℤ
    g = pos (suc l)

    r : ℤ
    r = abs_mod offset g

    to : (s : ℤ) → g ∣ℤ s -ℤ r → g ∣ℤ s -ℤ offset
    to s d =
        let e : s -ℤ r -ℤ (offset -ℤ r) ≡ s -ℤ offset = omega int_laws in
        subst (◌∣ℤ◌ g) e (dvd-sub g _ _ d (dvd-sub_abs_mod offset (suc l)))

    from : (s : ℤ) → g ∣ℤ s -ℤ offset → g ∣ℤ s -ℤ r
    from s d =
        let e : s -ℤ offset +ℤ (offset -ℤ r) ≡ s -ℤ r = omega int_laws in
        subst (◌∣ℤ◌ g) e (dvd-add g _ _ d (dvd-sub_abs_mod offset (suc l)))

pub to_int_small : (n : ℕ) → n < 2 ^ 31 → to_int (pos n) ≡ pos n
unfolding to_int
to_int_small n h = ground arith

-- The general case, with what `extended_euclid` returns for the grains `m` and `n`.
module _ (ao bo x y : ℤ) (m n g : ℕ) (g_pos : 0 < g)
    (ok : IsBezout (pos m) (pos n) (record { gcd = pos g; x = x; y = y })) where
  abbrev pub one : Alignment
  one = record { offset = ao; grain_size = pos m }

  abbrev pub other : Alignment
  other = record { offset = bo; grain_size = pos n }

  abbrev pub delta : ℤ
  delta = (bo -ℤ ao) /ℤ pos g

  abbrev pub met : ℤ
  met = ao +ℤ x *ℤ delta *ℤ pos m

  both_terms : x *ℤ delta *ℤ pos m +ℤ y *ℤ delta *ℤ pos n ≡ delta *ℤ pos g
  both_terms =
      ap₂ ◌+ℤ◌ (*ℤ_right_comm x delta (pos m)) (*ℤ_right_comm y delta (pos n))
      ∙ sym (+ℤ-*ℤ _ _ delta)
      ∙ ap (λ k. k *ℤ delta) (sym ok.identity)
      ∙ *ℤ_comm (pos g) delta

  -- The test of the code: both ways to reach the new offset agree if and only if the division of
  -- the distance by the divisor leaves no remainder.
  meets_iff : (met ≡ bo -ℤ y *ℤ delta *ℤ pos n) ↔ (delta *ℤ pos g ≡ bo -ℤ ao)
  meets_iff = let e = both_terms in (λ h. omega int_laws, λ h. omega int_laws)

  -- A common sector leaves no remainder.
  common→meets : (s : ℤ) → Aligned one s → Aligned other s → delta *ℤ pos g ≡ bo -ℤ ao
  common→meets s p q =
      let e : s -ℤ ao -ℤ (s -ℤ bo) ≡ bo -ℤ ao = omega int_laws in
      div-mul_cancel (bo -ℤ ao) g (
        subst (◌∣ℤ◌ (pos g)) e
          (dvd-sub _ _ _ (dvd_trans _ _ _ ok.greatest.0 p) (dvd_trans _ _ _ ok.greatest.1 q)))

  abbrev pub l : ℕ
  l = m * n / g

  lcm : pos l *ℤ pos g ≡ pos m *ℤ pos n
  unfolding ◌*ℤ◌ ◌/ℤ◌
  lcm = div-mul_cancel (pos (m * n)) g (dvd-mul (pos g) (pos m) (pos n) ok.greatest.1)

  -- With the test passed, the new alignment holds the common sectors.
  Aligned-met :
      met ≡ bo -ℤ y *ℤ delta *ℤ pos n
      → (s : ℤ) → (pos l ∣ℤ s -ℤ met) ↔ (Aligned one s × Aligned other s)
  Aligned-met e s = (
    λ d. (
      subst (◌∣ℤ◌ (pos m)) (omega int_laws)
          (dvd-add _ _ _ (dvd_trans _ _ _ left d) (x *ℤ delta, refl)),
      subst (◌∣ℤ◌ (pos n)) (omega int_laws)
          (dvd-sub _ _ _ (dvd_trans _ _ _ right d) (y *ℤ delta, refl)),
    ),
    λ (p, q).
        lcm-dvd (pos m) (pos n) (pos l) x y g g_pos ok.greatest.0 ok.greatest.1 lcm ok.identity
          (s -ℤ met) (subst (◌∣ℤ◌ (pos m)) (omega int_laws) (dvd-sub _ _ _ p (x *ℤ delta, refl)))
          (subst (◌∣ℤ◌ (pos n)) (omega int_laws) (dvd-add _ _ _ q (y *ℤ delta, refl))),
  )
    where
      left : pos m ∣ℤ pos l
      left =
          dvd-lcm_left (pos m) (pos n) (pos l) x y g g_pos ok.greatest.0 ok.greatest.1 lcm
            ok.identity

      right : pos n ∣ℤ pos l
      right =
          dvd-lcm_right (pos m) (pos n) (pos l) x y g g_pos ok.greatest.0 ok.greatest.1 lcm
            ok.identity

  grain_eq : pos m *ℤ pos n /ℤ pos g ≡ pos l
  unfolding ◌*ℤ◌ ◌/ℤ◌
  grain_eq = refl

  pub solve_lem :
      (r : Option Alignment) × (solve one other (record { gcd = pos g; x = x; y = y }) ≡ done r)
      × GrainNonneg r
      × ((s : ℤ) → AlignedTo r s ↔ (Aligned one s × Aligned other s))
  unfolding solve
  solve_lem = elim (Bool-cases (eqb_ℤ met (bo -ℤ y *ℤ delta *ℤ pos n))) [
    | inl e ↦
        let (r, made, grain, keeps) = new-Aligned met l in
        let sound = Aligned-met (eqb_ℤ→eq _ _ e) in
        (
          some r,
          rw (e, grain_eq, made) (ground arith),
          rw grain (omega arith),
          λ s. (λ d. (sound s).0 ((keeps s).0 d), λ d. (keeps s).1 ((sound s).1 d)),
        )
    | inr e ↦ (none, rw e (ground arith), tt, λ s. (λ d. absurd d, λ (p, q). differ e s p q))
  ]
    where
      differ :
          eqb_ℤ met (bo -ℤ y *ℤ delta *ℤ pos n) ≡ false
          → (s : ℤ) → Aligned one s
          → Aligned other s
          → ⊥
      differ e s p q = let same = meets_iff.1 (common→meets s p q) in ground arith
