-- ===== src/Align/Candidates.antt =====
-- The choice between the two candidates of `ped_alignment_align_nearest`.
use uparted.Base.{
  Bool-cases, abs_ℤ, arith, eqb_ℤ, eqb_ℤ→eq, false, inl, inr, int_laws, ltb_ℤ, ltb_ℤ→le, ltb_ℤ→lt,
  nat_abs, nat_abs_parts, negsuc, one_sided, refl, subst, sym, ℤ, ◌-ℤ◌, ◌∙◌, ◌≡◌, ◌≢◌, ◌≤ℤ◌, ◌≤◌,
  ◌⊎◌,
}
use uparted.Geom.{Geometry}
use uparted.Align.{Alignment, closest}
use uparted.Align.Nearest.{Solves}

-- `r` is -1 and there is no solution, or `r` is a solution and none is nearer to `s`.
abbrev pub IsNearest : Alignment → Geometry → ℤ → ℤ → Type 0
IsNearest a geom s r =
    ((r ≡ negsuc 0) × ((t : ℤ) → ¬ Solves a geom t))
    ⊎ (Solves a geom r × ((t : ℤ) → Solves a geom t → nat_abs (s -ℤ r) ≤ nat_abs (s -ℤ t)))

pub abs_rising : (s r t : ℤ) → s ≤ℤ r → r ≤ℤ t → nat_abs (s -ℤ r) ≤ nat_abs (s -ℤ t)
abs_rising s r t p q = omega (int_laws, nat_abs_parts, one_sided (s -ℤ r), one_sided (s -ℤ t))

pub abs_falling : (s r t : ℤ) → t ≤ℤ r → r ≤ℤ s → nat_abs (s -ℤ r) ≤ nat_abs (s -ℤ t)
abs_falling s r t p q = omega (int_laws, nat_abs_parts, one_sided (s -ℤ r), one_sided (s -ℤ t))

pub closest_cases :
    (s a b : ℤ)
    → ((closest s a b ≡ a) ⊎ (closest s a b ≡ b))
      × (a ≢ negsuc 0
          → b ≢ negsuc 0
          → (closest s a b ≢ negsuc 0)
            × (nat_abs (s -ℤ closest s a b) ≤ nat_abs (s -ℤ a))
            × (nat_abs (s -ℤ closest s a b) ≤ nat_abs (s -ℤ b)))
unfolding closest
closest_cases s a b = elim (Bool-cases (eqb_ℤ a (negsuc 0))) [
  | inl e ↦ let gone = eqb_ℤ→eq a (negsuc 0) e in rw e (inr refl, λ p q. absurd (p gone))
  | inr e ↦ rw e (elim (Bool-cases (eqb_ℤ b (negsuc 0))) [
    | inl f ↦ let gone = eqb_ℤ→eq b (negsuc 0) f in rw f (inl refl, λ p q. absurd (q gone))
    | inr f ↦ rw f (elim (Bool-cases (ltb_ℤ (abs_ℤ (s -ℤ a)) (abs_ℤ (s -ℤ b)))) [
      | inl l ↦
          let lt = ltb_ℤ→lt (abs_ℤ (s -ℤ a)) (abs_ℤ (s -ℤ b)) l in
          rw l (inl refl, λ p q. (p, omega arith, omega arith))
      | inr l ↦
          let le = ltb_ℤ→le (abs_ℤ (s -ℤ a)) (abs_ℤ (s -ℤ b)) l in
          rw l (inr refl, λ p q. (q, omega arith, omega arith))
    ])
  ])
]

-- Two candidates that are solutions wherever there is one, the first nearest from above and the
-- second from below.
pub IsNearest-of :
    (a : Alignment) (geom : Geometry) (s u d : ℤ)
    → (u ≡ negsuc 0) ⊎ Solves a geom u
    → (d ≡ negsuc 0) ⊎ Solves a geom d
    → ((t : ℤ) → Solves a geom t → t ≢ negsuc 0)
    → ((t : ℤ)
        → Solves a geom t
        → Solves a geom u
          × Solves a geom d
          × ((nat_abs (s -ℤ u) ≤ nat_abs (s -ℤ t)) ⊎ (nat_abs (s -ℤ d) ≤ nat_abs (s -ℤ t))))
    → IsNearest a geom s (closest s u d)
IsNearest-of a geom s u d su sd ne found = elim (Bool-cases (eqb_ℤ (closest s u d) (negsuc 0))) [
  | inl e ↦ inl (
    eqb_ℤ→eq _ _ e,
    λ t h.
        let (hu, hd, _) = found t h in
        ((closest_cases s u d).1 (ne u hu) (ne d hd)).0 (eqb_ℤ→eq (closest s u d) (negsuc 0) e),
  )
  | inr e ↦ inr (
    one_solves e,
    λ t h.
        let (hu, hd, near) = found t h in
        let (_, to_u, to_d) = (closest_cases s u d).1 (ne u hu) (ne d hd) in omega arith,
  )
]
  where
    kept :
        eqb_ℤ (closest s u d) (negsuc 0) ≡ false
        → (c : ℤ) → closest s u d ≡ c
        → (c ≡ negsuc 0) ⊎ Solves a geom c
        → Solves a geom (closest s u d)
    kept e c same (inl gone) = absurd (let z = same ∙ gone in ground arith)
    kept e c same (inr h) = subst (Solves a geom) (sym same) h

    one_solves : eqb_ℤ (closest s u d) (negsuc 0) ≡ false → Solves a geom (closest s u d)
    one_solves e = elim (closest_cases s u d).0 [
      | inl same ↦ kept e u same su
      | inr same ↦ kept e d same sd
    ]

pub closest_self : (s a : ℤ) → closest s a a ≡ a
closest_self s a = elim (closest_cases s a a).0 [ inl e ↦ e | inr e ↦ e ]
