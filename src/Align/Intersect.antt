-- ===== src/Align/Intersect.antt =====
-- `ped_alignment_intersect` against the sets of sectors that the alignments stand for.
mod Lcm
pub mod Solve
use uparted.Base.{
  *ℤ_comm, Bool-cases, Option, Run, ap, arith, done, eqb_ℤ, eqb_ℤ→eq, false, inl, inr, int_laws,
  ltb_ℤ, ltb_ℤ→le, ltb_ℤ→lt, negsuc, none, pos, pos_part, refl, some, subst, subst₂, suc, sym, zero,
  zero-*ℤ, ℕ, ℤ, ◌-ℤ◌, ◌<ℤ◌, ◌<◌, ◌^◌, ◌↔◌, ◌∙◌, ◌∣ℤ◌, ◌≡◌, ◌≤ℤ◌, ◌≤◌,
}
use uparted.Euclid.{EuclidTriple}
use uparted.Euclid.Laws.{IsBezout, extended_euclid_lem}
use uparted.Align.{Alignment, duplicate, intersect, intersect_ordered}
use uparted.Align.Aligned.{Aligned, AlignedTo, GrainNonneg}
use uparted.Align.Intersect.Solve.{new-Aligned, solve_lem, to_int_small}

-- The grain of a 32-bit `int` that is not negative.
pub record IsSmall (a : Alignment) : Type 0 where
  pub nonneg : pos 0 ≤ℤ a.grain_size
  pub fits : a.grain_size <ℤ pos (2 ^ 31)

-- The run returns an alignment, or NULL, with exactly the sectors common to `a` and `b`.
abbrev pub Meets : Alignment → Alignment → Run (Option Alignment) → Type 0
Meets a b run =
    (r : Option Alignment) × (run ≡ done r)
    × GrainNonneg r
    × ((s : ℤ) → AlignedTo r s ↔ (Aligned a s × Aligned b s))

pos-injective : (m n : ℕ) → pos m ≡ pos n → m ≡ n
pos-injective m n e = ap pos_part e

pub nonneg→pos : (z : ℤ) → pos 0 ≤ℤ z → (n : ℕ) × (z ≡ pos n)
nonneg→pos (pos n) h = (n, refl)
nonneg→pos (negsuc n) h = absurd (omega arith)

gcd_pos :
    (m n : ℕ) (t : EuclidTriple) (g : ℕ)
    → IsBezout (pos m) (pos n) t
    → t.gcd ≡ pos g
    → 0 < m
    → 0 < g
gcd_pos m n t zero ok e h =
    let (k, d) = ok.greatest.0 in
    absurd (ground (arith, pos-injective m 0 (d ∙ rw (e, *ℤ_comm k, zero-*ℤ))))
gcd_pos m n t (suc g) ok e h = omega arith

intersect_general :
    (ao bo : ℤ) (m n : ℕ)
    → 0 < m
    → m < 2 ^ 31
    → n ≤ m
    → Meets
        (record { offset = ao; grain_size = pos m })
        (record { offset = bo; grain_size = pos n })
        (intersect_ordered
          (record { offset = ao; grain_size = pos m })
          (record { offset = bo; grain_size = pos n }))
unfolding intersect_ordered
intersect_general ao bo m n h k o =
    let (t, run, ok) = extended_euclid_lem (suc n) m n (omega arith) in
    let (g, e) = nonneg→pos t.gcd ok.nonneg in
    let shape : t ≡ record { gcd = pos g; x = t.x; y = t.y } =
      λ i. record { gcd = e i; x = t.x; y = t.y } in
    let ok' = subst (IsBezout (pos m) (pos n)) shape ok in
    let (r, solved, grain, keeps) = solve_lem ao bo t.x t.y m n g (gcd_pos m n t g ok e h) ok' in
    (
      r,
      rw (to_int_small m k, to_int_small n (omega arith), run, shape) (ground arith),
      grain,
      keeps,
    )

intersect_points :
    (ao bo : ℤ)
    → Meets
        (record { offset = ao; grain_size = pos 0 })
        (record { offset = bo; grain_size = pos 0 })
        (intersect_ordered
          (record { offset = ao; grain_size = pos 0 })
          (record { offset = bo; grain_size = pos 0 }))
unfolding intersect_ordered duplicate
intersect_points ao bo = elim (Bool-cases (eqb_ℤ ao bo)) [
  | inl e ↦
      let same = eqb_ℤ→eq ao bo e in
      let (r, made, grain, keeps) = new-Aligned ao 0 in
      (
        some r,
        rw (e, made),
        rw grain (omega arith),
        λ s. (
          λ d. ((keeps s).0 d, subst (λ t. pos 0 ∣ℤ s -ℤ t) same ((keeps s).0 d)),
          λ (p, q). (keeps s).1 p,
        ),
      )
  | inr e ↦ (none, rw e, tt, λ s. (λ d. absurd d, λ (p, q). apart e s p q))
]
  where
    apart : eqb_ℤ ao bo ≡ false → (s : ℤ) → pos 0 ∣ℤ s -ℤ ao → pos 0 ∣ℤ s -ℤ bo → ⊥
    apart e s (j, p) (k, q) =
        let z = *ℤ_comm j (pos 0) ∙ zero-*ℤ j in
        let z' = *ℤ_comm k (pos 0) ∙ zero-*ℤ k in
        let same : ao ≡ bo = omega int_laws in ground arith

ordered :
    (a b : Alignment) (m n : ℕ)
    → a.grain_size ≡ pos m
    → b.grain_size ≡ pos n
    → m < 2 ^ 31
    → n ≤ m
    → Meets a b (intersect_ordered a b)
ordered a b m n am bn k o =
    let ea : record { offset = a.offset; grain_size = pos m } ≡ a =
      λ i. record { offset = a.offset; grain_size = sym am i } in
    let eb : record { offset = b.offset; grain_size = pos n } ≡ b =
      λ i. record { offset = b.offset; grain_size = sym bn i } in
    subst₂ (λ x y. Meets x y (intersect_ordered x y)) ea eb (cases m n k o)
  where
    cases :
        (m n : ℕ)
        → m < 2 ^ 31
        → n ≤ m
        → Meets
            (record { offset = a.offset; grain_size = pos m })
            (record { offset = b.offset; grain_size = pos n })
            (intersect_ordered
              (record { offset = a.offset; grain_size = pos m })
              (record { offset = b.offset; grain_size = pos n }))
    cases zero zero k o = intersect_points a.offset b.offset
    cases zero (suc n) k o = absurd (omega arith)
    cases (suc m) n k o = intersect_general a.offset b.offset (suc m) n (omega arith) k o

-- On grains below 2^31 `intersect` does not stop, and a sector satisfies its result if and only if
-- it satisfies both of the originals; the numbers are exact here, Align/Exact.antt says where those
-- of the program are. The result is `none` only if no sector does, and its grain is not negative.
pub intersect_common :
    (a b : Alignment) → IsSmall a → IsSmall b → Meets a b (intersect (some a) (some b))
unfolding intersect
intersect_common a b sa sb =
    let (m, am) = nonneg→pos a.grain_size sa.nonneg in
    let (n, bn) = nonneg→pos b.grain_size sb.nonneg in
    elim (Bool-cases (ltb_ℤ a.grain_size b.grain_size)) [
      | inl e ↦
          let less : a.grain_size <ℤ b.grain_size = ltb_ℤ→lt a.grain_size b.grain_size e in
          let (r, run, grain, keeps) =
            ordered b a n m bn am (omega (int_laws, sb.fits)) (omega int_laws) in
          (
            r,
            rw e run,
            grain,
            λ s. (λ d. let (p, q) = (keeps s).0 d in (q, p), λ (p, q). (keeps s).1 (q, p)),
          )
      | inr e ↦
          let le : b.grain_size ≤ℤ a.grain_size = ltb_ℤ→le a.grain_size b.grain_size e in
          let (r, run, grain, keeps) =
            ordered a b m n am bn (omega (int_laws, sa.fits)) (omega int_laws) in
          (r, rw e run, grain, keeps)
    ]
