-- ===== src/Base/Signed/Quotient.antt =====
-- `/` and `%` of C by a number that is not negative.
use Prim.Native.Nat.{ℕ, zero, suc, ◌/◌, ◌%◌, ◌<◌}
use mathlib.Core.Path.{◌≡◌, refl}
use mathlib.Core.Logic.{◌↔◌}
use native.Mathlib.Nat.{div-add-mod, mul-mod_left}
use native.Mathlib.Omega.{arith}
use uparted.Base.Signed.Defs.{
  neg_part, negsuc, pos, pos_part, ℤ, ◌%ℤ◌, ◌*ℤ◌, ◌+ℤ◌, ◌/ℤ◌, ◌<ℤ◌, ◌≤ℤ◌,
}
use uparted.Base.Signed.Laws.{+ℤ_parts, eq_of_parts, int_laws, neg_part-*ℤ, one_sided, pos_part-*ℤ}

pub pos_part-/ℤ : (a : ℤ) (g : ℕ) → pos_part (a /ℤ pos g) ≡ pos_part a / g
unfolding ◌/ℤ◌
pos_part-/ℤ (pos m) g = refl
pos_part-/ℤ (negsuc m) zero = ground arith
pos_part-/ℤ (negsuc m) (suc g) = ground arith

pub neg_part-/ℤ : (a : ℤ) (g : ℕ) → neg_part (a /ℤ pos g) ≡ neg_part a / g
unfolding ◌/ℤ◌
neg_part-/ℤ (pos m) zero = ground arith
neg_part-/ℤ (pos m) (suc g) = ground arith
neg_part-/ℤ (negsuc m) g = ground arith

pub pos_part-%ℤ : (a : ℤ) (g : ℕ) → pos_part (a %ℤ pos g) ≡ pos_part a % g
unfolding ◌%ℤ◌
pos_part-%ℤ (pos m) g = refl
pos_part-%ℤ (negsuc m) zero = ground arith
pos_part-%ℤ (negsuc m) (suc g) = ground arith

pub neg_part-%ℤ : (a : ℤ) (g : ℕ) → neg_part (a %ℤ pos g) ≡ neg_part a % g
unfolding ◌%ℤ◌
neg_part-%ℤ (pos m) zero = ground arith
neg_part-%ℤ (pos m) (suc g) = ground arith
neg_part-%ℤ (negsuc m) g = ground arith

-- The quotient and the remainder make up the dividend.
pub div-add-mod_ℤ : (a : ℤ) (g : ℕ) → a /ℤ pos g *ℤ pos g +ℤ a %ℤ pos g ≡ a
div-add-mod_ℤ a g = eq_of_parts _ _ (
    let e =
      simp (pos_part-*ℤ, neg_part-*ℤ, pos_part-/ℤ, neg_part-/ℤ, pos_part-%ℤ, neg_part-%ℤ) at
        (+ℤ_parts (a /ℤ pos g *ℤ pos g) (a %ℤ pos g)) in
    omega (arith, div-add-mod (pos_part a) g, div-add-mod (neg_part a) g))

-- For a positive divisor the remainder is small, and its sign is that of the dividend.
pub mod_bounds :
    (a : ℤ) (g : ℕ)
    → 0 < g
    → (pos 0 <ℤ a %ℤ pos g +ℤ pos g)
      × (a %ℤ pos g <ℤ pos g)
      × (pos 0 ≤ℤ a → pos 0 ≤ℤ a %ℤ pos g)
      × (a ≤ℤ pos 0 → a %ℤ pos g ≤ℤ pos 0)
mod_bounds a g h =
    let p = pos_part-%ℤ a g in
    let n = neg_part-%ℤ a g in
    let o = one_sided a in (omega int_laws, omega int_laws, λ s. ground arith, λ s. ground arith)

pub mul-mod_ℤ : (k : ℤ) (g : ℕ) → k *ℤ pos g %ℤ pos g ≡ pos 0
unfolding ◌%ℤ◌ ◌*ℤ◌
mul-mod_ℤ (pos m) g = ground (arith, mul-mod_left m g)
mul-mod_ℤ (negsuc m) g = ground (arith, mul-mod_left (suc m) g)

-- `n` is a multiple of `d`.
infix 50 ◌∣ℤ◌
abbrev pub ◌∣ℤ◌ : ℤ → ℤ → Type 0
d ∣ℤ n = (k : ℤ) × (n ≡ k *ℤ d)

-- The test `n % g == 0` finds the multiples.
pub mod-eq-zero_iff : (n : ℤ) (g : ℕ) → (n %ℤ pos g ≡ pos 0) ↔ (pos g ∣ℤ n)
mod-eq-zero_iff n g =
    (λ h. let e = div-add-mod_ℤ n g in (n /ℤ pos g, omega int_laws), λ d. rw d.1 (mul-mod_ℤ d.0 g))
