-- ===== src/Base/Signed/Ring.antt =====
-- The ring laws.
use Prim.Native.Nat.{◌<◌, ℕ, ◌*◌}
use mathlib.Core.Path.{◌≡◌, ◌∙◌, ap}
use native.Mathlib.Nat.{eq_of_mul-eq-mul_right}
use native.Mathlib.Omega.{arith}
use uparted.Base.Signed.Defs.{neg_part, pos, pos_part, ℤ, ◌*ℤ◌, ◌+ℤ◌, ◌-ℤ◌}
use uparted.Base.Signed.Laws.{+ℤ_parts, eq_of_parts, int_laws, neg_part-*ℤ, pos_part-*ℤ, -ℤ_parts}

ruleset products = (pos_part-*ℤ, neg_part-*ℤ)

pub +ℤ_comm : (a b : ℤ) → a +ℤ b ≡ b +ℤ a
+ℤ_comm a b = omega int_laws

pub +ℤ_assoc : (a b c : ℤ) → a +ℤ b +ℤ c ≡ a +ℤ (b +ℤ c)
+ℤ_assoc a b c = omega int_laws

pub *ℤ_comm : (a b : ℤ) → a *ℤ b ≡ b *ℤ a
*ℤ_comm a b = eq_of_parts _ _ (simp products (omega arith))

pub *ℤ_assoc : (a b c : ℤ) → a *ℤ b *ℤ c ≡ a *ℤ (b *ℤ c)
*ℤ_assoc a b c = eq_of_parts _ _ (simp products (omega arith))

pub +ℤ-*ℤ : (a b c : ℤ) → (a +ℤ b) *ℤ c ≡ a *ℤ c +ℤ b *ℤ c
+ℤ-*ℤ a b c = eq_of_parts _ _ (
    simp products (
      omega (
        arith,
        simp products at (+ℤ_parts (a *ℤ c) (b *ℤ c)),
        ap (λ (t : ℕ). t * pos_part c) (+ℤ_parts a b),
        ap (λ (t : ℕ). t * neg_part c) (+ℤ_parts a b),
      )))

pub -ℤ-*ℤ : (a b c : ℤ) → (a -ℤ b) *ℤ c ≡ a *ℤ c -ℤ b *ℤ c
-ℤ-*ℤ a b c = eq_of_parts _ _ (
    simp products (
      omega (
        arith,
        simp products at (-ℤ_parts (a *ℤ c) (b *ℤ c)),
        ap (λ (t : ℕ). t * pos_part c) (-ℤ_parts a b),
        ap (λ (t : ℕ). t * neg_part c) (-ℤ_parts a b),
      )))

pub *ℤ-+ℤ : (a b c : ℤ) → a *ℤ (b +ℤ c) ≡ a *ℤ b +ℤ a *ℤ c
*ℤ-+ℤ a b c = rw (*ℤ_comm a (b +ℤ c), +ℤ-*ℤ, *ℤ_comm b a, *ℤ_comm c a)

pub *ℤ--ℤ : (a b c : ℤ) → a *ℤ (b -ℤ c) ≡ a *ℤ b -ℤ a *ℤ c
*ℤ--ℤ a b c = rw (*ℤ_comm a (b -ℤ c), -ℤ-*ℤ, *ℤ_comm b a, *ℤ_comm c a)

pub one-*ℤ : (a : ℤ) → pos 1 *ℤ a ≡ a
one-*ℤ a = eq_of_parts _ _ (simp products (omega arith))

pub zero-*ℤ : (a : ℤ) → pos 0 *ℤ a ≡ pos 0
zero-*ℤ a = eq_of_parts _ _ (simp products (omega arith))

pub *ℤ-pos_cancel : (a b : ℤ) (g : ℕ) → 0 < g → a *ℤ pos g ≡ b *ℤ pos g → a ≡ b
*ℤ-pos_cancel a b g h e =
    let p = simp products at (ap pos_part e) in
    let n = simp products at (ap neg_part e) in
    eq_of_parts a b (eq_of_mul-eq-mul_right g h _ _ (omega arith))

pub *ℤ_shuffle : (a b c d : ℤ) → a *ℤ b *ℤ (c *ℤ d) ≡ c *ℤ a *ℤ (d *ℤ b)
*ℤ_shuffle a b c d = eq_of_parts _ _ (simp products (omega arith))

pub *ℤ_right_comm : (a b c : ℤ) → a *ℤ b *ℤ c ≡ a *ℤ c *ℤ b
*ℤ_right_comm a b c = eq_of_parts _ _ (simp products (omega arith))

pub *ℤ-zero : (a : ℤ) → a *ℤ pos 0 ≡ pos 0
*ℤ-zero a = *ℤ_comm a (pos 0) ∙ zero-*ℤ a
