-- ===== src/Euclid/Bounds.antt =====
-- The sizes of the coefficients that `extended_euclid` returns.
use native.Mathlib.Nat.{div-add-mod', div-le_self, le_refl, mul-le-mul}
use uparted.Base.{
  *ℤ-zero, ap, arith, nat_abs, negsuc, pos, refl, some, suc, zero, ℕ, ℤ, ◌%ℤ◌, ◌%◌, ◌*ℤ◌, ◌*◌, ◌+ℤ◌,
  ◌+◌, ◌-ℤ◌, ◌/ℤ◌, ◌/◌, ◌<◌, ◌∙◌, ◌≡◌, ◌≤◌,
}
use uparted.Euclid.{EuclidTriple, combine, extended_euclid}

pub nat_abs-+ℤ : (a b : ℤ) → nat_abs (a +ℤ b) ≤ nat_abs a + nat_abs b
unfolding ◌+ℤ◌
nat_abs-+ℤ a b = ground arith

pub nat_abs_sub : (a b : ℤ) → nat_abs (a -ℤ b) ≤ nat_abs a + nat_abs b
unfolding ◌-ℤ◌
nat_abs_sub a b = ground arith

pub nat_abs-*ℤ : (a b : ℤ) → nat_abs (a *ℤ b) ≡ nat_abs a * nat_abs b
unfolding ◌*ℤ◌
nat_abs-*ℤ a b = ground arith

pub nat_abs-/ℤ : (a : ℤ) (g : ℕ) → nat_abs (a /ℤ pos g) ≡ nat_abs a / g
unfolding ◌/ℤ◌
nat_abs-/ℤ (pos n) g = refl
nat_abs-/ℤ (negsuc n) g = ground arith

pub nat_abs-/ℤ_le : (a : ℤ) (g : ℕ) → nat_abs (a /ℤ pos g) ≤ nat_abs a
nat_abs-/ℤ_le a g = rw (nat_abs-/ℤ a g) (div-le_self (nat_abs a) g)

pub div-mul_le : (n g : ℕ) → n / g * g ≤ n
div-mul_le n g = let e : n / g * g + n % g ≡ n = div-add-mod' n g in omega arith

-- The coefficients are at most the other argument; the second argument is zero where the recursion
-- ends.
unfoldable pub IsBounded : ℕ → ℕ → EuclidTriple → Type 0
IsBounded a zero r = (r.x ≡ pos 1) × (r.y ≡ pos 0)
IsBounded a (suc b) r = (nat_abs r.x ≤ suc b) × (0 < a → nat_abs r.y ≤ a)

step-IsBounded :
    (a b k : ℕ) (r : EuclidTriple)
    → a % suc b ≡ k
    → IsBounded (suc b) k r
    → IsBounded a (suc b) (combine (pos a) (pos (suc b)) r)
unfolding combine IsBounded ◌/ℤ◌
step-IsBounded a b zero r e (x, y) =
    let none_left : pos (a / suc b) *ℤ r.y ≡ pos 0 = ap (λ z. pos (a / suc b) *ℤ z) y ∙ *ℤ-zero _ in
    let last = nat_abs_sub r.x (pos (a / suc b) *ℤ r.y) in
    let one = ap nat_abs x in
    let zero_left = ap nat_abs none_left in (let z = ap nat_abs y in omega arith, λ h. omega arith)
step-IsBounded a b (suc k) r e (x, y) =
    let q = a / suc b in
    let most : q * nat_abs r.y ≤ q * suc b = mul-le-mul (le_refl q) (y (omega arith)) in
    let product : nat_abs (pos q *ℤ r.y) ≡ q * nat_abs r.y = nat_abs-*ℤ (pos q) r.y in
    let all : q * suc b + a % suc b ≡ a = div-add-mod' a (suc b) in
    let last = nat_abs_sub r.x (pos q *ℤ r.y) in (y (omega arith), λ h. omega arith)

-- The triple that `extended_euclid` returns is bounded so.
pub extended_euclid-IsBounded :
    (fuel a b : ℕ)
    → b < fuel
    → (r : EuclidTriple) × (extended_euclid fuel (pos a) (pos b) ≡ some r) × IsBounded a b r
unfolding extended_euclid ◌%ℤ◌ IsBounded
extended_euclid-IsBounded zero a b h = elim h [ ]
extended_euclid-IsBounded (suc fuel) a zero h =
    (record { gcd = pos a; x = pos 1; y = pos 0 }, refl, (refl, refl))
extended_euclid-IsBounded (suc fuel) a (suc b) h =
    let (r, e, v) = extended_euclid-IsBounded fuel (suc b) (a % suc b) (omega arith) in
    (combine (pos a) (pos (suc b)) r, ground arith, step-IsBounded a b (a % suc b) r refl v)
