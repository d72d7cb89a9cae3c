-- ===== src/Euclid/Laws.antt =====
-- What Euclid's algorithm returns on numbers that are not negative, with enough fuel.
use uparted.Base.{
  *ℤ-+ℤ, *ℤ_assoc, *ℤ_comm, +ℤ-*ℤ, Bool-cases, ap, arith, div-add-mod_ℤ, inl, inr, int_laws, ltb,
  mod-eq-zero_iff, one-*ℤ, pos, refl, some, subst, suc, sym, zero, zero-*ℤ, ℕ, ℤ, ◌%ℤ◌, ◌%◌, ◌*ℤ◌,
  ◌+ℤ◌, ◌+◌, ◌-ℤ◌, ◌/ℤ◌, ◌<◌, ◌∙◌, ◌∣ℤ◌, ◌≡◌, ◌≤ℤ◌, ◌≤◌, -ℤ-*ℤ,
}
use uparted.Euclid.{EuclidTriple, combine, extended_euclid, greatest_common_divisor}

pub dvd-add : (d m n : ℤ) → d ∣ℤ m → d ∣ℤ n → d ∣ℤ m +ℤ n
dvd-add d m n (j, p) (k, q) = (j +ℤ k, rw (p, q, +ℤ-*ℤ))

pub dvd-sub : (d m n : ℤ) → d ∣ℤ m → d ∣ℤ n → d ∣ℤ m -ℤ n
dvd-sub d m n (j, p) (k, q) = (j -ℤ k, rw (p, q, -ℤ-*ℤ))

pub dvd-mul : (d c n : ℤ) → d ∣ℤ n → d ∣ℤ c *ℤ n
dvd-mul d c n (k, q) = (c *ℤ k, rw (q, *ℤ_assoc))

pub dvd_refl : (d : ℤ) → d ∣ℤ d
dvd_refl d = (pos 1, sym (one-*ℤ d))

pub dvd-zero : (d : ℤ) → d ∣ℤ pos 0
dvd-zero d = (pos 0, sym (zero-*ℤ d))

pub dvd_trans : (d m n : ℤ) → d ∣ℤ m → m ∣ℤ n → d ∣ℤ n
dvd_trans d m n (j, p) (k, q) = (k *ℤ j, rw (q, p, *ℤ_assoc))

pub div-mul_cancel : (n : ℤ) (g : ℕ) → pos g ∣ℤ n → n /ℤ pos g *ℤ pos g ≡ n
div-mul_cancel n g d =
    let e = div-add-mod_ℤ n g in let z = (mod-eq-zero_iff n g).1 d in omega int_laws

-- A divisor of the divisor and of the remainder divides the dividend.
dvd_of_mod : (d a : ℤ) (g : ℕ) → d ∣ℤ pos g → d ∣ℤ a %ℤ pos g → d ∣ℤ a
dvd_of_mod d a g p q =
    subst (◌∣ℤ◌ d) (div-add-mod_ℤ a g) (dvd-add d _ _ (dvd-mul d (a /ℤ pos g) _ p) q)

dvd-mod : (d a : ℤ) (g : ℕ) → d ∣ℤ pos g → d ∣ℤ a → d ∣ℤ a %ℤ pos g
dvd-mod d a g p q =
    let e : a -ℤ a /ℤ pos g *ℤ pos g ≡ a %ℤ pos g = let l = div-add-mod_ℤ a g in omega int_laws in
    subst (◌∣ℤ◌ d) e (dvd-sub d _ _ q (dvd-mul d (a /ℤ pos g) _ p))

-- `g` is the greatest common divisor of `a` and `b`: every common divisor divides it.
abbrev pub IsGcd : ℤ → ℤ → ℤ → Type 0
IsGcd g a b = (g ∣ℤ a) × (g ∣ℤ b) × ((d : ℤ) → d ∣ℤ a → d ∣ℤ b → d ∣ℤ g)

IsGcd-swap : (g a b : ℤ) → IsGcd g a b → IsGcd g b a
IsGcd-swap g a b (p, q, all) = (q, p, λ d x y. all d y x)

IsGcd-step : (g a : ℤ) (b : ℕ) → IsGcd g (pos b) (a %ℤ pos b) → IsGcd g a (pos b)
IsGcd-step g a b (p, q, all) = (dvd_of_mod g a b p q, p, λ d x y. all d y (dvd-mod d a b y x))

-- The identity behind one step of the extended algorithm.
bezout_step : (x y q b r : ℤ) → x *ℤ b +ℤ y *ℤ r ≡ y *ℤ (q *ℤ b +ℤ r) +ℤ (x -ℤ q *ℤ y) *ℤ b
bezout_step x y q b r =
    simp (*ℤ-+ℤ, -ℤ-*ℤ)
      (let e : y *ℤ (q *ℤ b) ≡ q *ℤ y *ℤ b = rw (← *ℤ_assoc, *ℤ_comm y q) in omega int_laws)

-- `r` holds the greatest common divisor of `a` and `b`, with coefficients that yield it.
pub record IsBezout (a b : ℤ) (r : EuclidTriple) : Type 0 where
  pub greatest : IsGcd r.gcd a b
  pub identity : r.gcd ≡ r.x *ℤ a +ℤ r.y *ℤ b
  pub nonneg : pos 0 ≤ℤ r.gcd

IsBezout-combine :
    (a : ℤ) (b : ℕ) (r : EuclidTriple)
    → IsBezout (pos b) (a %ℤ pos b) r
    → IsBezout a (pos b) (combine a (pos b) r)
unfolding combine
IsBezout-combine a b r h = record {
  greatest = IsGcd-step r.gcd a b h.greatest;
  identity =
      h.identity
      ∙ bezout_step r.x r.y (a /ℤ pos b) (pos b) (a %ℤ pos b)
      ∙ ap (λ t. r.y *ℤ t +ℤ (r.x -ℤ a /ℤ pos b *ℤ r.y) *ℤ pos b) (div-add-mod_ℤ a b);
  nonneg = h.nonneg;
}

-- On two numbers that are not negative, with more fuel than the second, `extended_euclid` returns
-- their greatest common divisor, not negative, with coefficients that yield it.
pub extended_euclid_lem :
    (fuel a b : ℕ)
    → b < fuel
    → (r : EuclidTriple) × (extended_euclid fuel (pos a) (pos b) ≡ some r)
      × IsBezout (pos a) (pos b) r
unfolding extended_euclid ◌%ℤ◌
extended_euclid_lem zero a b h = elim h [ ]
extended_euclid_lem (suc fuel) a zero h = (
  record { gcd = pos a; x = pos 1; y = pos 0 },
  refl,
  record {
    greatest = (dvd_refl _, dvd-zero _, λ d p q. p);
    identity = rw (one-*ℤ, zero-*ℤ) (omega int_laws);
    nonneg = omega arith;
  },
)
extended_euclid_lem (suc fuel) a (suc b) h =
    let (r, e, v) = extended_euclid_lem fuel (suc b) (a % suc b) (omega arith) in
    (combine (pos a) (pos (suc b)) r, ground arith, IsBezout-combine (pos a) (suc b) r v)

IsGcd-ordered :
    (fuel a b : ℕ)
    → b < fuel
    → b ≤ a
    → (g : ℤ) × (greatest_common_divisor fuel (pos a) (pos b) ≡ some g) × IsGcd g (pos a) (pos b)
unfolding greatest_common_divisor ◌%ℤ◌
IsGcd-ordered zero a b h o = elim h [ ]
IsGcd-ordered (suc fuel) a zero h o = (pos a, ground arith, (dvd_refl _, dvd-zero _, λ d p q. p))
IsGcd-ordered (suc fuel) a (suc b) h o =
    let (g, e, v) = IsGcd-ordered fuel (suc b) (a % suc b) (omega arith) (omega arith) in
    (g, ground arith, IsGcd-step g (pos a) (suc b) v)

-- On two numbers that are not negative, in either order, with fuel above both plus one,
-- `ped_greatest_common_divisor` returns their greatest common divisor.
pub greatest_common_divisor_lem :
    (fuel a b : ℕ)
    → a + 1 < fuel
    → b + 1 < fuel
    → (g : ℤ) × (greatest_common_divisor fuel (pos a) (pos b) ≡ some g) × IsGcd g (pos a) (pos b)
unfolding greatest_common_divisor
greatest_common_divisor_lem zero a b h k = elim h [ ]
greatest_common_divisor_lem (suc fuel) a b h k = elim (Bool-cases (ltb a b)) [
  | inr e ↦ IsGcd-ordered (suc fuel) a b (omega arith) (ground arith)
  | inl e ↦
      let (g, eq, v) = IsGcd-ordered fuel b a (omega arith) (ground arith) in
      (g, ground arith, IsGcd-swap g (pos b) (pos a) v)
]
