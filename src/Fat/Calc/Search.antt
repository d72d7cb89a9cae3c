-- ===== src/Fat/Calc/Search.antt =====
-- The loops that look for a cluster size.
use uparted.Base.{
  Bool-cases, Option, Option-cases, ap, arith, false, inl, inr, leb_ℤ, none, pos, refl, some, subst,
  suc, sym, zero, ℕ, ℤ, ◌*ℤ◌, ◌*◌, ◌/◌, ◌<◌, ◌^◌, ◌∙◌, ◌≡◌, ◌≤◌, ◌⊎◌,
}
use uparted.Fat.Calc.{Sizes, attempt_at, try_larger, try_smaller}
use uparted.Fat.Calc.Bounds.{pos-/ℤ}
use native.Mathlib.Nat.{
  div-div-eq-div-mul, div-one, div-le_self, mul_assoc, one-le-pow, le-mul_of_pos_right, mul-one,
}
use native.Mathlib.Omega.{pow_step}

-- The outcome of loops that try the sizes of `Tried`.
abbrev pub Searched : (ℤ → Option (ℕ × ℤ)) → (ℕ → Type 0) → Option Sizes → Type 0
Searched attempt Tried none = (n : ℕ) → Tried n → attempt (pos n) ≡ none
Searched attempt Tried (some sizes) =
    (n : ℕ) × (sizes.cluster_sectors ≡ pos n)
    × Tried n
    × (attempt (pos n) ≡ some (sizes.cluster_count, sizes.fat_size))

-- The sizes that the doubling and the halving loops try.
abbrev pub Doubled : ℕ → ℕ → ℕ → Type 0
Doubled n most x = (k : ℕ) × (x ≡ n * 2 ^ k) × (x ≤ most)

abbrev pub Halved : ℕ → ℕ → ℕ → Type 0
Halved n least x = (k : ℕ) × (x ≡ n / 2 ^ k) × (least ≤ x)

-- A round that tries `n`; the other sizes are those of the next rounds.
attempt_at_lem :
    (attempt : ℤ → Option (ℕ × ℤ)) (n : ℕ) (rest : Option (Option Sizes)) (Tried Left : ℕ → Type 0)
    → Tried n
    → ((x : ℕ) → Left x → Tried x)
    → ((x : ℕ) → Tried x → (x ≡ n) ⊎ Left x)
    → (r : Option Sizes) × (rest ≡ some r) × Searched attempt Left r
    → (r : Option Sizes) × (attempt_at attempt (pos n) rest ≡ some r) × Searched attempt Tried r
unfolding attempt_at
attempt_at_lem attempt n rest Tried Left here more split (r, run, outcome) =
    elim (Option-cases (attempt (pos n))) [
      | inl refused ↦ (r, rw (attempt_at, refused) run, kept refused r outcome)
      | inr ((count, fat), found) ↦ (
        some (record { cluster_sectors = pos n; cluster_count = count; fat_size = fat }),
        rw (attempt_at, found) refl,
        (n, refl, here, found),
      )
    ]
  where
    kept :
        attempt (pos n) ≡ none
        → (r : Option Sizes) → Searched attempt Left r
        → Searched attempt Tried r
    kept refused none all = λ x tried. elim (split x tried) [
      | inl e ↦ subst (λ y. attempt (pos y) ≡ none) (sym e) refused
      | inr left ↦ all x left
    ]
    kept refused (some sizes) (x, e, left, found) = (x, e, more x left, found)

pub div-two_pow : (n k : ℕ) → n / 2 / 2 ^ k ≡ n / 2 ^ suc k
div-two_pow n k = div-div-eq-div-mul n 2 (2 ^ k) ∙ ap (λ m. n / m) (sym (pow_step 2 k))

Halved-half : (n least x : ℕ) → Halved (n / 2) least x → Halved n least x
Halved-half n least x (k, e, low) = (suc k, e ∙ div-two_pow n k, low)

Halved-cases : (n least x : ℕ) → Halved n least x → (x ≡ n) ⊎ Halved (n / 2) least x
Halved-cases n least x (zero, e, low) = inl (e ∙ div-one n)
Halved-cases n least x (suc k, e, low) = inr (k, e ∙ sym (div-two_pow n k), low)

pub pos-*ℤ : (m n : ℕ) → pos m *ℤ pos n ≡ pos (m * n)
unfolding ◌*ℤ◌
pos-*ℤ m n = refl

pub try_smaller_lem :
    (attempt : ℤ → Option (ℕ × ℤ)) (fuel n least : ℕ)
    → 0 < least
    → n < fuel
    → (r : Option Sizes) × (try_smaller attempt fuel (pos n) (pos least) ≡ some r)
      × Searched attempt (Halved n least) r
unfolding try_smaller
try_smaller_lem attempt zero n least h enough = absurd (omega arith)
try_smaller_lem attempt (suc fuel) n least h enough =
    elim (Bool-cases (leb_ℤ (pos least) (pos n))) [
      | inr e ↦ (
        none,
        rw e refl,
        λ x (k, e', low). let fewer = div-le_self n (2 ^ k) in absurd (ground arith),
      )
      | inl e ↦
          let go =
            attempt_at_lem attempt n _ (Halved n least) (Halved (n / 2) least)
              (0, sym (div-one n), ground arith) (Halved-half n least) (Halved-cases n least)
              (try_smaller_lem attempt fuel (n / 2) least h (ground arith)) in
          (go.0, rw (e, pos-/ℤ n 2) go.1, go.2)
    ]

pub mul-two_pow : (n k : ℕ) → n * 2 * 2 ^ k ≡ n * 2 ^ suc k
mul-two_pow n k = mul_assoc n 2 (2 ^ k) ∙ ap (λ m. n * m) (sym (pow_step 2 k))

Doubled-double : (n most x : ℕ) → Doubled (n * 2) most x → Doubled n most x
Doubled-double n most x (k, e, low) = (suc k, e ∙ mul-two_pow n k, low)

Doubled-cases : (n most x : ℕ) → Doubled n most x → (x ≡ n) ⊎ Doubled (n * 2) most x
Doubled-cases n most x (zero, e, low) = inl (e ∙ mul-one n)
Doubled-cases n most x (suc k, e, low) = inr (k, e ∙ sym (mul-two_pow n k), low)

larger_done :
    (attempt : ℤ → Option (ℕ × ℤ)) (fuel n most : ℕ)
    → most < n
    → (r : Option Sizes) × (try_larger attempt (suc fuel) (pos n) (pos most) ≡ some r)
      × Searched attempt (Doubled n most) r
unfolding try_larger
larger_done attempt fuel n most h =
    let e : leb_ℤ (pos n) (pos most) ≡ false = ground arith in
    (
      none,
      rw e refl,
      λ x (k, e', low).
          let more = le-mul_of_pos_right n (one-le-pow k 2 (omega arith)) in absurd (omega arith),
    )

pub try_larger_lem :
    (attempt : ℤ → Option (ℕ × ℤ)) (fuel n most : ℕ)
    → most < n * 2 ^ fuel
    → (r : Option Sizes) × (try_larger attempt (suc fuel) (pos n) (pos most) ≡ some r)
      × Searched attempt (Doubled n most) r
unfolding try_larger
try_larger_lem attempt zero n most enough = larger_done attempt zero n most (omega arith)
try_larger_lem attempt (suc fuel) n most enough = elim (Bool-cases (leb_ℤ (pos n) (pos most))) [
  | inr e ↦ larger_done attempt (suc fuel) n most (ground arith)
  | inl e ↦
      let go =
        attempt_at_lem attempt n _ (Doubled n most) (Doubled (n * 2) most)
          (0, sym (mul-one n), ground arith) (Doubled-double n most) (Doubled-cases n most)
          (try_larger_lem attempt fuel (n * 2) most
            (subst (λ m. most < m) (sym (mul-two_pow n fuel)) enough)) in
      (go.0, rw (e, pos-*ℤ n 2) go.1, go.2)
]
