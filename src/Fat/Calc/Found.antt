-- ===== src/Fat/Calc/Found.antt =====
-- `_smallest_power2_over` and `fat_calc_sizes`: the powers of two that are tried.
use uparted.Base.{
  Bool-cases, Option, ap, arith, false, inl, inr, ltb_ℤ, max_ℤ, max_ℤ_bounds, none, pos, pos_part,
  refl, some, subst, suc, sym, zero, ℕ, ℤ, ◌*◌, ◌+◌, ◌/ℤ◌, ◌/◌, ◌<◌, ◌==◌, ◌^◌, ◌∙◌, ◌≡◌, ◌≤ℤ◌, ◌≤◌,
  ◌⊎◌,
}
use uparted.Fat.{FatType, fat12, fat16, fat32}
use uparted.Fat.Calc.{Sizes, or_else, power2_from, recommend_min_cluster_size, smallest_power2_over}
use uparted.Fat.Calc.Search.{Searched, div-two_pow, pos-*ℤ}
use native.Mathlib.Nat.{one-le-pow, mul_assoc, div-one, zero-div, one-mul}
use native.Mathlib.Omega.{pow_step}

pub two_pow-add : (k d : ℕ) → 2 ^ (k + d) ≡ 2 ^ k * 2 ^ d
two_pow-add zero d = let e : 0 + d ≡ d = omega arith in ap (λ n. 2 ^ n) e ∙ sym (one-mul (2 ^ d))
two_pow-add (suc k) d =
    let e : suc k + d ≡ suc (k + d) = omega arith in
    ap (λ n. 2 ^ n) e
    ∙ pow_step 2 (k + d)
    ∙ ap (λ n. 2 * n) (two_pow-add k d)
    ∙ sym (mul_assoc 2 (2 ^ k) (2 ^ d))
    ∙ ap (λ n. n * 2 ^ d) (sym (pow_step 2 k))

pub two_pow-pos : (k : ℕ) → 0 < 2 ^ k
two_pow-pos k = one-le-pow k 2 (omega arith)

-- A power of two that was halved and is not zero is a power of two.
pub halved_power : (m j : ℕ) → 0 < 2 ^ m / 2 ^ j → (i : ℕ) × (2 ^ m / 2 ^ j ≡ 2 ^ i)
halved_power m zero h = (m, div-one (2 ^ m))
halved_power zero (suc j) h =
    let e : 2 ^ 0 / 2 ^ suc j ≡ 0 = sym (div-two_pow 1 j) ∙ zero-div (2 ^ j) in absurd (omega arith)
halved_power (suc m) (suc j) h =
    let e : 2 ^ suc m / 2 ^ suc j ≡ 2 ^ m / 2 ^ j =
      sym (div-two_pow (2 ^ suc m) j) ∙ ap (λ n. n / 2 ^ j) (let s = pow_step 2 m in omega arith) in
    let (i, p) = halved_power m j (omega arith) in (i, e ∙ p)

power2_from_lem :
    (fuel j : ℕ) (ceiling : ℤ)
    → pos_part ceiling ≤ 2 ^ j + fuel
    → (m : ℕ) × (power2_from (suc fuel) (pos (2 ^ j)) ceiling ≡ some (pos (2 ^ m)))
      × (ceiling ≤ℤ pos (2 ^ m))
      × ((i : ℕ) → j ≤ i → ceiling ≤ℤ pos (2 ^ i) → m ≤ i)
unfolding power2_from
power2_from_lem zero j ceiling enough =
    let e : ltb_ℤ (pos (2 ^ j)) ceiling ≡ false = ground arith in
    (j, rw e refl, omega arith, λ i low above. low)
power2_from_lem (suc fuel) j ceiling enough = elim (Bool-cases (ltb_ℤ (pos (2 ^ j)) ceiling)) [
  | inr e ↦ (j, rw e refl, ground arith, λ i low above. low)
  | inl e ↦
      let more = two_pow-pos j in
      let next : 2 ^ j * 2 ≡ 2 ^ suc j = let s = pow_step 2 j in omega arith in
      let (m, run, above, least) = power2_from_lem fuel (suc j) ceiling (omega arith) in
      (
        m,
        rw (e, pos-*ℤ (2 ^ j) 2, next) run,
        above,
        λ i low fits. elim (Bool-cases (j == i)) [
          | inl here ↦
              let same : j ≡ i = ground arith in
              let fits' : ceiling ≤ℤ pos (2 ^ j) =
                subst (λ k. ceiling ≤ℤ pos (2 ^ k)) (sym same) fits in
              absurd (ground arith)
          | inr past ↦ least i (ground arith) fits
        ],
      )
]

-- `_smallest_power2_over` returns the smallest power of two that is not below the ceiling.
pub smallest_power2_over_lem :
    (ceiling : ℤ)
    → (m : ℕ) × (smallest_power2_over ceiling ≡ some (pos (2 ^ m)))
      × (ceiling ≤ℤ pos (2 ^ m))
      × ((i : ℕ) → ceiling ≤ℤ pos (2 ^ i) → m ≤ i)
unfolding smallest_power2_over
smallest_power2_over_lem ceiling =
    let (m, run, above, least) = power2_from_lem (pos_part ceiling) 0 ceiling (omega arith) in
    (m, run, above, λ i. least i (omega arith))

-- The least cluster size of the type is two to this power.
abbrev least_power : FatType → ℕ
least_power fat12 = 0
least_power fat16 = 1
least_power fat32 = 3

pub recommend_lem :
    (t : FatType) (size : ℤ) → (m : ℕ) × (recommend_min_cluster_size t size ≡ some (pos (2 ^ m)))
unfolding recommend_min_cluster_size
recommend_lem fat12 size = (0, refl)
recommend_lem fat16 size = (1, refl)
recommend_lem fat32 size =
    let (m, run, _, _) = smallest_power2_over_lem (size /ℤ pos 2000000) in
    let (_, _, either) = max_ℤ_bounds (pos (2 ^ m)) (pos 8) in
    let recommended =
      ap
        (λ (o : Option ℤ). elim o as (λ x. Option ℤ) [
          | none ↦ none
          | some power ↦ some (max_ℤ power (pos 8))
        ])
        run in
    elim either [ inl e ↦ (m, recommended ∙ ap some e) | inr e ↦ (3, recommended ∙ ap some e) ]

-- Two loops one after the other.
pub Searched-or_else :
    (attempt : ℤ → Option (ℕ × ℤ)) (First Second : ℕ → Type 0) (r s : Option Sizes)
    → Searched attempt First r
    → Searched attempt Second s
    → (u : Option Sizes) × (or_else (some r) (some s) ≡ some u)
      × Searched attempt (λ n. First n ⊎ Second n) u
unfolding or_else
Searched-or_else attempt First Second (some sizes) s (n, e, tried, found) next =
    (some sizes, refl, (n, e, inl tried, found))
Searched-or_else attempt First Second none (some sizes) all (n, e, tried, found) =
    (some sizes, refl, (n, e, inr tried, found))
Searched-or_else attempt First Second none none all all' =
    (none, refl, λ n tried. elim tried [ inl a ↦ all n a | inr b ↦ all' n b ])
