-- ===== src/Fat/Calc/Choice.antt =====
-- `fat_calc_sizes`: what is found, and what was tried.
use uparted.Base.{
  Bool-cases, Option, ap, ap₂, arith, inl, inr, leb, leb→le, none, pos, refl, some, subst, suc, sym,
  ℕ, ℤ, ◌*◌, ◌+◌, ◌-◌, ◌/◌, ◌<◌, ◌^◌, ◌∙◌, ◌≡◌, ◌≤ℤ◌, ◌≤◌, ◌⊎◌,
}
use uparted.Fat.{FatType, fat12, fat16, fat32}
use uparted.Fat.Calc.{
  Sizes, calc_sizes, fat_calc_sizes, max_cluster_size, or_else, search_sizes, try_larger,
  try_smaller,
}
use uparted.Fat.Calc.Bounds.{IsAdmitted, calc_sizes_lem}
use uparted.Fat.Calc.Search.{Doubled, Halved, Searched, try_larger_lem, try_smaller_lem}
use uparted.Fat.Calc.Found.{Searched-or_else, halved_power, recommend_lem, two_pow-add, two_pow-pos}
use native.Mathlib.Nat.{mul-div_cancel, pow-le-pow_right}

-- The cluster sizes of the three loops.
abbrev Tried : ℕ → ℕ → ℕ → ℕ → Type 0
Tried m most least n = Doubled (2 ^ m) most n ⊎ (Halved (2 ^ m) least n ⊎ Halved 4 1 n)

self_lt : (n : ℕ) → n < suc n
self_lt n = omega arith

three_loops :
    (attempt : ℤ → Option (ℕ × ℤ)) (m most least : ℕ)
    → most < 256
    → 0 < least
    → (r : Option Sizes) × (or_else (try_larger attempt 9 (pos (2 ^ m)) (pos most)) (
          or_else
            (try_smaller attempt (suc (2 ^ m)) (pos (2 ^ m)) (pos least))
            (try_smaller attempt 5 (pos 4) (pos 1)))
        ≡ some r)
      × Searched attempt (Tried m most least) r
three_loops attempt m most least small h =
    let some_size = two_pow-pos m in
    let room : most < 2 ^ m * 256 = omega arith in
    let (a, run_a, out_a) = try_larger_lem attempt 8 (2 ^ m) most room in
    let (b, run_b, out_b) =
      try_smaller_lem attempt (suc (2 ^ m)) (2 ^ m) least h (self_lt (2 ^ m)) in
    let (c, run_c, out_c) = try_smaller_lem attempt 5 4 1 (omega arith) (omega arith) in
    let (d, run_d, out_d) =
      Searched-or_else attempt (Halved (2 ^ m) least) (Halved 4 1) b c out_b out_c in
    let (r, run_r, out_r) =
      Searched-or_else attempt (Doubled (2 ^ m) most) (λ n. Halved (2 ^ m) least n ⊎ Halved 4 1 n) a
        d out_a out_d in
    (r, ap₂ or_else run_a (ap₂ or_else run_b run_c ∙ run_d) ∙ run_r, out_r)

split_power : (k m : ℕ) → k ≤ m → 2 ^ m ≡ 2 ^ k * 2 ^ (m - k)
split_power k m h =
    let e : m ≡ k + (m - k) = omega arith in ap (λ n. 2 ^ n) e ∙ two_pow-add k (m - k)

halved_back : (k m : ℕ) → k ≤ m → 2 ^ k ≡ 2 ^ m / 2 ^ (m - k)
halved_back k m h =
    sym
      (ap (λ n. n / 2 ^ (m - k)) (split_power k m h) ∙ mul-div_cancel (2 ^ k) (two_pow-pos (m - k)))

low_power : (k least : ℕ) → least ≤ 8 → 2 ^ k < least → k ≤ 2
low_power k least few h = elim (Bool-cases (leb k 2)) [
  | inl e ↦ ground arith
  | inr e ↦
      let more = pow-le-pow_right {n = 2} (omega arith) {i = 3} {j = k} (ground arith) in
      absurd (omega arith)
]

-- Each power of two up to the largest size is tried, from whichever the loops start.
reached : (k m most least : ℕ) → 2 ^ k ≤ most → least ≤ 8 → Tried m most least (2 ^ k)
reached k m most least fits few = elim (Bool-cases (leb m k)) [
  | inl e ↦ inl (k - m, split_power m k (leb→le m k e), fits)
  | inr e ↦ elim (Bool-cases (leb least (2 ^ k))) [
    | inl e' ↦ inr (inl (m - k, halved_back k m (ground arith), ground arith))
    | inr e' ↦ inr (
        inr
          (2 - k, halved_back k 2 (low_power k least (omega arith) (ground arith)), two_pow-pos k))
  ]
]

power_of : (m most least n : ℕ) → 0 < least → Tried m most least n → (k : ℕ) × (n ≡ 2 ^ k)
power_of m most least n h (inl (k, e, _)) = (m + k, e ∙ sym (two_pow-add m k))
power_of m most least n h (inr (inl (j, e, low))) =
    let (k, p) = halved_power m j (omega arith) in (k, e ∙ p)
power_of m most least n h (inr (inr (j, e, low))) =
    let (k, p) = halved_power 2 j (omega arith) in (k, e ∙ p)

-- What `fat_calc_sizes` returns, for the results of `attempt` on the cluster sizes: a power of two
-- on which it succeeds, or the failure of each of them up to the largest cluster size.
abbrev pub Chosen : (ℤ → Option (ℕ × ℤ)) → FatType → Option Sizes → Type 0
Chosen attempt t none = (k : ℕ) → pos (2 ^ k) ≤ℤ max_cluster_size t → attempt (pos (2 ^ k)) ≡ none
Chosen attempt t (some sizes) =
    (k : ℕ) × (sizes.cluster_sectors ≡ pos (2 ^ k))
    × (attempt sizes.cluster_sectors ≡ some (sizes.cluster_count, sizes.fat_size))
    × IsAdmitted t sizes.cluster_count sizes.fat_size

search_sizes_lem :
    (attempt : ℤ → Option (ℕ × ℤ)) (t : FatType) (m : ℕ)
    → ((size : ℤ) (count : ℕ) (fat : ℤ) → attempt size ≡ some (count, fat) → IsAdmitted t count fat)
    → (r : Option Sizes) × (search_sizes attempt t (pos (2 ^ m)) ≡ some r) × Chosen attempt t r
unfolding search_sizes
search_sizes_lem attempt t m admitted = by_type t admitted
  where
    chosen :
        (t : FatType) (most least : ℕ)
        → max_cluster_size t ≡ pos most
        → 0 < least
        → least ≤ 8
        → ((size : ℤ) (count : ℕ) (fat : ℤ)
            → attempt size ≡ some (count, fat)
            → IsAdmitted t count fat)
        → (r : Option Sizes) → Searched attempt (Tried m most least) r
        → Chosen attempt t r
    chosen t most least e low few admitted none all = λ k fits.
        all (2 ^ k)
          (reached k m most least (let b = subst (λ a. pos (2 ^ k) ≤ℤ a) e fits in omega arith) few)
    chosen t most least e low few admitted (some sizes) (n, here, tried, found) =
        let (k, power) = power_of m most least n low tried in
        let result =
          subst (λ a. attempt a ≡ some (sizes.cluster_count, sizes.fat_size)) (sym here) found in
        (k, here ∙ ap pos power, result, admitted _ _ _ result)

    by_type :
        (t : FatType)
        → ((size : ℤ) (count : ℕ) (fat : ℤ)
            → attempt size ≡ some (count, fat)
            → IsAdmitted t count fat)
        → (r : Option Sizes) × (search_sizes attempt t (pos (2 ^ m)) ≡ some r) × Chosen attempt t r
    by_type fat12 admitted =
        let (r, run, out) = three_loops attempt m 1 1 (omega arith) (omega arith) in
        (r, run, chosen fat12 1 1 refl (omega arith) (omega arith) admitted r out)
    by_type fat16 admitted =
        let (r, run, out) = three_loops attempt m 128 2 (omega arith) (omega arith) in
        (r, run, chosen fat16 128 2 refl (omega arith) (omega arith) admitted r out)
    by_type fat32 admitted =
        let (r, run, out) = three_loops attempt m 128 8 (omega arith) (omega arith) in
        (r, run, chosen fat32 128 8 refl (omega arith) (omega arith) admitted r out)

-- `fat_calc_sizes` ends, whatever its arguments are. It returns a power of two with which
-- `calc_sizes` succeeds, its number of clusters and the size of the tables, which are within the
-- bounds of the type, or it fails, and then so does `calc_sizes` with each power of two up to the
-- largest cluster size of the type.
pub fat_calc_sizes_lem :
    (size align : ℤ) (t : FatType) (root : ℤ)
    → (r : Option Sizes) × (fat_calc_sizes size align t root ≡ some r)
      × Chosen (calc_sizes size align t root) t r
unfolding fat_calc_sizes
fat_calc_sizes_lem size align t root =
    let (m, start) = recommend_lem t size in
    let (r, run, out) =
      search_sizes_lem (calc_sizes size align t root) t m (calc_sizes_lem size align t root) in
    (r, rw (fat_calc_sizes, start) run, out)
