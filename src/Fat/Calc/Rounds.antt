-- ===== src/Fat/Calc/Rounds.antt =====
-- The arithmetic of the two rounds of `calc_sizes`.
use uparted.Base.{
  Bool-cases, ap, arith, inl, inr, leb, subst, ℕ, ◌*◌, ◌+◌, ◌-◌, ◌/◌, ◌<◌, ◌∙◌, ◌≡◌, ◌≤◌,
}
use uparted.Fat.{FatType, fat12, fat16, fat32}
use uparted.Fat.Calc.{entries_per_sector, max_cluster_count}
use native.Mathlib.Nat.{
  div-mul-le_self, le-div_iff_mul-le, div-le_self, le-mul_of_pos_right, add-mul,
}

-- A quotient is no larger than that of a larger dividend, and falls by no more than its dividend.
div_mono : (a b c : ℕ) → 0 < c → a ≤ b → a / c ≤ b / c
div_mono a b c h k = let low = div-mul-le_self a c in (le-div_iff_mul-le h).1 (omega arith)

div_drop : (d x c : ℕ) → 0 < c → x ≤ d → d / c ≤ (d - x) / c + x
div_drop d x c h k = elim (Bool-cases (leb (d / c) x)) [
  | inl e ↦ ground arith
  | inr e ↦
      let low = div-mul-le_self d c in
      let split : d / c ≡ (d / c - x) + x = ground arith in
      let more = le-mul_of_pos_right x h in
      let parts : d / c * c ≡ (d / c - x) * c + x * c = ap (λ n. n * c) split ∙ add-mul _ x c in
      let bound = (le-div_iff_mul-le {x = d / c - x} {y = d - x} h).1 (omega arith) in omega arith
]

dropped :
    (d c x y : ℕ)
    → 0 < c
    → y ≤ x
    → x ≤ d
    → (d / c ≤ (d - x) / c + x)
      × ((d - x) / c ≤ (d - y) / c)
      × ((d - y) / c ≤ (d - x) / c + (x - y))
dropped d c x y h less small =
    let e : d - y - (x - y) ≡ d - x = omega arith in
    (
      div_drop d x c h small,
      div_mono (d - x) (d - y) c h (omega arith),
      subst (λ n. (d - y) / c ≤ n / c + (x - y)) e (div_drop (d - y) (x - y) c h (omega arith)),
    )

-- The arithmetic of the two rounds: `q` are the numbers of clusters and `f` the sectors of a table.
twice_fits :
    (q1 q2 q3 f1 f2 : ℕ)
    → f1 ≡ (q1 + 257) / 256
    → f2 ≡ (q2 + 257) / 256
    → q1 ≤ q2 + 2 * f1
    → q2 ≤ q3
    → q3 ≤ q2 + 2 * (f1 - f2)
    → q3 ≤ 65520
    → (q3 + 257) / 256 ≤ f2 + 1
twice_fits q1 q2 q3 f1 f2 e1 e2 drop mono back few = omega arith

twice_fits_small :
    (q1 q2 q3 f1 f2 : ℕ)
    → f1 ≡ (q1 + 769) / 768
    → f2 ≡ (q2 + 769) / 768
    → q1 ≤ q2 + 2 * f1
    → q2 ≤ q3
    → q3 ≤ q2 + 2 * (f1 - f2)
    → q3 ≤ 4080
    → (q3 + 769) / 768 ≤ f2 + 1
twice_fits_small q1 q2 q3 f1 f2 e1 e2 drop mono back few = omega arith

once_fits :
    (q1 q2 f1 f2 : ℕ) → f1 ≡ (q1 + 129) / 128 → f2 ≡ (q2 + 129) / 128 → q1 ≤ q2 + f1 → f1 ≤ 2 * f2
once_fits q1 q2 f1 f2 e1 e2 drop = omega arith

-- The arguments of the rounds, as natural numbers.
abbrev pub tables : FatType → ℕ
tables fat12 = 2
tables fat16 = 2
tables fat32 = 1

abbrev pub table_sectors : FatType → ℕ → ℕ
table_sectors t count = (count + 2 + entries_per_sector t - 1) / entries_per_sector t

-- The sectors by which the tables and clusters may go beyond the end.
abbrev pub excess : FatType → ℕ
excess fat12 = 2
excess fat16 = 2
excess fat32 = 0

-- The last two tables and the clusters, for the arithmetic of the type.
pub final_fits :
    (t : FatType) (d c : ℕ)
    → 0 < c
    → 2 ≤ d
    → (let f1 = table_sectors t (d / c) in
        let f2 = table_sectors t ((d - tables t * f1) / c) in
        let count = (d - 2 * f2) / c in
        (2 * f2 ≤ d)
        × (tables t * f1 ≤ d)
        × (count ≤ max_cluster_count t → 2 * table_sectors t count ≤ 2 * f2 + excess t))
unfolding max_cluster_count
final_fits fat12 d c h some_space =
    let q1 = d / c in
    let f1 = table_sectors fat12 q1 in
    let q2 = (d - 2 * f1) / c in
    let f2 = table_sectors fat12 q2 in
    let low = div-le_self d c in
    let small : 2 * f1 ≤ d = omega arith in
    let fewer = div_mono (d - 2 * f1) d c h (omega arith) in
    let less : 2 * f2 ≤ 2 * f1 = omega arith in
    let (drop, mono, back) = dropped d c (2 * f1) (2 * f2) h less small in
    (
      omega arith,
      small,
      λ few.
          let bound : (d - 2 * f2) / c ≤ 4080 = few in
          let end =
            twice_fits_small q1 q2 ((d - 2 * f2) / c) f1 f2 (omega arith) (omega arith) drop mono
              (omega arith) bound in
          omega arith,
    )
final_fits fat16 d c h some_space =
    let q1 = d / c in
    let f1 = table_sectors fat16 q1 in
    let q2 = (d - 2 * f1) / c in
    let f2 = table_sectors fat16 q2 in
    let low = div-le_self d c in
    let small : 2 * f1 ≤ d = omega arith in
    let fewer = div_mono (d - 2 * f1) d c h (omega arith) in
    let less : 2 * f2 ≤ 2 * f1 = omega arith in
    let (drop, mono, back) = dropped d c (2 * f1) (2 * f2) h less small in
    (
      omega arith,
      small,
      λ few.
          let bound : (d - 2 * f2) / c ≤ 65520 = few in
          let end =
            twice_fits q1 q2 ((d - 2 * f2) / c) f1 f2 (omega arith) (omega arith) drop mono
              (omega arith) bound in
          omega arith,
    )
final_fits fat32 d c h some_space =
    let q1 = d / c in
    let f1 = table_sectors fat32 q1 in
    let q2 = (d - 1 * f1) / c in
    let f2 = table_sectors fat32 q2 in
    let low = div-le_self d c in
    let small : 2 * f1 ≤ d = omega arith in
    let fewer = div_mono (d - 1 * f1) d c h (omega arith) in
    let less : 2 * f2 ≤ 2 * f1 = omega arith in
    let drop = div_drop d (1 * f1) c h (omega arith) in
    let both = once_fits q1 q2 f1 f2 (omega arith) (omega arith) (omega arith) in
    let mono = div_mono (d - 2 * f2) (d - 1 * f1) c h (omega arith) in
    (omega arith, omega arith, λ few. omega arith)
