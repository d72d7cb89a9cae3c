-- ===== src/Fat/Table/Stats.antt =====
-- `fat_table_count_stats`
use uparted.Base.{
  Bool, ap, ap₂, arith, done, false, if◌then◌else◌, leb, refl, suc, true, zero, ℕ, ◌+◌, ◌-◌, ◌<◌,
  ◌==◌, ◌^◌, ◌∙◌, ◌≡◌, ◌≤◌,
}
use uparted.Fat.{add_32}
use uparted.Fat.Table.{FatTable, bad_code, code_bad, count_from, count_stats, is_available, is_bad}
use uparted.Fat.Table.Count.{codes_of, count_in, count_in-le}

abbrev with_counts : FatTable → ℕ → ℕ → FatTable
with_counts ft x y = record ft { free_cluster_count = x; bad_cluster_count = y }

-- What one round adds.
abbrev plus_one : Bool → ℕ → ℕ
plus_one b x = if b then add_32 x 1 else x

step_run :
    (ft : FatTable) (x y left i : ℕ)
    → ft.cluster_count + 2 < 2 ^ 32
    → i < ft.cluster_count + 2
    → count_from (suc left) i (with_counts ft x y)
      ≡ count_from left (i + 1) (
          with_counts ft
            (plus_one (codes_of ft i == 0) x)
            (plus_one (codes_of ft i == bad_code ft.fat_type) y))
unfolding count_from is_available is_bad code_bad
step_run ft x y left i room within =
    let test : leb (add_32 ft.cluster_count 2) i ≡ false = ground arith in rw test refl

plus_one_lem :
    (b : Bool) (x n left : ℕ)
    → x + suc left < 2 ^ 32
    → n ≤ left
    → (plus_one b x + left < 2 ^ 32) × (plus_one b x + n ≡ x + ((if b then 1 else 0) + n))
plus_one_lem true x n left h k = (ground arith, ground arith)
plus_one_lem false x n left h k = (omega arith, omega arith)

count_done : (ft : FatTable) (i : ℕ) → count_from zero i ft ≡ done ft
unfolding count_from
count_done ft i = refl

count_from_lem :
    (ft : FatTable) (x y left i : ℕ)
    → ft.cluster_count + 2 < 2 ^ 32
    → i + left ≤ ft.cluster_count + 2
    → x + left < 2 ^ 32
    → y + left < 2 ^ 32
    → count_from left i (with_counts ft x y)
      ≡ done (
          with_counts ft
            (x + count_in (codes_of ft) 0 i left)
            (y + count_in (codes_of ft) (bad_code ft.fat_type) i left))
count_from_lem ft x y zero i room within hx hy =
    count_done (with_counts ft x y) i
    ∙ ap₂ (λ a b. done (with_counts ft a b)) (omega arith) (omega arith)
count_from_lem ft x y (suc left) i room within hx hy =
    let free = codes_of ft i == 0 in
    let bad = codes_of ft i == bad_code ft.fat_type in
    let n = count_in (codes_of ft) 0 (i + 1) left in
    let m = count_in (codes_of ft) (bad_code ft.fat_type) (i + 1) left in
    let (hx', ex) = plus_one_lem free x n left hx (count_in-le _ _ _ left) in
    let (hy', ey) = plus_one_lem bad y m left hy (count_in-le _ _ _ left) in
    step_run ft x y left i room (omega arith)
    ∙ count_from_lem ft (plus_one free x) (plus_one bad y) left (i + 1) room (omega arith) hx' hy'
    ∙ ap₂ (λ a b. done (with_counts ft a b)) ex ey

-- On a table with fewer than 2^32 - 2 clusters `fat_table_count_stats` sets both counts to the numbers of the clusters from 2 on that are free
-- and that are bad, and nothing else.
pub count_stats_lem :
    (ft : FatTable)
    → ft.cluster_count + 2 < 2 ^ 32
    → count_stats ft
      ≡ done (record ft {
        free_cluster_count = count_in (codes_of ft) 0 2 ft.cluster_count;
        bad_cluster_count = count_in (codes_of ft) (bad_code ft.fat_type) 2 ft.cluster_count;
      })
unfolding count_stats
count_stats_lem ft room =
    let rounds : add_32 ft.cluster_count 2 - 2 ≡ ft.cluster_count = omega arith in
    ap (λ n. count_from n 2 (with_counts ft 0 0)) rounds
    ∙ count_from_lem ft 0 0 ft.cluster_count 2 room (omega arith) (omega arith) (omega arith)
    ∙ ap₂ (λ a b. done (with_counts ft a b)) (omega arith) (omega arith)
