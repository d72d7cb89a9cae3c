-- ===== src/Fat/Layout/Clusters.antt =====
-- The sectors of a cluster.
use uparted.Base.{
  ap, ap₂, arith, eq_of_parts, int_laws, one_sided, pos, pos_part, true, ℕ, ℤ, ◌%◌, ◌*ℤ◌, ◌*◌, ◌+ℤ◌,
  ◌+◌, ◌-ℤ◌, ◌-◌, ◌/ℤ◌, ◌/◌, ◌<ℤ◌, ◌<◌, ◌^◌, ◌↔◌, ◌∙◌, ◌≡◌, ◌≤ℤ◌, ◌≤◌,
}
use uparted.Fat.{sub_32}
use uparted.Fat.Calc.{to_32}
use uparted.Fat.Calc.Bounds.{pos-/ℤ}
use uparted.Fat.Calc.Search.{pos-*ℤ}
use uparted.Fat.Layout.{FatSpecific, cluster_to_sector, is_sector_in_clusters, sector_to_cluster}
use native.Mathlib.Nat.{
  mod-eq_of_lt, mul-add-div_right, div-eq_of_lt, div-add-mod', mod-lt, div-lt_iff_lt-mul,
  mul-le-mul_right, add-mul, mul_comm, one-mul,
}

-- Behind the offset the sectors of the clusters follow one another.
pub from_offset :
    (info : FatSpecific) (cluster s g : ℕ)
    → info.cluster_sectors ≡ pos g
    → 2 ≤ cluster
    → cluster < 2 ^ 32
    → cluster_to_sector info cluster +ℤ pos s -ℤ info.cluster_offset ≡ pos ((cluster - 2) * g + s)
unfolding cluster_to_sector
from_offset info cluster s g size low high =
    let n : sub_32 cluster 2 ≡ cluster - 2 = omega arith in
    let p : pos (sub_32 cluster 2) *ℤ info.cluster_sectors ≡ pos ((cluster - 2) * g) =
      ap₂ (λ k c. pos k *ℤ c) n size ∙ pos-*ℤ (cluster - 2) g in
    let o = one_sided (cluster_to_sector info cluster +ℤ pos s -ℤ info.cluster_offset) in
    eq_of_parts _ _ (omega int_laws)

-- For a positive cluster size `fat_sector_to_cluster` returns the cluster, numbered from 2 to below
-- 2^32, on each of its sectors, which start at `fat_cluster_to_sector`.
pub sector_to_cluster-cluster_to_sector :
    (info : FatSpecific) (cluster s g : ℕ)
    → info.cluster_sectors ≡ pos g
    → 2 ≤ cluster
    → cluster < 2 ^ 32
    → s < g
    → sector_to_cluster info (cluster_to_sector info cluster +ℤ pos s) ≡ cluster
unfolding sector_to_cluster to_32
sector_to_cluster-cluster_to_sector info cluster s g size low high within =
    let quotient : ((cluster - 2) * g + s) / g ≡ cluster - 2 =
      mul-add-div_right (omega arith) (cluster - 2) s
      ∙ (let z = div-eq_of_lt within in omega arith) in
    let q : (cluster_to_sector info cluster +ℤ pos s -ℤ info.cluster_offset) /ℤ info.cluster_sectors
        ≡ pos (cluster - 2) =
      ap₂ ◌/ℤ◌ (from_offset info cluster s g size low high) size ∙ pos-/ℤ _ g ∙ ap pos quotient in
    let sum : pos (cluster - 2) +ℤ pos 2 ≡ pos cluster =
      let o = one_sided (pos (cluster - 2) +ℤ pos 2) in eq_of_parts _ _ (omega int_laws) in
    ap (λ x. to_32 (x +ℤ pos 2)) q ∙ ap to_32 sum ∙ mod-eq_of_lt high

-- The sector is one of a cluster of the data area.
abbrev pub InClusters : FatSpecific → ℕ → ℤ → Type 0
InClusters info g sector =
    (cluster : ℕ) × (s : ℕ) × (2 ≤ cluster)
    × (cluster < info.cluster_count + 2)
    × (s < g)
    × (sector ≡ cluster_to_sector info cluster +ℤ pos s)

in_clusters_parts :
    (info : FatSpecific) (sector : ℤ) (g : ℕ)
    → info.cluster_sectors ≡ pos g
    → (is_sector_in_clusters info sector ≡ true) ↔ (
        (info.cluster_offset ≤ℤ sector)
        × (sector <ℤ info.cluster_offset +ℤ pos (g * info.cluster_count)))
unfolding is_sector_in_clusters
in_clusters_parts info sector g size =
    let p : info.cluster_sectors *ℤ pos info.cluster_count ≡ pos (g * info.cluster_count) =
      ap (λ c. c *ℤ pos info.cluster_count) size ∙ pos-*ℤ g info.cluster_count in
    rw p ((λ e. (ground arith, ground arith)), λ (low, high). ground arith)

more_clusters : (a b g : ℕ) → a ≤ b → a * g ≤ b * g
more_clusters a b g h = mul-le-mul_right g h

-- For a positive cluster size and fewer than 2^32 - 2 clusters, `fat_is_sector_in_clusters` tells
-- whether the sector is one of the data clusters, those from 2 to `cluster_count + 1`.
pub is_sector_in_clusters_iff :
    (info : FatSpecific) (sector : ℤ) (g : ℕ)
    → info.cluster_sectors ≡ pos g
    → 0 < g
    → info.cluster_count + 2 < 2 ^ 32
    → (is_sector_in_clusters info sector ≡ true) ↔ InClusters info g sector
is_sector_in_clusters_iff info sector g size positive few = (located, inside)
  where
    located : is_sector_in_clusters info sector ≡ true → InClusters info g sector
    located e =
        let (low, high) = (in_clusters_parts info sector g size).0 e in
        let n = pos_part (sector -ℤ info.cluster_offset) in
        let o = one_sided (sector -ℤ info.cluster_offset) in
        let o' = one_sided (info.cluster_offset +ℤ pos (g * info.cluster_count)) in
        let turned = mul_comm g info.cluster_count in
        let below =
          (div-lt_iff_lt-mul {x = n} {y = info.cluster_count} positive).1 (omega int_laws) in
        let split = div-add-mod' n g in
        let back = from_offset info (n / g + 2) (n % g) g size (omega arith) (omega arith) in
        let same : n / g + 2 - 2 ≡ n / g = omega arith in
        let at : (n / g + 2 - 2) * g + n % g ≡ n = ap (λ k. k * g + n % g) same ∙ split in
        (
          n / g + 2,
          n % g,
          omega arith,
          omega arith,
          mod-lt n positive,
          eq_of_parts _ _ (omega int_laws),
        )

    inside : InClusters info g sector → is_sector_in_clusters info sector ≡ true
    inside (cluster, s, low, high, within, at) =
        let back = from_offset info cluster s g size low (omega arith) in
        let most = more_clusters (cluster - 2 + 1) info.cluster_count g (omega arith) in
        let sum = add-mul (cluster - 2) 1 g in
        let single = one-mul g in
        let turned = mul_comm g info.cluster_count in
        let bound : (cluster - 2) * g + s < g * info.cluster_count = omega arith in
        let here : sector -ℤ info.cluster_offset ≡ pos ((cluster - 2) * g + s) =
          ap (λ x. x -ℤ info.cluster_offset) at ∙ back in
        (in_clusters_parts info sector g size).1 (omega int_laws, omega int_laws)
