-- ===== src/Fat/Layout/Frags.antt =====
-- The fragments of a cluster.
use uparted.Base.{
  ap, ap₂, arith, eq_of_parts, int_laws, ltb, one_sided, pos, refl, sym, true, ℕ, ℤ, ◌%◌, ◌*ℤ◌, ◌*◌,
  ◌+ℤ◌, ◌-ℤ◌, ◌-◌, ◌/ℤ◌, ◌<◌, ◌^◌, ◌∙◌, ◌≡◌, ◌≤◌,
}
use uparted.Fat.{sub_32}
use uparted.Fat.Calc.{to_32, to_fragment}
use uparted.Fat.Calc.Bounds.{pos-/ℤ}
use uparted.Fat.Calc.Search.{pos-*ℤ}
use uparted.Fat.Layout.{
  FatSpecific, cluster_to_frag, cluster_to_sector, frag_to_cluster, frag_to_sector, sector_to_frag,
}
use native.Mathlib.Nat.{mod-eq_of_lt, mul-div_cancel, mul_assoc}

-- The clusters of the file system are of `k` fragments with `f` sectors each.
pub record IsDivided (info : FatSpecific) (k f : ℕ) : Type 0 where
  pub frags : info.cluster_frags ≡ pos k
  pub sectors : info.frag_sectors ≡ pos f
  pub cluster : info.cluster_sectors ≡ pos (k * f)
  pub some_frags : 0 < k
  pub some_sectors : 0 < f
  pub few : k < 2 ^ 31

to_fragment_small : (n : ℕ) → n < 2 ^ 31 → to_fragment n ≡ pos n
unfolding to_fragment
to_fragment_small n h = let e : ltb n (2 ^ 31) ≡ true = ground arith in rw e refl

to_32_small : (n : ℕ) → n < 2 ^ 32 → to_32 (pos n) ≡ n
unfolding to_32
to_32_small n h = mod-eq_of_lt h

cluster_to_frag_lem :
    (info : FatSpecific) (cluster k f : ℕ)
    → IsDivided info k f
    → 2 ≤ cluster
    → cluster < 2 ^ 32
    → (cluster - 2) * k < 2 ^ 31
    → cluster_to_frag info cluster ≡ pos ((cluster - 2) * k)
unfolding cluster_to_frag
cluster_to_frag_lem info cluster k f ok low high small =
    let n : sub_32 cluster 2 ≡ cluster - 2 = omega arith in
    let factor : to_32 info.cluster_frags ≡ k =
      ap to_32 ok.frags ∙ to_32_small k (let few = ok.few in omega arith) in
    ap₂ (λ a b. to_fragment (a * b % 2 ^ 32)) n factor
    ∙ ap to_fragment (mod-eq_of_lt (omega arith))
    ∙ to_fragment_small ((cluster - 2) * k) small

sector_of :
    (info : FatSpecific) (cluster k f : ℕ)
    → IsDivided info k f
    → 2 ≤ cluster
    → cluster < 2 ^ 32
    → cluster_to_sector info cluster ≡ pos ((cluster - 2) * k * f) +ℤ info.cluster_offset
unfolding cluster_to_sector
sector_of info cluster k f ok low high =
    let n : sub_32 cluster 2 ≡ cluster - 2 = omega arith in
    ap (λ x. x +ℤ info.cluster_offset)
      (ap₂ (λ a b. pos a *ℤ b) n ok.cluster
        ∙ pos-*ℤ (cluster - 2) (k * f)
        ∙ ap pos (sym (mul_assoc (cluster - 2) k f)))

without_offset : (m : ℕ) (o : ℤ) → pos m +ℤ o -ℤ o ≡ pos m
without_offset m o = let s = one_sided (pos m +ℤ o -ℤ o) in eq_of_parts _ _ (omega int_laws)

-- Where the clusters consist of whole fragments, and the fragments before the cluster are below
-- 2^31: the first fragment of the cluster, by `fat_cluster_to_frag`, is in the cluster by
-- `fat_frag_to_cluster`, and starts where the cluster does, by `fat_frag_to_sector` and by
-- `fat_sector_to_frag`.
pub frag_to_cluster-cluster_to_frag :
    (info : FatSpecific) (cluster k f : ℕ)
    → IsDivided info k f
    → 2 ≤ cluster
    → cluster < 2 ^ 32
    → (cluster - 2) * k < 2 ^ 31
    → (frag_to_cluster info (cluster_to_frag info cluster) ≡ cluster)
      × (frag_to_sector info (cluster_to_frag info cluster) ≡ cluster_to_sector info cluster)
      × (sector_to_frag info (cluster_to_sector info cluster) ≡ cluster_to_frag info cluster)
unfolding frag_to_cluster frag_to_sector sector_to_frag
frag_to_cluster-cluster_to_frag info cluster k f ok low high small =
    let n = cluster - 2 in
    let frag = cluster_to_frag_lem info cluster k f ok low high small in
    let sector = sector_of info cluster k f ok low high in
    let sum : pos n +ℤ pos 2 ≡ pos cluster =
      let o = one_sided (pos n +ℤ pos 2) in eq_of_parts _ _ (omega int_laws) in
    let index : cluster_to_frag info cluster /ℤ info.cluster_frags ≡ pos n =
      ap₂ ◌/ℤ◌ frag ok.frags ∙ pos-/ℤ (n * k) k ∙ ap pos (mul-div_cancel n ok.some_frags) in
    let start : (cluster_to_sector info cluster -ℤ info.cluster_offset) /ℤ info.frag_sectors
        ≡ pos (n * k) =
      ap₂ (λ a b. (a -ℤ info.cluster_offset) /ℤ b) sector ok.sectors
      ∙ ap (λ a. a /ℤ pos f) (without_offset (n * k * f) info.cluster_offset)
      ∙ pos-/ℤ (n * k * f) f
      ∙ ap pos (mul-div_cancel (n * k) ok.some_sectors) in
    (
      ap (λ x. to_32 (x +ℤ pos 2)) index ∙ ap to_32 sum ∙ to_32_small cluster high,
      ap (λ x. x +ℤ info.cluster_offset) (ap₂ ◌*ℤ◌ frag ok.sectors ∙ pos-*ℤ (n * k) f) ∙ sym sector,
      ap (λ x. to_fragment (to_32 x)) start
          ∙ ap to_fragment (to_32_small (n * k) (omega arith))
          ∙ to_fragment_small (n * k) small
          ∙ sym frag,
    )
