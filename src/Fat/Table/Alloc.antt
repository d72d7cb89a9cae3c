-- ===== src/Fat/Table/Alloc.antt =====
-- `fat_table_alloc_cluster` and `fat_table_alloc_check_cluster`
use uparted.Base.{
  Bool-cases, ap, arith, done, false, inl, inr, leb, ltb, ltb→lt, refl, subst, suc, zero, ℕ, ◌%◌,
  ◌+◌, ◌-◌, ◌<◌, ◌==◌, ◌^◌, ◌∙◌, ◌≡◌, ◌≢◌, ◌≤◌, ◌⊎◌,
}
use uparted.Fat.{add_32}
use uparted.Fat.Table.{FatTable, alloc_cluster, alloc_from, is_available}
use uparted.Fat.Table.Count.{codes_of}
use native.Mathlib.Nat.{mod-eq_of_lt, mod-eq-sub-mod, mod-lt}

-- The cluster that a round looks at.
abbrev candidate : FatTable → ℕ → ℕ
candidate ft j = add_32 j ft.last_alloc % ft.cluster_count

-- What the loop returns, from the round `i` on with `left` rounds.
abbrev Outcome : FatTable → ℕ → ℕ → ℕ × FatTable → Type 0
Outcome ft left i (r, found) =
    ((j : ℕ) × (r ≡ candidate ft j) × (codes_of ft r ≡ 0) × (found ≡ record ft { last_alloc = r }))
    ⊎ ((r ≡ 0) × (found ≡ ft) × ((j : ℕ) → i ≤ j → j < i + left → codes_of ft (candidate ft j) ≢ 0))

available_run :
    (ft : FatTable) (cluster : ℕ)
    → ft.cluster_count + 2 < 2 ^ 32
    → cluster < ft.cluster_count + 2
    → is_available ft cluster ≡ done (codes_of ft cluster == 0)
unfolding is_available
available_run ft cluster room within =
    let test : leb (add_32 ft.cluster_count 2) cluster ≡ false = ground arith in rw test refl

later-Outcome :
    (ft : FatTable) (left i : ℕ) (r : ℕ × FatTable)
    → codes_of ft (candidate ft i) ≢ 0
    → Outcome ft left (i + 1) r
    → Outcome ft (suc left) i r
later-Outcome ft left i (r, found) used (inl hit) = inl hit
later-Outcome ft left i (r, found) used (inr (zero_r, same, none_left)) = inr (
  zero_r,
  same,
  λ j low high. elim (Bool-cases (j == i)) [
    | inl e ↦
        let here : i ≡ j = ground arith in subst (λ k. codes_of ft (candidate ft k) ≢ 0) here used
    | inr e ↦ let past : j ≢ i = ground arith in none_left j (omega arith) (omega arith)
  ],
)

alloc_from_lem :
    (ft : FatTable) (left i : ℕ)
    → ft.cluster_count + 2 < 2 ^ 32
    → 0 < ft.cluster_count
    → (r : ℕ × FatTable) × (alloc_from left i ft ≡ done r) × Outcome ft left i r
unfolding alloc_from
alloc_from_lem ft zero i room many =
    ((0, ft), refl, inr (refl, refl, λ j p q. absurd (omega arith)))
alloc_from_lem ft (suc left) i room many =
    let below = mod-lt (add_32 i ft.last_alloc) many in
    let here = available_run ft (candidate ft i) room (omega arith) in
    elim (Bool-cases (codes_of ft (candidate ft i) == 0)) [
      | inl e ↦ (
        (candidate ft i, record ft { last_alloc = candidate ft i }),
        rw (here, e) refl,
        inl (i, refl, ground arith, refl),
      )
      | inr e ↦
          let (r, run, outcome) = alloc_from_lem ft left (i + 1) room many in
          (r, rw (here, e) run, later-Outcome ft left i r (λ z. ground arith) outcome)
    ]

-- The rounds reach each cluster below the count.
candidate_reaches :
    (ft : FatTable) (c : ℕ)
    → ft.cluster_count + ft.cluster_count < 2 ^ 32
    → ft.last_alloc < ft.cluster_count
    → c < ft.cluster_count
    → (j : ℕ) × (1 ≤ j) × (j < 1 + ft.cluster_count) × (candidate ft j ≡ c)
candidate_reaches ft c room last below = elim (Bool-cases (ltb ft.last_alloc c)) [
  | inl e ↦
      let ahead : ft.last_alloc < c = ltb→lt ft.last_alloc c e in
      let sum : (c - ft.last_alloc + ft.last_alloc) % 2 ^ 32 ≡ c = omega arith in
      (c - ft.last_alloc, (omega arith), (omega arith), rw sum (mod-eq_of_lt below))
  | inr e ↦
      let behind : c ≤ ft.last_alloc = ground arith in
      let n = ft.cluster_count in
      let sum : (c + n - ft.last_alloc + ft.last_alloc) % 2 ^ 32 ≡ c + n = omega arith in
      let back : c + n - n ≡ c = omega arith in
      (
        c + n - ft.last_alloc,
        (omega arith),
        (omega arith),
        rw sum (mod-eq-sub-mod {n = c + n} {m = n} (omega arith) ∙ rw back (mod-eq_of_lt below)),
      )
]

-- What `fat_table_alloc_cluster` returns.
abbrev pub Allocated : FatTable → ℕ × FatTable → Type 0
Allocated ft (r, found) =
    ((r < ft.cluster_count) × (codes_of ft r ≡ 0) × (found ≡ record ft { last_alloc = r }))
    ⊎ ((r ≡ 0) × (found ≡ ft) × ((c : ℕ) → c < ft.cluster_count → codes_of ft c ≢ 0))

-- On a table with at least 2 clusters, but fewer than 2^31, that was allocated last below
-- `cluster_count`, `fat_table_alloc_cluster` returns a free cluster below `cluster_count` and remembers it, or it
-- returns 0, and no cluster below `cluster_count` is free. It never looks at the last two clusters
-- of the data area, `cluster_count` and `cluster_count + 1`.
pub alloc_cluster_lem :
    (ft : FatTable)
    → ft.cluster_count + ft.cluster_count < 2 ^ 32
    → 2 ≤ ft.cluster_count
    → ft.last_alloc < ft.cluster_count
    → (r : ℕ × FatTable) × (alloc_cluster ft ≡ done r) × Allocated ft r
unfolding alloc_cluster
alloc_cluster_lem ft room many last =
    let (r, run, outcome) = alloc_from_lem ft ft.cluster_count 1 (omega arith) (omega arith) in
    let rounds : add_32 ft.cluster_count 1 - 1 ≡ ft.cluster_count = omega arith in
    (r, ap (λ n. alloc_from n 1 ft) rounds ∙ run, allocated r outcome)
  where
    allocated : (r : ℕ × FatTable) → Outcome ft ft.cluster_count 1 r → Allocated ft r
    allocated (r, found) (inl (j, here, free, same)) =
        let below = mod-lt (add_32 j ft.last_alloc) {m = ft.cluster_count} (omega arith) in
        inl (omega arith, free, same)
    allocated (r, found) (inr (zero_r, same, none_left)) = inr (
      zero_r,
      same,
      λ c below.
          let (j, low, high, hits) = candidate_reaches ft c room last below in
          subst (λ k. codes_of ft k ≢ 0) hits (none_left j low high),
    )
