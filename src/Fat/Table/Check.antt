-- ===== src/Fat/Table/Check.antt =====
-- `fat_table_alloc_check_cluster`: each round marks a cluster as bad.
use uparted.Base.{
  Bool, Bool-cases, ap, ap₂, arith, done, false, inl, inr, refl, some, subst, suc, sym, true, zero,
  ℕ, ◌+◌, ◌<◌, ◌==◌, ◌^◌, ◌∙◌, ◌≡◌, ◌≢◌, ◌≤◌, ◌⊎◌,
}
use uparted.Fat.{FatType, add_32, fat12, fat16, fat32}
use uparted.Fat.Table.{FatTable, alloc_check, bad_code, code_bad, is_bad, set, set_bad, update}
use uparted.Fat.Table.Count.{
  IsCode, IsCounted, codes_of, count_in, count_in-replace, get_within, set_lem,
}
use uparted.Fat.Table.Alloc.{Allocated, alloc_cluster_lem}

-- A table on which clusters can be allocated: its counts are right, the first two entries are
-- used, and the entries are those of FAT16 or FAT32.
pub record IsReady (ft : FatTable) : Type 0 where
  pub counted : IsCounted ft
  pub bad_fits : IsCode ft.fat_type (bad_code ft.fat_type)
  pub small : ft.cluster_count + ft.cluster_count < 2 ^ 32
  pub several : 2 ≤ ft.cluster_count
  pub last : ft.last_alloc < ft.cluster_count
  pub first_used : codes_of ft 0 ≢ 0
  pub second_used : codes_of ft 1 ≢ 0

bad_code_pos : (t : FatType) → (bad_code t == 0) ≡ false
bad_code_pos fat12 = refl
bad_code_pos fat16 = refl
bad_code_pos fat32 = refl

free_not_bad : (t : FatType) (code : ℕ) → code ≡ 0 → code_bad t code ≡ false
unfolding code_bad
free_not_bad fat12 code h = ground arith
free_not_bad fat16 code h = ground arith
free_not_bad fat32 code h = ground arith

is_bad_run :
    (ft : FatTable) (cluster : ℕ)
    → ft.cluster_count + 2 < 2 ^ 32
    → cluster < ft.cluster_count + 2
    → is_bad ft cluster ≡ done (code_bad ft.fat_type (codes_of ft cluster))
unfolding is_bad
is_bad_run ft cluster room within = rw (get_within ft cluster room within) refl

set_bad_run :
    (ft : FatTable) (cluster : ℕ)
    → ft.cluster_count + 2 < 2 ^ 32
    → cluster < ft.cluster_count + 2
    → codes_of ft cluster ≡ 0
    → set_bad ft cluster
      ≡ set
          (record ft { bad_cluster_count = add_32 ft.bad_cluster_count 1 })
          cluster
          (bad_code ft.fat_type)
unfolding set_bad
set_bad_run ft cluster room within free =
    rw (is_bad_run ft cluster room within, free_not_bad ft.fat_type (codes_of ft cluster) free) refl

-- Marking a free cluster as bad.
set_bad_lem :
    (ft : FatTable) (cluster : ℕ)
    → IsReady ft
    → 2 ≤ cluster
    → cluster < ft.cluster_count
    → codes_of ft cluster ≡ 0
    → (next : FatTable) × (set_bad ft cluster ≡ done (true, next))
      × IsReady next
      × (next.free_cluster_count + 1 ≡ ft.free_cluster_count)
set_bad_lem ft cluster ok low below free =
    let counting = record ft { bad_cluster_count = add_32 ft.bad_cluster_count 1 } in
    let (next, run, counted, codes, same) =
      set_lem counting cluster (bad_code ft.fat_type)
        (record { room = ok.counted.room; free = ok.counted.free }) low (omega arith) ok.bad_fits in
    (
      next,
      set_bad_run ft cluster ok.counted.room (omega arith) free ∙ run,
      record {
        counted = counted;
        bad_fits = subst (λ t. IsCode t (bad_code t)) (sym same.fat_type) ok.bad_fits;
        small = rw same.cluster_count ok.small;
        several = rw same.cluster_count ok.several;
        last = rw (same.last_alloc, same.cluster_count) ok.last;
        first_used = subst (λ f. f 0 ≢ 0) (sym codes) (kept 0 (omega arith) ok.first_used);
        second_used = subst (λ f. f 1 ≢ 0) (sym codes) (kept 1 (omega arith) ok.second_used);
      },
      one_less next counted codes same.cluster_count,
    )
  where
    changed : ℕ → ℕ
    changed = update (codes_of ft) cluster (bad_code ft.fat_type)

    kept : (k : ℕ) → k < cluster → codes_of ft k ≢ 0 → changed k ≢ 0
    kept k other used = let apart : (cluster == k) ≡ false = ground arith in rw apart used

    one_less :
        (next : FatTable)
        → IsCounted next
        → codes_of next ≡ changed
        → next.cluster_count ≡ ft.cluster_count
        → next.free_cluster_count + 1 ≡ ft.free_cluster_count
    one_less next counted codes same =
        let now : next.free_cluster_count ≡ count_in changed 0 2 ft.cluster_count =
          counted.free ∙ ap₂ (λ f n. count_in f 0 2 n) codes same in
        let before = ok.counted.free in
        let replaced =
          count_in-replace (codes_of ft) cluster (bad_code ft.fat_type) 0 2 ft.cluster_count low
            (omega arith) (ground arith) (bad_code_pos ft.fat_type) in
        omega arith

-- What `fat_table_alloc_check_cluster` returns: a free cluster that is readable, or 0, where no
-- cluster below `cluster_count` is free any more.
abbrev pub Checked : (ℕ → Bool) → ℕ × FatTable → Type 0
Checked readable (r, found) =
    IsReady found
    × (((r ≡ 0) × ((c : ℕ) → c < found.cluster_count → codes_of found c ≢ 0))
        ⊎ ((readable r ≡ true) × (codes_of found r ≡ 0)))

found-IsReady :
    (ft found : FatTable) (r : ℕ)
    → IsReady ft
    → r < ft.cluster_count
    → found ≡ record ft { last_alloc = r }
    → IsReady found
found-IsReady ft found r ok below same = subst IsReady (sym same) (record {
  counted = record { room = ok.counted.room; free = ok.counted.free };
  bad_fits = ok.bad_fits;
  small = ok.small;
  several = ok.several;
  last = below;
  first_used = ok.first_used;
  second_used = ok.second_used;
})

-- The first two entries are used, so a free cluster is one of the data area.
in_data : (ft : FatTable) (r : ℕ) → IsReady ft → codes_of ft r ≡ 0 → 2 ≤ r
in_data ft zero ok free = absurd (ok.first_used free)
in_data ft (suc zero) ok free = absurd (ok.second_used free)
in_data ft (suc (suc r)) ok free = omega arith

-- The table after an allocation, from what `fat_table_alloc_cluster` returns.
abbrev Found : FatTable → ℕ × FatTable → Type 0
Found ft (r, found) =
    IsReady found
    × (found.free_cluster_count ≡ ft.free_cluster_count)
    × (((r ≡ 0) × ((c : ℕ) → c < found.cluster_count → codes_of found c ≢ 0))
        ⊎ ((2 ≤ r) × (r < found.cluster_count) × (codes_of found r ≡ 0)))

found_lem : (ft : FatTable) (r : ℕ × FatTable) → IsReady ft → Allocated ft r → Found ft r
found_lem ft (r, found) ok (inl (below, free, same)) = (
  found-IsReady ft found r ok below same,
  ap (λ t. t.free_cluster_count) same,
  inr (
    in_data ft r ok free,
    subst (λ t. r < t.cluster_count) (sym same) below,
    subst (λ t. codes_of t r ≡ 0) (sym same) free,
  ),
)
found_lem ft (r, found) ok (inr (zero_r, same, none_free)) = (
  subst IsReady (sym same) ok,
  ap (λ t. t.free_cluster_count) same,
  inl (zero_r, subst (λ t. (c : ℕ) → c < t.cluster_count → codes_of t c ≢ 0) (sym same) none_free),
)

-- With more fuel than free clusters, `fat_table_alloc_check_cluster` on a FAT16 or FAT32 table
-- that satisfies `IsReady` ends. It returns a free
-- cluster that is readable, or 0, and then no cluster below `cluster_count` is free. The free
-- clusters are still counted.
pub alloc_check_lem :
    (fuel : ℕ) (readable : ℕ → Bool) (ft : FatTable)
    → IsReady ft
    → ft.free_cluster_count < fuel
    → (r : ℕ × FatTable) × (alloc_check fuel readable ft ≡ done (some r)) × Checked readable r
unfolding alloc_check
alloc_check_lem zero readable ft ok h = elim h [ ]
alloc_check_lem (suc fuel) readable ft ok h =
    let ((r, found), run, outcome) = alloc_cluster_lem ft ok.small ok.several ok.last in
    let (ready, same_free, cases) = found_lem ft (r, found) ok outcome in
    elim cases [
      | inl (zero_r, none_free) ↦
          let e : (r == 0) ≡ true = ground arith in
          ((0, found), rw (run, e) refl, (ready, inl (refl, none_free)))
      | inr (low, below, free) ↦
          let e : (r == 0) ≡ false = ground arith in
          elim (Bool-cases (readable r)) [
            | inl f ↦ ((r, found), rw (run, e, f) refl, (ready, inr (f, free)))
            | inr f ↦
                let (next, marked, ready', less) = set_bad_lem found r ready low below free in
                let (s, rest, good) = alloc_check_lem fuel readable next ready' (omega arith) in
                (s, rw (run, e, f, marked) rest, good)
          ]
    ]
