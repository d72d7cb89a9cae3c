-- ===== src/Fat/Table/Count.antt =====
-- `free_cluster_count` against the codes of the table.
use native.Mathlib.Nat.{mod-eq_of_lt}
use uparted.Base.{
  Bool, Bool-cases, ap, ap₂, arith, done, false, if◌then◌else◌, inl, inr, leb, refl, subst₂, suc,
  sym, true, zero, ℕ, ◌+◌, ◌<◌, ◌==◌, ◌^◌, ◌∙◌, ◌≡◌, ◌≢◌, ◌≤◌, ◌⊎◌,
}
use uparted.Fat.{FatType, add_32, fat12, fat16, fat32}
use uparted.Fat.Table.{
  FatTable, code_available, code_bad, get, is_available, is_bad, read_code, set, update,
  update_counts, update_stats, write_code,
}

-- How many of the `n` clusters from `i` on have the code `v`.
abbrev pub count_in : (ℕ → ℕ) → ℕ → ℕ → ℕ → ℕ
count_in codes v i zero = 0
count_in codes v i (suc n) = (if codes i == v then 1 else 0) + count_in codes v (i + 1) n

pub count_in-le : (codes : ℕ → ℕ) (v i n : ℕ) → count_in codes v i n ≤ n
count_in-le codes v i zero = omega arith
count_in-le codes v i (suc n) = ground (arith, count_in-le codes v (i + 1) n)

count_in-update_before :
    (codes : ℕ → ℕ) (c x v i n : ℕ)
    → c < i
    → count_in (update codes c x) v i n ≡ count_in codes v i n
count_in-update_before codes c x v i zero h = refl
count_in-update_before codes c x v i (suc n) h =
    ground (arith, count_in-update_before codes c x v (i + 1) n (omega arith))

pub count_in-update :
    (codes : ℕ → ℕ) (c x v i n : ℕ)
    → i ≤ c
    → c < i + n
    → count_in (update codes c x) v i n + (if codes c == v then 1 else 0)
      ≡ count_in codes v i n + (if x == v then 1 else 0)
count_in-update codes c x v i zero h k = absurd (omega arith)
count_in-update codes c x v i (suc n) h k = elim (Bool-cases (c == i)) [
  | inl e ↦
      let same : c ≡ i = ground arith in
      let rest = count_in-update_before codes c x v (i + 1) n (omega arith) in ground arith
  | inr e ↦
      let other : c ≢ i = ground arith in
      let rest = count_in-update codes c x v (i + 1) n (omega arith) (omega arith) in ground arith
]

-- A code `v` that is overwritten by another.
pub count_in-replace :
    (codes : ℕ → ℕ) (c x v i n : ℕ)
    → i ≤ c
    → c < i + n
    → (codes c == v) ≡ true
    → (x == v) ≡ false
    → count_in (update codes c x) v i n + 1 ≡ count_in codes v i n + 0
count_in-replace codes c x v i n low high same other =
    subst₂
      (λ a b.
        count_in (update codes c x) v i n + (if a then 1 else 0)
        ≡ count_in codes v i n + (if b then 1 else 0))
      same other (count_in-update codes c x v i n low high)

count_in_pos :
    (codes : ℕ → ℕ) (c v i n : ℕ)
    → i ≤ c
    → c < i + n
    → (codes c == v) ≡ true
    → 0 < count_in codes v i n
count_in_pos codes c v i n low high same =
    let seen = count_in-replace codes c (v + 1) v i n low high same (ground arith) in omega arith

-- The codes that the file system sees.
abbrev pub codes_of : FatTable → ℕ → ℕ
codes_of ft = read_code ft.fat_type ft.table

-- The value is a code of an entry.
abbrev pub IsCode : FatType → ℕ → Type 0
IsCode fat12 value = ⊥
IsCode fat16 value = value < 2 ^ 16
IsCode fat32 value = value < 2 ^ 32

-- `free_cluster_count` counts the clusters with code 0.
pub record IsCounted (ft : FatTable) : Type 0 where
  pub room : ft.cluster_count + 2 < 2 ^ 32
  pub free : ft.free_cluster_count ≡ count_in (codes_of ft) 0 2 ft.cluster_count

pub codes_written :
    (t : FatType) (table : ℕ → ℕ) (cluster value : ℕ)
    → IsCode t value
    → read_code t (write_code t table cluster value) ≡ update (read_code t table) cluster value
unfolding read_code write_code
codes_written fat12 table cluster value h = absurd h
codes_written fat16 table cluster value h = ap (update table cluster) (mod-eq_of_lt h)
codes_written fat32 table cluster value h = ap (update table cluster) (mod-eq_of_lt h)

-- What an operation on one cluster leaves alone.
pub record IsSame (a b : FatTable) : Type 0 where
  pub fat_type : b.fat_type ≡ a.fat_type
  pub cluster_count : b.cluster_count ≡ a.cluster_count
  pub last_alloc : b.last_alloc ≡ a.last_alloc

pub get_within :
    (ft : FatTable) (cluster : ℕ)
    → ft.cluster_count + 2 < 2 ^ 32
    → cluster < ft.cluster_count + 2
    → get ft cluster ≡ done (codes_of ft cluster)
unfolding get
get_within ft cluster room within =
    let test : leb (add_32 ft.cluster_count 2) cluster ≡ false = ground arith in rw test refl

pub counts-IsSame :
    (ft : FatTable) (cluster value : ℕ) (available bad : Bool)
    → IsSame ft (update_counts ft cluster value available bad)
      × ((update_counts ft cluster value available bad).table ≡ ft.table)
unfolding update_counts
counts-IsSame ft cluster value true bad = elim (Bool-cases (code_available value)) [
  | inl e ↦ rw e (record { fat_type = refl; cluster_count = refl; last_alloc = refl }, refl)
  | inr e ↦ rw e (record { fat_type = refl; cluster_count = refl; last_alloc = refl }, refl)
]
counts-IsSame ft cluster value false bad = elim (Bool-cases (code_available value)) [
  | inl e ↦ rw e (record { fat_type = refl; cluster_count = refl; last_alloc = refl }, refl)
  | inr e ↦ rw e (record { fat_type = refl; cluster_count = refl; last_alloc = refl }, refl)
]

-- The change of the free count.
counts_free :
    (ft : FatTable) (cluster value : ℕ) (available bad : Bool)
    → 0 < ft.free_cluster_count ⊎ (available ≡ false)
    → ft.free_cluster_count + 1 < 2 ^ 32
    → (update_counts ft cluster value available bad).free_cluster_count
        + (if available then 1 else 0)
      ≡ ft.free_cluster_count + (if code_available value then 1 else 0)
unfolding update_counts
counts_free ft cluster value true bad some_free room = elim (Bool-cases (code_available value)) [
  | inl e ↦ rw e (omega arith)
  | inr e ↦ rw e (ground arith)
]
counts_free ft cluster value false bad some_free room = elim (Bool-cases (code_available value)) [
  | inl e ↦ rw e (ground arith)
  | inr e ↦ rw e (omega arith)
]

pub set_run :
    (ft : FatTable) (cluster value : ℕ)
    → ft.cluster_count + 2 < 2 ^ 32
    → cluster < ft.cluster_count + 2
    → set ft cluster value
      ≡ done (
        true,
        record (update_counts ft cluster value
            (code_available (codes_of ft cluster))
            (code_bad ft.fat_type (codes_of ft cluster))) {
              table = write_code ft.fat_type ft.table cluster value;
            },
      )
unfolding set update_stats is_available is_bad
set_run ft cluster value room within =
    let test : leb (add_32 ft.cluster_count 2) cluster ≡ false = ground arith in rw test refl

-- On a table with fewer than 2^32 - 2 clusters whose `free_cluster_count` counts the free ones,
-- `fat_table_set` on a cluster of the data area, with a value that fits into an entry of FAT16 or
-- FAT32, writes that entry only, and `free_cluster_count` still counts the free clusters.
pub set_lem :
    (ft : FatTable) (cluster value : ℕ)
    → IsCounted ft
    → 2 ≤ cluster
    → cluster < ft.cluster_count + 2
    → IsCode ft.fat_type value
    → (next : FatTable) × (set ft cluster value ≡ done (true, next))
      × IsCounted next
      × (codes_of next ≡ update (codes_of ft) cluster value)
      × IsSame ft next
set_lem ft cluster value ok low within fits = (
  next,
  set_run ft cluster value ok.room within,
  record { room = rw same.cluster_count ok.room; free = free },
  codes,
  record {
    fat_type = same.fat_type;
    cluster_count = same.cluster_count;
    last_alloc = same.last_alloc;
  },
)
  where
    available : Bool
    available = code_available (codes_of ft cluster)

    counted : FatTable
    counted = update_counts ft cluster value available (code_bad ft.fat_type (codes_of ft cluster))

    same : IsSame ft counted
    same = (counts-IsSame ft cluster value available (code_bad ft.fat_type (codes_of ft cluster))).0

    next : FatTable
    next = record counted { table = write_code ft.fat_type ft.table cluster value }

    codes : codes_of next ≡ update (codes_of ft) cluster value
    codes =
        ap (λ t. read_code t (write_code ft.fat_type ft.table cluster value)) same.fat_type
        ∙ codes_written ft.fat_type ft.table cluster value fits

    some_free : (0 < ft.free_cluster_count) ⊎ (available ≡ false)
    some_free = elim (Bool-cases available) [
      | inl e ↦
          let counts = ok.free in
          let here = count_in_pos (codes_of ft) cluster 0 2 ft.cluster_count low (omega arith) e in
          inl (omega arith)
      | inr e ↦ inr e
    ]

    free : next.free_cluster_count ≡ count_in (codes_of next) 0 2 next.cluster_count
    free =
        let counts = ok.free in
        let room = ok.room in
        let bound = count_in-le (codes_of ft) 0 2 ft.cluster_count in
        let changed =
          counts_free ft cluster value available (code_bad ft.fat_type (codes_of ft cluster))
            some_free (omega arith) in
        let updated =
          count_in-update (codes_of ft) cluster value 0 2 ft.cluster_count low (omega arith) in
        let now : next.free_cluster_count
            ≡ count_in (update (codes_of ft) cluster value) 0 2 ft.cluster_count =
          omega arith in
        now ∙ sym (ap₂ (λ f n. count_in f 0 2 n) codes same.cluster_count)
