-- ===== src/Tests/Fats.antt =====
-- Runs of fs/r/fat/table.c on small tables.
use uparted.Base.{Bool, arith, done, not, refl, some, true, ℕ, ◌==◌, ◌>>=◌, ◌≡◌}
use uparted.Fat.{fat16}
use uparted.Fat.Table.{
  FatTable, alloc_check, alloc_cluster, alloc_from, code_bad, get, is_available, is_bad, read_code,
  set, set_eof, update, update_counts, update_stats, write_code,
}
use uparted.Fat.Table.Count.{IsCounted, IsSame, codes_of, set_lem}
use uparted.Fat.Table.Alloc.{Allocated, alloc_cluster_lem}
use uparted.Fat.Table.Check.{Checked, IsReady, alloc_check_lem}

-- Four clusters, 2 to 5: a chain 2, 3, a bad cluster, and a free one.
abbrev codes : ℕ → ℕ
codes = update (update (update (update (update (λ k. 0) 0 0xfff8) 1 0xffff) 2 3) 3 0xfff8) 4 0xfff7

abbrev small : FatTable
small = record {
  table = codes;
  size = 256;
  raw_size = 512;
  fat_type = fat16;
  cluster_count = 4;
  free_cluster_count = 1;
  bad_cluster_count = 1;
  last_alloc = 1;
}

-- The table with the cluster 2 free.
abbrev roomy : FatTable
roomy = record small { table = update codes 2 0; free_cluster_count = 2 }

small-IsCounted : IsCounted small
unfolding read_code
small-IsCounted = record { room = omega arith; free = refl }

roomy-IsReady : IsReady roomy
unfolding read_code
roomy-IsReady = record {
  counted = record { room = omega arith; free = refl };
  bad_fits = omega arith;
  small = omega arith;
  several = omega arith;
  last = omega arith;
  first_used = λ z. omega arith;
  second_used = λ z. omega arith;
}

-- The cluster 2 cannot be read.
abbrev reads : ℕ → Bool
reads k = not (k == 2)

-- The last two clusters are never allocated: the cluster 5 is free and counted.
never_allocated : alloc_cluster small ≡ done (0, small)
unfolding alloc_cluster alloc_from is_available get read_code
never_allocated = refl

-- A bad cluster that is given to a file stays in the count of bad clusters.
stale_count : set_eof small 4 >>= (λ r. done r.1.bad_cluster_count) ≡ done 1
unfolding set_eof set update_stats update_counts is_available is_bad get read_code write_code
    code_bad
stale_count = refl

set_lem_example :
    (next : FatTable) × (set small 5 0xfff8 ≡ done (true, next))
    × IsCounted next
    × (codes_of next ≡ update (codes_of small) 5 0xfff8)
    × IsSame small next
set_lem_example = set_lem small 5 0xfff8 small-IsCounted (omega arith) (omega arith) (omega arith)

alloc_cluster_lem_example : (r : ℕ × FatTable) × (alloc_cluster roomy ≡ done r) × Allocated roomy r
alloc_cluster_lem_example = alloc_cluster_lem roomy (omega arith) (omega arith) (omega arith)

alloc_check_lem_example :
    (r : ℕ × FatTable) × (alloc_check 3 reads roomy ≡ done (some r)) × Checked reads r
alloc_check_lem_example = alloc_check_lem 3 reads roomy roomy-IsReady (omega arith)
