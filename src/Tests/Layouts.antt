-- ===== src/Tests/Layouts.antt =====
-- Runs of the conversions of fs/r/fat/calc.c on a file system of 100 clusters.
use uparted.Base.{arith, pos, refl, some, ℤ, ◌%ℤ◌, ◌*ℤ◌, ◌+ℤ◌, ◌-ℤ◌, ◌≡◌}
use uparted.Fat.{fat32}
use uparted.Fat.Table.{FatTable}
use uparted.Fat.Layout.{
  FatSpecific, FileSystem, align_sectors, cluster_to_frag, cluster_to_sector, frag_to_cluster,
  frag_to_sector, match_clusters, meta_data_size, sector_to_frag, use_up,
}
use uparted.Fat.Layout.Frags.{IsDivided, frag_to_cluster-cluster_to_frag}
use uparted.Fat.Layout.Match.{Matched, align_sectors_lem}

abbrev table : FatTable
table = record {
  table = λ k. 1;
  size = 128;
  raw_size = 512;
  fat_type = fat32;
  cluster_count = 100;
  free_cluster_count = 0;
  bad_cluster_count = 0;
  last_alloc = 1;
}

abbrev info : FatSpecific
info = record {
  cluster_sectors = pos 8;
  cluster_count = 100;
  fat_type = fat32;
  fat_sectors = pos 1;
  cluster_offset = pos 40;
  root_dir_sector_count = pos 0;
  total_dir_clusters = 1;
  fat = table;
  frag_sectors = pos 4;
  cluster_frags = pos 2;
}

abbrev old_fs : FileSystem
old_fs = record {
  geom = record {
    dev = record { address = 1; length = pos 10000 };
    start = pos 63;
    length = pos 1000;
    stop = pos 1062;
  };
  info = info;
}

-- The same file system, moved to the sector 90.
abbrev new_fs : FileSystem
new_fs = record old_fs { geom = record old_fs.geom { start = pos 90; stop = pos 1089 } }

-- The old clusters start on the sector 103, and the new metadata end before the sector 124.
aligned_run : align_sectors new_fs old_fs ≡ some (pos 163)
unfolding align_sectors use_up match_clusters meta_data_size ◌+ℤ◌ ◌-ℤ◌ ◌*ℤ◌ ◌%ℤ◌
aligned_run = refl

info-IsDivided : IsDivided info 2 4
info-IsDivided = record {
  frags = refl;
  sectors = refl;
  cluster = refl;
  some_frags = omega arith;
  some_sectors = omega arith;
  few = omega arith;
}

frag_to_cluster-cluster_to_frag_example :
    (frag_to_cluster info (cluster_to_frag info 5) ≡ 5)
    × (frag_to_sector info (cluster_to_frag info 5) ≡ cluster_to_sector info 5)
    × (sector_to_frag info (cluster_to_sector info 5) ≡ cluster_to_frag info 5)
frag_to_cluster-cluster_to_frag_example =
    frag_to_cluster-cluster_to_frag info 5 2 4 info-IsDivided (omega arith) (omega arith)
      (omega arith)

align_sectors_lem_example :
    (a : ℤ) × (align_sectors new_fs old_fs ≡ some a) × Matched new_fs old_fs 8 a
align_sectors_lem_example = align_sectors_lem new_fs old_fs 8 refl (omega arith)
