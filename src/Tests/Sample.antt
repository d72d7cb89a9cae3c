-- ===== src/Tests/Sample.antt =====
-- A disk of 1000 sectors with a primary partition and an extended one, and a label for it.
use uparted.Base.{
  Bool, Option, Run, [], arith, done, eqb_ℤ, false, if◌then◌else◌, int_laws, leb_ℤ, negsuc, none,
  pos, some, trap, true, ℕ, ℤ, ◌&&◌, ◌+ℤ◌, ◌-ℤ◌, ◌∷◌,
}
use uparted.Geom
use uparted.Geom.{Geometry}
use uparted.Align
use uparted.Constraint.{Constraint, is_solution}
use uparted.Constraint.Common.{Parts}
use uparted.Disk
use uparted.Disk.{Disk, Entry, Partition, PartitionType}
use uparted.Disk.Walk.{DiskOps}

abbrev pub dev : Geom.Device
dev = record { address = 1; length = pos 1000 }

abbrev pub region : ℤ → ℤ → Geometry
region start stop = record {
  dev = dev;
  start = start;
  length = stop -ℤ start +ℤ pos 1;
  stop = stop;
}

abbrev pub normal : PartitionType
normal = record {
  logical = false;
  extended = false;
  freespace = false;
  metadata = false;
  protected = false;
}

abbrev pub partition : ℕ → PartitionType → Geometry → Partition
partition address type geom = record { address = address; geom = geom; num = negsuc 0; type = type }

abbrev pub first_logical : Partition
first_logical = partition 4 (record normal { logical = true }) (region (pos 520) (pos 599))

abbrev pub extended : Entry
extended = record {
  part = partition 3 (record normal { extended = true }) (region (pos 500) (pos 799));
  part_list = first_logical ∷ [];
}

abbrev pub boot : Entry
boot = record { part = partition 2 normal (region (pos 10) (pos 99)); part_list = [] }

abbrev pub disk : Disk
disk = record {
  dev = dev;
  part_list = boot ∷ extended ∷ [];
  update_mode = 1;
  needs_clobber = false;
}

abbrev pub fresh : Entry
fresh = record { part = partition 5 normal (region (pos 200) (pos 299)); part_list = [] }

-- A label that numbers everything 1 and aligns nothing: it keeps a valid geometry that satisfies
-- the constraint, and refuses any other.
abbrev pub accepts : Run Bool → Bool
accepts (done fine) = fine
accepts trap = false

abbrev pub fits : Geometry → Constraint → Bool
fits g c =
    leb_ℤ (pos 1) g.length
    && (eqb_ℤ g.stop (g.start +ℤ g.length -ℤ pos 1) && accepts (is_solution c g))

abbrev pub keep : Partition → Option Constraint → Option Geometry
keep part none = none
keep part (some c) = if fits part.geom c then some part.geom else none

abbrev pub ops : DiskOps
ops = record {
  partition_new = λ d type start stop. partition 9 type (region start stop);
  alloc_metadata = λ d. d;
  partition_enumerate = λ d part. some (pos 1);
  partition_align = λ d part c. done (keep part c);
  partition_check = λ d part. true;
  max_primary_partition_count = λ d. pos 4;
  feature_extended = true;
  ignore = λ complaint. false;
}

-- Any region of the disk.
abbrev pub anywhere : Parts
anywhere = record {
  sa = Align.any;
  ea = Align.any;
  sr = region (pos 0) (pos 999);
  er = region (pos 0) (pos 999);
  lo = pos 1;
  hi = pos 1000;
  sa_small = record { nonneg = omega arith; fits = omega arith };
  ea_small = record { nonneg = omega arith; fits = omega arith };
  sr_valid = record { nonempty = omega int_laws; last = omega int_laws };
  er_valid = record { nonempty = omega int_laws; last = omega int_laws };
}

abbrev pub free : ℤ → ℤ → Partition
free start stop = partition 9 Disk.Update.free_logical (region start stop)

unfoldable pub program : Unit {0}
unfolding Disk.Update.remove_freespace Disk.Update.remove_free_logical Disk.remove_free
    Disk.is_extended Disk.Update.alloc_freespace Disk.Update.fill_extended Disk.fill Disk.add_to
    Disk.overlap_constraint Disk.overlap_in Disk.find_gap Disk.skip_self Disk.gap_end
    Disk.extended_partition Disk.is_active Geom.init Geom.new Geom.duplicate ◌+ℤ◌ ◌-ℤ◌
program = tt
