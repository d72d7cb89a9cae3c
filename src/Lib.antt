-- ===== src/Lib.antt =====
-- Verification of libparted, the library of apps/parted that partitions disks. Paths are relative
-- to the root of the repository.
--
-- A PedGeometry is a region of consecutive sectors of a device. A PedAlignment is a set of sectors
-- `offset + X * grain_size`. A PedConstraint joins an alignment and a range for the start of a
-- region, the same for its end, and bounds on its size. A caller combines constraints by
-- ped_constraint_intersect and asks ped_constraint_solve_nearest for a region near a wanted one;
-- alignments are intersected on the way, and their nearest sectors computed. A PedDisk keeps its
-- partitions in order, those of an extended partition in a list of their own;
-- ped_disk_add_partition asks _partition_get_overlap_constraint for the gap in which a partition
-- may lie, and intersects that with the constraint of the caller.
--
-- - Base and its modules: integers over the native numbers (PedSector is a signed 64-bit type
--   whose overflow is undefined in C, and is modelled without bounds; what this means for
--   ped_alignment_intersect is said below), Boolean tests, and `Run`, a result or a stop of the
--   program: `trap` is a null pointer that is followed, a division by zero, or a call of exit.
-- - Geom: apps/parted/libparted/cs/geom.c and include/parted/geom.h. `Geom.init` is
--   ped_geometry_init, and so on; the `end` of a region is the field `stop`. `transfer` is the
--   common part of ped_geometry_read and ped_geometry_write: the sectors of the device that are
--   passed to it, or the error.
-- - Rounding and Euclid: the arithmetic of apps/parted/libparted/cs/natmath.c.
-- - Align: the alignments of the same file. `Align.intersect` is ped_alignment_intersect, `solve`
--   its general case, `closest_inside_geometry` with `move_up` and `move_down` is
--   _closest_inside_geometry, `confine` the common part of ped_alignment_align_up and
--   ped_alignment_align_down.
-- - Constraint: apps/parted/libparted/cs/constraint.c. `start_range_for_ends` and `start_window`
--   are the halves of _constraint_get_canonical_start_range, `nearest_start_soln`, `get_end_range`
--   and `nearest_end_soln` are the functions of these names, `solve_nearest` is
--   ped_constraint_solve_nearest, `solve_from` its part behind the choice of the start.
-- - Disk and Disk/Walk, Disk/Update, Disk/Add, Disk/Delete, Disk/Resize:
--   apps/parted/libparted/disk.c. A list linked by next and prev is a list, and a pointer to a
--   partition is its address. `overlap_constraint` is _partition_get_overlap_constraint, with its
--   loop `find_gap`; `add_to` is the loop of _disk_raw_add on one list, `fill` the loop that
--   allocates free space; `push_update_mode`, `pop_update_mode` and `remove_partition` are the
--   functions of these names; `partitions` lists what ped_disk_next_partition visits, in its
--   order; `next_partition` in Disk/Next is that function itself, on a pointer `Cursor` that knows
--   what its `next` leads to. `add_partition` is ped_disk_add_partition, in the parts `fit` and
--   `insert`; `set_partition_geom` is ped_disk_set_partition_geom, in the parts `place` and
--   `replace`, and `maximize_partition`, `max_partition_geometry`, `minimize_extended_partition`,
--   `delete_partition` and `delete_all` are the functions of these names. The operations of a disk
--   label (labels/) and the answer of ped_exception_throw are the record `DiskOps`; that an
--   operation does what its caller relies on is a named hypothesis (`AlignsWithin`,
--   `MakesSectors`), and Label/Types/Ops and Dos/Ops fill the record with the alignment of the
--   labels, which meets the first. Disk/Sorted, Disk/Free, Disk/Gap, Disk/Overlap, Disk/Tiled,
--   Disk/Lookup, Disk/Unlink, Disk/Next/Visits and the modules of Disk/Add hold the proofs.
-- - Label: what the disk labels of apps/parted/libparted/labels share. `try_constraint` and
--   `attempt_align` are _try_constraint and _ped_partition_attempt_align. Label/Types has the
--   constraints of gpt.c, mac.c, bsd.c, pc98.c, rdb.c, sun.c, dvh.c and dasd.c, and
--   `partition_align`, the call of the function of that name through the table of operations of a
--   label; a function that aligns a partition returns its status with the geometry that it leaves.
-- - Dos: apps/parted/libparted/labels/dos.c. Dos/Chs has chs_to_sector and sector_to_chs,
--   Dos/Number msdos_partition_enumerate with next_primary and next_logical, whose loops are
--   `next_from`. Dos/Limits has the constraints, each with the name of its function, and Dos/Align
--   the functions that use them: `align_primary`, `align_logical` with its loop `try_heads`, and
--   `msdos_partition_align`, which is given the geometry that partition_probe_bios_geometry found.
--   Dos/Flags has the types and flags: `set_hidden` and `set_lba` are dos_type_id_set_hidden and
--   dos_type_id_set_lba, `set_flag` and `get_flag` the functions msdos_partition_set_flag and
--   msdos_partition_get_flag, `set_boot` in Dos/Flags/Boot the first with its loop over the other
--   partitions. Dos/Ops is the table of operations msdos_disk_ops, as far as it is modelled. Their
--   modules hold the proofs.
-- - Exception: apps/parted/libparted/exception.c. `State` has its static variables, `throw`,
--   `rethrow`, `catch`, `fetch_all` and `leave_all` are the ped_exception functions of these
--   names; `Step` and `Reachable` in Exception/Reach are the sequences of their calls.
-- - Fat: apps/parted/libparted/fs/r/fat. Fat/Table is table.c: `FatTable` is struct _FatTable, its
--   table a function from the cluster to the code, and `set`, `alloc_cluster`, `alloc_check`,
--   `new` and so on are fat_table_set, fat_table_alloc_cluster, fat_table_alloc_check_cluster and
--   fat_table_new; whether fat_read_cluster succeeds is an argument. Fat/Calc is the first part of
--   calc.c, the choice of sizes: `calc_sizes` is the function of that name, its loop the two uses
--   of `size_round`; `fat_calc_sizes` has the loops `try_larger` and `try_smaller`. Fat/Layout is
--   the rest of it, the conversions between clusters, fragments and sectors, and `align_sectors`,
--   which is fat_calc_align_sectors. A FatCluster is a number below 2^32 with its additions and
--   subtractions modulo 2^32. The modules below these three hold the proofs.
-- - Tests: runs at concrete inputs, with the instances of the theorems there.
--
-- The one place where the product of three numbers of the caller is computed is
-- ped_alignment_intersect: it overflows for grains well below 2^31, where the model is exact and
-- the program is not. Align/Exact has `NoOverflow`, which says that each number computed there
-- fits into a long long, and `IsTame`, the alignments with grains of at most 2^20 sectors for
-- which it holds. Where it matters which sectors satisfy an intersection, the alignments are taken
-- to be of this kind: `AreTame` says it of a constraint, and `InBounds` in Label/Types/Aligns and
-- Dos/Align/Aligns also bounds the grains of the label, its cylinders or tracks. Where only the
-- ranges of a constraint matter, as for a partition that is added to a disk, the grains are below
-- 2^31.
--
-- Structures are records, NULL is `none`, and an allocation always succeeds. Devices are compared
-- by their address. PED_ASSERT is not modelled, since apps/parted/lib/config.h undefines DEBUG.
--
-- The recursion of ped_greatest_common_divisor and of extended_euclid is on fuel, and `none` says
-- that it ran out; the remainder falls in each step, so one more than the second argument is
-- enough, and ped_alignment_intersect gives that much. The loop of _align_logical runs over at
-- most 5 heads, and is a recursion on their number.
--
-- The loops of fs/r/fat are on fuel too: fat_table_alloc_check_cluster marks a free cluster as bad
-- in each round, and needs one more round than there are free clusters; the loops of
-- fat_calc_sizes double or halve the cluster size, for which 9 rounds, or one more than the size,
-- are enough; that of fat_calc_align_sectors adds a cluster in each round, and has one more round
-- than the region has sectors for the clusters.
--
-- Not modelled: the transfers themselves and the synchronisation of a device, ped_geometry_check,
-- the rest of disk.c (flags, names, probing and committing), partition tables (labels/) but for
-- the alignment of partitions and the numbers, addresses, types and flags of dos.c, the alignment
-- of atari.c and aix.c, file systems (fs/) but for the tables and sizes of FAT, reading and
-- writing a FAT, units, the texts of exceptions, the command line program and the interfaces to
-- the system.
pub mod Base
pub mod Geom
pub mod Rounding
pub mod Euclid
pub mod Align
pub mod Constraint
pub mod Disk
pub mod Dos
pub mod Exception
pub mod Fat
pub mod Label
mod Tests
