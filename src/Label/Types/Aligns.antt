-- ===== src/Label/Types/Aligns.antt =====
-- `partition_align` of the labels: what it assigns.
use uparted.Base.{Bool, arith, done, some, true, ℕ, ◌*◌, ◌/◌, ◌^◌, ◌≡◌, ◌≤◌}
use uparted.Geom
use uparted.Geom.{Geometry}
use uparted.Constraint.Common.{AreTame, IsUsable, Parts, constraint_of}
use uparted.Dos.Chs.{ChsGeometry}
use uparted.Label.Attempt.{IsAligned}
use uparted.Label.Types.{Label, amiga, bsd, dasd, dvh, gpt, loop, mac, partition_align, pc98, sun}
use uparted.Label.Types.Area.{InArea, IsReady}
use uparted.Label.Types.Solves.{partition_align_solves}

-- The sectors of a track, of which a DASD label makes the grain.
abbrev pub track_of : Label → ChsGeometry → ℕ
track_of (dasd real_size size format) hw = hw.sectors * (real_size / size)
track_of (gpt area) hw = 0
track_of (sun length) hw = 0
track_of mac hw = 0
track_of bsd hw = 0
track_of pc98 hw = 0
track_of amiga hw = 0
track_of dvh hw = 0
track_of loop hw = 0

-- The grains that the constraints of the caller and of the label have are at most 2^20 sectors, and
-- the alignments of the caller are as `ped_alignment_init` leaves them, so that their intersections
-- do not overflow (`init-NoOverflow` in Align/Exact/Init.antt).
pub record InBounds (label : Label) (hw bios : ChsGeometry) (a : Parts) : Type 0 where
  pub given : AreTame a
  pub cylinder : hw.sectors * hw.heads ≤ 2 ^ 20
  pub bios_cylinder : bios.sectors * bios.heads ≤ 2 ^ 20
  pub track : track_of label hw ≤ 2 ^ 20

-- For a constraint of the caller over the device, with alignments as `ped_alignment_init` leaves
-- them, offsets of at most 2^61, valid ranges from sector 0 on and a positive smallest size, with
-- grains, cylinders and the tracks of a DASD label of at most 2^20 sectors, a GPT whose data area
-- is valid, a device of 2 sectors for a BSD label and 1 for the volume header of DVH, and a DASD
-- label with a positive sector size and a format that is not LDL: `partition_align` of the label
-- comes back. Where it returns 1, the geometry of the partition is valid, a solution of the
-- constraint of the caller, and in the sectors that the label leaves to partitions, aligned as the
-- label asks. Where it returns 0, the geometry is as it was.
pub partition_align_lem :
    (label : Label) (hw bios : ChsGeometry) (dev : Geom.Device) (extended : Bool) (geom : Geometry)
    (a : Parts)
    → IsUsable a
    → a.sr.dev ≡ dev
    → a.er.dev ≡ dev
    → InBounds label hw bios a
    → IsReady label hw dev extended
    → (r : Bool × Geometry) × (partition_align label hw bios dev extended geom
          (some (constraint_of a))
        ≡ done r)
      × IsAligned geom (constraint_of a) r
      × (r.0 ≡ true → InArea label hw bios dev extended r.1)
partition_align_lem label hw bios dev extended geom a ok sd ed bounds ready =
    let h = bounds.cylinder in
    let b = bounds.bios_cylinder in
    partition_align_solves label hw bios dev extended geom a ok sd ed (omega arith) (omega arith)
      ready
