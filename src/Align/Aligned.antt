-- ===== src/Align/Aligned.antt =====
-- The sectors that an alignment stands for.
use uparted.Base.{Option, none, pos, some, ℤ, ◌-ℤ◌, ◌∣ℤ◌, ◌≤ℤ◌}
use uparted.Align.{Alignment}

-- The sector `s` is `offset + X * grain_size` for some `X`.
abbrev pub Aligned : Alignment → ℤ → Type 0
Aligned a s = a.grain_size ∣ℤ s -ℤ a.offset

abbrev pub AlignedTo : Option Alignment → ℤ → Type 0
AlignedTo none s = ⊥
AlignedTo (some a) s = Aligned a s

-- A result that is not NULL has a grain that is not negative.
abbrev pub GrainNonneg : Option Alignment → Type 0
GrainNonneg none = Unit
GrainNonneg (some a) = pos 0 ≤ℤ a.grain_size
