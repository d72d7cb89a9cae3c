-- ===== src/Dos/Align/Search.antt =====
-- Searches under a constraint of the label, and the choice between their solutions.
use uparted.Base.{
  Bool, Bool-cases, Option, Run, ap, arith, done, eqb_ℤ, false, inl, inr, none, pos, refl, some,
  subst, suc, sym, true, zero, ℕ, ◌*◌, ◌<◌, ◌^◌, ◌∙◌, ◌≡◌, ◌≤◌,
}
use uparted.Geom
use uparted.Geom.{Geometry}
use uparted.Constraint
use uparted.Constraint.{Constraint}
use uparted.Constraint.Common.{IsUsable, Parts, constraint_of}
use uparted.Dos.Chs.{ChsGeometry}
use uparted.Dos.Align.{best_solution, is_better}
use uparted.Label.{accept_solution, try_constraint}
use uparted.Label.Attempt.{
  IsAligned, IsSolved, Solved, accept_solution_lem, assign_lem, try_constraint_lem,
}
use uparted.Label.Internal.{Internal}
use uparted.Label.Types.{cylinder_size}

-- A BIOS geometry whose cylinders have sectors, fewer than 2^31.
pub record IsBios (bios : ChsGeometry) : Type 0 where
  pub heads : 1 ≤ bios.heads
  pub sectors : 1 ≤ bios.sectors
  pub fits : bios.sectors * bios.heads < 2 ^ 31

-- NULL, or a solution of the constraint of the caller with a property that the label asks for.
abbrev pub Found : Geometry → Constraint → (Geometry → Type 0) → Option Geometry → Type 0
Found geom c P none = Unit
Found geom c P (some g) = IsSolved geom c g × P g

-- The search comes back with such a result.
abbrev pub Finds : Geometry → Constraint → (Geometry → Type 0) → Run (Option Geometry) → Type 0
Finds geom c P run = (o : Option Geometry) × (run ≡ done o) × Found geom c P o

-- So does a function that aligns a partition.
abbrev pub Assigns : Geometry → Constraint → (Geometry → Type 0) → Run (Bool × Geometry) → Type 0
Assigns geom c P run =
    (r : Bool × Geometry) × (run ≡ done r) × IsAligned geom c r × (r.0 ≡ true → P r.1)

try-none : (geom : Geometry) (c : Constraint) → try_constraint geom (some c) none ≡ done none
unfolding try_constraint Constraint.intersect Constraint.solve_nearest
try-none geom c = refl

pub try_in :
    (geom : Geometry) (a : Parts) (dev : Geom.Device) (P : Geometry → Type 0)
    (o : Option Constraint)
    → IsUsable a
    → a.sr.dev ≡ dev
    → a.er.dev ≡ dev
    → Internal dev P o
    → Finds geom (constraint_of a) P (try_constraint geom (some (constraint_of a)) o)
try_in geom a dev P none ok sd ed h = (none, try-none geom (constraint_of a), tt)
try_in geom a dev P (some c) ok sd ed (p, same, psd, ped, asks) =
    let (o, run, mine, own) =
      try_constraint_lem geom a p ok (ap (λ d. d.address) (sd ∙ sym psd))
        (ap (λ d. d.address) (ed ∙ sym ped)) in
    (o, ap (λ x. try_constraint geom (some (constraint_of a)) (some x)) same ∙ run, both o mine own)
  where
    both :
        (o : Option Geometry)
        → Solved geom (constraint_of a) o
        → Solved geom (constraint_of p) o
        → Found geom (constraint_of a) P o
    both none mine own = tt
    both (some g) mine own = (mine, asks g own.valid own.solves)

pub product_pos : (m n : ℕ) → 1 ≤ m → 1 ≤ n → 0 < m * n
product_pos m zero h k = absurd (omega arith)
product_pos m (suc n) h k = omega arith

pub size-nonzero : (bios : ChsGeometry) → IsBios bios → eqb_ℤ (cylinder_size bios) (pos 0) ≡ false
unfolding cylinder_size
size-nonzero bios ok =
    let h = product_pos bios.sectors bios.heads ok.sectors ok.heads in ground arith

-- `_best_solution` returns one of the two.
pub best_solution_lem :
    (geom : Geometry) (c : Constraint) (P : Geometry → Type 0) (bios : ChsGeometry)
    (a b : Option Geometry)
    → IsBios bios
    → Found geom c P a
    → Found geom c P b
    → Finds geom c P (best_solution geom bios a b)
unfolding best_solution
best_solution_lem geom c P bios none b ok fa fb = (b, refl, fb)
best_solution_lem geom c P bios (some a) none ok fa fb = (some a, refl, fa)
best_solution_lem geom c P bios (some a) (some b) ok fa fb =
    elim (Bool-cases (is_better geom bios a b)) [
      | inl e ↦ (some a, rw (size-nonzero bios ok, e) refl, fa)
      | inr e ↦ (some b, rw (size-nonzero bios ok, e) refl, fb)
    ]

pub accept_solution-Found :
    (geom : Geometry) (c : Constraint) (P : Geometry → Type 0) (o : Option Geometry)
    → Found geom c P o
    → IsAligned geom c (accept_solution geom o)
      × ((accept_solution geom o).0 ≡ true → P (accept_solution geom o).1)
unfolding accept_solution
accept_solution-Found geom c P none h = (record { taken = λ e. cc; kept = λ e. refl }, λ e. cc)
accept_solution-Found geom c P (some g) (solved, p) =
    let same = assign_lem geom c g solved in
    (accept_solution_lem geom c (some g) solved, λ e. subst P (sym same) p)
