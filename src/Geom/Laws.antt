-- ===== src/Geom/Laws.antt =====
-- The operations of geom.c against the sets of sectors that the geometries stand for.
use uparted.Base.{
  +ℤ_parts, Bool-cases, arith, inl, inr, int_laws, ltb_ℤ, max_ℤ, max_ℤ_bounds, min_ℤ, min_ℤ_bounds,
  none, pos, refl, some, true, ℤ, ◌+ℤ◌, ◌-ℤ◌, ◌<ℤ◌, ◌↔◌, ◌≡◌, ◌≤ℤ◌, -ℤ_parts,
}
use uparted.Geom.{
  Device, Geometry, init, intersect, new, same_dev, set, set_start, test_inside, test_overlap,
  test_sector_inside, transfer,
}

-- A geometry as `ped_geometry_set` leaves it.
pub record IsValid (g : Geometry) : Type 0 where
  pub nonempty : pos 1 ≤ℤ g.length
  pub last : g.stop ≡ g.start +ℤ g.length -ℤ pos 1

-- The sector `s` lies in the region.
abbrev pub Contains : Geometry → ℤ → Type 0
Contains g s = (g.start ≤ℤ s) × (s ≤ℤ g.stop)

-- The two regions are on one device.
abbrev pub SameDev : Geometry → Geometry → Type 0
SameDev a b = a.dev.address ≡ b.dev.address

pub test_sector_inside_iff : (g : Geometry) (s : ℤ) → (test_sector_inside g s ≡ true) ↔ Contains g s
unfolding test_sector_inside
test_sector_inside_iff g s = (λ h. ground arith, λ h. ground arith)

pub set_lem :
    (g : Geometry) (start length : ℤ)
    → (length <ℤ pos 1 → set g start length ≡ none)
      × (pos 1 ≤ℤ length
          → (h : Geometry) × (set g start length ≡ some h)
            × IsValid h
            × (h.start ≡ start)
            × (h.length ≡ length)
            × (h.dev ≡ g.dev))
unfolding set
set_lem g start length = (
  λ h. ground arith,
  λ h. (_, ground arith, record { nonempty = h; last = refl }, refl, refl, refl),
)

pub IsValid-le : {g : Geometry} → IsValid g → g.start ≤ℤ g.stop
IsValid-le v = omega int_laws

-- What a geometry that the constructors return holds.
pub record Made (dev : Device) (start length : ℤ) (g : Geometry) : Type 0 where
  pub dev_eq : g.dev ≡ dev
  pub start_eq : g.start ≡ start
  pub length_eq : g.length ≡ length
  pub valid : IsValid g

pub new-some :
    (dev : Device) (start length : ℤ) {g : Geometry}
    → new dev start length ≡ some g
    → Made dev start length g
unfolding new
new-some dev start length h = elim (Bool-cases (ltb_ℤ length (pos 1))) [
  | inl e ↦ ground arith
  | inr e ↦ ground arith
]

pub init-Made :
    (dev : Device) (start length : ℤ)
    → pos 1 ≤ℤ length
    → (g : Geometry) × (init dev start length ≡ some g) × Made dev start length g
unfolding init
init-Made dev start length h = (
  record { dev = dev; start = start; length = length; stop = start +ℤ length -ℤ pos 1 },
  ground arith,
  record {
    dev_eq = refl;
    start_eq = refl;
    length_eq = refl;
    valid = record { nonempty = h; last = refl };
  },
)

pub Made-stop :
    (dev : Device) (start stop : ℤ) {g : Geometry}
    → Made dev start (stop -ℤ start +ℤ pos 1) g
    → g.stop ≡ stop
Made-stop dev start stop m = rw (m.valid.last, m.start_eq, m.length_eq) (omega int_laws)

pub new-none : (dev : Device) (start length : ℤ) → new dev start length ≡ none → length <ℤ pos 1
unfolding new
new-none dev start length h = ground arith

module _ (a b : Geometry) where
  abbrev lo : ℤ
  lo = max_ℤ a.start b.start

  abbrev hi : ℤ
  hi = min_ℤ a.stop b.stop

  intersect-Made :
      (g : Geometry)
      → intersect (some a) (some b) ≡ some g
      → SameDev a b × Made a.dev lo (hi -ℤ lo +ℤ pos 1) g
  unfolding intersect
  intersect-Made g h = elim (Bool-cases (same_dev a b)) [
    | inr e ↦ ground arith
    | inl e ↦ elim (Bool-cases (ltb_ℤ hi lo)) [
      | inl f ↦ ground arith
      | inr f ↦ (ground arith, new-some a.dev lo (hi -ℤ lo +ℤ pos 1) (ground arith))
    ]
  ]

  -- `ped_geometry_intersect` returns a valid region that holds exactly the common sectors.
  pub intersect_sound :
      (g : Geometry)
      → intersect (some a) (some b) ≡ some g
      → IsValid g
        × SameDev a b
        × (g.dev ≡ a.dev)
        × ((s : ℤ) → Contains g s ↔ (Contains a s × Contains b s))
  intersect_sound g h =
      let (d, m) = intersect-Made g h in
      let start : g.start ≡ lo = m.start_eq in
      let stop : g.stop ≡ hi = Made-stop a.dev lo hi m in
      (
        m.valid,
        d,
        m.dev_eq,
        λ s. (
          λ c. ground (arith, max_ℤ_bounds a.start b.start, min_ℤ_bounds a.stop b.stop),
          λ c. ground (arith, max_ℤ_bounds a.start b.start, min_ℤ_bounds a.stop b.stop),
        ),
      )

  -- It returns NULL for two regions of a device only if no sector is in both.
  pub intersect-none :
      SameDev a b → intersect (some a) (some b) ≡ none → (s : ℤ) → Contains a s → ¬ Contains b s
  unfolding intersect
  intersect-none d h s p q = ground (
    arith,
    max_ℤ_bounds a.start b.start,
    min_ℤ_bounds a.stop b.stop,
    +ℤ_parts (hi -ℤ lo) (pos 1),
    -ℤ_parts hi lo,
    new-none a.dev lo (hi -ℤ lo +ℤ pos 1),
  )

  -- `ped_geometry_test_overlap` finds out whether two valid regions are on one device and share a
  -- sector.
  pub test_overlap_iff :
      IsValid a
      → IsValid b
      → (test_overlap a b ≡ true) ↔ (SameDev a b × ((s : ℤ) × Contains a s × Contains b s))
  unfolding test_overlap
  test_overlap_iff va vb =
      (λ h. (ground arith, (lo, (common h).0, (common h).1)), λ h. ground arith)
    where
      common : test_overlap a b ≡ true → Contains a lo × Contains b lo
      common h = ground (arith, max_ℤ_bounds a.start b.start, IsValid-le va, IsValid-le vb)

  -- `ped_geometry_test_inside a b` finds out whether `b`, a valid region, is on the device of `a`
  -- and all its sectors are sectors of `a`.
  pub test_inside_iff :
      IsValid b → (test_inside a b ≡ true) ↔ (SameDev a b × ((s : ℤ) → Contains b s → Contains a s))
  unfolding test_inside
  test_inside_iff vb = (
    λ h. (ground arith, λ s p. ground arith),
    λ h. ground (arith, h.1 b.start, h.1 b.stop, IsValid-le vb),
  )

module _ (g : Geometry) (valid : IsValid g) where
  -- `ped_geometry_set_start` on a valid region keeps its end: the result holds the sectors from the
  -- new start to the old end. A start behind the end is refused.
  pub set_start_lem :
      (start : ℤ)
      → (start ≤ℤ g.stop
          → (h : Geometry) × (set_start g start ≡ some h)
            × ((s : ℤ) → Contains h s ↔ ((start ≤ℤ s) × (s ≤ℤ g.stop))))
        × (g.stop <ℤ start → set_start g start ≡ none)
  unfolding set_start
  set_start_lem start = (
    λ h.
        let (r, e, v, s, l, d) = (set_lem g start n).1 (omega int_laws) in
        let at_end : r.stop ≡ g.stop = ends r v s l in (r, e, λ x. rw (s, at_end) (λ c. c, λ c. c)),
    λ h. (set_lem g start n).0 (omega int_laws),
  )
    where
      n : ℤ
      n = g.stop -ℤ start +ℤ pos 1

      ends : (r : Geometry) → IsValid r → r.start ≡ start → r.length ≡ n → r.stop ≡ g.stop
      ends r v s l = rw (v.last, s, l) (omega int_laws)

  -- For an offset that is not negative and a positive count, the transfer that a read or a write
  -- asks of the device is granted if and only if every sector of it lies in the region.
  pub transfer_iff :
      (offset count : ℤ)
      → pos 0 ≤ℤ offset
      → pos 1 ≤ℤ count
      → (transfer g offset count ≡ some (g.start +ℤ offset, count))
        ↔ ((i : ℤ) → pos 0 ≤ℤ i → i <ℤ count → Contains g (g.start +ℤ offset +ℤ i))
  unfolding transfer
  transfer_iff offset count ho hc = (
    λ h i hi hj.
        let f : g.start +ℤ offset +ℤ count -ℤ pos 1 ≤ℤ g.stop = ground arith in omega int_laws,
    λ all.
        let last = all (count -ℤ pos 1) (omega int_laws) (omega int_laws) in
        let fits : g.start +ℤ offset +ℤ count -ℤ pos 1 ≤ℤ g.stop = omega int_laws in ground arith,
  )
