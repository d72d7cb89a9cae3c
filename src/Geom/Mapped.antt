-- ===== src/Geom/Mapped.antt =====
-- `ped_geometry_map` of geom.c, with the transfers that use its result.
use uparted.Base.{
  Bool-cases, arith, if◌then◌else◌, inl, inr, int_laws, leb_ℤ, ltb_ℤ, ltb_ℤ→le, ltb_ℤ→lt, negsuc,
  none, pos, refl, some, sym, ℤ, ◌+ℤ◌, ◌-ℤ◌, ◌↔◌, ◌∙◌, ◌≡◌, ◌≢◌, ◌≤ℤ◌, ◌⊎◌,
}
use uparted.Geom.{Geometry, map_sector, test_sector_inside, transfer}
use uparted.Geom.Laws.{Contains, IsValid, SameDev}

-- The sector that is wanted, `sector` behind the start of `src`, lies in `dst` or just behind it.
abbrev pub IsNear : Geometry → Geometry → ℤ → Type 0
IsNear dst src sector =
    (dst.start ≤ℤ src.start +ℤ sector) × (src.start +ℤ sector ≤ℤ dst.stop +ℤ pos 1)

-- `ped_geometry_map` between two regions of one device, for a sector of `src`.
module _ (dst src : Geometry) (sector : ℤ) (valid : IsValid dst) (same : SameDev dst src) where
  abbrev distance : ℤ
  distance = src.start +ℤ sector -ℤ dst.start

  mapped : Contains src sector → IsNear dst src sector → map_sector dst src sector ≡ distance
  unfolding map_sector
  mapped c (lo, hi) =
      let l = valid.last in
      let low : pos 0 ≤ℤ distance = omega int_laws in
      let high : distance ≤ℤ dst.length = omega int_laws in ground arith

  mapped_or_far :
      (Contains src sector × IsNear dst src sector)
      ⊎ ((¬ (Contains src sector × IsNear dst src sector)) × (map_sector dst src sector ≡ negsuc 0))
  unfolding map_sector
  mapped_or_far = elim (Bool-cases (test_sector_inside src sector)) [
    | inr e ↦ inr (λ (c, _). (let d = c in ground arith), rw e refl)
    | inl e ↦ elim (Bool-cases (ltb_ℤ distance (pos 0))) [
      | inl f ↦ inr (
        λ (_, (lo, _)). (let h = ltb_ℤ→lt distance (pos 0) f in omega int_laws),
        rw (e, f) (ground arith),
      )
      | inr f ↦ elim (Bool-cases (ltb_ℤ dst.length distance)) [
        | inl g ↦ inr (
          λ (_, (_, hi)).
              (let h = ltb_ℤ→lt dst.length distance g in let l = valid.last in omega int_laws),
          rw (e, f, g) (ground arith),
        )
        | inr g ↦
            let lo = ltb_ℤ→le distance (pos 0) f in
            let hi = ltb_ℤ→le dst.length distance g in
            let l = valid.last in inl (ground arith, (omega int_laws, omega int_laws))
      ]
    ]
  ]

  -- `ped_geometry_map` returns -1 if and only if the number does not lie in `src`, as a sector of
  -- the device, or the sector that is wanted, that number behind the start of `src`, is neither in
  -- `dst` nor the one just behind it. A transfer of one sector of `dst` at any other result is one
  -- of the sector that is wanted, and is refused if that is the one behind `dst`.
  pub map_sector-transfer :
      ((map_sector dst src sector ≡ negsuc 0) ↔ (¬ (Contains src sector × IsNear dst src sector)))
      × (map_sector dst src sector ≢ negsuc 0
          → transfer dst (map_sector dst src sector) (pos 1) ≡ (
              if leb_ℤ (src.start +ℤ sector) dst.stop
              then some (src.start +ℤ sector, pos 1)
              else none))
  unfolding transfer
  map_sector-transfer = elim mapped_or_far [
    | inr (far, gone) ↦ ((λ e. far, λ n. gone), λ found. absurd (found gone))
    | inl (c, near) ↦
        let e = mapped c near in
        let (lo, hi) = near in
        let nonneg : pos 0 ≤ℤ distance = omega int_laws in
        let real : dst.start +ℤ distance ≡ src.start +ℤ sector = omega int_laws in
        let last : src.start +ℤ sector +ℤ pos 1 -ℤ pos 1 ≡ src.start +ℤ sector = omega int_laws in
        (
          (λ gone. let z = sym e ∙ gone in absurd (ground arith), λ far. absurd (far (c, near))),
          λ found. rw (e, real, last) (ground arith),
        )
  ]
