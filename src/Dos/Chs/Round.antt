-- ===== src/Dos/Chs/Round.antt =====
-- A sector from its cylinder, head and sector.
use uparted.Base.{
  Bool, Bool-cases, ap, ap₂, arith, eq_of_parts, false, if◌then◌else◌, inl, inr, int_laws, ltb,
  ltb_ℤ, one_sided, pos, sym, ℕ, ℤ, ◌%◌, ◌*◌, ◌+ℤ◌, ◌+◌, ◌-ℤ◌, ◌-◌, ◌/◌, ◌<◌, ◌^◌, ◌∙◌, ◌≡◌, ◌≤◌,
}
use uparted.Dos.Chs.{
  ChsGeometry, chs_to_sector, get_cylinder, get_head, get_sector, max_chs_cylinder, pack,
  sector_to_chs,
}
use native.Mathlib.Nat.{div-div-eq-div-mul, div-add-mod', mod-lt, mul_comm}

-- What is read from the bytes.
pack_lem :
    (c h s : ℕ)
    → c < 1024
    → h < 256
    → s < 63
    → (get_cylinder (pack c h s) ≡ c)
      × (get_head (pack c h s) ≡ h)
      × (get_sector (pack c h s) ≡ pos s)
unfolding get_cylinder get_sector pack
pack_lem c h s few_c few_h few_s =
    let low : (s + 1 + c / 2 ^ 8 * 2 ^ 6) % 2 ^ 8 % 2 ^ 6 ≡ s + 1 = omega arith in
    let o = one_sided (pos ((s + 1 + c / 2 ^ 8 * 2 ^ 6) % 2 ^ 8 % 2 ^ 6) -ℤ pos 1) in
    (omega arith, omega arith, eq_of_parts _ _ (omega int_laws))

-- `chs_to_sector` on the numbers that it reads.
abbrev address : ChsGeometry → ℕ → ℕ → ℤ → ℤ
address g c h s =
    if ltb max_chs_cylinder c
    then pos 0
    else if ltb_ℤ s (pos 0)
    then pos 0
    else pos ((c * g.heads + h) * g.sectors) +ℤ s

address_lem :
    (g : ChsGeometry) (c h s : ℕ)
    → address g c h (pos s)
      ≡ (if ltb 1021 c then pos 0 else pos ((c * g.heads + h) * g.sectors + s))
address_lem g c h s =
    let e : ltb_ℤ (pos s) (pos 0) ≡ false = ground arith in
    let o = one_sided (pos ((c * g.heads + h) * g.sectors) +ℤ pos s) in
    let sum : pos ((c * g.heads + h) * g.sectors) +ℤ pos s
        ≡ pos ((c * g.heads + h) * g.sectors + s) =
      eq_of_parts _ _ (omega int_laws) in
    ap₂ (λ (b : Bool) (x : ℤ). if ltb 1021 c then pos 0 else if b then pos 0 else x) e sum

-- The sector that the three numbers stand for.
chs_to_sector-pack :
    (g : ChsGeometry) (c h s : ℕ)
    → c < 1024
    → h < 256
    → s < 63
    → chs_to_sector g (pack c h s)
      ≡ (if ltb 1021 c then pos 0 else pos ((c * g.heads + h) * g.sectors + s))
unfolding chs_to_sector
chs_to_sector-pack g c h s few_c few_h few_s =
    let (cylinder, head, rest) = pack_lem c h s few_c few_h few_s in
    ap₂ (λ a b. address g a b (get_sector (pack c h s))) cylinder head
    ∙ ap (address g c h) rest
    ∙ address_lem g c h s

-- For 1 to 256 heads and 1 to 63 sectors, `chs_to_sector` returns the sector that `sector_to_chs`
-- was called with, if its cylinder is 1021 at most, and 0 otherwise.
pub chs_to_sector-sector_to_chs :
    (g : ChsGeometry) (sector : ℕ)
    → 0 < g.heads
    → g.heads ≤ 256
    → 0 < g.sectors
    → g.sectors ≤ 63
    → chs_to_sector g (sector_to_chs g sector)
      ≡ (if ltb 1021 (sector / (g.heads * g.sectors)) then pos 0 else pos sector)
unfolding sector_to_chs
chs_to_sector-sector_to_chs g sector some_heads heads some_sectors sectors =
    let c = sector / (g.heads * g.sectors) in
    elim (Bool-cases (ltb 1021 c)) [
      | inl far ↦
          let beyond =
            chs_to_sector-pack g 1023 (g.heads - 1) (g.sectors - 1) (omega arith) (omega arith)
              (omega arith) in
          rw (sector_to_chs, far) beyond
      | inr near ↦
          let h = mod-lt (sector / g.sectors) some_heads in
          let s = mod-lt sector some_sectors in
          let here =
            chs_to_sector-pack g c (sector / g.sectors % g.heads) (sector % g.sectors)
              (ground arith) (omega arith) (omega arith) in
          let cylinder : c ≡ sector / g.sectors / g.heads =
            ap (λ n. sector / n) (mul_comm g.heads g.sectors)
            ∙ sym (div-div-eq-div-mul sector g.sectors g.heads) in
          let track : c * g.heads + sector / g.sectors % g.heads ≡ sector / g.sectors =
            ap (λ n. n * g.heads + sector / g.sectors % g.heads) cylinder
            ∙ div-add-mod' (sector / g.sectors) g.heads in
          let all : (c * g.heads + sector / g.sectors % g.heads) * g.sectors + sector % g.sectors
              ≡ sector =
            ap (λ n. n * g.sectors + sector % g.sectors) track ∙ div-add-mod' sector g.sectors in
          rw (sector_to_chs, near) (rw near at here ∙ ap pos all)
    ]
