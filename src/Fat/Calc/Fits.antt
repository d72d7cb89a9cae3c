-- ===== src/Fat/Calc/Fits.antt =====
-- The tables and clusters of `calc_sizes` within the region.
use uparted.Base.{
  ap, arith, eq_of_parts, inl, inr, int_laws, max_ℤ, max_ℤ_bounds, one_sided, pos, some, subst, sym,
  ℕ, ℤ, ◌*ℤ◌, ◌*◌, ◌+ℤ◌, ◌+◌, ◌-ℤ◌, ◌-◌, ◌/ℤ◌, ◌/◌, ◌<◌, ◌^◌, ◌∙◌, ◌≡◌, ◌≤ℤ◌, ◌≤◌,
}
use uparted.Fat.{FatType, fat12, fat16, fat32}
use uparted.Fat.Calc.{
  calc_sizes, data_fat_space, final_sizes, max_cluster_count, round_space, sectors_for, size_round,
  to_32,
}
use uparted.Fat.Calc.Bounds.{final_sizes_lem, max_cluster_count-lt, pos-/ℤ, sectors_for_lem}
use uparted.Fat.Calc.Rounds.{excess, final_fits, table_sectors, tables}
use uparted.Fat.Calc.Search.{pos-*ℤ}
use native.Mathlib.Nat.{div-mul-le_self, div-le_self, mod-eq_of_lt}

pos_minus : (a b : ℕ) → b ≤ a → pos a -ℤ pos b ≡ pos (a - b)
pos_minus a b h = let o = one_sided (pos a -ℤ pos b) in eq_of_parts _ _ (omega int_laws)

round_space_lem :
    (t : FatType) (d f : ℕ)
    → tables t * f ≤ d
    → round_space t (pos d) (pos f) ≡ pos (d - tables t * f)
unfolding round_space
round_space_lem fat12 d f h = ap (λ a. pos d -ℤ a) (pos-*ℤ 2 f) ∙ pos_minus d (2 * f) h
round_space_lem fat16 d f h = ap (λ a. pos d -ℤ a) (pos-*ℤ 2 f) ∙ pos_minus d (2 * f) h
round_space_lem fat32 d f h =
    let e : 1 * f ≡ f = omega arith in pos_minus d f (omega arith) ∙ ap (λ n. pos (d - n)) (sym e)

to_32_pos : (d c : ℕ) → d + 2 < 2 ^ 32 → to_32 (pos d /ℤ pos c) ≡ d / c
unfolding to_32
to_32_pos d c h = let low = div-le_self d c in ap to_32 (pos-/ℤ d c) ∙ mod-eq_of_lt (omega arith)

size_round_lem :
    (t : FatType) (d c f : ℕ)
    → tables t * f ≤ d
    → d + 2 < 2 ^ 32
    → size_round t (pos d) (pos c) (pos f) ≡ pos (table_sectors t ((d - tables t * f) / c))
unfolding size_round
size_round_lem t d c f h small =
    let low = div-le_self (d - tables t * f) c in
    ap (λ a. sectors_for t (to_32 (a /ℤ pos c))) (round_space_lem t d f h)
    ∙ ap (sectors_for t) (to_32_pos (d - tables t * f) c (omega arith))
    ∙ sectors_for_lem t _ (omega arith)

-- The sectors before the tables.
abbrev reserved : FatType → ℕ → ℕ
reserved fat12 root = 1
reserved fat16 root = 1 + root
reserved fat32 root = 32

reserved_pos : (t : FatType) (root : ℕ) → 0 < reserved t root
reserved_pos fat12 root = omega arith
reserved_pos fat16 root = omega arith
reserved_pos fat32 root = omega arith

data_fat_space_lem :
    (t : FatType) (size align root : ℕ)
    → reserved t root + align ≤ size
    → data_fat_space (pos size) (pos align) t (pos root) ≡ pos (size - (reserved t root + align))
unfolding data_fat_space
data_fat_space_lem fat12 size align root h =
    let o = one_sided (pos size -ℤ pos 1 -ℤ pos align) in eq_of_parts _ _ (omega int_laws)
data_fat_space_lem fat16 size align root h =
    let o = one_sided (pos size -ℤ pos 1 -ℤ pos align -ℤ pos root) in
    eq_of_parts _ _ (omega int_laws)
data_fat_space_lem fat32 size align root h =
    let o = one_sided (pos size -ℤ pos 32 -ℤ pos align) in eq_of_parts _ _ (omega int_laws)

rounds_run :
    (t : FatType) (d c : ℕ)
    → 0 < c
    → 2 ≤ d
    → d + 2 < 2 ^ 32
    → size_round t (pos d) (pos c) (size_round t (pos d) (pos c) (pos 0))
      ≡ pos (table_sectors t ((d - tables t * table_sectors t (d / c)) / c))
rounds_run t d c h some_space room =
    let e : d - tables t * 0 ≡ d = omega arith in
    let (_, small, _) = final_fits t d c h some_space in
    ap (size_round t (pos d) (pos c))
      (size_round_lem t d c 0 (omega arith) room ∙ ap (λ n. pos (table_sectors t (n / c))) e)
    ∙ size_round_lem t d c (table_sectors t (d / c)) small room

in_region :
    (before clusters both size more : ℕ) (x : ℤ)
    → x ≡ pos both
    → before + clusters + both ≤ size + more
    → pos (before + clusters) +ℤ x ≤ℤ pos (size + more)
in_region before clusters both size more x e h = omega int_laws

-- On a region with at least 2 sectors behind the reserved ones, but fewer than 2^32 - 1 in all,
-- what `calc_sizes` returns for a positive cluster size fits into the region with FAT32: the
-- reserved sectors, those for the alignment, the two tables and the clusters. With FAT12 and FAT16
-- it goes beyond the end by 2 sectors at most.
pub calc_sizes-fits :
    (t : FatType) (size align root c count : ℕ) (fat : ℤ)
    → reserved t root + align + 2 ≤ size
    → size + 1 < 2 ^ 32
    → 0 < c
    → calc_sizes (pos size) (pos align) t (pos root) (pos c) ≡ some (count, fat)
    → pos (reserved t root + align + count * c) +ℤ pos 2 *ℤ fat ≤ℤ pos (size + excess t)
unfolding calc_sizes
calc_sizes-fits t size align root c count fat room small h e =
    let d = size - (reserved t root + align) in
    let taken = reserved_pos t root in
    let space = data_fat_space_lem t size align root (omega arith) in
    let f = table_sectors t ((d - tables t * table_sectors t (d / c)) / c) in
    let run : final_sizes t (pos d) (pos c) (pos f) ≡ some (count, fat) =
      subst (λ x. final_sizes t (pos d) (pos c) x ≡ some (count, fat))
        (rounds_run t d c h (omega arith) (omega arith))
        (subst
          (λ x.
            final_sizes t x (pos c) (size_round t x (pos c) (size_round t x (pos c) (pos 0)))
            ≡ some (count, fat))
          space e) in
    let (made, larger, ok) = final_sizes_lem t (pos d) (pos c) (pos f) count fat run in
    let (tables_fit, _, raised) = final_fits t d c h (omega arith) in
    let n : count ≡ (d - 2 * f) / c =
      made
      ∙ ap (λ x. to_32 (x /ℤ pos c))
          (ap (λ a. pos d -ℤ a) (pos-*ℤ 2 f) ∙ pos_minus d (2 * f) tables_fit)
      ∙ to_32_pos (d - 2 * f) c (omega arith) in
    let held = div-mul-le_self (d - 2 * f) c in
    let clusters : count * c ≤ d - 2 * f = subst (λ k. k * c ≤ d - 2 * f) (sym n) held in
    let few = ok.few in
    let high = max_cluster_count-lt t in
    let raise =
      subst (λ k. k ≤ max_cluster_count t → 2 * table_sectors t k ≤ 2 * f + excess t) (sym n) raised
        few in
    let (least, least', either) = max_ℤ_bounds (pos (table_sectors t count)) (pos f) in
    let fat_is = larger ∙ ap (λ x. max_ℤ x (pos f)) (sectors_for_lem t count (omega arith)) in
    elim either [
      | inl a ↦
          let twice = ap (λ x. pos 2 *ℤ x) (fat_is ∙ a) ∙ pos-*ℤ 2 (table_sectors t count) in
          in_region (reserved t root + align) (count * c) (2 * table_sectors t count) size
            (excess t) (pos 2 *ℤ fat) twice (omega arith)
      | inr a ↦
          let twice = ap (λ x. pos 2 *ℤ x) (fat_is ∙ a) ∙ pos-*ℤ 2 f in
          in_region (reserved t root + align) (count * c) (2 * f) size (excess t) (pos 2 *ℤ fat)
            twice (omega arith)
    ]
