-- ===== src/Fat/Calc/Bounds.antt =====
-- The sizes that `calc_sizes` returns are within the bounds of the type.
use uparted.Base.{
  Bool, Bool-cases, ap, arith, eq_of_parts, false, inl, inr, int_laws, ltb, max_ℤ, max_ℤ_bounds,
  none-ne-some, one_sided, pos, pos_part, product_laws, refl, some, some-injective, subst, subst₂,
  sym, ℕ, ℤ, ◌*ℤ◌, ◌+ℤ◌, ◌+◌, ◌-ℤ◌, ◌-◌, ◌/ℤ◌, ◌/◌, ◌<◌, ◌^◌, ◌||◌, ◌∙◌, ◌≡◌, ◌≤ℤ◌, ◌≤◌,
}
use uparted.Fat.{FatType, add_32, fat12, fat16, fat32}
use uparted.Fat.Calc.{
  calc_sizes, div_round_up, entries_per_sector, final_sizes, max_cluster_count, min_cluster_count,
  sectors_for, to_32,
}
use native.Mathlib.Nat.{}

-- The number of clusters is one of the type, and a table has an entry for each of them and for the
-- first two.
pub record IsAdmitted (t : FatType) (count : ℕ) (fat : ℤ) : Type 0 where
  pub enough : min_cluster_count t ≤ count
  pub few : count ≤ max_cluster_count t
  pub holds : pos (count + 2) ≤ℤ fat *ℤ pos (entries_per_sector t)

pub max_cluster_count-lt : (t : FatType) → max_cluster_count t < 2 ^ 28
unfolding max_cluster_count
max_cluster_count-lt fat12 = omega arith
max_cluster_count-lt fat16 = omega arith
max_cluster_count-lt fat32 = omega arith

pub pos_of_pos_part : (a : ℤ) → pos 0 ≤ℤ a → a ≡ pos (pos_part a)
pos_of_pos_part a h = let o = one_sided a in eq_of_parts _ _ (omega arith)

pub pos-/ℤ : (m n : ℕ) → pos m /ℤ pos n ≡ pos (m / n)
unfolding ◌/ℤ◌
pos-/ℤ m n = refl

pub div_round_up_lem : (n g : ℕ) → 0 < g → div_round_up (pos n) (pos g) ≡ pos ((n + g - 1) / g)
unfolding div_round_up
div_round_up_lem n g h =
    let e : pos n +ℤ pos g -ℤ pos 1 ≡ pos (n + g - 1) =
      let o = one_sided (pos n +ℤ pos g -ℤ pos 1) in eq_of_parts _ _ (omega int_laws) in
    ap (λ a. a /ℤ pos g) e ∙ pos-/ℤ (n + g - 1) g

-- The sectors of a table, as a natural number.
pub sectors_for_lem :
    (t : FatType) (count : ℕ)
    → count + 2 < 2 ^ 32
    → sectors_for t count ≡ pos ((count + 2 + entries_per_sector t - 1) / entries_per_sector t)
unfolding sectors_for
sectors_for_lem t count h =
    let few : add_32 count 2 ≡ count + 2 = omega arith in
    ap (λ n. div_round_up (pos n) (pos (entries_per_sector t))) few
    ∙ div_round_up_lem (count + 2) (entries_per_sector t) (several t)
  where
    several : (t : FatType) → 0 < entries_per_sector t
    several fat12 = omega arith
    several fat16 = omega arith
    several fat32 = omega arith

-- A table of at least that many sectors has the entries.
holds_lem :
    (t : FatType) (count : ℕ) (fat : ℤ)
    → pos ((count + 2 + entries_per_sector t - 1) / entries_per_sector t) ≤ℤ fat
    → pos (count + 2) ≤ℤ fat *ℤ pos (entries_per_sector t)
holds_lem fat12 count fat h = let o = one_sided fat in omega product_laws
holds_lem fat16 count fat h = let o = one_sided fat in omega product_laws
holds_lem fat32 count fat h = let o = one_sided fat in omega product_laws

pub final_sizes_lem :
    (t : FatType) (space cluster_sectors fat_space : ℤ) (count : ℕ) (fat : ℤ)
    → final_sizes t space cluster_sectors fat_space ≡ some (count, fat)
    → (count ≡ to_32 ((space -ℤ pos 2 *ℤ fat_space) /ℤ cluster_sectors))
      × (fat ≡ max_ℤ (sectors_for t count) fat_space)
      × IsAdmitted t count fat
unfolding final_sizes max_ℤ
final_sizes_lem t space cluster_sectors fat_space count fat e = elim (Bool-cases outside) [
  | inl o ↦ absurd (none-ne-some _ (rw o at e))
  | inr i ↦ let p = some-injective _ _ (rw i at e) in admitted (ap (λ r. r.0) p) (ap (λ r. r.1) p) i
]
  where
    made : ℕ
    made = to_32 ((space -ℤ pos 2 *ℤ fat_space) /ℤ cluster_sectors)

    outside : Bool
    outside = ltb (max_cluster_count t) made || ltb made (min_cluster_count t)

    admitted :
        made ≡ count
        → max_ℤ (sectors_for t made) fat_space ≡ fat
        → outside ≡ false
        → (count ≡ made) × (fat ≡ max_ℤ (sectors_for t count) fat_space) × IsAdmitted t count fat
    admitted same larger inside =
        let high = max_cluster_count-lt t in
        let few : made ≤ max_cluster_count t = ground arith in
        let (least, _, _) = max_ℤ_bounds (sectors_for t made) fat_space in
        let size = sectors_for_lem t made (omega arith) in
        (
          sym same,
          sym larger ∙ ap (λ n. max_ℤ (sectors_for t n) fat_space) same,
          subst₂ (λ n f. IsAdmitted t n f) same larger
              (record {
                enough = ground arith;
                few = few;
                holds =
                    holds_lem t made (max_ℤ (sectors_for t made) fat_space)
                      (subst (λ a. a ≤ℤ max_ℤ (sectors_for t made) fat_space) size least);
              }),
        )

-- A cluster size with which `calc_sizes` succeeds yields a number of clusters within the bounds of
-- the type, and tables that have an entry for each of them and for the first two, whatever its
-- arguments are.
pub calc_sizes_lem :
    (size align : ℤ) (t : FatType) (root cluster_sectors : ℤ) (count : ℕ) (fat : ℤ)
    → calc_sizes size align t root cluster_sectors ≡ some (count, fat)
    → IsAdmitted t count fat
unfolding calc_sizes
calc_sizes_lem size align t root cluster_sectors count fat e =
    let (_, _, ok) = final_sizes_lem t _ cluster_sectors _ count fat e in ok
