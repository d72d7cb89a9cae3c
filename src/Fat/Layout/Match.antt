-- ===== src/Fat/Layout/Match.antt =====
-- `fat_calc_align_sectors`
use uparted.Base.{
  Bool-cases, ap₂, arith, eq_of_parts, false, inl, inr, int_laws, leb_ℤ, leb_ℤ→le, ltb_ℤ, ltb_ℤ→le,
  ltb_ℤ→lt, mod_bounds, one_sided, pos, pos_part, refl, some, subst, suc, sym, zero, zero-*ℤ, ℕ, ℤ,
  ◌%ℤ◌, ◌*ℤ◌, ◌+ℤ◌, ◌-ℤ◌, ◌<ℤ◌, ◌<◌, ◌∙◌, ◌∣ℤ◌, ◌≡◌, ◌≤ℤ◌, ◌≤◌, ◌⊎◌, -ℤ-*ℤ,
}
use uparted.Rounding.Laws.{dvd-add_self, dvd-sub_mod, dvd-sub_self}
use uparted.Fat.Layout.{FileSystem, align_sectors, match_clusters, meta_data_size, use_up}

-- `a` sectors before clusters of `g` sectors, from the end of the metadata on, put them in step with
-- the old ones.
abbrev pub InStep : ℕ → ℤ → ℤ → ℤ → Type 0
InStep g old_end new_end a = pos g ∣ℤ new_end +ℤ a -ℤ old_end

dvd-add_more : (g : ℕ) (x y a : ℤ) → InStep g x y a → InStep g x y (a +ℤ pos g)
dvd-add_more g x y a h =
    let e : y +ℤ a -ℤ x +ℤ pos g ≡ y +ℤ (a +ℤ pos g) -ℤ x = eq_of_parts _ _ (omega int_laws) in
    subst (λ n. pos g ∣ℤ n) e (dvd-add_self _ g h)

dvd-sub : (g : ℕ) (a b : ℤ) → pos g ∣ℤ a → pos g ∣ℤ b → pos g ∣ℤ a -ℤ b
dvd-sub g a b (k, e) (l, e') = (k -ℤ l, ap₂ ◌-ℤ◌ e e' ∙ sym (-ℤ-*ℤ k l (pos g)))

dvd-zero : (g : ℕ) → pos g ∣ℤ pos 0
dvd-zero g = (pos 0, sym (zero-*ℤ (pos g)))

match_clusters_lem :
    (g : ℕ) (old_end new_end : ℤ)
    → 0 < g
    → InStep g old_end new_end (match_clusters old_end new_end (pos g))
      × (pos 0 ≤ℤ match_clusters old_end new_end (pos g))
      × (match_clusters old_end new_end (pos g) <ℤ pos g)
unfolding match_clusters
match_clusters_lem g old_end new_end h = elim (Bool-cases (ltb_ℤ new_end old_end)) [
  | inl e ↦
      let d = old_end -ℤ new_end in
      let (_, below, sign, _) = mod_bounds d g h in
      let step = dvd-sub g (pos 0) (d -ℤ d %ℤ pos g) (dvd-zero g) (dvd-sub_mod d g) in
      let same : pos 0 -ℤ (d -ℤ d %ℤ pos g) ≡ new_end +ℤ d %ℤ pos g -ℤ old_end =
        eq_of_parts _ _ (omega int_laws) in
      let past = ltb_ℤ→lt new_end old_end e in
      let low = sign (omega int_laws) in rw e (subst (λ n. pos g ∣ℤ n) same step, low, below)
  | inr e ↦
      let d = new_end -ℤ old_end in
      let r = d %ℤ pos g in
      let (_, below, sign, _) = mod_bounds d g h in
      let past = ltb_ℤ→le new_end old_end e in
      let low = sign (omega int_laws) in
      let (_, below', sign', _) = mod_bounds (pos g -ℤ r) g h in
      let low' = sign' (omega int_laws) in
      let m = (pos g -ℤ r) %ℤ pos g in
      let back = dvd-sub_self _ g (dvd-sub_mod (pos g -ℤ r) g) in
      let step = dvd-sub g (d -ℤ r) (pos g -ℤ r -ℤ m -ℤ pos g) (dvd-sub_mod d g) back in
      let same : d -ℤ r -ℤ (pos g -ℤ r -ℤ m -ℤ pos g) ≡ new_end +ℤ m -ℤ old_end =
        eq_of_parts _ _ (omega int_laws) in
      rw e (subst (λ n. pos g ∣ℤ n) same step, low', below')
]

-- The loop ends, and fewer sectors are left than a cluster has.
abbrev UsedUp : ℕ → ℕ → ℤ → ℤ → ℤ → ℤ → ℤ → Type 0
UsedUp fuel g clusters space align old_end new_end =
    (a : ℤ) × (use_up (suc fuel) (pos g) clusters space align ≡ some a)
    × InStep g old_end new_end a
    × (align ≤ℤ a)
    × (space <ℤ clusters +ℤ a +ℤ pos g)
    × ((a ≡ align) ⊎ (clusters +ℤ a ≤ℤ space))

leb_ℤ→lt : (a b : ℤ) → leb_ℤ a b ≡ false → b <ℤ a
leb_ℤ→lt a b e = ground arith

use_up_stops :
    (fuel g : ℕ) (clusters space align old_end new_end : ℤ)
    → InStep g old_end new_end align
    → leb_ℤ (clusters +ℤ align +ℤ pos g) space ≡ false
    → UsedUp fuel g clusters space align old_end new_end
unfolding use_up
use_up_stops fuel g clusters space align old_end new_end step e =
    let past = leb_ℤ→lt (clusters +ℤ align +ℤ pos g) space e in
    (align, rw e refl, step, omega arith, omega int_laws, inl refl)

use_up_lem :
    (fuel g : ℕ) (clusters space align old_end new_end : ℤ)
    → 0 < g
    → pos_part (space -ℤ clusters -ℤ align) ≤ fuel
    → InStep g old_end new_end align
    → UsedUp fuel g clusters space align old_end new_end
unfolding use_up
use_up_lem zero g clusters space align old_end new_end h enough step =
    elim (Bool-cases (leb_ℤ (clusters +ℤ align +ℤ pos g) space)) [
      | inl e ↦ let room = leb_ℤ→le (clusters +ℤ align +ℤ pos g) space e in absurd (omega int_laws)
      | inr e ↦ use_up_stops zero g clusters space align old_end new_end step e
    ]
use_up_lem (suc fuel) g clusters space align old_end new_end h enough step =
    elim (Bool-cases (leb_ℤ (clusters +ℤ align +ℤ pos g) space)) [
      | inl e ↦
          let room = leb_ℤ→le (clusters +ℤ align +ℤ pos g) space e in
          let o = one_sided (space -ℤ clusters -ℤ (align +ℤ pos g)) in
          let (a, run, step', low, full, either) =
            use_up_lem fuel g clusters space (align +ℤ pos g) old_end new_end h (omega int_laws)
              (dvd-add_more g old_end new_end align step) in
          (
            a,
            rw e run,
            step',
            omega int_laws,
            full,
            inr (elim either [ inl same ↦ omega int_laws | inr fits ↦ fits ]),
          )
      | inr e ↦ use_up_stops (suc fuel) g clusters space align old_end new_end step e
    ]

-- The number of sectors that `fat_calc_align_sectors` returns.
abbrev pub Matched : FileSystem → FileSystem → ℕ → ℤ → Type 0
Matched new_fs old_fs g a =
    let size = meta_data_size new_fs.info in
    let clusters = pos new_fs.info.cluster_count *ℤ pos g in
    InStep g (old_fs.geom.start +ℤ old_fs.info.cluster_offset) (new_fs.geom.start +ℤ size) a
    × (pos 0 ≤ℤ a)
    × (new_fs.geom.length <ℤ size +ℤ a +ℤ clusters +ℤ pos g)
    × ((a <ℤ pos g) ⊎ (size +ℤ a +ℤ clusters ≤ℤ new_fs.geom.length))

-- For a positive cluster size of the new file system, `fat_calc_align_sectors` ends. With the sectors
-- that it returns behind the metadata, the new clusters are in step with the old ones, and fewer
-- sectors than a cluster has are left behind them. If these sectors are more than the clusters'
-- step needs, the clusters lie in the region.
pub align_sectors_lem :
    (new_fs old_fs : FileSystem) (g : ℕ)
    → new_fs.info.cluster_sectors ≡ pos g
    → 0 < g
    → (a : ℤ) × (align_sectors new_fs old_fs ≡ some a) × Matched new_fs old_fs g a
unfolding align_sectors
align_sectors_lem new_fs old_fs g same h =
    let old_end = old_fs.geom.start +ℤ old_fs.info.cluster_offset in
    let new_end = new_fs.geom.start +ℤ meta_data_size new_fs.info in
    let space = new_fs.geom.length -ℤ meta_data_size new_fs.info in
    let clusters = pos new_fs.info.cluster_count *ℤ pos g in
    let (step, low, high) = match_clusters_lem g old_end new_end h in
    let first = match_clusters old_end new_end (pos g) in
    let o = one_sided (space -ℤ clusters -ℤ first) in
    let (a, run, step', above, full, either) =
      use_up_lem (pos_part (space -ℤ clusters)) g clusters space first old_end new_end h
        (omega int_laws) step in
    (
      a,
      subst
          (λ c.
            use_up (suc (pos_part (space -ℤ pos new_fs.info.cluster_count *ℤ c))) c
              (pos new_fs.info.cluster_count *ℤ c) space (match_clusters old_end new_end c)
            ≡ some a)
          (sym same) run,
      (
        step',
        omega arith,
        omega int_laws,
        elim either [ inl e ↦ inl (omega int_laws) | inr e ↦ inr (omega int_laws) ],
      ),
    )
