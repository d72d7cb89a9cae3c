-- ===== src/Align/Inside.antt =====
-- `ped_alignment_is_aligned` and the moves of `_closest_inside_geometry`.
use uparted.Base.{
  *ℤ-zero, Bool-cases, arith, eqb_ℤ, eqb_ℤ→eq, false, inl, inr, int_laws, ltb_ℤ, ltb_ℤ→le, ltb_ℤ→lt,
  mod-eq-zero_iff, negsuc, pos, refl, subst, suc, true, zero, zero-*ℤ, ℕ, ℤ, ◌+ℤ◌, ◌-ℤ◌, ◌<ℤ◌, ◌<◌,
  ◌↔◌, ◌∙◌, ◌∣ℤ◌, ◌≡◌, ◌≤ℤ◌,
}
use uparted.Geom.{Geometry}
use uparted.Rounding.Laws.{dvd_gap, round_up_to_lem}
use uparted.Euclid.Laws.{dvd-add, dvd-sub}
use uparted.Align.{Alignment, is_aligned, move_down, move_up}
use uparted.Align.Aligned.{Aligned}

-- `ped_alignment_is_aligned` decides whether a sector satisfies the alignment.
pub is_aligned_iff :
    (a : Alignment) (s : ℤ) → pos 0 ≤ℤ a.grain_size → (is_aligned a s ≡ true) ↔ Aligned a s
unfolding is_aligned
is_aligned_iff a s h = decide a.grain_size refl h
  where
    decide : (g : ℤ) → a.grain_size ≡ g → pos 0 ≤ℤ g → (is_aligned a s ≡ true) ↔ Aligned a s
    decide (negsuc n) e h = absurd (omega arith)
    decide (pos zero) e h = rw e (
      λ t. let same = eqb_ℤ→eq s a.offset t in (pos 0, rw zero-*ℤ (omega int_laws)),
      λ (k, d). let z = *ℤ-zero k in point (d ∙ z),
    )
      where
        point : s -ℤ a.offset ≡ pos 0 → eqb_ℤ s a.offset ≡ true
        point d = let same : s ≡ a.offset = omega int_laws in ground arith
    decide (pos (suc g)) e h =
        let test = mod-eq-zero_iff (s -ℤ a.offset) (suc g) in
        let grained : eqb_ℤ (pos (suc g)) (pos 0) ≡ false = ground arith in
        rw (e, grained) (λ t. test.0 (eqb_ℤ→eq _ (pos 0) t), λ d. rw (test.1 d) (ground arith))

-- `r` is the first aligned sector from `s` and the start of the geometry on.
pub record IsNext (a : Alignment) (start s r : ℤ) : Type 0 where
  pub aligned : Aligned a r
  pub from_start : start ≤ℤ r
  pub from_s : s ≤ℤ r
  pub least : (t : ℤ) → Aligned a t → start ≤ℤ t → s ≤ℤ t → r ≤ℤ t

-- `r` is the last aligned sector up to `s` and the end of the geometry.
pub record IsPrevious (a : Alignment) (stop s r : ℤ) : Type 0 where
  pub aligned : Aligned a r
  pub to_stop : r ≤ℤ stop
  pub to_s : r ≤ℤ s
  pub greatest : (t : ℤ) → Aligned a t → t ≤ℤ stop → t ≤ℤ s → t ≤ℤ r

module _ (o : ℤ) (g : ℕ) (positive : 0 < g) where
  abbrev pub grained : Alignment
  grained = record { offset = o; grain_size = pos g }

  pub Aligned-order : (r t : ℤ) → Aligned grained r → Aligned grained t → r <ℤ t +ℤ pos g → r ≤ℤ t
  Aligned-order r t p q h =
      let d : pos g ∣ℤ t -ℤ r =
        subst (◌∣ℤ◌ (pos g)) (omega int_laws) (dvd-sub (pos g) (t -ℤ o) (r -ℤ o) q p) in
      let n = dvd_gap (t -ℤ r) g d (omega int_laws) in omega int_laws

  pub Aligned-add : (r n : ℤ) → Aligned grained r → pos g ∣ℤ n → Aligned grained (r +ℤ n)
  Aligned-add r n p q = subst (◌∣ℤ◌ (pos g)) (omega int_laws) (dvd-add (pos g) (r -ℤ o) n p q)

  Aligned-sub : (r n : ℤ) → Aligned grained r → pos g ∣ℤ n → Aligned grained (r -ℤ n)
  Aligned-sub r n p q = subst (◌∣ℤ◌ (pos g)) (omega int_laws) (dvd-sub (pos g) (r -ℤ o) n p q)

  pub move_up-IsNext :
      (geom : Geometry) (s : ℤ)
      → Aligned grained s
      → IsNext grained geom.start s (move_up grained geom s)
  unfolding move_up
  move_up-IsNext geom s d = elim (Bool-cases (ltb_ℤ s geom.start)) [
    | inr e ↦ rw e (record {
      aligned = d;
      from_start = ltb_ℤ→le s geom.start e;
      from_s = omega arith;
      least = λ t p q h. h;
    })
    | inl e ↦
        let before = ltb_ℤ→lt s geom.start e in
        let (m, low, high) = round_up_to_lem (geom.start -ℤ s) g positive in
        rw e (record {
          aligned = Aligned-add s _ d m;
          from_start = omega int_laws;
          from_s = omega int_laws;
          least = λ t p q h. Aligned-order _ t (Aligned-add s _ d m) p (omega int_laws);
        })
  ]

  pub move_down-IsPrevious :
      (geom : Geometry) (s : ℤ)
      → Aligned grained s
      → IsPrevious grained geom.stop s (move_down grained geom s)
  unfolding move_down
  move_down-IsPrevious geom s d = elim (Bool-cases (ltb_ℤ geom.stop s)) [
    | inr e ↦ rw e (record {
      aligned = d;
      to_stop = ltb_ℤ→le geom.stop s e;
      to_s = omega arith;
      greatest = λ t p q h. h;
    })
    | inl e ↦
        let past = ltb_ℤ→lt geom.stop s e in
        let (m, low, high) = round_up_to_lem (s -ℤ geom.stop) g positive in
        rw e (record {
          aligned = Aligned-sub s _ d m;
          to_stop = omega int_laws;
          to_s = omega int_laws;
          greatest = λ t p q h. Aligned-order t _ p (Aligned-sub s _ d m) (omega int_laws);
        })
  ]
