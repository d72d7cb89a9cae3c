-- ===== src/Align/Exact/Init.antt =====
-- The alignments that `ped_alignment_init` makes, for `ped_alignment_intersect`.
use uparted.Base.{
  Bool-cases, arith, inl, inr, int_laws, ltb_ℤ, ltb_ℤ→le, ltb_ℤ→lt, mod_bounds, nat_abs,
  nat_abs_parts, one_sided, pos, refl, some, some-injective, subst, suc, sym, zero, ℕ, ℤ, ◌%ℤ◌,
  ◌+ℤ◌, ◌^◌, ◌∙◌, ◌≡◌, ◌≤◌,
}
use uparted.Rounding.{abs_mod}
use uparted.Rounding.Laws.{abs_mod_negative, abs_mod_nonneg}
use uparted.Align.{Alignment, init}
use uparted.Align.Exact.{IsTame, NoOverflow, tame-NoOverflow}

abs_mod-le : (s : ℤ) (n : ℕ) → nat_abs (abs_mod s (pos (suc n))) ≤ suc n
abs_mod-le s n = elim (Bool-cases (ltb_ℤ s (pos 0))) [
  | inl e ↦
      let low = ltb_ℤ→lt s (pos 0) e in
      let (over, under, keeps, falls) = mod_bounds s (suc n) (omega arith) in
      let last = falls (omega int_laws) in
      let side = one_sided (s %ℤ pos (suc n) +ℤ pos (suc n)) in
      let parts = nat_abs_parts (s %ℤ pos (suc n) +ℤ pos (suc n)) in
      rw (abs_mod_negative s (suc n) low) (omega int_laws)
  | inr e ↦
      let high = ltb_ℤ→le s (pos 0) e in
      let (over, under, keeps, falls) = mod_bounds s (suc n) (omega arith) in
      let first = keeps high in rw (abs_mod_nonneg s (suc n) high) (ground arith)
]

-- What it makes for a grain of at most 2^20 sectors, such as a cylinder, a track or a grain of 0 or
-- 1, from an offset of at most 2^61.
pub init-IsTame :
    (offset : ℤ) (n : ℕ) (a : Alignment)
    → n ≤ 2 ^ 20
    → nat_abs offset ≤ 2 ^ 61
    → init offset (pos n) ≡ some a
    → IsTame a
unfolding init
init-IsTame offset zero a h k e =
    subst IsTame (some-injective _ _ e)
      (record { nonneg = omega arith; grain = omega arith; remainder = inl refl; offset = k })
init-IsTame offset (suc n) a h k e =
    let small = abs_mod-le offset n in
    let made : init offset (pos (suc n))
        ≡ some (record { offset = abs_mod offset (pos (suc n)); grain_size = pos (suc n) }) =
      ground arith in
    subst IsTame (some-injective _ _ (sym made ∙ e)) (record {
      nonneg = omega arith;
      grain = omega arith;
      remainder = inr (omega arith);
      offset = omega arith;
    })

-- No intersection with such an alignment overflows.
pub init-NoOverflow :
    (given : Alignment) (offset : ℤ) (n : ℕ) (a : Alignment)
    → IsTame given
    → n ≤ 2 ^ 20
    → nat_abs offset ≤ 2 ^ 61
    → init offset (pos n) ≡ some a
    → NoOverflow given a
init-NoOverflow given offset n a tame h k e =
    tame-NoOverflow given a tame (init-IsTame offset n a h k e)
