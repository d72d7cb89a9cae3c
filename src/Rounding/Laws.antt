-- ===== src/Rounding/Laws.antt =====
-- What rounding returns, for a positive grain.
use uparted.Base.{
  +ℤ-*ℤ, Bool-cases, arith, div-add-mod_ℤ, eq_of_parts, eqb_ℤ, eqb_ℤ→eq, inl, inr, int_laws,
  lt_of_le_ne, ltb_ℤ, ltb_ℤ→le, ltb_ℤ→lt, mod-eq-zero_iff, mod_bounds, neg_part, neg_part-*ℤ,
  negsuc, one-*ℤ, pos, pos_part, pos_part-*ℤ, ℕ, ℤ, ◌%ℤ◌, ◌+ℤ◌, ◌-ℤ◌, ◌/ℤ◌, ◌<ℤ◌, ◌<◌, ◌∣ℤ◌, ◌≡◌,
  ◌≢◌, ◌≤ℤ◌, -ℤ-*ℤ,
}
use uparted.Rounding.{abs_mod, round_down_to, round_up_to}

-- `r` is the largest multiple of `g` up to `s`, and the smallest from `s` on.
abbrev pub IsFloor : ℕ → ℤ → ℤ → Type 0
IsFloor g s r = (pos g ∣ℤ r) × (r ≤ℤ s) × (s <ℤ r +ℤ pos g)

abbrev pub IsCeiling : ℕ → ℤ → ℤ → Type 0
IsCeiling g s r = (pos g ∣ℤ r) × (s ≤ℤ r) × (r <ℤ s +ℤ pos g)

pub dvd-sub_mod : (s : ℤ) (g : ℕ) → pos g ∣ℤ s -ℤ s %ℤ pos g
dvd-sub_mod s g = let e = div-add-mod_ℤ s g in (s /ℤ pos g, omega int_laws)

pub dvd-add_self : (n : ℤ) (g : ℕ) → pos g ∣ℤ n → pos g ∣ℤ n +ℤ pos g
dvd-add_self n g (k, e) = (k +ℤ pos 1, rw (+ℤ-*ℤ, e) (let u = one-*ℤ (pos g) in omega int_laws))

pub dvd-sub_self : (n : ℤ) (g : ℕ) → pos g ∣ℤ n → pos g ∣ℤ n -ℤ pos g
dvd-sub_self n g (k, e) = (k -ℤ pos 1, rw (-ℤ-*ℤ, e) (let u = one-*ℤ (pos g) in omega int_laws))

pub abs_mod_nonneg : (s : ℤ) (g : ℕ) → pos 0 ≤ℤ s → abs_mod s (pos g) ≡ s %ℤ pos g
unfolding abs_mod
abs_mod_nonneg s g h = ground arith

pub abs_mod_negative : (s : ℤ) (g : ℕ) → s <ℤ pos 0 → abs_mod s (pos g) ≡ s %ℤ pos g +ℤ pos g
unfolding abs_mod
abs_mod_negative s g h = ground arith

-- Two multiples of the grain that are less than a grain apart are in order.
pub dvd_gap : (n : ℤ) (g : ℕ) → pos g ∣ℤ n → pos 0 <ℤ n +ℤ pos g → pos 0 ≤ℤ n
dvd_gap n g (pos k, e) h = let p = neg_part-*ℤ (pos k) (pos g) in omega int_laws
dvd_gap n g (negsuc k, e) h =
    let p = pos_part-*ℤ (negsuc k) (pos g) in
    let q = neg_part-*ℤ (negsuc k) (pos g) in absurd (omega int_laws)

-- `abs_mod` changes a number by a multiple of the grain.
pub dvd-sub_abs_mod : (s : ℤ) (g : ℕ) → pos g ∣ℤ s -ℤ abs_mod s (pos g)
dvd-sub_abs_mod s g = elim (Bool-cases (ltb_ℤ s (pos 0))) [
  | inl e ↦
      let m = abs_mod_negative s g (ltb_ℤ→lt s (pos 0) e) in
      let (k, d) = dvd-sub_self _ g (dvd-sub_mod s g) in (k, omega int_laws)
  | inr e ↦ rw (abs_mod_nonneg s g (ltb_ℤ→le s (pos 0) e)) (dvd-sub_mod s g)
]

-- Rounding down, off the exact multiples.
IsFloor-of_negative :
    (s : ℤ) (g : ℕ)
    → 0 < g
    → s <ℤ pos 0
    → s %ℤ pos g ≢ pos 0
    → IsFloor g s (s -ℤ (s %ℤ pos g +ℤ pos g))
IsFloor-of_negative s g h n ne =
    let (above, below, _, sign) = mod_bounds s g h in
    let low : s %ℤ pos g ≤ℤ pos 0 = sign (omega arith) in
    let off : pos_part (s %ℤ pos g) ≢ neg_part (s %ℤ pos g) =
      λ e. ne (eq_of_parts _ _ (omega arith)) in
    let (k, e) = dvd-sub_self _ g (dvd-sub_mod s g) in
    ((k, omega int_laws), omega int_laws, omega int_laws)

module _ (s : ℤ) (g : ℕ) (h : 0 < g) where
  -- For a positive grain, and an `s` that is no negative multiple of it, `ped_round_down_to`
  -- returns the largest multiple of the grain up to `s`.
  pub round_down_to_lem : (s <ℤ pos 0 → ¬ (pos g ∣ℤ s)) → IsFloor g s (round_down_to s (pos g))
  unfolding round_down_to
  round_down_to_lem ne =
      let (above, below, same_sign, _) = mod_bounds s g h in
      elim (Bool-cases (ltb_ℤ s (pos 0))) [
        | inr e ↦
            let p = ltb_ℤ→le s (pos 0) e in
            let nonneg = same_sign p in
            rw (abs_mod_nonneg s g p) (dvd-sub_mod s g, omega int_laws, omega int_laws)
        | inl e ↦
            let n = ltb_ℤ→lt s (pos 0) e in
            rw (abs_mod_negative s g n)
              (IsFloor-of_negative s g h n (λ z. ne n ((mod-eq-zero_iff s g).0 z)))
      ]

  -- For a positive grain `ped_round_up_to` returns the smallest multiple of the grain from `s` on.
  pub round_up_to_lem : IsCeiling g s (round_up_to s (pos g))
  unfolding round_up_to
  round_up_to_lem = elim (Bool-cases (eqb_ℤ (s %ℤ pos g) (pos 0))) [
    | inl e ↦ rw e ((mod-eq-zero_iff s g).0 (eqb_ℤ→eq _ _ e), omega arith, omega int_laws)
    | inr e ↦ rw e (
        let off : s %ℤ pos g ≢ pos 0 = λ z. ground arith in
        let (d, low, high) = round_down_to_lem (λ _ d. off ((mod-eq-zero_iff s g).1 d)) in
        let apart : round_down_to s (pos g) ≢ s =
          λ same. off ((mod-eq-zero_iff s g).1 (rw same at d)) in
        let strict : round_down_to s (pos g) <ℤ s = lt_of_le_ne low apart in
        (dvd-add_self _ g d, omega int_laws, omega int_laws))
  ]

  -- At a negative multiple of a positive grain `abs_mod` returns the grain, which is no remainder,
  -- and `ped_round_down_to` returns the multiple before it.
  pub round_down_to_negative :
      s <ℤ pos 0 → pos g ∣ℤ s → (abs_mod s (pos g) ≡ pos g) × (round_down_to s (pos g) ≡ s -ℤ pos g)
  unfolding round_down_to
  round_down_to_negative n d =
      let whole = (mod-eq-zero_iff s g).1 d in
      let m = abs_mod_negative s g n in (omega int_laws, rw m (omega int_laws))
