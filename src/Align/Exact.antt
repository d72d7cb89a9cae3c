-- ===== src/Align/Exact.antt =====
-- The numbers that `ped_alignment_intersect` computes, against the range of `long long`.
pub mod Init
use native.Mathlib.Nat.{mul-le-mul}
use uparted.Base.{
  *ℤ-zero, Bool-cases, ap, arith, if◌then◌else◌, inl, inr, int_laws, ltb_ℤ, ltb_ℤ→le, ltb_ℤ→lt,
  nat_abs, neg_part, one-*ℤ, pos, pos_part, refl, some, some-injective, subst, suc, sym, zero,
  zero-*ℤ, ℕ, ℤ, ◌*ℤ◌, ◌*◌, ◌+ℤ◌, ◌-ℤ◌, ◌/ℤ◌, ◌<ℤ◌, ◌<◌, ◌^◌, ◌∙◌, ◌≡◌, ◌≤ℤ◌, ◌≤◌, ◌⊎◌,
}
use uparted.Euclid.{EuclidTriple, extended_euclid, to_int}
use uparted.Euclid.Bounds.{
  IsBounded, div-mul_le, extended_euclid-IsBounded, nat_abs-*ℤ, nat_abs-+ℤ, nat_abs-/ℤ,
  nat_abs-/ℤ_le, nat_abs_sub,
}
use uparted.Align.{Alignment, intersect}
use uparted.Align.Intersect.Solve.{l, to_int_small}
use uparted.Euclid.Laws.{extended_euclid_lem}
use uparted.Align.Intersect.{IsSmall, Meets, intersect_common, nonneg→pos}

-- A number of the type `long long`.
abbrev pub FitsLong : ℤ → Type 0
FitsLong z = (neg_part z ≤ 2 ^ 63) × (pos_part z < 2 ^ 63)

-- The numbers that the general case computes, with what `extended_euclid` returns for the grains.
pub record IsExact (ao bo ag bg : ℤ) (t : EuclidTriple) : Type 0 where
  pub x_small : nat_abs t.x < 2 ^ 31
  pub y_small : nat_abs t.y < 2 ^ 31
  pub distance : FitsLong (bo -ℤ ao)
  pub x_delta : FitsLong (t.x *ℤ ((bo -ℤ ao) /ℤ t.gcd))
  pub x_term : FitsLong (t.x *ℤ ((bo -ℤ ao) /ℤ t.gcd) *ℤ ag)
  pub new_offset : FitsLong (ao +ℤ t.x *ℤ ((bo -ℤ ao) /ℤ t.gcd) *ℤ ag)
  pub y_delta : FitsLong (t.y *ℤ ((bo -ℤ ao) /ℤ t.gcd))
  pub y_term : FitsLong (t.y *ℤ ((bo -ℤ ao) /ℤ t.gcd) *ℤ bg)
  pub other_offset : FitsLong (bo -ℤ t.y *ℤ ((bo -ℤ ao) /ℤ t.gcd) *ℤ bg)
  pub grains : FitsLong (ag *ℤ bg)

fits_of_abs : (z : ℤ) → nat_abs z < 2 ^ 63 → FitsLong z
fits_of_abs z h = ground arith

-- The bound of the product of a coefficient, the distance over the divisor and a grain.
term_bound :
    (c d : ℤ) (m k l n : ℕ)
    → nat_abs c ≤ k
    → nat_abs d ≤ l
    → m ≤ n
    → (nat_abs (c *ℤ d) ≤ k * l) × (nat_abs (c *ℤ d *ℤ pos m) ≤ k * l * n)
term_bound c d m k l n hc hd hm =
    let inner : nat_abs (c *ℤ d) ≤ k * l = rw (nat_abs-*ℤ c d) (mul-le-mul hc hd) in
    (inner, rw (nat_abs-*ℤ (c *ℤ d) (pos m)) (mul-le-mul inner hm))

module _ (ao bo x y : ℤ) (m n g : ℕ) where
  -- The general case with two positive grains.
  positive-IsExact :
      nat_abs ao ≤ 2 ^ 20
      → nat_abs bo ≤ 2 ^ 20
      → m ≤ 2 ^ 20
      → n ≤ 2 ^ 20
      → nat_abs x ≤ 2 ^ 20
      → nat_abs y ≤ 2 ^ 20
      → IsExact ao bo (pos m) (pos n) (record { gcd = pos g; x = x; y = y })
  positive-IsExact ha hb hm hn hx hy =
      let d = (bo -ℤ ao) /ℤ pos g in
      let apart = nat_abs_sub bo ao in
      let less = nat_abs-/ℤ_le (bo -ℤ ao) g in
      let (xd, xt) = term_bound x d m (2 ^ 20) (2 ^ 21) (2 ^ 20) hx (omega arith) hm in
      let (yd, yt) = term_bound y d n (2 ^ 20) (2 ^ 21) (2 ^ 20) hy (omega arith) hn in
      let sum = nat_abs-+ℤ ao (x *ℤ d *ℤ pos m) in
      let difference = nat_abs_sub bo (y *ℤ d *ℤ pos n) in
      let product : nat_abs (pos m *ℤ pos n) ≤ 2 ^ 20 * 2 ^ 20 =
        rw (nat_abs-*ℤ (pos m) (pos n)) (mul-le-mul hm hn) in
      record {
        x_small = omega arith;
        y_small = omega arith;
        distance = fits_of_abs _ (omega arith);
        x_delta = fits_of_abs _ (omega arith);
        x_term = fits_of_abs _ (omega arith);
        new_offset = fits_of_abs _ (omega arith);
        y_delta = fits_of_abs _ (omega arith);
        y_term = fits_of_abs _ (omega arith);
        other_offset = fits_of_abs _ (omega arith);
        grains = fits_of_abs _ (omega arith);
      }

-- The general case where the smaller grain is zero: the triple of `extended_euclid` is known.
point-IsExact :
    (ao bo : ℤ) (m : ℕ)
    → nat_abs ao ≤ 2 ^ 61
    → nat_abs bo ≤ 2 ^ 61
    → m ≤ 2 ^ 20
    → IsExact ao bo (pos m) (pos 0) (record { gcd = pos m; x = pos 1; y = pos 0 })
point-IsExact ao bo m ha hb hm =
    let d = (bo -ℤ ao) /ℤ pos m in
    let apart = nat_abs_sub bo ao in
    let less = nat_abs-/ℤ_le (bo -ℤ ao) m in
    let back : nat_abs (d *ℤ pos m) ≤ nat_abs (bo -ℤ ao) =
      rw (nat_abs-*ℤ d (pos m), nat_abs-/ℤ (bo -ℤ ao) m) (div-mul_le (nat_abs (bo -ℤ ao)) m) in
    let xd : nat_abs (pos 1 *ℤ d) ≡ nat_abs d = ap nat_abs (one-*ℤ d) in
    let xt : nat_abs (pos 1 *ℤ d *ℤ pos m) ≡ nat_abs (d *ℤ pos m) =
      ap (λ z. nat_abs (z *ℤ pos m)) (one-*ℤ d) in
    let yd : nat_abs (pos 0 *ℤ d) ≡ 0 = ap nat_abs (zero-*ℤ d) in
    let yt : nat_abs (pos 0 *ℤ d *ℤ pos 0) ≡ 0 = ap nat_abs (*ℤ-zero (pos 0 *ℤ d)) in
    let product : nat_abs (pos m *ℤ pos 0) ≡ 0 = ap nat_abs (*ℤ-zero (pos m)) in
    let sum = nat_abs-+ℤ ao (pos 1 *ℤ d *ℤ pos m) in
    let difference = nat_abs_sub bo (pos 0 *ℤ d *ℤ pos 0) in
    record {
      x_small = omega arith;
      y_small = omega arith;
      distance = fits_of_abs _ (omega arith);
      x_delta = fits_of_abs _ (omega arith);
      x_term = fits_of_abs _ (omega arith);
      new_offset = fits_of_abs _ (omega arith);
      y_delta = fits_of_abs _ (omega arith);
      y_term = fits_of_abs _ (omega arith);
      other_offset = fits_of_abs _ (omega arith);
      grains = fits_of_abs _ (omega arith);
    }

-- An alignment as `ped_alignment_init` leaves it, with a grain of at most 2^20 sectors.
pub record IsTame (a : Alignment) : Type 0 where
  pub nonneg : pos 0 ≤ℤ a.grain_size
  pub grain : a.grain_size ≤ℤ pos (2 ^ 20)
  pub remainder : (a.grain_size ≡ pos 0) ⊎ (nat_abs a.offset ≤ 2 ^ 20)
  pub offset : nat_abs a.offset ≤ 2 ^ 61

pub IsTame-IsSmall : (a : Alignment) → IsTame a → IsSmall a
IsTame-IsSmall a ok = record { nonneg = ok.nonneg; fits = let h = ok.grain in omega arith }

-- The general case of `ped_alignment_intersect`, the grain of `a` the larger, stays in range.
abbrev pub Computes : Alignment → Alignment → Type 0
Computes a b =
    let ag = to_int a.grain_size in
    let bg = to_int b.grain_size in
    (t : EuclidTriple) × (extended_euclid (suc (nat_abs bg)) ag bg ≡ some t)
    × IsExact a.offset b.offset a.grain_size b.grain_size t

-- Nothing that `ped_alignment_intersect` computes overflows.
abbrev pub NoOverflow : Alignment → Alignment → Type 0
NoOverflow a b = if ltb_ℤ a.grain_size b.grain_size then Computes b a else Computes a b

computes_lem :
    (ao bo : ℤ) (m n : ℕ)
    → m ≤ 2 ^ 20
    → n ≤ m
    → nat_abs ao ≤ 2 ^ 61
    → nat_abs bo ≤ 2 ^ 61
    → (m ≡ 0) ⊎ (nat_abs ao ≤ 2 ^ 20)
    → (n ≡ 0) ⊎ (nat_abs bo ≤ 2 ^ 20)
    → (t : EuclidTriple) × (extended_euclid (suc n) (pos m) (pos n) ≡ some t)
      × IsExact ao bo (pos m) (pos n) t
unfolding IsBounded extended_euclid
computes_lem ao bo m zero hm o ha hb ra rb = (_, refl, point-IsExact ao bo m ha hb hm)
computes_lem ao bo m (suc n) hm o ha hb ra rb =
    let (t, run, (x, y)) = extended_euclid-IsBounded (suc (suc n)) m (suc n) (omega arith) in
    let (t', run', ok) = extended_euclid_lem (suc (suc n)) m (suc n) (omega arith) in
    let same : t' ≡ t = some-injective _ _ (sym run' ∙ run) in
    let (g, e) = nonneg→pos t.gcd (subst (λ u. pos 0 ≤ℤ u.gcd) same ok.nonneg) in
    let shape : record { gcd = pos g; x = t.x; y = t.y } ≡ t =
      λ i. record { gcd = sym e i; x = t.x; y = t.y } in
    let large = y (omega arith) in
    (
      t,
      run,
      subst (IsExact ao bo (pos m) (pos (suc n))) shape (
          positive-IsExact ao bo t.x t.y m (suc n) g (ground arith) (ground arith) hm (omega arith)
            (omega arith) (omega arith)),
    )

ordered :
    (a b : Alignment) (m n : ℕ)
    → IsTame a
    → IsTame b
    → a.grain_size ≡ pos m
    → b.grain_size ≡ pos n
    → n ≤ m
    → Computes a b
ordered a b m n ta tb am bn o =
    let ha = ta.grain in
    let hb = tb.grain in
    let low : m ≤ 2 ^ 20 = ground arith in
    let (t, run, ok) =
      computes_lem a.offset b.offset m n low o ta.offset tb.offset (zero_grain a m am ta.remainder)
        (zero_grain b n bn tb.remainder) in
    (t, rw (am, bn, to_int_small m (omega arith), to_int_small n (omega arith)) run, rw (am, bn) ok)
  where
    zero_grain :
        (c : Alignment) (k : ℕ)
        → c.grain_size ≡ pos k
        → (c.grain_size ≡ pos 0) ⊎ (nat_abs c.offset ≤ 2 ^ 20)
        → (k ≡ 0) ⊎ (nat_abs c.offset ≤ 2 ^ 20)
    zero_grain c k e (inl z) = inl (ap pos_part (sym e ∙ z))
    zero_grain c k e (inr h) = inr h

-- On such alignments no number overflows.
pub tame-NoOverflow : (a b : Alignment) → IsTame a → IsTame b → NoOverflow a b
tame-NoOverflow a b ta tb =
    let (m, am) = nonneg→pos a.grain_size ta.nonneg in
    let (n, bn) = nonneg→pos b.grain_size tb.nonneg in
    elim (Bool-cases (ltb_ℤ a.grain_size b.grain_size)) [
      | inl e ↦
          let less : a.grain_size <ℤ b.grain_size = ltb_ℤ→lt a.grain_size b.grain_size e in
          rw e (ordered b a n m tb ta bn am (omega int_laws))
      | inr e ↦
          let le : b.grain_size ≤ℤ a.grain_size = ltb_ℤ→le a.grain_size b.grain_size e in
          rw e (ordered a b m n ta tb am bn (omega int_laws))
    ]

-- On alignments as `ped_alignment_init` leaves them, with grains of at most 2^20 sectors and
-- offsets of at most 2^61, `ped_alignment_intersect` comes back. No number that it computes
-- overflows a `long long`, nor a coefficient of `extended_euclid` an `int`. A sector satisfies its
-- result if and only if it satisfies both of the originals, NULL is returned only if no sector
-- does, and the grain of the result is not negative.
pub intersect_lem :
    (a b : Alignment)
    → IsTame a
    → IsTame b
    → NoOverflow a b × Meets a b (intersect (some a) (some b))
intersect_lem a b ta tb =
    (tame-NoOverflow a b ta tb, intersect_common a b (IsTame-IsSmall a ta) (IsTame-IsSmall b tb))
