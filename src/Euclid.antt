-- ===== src/Euclid.antt =====
-- apps/parted/libparted/cs/natmath.c: Euclid's algorithm, plain and extended. The recursion takes
-- fuel; `none` means that it ran out, which Euclid/Laws.antt shows it does not.
pub mod Laws
pub mod Bounds
use uparted.Base.{
  Option, eqb_ℤ, if◌then◌else◌, ltb, ltb_ℤ, neg_part, negsuc, none, pos, pos_part, some, suc, zero,
  ℕ, ℤ, ◌%ℤ◌, ◌%◌, ◌*ℤ◌, ◌+◌, ◌-ℤ◌, ◌-◌, ◌/ℤ◌, ◌^◌,
}

-- `ped_greatest_common_divisor`
unfoldable pub greatest_common_divisor : ℕ → ℤ → ℤ → Option ℤ
greatest_common_divisor zero a b = none
greatest_common_divisor (suc fuel) a b =
    let swapped = greatest_common_divisor fuel b a in
    let reduced = greatest_common_divisor fuel b (a %ℤ b) in
    if ltb_ℤ a b then swapped else if eqb_ℤ b (pos 0) then some a else reduced

-- `EuclidTriple`
pub record EuclidTriple : Type 0 where
  pub gcd : ℤ
  pub x : ℤ
  pub y : ℤ

-- The conversion of a `long long` to an `int` that the call of `extended_euclid` makes.
unfoldable pub to_int : ℤ → ℤ
to_int a =
    let w = (pos_part a + 2 ^ 32 - neg_part a % 2 ^ 32) % 2 ^ 32 in
    if ltb w (2 ^ 31) then pos w else negsuc (2 ^ 32 - w - 1)

-- What `extended_euclid` makes of the result of its recursive call.
unfoldable pub combine : ℤ → ℤ → EuclidTriple → EuclidTriple
combine a b tmp = record { gcd = tmp.gcd; x = tmp.y; y = tmp.x -ℤ a /ℤ b *ℤ tmp.y }

-- `extended_euclid`, on arguments that are `int`s.
unfoldable pub extended_euclid : ℕ → ℤ → ℤ → Option EuclidTriple
extended_euclid zero a b = none
extended_euclid (suc fuel) a b =
    let rest = extended_euclid fuel b (a %ℤ b) in
    if eqb_ℤ b (pos 0)
    then some (record { gcd = a; x = pos 1; y = pos 0 })
    else elim rest [ none ↦ none | some tmp ↦ some (combine a b tmp) ]
