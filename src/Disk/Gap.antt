-- ===== src/Disk/Gap.antt =====
-- The loop of `_partition_get_overlap_constraint` on an ordered list.
use uparted.Base.{
  Bool-cases, List, [], arith, false, inl, inr, int_laws, leb_ℤ, ltb_ℤ, pos, refl, subst, sym, true,
  ℕ, ℤ, ◌+ℤ◌, ◌-ℤ◌, ◌<ℤ◌, ◌==◌, ◌||◌, ◌∷◌, ◌≡◌, ◌≤ℤ◌, ◌⊎◌,
}
use uparted.Geom.{Geometry}
use uparted.Disk.{find_gap, gap_end, skip_self}
use uparted.Disk.Sorted.{All, Ordered}

module _ {A : Type 0} (geom : A → Geometry) (address : A → ℕ) (part : ℕ) where
  -- The member of the list is the partition itself, or it lies outside of the gap.
  abbrev pub Outside : ℤ → ℤ → A → Type 0
  Outside first last walk =
      (address walk ≡ part) ⊎ (((geom walk).stop <ℤ first) ⊎ (last <ℤ (geom walk).start))

  rest-Outside :
      (first last lo : ℤ) (l : List A) → Ordered geom lo l → last <ℤ lo → All (Outside first last) l
  rest-Outside first last lo [] ord lt = tt
  rest-Outside first last lo (walk ∷ rest) (a, b, ord) lt = (
    inr (inr (omega int_laws)),
    rest-Outside first last ((geom walk).stop +ℤ pos 1) rest ord (omega int_laws),
  )

  skip_found :
      (walk : A) (rest : List A)
      → (address walk == part) ≡ true
      → skip_self address part (walk ∷ rest) ≡ rest
  unfolding skip_self
  skip_found walk rest e = rw e refl

  skip_other :
      (walk : A) (rest : List A)
      → (address walk == part) ≡ false
      → skip_self address part (walk ∷ rest) ≡ walk ∷ rest
  unfolding skip_self
  skip_other walk rest e = rw e refl

  in_front :
      (first max_end lo : ℤ) (l : List A)
      → Ordered geom lo l
      → All (Outside first (gap_end geom max_end l)) l
  unfolding gap_end
  in_front first max_end lo [] ord = tt
  in_front first max_end lo (walk ∷ rest) (a, b, ord) = (
    inr (inr (omega int_laws)),
    rest-Outside first ((geom walk).start -ℤ pos 1) ((geom walk).stop +ℤ pos 1) rest ord
        (omega int_laws),
  )

  after_gap :
      (first max_end lo : ℤ) (l : List A)
      → Ordered geom lo l
      → All (Outside first (gap_end geom max_end (skip_self address part l))) l
  after_gap first max_end lo [] ord = tt
  after_gap first max_end lo (walk ∷ rest) (a, b, ord) = elim (Bool-cases (address walk == part)) [
    | inl e ↦
        let same : address walk ≡ part = ground arith in
        subst (λ r. All (Outside first (gap_end geom max_end r)) (walk ∷ rest))
          (sym (skip_found walk rest e))
          (inl same, in_front first max_end ((geom walk).stop +ℤ pos 1) rest ord)
    | inr e ↦
        subst (λ r. All (Outside first (gap_end geom max_end r)) (walk ∷ rest))
          (sym (skip_other walk rest e)) (in_front first max_end lo (walk ∷ rest) (a, b, ord))
  ]

  -- The three ways in which the loop meets a member.
  gap_self :
      (start min_start : ℤ) (walk : A) (rest : List A)
      → (ltb_ℤ (geom walk).start start || leb_ℤ (geom walk).start min_start) ≡ true
      → (address walk == part) ≡ true
      → find_gap geom address part start min_start (walk ∷ rest)
        ≡ find_gap geom address part start min_start rest
  unfolding find_gap
  gap_self start min_start walk rest e f = rw (e, f) refl

  gap_other :
      (start min_start : ℤ) (walk : A) (rest : List A)
      → (ltb_ℤ (geom walk).start start || leb_ℤ (geom walk).start min_start) ≡ true
      → (address walk == part) ≡ false
      → find_gap geom address part start min_start (walk ∷ rest)
        ≡ find_gap geom address part start ((geom walk).stop +ℤ pos 1) rest
  unfolding find_gap
  gap_other start min_start walk rest e f = rw (e, f) refl

  gap_here :
      (start min_start : ℤ) (walk : A) (rest : List A)
      → (ltb_ℤ (geom walk).start start || leb_ℤ (geom walk).start min_start) ≡ false
      → find_gap geom address part start min_start (walk ∷ rest) ≡ (min_start, walk ∷ rest)
  unfolding find_gap
  gap_here start min_start walk rest e = rw e refl

  no_gap : (start min_start : ℤ) → min_start ≤ℤ (find_gap geom address part start min_start []).0
  unfolding find_gap
  no_gap start min_start = omega arith

  -- Each partition of the list lies outside of the gap.
  abbrev pub IsClear : ℤ → ℤ → List A → ℤ × List A → Type 0
  IsClear min_start max_end l gap =
      (min_start ≤ℤ gap.0)
      × All (Outside gap.0 (gap_end geom max_end (skip_self address part gap.1))) l

  -- The start of the gap lies behind each partition that the loop passes, and does not move back.
  pub find_gap_lem :
      (start min_start max_end lo : ℤ) (l : List A)
      → Ordered geom lo l
      → min_start ≤ℤ lo
      → IsClear min_start max_end l (find_gap geom address part start min_start l)
  find_gap_lem start min_start max_end lo [] ord le = (no_gap start min_start, tt)
  find_gap_lem start min_start max_end lo (walk ∷ rest) (a, b, ord) le =
      elim (Bool-cases (ltb_ℤ (geom walk).start start || leb_ℤ (geom walk).start min_start)) [
        | inl e ↦ elim (Bool-cases (address walk == part)) [
          | inl f ↦
              let same : address walk ≡ part = ground arith in
              let (grows, all) =
                find_gap_lem start min_start max_end ((geom walk).stop +ℤ pos 1) rest ord
                  (omega int_laws) in
              subst (IsClear min_start max_end (walk ∷ rest))
                (sym (gap_self start min_start walk rest e f)) (grows, (inl same, all))
          | inr f ↦
              let (grows, all) =
                find_gap_lem start ((geom walk).stop +ℤ pos 1) max_end ((geom walk).stop +ℤ pos 1)
                  rest ord (omega arith) in
              subst (IsClear min_start max_end (walk ∷ rest))
                (sym (gap_other start min_start walk rest e f))
                (omega int_laws, (inr (inl (omega int_laws)), all))
        ]
        | inr e ↦
            subst (IsClear min_start max_end (walk ∷ rest))
              (sym (gap_here start min_start walk rest e))
              (omega arith, after_gap min_start max_end lo (walk ∷ rest) (a, b, ord))
      ]
