-- ===== src/Constraint/Meet.antt =====
-- The members of the constraint that `ped_constraint_intersect` returns, which the search for a
-- solution needs.
use uparted.Base.{
  *ℤ_comm, Option, ap, arith, done, int_laws, max_ℤ, max_ℤ_bounds, min_ℤ, negsuc, none, one-*ℤ, pos,
  pos_part, pos_part-*ℤ, refl, some, some-injective, subst, suc, sym, zero, zero-*ℤ, ℤ, ◌+ℤ◌, ◌-ℤ◌,
  ◌↔◌, ◌∙◌, ◌∣ℤ◌, ◌≡◌, ◌≤ℤ◌,
}
use uparted.Geom
use uparted.Geom.{Geometry}
use uparted.Geom.Laws.{Contains, IsValid, IsValid-le, init-Made, intersect_sound}
use uparted.Align
use uparted.Align.{Alignment}
use uparted.Align.Aligned.{Aligned, AlignedTo, GrainNonneg}
use uparted.Align.Intersect.{IsSmall}
use uparted.Constraint.{Constraint, intersect, intersect_with, new}
use uparted.Euclid.Laws.{dvd-sub}
use uparted.Constraint.Window.{IsProper}
use uparted.Constraint.Build.{duplicate_align}
use uparted.Constraint.Common.{IsUsable, Parts, constraint_of}

-- `ped_constraint_intersect a b` has all members, with the common sectors of the ranges and of the
-- alignments.
pub record IsMeet (a b : Parts) (c : Constraint) : Type 0 where
  pub sa : Alignment
  pub ea : Alignment
  pub sr : Geometry
  pub er : Geometry
  pub same : c ≡ record {
    start_align = some sa;
    end_align = some ea;
    start_range = some sr;
    end_range = some er;
    min_size = max_ℤ a.lo b.lo;
    max_size = min_ℤ a.hi b.hi;
  }
  pub start_grain : pos 0 ≤ℤ sa.grain_size
  pub end_grain : pos 0 ≤ℤ ea.grain_size
  pub start_keeps : (t : ℤ) → Aligned sa t ↔ (Aligned a.sa t × Aligned b.sa t)
  pub end_keeps : (t : ℤ) → Aligned ea t ↔ (Aligned a.ea t × Aligned b.ea t)
  pub sr_valid : IsValid sr
  pub er_valid : IsValid er
  pub sr_in : (t : ℤ) → Contains sr t → Contains a.sr t × Contains b.sr t
  pub er_in : (t : ℤ) → Contains er t → Contains a.er t × Contains b.er t
  pub sr_dev : sr.dev ≡ a.sr.dev
  pub er_dev : er.dev ≡ a.er.dev

pub duplicate-Made :
    (r : Geometry)
    → IsValid r
    → (q : Geometry) × (Geom.duplicate r ≡ some q) × Geom.Laws.Made r.dev r.start r.length q
unfolding Geom.duplicate
duplicate-Made r v = init-Made r.dev r.start r.length v.nonempty

pub Contains-Made :
    (r q : Geometry)
    → IsValid r
    → Geom.Laws.Made r.dev r.start r.length q
    → (t : ℤ) → Contains q t
    → Contains r t
Contains-Made r q v m t c =
    let u = m.valid.last in
    let w = v.last in let s = m.start_eq in let l = m.length_eq in (omega int_laws, omega int_laws)

module _ (a b : Parts) where
  made_lem :
      (s e : Alignment) (sr er : Geometry)
      → pos 0 ≤ℤ s.grain_size
      → pos 0 ≤ℤ e.grain_size
      → ((t : ℤ) → Aligned s t ↔ (Aligned a.sa t × Aligned b.sa t))
      → ((t : ℤ) → Aligned e t ↔ (Aligned a.ea t × Aligned b.ea t))
      → Geom.intersect (some a.sr) (some b.sr) ≡ some sr
      → Geom.intersect (some a.er) (some b.er) ≡ some er
      → IsMeet a b (new (some s) (some e) sr er (max_ℤ a.lo b.lo) (min_ℤ a.hi b.hi))
  unfolding new
  made_lem s e sr er ns ne ps pe is ie =
      let (sv, _, sd, in_start) = intersect_sound a.sr b.sr sr is in
      let (ev, _, ed, in_end) = intersect_sound a.er b.er er ie in
      let (s', s_made, s_grain, s_keeps) = duplicate_align s ns in
      let (e', e_made, e_grain, e_keeps) = duplicate_align e ne in
      let (sr', sr_made, sm) = duplicate-Made sr sv in
      let (er', er_made, em) = duplicate-Made er ev in
      record {
        sa = s';
        ea = e';
        sr = sr';
        er = er';
        same = rw (s_made, e_made, sr_made, er_made) refl;
        start_grain = s_grain;
        end_grain = e_grain;
        start_keeps = λ t. (λ d. (ps t).0 ((s_keeps t).0 d), λ d. (s_keeps t).1 ((ps t).1 d));
        end_keeps = λ t. (λ d. (pe t).0 ((e_keeps t).0 d), λ d. (e_keeps t).1 ((pe t).1 d));
        sr_valid = sm.valid;
        er_valid = em.valid;
        sr_in = λ t c. (in_start t).0 (Contains-Made sr sr' sv sm t c);
        er_in = λ t c. (in_end t).0 (Contains-Made er er' ev em t c);
        sr_dev = sm.dev_eq ∙ sd;
        er_dev = em.dev_eq ∙ ed;
      }

  cases_lem :
      (s e : Option Alignment) (sr er : Option Geometry)
      → ((t : ℤ) → AlignedTo s t ↔ (Aligned a.sa t × Aligned b.sa t))
      → ((t : ℤ) → AlignedTo e t ↔ (Aligned a.ea t × Aligned b.ea t))
      → GrainNonneg s
      → GrainNonneg e
      → Geom.intersect (some a.sr) (some b.sr) ≡ sr
      → Geom.intersect (some a.er) (some b.er) ≡ er
      → (c : Constraint) → intersect_with (constraint_of a) (constraint_of b) s e sr er ≡ some c
      → IsMeet a b c
  unfolding intersect_with
  cases_lem none e sr er ps pe ns ne is ie c h = cc
  cases_lem (some s) none sr er ps pe ns ne is ie c h = cc
  cases_lem (some s) (some e) none er ps pe ns ne is ie c h = cc
  cases_lem (some s) (some e) (some sr) none ps pe ns ne is ie c h = cc
  cases_lem (some s) (some e) (some sr) (some er) ps pe ns ne is ie c h =
      subst (IsMeet a b) (some-injective _ _ h) (made_lem s e sr er ns ne ps pe is ie)

  -- The call comes back, and what it returns has these members.
  pub meet_lem :
      (o : Option Constraint) × (intersect (some (constraint_of a)) (some (constraint_of b))
        ≡ done o)
      × ((c : Constraint) → o ≡ some c → IsMeet a b c)
  unfolding intersect
  meet_lem =
      let (s, s_run, s_grain, s_keeps) =
        Align.Intersect.intersect_common a.sa b.sa a.sa_small b.sa_small in
      let (e, e_run, e_grain, e_keeps) =
        Align.Intersect.intersect_common a.ea b.ea a.ea_small b.ea_small in
      (_, rw (s_run, e_run) refl, cases_lem s e _ _ s_keeps e_keeps s_grain e_grain refl refl)

module _ {a b : Parts} {c : Constraint} (m : IsMeet a b c) (ok : IsUsable a) where
  low : pos 0 ≤ℤ m.sr.start
  low =
      let h = (m.sr_in m.sr.start (omega arith, IsValid-le m.sr_valid)).0 in
      let f = ok.start_first in omega arith

  high : pos 0 ≤ℤ m.er.start
  high =
      let h = (m.er_in m.er.start (omega arith, IsValid-le m.er_valid)).0 in
      let f = ok.end_first in omega arith

  least : pos 1 ≤ℤ max_ℤ a.lo b.lo
  least = let f = ok.smallest in let h = max_ℤ_bounds a.lo b.lo in omega arith

  -- So the search may run on it.
  pub meet-IsProper : IsProper c m.sa m.ea m.sr m.er
  meet-IsProper = record {
    start_align = ap (λ x. x.start_align) m.same;
    end_align = ap (λ x. x.end_align) m.same;
    start_range = ap (λ x. x.start_range) m.same;
    end_range = ap (λ x. x.end_range) m.same;
    start_grain = m.start_grain;
    end_grain = m.end_grain;
    start_first = low;
    end_first = high;
    smallest = subst (λ x. pos 1 ≤ℤ x) (sym (ap (λ x. x.min_size) m.same)) least;
  }

-- A grain divides the distance of two aligned sectors.
Aligned-apart : (a : Alignment) (s t : ℤ) → Aligned a s → Aligned a (s +ℤ t) → a.grain_size ∣ℤ t
Aligned-apart a s t p q =
    subst (λ x. a.grain_size ∣ℤ x) (omega int_laws)
      (dvd-sub a.grain_size (s +ℤ t -ℤ a.offset) (s -ℤ a.offset) q p)

Aligned-offset : (a : Alignment) → Aligned a a.offset
Aligned-offset a = (pos 0, rw (zero-*ℤ a.grain_size) (omega int_laws))

Aligned-next : (a : Alignment) → Aligned a (a.offset +ℤ a.grain_size)
Aligned-next a = (pos 1, rw (one-*ℤ a.grain_size) (omega int_laws))

-- Alignments with the same sectors have the same grain, here bounded from one side.
small_dvd : (m n : ℤ) → pos 0 ≤ℤ m → pos 0 ≤ℤ n → m ∣ℤ n → n ∣ℤ m → m ≤ℤ n
small_dvd (negsuc m) n hm hn d e = absurd (omega arith)
small_dvd (pos m) (negsuc n) hm hn d e = absurd (omega arith)
small_dvd (pos m) (pos zero) hm hn d (k, e) =
    let z = ap pos_part (e ∙ *ℤ_comm k (pos 0) ∙ zero-*ℤ k) in omega arith
small_dvd (pos m) (pos (suc n)) hm hn (pos zero, d) e =
    absurd (let z = d ∙ zero-*ℤ (pos m) in let p = ap pos_part z in omega arith)
small_dvd (pos m) (pos (suc n)) hm hn (pos (suc k), d) e =
    let p = ap pos_part d in let q = pos_part-*ℤ (pos (suc k)) (pos m) in ground arith
small_dvd (pos m) (pos (suc n)) hm hn (negsuc k, d) e =
    absurd (let p = ap pos_part d in let q = pos_part-*ℤ (negsuc k) (pos m) in omega arith)

pub grain_le :
    (a s : Alignment)
    → pos 0 ≤ℤ a.grain_size
    → pos 0 ≤ℤ s.grain_size
    → ((t : ℤ) → Aligned s t ↔ Aligned a t)
    → s.grain_size ≤ℤ a.grain_size
grain_le a s p q same =
    small_dvd s.grain_size a.grain_size q p
      (Aligned-apart s a.offset a.grain_size ((same _).1 (Aligned-offset a))
        ((same _).1 (Aligned-next a)))
      (Aligned-apart a s.offset s.grain_size ((same _).0 (Aligned-offset s))
        ((same _).0 (Aligned-next s)))

-- An alignment with every sector.
abbrev pub IsFree : Alignment → Type 0
IsFree b = (t : ℤ) → Aligned b t

pub one-IsFree : (b : Alignment) → b.grain_size ≡ pos 1 → IsFree b
one-IsFree b e t =
    (t -ℤ b.offset, rw (e, *ℤ_comm (t -ℤ b.offset) (pos 1), one-*ℤ (t -ℤ b.offset)) refl)

same-IsSmall :
    (x s : Alignment)
    → IsSmall x
    → pos 0 ≤ℤ s.grain_size
    → ((t : ℤ) → Aligned s t ↔ Aligned x t)
    → IsSmall s
same-IsSmall x s ok n same = record {
  nonneg = n;
  fits = let h = grain_le x s ok.nonneg n same in let f = ok.fits in omega arith;
}

module _ {a b : Parts} {c : Constraint} (m : IsMeet a b c) where
  -- The intersection is one of the kind that `ped_constraint_intersect` handles.
  abbrev pub Kept : Type 0
  Kept =
      (p : Parts) × (c ≡ constraint_of p)
      × (p.sr ≡ m.sr)
      × (p.er ≡ m.er)
      × (IsUsable a → IsUsable p)

  of_small : IsSmall m.sa → IsSmall m.ea → Kept
  of_small ss es = (
    record {
      sa = m.sa;
      ea = m.ea;
      sr = m.sr;
      er = m.er;
      lo = max_ℤ a.lo b.lo;
      hi = min_ℤ a.hi b.hi;
      sa_small = ss;
      ea_small = es;
      sr_valid = m.sr_valid;
      er_valid = m.er_valid;
    },
    m.same,
    refl,
    refl,
    λ ok. record { start_first = low m ok; end_first = high m ok; smallest = least m ok },
  )

  -- It is, where one of the two constraints has no alignment.
  pub meet-Parts : IsFree b.sa → IsFree b.ea → Kept
  meet-Parts fs fe =
      of_small
        (same-IsSmall a.sa m.sa a.sa_small m.start_grain
          λ t. (λ d. ((m.start_keeps t).0 d).0, λ d. (m.start_keeps t).1 (d, fs t)))
        (same-IsSmall a.ea m.ea a.ea_small m.end_grain
          λ t. (λ d. ((m.end_keeps t).0 d).0, λ d. (m.end_keeps t).1 (d, fe t)))

  pub meet-Parts_left : IsFree a.sa → IsFree a.ea → Kept
  meet-Parts_left fs fe =
      of_small
        (same-IsSmall b.sa m.sa b.sa_small m.start_grain
          λ t. (λ d. ((m.start_keeps t).0 d).1, λ d. (m.start_keeps t).1 (fs t, d)))
        (same-IsSmall b.ea m.ea b.ea_small m.end_grain
          λ t. (λ d. ((m.end_keeps t).0 d).1, λ d. (m.end_keeps t).1 (fe t, d)))
