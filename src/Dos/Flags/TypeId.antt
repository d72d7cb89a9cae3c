-- ===== src/Dos/Flags/TypeId.antt =====
-- The bits of a type: setting the hidden and the lba flag.
use uparted.Base.{
  Bool, Bool-cases, List, [], arith, false, if◌then◌else◌, inl, inr, not, refl, subst, sym, true, ℕ,
  ◌&&◌, ◌==◌, ◌∷◌, ◌≡◌,
}
use uparted.Dos.Flags.{
  hidden_types, is_hidden, is_lba, is_one_of, lba_types, set_hidden, set_lba, supports_hidden,
  supports_lba,
}

unfoldable pub every : (ℕ → Bool) → List ℕ → Bool
every test [] = true
every test (id ∷ ids) = test id && every test ids

-- What holds of each type of a list holds of a type that is one of them.
pub every-is_one_of :
    (test : ℕ → Bool) (ids : List ℕ) (n : ℕ)
    → every test ids ≡ true
    → is_one_of ids n ≡ true
    → test n ≡ true
unfolding every is_one_of
every-is_one_of test [] n all h = cc
every-is_one_of test (id ∷ ids) n all h = elim (Bool-cases (n == id)) [
  | inl e ↦
      let same : n ≡ id = ground arith in
      let first : test id ≡ true = (ground arith) in subst (λ x. test x ≡ true) (sym same) first
  | inr e ↦
      let later : every test ids ≡ true = (ground arith) in
      every-is_one_of test ids n later (rw e at h)
]

same : Bool → Bool → Bool
same true c = c
same false c = not c

same-eq : (b c : Bool) → same b c ≡ true → b ≡ c
unfolding same
same-eq true true h = refl
same-eq true false h = cc
same-eq false true h = cc
same-eq false false h = refl

hidden_test : Bool → ℕ → Bool
unfolding same
hidden_test b n =
    let (status, changed) = set_hidden n b in
    status
    && (same (is_hidden changed) b
        && (same (is_lba changed) (is_lba n) && (set_hidden changed (is_hidden n)).1 == n))

hidden_rows : (b : Bool) → every (hidden_test b) hidden_types ≡ true
unfolding every hidden_test set_hidden is_hidden is_lba supports_hidden
hidden_rows true = refl
hidden_rows false = refl

hidden_refused : (n : ℕ) (b : Bool) → supports_hidden n ≡ false → set_hidden n b ≡ (false, n)
unfolding set_hidden
hidden_refused n b h = rw h refl

-- On a type that supports the hidden flag, `dos_type_id_set_hidden` sets it to the state, keeps the
-- lba flag, and is undone by setting the hidden flag as it was. On any other type it fails and
-- changes nothing.
pub set_hidden_lem :
    (n : ℕ) (b : Bool)
    → (supports_hidden n ≡ true
        → ((set_hidden n b).0 ≡ true)
          × (is_hidden (set_hidden n b).1 ≡ b)
          × (is_lba (set_hidden n b).1 ≡ is_lba n)
          × ((set_hidden (set_hidden n b).1 (is_hidden n)).1 ≡ n))
      × (supports_hidden n ≡ false → set_hidden n b ≡ (false, n))
unfolding hidden_test supports_hidden
set_hidden_lem n b = (
  λ h.
      let row = every-is_one_of (hidden_test b) hidden_types n (hidden_rows b) h in
      (ground arith, same-eq _ _ (ground arith), same-eq _ _ (ground arith), ground arith),
  hidden_refused n b,
)

lba_test : Bool → ℕ → Bool
unfolding same
lba_test b n =
    let (status, changed) = set_lba n b in
    status
    && (same (is_lba changed) (if is_hidden n then is_lba n else b)
        && (same (is_hidden changed) (is_hidden n) && (set_lba changed (is_lba n)).1 == n))

lba_rows : (b : Bool) → every (lba_test b) lba_types ≡ true
unfolding every lba_test set_lba is_hidden is_lba
lba_rows true = refl
lba_rows false = refl

lba_refused : (n : ℕ) (b : Bool) → supports_lba n ≡ false → set_lba n b ≡ (false, n)
unfolding set_lba
lba_refused n b h = rw h refl

-- On a type that supports the lba flag, `dos_type_id_set_lba` returns true, keeps the hidden flag,
-- and is undone by setting the lba flag as it was. It sets the flag to the state only if the type is
-- not hidden, and leaves it as it was otherwise. On any other type it fails and changes nothing.
pub set_lba_lem :
    (n : ℕ) (b : Bool)
    → (supports_lba n ≡ true
        → ((set_lba n b).0 ≡ true)
          × (is_lba (set_lba n b).1 ≡ (if is_hidden n then is_lba n else b))
          × (is_hidden (set_lba n b).1 ≡ is_hidden n)
          × ((set_lba (set_lba n b).1 (is_lba n)).1 ≡ n))
      × (supports_lba n ≡ false → set_lba n b ≡ (false, n))
unfolding lba_test supports_lba
set_lba_lem n b = (
  λ h.
      let row = every-is_one_of (lba_test b) lba_types n (lba_rows b) h in
      (ground arith, same-eq _ _ (ground arith), same-eq _ _ (ground arith), ground arith),
  lba_refused n b,
)
