-- ===== src/Align/Intersect/Lcm.antt =====
-- Common multiples from the coefficients of Euclid's algorithm.
use uparted.Base.{
  *ℤ-+ℤ, *ℤ-pos_cancel, *ℤ_assoc, *ℤ_comm, *ℤ_shuffle, +ℤ-*ℤ, ap, ap₂, pos, sym, ℕ, ℤ, ◌*ℤ◌, ◌+ℤ◌,
  ◌<◌, ◌∎, ◌∙◌, ◌∣ℤ◌, ◌≡◌, ◌≡⟨◌⟩◌,
}

-- Two numbers, a common multiple and a divisor as in Euclid's algorithm.
module _ (m n l x y : ℤ) (g : ℕ) (g_pos : 0 < g) (gm : pos g ∣ℤ m) (gn : pos g ∣ℤ n)
    (lcm : l *ℤ pos g ≡ m *ℤ n) (bezout : pos g ≡ x *ℤ m +ℤ y *ℤ n) where
  pub dvd-lcm_left : m ∣ℤ l
  dvd-lcm_left =
      let (k, e) = gn in (k, *ℤ-pos_cancel l (k *ℤ m) g g_pos (lcm ∙ rw (e, *ℤ_comm k m, *ℤ_assoc)))

  pub dvd-lcm_right : n ∣ℤ l
  dvd-lcm_right =
      let (k, e) = gm in
      (k, *ℤ-pos_cancel l (k *ℤ n) g g_pos (lcm ∙ rw (e, *ℤ_assoc, *ℤ_comm (pos g) n, *ℤ_assoc)))

  pub lcm-dvd : (u : ℤ) → m ∣ℤ u → n ∣ℤ u → l ∣ℤ u
  lcm-dvd u (j, p) (k, q) = (
    x *ℤ k +ℤ y *ℤ j,
    *ℤ-pos_cancel _ _ g g_pos (
        u *ℤ pos g
        ≡⟨ ap (λ t. u *ℤ t) bezout ⟩ u *ℤ (x *ℤ m +ℤ y *ℤ n)
        ≡⟨ *ℤ-+ℤ u _ _ ⟩ u *ℤ (x *ℤ m) +ℤ u *ℤ (y *ℤ n)
        ≡⟨ ap₂ ◌+ℤ◌ left right ⟩ x *ℤ k *ℤ (m *ℤ n) +ℤ y *ℤ j *ℤ (m *ℤ n)
        ≡⟨ sym (+ℤ-*ℤ _ _ (m *ℤ n)) ⟩ (x *ℤ k +ℤ y *ℤ j) *ℤ (m *ℤ n)
        ≡⟨ ap (λ t. (x *ℤ k +ℤ y *ℤ j) *ℤ t) (sym lcm) ⟩ (x *ℤ k +ℤ y *ℤ j) *ℤ (l *ℤ pos g)
        ≡⟨ sym (*ℤ_assoc _ l (pos g)) ⟩ (x *ℤ k +ℤ y *ℤ j) *ℤ l *ℤ pos g ∎),
  )
    where
      left : u *ℤ (x *ℤ m) ≡ x *ℤ k *ℤ (m *ℤ n)
      left = ap (λ t. t *ℤ (x *ℤ m)) q ∙ *ℤ_shuffle k n x m

      right : u *ℤ (y *ℤ n) ≡ y *ℤ j *ℤ (m *ℤ n)
      right = ap (λ t. t *ℤ (y *ℤ n)) p ∙ *ℤ_shuffle j m y n ∙ ap (λ t. y *ℤ j *ℤ t) (*ℤ_comm n m)
