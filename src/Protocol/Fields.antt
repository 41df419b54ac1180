-- ===== src/Protocol/Fields.antt =====
-- What is safe to send: a field without separators.
use system_programming_team.Prelude.{
  ℕ, ◌≡◌, ◌≢◌, refl, ap, [], ◌∷◌, arith, false, true, Bytes, All, Lacks, length, if◌then◌else◌,
  Bool-cases, inl, inr,
}
use system_programming_team.Protocol.{is_separator, sanitize_field}

-- A sanitized field has the length of the field and no separator in it, and a field that has none
-- is not changed.
pub sanitize_field_lem :
    (s : Bytes)
    → (length (sanitize_field s) ≡ length s)
      × All (λ c. is_separator c ≡ false) (sanitize_field s)
      × (All (λ c. is_separator c ≡ false) s → sanitize_field s ≡ s)
unfolding sanitize_field
sanitize_field_lem [] = (refl, tt, λ _. refl)
sanitize_field_lem (c ∷ s) =
    let (n, safe, same) = sanitize_field_lem s in
    (ground (arith, n), (byte c, safe), λ h. rw (h.0, same h.1))
  where
    byte : (c : ℕ) → is_separator (if is_separator c then b'_' else c) ≡ false
    byte c = elim (Bool-cases (is_separator c)) [ inl e ↦ rw e | inr e ↦ rw e e ]

pub safe-Lacks :
    (b : ℕ) (s : Bytes) → is_separator b ≡ true → All (λ c. is_separator c ≡ false) s → Lacks b s
safe-Lacks b [] h a = tt
safe-Lacks b (c ∷ s) h a = ((λ e. different b c h a.0 e), safe-Lacks b s h a.1)
  where
    different : (b c : ℕ) → is_separator b ≡ true → is_separator c ≡ false → c ≢ b
    different b c h k e = let q : is_separator c ≡ is_separator b = ap is_separator e in cc

pub sanitize_field-ne-nil : (s : Bytes) → s ≢ [] → sanitize_field s ≢ []
unfolding sanitize_field
sanitize_field-ne-nil [] h = h
sanitize_field-ne-nil (c ∷ s) h = λ e. cc
