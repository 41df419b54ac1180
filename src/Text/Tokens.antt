-- ===== src/Text/Tokens.antt =====
-- Laws of `strtok_r`.
use system_programming_team.Prelude.{
  ℕ, ◌≡◌, ◌≢◌, refl, sym, ap, ◌∙◌, [], ◌∷◌, ◌++◌, arith, append-nil, append_assoc, Bytes, Lacks,
  List, All, All-append, Bool-cases, inl, inr, ◌==◌,
}
use system_programming_team.Text.{tokens_from, tokens, flush}

-- Bytes that are no delimiter go to the token that was begun.
pub tokens_from-append :
    (b : ℕ) (cur p rest : Bytes)
    → Lacks b p
    → tokens_from b cur (p ++ rest) ≡ tokens_from b (cur ++ p) rest
unfolding tokens_from
tokens_from-append b cur [] rest h = rw append-nil
tokens_from-append b cur (c ∷ p) rest h =
    ground (arith, tokens_from-append b (cur ++ c ∷ []) p rest, append_assoc cur (c ∷ []) p)

pub tokens_from_at :
    (b : ℕ) (cur rest : Bytes) → tokens_from b cur (b ∷ rest) ≡ flush cur (tokens_from b [] rest)
unfolding tokens_from
tokens_from_at b cur rest = ground arith

-- A non-empty field up to the next delimiter is a token.
pub tokens_field :
    (b : ℕ) (p rest : Bytes) → p ≢ [] → Lacks b p → tokens b (p ++ b ∷ rest) ≡ p ∷ tokens b rest
unfolding tokens
tokens_field b [] rest ne h = absurd (ne refl)
tokens_field b (c ∷ p) rest ne h =
    rw (tokens_from-append b [] (c ∷ p) (b ∷ rest) h) (tokens_from_at b (c ∷ p) rest)

-- A delimiter in front changes nothing.
pub tokens_delimiter : (b : ℕ) (rest : Bytes) → tokens b (b ∷ rest) ≡ tokens b rest
unfolding tokens
tokens_delimiter b rest = tokens_from_at b [] rest

pub tokens_last : (b : ℕ) (p : Bytes) → p ≢ [] → Lacks b p → tokens b p ≡ p ∷ []
unfolding tokens
tokens_last b [] ne h = absurd (ne refl)
tokens_last b (c ∷ p) ne h =
    sym (ap (tokens_from b []) (append-nil (c ∷ p)))
    ∙ tokens_from-append b [] (c ∷ p) [] h
    ∙ unfold tokens_from in refl

-- A token: some bytes, none of them the delimiter.
pub record IsToken (b : ℕ) (t : Bytes) : Type 0 where
  pub some_byte : t ≢ []
  pub inside : Lacks b t

flush-IsToken :
    (b : ℕ) (cur : Bytes) (ts : List Bytes)
    → Lacks b cur
    → All (IsToken b) ts
    → All (IsToken b) (flush cur ts)
flush-IsToken b [] ts h a = a
flush-IsToken b (c ∷ s) ts h a = (record { some_byte = λ e. cc; inside = h }, a)

tokens_from-IsToken : (b : ℕ) (cur s : Bytes) → Lacks b cur → All (IsToken b) (tokens_from b cur s)
unfolding tokens_from
tokens_from-IsToken b cur [] h = flush-IsToken b cur [] h tt
tokens_from-IsToken b cur (c ∷ s) h = elim (Bool-cases (c == b)) [
  | inl e ↦ rw e (flush-IsToken b cur (tokens_from b [] s) h (tokens_from-IsToken b [] s tt))
  | inr e ↦ rw e (
      tokens_from-IsToken b (cur ++ c ∷ []) s
        (All-append (λ x. x ≢ b) cur (c ∷ []) h (λ q. ground arith, tt)))
]

pub tokens-IsToken : (b : ℕ) (s : Bytes) → All (IsToken b) (tokens b s)
unfolding tokens
tokens-IsToken b s = tokens_from-IsToken b [] s tt
