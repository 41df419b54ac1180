-- ===== src/Server/Reader/Framing.antt =====
-- The lines that the reader of src/server.c finds in a stream that reads cut into chunks.
use system_programming_team.Prelude.{
  ℕ, ◌+◌, ◌-◌, ◌≤◌, ◌<◌, ◌==◌, ◌≡◌, ◌≢◌, ◌⊎◌, ◌||◌, refl, take, append-nil, true, sym, ap, subst,
  ◌∙◌, List, [], ◌∷◌, ◌++◌, append_assoc, Option, none, some, false, arith, leb, length,
  length-append, take-eq_of_le, All, Lacks, Bytes, Bool-cases, Option-cases, inl, inr,
}
use system_programming_team.Server.Reader.{
  Chunk, bytes, interrupted, Line, line, read_line, taken, to_nul, strip_crnl, buf_size,
}
use system_programming_team.Text.{cut_at}

-- Reads that succeed, with the bytes that they return.
abbrev pub flow : List Bytes → List Chunk
flow [] = []
flow ([] ∷ parts) = interrupted ∷ flow parts
flow ((c ∷ s) ∷ parts) = bytes (c ∷ s) ∷ flow parts

abbrev pub flat : List Bytes → Bytes
flat [] = []
flat (s ∷ parts) = s ++ flat parts

pub cut_at_first : (b : ℕ) (l rest : Bytes) → Lacks b l → cut_at b (l ++ b ∷ rest) ≡ some (l, rest)
unfolding cut_at
cut_at_first b [] rest h = ground arith
cut_at_first b (c ∷ l) rest h = ground (arith, cut_at_first b l rest h.1)

cut_at-Lacks : (b : ℕ) (s : Bytes) → cut_at b s ≡ none → Lacks b s
unfolding cut_at
cut_at-Lacks b [] h = tt
cut_at-Lacks b (c ∷ s) h = elim (Bool-cases (c == b)) [
  | inl e ↦ absurd (ground arith)
  | inr e ↦ elim (Option-cases (cut_at b s)) [
    | inl n ↦ (λ q. ground arith, cut_at-Lacks b s n)
    | inr (r, n) ↦ absurd (ground arith)
  ]
]

cut_at_parts : (b : ℕ) (s x y : Bytes) → cut_at b s ≡ some (x, y) → (s ≡ x ++ b ∷ y) × Lacks b x
unfolding cut_at
cut_at_parts b [] x y h = cc
cut_at_parts b (c ∷ s) x y h = elim (Bool-cases (c == b)) [
  | inl e ↦
      let q : [] ≡ x = ground arith in
      subst (λ z. (c ∷ s ≡ z ++ b ∷ y) × Lacks b z) q (ground arith, tt)
  | inr e ↦ elim (Option-cases (cut_at b s)) [
    | inl n ↦ absurd (ground arith)
    | inr ((u, v), n) ↦
        let (p, a) = cut_at_parts b s u v n in
        let q : c ∷ u ≡ x = ground arith in
        subst (λ z. (c ∷ s ≡ z ++ b ∷ y) × Lacks b z) q (ground arith, (λ z. ground arith, a))
  ]
]

-- Two first line ends of one text are the same.
split_unique :
    (b : ℕ) (l m r t : Bytes) → Lacks b l → Lacks b m → l ++ b ∷ r ≡ m ++ b ∷ t → (l ≡ m) × (r ≡ t)
split_unique b l m r t h k e =
    let q : ◌≡◌ {A = Option (Bytes × Bytes)} (some (l, r)) (some (m, t)) =
      sym (cut_at_first b l r h) ∙ ap (cut_at b) e ∙ cut_at_first b m t k in
    (ground arith, ground arith)

-- A text with no line end, in front of more, is not longer than the first line.
length-le_line : (b : ℕ) (s x l r : Bytes) → Lacks b s → s ++ x ≡ l ++ b ∷ r → length s ≤ length l
length-le_line b [] x l r h e = omega arith
length-le_line b (c ∷ s) x [] r h e = absurd (h.0 (ground arith))
length-le_line b (c ∷ s) x (d ∷ l) r h e = ground (arith, length-le_line b s x l r h.1)

-- A line that stands in the buffer is the first line of the stream.
buffered :
    (x y l rest buf : Bytes) (parts : List Bytes)
    → cut_at b'\n' buf ≡ some (x, y)
    → Lacks b'\n' l
    → buf ++ flat parts ≡ l ++ b'\n' ∷ rest
    → (x ≡ l) × (y ++ flat parts ≡ rest)
buffered x y l rest buf parts c h e =
    let (p, a) = cut_at_parts b'\n' buf x y c in
    split_unique b'\n' x l (y ++ flat parts) rest a h
      (sym (append_assoc x (b'\n' ∷ y) (flat parts)) ∙ ap (λ z. z ++ flat parts) (sym p) ∙ e)

-- A text that does not end with a line end or a carriage return.
abbrev pub EndsClean : Bytes → Type 0
EndsClean [] = Unit
EndsClean (c ∷ []) = (c ≢ b'\n') × (c ≢ b'\r')
EndsClean (c ∷ d ∷ s) = EndsClean (d ∷ s)

-- What the caller is given of a line, with a buffer of `outsz` bytes: its first bytes, one less than
-- the buffer has, up to a NUL, without the line ends and carriage returns behind them.
abbrev pub IsGiven : Bytes → ℕ → Bytes → Type 0
IsGiven l outsz out =
    (ends : Bytes) × (behind : Bytes) × (take (outsz - 1) l ≡ (out ++ ends) ++ behind)
    × ((behind ≡ []) ⊎ ((t : Bytes) × (behind ≡ 0 ∷ t)))
    × Lacks 0 (out ++ ends)
    × All (λ c. (c ≡ b'\n') ⊎ (c ≡ b'\r')) ends
    × EndsClean out

-- A text and what is stripped off it.
abbrev Stripped : Bytes → Bytes → Type 0
Stripped s out =
    (ends : Bytes) × (s ≡ out ++ ends) × All (λ c. (c ≡ b'\n') ⊎ (c ≡ b'\r')) ends × EndsClean out

is_end_lem :
    (c : ℕ)
    → ((((c == b'\n') || (c == b'\r')) ≡ true) × ((c ≡ b'\n') ⊎ (c ≡ b'\r')))
      ⊎ ((((c == b'\n') || (c == b'\r')) ≡ false) × (c ≢ b'\n') × (c ≢ b'\r'))
is_end_lem c = elim (Bool-cases (c == b'\n')) [
  | inl e ↦ inl (rw e refl, inl (ground arith))
  | inr e ↦ elim (Bool-cases (c == b'\r')) [
    | inl f ↦ inl (rw (e, f) refl, inr (ground arith))
    | inr f ↦ inr (rw (e, f) refl, (λ q. ground arith), λ q. ground arith)
  ]
]

Stripped-add :
    (c : ℕ) (s x : Bytes) → strip_crnl s ≡ x → Stripped s x → Stripped (c ∷ s) (strip_crnl (c ∷ s))
unfolding strip_crnl
Stripped-add c s [] e (ends, q, a, k) = elim (is_end_lem c) [
  | inl (f, g) ↦ rw (e, f) (c ∷ ends, ap (◌∷◌ c) q, (g, a), tt)
  | inr (f, g, h) ↦ rw (e, f) (ends, ap (◌∷◌ c) q, a, (g, h))
]
Stripped-add c s (d ∷ x) e (ends, q, a, k) = rw e (ends, ap (◌∷◌ c) q, a, k)

strip_crnl-Stripped : (s : Bytes) → Stripped s (strip_crnl s)
unfolding strip_crnl
strip_crnl-Stripped [] = ([], refl, tt, tt)
strip_crnl-Stripped (c ∷ s) = Stripped-add c s (strip_crnl s) refl (strip_crnl-Stripped s)

-- The text up to its first NUL.
to_nul_lem :
    (s : Bytes)
    → (behind : Bytes) × (s ≡ to_nul s ++ behind)
      × ((behind ≡ []) ⊎ ((t : Bytes) × (behind ≡ 0 ∷ t)))
      × Lacks 0 (to_nul s)
to_nul_lem s =
    let pick : Option (Bytes × Bytes) → Bytes =
      λ r. elim r as (λ _. Bytes) [ none ↦ s | some x ↦ x.0 ] in
    elim (Option-cases (cut_at 0 s)) [
      | inl e ↦
          let q : to_nul s ≡ s = ap pick e in
          (
            [],
            sym (append-nil (to_nul s) ∙ q),
            inl refl,
            subst (Lacks 0) (sym q) (cut_at-Lacks 0 s e),
          )
      | inr ((x, y), e) ↦
          let q : to_nul s ≡ x = ap pick e in
          let (p, a) = cut_at_parts 0 s x y e in
          (0 ∷ y, p ∙ ap (λ z. z ++ 0 ∷ y) (sym q), inr (y, refl), subst (Lacks 0) (sym q) a)
    ]

taken-IsGiven : (l : Bytes) (outsz : ℕ) → IsGiven l outsz (taken l outsz)
taken-IsGiven l outsz =
    let s = take (outsz - 1) l in
    let (behind, q, b, a) = to_nul_lem s in
    let (ends, p, e, k) = strip_crnl-Stripped (to_nul s) in
    (ends, behind, q ∙ ap (λ x. x ++ behind) p, b, subst (Lacks 0) p a, e, k)

-- What the reader returns for the first line of a stream.
abbrev pub Reads : Bytes → Bytes → ℕ → Line × Bytes × List Chunk → Type 0
Reads l rest outsz r =
    (out : Bytes) × (buf : Bytes) × (parts : List Bytes) × (r ≡ (line out, buf, flow parts))
    × IsGiven l outsz out
    × (buf ++ flat parts ≡ rest)

-- The bytes in the buffer and those to come, up to the first line end, are one line, however the
-- reads cut the stream and wherever they are interrupted; the bytes behind the line end stay for the
-- next call. The line is returned cut to one byte less than the caller's buffer and to the bytes in
-- front of a NUL, without line ends and carriage returns at its end. The condition is that the line
-- is shorter than the reader's buffer and no read returns more than what there is room for beside
-- it.
pub read_line-Reads :
    (parts : List Bytes) (buf l rest : Bytes) (outsz : ℕ)
    → buf ++ flat parts ≡ l ++ b'\n' ∷ rest
    → Lacks b'\n' l
    → length l < buf_size
    → All (λ p. length p + length l ≤ buf_size) parts
    → Reads l rest outsz (read_line (flow parts) buf outsz)
unfolding read_line
read_line-Reads [] buf l rest outsz e h short fits = elim (Option-cases (cut_at b'\n' buf)) [
  | inl n ↦ absurd (
      omega (
        arith,
        length-le_line b'\n' buf [] l rest (cut_at-Lacks b'\n' buf n) e,
        ap length e,
        length-append buf [],
        length-append l (b'\n' ∷ rest),
      ))
  | inr ((x, y), c) ↦
      let (p, q) = buffered x y l rest buf [] c h e in
      (taken l outsz, y, [], rw (c, read_line) (rw p), taken-IsGiven l outsz, q)
]
read_line-Reads ([] ∷ parts) buf l rest outsz e h short fits =
    elim (Option-cases (cut_at b'\n' buf)) [
      | inr ((x, y), c) ↦
          let (p, q) = buffered x y l rest buf ([] ∷ parts) c h e in
          (taken l outsz, y, [] ∷ parts, rw (c, read_line) (rw p), taken-IsGiven l outsz, q)
      | inl n ↦
          let small = length-le_line b'\n' buf _ l rest (cut_at-Lacks b'\n' buf n) e in
          let z : leb buf_size (length buf) ≡ false = ground arith in
          rw (n, z, read_line) (read_line-Reads parts buf l rest outsz e h short fits.1)
    ]
read_line-Reads ((k ∷ s) ∷ parts) buf l rest outsz e h short fits =
    elim (Option-cases (cut_at b'\n' buf)) [
      | inr ((x, y), c) ↦
          let (p, q) = buffered x y l rest buf ((k ∷ s) ∷ parts) c h e in
          (taken l outsz, y, (k ∷ s) ∷ parts, rw (c, read_line) (rw p), taken-IsGiven l outsz, q)
      | inl n ↦
          let small = length-le_line b'\n' buf _ l rest (cut_at-Lacks b'\n' buf n) e in
          let z : leb buf_size (length buf) ≡ false = ground arith in
          let t = take-eq_of_le (buf_size - length buf) (k ∷ s) (omega (arith, fits.0)) in
          rw (n, z, read_line)
            (rw t (
              read_line-Reads parts (buf ++ k ∷ s) l rest outsz
                (append_assoc buf (k ∷ s) (flat parts) ∙ e) h short fits.1))
    ]
