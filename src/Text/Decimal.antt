-- ===== src/Text/Decimal.antt =====
-- `atoi` on what `%d` prints.
use system_programming_team.Prelude.{
  ℕ, zero, suc, ◌+◌, ◌-◌, ◌*◌, ◌<◌, length, ◌/◌, ◌%◌, ◌^◌, ◌≤◌, ◌≡◌, ◌≢◌, refl, ◌∙◌, ap, [], ◌∷◌,
  ◌++◌, true, false, arith, ◌==◌, Bool-cases, Bytes, All, ℤ, pos, negsuc, pos_part, neg_part, wrap,
  wrap_id, IsInt, inl, inr, sym, append-nil, Lacks,
}
use system_programming_team.Text.{
  is_digit, skip_space, leading, signed, atoll, atoi, digits, show_nat, show,
}

abbrev pub IsDigit : ℕ → Type 0
IsDigit c = (48 ≤ c) × (c ≤ 57)

-- Reading stops at the first byte that is no digit.
abbrev pub Stops : Bytes → Type 0
Stops [] = Unit
Stops (c ∷ s) = is_digit c ≡ false

leading-Stops : (rest : Bytes) (n : ℕ) → Stops rest → leading rest n ≡ n
unfolding leading
leading-Stops [] n h = refl
leading-Stops (c ∷ s) n h = rw h

leading_digit : (n : ℕ) (s : Bytes) → leading ((48 + n % 10) ∷ s) (n / 10) ≡ leading s n
unfolding leading
leading_digit n s = ground arith

leading-digits : (f n : ℕ) (out : Bytes) → n ≤ f → leading (digits f n out) 0 ≡ leading out n
unfolding digits
leading-digits zero n out h = ground arith
leading-digits (suc f) n out h =
    ground (arith, leading-digits f (n / 10) ((48 + n % 10) ∷ out), leading_digit n out)

digits-append : (f n : ℕ) (out rest : Bytes) → digits f n out ++ rest ≡ digits f n (out ++ rest)
unfolding digits
digits-append zero n out rest = refl
digits-append (suc f) n out rest =
    ground (arith, digits-append f (n / 10) ((48 + n % 10) ∷ out) rest)

All-digits : (f n : ℕ) (out : Bytes) → All IsDigit out → All IsDigit (digits f n out)
unfolding digits
All-digits zero n out h = h
All-digits (suc f) n out h = elim (Bool-cases (n == 0)) [
  | inl e ↦ rw e h
  | inr e ↦ rw e (All-digits f (n / 10) ((48 + n % 10) ∷ out) ((omega arith, omega arith), h))
]

leading_zero : (n : ℕ) (rest : Bytes) → (n == 0) ≡ true → Stops rest → leading (48 ∷ rest) 0 ≡ n
unfolding leading
leading_zero n rest e h = ground (arith, leading-Stops rest 0 h)

atoll_minus :
    (s : Bytes) (n : ℕ) → leading s 0 ≡ suc n → n ≤ 2 ^ 63 - 1 → atoll (b'-' ∷ s) ≡ negsuc n
unfolding atoll signed skip_space
atoll_minus s n e h = ground arith

pub All-show_nat : (n : ℕ) → All IsDigit (show_nat n)
unfolding show_nat
All-show_nat n = elim (Bool-cases (n == 0)) [
  | inl e ↦ rw e (omega arith)
  | inr e ↦ rw e (All-digits n n [] tt)
]

digits-ne-nil : (f n c : ℕ) (out : Bytes) → digits f n (c ∷ out) ≢ []
unfolding digits
digits-ne-nil zero n c out = λ e. cc
digits-ne-nil (suc f) n c out = ground (arith, digits-ne-nil f (n / 10) (48 + n % 10) (c ∷ out))

pub show_nat-ne-nil : (n : ℕ) → show_nat n ≢ []
unfolding show_nat digits
show_nat-ne-nil zero = λ e. cc
show_nat-ne-nil (suc n) = ground (arith, digits-ne-nil n (suc n / 10) (48 + suc n % 10) [])

pub leading-show_nat : (n : ℕ) (rest : Bytes) → Stops rest → leading (show_nat n ++ rest) 0 ≡ n
unfolding show_nat
leading-show_nat n rest h = elim (Bool-cases (n == 0)) [
  | inl e ↦ rw e (leading_zero n rest e h)
  | inr e ↦
      rw (e, digits-append n n [] rest)
        (leading-digits n n rest (omega arith) ∙ leading-Stops rest n h)
]

-- A text that begins with a digit has no space and no sign in front.
atoll-digits :
    (s : Bytes)
    → s ≢ []
    → All IsDigit s
    → (rest : Bytes) → leading (s ++ rest) 0 ≤ 2 ^ 63 - 1
    → atoll (s ++ rest) ≡ pos (leading (s ++ rest) 0)
unfolding atoll signed skip_space
atoll-digits [] ne h rest b = absurd (ne refl)
atoll-digits (c ∷ s) ne h rest b = ground arith

-- `atoll` reads a printed 64-bit number back, whatever follows it but a digit.
pub atoll-show :
    (a : ℤ) (rest : Bytes)
    → pos_part a ≤ 2 ^ 63 - 1
    → neg_part a ≤ 2 ^ 63
    → Stops rest
    → atoll (show a ++ rest) ≡ a
unfolding show
atoll-show (pos n) rest hp hn h =
    let e = leading-show_nat n rest h in
    atoll-digits (show_nat n) (show_nat-ne-nil n) (All-show_nat n) rest (omega (arith, e))
    ∙ ap pos e
atoll-show (negsuc n) rest hp hn h =
    atoll_minus (show_nat (suc n) ++ rest) n (leading-show_nat (suc n) rest h) (omega arith)

-- `atoi` reads back every `int` that `%d` prints.
pub atoi-show : (a : ℤ) (rest : Bytes) → IsInt a → Stops rest → atoi (show a ++ rest) ≡ a
unfolding atoi
atoi-show (pos n) rest h st =
    ap wrap (atoll-show (pos n) rest (omega arith) (omega arith) st) ∙ wrap_id (pos n) h
atoi-show (negsuc n) rest h st =
    ap wrap (atoll-show (negsuc n) rest (omega arith) (omega arith) st) ∙ wrap_id (negsuc n) h

digits-Lacks : (b : ℕ) (s : Bytes) → is_digit b ≡ false → All IsDigit s → Lacks b s
digits-Lacks b [] h d = tt
digits-Lacks b (c ∷ s) h d = ((λ e. ground arith), digits-Lacks b s h d.1)

-- What `%d` prints has no byte but digits and the sign.
pub show-Lacks : (b : ℕ) (a : ℤ) → is_digit b ≡ false → b ≢ 45 → Lacks b (show a)
unfolding show
show-Lacks b (pos n) h m = digits-Lacks b (show_nat n) h (All-show_nat n)
show-Lacks b (negsuc n) h m =
    ((λ e. m (sym e)), digits-Lacks b (show_nat (suc n)) h (All-show_nat (suc n)))

pub show-ne-nil : (a : ℤ) → show a ≢ []
unfolding show
show-ne-nil (pos n) = show_nat-ne-nil n
show-ne-nil (negsuc n) = λ e. cc

-- The number alone in its text.
pub atoi-show_alone : (a : ℤ) → IsInt a → atoi (show a) ≡ a
atoi-show_alone a h = sym (ap atoi (append-nil (show a))) ∙ atoi-show a [] h tt

pub atoll-show_alone : (a : ℤ) → pos_part a ≤ 2 ^ 63 - 1 → neg_part a ≤ 2 ^ 63 → atoll (show a) ≡ a
atoll-show_alone a hp hn = sym (ap atoll (append-nil (show a))) ∙ atoll-show a [] hp hn tt

-- A power of ten.
abbrev tens : ℕ → ℕ
tens zero = 1
tens (suc k) = 10 * tens k

digits_short : (k f n : ℕ) (out : Bytes) → n < tens k → length (digits f n out) ≤ k + length out
unfolding digits
digits_short k zero n out h = omega arith
digits_short zero (suc f) n out h = ground arith
digits_short (suc k) (suc f) n out h =
    ground (arith, digits_short k f (n / 10) ((48 + n % 10) ∷ out) (omega (arith, h)))

show_nat_short : (n : ℕ) → n < 10000000000 → length (show_nat n) ≤ 10
unfolding show_nat
show_nat_short n h = elim (Bool-cases (n == 0)) [
  | inl e ↦ rw e (omega arith)
  | inr e ↦ rw e (omega (arith, digits_short 10 n n [] h))
]

-- An `int` is printed in at most eleven bytes.
pub show_short : (a : ℤ) → IsInt a → length (show a) ≤ 11
unfolding show
show_short (pos n) h = omega (arith, show_nat_short n (omega (arith, h.below)))
show_short (negsuc n) h = omega (arith, show_nat_short (suc n) (omega (arith, h.above)))
