-- ===== src/Text.antt =====
-- The C library's text functions that the sources call, on byte strings without their final NUL:
-- strncpy and snprintf into a buffer, strncmp, strstr, strchr, strtok_r, isspace, atoi, atoll, %d.
pub mod Decimal
pub mod Tokens
use Prim.Native.Char.{code}
use Prim.Native.String.{String}
use system_programming_team.Prelude.{
  ℕ, zero, suc, ◌+◌, ◌-◌, ◌*◌, ◌/◌, ◌%◌, ◌^◌, Bool, true, false, ◌&&◌, ◌||◌, List, [], ◌∷◌, ◌++◌,
  Option, none, some, ltb, leb, ◌==◌, if◌then◌else◌, Bytes, take, ℤ, pos, negsuc, wrap,
}

-- The UTF-8 bytes of a character in front of `rest`.
abbrev pub encode : ℕ → Bytes → Bytes
encode c rest =
    if ltb c 0x80
    then c ∷ rest
    else if ltb c 0x800
    then (0xc0 + c / 64) ∷ (0x80 + c % 64) ∷ rest
    else (0xe0 + c / 4096) ∷ (0x80 + c / 64 % 64) ∷ (0x80 + c % 64) ∷ rest

-- The bytes of a literal of the sources, none of whose characters needs four bytes.
abbrev pub codes : String → Bytes
codes String.[] = []
codes (String.◌∷◌ c s) = encode (code c) (codes s)

-- What a buffer of `n` bytes holds of a text: `strncpy` with the NUL set, or `snprintf`.
abbrev pub fit : ℕ → Bytes → Bytes
fit n s = take (n - 1) s

-- The rest of the second text behind the first: `strncmp (s, p, strlen p) == 0`, and `s + strlen p`.
abbrev pub after_prefix : Bytes → Bytes → Option Bytes
after_prefix [] s = some s
after_prefix (p ∷ ps) [] = none
after_prefix (p ∷ ps) (c ∷ s) = if p == c then after_prefix ps s else none

-- `strstr (s, p)`, and the text behind what it finds.
unfoldable pub after_find : Bytes → Bytes → Option Bytes
after_find p [] = after_prefix p []
after_find p (c ∷ s) =
    let later = after_find p s in elim (after_prefix p (c ∷ s)) [ none ↦ later | some r ↦ some r ]

-- `strchr (s, b)`: the text before the byte, and the text behind it.
unfoldable pub cut_at : ℕ → Bytes → Option (Bytes × Bytes)
cut_at b [] = none
cut_at b (c ∷ s) =
    let later = cut_at b s in
    if c == b then some ([], s) else elim later [ none ↦ none | some (x, y) ↦ some (c ∷ x, y) ]

-- A token that was begun is put out when it is not empty.
abbrev pub flush : Bytes → List Bytes → List Bytes
flush [] ts = ts
flush (c ∷ s) ts = (c ∷ s) ∷ ts

-- All results of `strtok_r` on a text, in order: the maximal runs of bytes other than `b`.
unfoldable pub tokens_from : ℕ → Bytes → Bytes → List Bytes
tokens_from b cur [] = flush cur []
tokens_from b cur (c ∷ s) =
    let cut = flush cur (tokens_from b [] s) in
    let more = tokens_from b (cur ++ c ∷ []) s in if c == b then cut else more

unfoldable pub tokens : ℕ → Bytes → List Bytes
unfolding tokens_from
tokens b s = tokens_from b [] s

abbrev pub is_space : ℕ → Bool
is_space c = (c == 32) || (leb 9 c && leb c 13)

abbrev pub is_digit : ℕ → Bool
is_digit c = leb 48 c && leb c 57

unfoldable pub skip_space : Bytes → Bytes
skip_space [] = []
skip_space (c ∷ s) = let rest = skip_space s in if is_space c then rest else c ∷ s

-- The number that the leading digits spell behind `n`.
unfoldable pub leading : Bytes → ℕ → ℕ
leading [] n = n
leading (c ∷ s) n = let rest = leading s (n * 10 + (c - 48)) in if is_digit c then rest else n

-- `strtol` stops at the ends of `long`.
abbrev pub clamp_pos : ℕ → ℤ
clamp_pos n = pos (if leb n (2 ^ 63 - 1) then n else 2 ^ 63 - 1)

abbrev pub clamp_neg : ℕ → ℤ
clamp_neg zero = pos 0
clamp_neg (suc n) = negsuc (if leb n (2 ^ 63 - 1) then n else 2 ^ 63 - 1)

unfoldable pub signed : Bytes → ℤ
signed [] = pos 0
signed (c ∷ s) =
    if c == b'-'
    then clamp_neg (leading s 0)
    else if c == b'+'
    then clamp_pos (leading s 0)
    else clamp_pos (leading (c ∷ s) 0)

unfoldable pub atoll : Bytes → ℤ
unfolding signed leading skip_space
atoll s = signed (skip_space s)

-- `atoi` is `strtol` cut to an `int`.
unfoldable pub atoi : Bytes → ℤ
unfolding atoll wrap
atoi s = wrap (atoll s)

-- The decimal digits of a number in front of `out`; `n` rounds are enough.
unfoldable pub digits : ℕ → ℕ → Bytes → Bytes
digits zero n out = out
digits (suc f) n out =
    let more = digits f (n / 10) ((48 + n % 10) ∷ out) in if n == 0 then out else more

unfoldable pub show_nat : ℕ → Bytes
unfolding digits
show_nat n = if n == 0 then 48 ∷ [] else digits n n []

-- `%d` and `%lld`.
unfoldable pub show : ℤ → Bytes
unfolding show_nat
show (pos n) = show_nat n
show (negsuc n) = b'-' ∷ show_nat (suc n)

-- `x ? 1 : 0`
abbrev pub truth : ℤ → ℤ
truth (pos zero) = pos 0
truth (pos (suc n)) = pos 1
truth (negsuc n) = pos 1

abbrev pub is_true : ℤ → Bool
is_true (pos zero) = false
is_true (pos (suc n)) = true
is_true (negsuc n) = true

-- `s ? s : "…"` where an empty text counts as absent.
abbrev pub non_empty : Bytes → Bytes → Bytes
non_empty [] other = other
non_empty (c ∷ s) other = c ∷ s

-- The category of a dish that has none.
abbrev pub other_category : Bytes
other_category = codes "기타"
