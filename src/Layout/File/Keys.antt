-- ===== src/Layout/File/Keys.antt =====
-- How the loops of `layout_load` read a line that `layout_save` wrote.
use system_programming_team.Layout.File.{
  has_number, scan_int, word, scan_word, TableKeys, take_key, keys_loop, lines_from,
}
use system_programming_team.Prelude.{
  ℕ, zero, suc, ◌≤◌, ◌≡◌, ◌≢◌, refl, ap, ◌∙◌, true, false, ◌==◌, [], ◌∷◌, ◌++◌, append-nil,
  append_assoc, some, arith, length, All, Lacks, Bytes, ℤ, pos, negsuc, IsInt,
}
use system_programming_team.Text.Decimal.{IsDigit, Stops, All-show_nat, show_nat-ne-nil, atoi-show}
use system_programming_team.Text.{is_space, skip_space, show, show_nat}

-- No space is in the text.
abbrev pub IsWord : Bytes → Type 0
IsWord = All (λ c. is_space c ≡ false)

-- A word ends here.
abbrev pub Ends : Bytes → Type 0
Ends [] = Unit
Ends (c ∷ s) = is_space c ≡ true

pub IsWord-Lacks : (b : ℕ) (s : Bytes) → is_space b ≡ true → IsWord s → Lacks b s
IsWord-Lacks b [] e h = tt
IsWord-Lacks b (c ∷ s) e h = ((λ q. ground arith), IsWord-Lacks b s e h.1)

word_whole : (n : ℕ) (p rest : Bytes) → length p ≤ n → IsWord p → Ends rest → word n (p ++ rest) ≡ p
unfolding word
word_whole zero [] rest l h e = refl
word_whole zero (c ∷ p) rest l h e = absurd (omega arith)
word_whole (suc n) [] [] l h e = refl
word_whole (suc n) [] (c ∷ rest) l h e = rw e
word_whole (suc n) (c ∷ p) rest l h e =
    rw h.0 (ap (◌∷◌ c) (word_whole n p rest (omega arith) h.1 e))

skip_none : (c : ℕ) (s : Bytes) → is_space c ≡ false → skip_space (c ∷ s) ≡ c ∷ s
unfolding skip_space
skip_none c s h = rw h

-- `%15s` reads a word up to the space behind it.
pub scan_word-whole :
    (p rest old : Bytes)
    → p ≢ []
    → length p ≤ 15
    → IsWord p
    → Ends rest
    → scan_word (p ++ rest) old ≡ p
unfolding scan_word
scan_word-whole [] rest old n l h e = absurd (n refl)
scan_word-whole (c ∷ p) rest old n l h e =
    rw (skip_none c (p ++ rest) h.0) (rw (word_whole 15 (c ∷ p) rest l h e) refl)

digit_first : (s rest : Bytes) → s ≢ [] → All IsDigit s → has_number (skip_space (s ++ rest)) ≡ true
unfolding skip_space
digit_first [] rest n h = absurd (n refl)
digit_first (c ∷ []) [] n h = ground arith
digit_first (c ∷ []) (d ∷ rest) n h = ground arith
digit_first (c ∷ d ∷ s) rest n h = ground arith

minus_first :
    (s rest : Bytes) → s ≢ [] → All IsDigit s → has_number (skip_space (b'-' ∷ s ++ rest)) ≡ true
unfolding skip_space
minus_first [] rest n h = absurd (n refl)
minus_first (c ∷ s) rest n h = ground arith

number_first : (a : ℤ) (rest : Bytes) → has_number (skip_space (show a ++ rest)) ≡ true
unfolding show
number_first (pos n) rest = digit_first (show_nat n) rest (show_nat-ne-nil n) (All-show_nat n)
number_first (negsuc n) rest =
    minus_first (show_nat (suc n)) rest (show_nat-ne-nil (suc n)) (All-show_nat (suc n))

-- `sscanf` reads back what `%d` printed.
pub scan_int-show :
    (a x : ℤ) (rest : Bytes) → IsInt a → Stops rest → scan_int (show a ++ rest) x ≡ a
unfolding scan_int
scan_int-show a x rest h e = rw (number_first a rest) (atoi-show a rest h e)

-- Bytes up to the next space hold no key.
pub keys_loop-skip :
    (p rest : Bytes) (t : TableKeys)
    → Lacks 32 p
    → keys_loop (p ++ 32 ∷ rest) t ≡ keys_loop (32 ∷ rest) t
unfolding keys_loop
keys_loop-skip [] rest t h = refl
keys_loop-skip (c ∷ []) rest t h = let e : (c == 32) ≡ false = ground arith in rw e refl
keys_loop-skip (c ∷ d ∷ p) rest t h =
    let e : (c == 32) ≡ false = ground arith in
    rw (e, keys_loop) (keys_loop-skip (d ∷ p) rest t h.1)

-- The text behind the last space ends the loop.
pub keys_loop-last : (p : Bytes) (t : TableKeys) → Lacks 32 p → keys_loop p t ≡ (t, false)
unfolding keys_loop
keys_loop-last [] t h = refl
keys_loop-last (c ∷ []) t h = let e : (c == 32) ≡ false = ground arith in rw e
keys_loop-last (c ∷ d ∷ p) t h =
    let e : (c == 32) ≡ false = ground arith in rw (e, keys_loop) (keys_loop-last (d ∷ p) t h.1)

pub keys_loop-key :
    (d : ℕ) (s : Bytes) (t : TableKeys)
    → (d == 32) ≡ false
    → keys_loop (32 ∷ d ∷ s) t ≡ keys_loop (d ∷ s) (take_key (d ∷ s) t)
unfolding keys_loop
keys_loop-key d s t e = rw e

lines_from-append :
    (cur p rest : Bytes) → Lacks b'\n' p → lines_from cur (p ++ rest) ≡ lines_from (cur ++ p) rest
unfolding lines_from
lines_from-append cur [] rest h = rw append-nil
lines_from-append cur (c ∷ p) rest h =
    ground (arith, lines_from-append (cur ++ c ∷ []) p rest h.1, append_assoc cur (c ∷ []) p)

-- A line up to its end is returned with what stands behind.
pub lines_from-line :
    (p rest : Bytes)
    → p ≢ []
    → Lacks b'\n' p
    → lines_from [] (p ++ b'\n' ∷ rest) ≡ (p, some rest) ∷ lines_from [] rest
lines_from-line [] rest n h = absurd (n refl)
lines_from-line (c ∷ p) rest n h =
    lines_from-append [] (c ∷ p) (b'\n' ∷ rest) h ∙ unfold lines_from in refl
