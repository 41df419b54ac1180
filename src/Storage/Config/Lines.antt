-- ===== src/Storage/Config/Lines.antt =====
-- The lines of the configuration's file as they are written.
use system_programming_team.Prelude.{
  Option, ◌+◌, ◌<◌, ◌≡◌, ◌≢◌, refl, sym, ap, ◌∙◌, Bool, true, false, ◌||◌, List, [], ◌∷◌, ◌++◌, map,
  append-nil, append_assoc, none, some, arith, if◌then◌else◌, ltb, leb, length, length-append, All,
  All-append, Bytes, ℤ, Bool-cases, Option-cases, inl, inr,
}
use system_programming_team.Storage.{
  StoreConfig, is_comment, new_line, through_tmp, sets_tables, sets_next, rewrite_loop,
}
use system_programming_team.Text.Decimal.{show-Lacks}
use system_programming_team.Text.Tokens.{IsToken, tokens_field}
use system_programming_team.Text.{codes, after_prefix, tokens, show}

-- What stands in the file for a line of it, without the line end.
abbrev pub body : StoreConfig → Bytes → Bytes
body cfg line = if is_comment line then line else elim (after_prefix (codes "tables=") line) [
  | some _ ↦ codes "tables=" ++ show cfg.max_tables
  | none ↦ elim (after_prefix (codes "next_order_id=") line) [
    | some _ ↦ codes "next_order_id=" ++ show cfg.next_order_id
    | none ↦ line
  ]
]

-- The text that is written for the lines of the file.
abbrev pub written : StoreConfig → List Bytes → Bytes
written cfg [] = []
written cfg (l ∷ ls) = (body cfg l ++ b'\n' ∷ []) ++ written cfg ls

-- Whether one of the lines sets the value.
abbrev pub saw : (Bytes → Bool) → List Bytes → Bool → Bool
saw f [] t = t
saw f (l ∷ ls) t = saw f ls (f l || t)

new_line-body : (cfg : StoreConfig) (l : Bytes) → new_line cfg l ≡ body cfg l ++ b'\n' ∷ []
new_line-body cfg l = elim (Bool-cases (is_comment l)) [
  | inl e ↦ rw e refl
  | inr e ↦ elim (Option-cases (after_prefix (codes "tables=") l)) [
    | inr (s, p) ↦ rw (e, p) refl
    | inl p ↦ elim (Option-cases (after_prefix (codes "next_order_id=") l)) [
      | inr (s, q) ↦ rw (e, p, q) refl
      | inl q ↦ rw (e, p, q) refl
    ]
  ]
]

pub rewrite_loop-written :
    (cfg : StoreConfig) (ls : List Bytes) (out : Bytes) (t n : Bool)
    → All (λ l. length (body cfg l) + 1 < 512) ls
    → length out + length (written cfg ls) < 8192
    → rewrite_loop cfg ls out t n
      ≡ some (out ++ written cfg ls, saw sets_tables ls t, saw sets_next ls n)
unfolding rewrite_loop
rewrite_loop-written cfg [] out t n a h = ap (λ o. some (o, t, n)) (sym (append-nil out))
rewrite_loop-written cfg (l ∷ ls) out t n a h =
    let text = body cfg l ++ b'\n' ∷ [] in
    let t' = sets_tables l || t in
    let n' = sets_next l || n in
    let step : Bytes → Option (Bytes × Bool × Bool) = λ x.
      if leb 8192 (length out + length x)
      then some (out, t', n')
      else elim (through_tmp x) as (λ _. Option (Bytes × Bool × Bool)) [
        | none ↦ none
        | some s ↦ rewrite_loop cfg ls (out ++ s) t' n'
      ] in
    let m = length-append text (written cfg ls) in
    let k = length-append (body cfg l) (b'\n' ∷ []) in
    let room : leb 8192 (length out + length text) ≡ false = ground (arith, m) in
    let small : ltb (length text) 512 ≡ true = ground (arith, a.0, k) in
    let goes : step text ≡ rewrite_loop cfg ls (out ++ text) t' n' = rw (room, small) refl in
    ap step (new_line-body cfg l)
    ∙ goes
    ∙ rewrite_loop-written cfg ls (out ++ text) t' n' a.1
        (omega (arith, h, m, length-append out text))
    ∙ ap (λ o. some (o, saw sets_tables (l ∷ ls) t, saw sets_next (l ∷ ls) n))
        (append_assoc out text (written cfg ls))

pub tables-IsToken : (a : ℤ) → IsToken b'\n' (codes "tables=" ++ show a)
tables-IsToken a = record {
  some_byte = λ e. cc;
  inside =
      All-append (λ x. x ≢ b'\n') (codes "tables=") (show a) (omega arith)
        (show-Lacks b'\n' a refl (omega arith));
}

pub next-IsToken : (a : ℤ) → IsToken b'\n' (codes "next_order_id=" ++ show a)
next-IsToken a = record {
  some_byte = λ e. cc;
  inside =
      All-append (λ x. x ≢ b'\n') (codes "next_order_id=") (show a) (omega arith)
        (show-Lacks b'\n' a refl (omega arith));
}

body-IsToken : (cfg : StoreConfig) (l : Bytes) → IsToken b'\n' l → IsToken b'\n' (body cfg l)
body-IsToken cfg l h = elim (Bool-cases (is_comment l)) [
  | inl e ↦ rw e h
  | inr e ↦ elim (Option-cases (after_prefix (codes "tables=") l)) [
    | inr (s, p) ↦ rw (e, p) (tables-IsToken cfg.max_tables)
    | inl p ↦ elim (Option-cases (after_prefix (codes "next_order_id=") l)) [
      | inr (s, q) ↦ rw (e, p, q) (next-IsToken cfg.next_order_id)
      | inl q ↦ rw (e, p, q) h
    ]
  ]
]

pub tokens-written :
    (cfg : StoreConfig) (ls : List Bytes) (rest : Bytes)
    → All (IsToken b'\n') ls
    → tokens b'\n' (written cfg ls ++ rest) ≡ map (body cfg) ls ++ tokens b'\n' rest
tokens-written cfg [] rest a = refl
tokens-written cfg (l ∷ ls) rest a =
    let good = body-IsToken cfg l a.0 in
    ap (tokens b'\n') (
      ap (λ x. x ++ rest) (append_assoc (body cfg l) (b'\n' ∷ []) (written cfg ls))
      ∙ append_assoc (body cfg l) (b'\n' ∷ written cfg ls) rest)
    ∙ tokens_field b'\n' (body cfg l) (written cfg ls ++ rest) good.some_byte good.inside
    ∙ ap (◌∷◌ (body cfg l)) (tokens-written cfg ls rest a.1)
