-- ===== src/Storage/Config/Missing.antt =====
-- What the lines that were written set, and the lines for what none of them sets.
use system_programming_team.Prelude.{
  ◌+◌, ◌≤◌, ◌<◌, ◌≡◌, refl, sym, ap, subst, ◌∙◌, Bool, true, false, ◌||◌, List, [], ◌∷◌, ◌++◌, map,
  append-nil, append_assoc, none, some, arith, if◌then◌else◌, ltb, length, length-append, Bytes,
  IsInt, Bool-cases, Option-cases, inl, inr,
}
use system_programming_team.Storage.{
  StoreConfig, is_comment, config_line, config_lines, sets_tables, sets_next, put_tail, put_missing,
}
use system_programming_team.Text.Decimal.{show_short, atoi-show_alone}
use system_programming_team.Text.Tokens.{IsToken, tokens_field}
use system_programming_team.Text.{codes, after_prefix, tokens, show}
use system_programming_team.Storage.Config.Lines.{body, saw, tables-IsToken, next-IsToken}

body_other :
    (cfg : StoreConfig) (l : Bytes)
    → is_comment l ≡ false
    → after_prefix (codes "tables=") l ≡ none
    → after_prefix (codes "next_order_id=") l ≡ none
    → body cfg l ≡ l
body_other cfg l e p q = rw (e, p, q) refl

config_line_other :
    (cfg : StoreConfig) (l : Bytes) (c : StoreConfig)
    → is_comment l ≡ false
    → after_prefix (codes "tables=") l ≡ none
    → after_prefix (codes "next_order_id=") l ≡ none
    → config_line l c ≡ record {
      max_tables = if sets_tables l then cfg.max_tables else c.max_tables;
      next_order_id = if sets_next l then cfg.next_order_id else c.next_order_id;
    }
unfolding config_line
config_line_other cfg l c e p q = rw (e, p, q) refl

config_line-body :
    (cfg : StoreConfig) (l : Bytes) (c : StoreConfig)
    → IsInt cfg.max_tables
    → IsInt cfg.next_order_id
    → config_line (body cfg l) c ≡ record {
      max_tables = if sets_tables l then cfg.max_tables else c.max_tables;
      next_order_id = if sets_next l then cfg.next_order_id else c.next_order_id;
    }
unfolding config_line
config_line-body cfg l c t n = elim (Bool-cases (is_comment l)) [
  | inl e ↦ rw e (rw e refl)
  | inr e ↦ elim (Option-cases (after_prefix (codes "tables=") l)) [
    | inr (s, p) ↦
        rw (e, p) (ap (λ x. record c { max_tables = x }) (atoi-show_alone cfg.max_tables t))
    | inl p ↦ elim (Option-cases (after_prefix (codes "next_order_id=") l)) [
      | inr (s, q) ↦
          let text = codes "next_order_id=" ++ show cfg.next_order_id in
          let set : StoreConfig = record c { next_order_id = cfg.next_order_id } in
          let b : body cfg l ≡ text = rw (e, p, q) refl in
          let v : config_line text c ≡ set =
            ap (λ x. record c { next_order_id = x }) (atoi-show_alone cfg.next_order_id n) in
          let r : set ≡ record {
            max_tables = if sets_tables l then cfg.max_tables else c.max_tables;
            next_order_id = if sets_next l then cfg.next_order_id else c.next_order_id;
          } =
            rw (e, p, q) refl in
          ap (λ x. config_line x c) b ∙ v ∙ r
      | inl q ↦ ap (λ x. config_line x c) (body_other cfg l e p q) ∙ config_line_other cfg l c e p q
    ]
  ]
]

-- The values that were set are those of `cfg`.
abbrev Agrees : StoreConfig → Bool → Bool → StoreConfig → Type 0
Agrees cfg t n c =
    (t ≡ true → c.max_tables ≡ cfg.max_tables) × (n ≡ true → c.next_order_id ≡ cfg.next_order_id)

set-Agrees :
    (cfg c : StoreConfig) (t n s u : Bool)
    → Agrees cfg t n c
    → Agrees cfg (s || t) (u || n) (record {
      max_tables = if s then cfg.max_tables else c.max_tables;
      next_order_id = if u then cfg.next_order_id else c.next_order_id;
    })
set-Agrees cfg c t n s u a = (left s, right u)
  where
    left :
        (s : Bool) → (s || t) ≡ true → (if s then cfg.max_tables else c.max_tables) ≡ cfg.max_tables
    left true h = refl
    left false h = a.0 h

    right :
        (u : Bool)
        → (u || n) ≡ true
        → (if u then cfg.next_order_id else c.next_order_id) ≡ cfg.next_order_id
    right true h = refl
    right false h = a.1 h

pub config_lines-Agrees :
    (cfg : StoreConfig) (ls : List Bytes) (c : StoreConfig) (t n : Bool)
    → IsInt cfg.max_tables
    → IsInt cfg.next_order_id
    → Agrees cfg t n c
    → Agrees cfg (saw sets_tables ls t) (saw sets_next ls n) (config_lines (map (body cfg) ls) c)
unfolding config_lines
config_lines-Agrees cfg [] c t n i j a = a
config_lines-Agrees cfg (l ∷ ls) c t n i j a =
    config_lines-Agrees cfg ls (config_line (body cfg l) c) (sets_tables l || t) (sets_next l || n)
      i j
      (subst (Agrees cfg (sets_tables l || t) (sets_next l || n))
        (sym (config_line-body cfg l c i j)) (set-Agrees cfg c t n (sets_tables l) (sets_next l) a))

pub config_lines-append :
    (xs ys : List Bytes) (c : StoreConfig)
    → config_lines (xs ++ ys) c ≡ config_lines ys (config_lines xs c)
unfolding config_lines
config_lines-append [] ys c = refl
config_lines-append (x ∷ xs) ys c = config_lines-append xs ys (config_line x c)

abbrev tables_line : StoreConfig → Bytes
tables_line cfg = codes "tables=" ++ (show cfg.max_tables ++ b'\n' ∷ [])

abbrev next_line : StoreConfig → Bytes
next_line cfg = codes "next_order_id=" ++ (show cfg.next_order_id ++ b'\n' ∷ [])

-- The lines that are written because the file did not have them.
abbrev pub missing : StoreConfig → Bool → Bool → Bytes
missing cfg t n = (if t then [] else tables_line cfg) ++ (if n then [] else next_line cfg)

abbrev pub missing_lines : StoreConfig → Bool → Bool → List Bytes
missing_lines cfg t n =
    (if t then [] else (codes "tables=" ++ show cfg.max_tables) ∷ [])
    ++ (if n then [] else (codes "next_order_id=" ++ show cfg.next_order_id) ∷ [])

token_line :
    (t rest : Bytes) → IsToken b'\n' t → tokens b'\n' (t ++ b'\n' ∷ rest) ≡ t ∷ tokens b'\n' rest
token_line t rest h = tokens_field b'\n' t rest h.some_byte h.inside

no_tokens : tokens b'\n' [] ≡ []
unfolding tokens
no_tokens = refl

tokens_tables :
    (cfg : StoreConfig) (rest : Bytes)
    → tokens b'\n' (tables_line cfg ++ rest)
      ≡ (codes "tables=" ++ show cfg.max_tables) ∷ tokens b'\n' rest
tokens_tables cfg rest =
    ap (λ x. tokens b'\n' (codes "tables=" ++ x))
      (append_assoc (show cfg.max_tables) (b'\n' ∷ []) rest)
    ∙ token_line (codes "tables=" ++ show cfg.max_tables) rest (tables-IsToken cfg.max_tables)

tokens_next :
    (cfg : StoreConfig)
    → tokens b'\n' (next_line cfg) ≡ (codes "next_order_id=" ++ show cfg.next_order_id) ∷ []
tokens_next cfg =
    token_line (codes "next_order_id=" ++ show cfg.next_order_id) []
      (next-IsToken cfg.next_order_id)
    ∙ ap (◌∷◌ (codes "next_order_id=" ++ show cfg.next_order_id)) no_tokens

pub tokens-missing :
    (cfg : StoreConfig) (t n : Bool) → tokens b'\n' (missing cfg t n) ≡ missing_lines cfg t n
tokens-missing cfg true true = no_tokens
tokens-missing cfg true false = tokens_next cfg
tokens-missing cfg false true =
    tokens_tables cfg [] ∙ ap (◌∷◌ (codes "tables=" ++ show cfg.max_tables)) no_tokens
tokens-missing cfg false false =
    tokens_tables cfg (next_line cfg)
    ∙ ap (◌∷◌ (codes "tables=" ++ show cfg.max_tables)) (tokens_next cfg)

pub missing-read :
    (cfg c : StoreConfig) (t n : Bool)
    → IsInt cfg.max_tables
    → IsInt cfg.next_order_id
    → Agrees cfg t n c
    → config_lines (missing_lines cfg t n) c ≡ cfg
unfolding config_lines config_line
missing-read cfg c true true i j a =
    ap (λ x. record c { max_tables = x }) (a.0 refl)
    ∙ ap (λ x. record cfg { next_order_id = x }) (a.1 refl)
missing-read cfg c true false i j a =
    ap (λ x. record c { next_order_id = x }) (atoi-show_alone cfg.next_order_id j)
    ∙ ap (λ x. record cfg { max_tables = x }) (a.0 refl)
missing-read cfg c false true i j a =
    ap (λ x. record c { max_tables = x }) (atoi-show_alone cfg.max_tables i)
    ∙ ap (λ x. record cfg { next_order_id = x }) (a.1 refl)
missing-read cfg c false false i j a =
    rw (atoi-show_alone cfg.max_tables i, atoi-show_alone cfg.next_order_id j) refl

put_tail_fits :
    (out text : Bytes) → length out + length text < 8192 → put_tail out text ≡ some (out ++ text)
put_tail_fits out text h =
    let z : ltb (length out + length text) 8192 ≡ true = ground (arith, h) in rw z refl

tables_line_short : (cfg : StoreConfig) → IsInt cfg.max_tables → length (tables_line cfg) ≤ 19
tables_line_short cfg i =
    omega (arith, length-append (show cfg.max_tables) (b'\n' ∷ []), show_short cfg.max_tables i)

next_line_short : (cfg : StoreConfig) → IsInt cfg.next_order_id → length (next_line cfg) ≤ 26
next_line_short cfg i =
    omega
      (arith, length-append (show cfg.next_order_id) (b'\n' ∷ []), show_short cfg.next_order_id i)

pub put_missing_fits :
    (cfg : StoreConfig) (out : Bytes) (t n : Bool)
    → IsInt cfg.max_tables
    → IsInt cfg.next_order_id
    → length out + 45 < 8192
    → put_missing n (put_missing t (some out) (tables_line cfg)) (next_line cfg)
      ≡ some (out ++ missing cfg t n)
put_missing_fits cfg out true true i j h = ap some (sym (append-nil out))
put_missing_fits cfg out true false i j h =
    put_tail_fits out (next_line cfg) (omega (arith, h, next_line_short cfg j))
put_missing_fits cfg out false true i j h =
    put_tail_fits out (tables_line cfg) (omega (arith, h, tables_line_short cfg i))
    ∙ ap (λ x. some (out ++ x)) (sym (append-nil (tables_line cfg)))
put_missing_fits cfg out false false i j h =
    let a = tables_line_short cfg i in
    let b = next_line_short cfg j in
    ap (λ o. put_missing false o (next_line cfg))
      (put_tail_fits out (tables_line cfg) (omega (arith, h, a)))
    ∙ put_tail_fits (out ++ tables_line cfg) (next_line cfg)
        (omega (arith, h, a, b, length-append out (tables_line cfg)))
    ∙ ap some (append_assoc out (tables_line cfg) (next_line cfg))
