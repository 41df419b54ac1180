-- ===== src/Menu/Files/Loading.antt =====
-- The calls that `menu_load_file` of src/menu.c makes of itself.
pub mod Replies
use system_programming_team.Common.{MenuItem, MenuCatalog}
use system_programming_team.Menu.Files.{
  default_csv, write_default_menu_file, load_text, take_menu, read_menu, load_once, menu_load_file,
  load_rows, row_item, parse_header_ok,
}
use system_programming_team.Menu.{menu_fill_defaults}
use system_programming_team.Os.Files.{is_whole, write_lem, open_trunc_lem}
use system_programming_team.Os.{
  Reply, World, next_reply, after_reply, is_fine, stat, open_read, read, open_trunc, write,
  written_by, content_of,
}
use system_programming_team.Prelude.{
  ℕ, zero, suc, ◌-◌, ◌≤◌, ◌≡◌, ◌≢◌, refl, sym, ap, subst, ◌∙◌, List, [], ◌∷◌, ◌++◌, Option, none,
  some, Result, ok, arith, length, Bytes, Bool-cases, Option-cases, Result-cases, inl, inr, wrap,
}
use system_programming_team.Text.{
  tokens, tokens_from, after_find, atoi, atoll, signed, leading, skip_space,
}
use system_programming_team.Menu.Files.Loading.Replies.{left, load_once-lt}

-- The default file has dishes.
default_loads : (m : MenuItem) × (ms : List MenuItem) × (load_text default_csv ≡ ok (m ∷ ms))
unfolding load_text load_rows row_item parse_header_ok menu_fill_defaults tokens tokens_from
    after_find atoi atoll signed leading skip_space wrap
default_loads = (_, _, refl)

write_default_file :
    (path : Bytes) (w : World) (u : Unit {0})
    → (write_default_menu_file path w).0 ≡ ok u
    → (write_default_menu_file path w).1.files path ≡ some default_csv
unfolding write_default_menu_file
write_default_file path w u h =
    let w1 = (open_trunc path w).1 in
    elim (Bool-cases (open_trunc path w).0) [
      | inr e ↦ absurd (ground arith)
      | inl e ↦ elim (Bool-cases (is_whole (write path default_csv w1).0 default_csv)) [
        | inr f ↦ absurd (ground arith)
        | inl f ↦
            rw (e, f, write_default_menu_file)
              ((write_lem path default_csv w1).0 f
                ∙ ap (λ o. some (content_of o ++ default_csv)) ((open_trunc_lem path w).0 e))
      ]
    ]

-- When a call is to be made again, the file is the default file.
abbrev Defaults : Bytes → Option (Result MenuCatalog) × World → Type 0
Defaults path r = r.0 ≡ none → r.1.files path ≡ some default_csv

take_menu-Defaults : (path buf : Bytes) (w : World) → Defaults path (take_menu path buf w)
unfolding take_menu
take_menu-Defaults path buf w = elim (Result-cases (load_text buf)) [
  | inl (e, h) ↦ rw (h, take_menu) (λ q. cc)
  | inr (m ∷ ms, h) ↦ rw (h, take_menu) (λ q. cc)
  | inr ([], h) ↦ elim (Result-cases (write_default_menu_file path w).0) [
    | inl (e, g) ↦ rw (h, g, take_menu) (λ q. cc)
    | inr (u, g) ↦ rw (h, g, take_menu) (λ q. write_default_file path w u g)
  ]
]

read_menu-Defaults : (path text : Bytes) (w : World) → Defaults path (read_menu path text w)
unfolding read_menu
read_menu-Defaults path text w =
    let w1 = (open_read path w).1 in
    elim (Option-cases (open_read path w).0) [
      | inl e ↦ rw (e, read_menu) (λ q. cc)
      | inr (content, e) ↦ elim (Option-cases (read 65535 content w1).0) [
        | inl f ↦ rw (e, f, read_menu) (λ q. cc)
        | inr (buf, f) ↦
            rw (e, f, read_menu) (take_menu-Defaults path buf (read 65535 content w1).1)
      ]
    ]

load_once-Defaults : (path : Bytes) (w : World) → Defaults path (load_once path w)
unfolding load_once
load_once-Defaults path w =
    let w1 = (stat path w).1 in
    elim (Option-cases (stat path w).0) [
      | inr (n, e) ↦ rw (e, load_once) (read_menu-Defaults path w.error_text w1)
      | inl e ↦ elim (Result-cases (write_default_menu_file path w1).0) [
        | inl (m, f) ↦ rw (e, f, load_once) (λ q. cc)
        | inr (_, f) ↦
            rw (e, f, load_once)
              (read_menu-Defaults path w.error_text (write_default_menu_file path w1).1)
      ]
    ]

take_some :
    (path buf : Bytes) (w : World) (m : MenuItem) (ms : List MenuItem)
    → load_text buf ≡ ok (m ∷ ms)
    → (take_menu path buf w).0 ≢ none
unfolding take_menu
take_some path buf w m ms h = rw (h, take_menu) (λ e. cc)

-- Where no call is going to fail, the default file is taken.
load_default :
    (path : Bytes) (w : World)
    → w.files path ≡ some default_csv
    → (load_once path (record w { replies = [] })).0 ≢ none
unfolding load_once read_menu stat open_read read next_reply after_reply
load_default path w h =
    rw (h, load_once)
      (rw (h, read_menu)
        (let (m, ms, q) = default_loads in
          take_some path default_csv (record w { replies = [] }) m ms q))

no_reply : (rs : List Reply) → length rs ≤ 0 → rs ≡ []
no_reply [] h = refl
no_reply (r ∷ rs) h = absurd (omega arith)

load_calm :
    (path : Bytes) (w : World)
    → left w ≤ 0
    → w.files path ≡ some default_csv
    → (load_once path w).0 ≢ none
load_calm path w h f =
    subst (λ rs. (load_once path (record w { replies = rs })).0 ≢ none) (sym (no_reply w.replies h))
      (load_default path w f)

one_call :
    (path : Bytes) (w : World) (n : ℕ)
    → (load_once path w).0 ≢ none
    → (menu_load_file (suc n) path w).0 ≢ none
unfolding menu_load_file
one_call path w n h = elim (Option-cases (load_once path w).0) [
  | inr (r, e) ↦ rw (e, menu_load_file) (λ q. cc)
  | inl e ↦ absurd (h e)
]

next_call :
    (path : Bytes) (w : World) (n : ℕ)
    → (load_once path w).0 ≡ none
    → (menu_load_file n path (load_once path w).1).0 ≢ none
    → (menu_load_file (suc n) path w).0 ≢ none
unfolding menu_load_file
next_call path w n e h = rw (e, menu_load_file) h

-- Whatever the system answers, the calls that `menu_load_file` makes of itself come to an end: two
-- more than the replies that are given are always enough.
pub menu_load_file-ends :
    (n : ℕ) (path : Bytes) (w : World)
    → length w.replies ≤ n
    → (menu_load_file (suc (suc n)) path w).0 ≢ none
menu_load_file-ends zero path w h = elim (Option-cases (load_once path w).0) [
  | inr (r, e) ↦ one_call path w 1 (λ q. cc)
  | inl e ↦
      let w1 = (load_once path w).1 in
      next_call path w 1 e (
        one_call path w1 0
          (load_calm path w1 (omega (arith, load_once-lt path w)) (load_once-Defaults path w e)))
]
menu_load_file-ends (suc n) path w h = elim (Option-cases (load_once path w).0) [
  | inr (r, e) ↦ one_call path w (suc (suc n)) (λ q. cc)
  | inl e ↦
      next_call path w (suc (suc n)) e
        (menu_load_file-ends n path (load_once path w).1 (omega (arith, load_once-lt path w)))
]
