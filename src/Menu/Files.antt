-- ===== src/Menu/Files.antt =====
-- The menu's file in src/menu.c: the default file, loading, and saving through a temporary file.
pub mod Saving
pub mod Loading
use system_programming_team.Common.{MenuItem, MenuCatalog, max_menu_items, max_category, max_name}
use system_programming_team.Menu.{menu_init_catalog, menu_fill_defaults}
use system_programming_team.Os.{World, stat, open_read, read, open_trunc, write, fsync, rename}
use system_programming_team.Os.Files.{is_whole}
use system_programming_team.Prelude.{
  ℕ, zero, suc, ◌==◌, Bool, true, false, ◌&&◌, List, [], ◌∷◌, ◌++◌, Option, none, some, Result, ok,
  err, leb, if◌then◌else◌, length, Bytes, ℤ, pos, leb_ℤ, not,
}
use system_programming_team.Text.{
  codes, fit, truth, non_empty, other_category, after_find, tokens, atoi, show,
}

abbrev pub default_csv : Bytes
default_csv =
    codes "id,name,price,soldout,category,popular\n1,Kimchi Fried Rice,9000,0,식사,1\n"
    ++ codes "2,Soy Sauce Egg Rice,7500,0,식사,0\n3,Miso Soup,3000,0,사이드,0\n"
    ++ codes "4,Ice Americano,4500,0,음료,1\n5,Latte,5000,0,음료,0\n"

unfoldable pub write_default_menu_file : Bytes → World → Result (Unit {0}) × World
unfolding open_trunc write
write_default_menu_file path w =
    let (opened, w1) = open_trunc path w in
    let (wr, w2) = write path default_csv w1 in
    if not opened
    then (err (codes "open default menu: " ++ w.error_text), w1)
    else if not (is_whole wr default_csv)
    then (err (codes "write default menu incomplete"), w2)
    else (ok tt, w2)

abbrev found : Option Bytes → Bool
found none = false
found (some r) = true

unfoldable pub parse_header_ok : Bytes → Bool
unfolding after_find
parse_header_ok line =
    found (after_find (codes "id") line)
    && (found (after_find (codes "name") line) && found (after_find (codes "price") line))

-- `x ? (atoi (x) ? 1 : 0) : 0`, on the tokens from the one meant.
abbrev pub flag_of : List Bytes → ℤ
flag_of [] = pos 0
flag_of (t ∷ _) = truth (atoi t)

-- A token is never empty, so `categorytok[0] != 0` holds where there is one.
abbrev pub category_of : List Bytes → Bytes
category_of [] = []
category_of (t ∷ _) = fit max_category t

-- The entry of the tokens of a row, none where fewer than four are there.
unfoldable pub row_item : List Bytes → Option MenuItem
unfolding menu_fill_defaults atoi
row_item [] = none
row_item (a ∷ []) = none
row_item (a ∷ b ∷ []) = none
row_item (a ∷ b ∷ c ∷ []) = none
row_item (a ∷ b ∷ c ∷ d ∷ rest) = some (
    menu_fill_defaults (record {
      id = atoi a;
      name = fit max_name b;
      category = category_of rest;
      price = atoi c;
      sold_out = truth (atoi d);
      popular = flag_of (elim rest [ [] ↦ [] | _ ∷ more ↦ more ]);
    }))

-- `m->id > 0 && m->name[0]`
abbrev pub is_kept : MenuItem → Bool
is_kept m = not (leb_ℤ m.id (pos 0)) && elim m.name [ [] ↦ false | _ ∷ _ ↦ true ]

-- The loop over the rows behind the header.
unfoldable pub load_rows : List Bytes → List MenuItem → List MenuItem
unfolding row_item tokens
load_rows [] items = items
load_rows (line ∷ lines) items =
    let skip = load_rows lines items in
    elim (row_item (tokens b',' (fit 512 line))) [
      | none ↦ skip
      | some m ↦
          if leb max_menu_items (length items)
          then items
          else (if is_kept m then load_rows lines (items ++ m ∷ []) else skip)
    ]

-- The whole loop; a text with no line at all has no header to refuse.
unfoldable pub load_text : Bytes → Result (List MenuItem)
unfolding load_rows tokens parse_header_ok
load_text text = elim (tokens b'\n' text) [
  | [] ↦ ok []
  | header ∷ rows ↦
      if parse_header_ok (fit 512 header)
      then ok (load_rows rows [])
      else err (codes "bad csv header")
]

-- The part of `menu_load_file` behind the reading of the file.
unfoldable pub take_menu : Bytes → Bytes → World → Option (Result MenuCatalog) × World
unfolding load_text write_default_menu_file
take_menu path buf w = elim (load_text buf) [
  | err e ↦ (some (err e), w)
  | ok (m ∷ ms) ↦ (some (ok (record { items = m ∷ ms })), w)
  | ok [] ↦
      let (again, w') = write_default_menu_file path w in
      elim again [ err e ↦ (some (err e), w') | ok _ ↦ (none, w') ]
]

-- The part behind the creation of the file; the error text is that of the first failure.
unfoldable pub read_menu : Bytes → Bytes → World → Option (Result MenuCatalog) × World
unfolding open_read read take_menu
read_menu path error_text w =
    let (fd, w1) = open_read path w in
    elim fd [
      | none ↦ (some (err (codes "open menu: " ++ error_text)), w1)
      | some content ↦
          let (rd, w2) = read 65535 content w1 in
          elim rd [
            | none ↦ (some (err (codes "read menu: " ++ error_text)), w2)
            | some buf ↦ take_menu path buf w2
          ]
    ]

-- One call of `menu_load_file` up to its own call, for which it returns none.
unfoldable pub load_once : Bytes → World → Option (Result MenuCatalog) × World
unfolding stat read_menu write_default_menu_file
load_once path w =
    let (st, w1) = stat path w in
    elim st [
      | some _ ↦ read_menu path w.error_text w1
      | none ↦
          let (made, w2) = write_default_menu_file path w1 in
          elim made [ err e ↦ (some (err e), w2) | ok _ ↦ read_menu path w.error_text w2 ]
    ]

-- `menu_load_file`; none where the fuel for its own calls runs out.
unfoldable pub menu_load_file : ℕ → Bytes → World → Option (Result MenuCatalog) × World
unfolding load_once
menu_load_file zero path w = (none, w)
menu_load_file (suc fuel) path w =
    let (r, w') = load_once path w in
    let again = menu_load_file fuel path w' in elim r [ none ↦ again | some x ↦ (some x, w') ]

unfoldable pub csv_row : MenuItem → Bytes
unfolding show
csv_row m =
    show m.id
    ++ (b',' ∷ m.name
        ++ (b',' ∷ show m.price
            ++ (b',' ∷ show (truth m.sold_out)
                ++ (b',' ∷ non_empty m.category other_category
                    ++ (b',' ∷ show (truth m.popular) ++ b'\n' ∷ [])))))

abbrev pub csv_header : Bytes
csv_header = codes "id,name,price,soldout,category,popular\n"

-- The loop that writes the rows. A row is printed into a buffer of 512 bytes, which holds every row
-- whose name and category fit their arrays.
unfoldable pub write_rows : List MenuItem → Bytes → World → Bool × World
unfolding write csv_row
write_rows [] path w = (true, w)
write_rows (m ∷ ms) path w =
    let (n, w') = write path (fit 512 (csv_row m)) w in
    let rest = write_rows ms path w' in
    if is_whole n (fit 512 (csv_row m)) then rest else (false, w')

-- `"%s.tmp"` in a buffer of 512 bytes.
abbrev pub tmp_path : Bytes → Bytes
tmp_path path = fit 512 (path ++ codes ".tmp")

unfoldable pub menu_save_file : MenuCatalog → Bytes → World → Result (Unit {0}) × World
unfolding open_trunc write write_rows fsync rename
menu_save_file cat path w =
    let tmp = tmp_path path in
    let (opened, w1) = open_trunc tmp w in
    let (n, w2) = write tmp csv_header w1 in
    let (rows, w3) = write_rows cat.items tmp w2 in
    let (synced, w4) = fsync w3 in
    let (renamed, w5) = rename tmp path w4 in
    if not opened
    then (err (codes "open tmp menu: " ++ w.error_text), w1)
    else if not (is_whole n csv_header)
    then (err (codes "write header failed"), w2)
    else if not rows
    then (err (codes "write row failed"), w3)
    else if not synced
    then (err (codes "fsync menu tmp failed"), w4)
    else (if renamed then ok tt else err (codes "rename menu: " ++ w.error_text), w5)
