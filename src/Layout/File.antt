-- ===== src/Layout/File.antt =====
-- The layout's file in src/layout.c: the default file, loading, and saving through a temporary file.
pub mod Saving
pub mod Keys
pub mod Rows
pub mod Grid
pub mod RoundTrip
use system_programming_team.Common.{max_tables}
use system_programming_team.Layout.{
  TableZone, outside, StoreLayout, TablePlacement, layout_init, layout_init_default,
  layout_zone_name, layout_zone_from_string,
}
use system_programming_team.Menu.Files.{tmp_path}
use system_programming_team.Os.{World, stat, open_read, read, open_trunc, write, fsync, rename}
use system_programming_team.Os.Files.{is_whole}
use system_programming_team.Prelude.{
  ℕ, zero, suc, ◌+◌, ◌==◌, Bool, true, false, ◌&&◌, ◌||◌, not, List, [], ◌∷◌, ◌++◌, Option, none,
  some, Result, ok, err, ltb, leb, if◌then◌else◌, length, Bytes, ℤ, pos, leb_ℤ, ltb_ℤ,
}
use system_programming_team.Text.{
  codes, fit, show, atoi, after_prefix, is_space, is_digit, is_true, skip_space, cut_at,
}

-- Whether `%d` finds a number at a text that has no space in front.
abbrev pub has_number : Bytes → Bool
has_number [] = false
has_number (c ∷ []) = is_digit c
has_number (c ∷ d ∷ s) = is_digit c || (((c == b'-') || (c == b'+')) && is_digit d)

-- `sscanf (s, "%d", &x)`: the number keeps its value where there is none to read.
unfoldable pub scan_int : Bytes → ℤ → ℤ
unfolding atoi skip_space
scan_int s x = if has_number (skip_space s) then atoi s else x

-- The first bytes of a text that are no space, at most `n`.
unfoldable pub word : ℕ → Bytes → Bytes
word zero s = []
word (suc n) [] = []
word (suc n) (c ∷ s) = let rest = word n s in if is_space c then [] else c ∷ rest

abbrev pub or_old : Bytes → Bytes → Bytes
or_old [] old = old
or_old (c ∷ s) old = c ∷ s

-- `sscanf (s, "%15s", buf)`.
unfoldable pub scan_word : Bytes → Bytes → Bytes
unfolding word skip_space
scan_word s old = or_old (word 15 (skip_space s)) old

-- What the loop over the keys of a table's line fills.
pub record TableKeys : Type 0 where
  pub zonebuf : Bytes
  pub row : ℤ
  pub col : ℤ
  pub labelbuf : Bytes

-- The key at `p`, if one stands there.
unfoldable pub take_key : Bytes → TableKeys → TableKeys
unfolding scan_int scan_word
take_key p t = elim (after_prefix (codes "zone=") p) [
  | some s ↦ record t { zonebuf = scan_word s t.zonebuf }
  | none ↦ elim (after_prefix (codes "row=") p) [
    | some s ↦ record t { row = scan_int s t.row }
    | none ↦ elim (after_prefix (codes "col=") p) [
      | some s ↦ record t { col = scan_int s t.col }
      | none ↦ elim (after_prefix (codes "label=") p) [
        | some s ↦ record t { labelbuf = scan_word s t.labelbuf }
        | none ↦ t
      ]
    ]
  ]
]

-- The loop over the keys from `p` to the end of its text. A key stands behind a space that no
-- other space follows. The flag tells that spaces end the text: then `p` is at the NUL, and
-- `strchr (p + 1, ' ')` goes on behind it.
unfoldable pub keys_loop : Bytes → TableKeys → TableKeys × Bool
unfolding take_key
keys_loop [] t = (t, false)
keys_loop (c ∷ []) t = (t, c == 32)
keys_loop (c ∷ d ∷ s) t =
    let next = keys_loop (d ∷ s) (take_key (d ∷ s) t) in
    let skip = keys_loop (d ∷ s) t in if (c == 32) && not (d == 32) then next else skip

-- All keys of a line, `behind` being what the buffer holds behind the line's NUL, none at the end of
-- the buffer. The result is none where the loop reads behind the buffer.
unfoldable pub line_keys : Bytes → Option Bytes → TableKeys → Option TableKeys
unfolding keys_loop
line_keys s behind t =
    let (u, past) = keys_loop s t in
    if past
    then elim behind [
      | none ↦ none
      | some more ↦ let (v, again) = keys_loop more u in if again then none else some v
    ]
    else some u

-- The placement of a table's line behind "table=".
unfoldable pub table_line : Bytes → Option Bytes → Option TablePlacement
unfolding line_keys scan_int layout_zone_from_string show
table_line s behind =
    let id = scan_int s (pos 0) in
    let start : TableKeys = record { zonebuf = []; row = pos 0; col = pos 0; labelbuf = [] } in
    elim (line_keys s behind start) [
      | none ↦ none
      | some t ↦ some (record {
        table_id = id;
        zone = layout_zone_from_string (some t.zonebuf);
        row = t.row;
        col = t.col;
        label = fit 16 (or_old t.labelbuf (b'T' ∷ show id));
        active = pos 1;
      })
    ]

-- One line of the file.
unfoldable pub layout_line : Bytes → Option Bytes → StoreLayout → Option StoreLayout
unfolding table_line atoi
layout_line l behind layout = elim (after_prefix (codes "#") l) [
  | some _ ↦ some layout
  | none ↦ elim (after_prefix (codes "grid_rows=") l) [
    | some s ↦ some (record layout { grid_rows = atoi s })
    | none ↦ elim (after_prefix (codes "grid_cols=") l) [
      | some s ↦ some (record layout { grid_cols = atoi s })
      | none ↦ elim (after_prefix (codes "table=") l) [
        | none ↦ some layout
        | some s ↦
            if leb max_tables (length layout.tables)
            then some layout
            else elim (table_line s behind) [
              | none ↦ none
              | some tp ↦ some (record layout { tables = layout.tables ++ tp ∷ [] })
            ]
      ]
    ]
  ]
]

abbrev pub add_line :
    Bytes → Option Bytes → List (Bytes × Option Bytes) → List (Bytes × Option Bytes)
add_line [] behind ls = ls
add_line (c ∷ s) behind ls = (c ∷ s, behind) ∷ ls

-- The lines of the buffer, as `strtok_r` returns them, with what the buffer holds behind each.
unfoldable pub lines_from : Bytes → Bytes → List (Bytes × Option Bytes)
lines_from cur [] = add_line cur none []
lines_from cur (c ∷ s) =
    let cut = add_line cur (some s) (lines_from [] s) in
    let more = lines_from (cur ++ c ∷ []) s in if c == b'\n' then cut else more

-- The loop over the lines.
unfoldable pub layout_lines : List (Bytes × Option Bytes) → StoreLayout → Option StoreLayout
unfolding layout_line
layout_lines [] layout = some layout
layout_lines ((l, behind) ∷ ls) layout = elim (layout_line l behind layout) [
  | none ↦ none
  | some next ↦ layout_lines ls next
]

abbrev pub max_grid_rows : ℕ
max_grid_rows = 24

abbrev pub max_grid_cols : ℕ
max_grid_cols = 40

-- `x`, or `other` where it is not between 1 and `most`.
abbrev pub in_range : ℕ → ℤ → ℤ → ℤ
in_range most other x = if leb_ℤ x (pos 0) || ltb_ℤ (pos most) x then other else x

-- The end of `layout_load`.
unfoldable pub or_default : StoreLayout → StoreLayout
unfolding layout_init_default
or_default layout = elim layout.tables [
  | [] ↦ layout_init_default
  | tp ∷ tps ↦ record {
    grid_rows = in_range max_grid_rows (pos 9) layout.grid_rows;
    grid_cols = in_range max_grid_cols (pos 14) layout.grid_cols;
    tables = tp ∷ tps;
  }
]

-- The layout of the text that was read.
unfoldable pub layout_of_text : Bytes → Option StoreLayout
unfolding layout_lines lines_from layout_init or_default
layout_of_text buf = elim (layout_lines (lines_from [] buf) layout_init) [
  | none ↦ none
  | some layout ↦ some (or_default layout)
]

unfoldable pub grid_text : StoreLayout → Bytes
unfolding show
grid_text layout =
    codes "# POS table layout (grid + placements)\n"
    ++ (codes "grid_rows="
        ++ (show layout.grid_rows
            ++ (b'\n' ∷ codes "grid_cols=" ++ (show layout.grid_cols ++ b'\n' ∷ []))))

unfoldable pub table_row : TablePlacement → Bytes
unfolding show layout_zone_name
table_row tp =
    codes "table="
    ++ (show tp.table_id
        ++ (codes " zone="
            ++ (layout_zone_name tp.zone
                ++ (codes " row="
                    ++ (show tp.row
                        ++ (codes " col="
                            ++ (show tp.col ++ (codes " label=" ++ (tp.label ++ b'\n' ∷ [])))))))))

-- The loop over the placements, behind what `body` holds; none where the buffer is full.
unfoldable pub table_rows : List TablePlacement → Bytes → Option Bytes
unfolding table_row
table_rows [] body = some body
table_rows (tp ∷ tps) body =
    let skip = table_rows tps body in
    let next = table_rows tps (body ++ table_row tp) in
    if not (is_true tp.active)
    then skip
    else if leb 32768 (length body + length (table_row tp))
    then none
    else next

-- The part of `layout_save` behind the making of the text.
unfoldable pub store_body : Bytes → Bytes → World → Result (Unit {0}) × World
unfolding open_trunc write fsync rename
store_body path body w =
    let tmp = tmp_path path in
    let (opened, w1) = open_trunc tmp w in
    let (n, w2) = write tmp body w1 in
    let (synced, w3) = fsync w2 in
    let (renamed, w4) = rename tmp path w3 in
    if not opened
    then (err (codes "open layout tmp"), w1)
    else if not (is_whole n body)
    then (err (codes "write layout"), w3)
    else (if renamed then ok tt else err (codes "rename layout"), w4)

unfoldable pub layout_save : Bytes → StoreLayout → World → Result (Unit {0}) × World
unfolding grid_text table_rows store_body
layout_save path layout w = elim (table_rows layout.tables (grid_text layout)) [
  | none ↦ (err (codes "layout buffer full"), w)
  | some body ↦ store_body path body w
]

unfoldable pub ensure_layout_file : Bytes → World → World
unfolding stat layout_save layout_init_default
ensure_layout_file path w =
    let (st, w1) = stat path w in
    let saved = (layout_save path layout_init_default w1).1 in
    elim st [ some _ ↦ w1 | none ↦ saved ]

abbrev pub at_most : ℕ → ℕ → ℕ
at_most most n = if ltb most n then most else n

-- The part of `layout_load` behind the reading. The result is none where the loop over a line reads
-- behind the buffer.
unfoldable pub take_layout : Option Bytes × World → Option (Result StoreLayout) × World
unfolding layout_of_text
take_layout (rd, w) = elim rd [
  | none ↦ (some (err (codes "read layout")), w)
  | some buf ↦ (elim (layout_of_text buf) [ none ↦ none | some layout ↦ some (ok layout) ], w)
]

-- The part behind the size of the open file; `malloc` succeeds.
unfoldable pub sized_layout : Bytes → Option ℕ × World → Option (Result StoreLayout) × World
unfolding read take_layout
sized_layout content (st, w) = elim st [
  | none ↦ (some (err (codes "stat layout")), w)
  | some sz ↦ take_layout (read (at_most 65536 sz) content w)
]

-- The part behind the opening; `fstat` is `stat` of the open file.
unfoldable pub opened_layout :
    Bytes → Bytes → Option Bytes × World → Option (Result StoreLayout) × World
unfolding stat sized_layout
opened_layout path error_text (fd, w) = elim fd [
  | none ↦ (some (err (codes "open layout: " ++ error_text)), w)
  | some content ↦ sized_layout content (stat path w)
]

unfoldable pub layout_load : Bytes → World → Option (Result StoreLayout) × World
unfolding ensure_layout_file open_read opened_layout
layout_load path w =
    let w1 = ensure_layout_file path w in opened_layout path w1.error_text (open_read path w1)
