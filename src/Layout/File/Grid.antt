-- ===== src/Layout/File/Grid.antt =====
-- The text of a saved layout, as `layout_load` of src/layout.c reads it.
use system_programming_team.Common.{max_tables}
use system_programming_team.Layout.File.Keys.{lines_from-line}
use system_programming_team.Layout.File.Rows.{IsGoodTable, kept_tables, rows-read}
use system_programming_team.Layout.File.Saving.{active_rows}
use system_programming_team.Layout.File.{
  max_grid_rows, max_grid_cols, in_range, or_default, layout_line, layout_lines, lines_from,
  layout_of_text, grid_text,
}
use system_programming_team.Layout.{StoreLayout, TablePlacement, layout_init}
use system_programming_team.Prelude.{
  ℕ, ◌≤◌, ◌≡◌, ◌≢◌, refl, ap, ◌∙◌, false, List, [], ◌∷◌, ◌++◌, append_assoc, Option, some, arith,
  length, All, All-append, Lacks, Bytes, ℤ, pos, ◌≤ℤ◌, ◌<ℤ◌, IsInt, leb_ℤ, ltb_ℤ,
}
use system_programming_team.Text.Decimal.{show-Lacks, atoi-show_alone}
use system_programming_team.Text.{show, codes}

-- A layout that the file can hold.
pub record IsGoodLayout (layout : StoreLayout) : Type 0 where
  pub some_row : pos 0 <ℤ layout.grid_rows
  pub rows : layout.grid_rows ≤ℤ pos max_grid_rows
  pub some_col : pos 0 <ℤ layout.grid_cols
  pub cols : layout.grid_cols ≤ℤ pos max_grid_cols
  pub bounded : length layout.tables ≤ max_tables
  pub tables : All IsGoodTable layout.tables
  pub some_table : kept_tables layout.tables ≢ []

-- The layout with its active tables only.
abbrev pub kept : StoreLayout → StoreLayout
kept layout = record layout { tables = kept_tables layout.tables }

abbrev setting : Bytes → ℤ → Bytes
setting name a = name ++ show a

setting-Lacks : (name : Bytes) (a : ℤ) → Lacks b'\n' name → Lacks b'\n' (setting name a)
setting-Lacks name a h =
    All-append (λ c. c ≢ b'\n') name (show a) h (show-Lacks b'\n' a refl (omega arith))

grid_text-lines :
    (layout : StoreLayout) (rest : Bytes)
    → grid_text layout ++ rest
      ≡ codes "# POS table layout (grid + placements)"
        ++ (b'\n' ∷ setting (codes "grid_rows=") layout.grid_rows
            ++ (b'\n' ∷ setting (codes "grid_cols=") layout.grid_cols ++ b'\n' ∷ rest))
unfolding grid_text
grid_text-lines layout rest = simp append_assoc

rows_line :
    (a : ℤ) (behind : Option Bytes) (layout : StoreLayout)
    → IsInt a
    → layout_line (setting (codes "grid_rows=") a) behind layout
      ≡ some (record layout { grid_rows = a })
unfolding layout_line
rows_line a behind layout h = ap (λ n. some (record layout { grid_rows = n })) (atoi-show_alone a h)

cols_line :
    (a : ℤ) (behind : Option Bytes) (layout : StoreLayout)
    → IsInt a
    → layout_line (setting (codes "grid_cols=") a) behind layout
      ≡ some (record layout { grid_cols = a })
unfolding layout_line
cols_line a behind layout h = ap (λ n. some (record layout { grid_cols = n })) (atoi-show_alone a h)

layout_lines-line :
    (l : Bytes) (behind : Option Bytes) (ls : List (Bytes × Option Bytes))
    (layout next : StoreLayout)
    → layout_line l behind layout ≡ some next
    → layout_lines ((l, behind) ∷ ls) layout ≡ layout_lines ls next
unfolding layout_lines
layout_lines-line l behind ls layout next h = rw h refl

pub IsInt-of : (most : ℕ) (a : ℤ) → most ≤ 1000 → pos 0 <ℤ a → a ≤ℤ pos most → IsInt a
IsInt-of most a m l h = record { above = omega (arith, l); below = omega (arith, h, m) }

in_range_same : (most : ℕ) (other a : ℤ) → pos 0 <ℤ a → a ≤ℤ pos most → in_range most other a ≡ a
in_range_same most other a l h =
    let p : leb_ℤ a (pos 0) ≡ false = ground (arith, l) in
    let q : ltb_ℤ (pos most) a ≡ false = ground (arith, h) in rw (p, q) refl

or_default-kept :
    (rows cols : ℤ) (tps : List TablePlacement)
    → tps ≢ []
    → in_range max_grid_rows (pos 9) rows ≡ rows
    → in_range max_grid_cols (pos 14) cols ≡ cols
    → or_default (record { grid_rows = rows; grid_cols = cols; tables = tps })
      ≡ record { grid_rows = rows; grid_cols = cols; tables = tps }
unfolding or_default
or_default-kept rows cols [] n r c = absurd (n refl)
or_default-kept rows cols (tp ∷ tps) n r c =
    ap
      (λ x. record {
        grid_rows = x;
        grid_cols = in_range max_grid_cols (pos 14) cols;
        tables = tp ∷ tps;
      })
      r
    ∙ ap (λ x. record { grid_rows = rows; grid_cols = x; tables = tp ∷ tps }) c

comment_line :
    (s : Bytes) (behind : Option Bytes) (layout : StoreLayout)
    → layout_line (b'#' ∷ s) behind layout ≡ some layout
unfolding layout_line
comment_line s behind layout = refl

lines-read :
    (layout : StoreLayout)
    → IsGoodLayout layout
    → layout_lines (lines_from [] (grid_text layout ++ active_rows layout.tables)) layout_init
      ≡ some (kept layout)
unfolding layout_init
lines-read layout g =
    let rest = active_rows layout.tables in
    let comment = codes "# POS table layout (grid + placements)" in
    let rows = setting (codes "grid_rows=") layout.grid_rows in
    let cols = setting (codes "grid_cols=") layout.grid_cols in
    let i = IsInt-of max_grid_rows layout.grid_rows (omega arith) g.some_row g.rows in
    let j = IsInt-of max_grid_cols layout.grid_cols (omega arith) g.some_col g.cols in
    let no_rows : StoreLayout = record { grid_rows = pos 5; grid_cols = pos 7; tables = [] } in
    let only_rows : StoreLayout = record no_rows { grid_rows = layout.grid_rows } in
    let only_grid : StoreLayout = record only_rows { grid_cols = layout.grid_cols } in
    ap (λ t. layout_lines (lines_from [] t) no_rows) (grid_text-lines layout rest)
    ∙ ap (λ ls. layout_lines ls no_rows) (lines_from-line comment _ (λ e. cc) (omega arith))
    ∙ layout_lines-line comment _ _ no_rows no_rows (comment_line _ _ no_rows)
    ∙ ap (λ ls. layout_lines ls no_rows)
        (lines_from-line rows _ (λ e. cc)
          (setting-Lacks (codes "grid_rows=") layout.grid_rows (omega arith)))
    ∙ layout_lines-line rows _ _ no_rows only_rows (rows_line layout.grid_rows _ no_rows i)
    ∙ ap (λ ls. layout_lines ls only_rows)
        (lines_from-line cols _ (λ e. cc)
          (setting-Lacks (codes "grid_cols=") layout.grid_cols (omega arith)))
    ∙ layout_lines-line cols _ _ only_rows only_grid (cols_line layout.grid_cols _ only_rows j)
    ∙ rows-read layout.tables only_grid g.tables (omega (arith, g.bounded))

pub layout_of_text-read :
    (layout : StoreLayout)
    → IsGoodLayout layout
    → layout_of_text (grid_text layout ++ active_rows layout.tables) ≡ some (kept layout)
unfolding layout_of_text
layout_of_text-read layout g =
    rw (lines-read layout g, layout_of_text)
      (ap some (
        or_default-kept layout.grid_rows layout.grid_cols (kept_tables layout.tables) g.some_table
          (in_range_same max_grid_rows (pos 9) layout.grid_rows g.some_row g.rows)
          (in_range_same max_grid_cols (pos 14) layout.grid_cols g.some_col g.cols)))
