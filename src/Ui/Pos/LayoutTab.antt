-- ===== src/Ui/Pos/LayoutTab.antt =====
-- The keys of the cashier's tab that edits the layout.
use system_programming_team.Layout.File.{max_grid_rows, max_grid_cols, layout_save}
use system_programming_team.Layout.{
  StoreLayout, TablePlacement, TableZone, inside, outside, layout_find_at, layout_max_table_id,
}
use system_programming_team.Prelude.{
  ℕ, ◌-◌, Bool, true, false, ◌&&◌, not, List, [], ◌∷◌, Option, none, some, ok, err, if◌then◌else◌,
  get_elem?, set, Bytes, ℤ, pos, pos_part, leb_ℤ, add_int,
}
use system_programming_team.Server.{ServerContext, with_world, server_save_config}
use system_programming_team.Text.{fit, show}
use system_programming_team.Ui.Pos.Placing.{
  ui_pos_sync_max_tables, ui_pos_layout_find_index, ui_pos_layout_remove_at,
  ui_pos_layout_alloc_slot,
}
use system_programming_team.Ui.Pos.{PosUi, ask, ui_prompt_int, grid_key}
use system_programming_team.Ui.Rounds.{Key, is_char, is_enter}
use system_programming_team.Ui.Table.Loop.{layout_path}

-- `1 <= n && n <= most`
abbrev pub in_grid : ℕ → ℤ → Bool
in_grid most n = not (leb_ℤ n (pos 0)) && leb_ℤ n (pos most)

-- `if (x >= n) x = n - 1`, for an `n` that is positive.
abbrev pub shrink : ℤ → ℕ → ℕ
shrink n x = if leb_ℤ n (pos x) then pos_part n - 1 else x

-- The size of the grid, if both numbers are in range.
abbrev pub resized : ℤ → ℤ → PosUi → PosUi
resized nr nc ui =
    if in_grid max_grid_rows nr && in_grid max_grid_cols nc
    then record ui {
      layout = record ui.layout { grid_rows = nr; grid_cols = nc };
      grid_row = shrink nr ui.grid_row;
      grid_col = shrink nc ui.grid_col;
    }
    else ui

-- The key g; none where a prompt is never answered.
unfoldable pub resize : List Bytes → PosUi → Option PosUi
unfolding ui_prompt_int
resize answers ui = elim (ui_prompt_int answers) [
  | none ↦ none
  | some (nr, rest) ↦ elim (ui_prompt_int rest) [
    | none ↦ none
    | some (nc, _) ↦ some (resized nr nc ui)
  ]
]

abbrev pub new_table : StoreLayout → ℕ → ℕ → TablePlacement
new_table layout row col =
    let id = add_int (layout_max_table_id layout) (pos 1) in
    record {
      table_id = id;
      zone = outside;
      row = pos row;
      col = pos col;
      label = fit 16 (b'T' ∷ show id);
      active = pos 1;
    }

-- The key a, at a free place. The id is computed while the new slot still holds `stale`.
unfoldable pub add_table : TablePlacement → PosUi → ServerContext → PosUi × ServerContext
unfolding layout_find_at ui_pos_layout_alloc_slot layout_max_table_id ui_pos_sync_max_tables add_int
    show
add_table stale ui ctx = elim (layout_find_at ui.layout (pos ui.grid_row) (pos ui.grid_col)) [
  | some _ ↦ (ui, ctx)
  | none ↦ elim (ui_pos_layout_alloc_slot stale ui.layout) [
    | none ↦ (ui, ctx)
    | some (slot, grown) ↦
        let layout : StoreLayout = record grown {
          tables = set grown.tables slot (new_table grown ui.grid_row ui.grid_col);
        } in
        (
          record ui { layout = layout; layout_edit_idx = some slot },
          ui_pos_sync_max_tables layout ctx,
        )
  ]
]

-- A change of the placement that is edited; the search has found it in the array.
unfoldable pub edit_table : (TablePlacement → TablePlacement) → PosUi → PosUi
edit_table f ui = elim ui.layout_edit_idx [
  | none ↦ ui
  | some i ↦ elim (get_elem? ui.layout.tables i) [
    | none ↦ ui
    | some tp ↦ record ui { layout = record ui.layout { tables = set ui.layout.tables i (f tp) } }
  ]
]

abbrev pub other_zone : TableZone → TableZone
other_zone inside = outside
other_zone outside = inside

abbrev pub turned : TablePlacement → TablePlacement
turned tp = record tp { zone = other_zone tp.zone }

abbrev pub labelled : Bytes → TablePlacement → TablePlacement
labelled [] tp = tp
labelled (c ∷ s) tp = record tp { label = fit 16 (c ∷ s) }

abbrev pub placed : ℕ → ℕ → TablePlacement → TablePlacement
placed row col tp = record tp { row = pos row; col = pos col }

abbrev pub is_some : Option ℕ → Bool
is_some none = false
is_some (some i) = true

-- The key d.
unfoldable pub delete_table : PosUi → PosUi
unfolding ui_pos_layout_remove_at
delete_table ui = elim ui.layout_edit_idx [
  | none ↦ ui
  | some i ↦ record ui { layout = ui_pos_layout_remove_at ui.layout i; layout_edit_idx = none }
]

-- Enter, in the mode for moving.
unfoldable pub put_down : PosUi → PosUi
unfolding layout_find_at edit_table
put_down ui =
    let there = edit_table (placed ui.grid_row ui.grid_col) ui in
    let rest : PosUi = elim (layout_find_at ui.layout (pos ui.grid_row) (pos ui.grid_col)) [
      | none ↦ there
      | some _ ↦ ui
    ] in
    record rest { layout_move_mode = false }

-- The key s.
unfoldable pub save_layout : PosUi → ServerContext → ServerContext
unfolding ui_pos_sync_max_tables layout_save server_save_config
save_layout ui ctx =
    let synced = ui_pos_sync_max_tables ui.layout ctx in
    let (r, w) = layout_save layout_path ui.layout synced.world in
    elim r [ err e ↦ with_world synced w | ok _ ↦ server_save_config (with_world synced w) ]

-- The block of the tab that edits the layout; none where a prompt is never answered. The tests of
-- the code exclude each other.
unfoldable pub layout_key :
    Key → List Bytes → TablePlacement → PosUi → ServerContext → Option (PosUi × ServerContext)
unfolding grid_key ui_pos_layout_find_index resize add_table delete_table edit_table put_down
    save_layout
layout_key key answers stale ui ctx =
    let moved = grid_key key ui in
    let at : PosUi = record moved {
      layout_edit_idx =
          ui_pos_layout_find_index moved.layout (pos moved.grid_row) (pos moved.grid_col);
    } in
    if is_char b'g' key
    then elim (resize answers at) [ none ↦ none | some v ↦ some (v, ctx) ]
    else if is_char b'a' key
    then some (add_table stale at ctx)
    else if is_char b'd' key
    then some (delete_table at, ctx)
    else if is_char b'z' key
    then some (edit_table turned at, ctx)
    else if is_char b'l' key
    then some (edit_table (labelled (ask 16 answers).0) at, ctx)
    else if is_char b'm' key && is_some at.layout_edit_idx
    then some (record at { layout_move_mode = not at.layout_move_mode }, ctx)
    else if at.layout_move_mode && (is_some at.layout_edit_idx && is_enter key)
    then some (put_down at, ctx)
    else if is_char b's' key
    then some (at, save_layout at ctx)
    else some (at, ctx)
