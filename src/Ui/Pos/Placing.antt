-- ===== src/Ui/Pos/Placing.antt =====
-- The functions of src/ui.c on the placements of the tables.
use system_programming_team.Common.{max_tables}
use system_programming_team.Keyed.{remove_at}
use system_programming_team.Layout.{StoreLayout, TablePlacement, stands_at, layout_max_table_id}
use system_programming_team.Prelude.{
  ℕ, suc, List, [], ◌∷◌, ◌++◌, Option, none, some, leb, if◌then◌else◌, length, ℤ, pos, leb_ℤ, ltb_ℤ,
}
use system_programming_team.Server.{ServerContext}
use system_programming_team.Text.{is_true}

-- The highest table of the layout is allowed.
unfoldable pub ui_pos_sync_max_tables : StoreLayout → ServerContext → ServerContext
unfolding layout_max_table_id
ui_pos_sync_max_tables layout ctx =
    let max_id = layout_max_table_id layout in
    if leb_ℤ max_id (pos 0)
    then ctx
    else if ltb_ℤ ctx.cfg.max_tables max_id
    then record ctx { cfg = record ctx.cfg { max_tables = max_id } }
    else ctx

-- The loop of the search for a place, from the entry `i`.
unfoldable pub index_standing : ℤ → ℤ → List TablePlacement → ℕ → Option ℕ
index_standing row col [] i = none
index_standing row col (tp ∷ tps) i =
    let later = index_standing row col tps (suc i) in if stands_at row col tp then some i else later

unfoldable pub ui_pos_layout_find_index : StoreLayout → ℤ → ℤ → Option ℕ
unfolding index_standing
ui_pos_layout_find_index layout row col = index_standing row col layout.tables 0

-- The loop of `ui_layout_active_count`.
unfoldable pub active_from : List TablePlacement → ℕ → ℕ
active_from [] n = n
active_from (tp ∷ tps) n = active_from tps (if is_true tp.active then suc n else n)

unfoldable pub ui_layout_active_count : StoreLayout → ℕ
unfolding active_from
ui_layout_active_count layout = active_from layout.tables 0

-- The active placements move to the front, in order, and the count is theirs.
unfoldable pub actives : List TablePlacement → List TablePlacement
actives [] = []
actives (tp ∷ tps) = let rest = actives tps in if is_true tp.active then tp ∷ rest else rest

unfoldable pub ui_pos_layout_compact : StoreLayout → StoreLayout
unfolding actives
ui_pos_layout_compact layout = record layout { tables = actives layout.tables }

-- The index comes from the search, so it is not negative.
unfoldable pub ui_pos_layout_remove_at : StoreLayout → ℕ → StoreLayout
ui_pos_layout_remove_at layout idx =
    if leb (length layout.tables) idx
    then layout
    else record layout { tables = remove_at layout.tables idx }

-- The first placement that is not active, from the entry `i`.
unfoldable pub free_slot : List TablePlacement → ℕ → Option ℕ
free_slot [] i = none
free_slot (tp ∷ tps) i =
    let later = free_slot tps (suc i) in if is_true tp.active then later else some i

-- The slot and the layout. `stale` is what the array holds behind the last placement, which a new
-- slot takes in.
unfoldable pub ui_pos_layout_alloc_slot : TablePlacement → StoreLayout → Option (ℕ × StoreLayout)
unfolding free_slot
ui_pos_layout_alloc_slot stale layout = elim (free_slot layout.tables 0) [
  | some i ↦ some (i, layout)
  | none ↦
      if leb max_tables (length layout.tables)
      then none
      else some (length layout.tables, record layout { tables = layout.tables ++ stale ∷ [] })
]
