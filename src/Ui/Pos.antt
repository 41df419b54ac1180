-- ===== src/Ui/Pos.antt =====
-- The cashier's screen in src/ui.c, without its drawing: its state, the prompts, and the keys of the
-- tabs for the tables and for paying. The tabs for the menu and the layout are in the children.
pub mod Placing
pub mod MenuTab
pub mod LayoutTab
pub mod Loop
pub mod Paying
pub mod Entering
pub mod Moving
pub mod Apart
pub mod Adding
pub mod Tidy
use system_programming_team.Common.{Order, OrderStatus, max_orders, max_tables}
use system_programming_team.Layout.{StoreLayout, TablePlacement, layout_find_at}
use system_programming_team.Prelude.{
  ℕ, zero, suc, ◌+◌, ◌-◌, ◌%◌, ◌==◌, Bool, true, false, ◌&&◌, ◌||◌, not, List, [], ◌∷◌, ◌++◌,
  Option, none, some, Result, ok, err, ltb, leb, if◌then◌else◌, length, get_elem?, set, Bytes, ℤ,
  pos, pos_part, leb_ℤ, ltb_ℤ, eqb_ℤ,
}
use system_programming_team.Server.Orders.{is_done, server_pay_order}
use system_programming_team.Server.{ServerContext, server_touch_staff}
use system_programming_team.Text.{codes, fit, atoi}
use system_programming_team.Ui.Rounds.{
  Key, key_up, key_down, key_left, key_right, is_char, is_enter, or_one,
}
use system_programming_team.Ui.{ui_pos_collect_table_done_ids, is_cancelled}

pub data PosTab : Type 0 where
  tab_home tab_payment tab_menu tab_sales tab_layout : PosTab

-- The variables of `ui_run_pos`, but for those that only say when to draw. `layout_edit_idx` is none
-- for -1. The two revisions are compared with the context's as they are there.
pub record PosUi : Type 0 where
  pub layout : StoreLayout
  pub tab : PosTab
  pub sel_menu : ℕ
  pub sel_payment : ℕ
  pub pay_table : ℤ
  pub grid_row : ℕ
  pub grid_col : ℕ
  pub layout_edit_idx : Option ℕ
  pub layout_move_mode : Bool
  pub last_rev : ℤ

-- What the user types at a prompt that takes an empty text: the buffer, and the answers to come.
abbrev pub ask : ℕ → List Bytes → Bytes × List Bytes
ask bufsz [] = ([], [])
ask bufsz (a ∷ later) = (fit bufsz a, later)

-- At a prompt that asks again while the text is empty; none where the answers run out.
unfoldable pub ask_some : ℕ → List Bytes → Option (Bytes × List Bytes)
ask_some bufsz [] = none
ask_some bufsz (a ∷ later) =
    let again = ask_some bufsz later in
    elim (fit bufsz a) [ [] ↦ again | c ∷ s ↦ some (c ∷ s, later) ]

unfoldable pub ui_prompt_int : List Bytes → Option (ℤ × List Bytes)
unfolding ask_some atoi
ui_prompt_int answers = elim (ask_some 64 answers) [
  | none ↦ none
  | some (s, rest) ↦ some (atoi s, rest)
]

-- The arrow keys on the grid, on both tabs that show it.
unfoldable pub grid_key : Key → PosUi → PosUi
grid_key key_up ui = record ui { grid_row = ui.grid_row - 1 }
grid_key key_down ui =
    if ltb_ℤ (pos (ui.grid_row + 1)) ui.layout.grid_rows
    then record ui { grid_row = ui.grid_row + 1 }
    else ui
grid_key key_left ui = record ui { grid_col = ui.grid_col - 1 }
grid_key key_right ui =
    if ltb_ℤ (pos (ui.grid_col + 1)) ui.layout.grid_cols
    then record ui { grid_col = ui.grid_col + 1 }
    else ui
grid_key _ ui = ui

-- The critical section behind the key c, and `server_touch_staff`.
unfoldable pub clear_staff_call : ℤ → ServerContext → ServerContext
unfolding server_touch_staff
clear_staff_call table_id ctx = server_touch_staff (record ctx {
  staff_call_at =
      if not (leb_ℤ table_id (pos 0)) && leb_ℤ table_id (pos max_tables)
      then set ctx.staff_call_at (pos_part table_id) (pos 0)
      else ctx.staff_call_at;
})

-- The block of the tab for the tables.
unfoldable pub home_key : Key → PosUi → ServerContext → PosUi × ServerContext
unfolding grid_key layout_find_at clear_staff_call
home_key key ui ctx =
    let moved = grid_key key ui in
    elim (layout_find_at moved.layout (pos moved.grid_row) (pos moved.grid_col)) [
      | none ↦ (moved, ctx)
      | some (i, tp) ↦ (
        if is_enter key
            then record moved { pay_table = tp.table_id; tab = tab_payment; sel_payment = 0 }
            else moved,
        if is_char b'c' key then clear_staff_call tp.table_id ctx else ctx,
      )
    ]

-- The loop of `ui_pos_collect_table_order_indices`, from the entry `i`, for at most `room` indices.
unfoldable pub order_indices : ℕ → ℤ → List Order → ℕ → List ℕ
order_indices room table_id [] i = []
order_indices zero table_id (o ∷ os) i = []
order_indices (suc room) table_id (o ∷ os) i =
    let skip = order_indices (suc room) table_id os (suc i) in
    let rest = order_indices room table_id os (suc i) in
    if is_cancelled o.status
    then skip
    else if leb_ℤ table_id (pos 0) || eqb_ℤ o.table_id table_id
    then i ∷ rest
    else skip

unfoldable pub ui_pos_collect_table_order_indices : ServerContext → ℤ → ℕ → List ℕ
unfolding order_indices
ui_pos_collect_table_order_indices ctx table_id max_idxs =
    order_indices max_idxs table_id ctx.orders 0

-- The order that is selected for paying; an index that was collected is one of the array.
abbrev pub selected_order : ServerContext → List ℕ → ℕ → Option Order
selected_order ctx idxs sel = elim (get_elem? idxs sel) [
  | none ↦ none
  | some i ↦ get_elem? ctx.orders i
]

-- Enter: the order is paid if it is done.
unfoldable pub pay_selected : List ℕ → ℕ → ServerContext → ServerContext
unfolding server_pay_order
pay_selected idxs sel ctx = elim (selected_order ctx idxs sel) [
  | none ↦ ctx
  | some o ↦ if is_done o.status then (server_pay_order ctx o.order_id).1 else ctx
]

unfoldable pub pay_all : List ℤ → ServerContext → ServerContext
unfolding server_pay_order
pay_all [] ctx = ctx
pay_all (id ∷ ids) ctx = pay_all ids (server_pay_order ctx id).1

unfoldable pub payment_arrow : Key → ℕ → ℕ → ℕ
payment_arrow key_up nshow sel = (sel + nshow - 1) % or_one nshow
payment_arrow key_down nshow sel = (sel + 1) % or_one nshow
payment_arrow _ nshow sel = sel

-- The table that the prompt behind the key t gives, if it is one.
abbrev pub other_table : ℤ → PosUi → PosUi
other_table nt ui =
    if not (leb_ℤ nt (pos 0)) && leb_ℤ nt (pos max_tables)
    then record ui { pay_table = nt; sel_payment = 0 }
    else ui

-- The block of the tab for paying; none where a prompt is never answered.
unfoldable pub payment_key :
    Key → List Bytes → PosUi → ServerContext → Option (PosUi × ServerContext)
unfolding ui_pos_collect_table_order_indices ui_prompt_int pay_selected pay_all payment_arrow
    ui_pos_collect_table_done_ids
payment_key key answers ui ctx =
    let idxs = ui_pos_collect_table_order_indices ctx ui.pay_table max_orders in
    if is_char b't' key
    then elim (ui_prompt_int answers) [
      | none ↦ none
      | some (nt, rest) ↦ some (other_table nt ui, ctx)
    ]
    else if is_enter key
    then some (ui, pay_selected idxs ui.sel_payment ctx)
    else if is_char b'y' key && not (leb_ℤ ui.pay_table (pos 0))
    then some (ui, pay_all (ui_pos_collect_table_done_ids ctx ui.pay_table max_orders) ctx)
    else some (record ui { sel_payment = payment_arrow key (length idxs) ui.sel_payment }, ctx)
