-- ===== src/Ui/Pos/Loop.antt =====
-- The loop of the cashier's screen, `ui_run_pos` of src/ui.c, and the program of src/pos_server.c.
use system_programming_team.Layout.File.{layout_load, layout_save}
use system_programming_team.Layout.{StoreLayout, TablePlacement, layout_init_default}
use system_programming_team.Os.{World}
use system_programming_team.Prelude.{
  ℕ, ◌==◌, Bool, true, false, not, List, [], ◌∷◌, Option, none, some, Result, ok, err,
  if◌then◌else◌, Bytes, pos, eqb_ℤ,
}
use system_programming_team.Server.Lifecycle.{server_init, server_load_persistent, server_shutdown}
use system_programming_team.Server.{ServerContext, with_world, server_save_config}
use system_programming_team.Ui.Pos.LayoutTab.{layout_key}
use system_programming_team.Ui.Pos.MenuTab.{menu_tab_key}
use system_programming_team.Ui.Pos.Placing.{ui_pos_layout_compact, ui_pos_sync_max_tables}
use system_programming_team.Ui.Pos.{
  PosTab, tab_home, tab_payment, tab_menu, tab_sales, tab_layout, PosUi, home_key, payment_key,
}
use system_programming_team.Ui.Rounds.{Key, no_key, key_f, is_quit}
use system_programming_team.Ui.Table.Loop.{layout_path}

-- A round of the loop: what the other threads do to the context before it, the key, what is typed at
-- the prompts, and what the array of placements holds behind the last.
pub record PosRound : Type 0 where
  pub others : ServerContext → ServerContext
  pub key : Key
  pub answers : List Bytes
  pub stale : TablePlacement

-- The keys F1 to F5.
unfoldable pub tab_key : Key → PosTab → PosTab
tab_key (key_f n) tab =
    if n == 1
    then tab_home
    else if n == 2
    then tab_payment
    else if n == 3
    then tab_menu
    else if n == 4
    then tab_sales
    else if n == 5
    then tab_layout
    else tab
tab_key _ tab = tab

-- New orders put the selection for paying back.
unfoldable pub see_orders : PosUi → ServerContext → PosUi
see_orders ui ctx =
    if eqb_ℤ ctx.orders_revision ui.last_rev
    then ui
    else record ui { last_rev = ctx.orders_revision; sel_payment = 0 }

-- The block of the tab for the tables, if that tab is shown.
unfoldable pub home_block : Key → PosUi → ServerContext → PosUi × ServerContext
unfolding home_key
home_block key ui ctx = elim ui.tab [ tab_home ↦ home_key key ui ctx | _ ↦ (ui, ctx) ]

-- The blocks of the other tabs, for the tab that is shown then.
unfoldable pub other_blocks : PosRound → PosUi → ServerContext → Option (PosUi × ServerContext)
unfolding payment_key menu_tab_key layout_key
other_blocks r ui ctx = elim ui.tab [
  | tab_payment ↦ payment_key r.key r.answers ui ctx
  | tab_menu ↦ menu_tab_key r.key r.answers ui ctx
  | tab_layout ↦ layout_key r.key r.answers r.stale ui ctx
  | tab_home ↦ some (ui, ctx)
  | tab_sales ↦ some (ui, ctx)
]

-- A key that does not quit.
unfoldable pub pos_key : PosRound → PosUi → ServerContext → Option (PosUi × ServerContext)
unfolding tab_key home_block other_blocks
pos_key r ui ctx =
    let (shown, ctx1) = home_block r.key (record ui { tab = tab_key r.key ui.tab }) ctx in
    other_blocks r shown ctx1

abbrev is_no_key : Key → Bool
is_no_key no_key = true
is_no_key _ = false

-- The loop over the rounds, until the flag is up or a key quits; none where a prompt is never
-- answered.
unfoldable pub pos_loop : List PosRound → PosUi → ServerContext → Option (PosUi × ServerContext)
unfolding see_orders pos_key
pos_loop [] ui ctx = some (ui, ctx)
pos_loop (r ∷ rs) ui ctx =
    let now = r.others ctx in
    let seen = see_orders ui now in
    let skip = pos_loop rs seen now in
    if now.shutting_down
    then some (ui, now)
    else if is_no_key r.key
    then skip
    else if is_quit r.key
    then some (seen, record now { shutting_down = true })
    else elim (pos_key r seen now) [ none ↦ none | some (ui', ctx') ↦ pos_loop rs ui' ctx' ]

abbrev pub first_pos : StoreLayout → PosUi
first_pos layout = record {
  layout = layout;
  tab = tab_home;
  sel_menu = 0;
  sel_payment = 0;
  pay_table = pos 0;
  grid_row = 0;
  grid_col = 0;
  layout_edit_idx = none;
  layout_move_mode = false;
  last_rev = pos 0;
}

-- The layout that was loaded, or the default; a read out of bounds is noted in the context.
abbrev pub loaded : Option (Result StoreLayout) → ServerContext → StoreLayout × ServerContext
loaded none ctx = (layout_init_default, record ctx { undefined = true })
loaded (some (err e)) ctx = (layout_init_default, ctx)
loaded (some (ok layout)) ctx = (layout, ctx)

-- The part behind the loop.
unfoldable pub close_pos : PosUi → ServerContext → ServerContext
unfolding layout_save ui_pos_sync_max_tables server_save_config
close_pos ui ctx = server_save_config (
    ui_pos_sync_max_tables ui.layout
      (with_world ctx (layout_save layout_path ui.layout ctx.world).1))

unfoldable pub ui_run_pos : List PosRound → ServerContext → Option (PosUi × ServerContext)
unfolding layout_load ui_pos_layout_compact ui_pos_sync_max_tables server_save_config pos_loop
    close_pos layout_init_default
ui_run_pos rounds ctx =
    let (r, w) = layout_load layout_path ctx.world in
    let (read, ctx1) = loaded r (with_world ctx w) in
    let layout = ui_pos_layout_compact read in
    let ready = server_save_config (ui_pos_sync_max_tables layout ctx1) in
    elim (pos_loop rounds (first_pos layout) ready) [
      | none ↦ none
      | some (ui, ctx') ↦ some (ui, close_pos ui ctx')
    ]

-- The part of `main` behind the start of the accept thread.
unfoldable pub run_server : List PosRound → ServerContext → Option ServerContext
unfolding ui_run_pos server_shutdown
run_server rounds ctx = elim (ui_run_pos rounds (record ctx { accept_thread_started = true })) [
  | none ↦ none
  | some (ui, ctx') ↦ some (server_shutdown (record ctx' { shutting_down = true }))
]

-- `main` of src/pos_server.c, with the socket that `socket` yields, the fuel for the loading of the
-- menu, and whether `pthread_create` succeeds: the exit code and the context. None where the fuel
-- runs out or a prompt is never answered.
unfoldable pub pos_main : ℕ → ℕ → Bool → List PosRound → World → Option (ℕ × ServerContext)
unfolding server_init server_load_persistent server_shutdown run_server
pos_main fuel ls thread rounds w =
    let (made, ctx) = server_init ls w in
    let (loads, ctx1) = server_load_persistent fuel ctx in
    elim made [
      | err e ↦ some (1, ctx)
      | ok _ ↦ elim loads [
        | none ↦ none
        | some (err e) ↦ some (1, server_shutdown ctx1)
        | some (ok _) ↦
            if not thread
            then some (1, server_shutdown ctx1)
            else elim (run_server rounds ctx1) [ none ↦ none | some ctx2 ↦ some (0, ctx2) ]
      ]
    ]
