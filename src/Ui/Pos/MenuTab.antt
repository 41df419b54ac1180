-- ===== src/Ui/Pos/MenuTab.antt =====
-- The keys of the cashier's tab for the menu.
use system_programming_team.Common.{MenuItem, MenuCatalog, max_name, max_category}
use system_programming_team.Menu.Files.{menu_save_file}
use system_programming_team.Menu.{
  menu_add_item, menu_update_item, menu_delete_item, menu_set_soldout, menu_set_category,
  menu_set_popular,
}
use system_programming_team.Prelude.{
  Bool, true, ◌||◌, not, List, Option, none, some, Result, ok, err, leb, if◌then◌else◌, length,
  get_elem?, Bytes, ℤ, pos,
}
use system_programming_team.Server.{
  ServerContext, with_world, server_broadcast_line, server_save_config, menu_path,
}
use system_programming_team.Text.{codes, fit, truth, is_true, non_empty, other_category}
use system_programming_team.Ui.Pos.{PosUi, ask, ask_some, ui_prompt_int, payment_arrow}
use system_programming_team.Ui.Rounds.{Key, is_char}

-- The menu that an operation returns; its failure is not looked at.
abbrev pub with_menu : Result MenuCatalog → ServerContext → ServerContext
with_menu (ok menu) ctx = record ctx { menu = menu }
with_menu (err e) ctx = ctx

-- `menu_save_file (&ctx->menu, MENU_PATH, …)`, with the result not used.
unfoldable pub save_menu : ServerContext → ServerContext
unfolding menu_save_file
save_menu ctx = with_world ctx (menu_save_file ctx.menu menu_path ctx.world).1

abbrev pub sync_menu : ServerContext → ServerContext
sync_menu ctx = server_broadcast_line (codes "MENU_SYNC\n") ctx

-- The menu is changed and saved, and the clients are told.
unfoldable pub change_menu : Result MenuCatalog → ServerContext → ServerContext
unfolding save_menu server_broadcast_line
change_menu r ctx = sync_menu (save_menu (with_menu r ctx))

-- `x ? 0 : 1`
abbrev pub flipped : ℤ → ℤ
flipped a = if is_true a then pos 0 else pos 1

-- The key s: the clients are told first, and the configuration is saved too.
unfoldable pub flip_soldout : MenuItem → ServerContext → ServerContext
unfolding menu_set_soldout server_broadcast_line server_save_config save_menu
flip_soldout m ctx = save_menu (
    server_save_config
      (sync_menu (with_menu (menu_set_soldout ctx.menu m.id (flipped m.sold_out)) ctx)))

-- The key a: the dish that the prompts give; none where one is never answered.
unfoldable pub asked_dish : List Bytes → Option MenuItem
unfolding ask_some ui_prompt_int
asked_dish answers = elim (ask_some max_name answers) [
  | none ↦ none
  | some (name, as1) ↦ elim (ui_prompt_int as1) [
    | none ↦ none
    | some (price, as2) ↦
        let (category, as3) = ask max_category as2 in
        elim (ui_prompt_int as3) [
          | none ↦ none
          | some (popular, _) ↦ some (record {
            id = pos 0;
            name = fit max_name name;
            category = fit max_category (non_empty category other_category);
            price = price;
            sold_out = pos 0;
            popular = truth popular;
          })
        ]
  ]
]

-- The key e: the dish that the prompts make of `m`.
unfoldable pub edited_dish : List Bytes → MenuItem → Option MenuItem
unfolding ui_prompt_int
edited_dish answers m =
    let (name, as1) = ask max_name answers in
    elim (ui_prompt_int as1) [
      | none ↦ none
      | some (price, as2) ↦
          let (category, as3) = ask max_category as2 in
          elim (ui_prompt_int as3) [
            | none ↦ none
            | some (popular, _) ↦ some (record m {
              name = fit max_name name;
              category = fit max_category (non_empty category other_category);
              price = price;
              popular = truth popular;
            })
          ]
    ]

-- The keys for the dish `m` that is selected.
unfoldable pub dish_key :
    Key → List Bytes → MenuItem → PosUi → ServerContext → Option (PosUi × ServerContext)
unfolding flip_soldout change_menu edited_dish menu_delete_item menu_update_item menu_set_category
    menu_set_popular
dish_key key answers m ui ctx =
    if is_char b's' key || is_char b'S' key
    then some (ui, flip_soldout m ctx)
    else if is_char b'd' key
    then some (record ui { sel_menu = 0 }, change_menu (menu_delete_item ctx.menu m.id) ctx)
    else if is_char b'e' key
    then elim (edited_dish answers m) [
      | none ↦ none
      | some dish ↦ some (ui, change_menu (menu_update_item ctx.menu m.id dish) ctx)
    ]
    else if is_char b'c' key
    then some (
      ui,
      change_menu
          (menu_set_category ctx.menu m.id
            (some (non_empty (ask max_category answers).0 other_category)))
          ctx,
    )
    else if is_char b'p' key
    then some (ui, change_menu (menu_set_popular ctx.menu m.id (flipped m.popular)) ctx)
    else some (ui, ctx)

-- A key that reads the selected dish.
abbrev pub is_dish_key : Key → Bool
is_dish_key key =
    is_char b's' key
    || (is_char b'S' key
        || (is_char b'd' key || (is_char b'e' key || (is_char b'c' key || is_char b'p' key))))

-- The block of the tab for the menu; none where a prompt is never answered. With dishes in the menu
-- but none at the selection, a key for the dish reads behind the menu.
unfoldable pub menu_tab_key :
    Key → List Bytes → PosUi → ServerContext → Option (PosUi × ServerContext)
unfolding payment_arrow asked_dish change_menu menu_add_item dish_key
menu_tab_key key answers ui ctx =
    let mc = length ctx.menu.items in
    let moved : PosUi = record ui { sel_menu = payment_arrow key mc ui.sel_menu } in
    if is_char b'a' key
    then elim (asked_dish answers) [
      | none ↦ none
      | some dish ↦ some (moved, change_menu (menu_add_item ctx.menu dish) ctx)
    ]
    else if leb mc 0 || not (is_dish_key key)
    then some (moved, ctx)
    else elim (get_elem? ctx.menu.items moved.sel_menu) [
      | none ↦ some (moved, record ctx { undefined = true })
      | some m ↦ dish_key key answers m moved ctx
    ]
