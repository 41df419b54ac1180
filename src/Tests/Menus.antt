-- ===== src/Tests/Menus.antt =====
-- The menu and its file.
use system_programming_team.Common.{max_proto_line, MenuItem, MenuCatalog}
use system_programming_team.Menu.Catalog.Edits.{stored}
use system_programming_team.Menu.Catalog.NewIds.{menu_add_item-fresh}
use system_programming_team.Menu.Files.Loading.{menu_load_file-ends}
use system_programming_team.Menu.Files.Saving.{rows_text, menu_save_file-Saves}
use system_programming_team.Menu.Files.{csv_header, tmp_path, menu_load_file, menu_save_file}
use system_programming_team.Menu.{item_id, menu_add_item}
use system_programming_team.Os.Files.{Saves}
use system_programming_team.Os.{fine, short}
use system_programming_team.Prelude.{
  Bytes, some, ◌≡◌, ◌≢◌, refl, none, arith, ok, pos, [], ◌∷◌, ◌++◌, map, All, ◌<ℤ◌,
}
use system_programming_team.Protocol.{sanitize_field, proto_build_menu_response}
use system_programming_team.Text.{show, show_nat, digits}
use system_programming_team.Ui.MenuMessage.{IsSendableMenu, menu_message-round_trip}
use system_programming_team.Ui.MenuMessage.Dishes.{IsSendableDish, sent_dish}
use system_programming_team.Ui.{ui_apply_menu_response}
use system_programming_team.Server.{menu_path}
use system_programming_team.Tests.{system, soup, menu}

abbrev sold_out_menu : MenuCatalog
sold_out_menu = record { items = record soup { sold_out = pos 1 } ∷ [] }

abbrev new_dish : MenuItem
new_dish = record soup { id = pos 0 }

menu_add_item-fresh_example :
    (menu_add_item menu new_dish ≡ ok (record { items = menu.items ++ stored menu new_dish ∷ [] }))
    × (pos 0 <ℤ (stored menu new_dish).id)
    × All (λ j. j ≢ (stored menu new_dish).id) (map item_id menu.items)
menu_add_item-fresh_example =
    menu_add_item-fresh menu new_dish (omega arith) (omega arith) (omega arith)

-- The second write is cut short.
menu_save_file-Saves_example :
    Saves menu_path
      (tmp_path menu_path)
      (csv_header ++ rows_text menu.items)
      (system (fine ∷ fine ∷ short 3 ∷ []))
      (menu_save_file menu menu_path (system (fine ∷ fine ∷ short 3 ∷ [])))
menu_save_file-Saves_example =
    menu_save_file-Saves menu menu_path (system (fine ∷ fine ∷ short 3 ∷ [])) refl

-- The first read fails to return a byte.
menu_load_file-ends_example :
    (menu_load_file 7 menu_path (system (fine ∷ fine ∷ fine ∷ fine ∷ short 0 ∷ []))).0 ≢ none
menu_load_file-ends_example =
    menu_load_file-ends 5 menu_path (system (fine ∷ fine ∷ fine ∷ fine ∷ short 0 ∷ []))
      (omega arith)

soup-IsSendableDish : IsSendableDish soup
soup-IsSendableDish = record {
  id = omega arith;
  id_int = record { above = omega arith; below = omega arith };
  price = record { above = omega arith; below = omega arith };
  name = λ e. cc;
  name_fits = omega arith;
  category = λ e. cc;
  category_fits = omega arith;
  sold_out = refl;
  popular = refl;
}

menu-IsSendableMenu : IsSendableMenu menu
unfolding sanitize_field show show_nat digits
menu-IsSendableMenu = record {
  bounded = omega arith;
  dishes = (soup-IsSendableDish, tt);
  short = omega arith;
}

menu_message-round_trip_example :
    (text : Bytes) × (proto_build_menu_response menu max_proto_line ≡ some text)
    × (ui_apply_menu_response (record { items = [] }) text
        ≡ record { items = map sent_dish menu.items })
menu_message-round_trip_example =
    menu_message-round_trip (record { items = [] }) menu menu-IsSendableMenu
