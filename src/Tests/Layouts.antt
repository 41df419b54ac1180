-- ===== src/Tests/Layouts.antt =====
-- The file of the tables' placements.
use system_programming_team.Layout.File.Grid.{IsGoodLayout, kept}
use system_programming_team.Layout.File.RoundTrip.{layout_save-load}
use system_programming_team.Layout.File.Saving.{active_rows, layout_save-Saves}
use system_programming_team.Layout.File.{
  layout_save, layout_load, grid_text, table_row, table_rows, store_body,
}
use system_programming_team.Layout.{StoreLayout, TablePlacement, inside, layout_zone_name}
use system_programming_team.Menu.Files.{tmp_path}
use system_programming_team.Os.Files.{Saves}
use system_programming_team.Os.{World, short, fine, open_trunc, write, fsync, rename}
use system_programming_team.Prelude.{
  ◌<◌, ◌≤◌, length, err, pos, ◌≡◌, ok, some, [], ◌∷◌, ◌++◌, refl, arith,
}
use system_programming_team.Tests.{system}
use system_programming_team.Text.{codes, show, show_nat, digits}
use system_programming_team.Ui.Table.Loop.{layout_path}

abbrev corner : TablePlacement
corner = record {
  table_id = pos 2;
  zone = inside;
  row = pos 0;
  col = pos 1;
  label = codes "W2";
  active = pos 1;
}

abbrev small : StoreLayout
small = record { grid_rows = pos 2; grid_cols = pos 3; tables = corner ∷ [] }

small-IsGoodLayout : IsGoodLayout small
small-IsGoodLayout = record {
  some_row = omega arith;
  rows = omega arith;
  some_col = omega arith;
  cols = omega arith;
  bounded = omega arith;
  tables = (
    record {
      id = record { above = omega arith; below = omega arith };
      row = record { above = omega arith; below = omega arith };
      col = record { above = omega arith; below = omega arith };
      some_label = λ e. cc;
      short = omega arith;
      word = (refl, (refl, tt));
    },
    tt,
  );
  some_table = λ e. cc;
}

-- The write of the rows is cut short.
layout_save-Saves_example :
    Saves layout_path
      (tmp_path layout_path)
      (grid_text small ++ active_rows small.tables)
      (system (fine ∷ short 3 ∷ []))
      (layout_save layout_path small (system (fine ∷ short 3 ∷ [])))
    × (length (grid_text small ++ active_rows small.tables) < 32768
        → fine ∷ short 3 ∷ [] ≡ []
        → (layout_save layout_path small (system (fine ∷ short 3 ∷ []))).0 ≡ ok tt)
    × (length (grid_text small) < 32768
        → 32768 ≤ length (grid_text small ++ active_rows small.tables)
        → layout_save layout_path small (system (fine ∷ short 3 ∷ []))
          ≡ (err (codes "layout buffer full"), system (fine ∷ short 3 ∷ [])))
layout_save-Saves_example = layout_save-Saves layout_path small (system (fine ∷ short 3 ∷ [])) refl

small_saved : (layout_save layout_path small (system [])).0 ≡ ok tt
unfolding layout_save table_rows store_body grid_text table_row layout_zone_name show show_nat
    digits open_trunc write fsync rename
small_saved = refl

abbrev after_save : World
after_save = record (system []) { files = (layout_save layout_path small (system [])).1.files }

layout_save-load_example : (layout_load layout_path after_save).0 ≡ some (ok (kept small))
layout_save-load_example =
    layout_save-load layout_path small (system []) after_save refl small-IsGoodLayout small_saved
      refl refl
