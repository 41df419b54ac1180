-- ===== src/Layout.antt =====
-- include/layout.h and src/layout.c: the placements of the tables. Its file is in File.
pub mod Tables
pub mod File
use system_programming_team.Common.{max_tables}
use system_programming_team.Prelude.{
  ℕ, suc, Bool, true, false, ◌&&◌, ◌||◌, List, [], ◌∷◌, ◌++◌, Option, none, some, leb,
  if◌then◌else◌, length, Bytes, bytes_eq, ℤ, pos, eqb_ℤ, ltb_ℤ,
}
use system_programming_team.Text.{codes, fit, is_true}

pub data TableZone : Type 0 where
  outside inside : TableZone

pub record TablePlacement : Type 0 where
  pub table_id : ℤ
  pub zone : TableZone
  pub row : ℤ
  pub col : ℤ
  pub label : Bytes
  pub active : ℤ

-- `count` is the length of `tables`.
pub record StoreLayout : Type 0 where
  pub grid_rows : ℤ
  pub grid_cols : ℤ
  pub tables : List TablePlacement

unfoldable pub layout_init : StoreLayout
layout_init = record { grid_rows = pos 5; grid_cols = pos 7; tables = [] }

unfoldable pub layout_zone_name : TableZone → Bytes
layout_zone_name outside = codes "outside"
layout_zone_name inside = codes "inside"

-- `none` is the null pointer.
unfoldable pub layout_zone_from_string : Option Bytes → TableZone
layout_zone_from_string none = outside
layout_zone_from_string (some s) =
    if bytes_eq s (codes "inside") || bytes_eq s (codes "안") then inside else outside

-- The array holds MAX_TABLES placements, and a label 16 bytes.
unfoldable pub layout_add_slot : ℤ → TableZone → ℤ → ℤ → Bytes → StoreLayout → StoreLayout
layout_add_slot table_id zone row col label layout =
    if leb max_tables (length layout.tables) then layout else record layout {
      tables =
          layout.tables
          ++ record {
            table_id = table_id;
            zone = zone;
            row = row;
            col = col;
            label = fit 16 label;
            active = pos 1;
          }
            ∷ [];
    }

unfoldable pub layout_init_default : StoreLayout
unfolding layout_add_slot layout_init
layout_init_default = layout_add_slot (pos 14) inside (pos 2) (pos 5) (codes "안6") (
    layout_add_slot (pos 13) inside (pos 2) (pos 4) (codes "안5") (
      layout_add_slot (pos 12) inside (pos 2) (pos 3) (codes "안4") (
        layout_add_slot (pos 11) inside (pos 1) (pos 5) (codes "안3") (
          layout_add_slot (pos 10) inside (pos 1) (pos 4) (codes "안2") (
            layout_add_slot (pos 9) inside (pos 1) (pos 3) (codes "안1") (
              layout_add_slot (pos 8) outside (pos 3) (pos 1) (codes "밖8") (
                layout_add_slot (pos 7) outside (pos 3) (pos 0) (codes "밖7") (
                  layout_add_slot (pos 6) outside (pos 2) (pos 1) (codes "밖6") (
                    layout_add_slot (pos 5) outside (pos 2) (pos 0) (codes "밖5") (
                      layout_add_slot (pos 4) outside (pos 1) (pos 1) (codes "밖4") (
                        layout_add_slot (pos 3) outside (pos 1) (pos 0) (codes "밖3") (
                          layout_add_slot (pos 2) outside (pos 0) (pos 1) (codes "밖2") (
                            layout_add_slot (pos 1) outside (pos 0) (pos 0) (codes "밖1")
                              layout_init)))))))))))))

abbrev pub has_id : ℤ → TablePlacement → Bool
has_id table_id tp = is_true tp.active && eqb_ℤ tp.table_id table_id

abbrev pub stands_at : ℤ → ℤ → TablePlacement → Bool
stands_at row col tp = is_true tp.active && (eqb_ℤ tp.row row && eqb_ℤ tp.col col)

-- The loop of both searches. A pointer that is returned is the index with what stands there.
unfoldable pub first_table :
    (TablePlacement → Bool) → List TablePlacement → Option (ℕ × TablePlacement)
first_table test [] = none
first_table test (tp ∷ tps) =
    let later = first_table test tps in
    if test tp
    then some (0, tp)
    else elim later [ none ↦ none | some (i, found) ↦ some (suc i, found) ]

unfoldable pub layout_find_by_id : StoreLayout → ℤ → Option (ℕ × TablePlacement)
unfolding first_table
layout_find_by_id layout table_id = first_table (has_id table_id) layout.tables

unfoldable pub layout_find_at : StoreLayout → ℤ → ℤ → Option (ℕ × TablePlacement)
unfolding first_table
layout_find_at layout row col = first_table (stands_at row col) layout.tables

-- The loop of `layout_max_table_id`.
unfoldable pub max_active_id : ℤ → List TablePlacement → ℤ
max_active_id max_id [] = max_id
max_active_id max_id (tp ∷ tps) =
    max_active_id (if is_true tp.active && ltb_ℤ max_id tp.table_id then tp.table_id else max_id)
      tps

unfoldable pub layout_max_table_id : StoreLayout → ℤ
unfolding max_active_id
layout_max_table_id layout = max_active_id (pos 0) layout.tables
