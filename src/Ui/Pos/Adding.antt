-- ===== src/Ui/Pos/Adding.antt =====
-- A table that the layout's tab of src/ui.c adds, among the others.
use system_programming_team.Common.{max_tables}
use system_programming_team.Layout.Tables.{
  Above, Comes, layout_find-FirstTable, layout_max_table_id_lem,
}
use system_programming_team.Layout.{
  StoreLayout, TablePlacement, stands_at, outside, layout_find_at, layout_max_table_id,
}
use system_programming_team.Prelude.{
  ℕ, ◌≡◌, ◌≢◌, refl, sym, ap, subst, ◌∙◌, true, false, List, [], ◌∷◌, ◌++◌, Option, none, some,
  arith, leb, length, set, All, All-append, Bytes, ℤ, pos, ◌≤ℤ◌, ◌<ℤ◌, ◌+ℤ◌, int_max, add_int, wrap,
  eqb_ℤ, eqb_ℤ_self, Bool-cases, Option-cases, inl, inr, ◌⊎◌,
}
use system_programming_team.Server.{ServerContext}
use system_programming_team.Text.{is_true}
use system_programming_team.Ui.Pos.Apart.{Clear, Apart, Apart-fresh, Apart-behind}
use system_programming_team.Ui.Pos.LayoutTab.{new_table, add_table}
use system_programming_team.Ui.Pos.Placing.{free_slot, ui_pos_layout_alloc_slot}
use system_programming_team.Ui.Pos.{PosUi}

next_above : (m : ℤ) → pos 0 ≤ℤ m → m <ℤ int_max → m <ℤ add_int m (pos 1)
unfolding add_int wrap ◌+ℤ◌
next_above m l h = ground (arith, l, h)

-- A new table with an id above all, at a place where none stands, is clear of the others.
new_table-Clear :
    (m : ℤ) (row col : ℕ) (label : Bytes) (tps : List TablePlacement)
    → pos 0 ≤ℤ m
    → m <ℤ int_max
    → Above tps m
    → All (λ tp. stands_at (pos row) (pos col) tp ≡ false) tps
    → All
        (Clear (record {
          table_id = add_int m (pos 1);
          zone = outside;
          row = pos row;
          col = pos col;
          label = label;
          active = pos 1;
        }))
        tps
new_table-Clear m row col label [] l h u s = tt
new_table-Clear m row col label (tp ∷ tps) l h u s = (
  (λ ha hb. ((λ e. ground (arith, next_above m l h, u.0 hb, e)), λ r c. taken hb r c)),
  new_table-Clear m row col label tps l h u.1 s.1,
)
  where
    taken : is_true tp.active ≡ true → pos row ≡ tp.row → pos col ≢ tp.col
    taken hb r c =
        let same_row : eqb_ℤ tp.row (pos row) ≡ true =
          subst (λ j. eqb_ℤ j (pos row) ≡ true) r (eqb_ℤ_self (pos row)) in
        let same_col : eqb_ℤ tp.col (pos col) ≡ true =
          subst (λ j. eqb_ℤ j (pos col) ≡ true) c (eqb_ℤ_self (pos col)) in
        ground (arith, hb, same_row, same_col, s.0)

-- All ids are below the largest int.
abbrev pub HasRoom : List TablePlacement → Type 0
HasRoom = All (λ tp. tp.table_id <ℤ int_max)

comes_room :
    (m k : ℤ) (tps : List TablePlacement)
    → m <ℤ int_max
    → HasRoom tps
    → Comes m k tps
    → k <ℤ int_max
comes_room m k [] l h c = subst (λ j. j <ℤ int_max) (sym c) l
comes_room m k (tp ∷ tps) l h (inl (a, c)) = subst (λ j. j <ℤ int_max) (sym c) h.0
comes_room m k (tp ∷ tps) l h (inr c) = comes_room m k tps l h.1 c

max_room : (layout : StoreLayout) → HasRoom layout.tables → layout_max_table_id layout <ℤ int_max
max_room layout h =
    comes_room (pos 0) (layout_max_table_id layout) layout.tables (omega arith) h
      (layout_max_table_id_lem layout).2

-- The new slot is one of the layout's, or stands behind its last.
abbrev IsSlot : TablePlacement → StoreLayout → ℕ → StoreLayout → Type 0
IsSlot stale layout slot grown =
    (grown ≡ layout)
    ⊎ ((slot ≡ length layout.tables)
        × (grown ≡ record layout { tables = layout.tables ++ stale ∷ [] }))

alloc-IsSlot :
    (stale : TablePlacement) (layout : StoreLayout) (slot : ℕ) (grown : StoreLayout)
    → ui_pos_layout_alloc_slot stale layout ≡ some (slot, grown)
    → IsSlot stale layout slot grown
unfolding ui_pos_layout_alloc_slot
alloc-IsSlot stale layout slot grown h =
    let which : Option (ℕ × StoreLayout) → ℕ =
      λ r. elim r as (λ _. ℕ) [ none ↦ 0 | some x ↦ x.0 ] in
    let whose : Option (ℕ × StoreLayout) → StoreLayout =
      λ r. elim r as (λ _. StoreLayout) [ none ↦ layout | some x ↦ x.1 ] in
    elim (Option-cases (free_slot layout.tables 0)) [
      | inr (i, e) ↦
          let q : ui_pos_layout_alloc_slot stale layout ≡ some (i, layout) =
            rw (e, ui_pos_layout_alloc_slot) refl in
          inl (ap whose (sym h ∙ q))
      | inl e ↦ elim (Bool-cases (leb max_tables (length layout.tables))) [
        | inl f ↦
            let q : ui_pos_layout_alloc_slot stale layout ≡ none =
              rw (e, f, ui_pos_layout_alloc_slot) refl in
            absurd (ground (arith, sym h ∙ q))
        | inr f ↦
            let q : ui_pos_layout_alloc_slot stale layout
                ≡ some
                    (length layout.tables, record layout { tables = layout.tables ++ stale ∷ [] }) =
              rw (e, f, ui_pos_layout_alloc_slot) refl in
            inr (ap which (sym h ∙ q), ap whose (sym h ∙ q))
      ]
    ]

All-front :
    (P : TablePlacement → Type 0) (tps rest : List TablePlacement) → All P (tps ++ rest) → All P tps
All-front P [] rest a = tt
All-front P (tp ∷ tps) rest a = (a.0, All-front P tps rest a.1)

placed-Apart :
    (stale : TablePlacement) (layout : StoreLayout) (row col slot : ℕ) (grown : StoreLayout)
    → IsSlot stale layout slot grown
    → Apart layout.tables
    → HasRoom (stale ∷ layout.tables)
    → All (λ tp. stands_at (pos row) (pos col) tp ≡ false) layout.tables
    → Apart (set grown.tables slot (new_table grown row col))
placed-Apart stale layout row col slot grown (inl q) a h s =
    let (l, u, _) = layout_max_table_id_lem layout in
    subst (λ g. Apart (set g.tables slot (new_table g row col))) (sym q)
      (Apart-fresh layout.tables slot (new_table layout row col)
        (new_table-Clear (layout_max_table_id layout) row col (new_table layout row col).label
          layout.tables l (max_room layout h.1) u s)
        a)
placed-Apart stale layout row col slot grown (inr (i, q)) a h s =
    let more : StoreLayout = record layout { tables = layout.tables ++ stale ∷ [] } in
    let (l, u, _) = layout_max_table_id_lem more in
    let room : HasRoom more.tables =
      All-append (λ tp. tp.table_id <ℤ int_max) layout.tables (stale ∷ []) h.1 (h.0, tt) in
    let at_end =
      Apart-behind layout.tables stale (new_table more row col)
        (new_table-Clear (layout_max_table_id more) row col (new_table more row col).label
          layout.tables l (max_room more room) (All-front _ layout.tables (stale ∷ []) u) s)
        a in
    subst (λ g. Apart (set g.tables slot (new_table g row col))) (sym q)
      (subst (λ k. Apart (set more.tables k (new_table more row col))) (sym i) at_end)

free_place :
    (layout : StoreLayout) (row col : ℤ)
    → layout_find_at layout row col ≡ none
    → All (λ tp. stands_at row col tp ≡ false) layout.tables
free_place layout row col h = elim ((layout_find-FirstTable layout (pos 0) row col).1) [
  | inl (_, a) ↦ a
  | inr (i, tp, e, _, _) ↦ absurd (ground (arith, sym h ∙ e))
]

pub add_table-Apart :
    (stale : TablePlacement) (ui : PosUi) (ctx : ServerContext)
    → Apart ui.layout.tables
    → HasRoom (stale ∷ ui.layout.tables)
    → Apart (add_table stale ui ctx).0.layout.tables
unfolding add_table
add_table-Apart stale ui ctx a h =
    elim (Option-cases (layout_find_at ui.layout (pos ui.grid_row) (pos ui.grid_col))) [
      | inr (x, e) ↦ rw (e, add_table) a
      | inl e ↦ elim (Option-cases (ui_pos_layout_alloc_slot stale ui.layout)) [
        | inl f ↦ rw (e, f, add_table) a
        | inr ((slot, grown), f) ↦
            rw (e, f, add_table)
              (placed-Apart stale ui.layout ui.grid_row ui.grid_col slot grown
                (alloc-IsSlot stale ui.layout slot grown f) a h
                (free_place ui.layout (pos ui.grid_row) (pos ui.grid_col) e))
      ]
    ]
