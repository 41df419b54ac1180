-- ===== src/Ui/Pos/Moving.antt =====
-- What the key Enter does on the cashier's tab for the layout.
use system_programming_team.Layout.{TablePlacement, stands_at, first_table, layout_find_at}
use system_programming_team.Prelude.{
  ℕ, suc, ◌≡◌, refl, sym, ap, ◌∙◌, subst, true, ◌&&◌, List, [], ◌∷◌, Option, none, some, arith,
  if◌then◌else◌, Bytes, ℤ, pos, Bool-cases, Option-cases, inl, inr,
}
use system_programming_team.Server.{ServerContext}
use system_programming_team.Ui.Pos.LayoutTab.{put_down, edit_table, is_some, layout_key}
use system_programming_team.Ui.Pos.Placing.{index_standing, ui_pos_layout_find_index}
use system_programming_team.Ui.Pos.{PosUi, grid_key}
use system_programming_team.Ui.Rounds.{
  Key, no_key, key_up, key_down, key_left, key_right, key_enter, key_f, char, is_enter,
}

-- Both searches look for the same placement.
standing_none :
    (row col : ℤ) (tps : List TablePlacement) (i : ℕ)
    → first_table (stands_at row col) tps ≡ none
    → index_standing row col tps i ≡ none
unfolding first_table index_standing
standing_none row col [] i h = refl
standing_none row col (tp ∷ tps) i h = elim (Bool-cases (stands_at row col tp)) [
  | inl e ↦
      let found : first_table (stands_at row col) (tp ∷ tps) ≡ some (0, tp) =
        rw (e, first_table) refl in
      absurd (ground (arith, sym found ∙ h))
  | inr e ↦ elim (Option-cases (first_table (stands_at row col) tps)) [
    | inl n ↦
        let skip : index_standing row col (tp ∷ tps) i ≡ index_standing row col tps (suc i) =
          rw (e, index_standing) refl in
        skip ∙ standing_none row col tps (suc i) n
    | inr ((j, x), n) ↦
        let found : first_table (stands_at row col) (tp ∷ tps) ≡ some (suc j, x) =
          rw (e, n, first_table) refl in
        absurd (ground (arith, sym found ∙ h))
  ]
]

pub put_down_stays :
    (ui : PosUi)
    → ui.layout_edit_idx ≡ ui_pos_layout_find_index ui.layout (pos ui.grid_row) (pos ui.grid_col)
    → (put_down ui).layout ≡ ui.layout
unfolding put_down edit_table layout_find_at ui_pos_layout_find_index
put_down_stays ui h =
    elim (Option-cases (layout_find_at ui.layout (pos ui.grid_row) (pos ui.grid_col))) [
      | inr (x, e) ↦ rw (e, put_down) refl
      | inl e ↦
          let unseen : ui.layout_edit_idx ≡ none =
            h ∙ standing_none (pos ui.grid_row) (pos ui.grid_col) ui.layout.tables 0 e in
          rw (e, put_down) (rw (unseen, edit_table) refl)
    ]

-- The state that the keys of the layout's tab start from.
abbrev pub found_at : PosUi → PosUi
found_at ui = record ui {
  layout_edit_idx = ui_pos_layout_find_index ui.layout (pos ui.grid_row) (pos ui.grid_col);
}

-- The last tests of the block, where no letter was pressed.
abbrev entered : PosUi → ServerContext → Option (PosUi × ServerContext)
entered at ctx =
    if at.layout_move_mode && (is_some at.layout_edit_idx && true)
    then some (put_down at, ctx)
    else some (at, ctx)

enter_block :
    (ui at : PosUi) (ctx : ServerContext)
    → at ≡ found_at ui
    → (v : PosUi) × (entered at ctx ≡ some (v, ctx)) × (v.layout ≡ ui.layout)
enter_block ui at ctx q =
    elim (Bool-cases (at.layout_move_mode && (is_some at.layout_edit_idx && true))) [
      | inr e ↦ (at, rw e refl, ap (λ u. u.layout) q)
      | inl e ↦ (
        put_down at,
        rw e refl,
        ap (λ u. (put_down u).layout) q ∙ put_down_stays (found_at ui) refl,
      )
    ]

-- Enter on the layout's tab leaves the context and the layout as they are, with or without the mode
-- for moving: no table is put down anywhere.
pub layout_key-Enter :
    (key : Key) (answers : List Bytes) (stale : TablePlacement) (ui : PosUi) (ctx : ServerContext)
    → is_enter key ≡ true
    → (v : PosUi) × (layout_key key answers stale ui ctx ≡ some (v, ctx)) × (v.layout ≡ ui.layout)
unfolding layout_key grid_key
layout_key-Enter no_key answers stale ui ctx h = absurd (ground arith)
layout_key-Enter key_up answers stale ui ctx h = absurd (ground arith)
layout_key-Enter key_down answers stale ui ctx h = absurd (ground arith)
layout_key-Enter key_left answers stale ui ctx h = absurd (ground arith)
layout_key-Enter key_right answers stale ui ctx h = absurd (ground arith)
layout_key-Enter (key_f n) answers stale ui ctx h = absurd (ground arith)
layout_key-Enter key_enter answers stale ui ctx h = enter_block ui (found_at ui) ctx refl
layout_key-Enter (char n) answers stale ui ctx h =
    let same : 10 ≡ n = ground (arith, h) in
    subst
      (λ c.
        (v : PosUi) × (layout_key (char c) answers stale ui ctx ≡ some (v, ctx))
        × (v.layout ≡ ui.layout))
      same (enter_block ui (found_at ui) ctx refl)
