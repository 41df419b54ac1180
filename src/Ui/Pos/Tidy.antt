-- ===== src/Ui/Pos/Tidy.antt =====
-- The keys of the layout's tab of src/ui.c, and the ids and places of the tables.
use system_programming_team.Layout.{TablePlacement}
use system_programming_team.Prelude.{
  ◌≡◌, refl, sym, subst, Bool, ◌&&◌, List, [], ◌∷◌, Option, none, some, arith, leb, length,
  get_elem?, Bytes, Bool-cases, Option-cases, inl, inr,
}
use system_programming_team.Server.{ServerContext}
use system_programming_team.Layout.File.{max_grid_rows, max_grid_cols}
use system_programming_team.Ui.Pos.Adding.{HasRoom, add_table-Apart}
use system_programming_team.Ui.Pos.Apart.{Apart, IsAlike, Apart-alike, Apart-remove_at}
use system_programming_team.Ui.Pos.Moving.{found_at, put_down_stays}
use system_programming_team.Ui.Pos.LayoutTab.{
  resize, in_grid, edit_table, turned, labelled, is_some, delete_table, layout_key,
}
use system_programming_team.Ui.Pos.Placing.{ui_pos_layout_remove_at}
use system_programming_team.Ui.Pos.{PosUi, ask, ui_prompt_int, grid_key}
use system_programming_team.Ui.Rounds.{
  Key, no_key, key_up, key_down, key_left, key_right, key_enter, key_f, char, is_char, is_enter,
}

grid_key-layout : (key : Key) (ui : PosUi) → (grid_key key ui).layout ≡ ui.layout
unfolding grid_key
grid_key-layout no_key ui = refl
grid_key-layout key_up ui = refl
grid_key-layout key_down ui = ground arith
grid_key-layout key_left ui = refl
grid_key-layout key_right ui = ground arith
grid_key-layout key_enter ui = refl
grid_key-layout (key_f n) ui = refl
grid_key-layout (char c) ui = refl

edit_table-Apart :
    (f : TablePlacement → TablePlacement) (ui : PosUi)
    → ((tp : TablePlacement) → IsAlike tp (f tp))
    → Apart ui.layout.tables
    → Apart (edit_table f ui).layout.tables
unfolding edit_table
edit_table-Apart f ui h a = elim (Option-cases ui.layout_edit_idx) [
  | inl e ↦ rw (e, edit_table) a
  | inr (i, e) ↦ elim (Option-cases (get_elem? ui.layout.tables i)) [
    | inl g ↦ rw (e, g, edit_table) a
    | inr (tp, g) ↦ rw (e, g, edit_table) (Apart-alike ui.layout.tables i tp (f tp) g (h tp) a)
  ]
]

turned-IsAlike : (tp : TablePlacement) → IsAlike tp (turned tp)
turned-IsAlike tp = record { id = refl; row = refl; col = refl; active = refl }

labelled-IsAlike : (s : Bytes) (tp : TablePlacement) → IsAlike tp (labelled s tp)
labelled-IsAlike [] tp = record { id = refl; row = refl; col = refl; active = refl }
labelled-IsAlike (c ∷ s) tp = record { id = refl; row = refl; col = refl; active = refl }

delete_table-Apart : (ui : PosUi) → Apart ui.layout.tables → Apart (delete_table ui).layout.tables
unfolding delete_table ui_pos_layout_remove_at
delete_table-Apart ui a = elim (Option-cases ui.layout_edit_idx) [
  | inl e ↦ rw (e, delete_table) a
  | inr (i, e) ↦ elim (Bool-cases (leb (length ui.layout.tables) i)) [
    | inl f ↦ rw (e, delete_table) (rw (f, ui_pos_layout_remove_at) a)
    | inr f ↦
        rw (e, delete_table)
          (rw (f, ui_pos_layout_remove_at) (Apart-remove_at ui.layout.tables i a))
  ]
]

-- What a key leaves has the tables apart.
abbrev IsTidy : Option (PosUi × ServerContext) → Type 0
IsTidy none = Unit
IsTidy (some (v, ctx)) = Apart v.layout.tables

resize-Apart :
    (answers : List Bytes) (ui : PosUi) (ctx : ServerContext)
    → Apart ui.layout.tables
    → IsTidy (elim (resize answers ui) as (λ _. Option (PosUi × ServerContext)) [
      | none ↦ none
      | some v ↦ some (v, ctx)
    ])
unfolding resize
resize-Apart answers ui ctx a = elim (Option-cases (ui_prompt_int answers)) [
  | inl e ↦ rw (e, resize) tt
  | inr ((nr, rest), e) ↦ elim (Option-cases (ui_prompt_int rest)) [
    | inl f ↦ rw (e, f, resize) tt
    | inr ((nc, last), f) ↦
        elim (Bool-cases (in_grid max_grid_rows nr && in_grid max_grid_cols nc)) [
          | inl g ↦ rw (e, f, resize) (rw g a)
          | inr g ↦ rw (e, f, resize) (rw g a)
        ]
  ]
]

abbrev puts : Key → PosUi → Bool
puts key at = at.layout_move_mode && (is_some at.layout_edit_idx && is_enter key)

layout_key-IsTidy :
    (key : Key) (answers : List Bytes) (stale : TablePlacement) (ui : PosUi) (ctx : ServerContext)
    → Apart ui.layout.tables
    → HasRoom (stale ∷ ui.layout.tables)
    → IsTidy (layout_key key answers stale ui ctx)
unfolding layout_key
layout_key-IsTidy key answers stale ui ctx start room =
    let at = found_at (grid_key key ui) in
    let same = grid_key-layout key ui in
    let a : Apart at.layout.tables = subst (λ l. Apart l.tables) (sym same) start in
    let h : HasRoom (stale ∷ at.layout.tables) =
      subst (λ l. HasRoom (stale ∷ l.tables)) (sym same) room in
    elim (Bool-cases (is_char b'g' key)) [
      | inl e ↦ rw (e, layout_key) (resize-Apart answers at ctx a)
      | inr e1 ↦ elim (Bool-cases (is_char b'a' key)) [
        | inl e ↦ rw (e1, e, layout_key) (add_table-Apart stale at ctx a h)
        | inr e2 ↦ elim (Bool-cases (is_char b'd' key)) [
          | inl e ↦ rw (e1, e2, e, layout_key) (delete_table-Apart at a)
          | inr e3 ↦ elim (Bool-cases (is_char b'z' key)) [
            | inl e ↦ rw (e1, e2, e3, e, layout_key) (edit_table-Apart turned at turned-IsAlike a)
            | inr e4 ↦ elim (Bool-cases (is_char b'l' key)) [
              | inl e ↦
                  rw (e1, e2, e3, e4, e, layout_key)
                    (edit_table-Apart (labelled (ask 16 answers).0) at
                      (labelled-IsAlike (ask 16 answers).0) a)
              | inr e5 ↦ elim (Bool-cases (is_char b'm' key && is_some at.layout_edit_idx)) [
                | inl e ↦ rw (e1, e2, e3, e4, e5, e, layout_key) a
                | inr e6 ↦ elim (Bool-cases (puts key at)) [
                  | inl e ↦
                      rw (e1, e2, e3, e4, e5, e6, e, layout_key)
                        (subst (λ l. Apart l.tables) (sym (put_down_stays at refl)) a)
                  | inr e7 ↦ elim (Bool-cases (is_char b's' key)) [
                    | inl e ↦ rw (e1, e2, e3, e4, e5, e6, e7, e, layout_key) a
                    | inr e ↦ rw (e1, e2, e3, e4, e5, e6, e7, e, layout_key) a
                  ]
                ]
              ]
            ]
          ]
        ]
      ]
    ]

-- If no two active tables have one id or stand at one place, and all ids are below the largest int,
-- the one in the array's next slot included, then after every key of the layout's tab, whatever is
-- typed at its prompts, no two active tables have one id or stand at one place.
pub layout_key-Apart :
    (key : Key) (answers : List Bytes) (stale : TablePlacement) (ui v : PosUi)
    (ctx ctx' : ServerContext)
    → Apart ui.layout.tables
    → HasRoom (stale ∷ ui.layout.tables)
    → layout_key key answers stale ui ctx ≡ some (v, ctx')
    → Apart v.layout.tables
layout_key-Apart key answers stale ui v ctx ctx' a h e =
    subst IsTidy e (layout_key-IsTidy key answers stale ui ctx a h)
