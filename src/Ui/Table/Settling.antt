-- ===== src/Ui/Table/Settling.antt =====
-- The selected dish after a key on the menu of src/ui.c.
use system_programming_team.Common.{MenuItem, MenuCatalog}
use system_programming_team.Prelude.{
  ℕ, ◌+◌, ◌<◌, ◌≡◌, refl, sym, ap, subst, ◌∙◌, true, false, not, ◌||◌, ◌==◌, none, some, arith,
  if◌then◌else◌, ltb, leb, length, get_elem?, pos, negsuc, ◌%◌, sub_ℕ, Bool-cases, Option-cases,
  inl, inr,
}
use system_programming_team.Text.{is_true}
use system_programming_team.Ui.Table.Dishes.{
  or_zero, step_aside, is_in_category, settle, focus_key, menu_key, sidebar_space, dishes_space,
  sidebar_arrow, dishes_arrow, search_from, visible_sel,
}
use system_programming_team.Ui.Table.{TableUi, TableFocus, focus_menu, focus_sidebar}
use system_programming_team.Ui.Rounds.{
  Key, no_key, key_up, key_down, key_left, key_right, key_enter, key_f, char, is_char,
}
use system_programming_team.Os.{World}
use system_programming_team.Ui.Visible.Places.{places, visible_places, get_elem?-bound}
use system_programming_team.Ui.Visible.Selecting.{
  IsChoice, ui_find_selectable_visible_from-IsChoice,
}
use system_programming_team.Ui.Visible.Passing.{
  IsBarred, selectable_lem, search_up, search_down, open_place, first-none, first_from-IsChoice,
}
use system_programming_team.Ui.Visible.{
  sidebar_drink, ui_menu_is_selectable, ui_menu_match_category, ui_menu_visible_count,
  ui_menu_index_at_visible, ui_find_selectable_visible_from, ui_menu_first_selectable_in_category,
}

-- The dish that can be ordered has a place, so the places cannot all be barred.
not_all_barred :
    (cat : MenuCatalog) (c i v : ℕ)
    → IsChoice cat c i
    → v < ui_menu_visible_count cat c
    → IsBarred cat c v
    → ui_find_selectable_visible_from cat c (pos (v + 1)) (pos 1) ≡ some none
    → ui_find_selectable_visible_from cat c (sub_ℕ v 1) (negsuc 0) ≡ some none
    → ⊥
not_all_barred cat c i v choice l b up down =
    let (k, inside, free, _) = open_place cat c i choice in
    elim (Bool-cases (ltb v k)) [
      | inl e ↦ ground (arith, sym free ∙ search_up cat c v k up (ground arith) inside)
      | inr e ↦ elim (Bool-cases (ltb k v)) [
        | inl f ↦ ground (arith, sym free ∙ search_down cat c v k down (ground arith) l)
        | inr f ↦
            let same : v ≡ k = ground arith in
            ground (arith, sym free ∙ subst (IsBarred cat c) same b)
      ]
    ]

-- Where some dish of the category can be ordered, a selection in the category is brought to one.
step_aside-IsChoice :
    (cat : MenuCatalog) (c i sel : ℕ) (m : MenuItem)
    → IsChoice cat c i
    → get_elem? cat.items sel ≡ some m
    → ui_menu_match_category m c ≡ true
    → IsChoice cat c (step_aside cat c sel)
unfolding step_aside
step_aside-IsChoice cat c i sel m other g t =
    let inside : ltb sel (length cat.items) ≡ true =
      ground (arith, get_elem?-bound cat.items sel m g) in
    let state = selectable_lem cat sel m g in
    elim (Bool-cases (is_true m.sold_out)) [
      | inr s ↦
          let free : ui_menu_is_selectable cat (pos sel) ≡ true = state ∙ ap not s in
          subst (IsChoice cat c) (sym (rw (inside, free, step_aside) refl)) (m, g, t, s)
      | inl s ↦
          let sold : ui_menu_is_selectable cat (pos sel) ≡ false = state ∙ ap not s in
          let (count, index, back, placed) = visible_places cat c in
          let (v, p) = (placed sel m g).0 t in
          let up = ui_find_selectable_visible_from-IsChoice cat c (pos (v + 1)) (pos 1) in
          let down = ui_find_selectable_visible_from-IsChoice cat c (sub_ℕ v 1) (negsuc 0) in
          elim (Option-cases (ui_find_selectable_visible_from cat c (pos (v + 1)) (pos 1))) [
            | inl e ↦ absurd (up.0 e)
            | inr (some next, e) ↦
                subst (IsChoice cat c) (sym (rw (inside, sold, p, e, step_aside) refl))
                  (up.1 next e)
            | inr (none, e) ↦
                elim (Option-cases (ui_find_selectable_visible_from cat c (sub_ℕ v 1) (negsuc 0))) [
                  | inl f ↦ absurd (down.0 f)
                  | inr (some next, f) ↦
                      subst (IsChoice cat c) (sym (rw (inside, sold, p, e, f, step_aside) refl))
                        (down.1 next f)
                  | inr (none, f) ↦ absurd (
                      let at : ui_menu_index_at_visible cat c (pos v) ≡ some sel =
                        (back sel v).0 p in
                      not_all_barred cat c i v other
                        (omega (
                          arith,
                          count,
                          get_elem?-bound (places c cat.items 0) v sel (sym (index v) ∙ at),
                        ))
                        (rw at (rw sold refl)) e f)
                ]
          ]
    ]

-- The first dish of the category that can be ordered stays selected.
from_first :
    (cat : MenuCatalog) (c i : ℕ)
    → IsChoice cat c i
    → IsChoice cat c (step_aside cat c (or_zero (ui_menu_first_selectable_in_category cat c)))
unfolding ui_menu_first_selectable_in_category
from_first cat c i choice = elim (Option-cases (ui_menu_first_selectable_in_category cat c)) [
  | inl e ↦
      let (m, g, t, s) = choice in
      let barred = first-none cat c cat.items 0 i m e g t in
      let here : 0 + i ≡ i = omega arith in
      let free : ui_menu_is_selectable cat (pos (0 + i)) ≡ true =
        ap (λ n. ui_menu_is_selectable cat (pos n)) here ∙ selectable_lem cat i m g ∙ ap not s in
      absurd (ground (arith, sym free ∙ barred))
  | inr (f, e) ↦
      let (m, g, t, _) = first_from-IsChoice cat c f e in
      subst (λ o. IsChoice cat c (step_aside cat c (or_zero o))) (sym e)
        (step_aside-IsChoice cat c i f m choice g t)
]

settle-IsChoice :
    (cat : MenuCatalog) (c i sel : ℕ) → IsChoice cat c i → IsChoice cat c (settle cat c sel)
unfolding settle
settle-IsChoice cat c i sel choice =
    let (k, inside, _, _) = open_place cat c i choice in
    let (m, g, t, s) = choice in
    let full : (leb (length cat.items) 0 || leb (ui_menu_visible_count cat c) 0) ≡ false =
      ground (arith, get_elem?-bound cat.items i m g, inside) in
    let first = or_zero (ui_menu_first_selectable_in_category cat c) in
    let goes : settle cat c sel
        ≡ step_aside cat c (if is_in_category cat c sel then sel else first) =
      ap (λ b. if b then 0 else step_aside cat c (if is_in_category cat c sel then sel else first))
        full in
    elim (Bool-cases (is_in_category cat c sel)) [
      | inr e ↦
          subst (IsChoice cat c)
            (sym (goes ∙ ap (λ b. step_aside cat c (if b then sel else first)) e))
            (from_first cat c i choice)
      | inl e ↦ elim (Option-cases (get_elem? cat.items sel)) [
        | inl n ↦ absurd (ground (arith, n, e))
        | inr (x, n) ↦
            subst (IsChoice cat c)
              (sym (goes ∙ ap (λ b. step_aside cat c (if b then sel else first)) e))
              (step_aside-IsChoice cat c i sel x choice n (ground (arith, n, e)))
      ]
    ]

-- No key changes the menu.
sidebar_space-cat : (sock : ℕ) (ui : TableUi) (w : World) → (sidebar_space sock ui w).0.cat ≡ ui.cat
unfolding sidebar_space
sidebar_space-cat sock ui w = elim (Bool-cases (leb ui.sidebar_sel sidebar_drink)) [
  | inl a ↦ rw (a, sidebar_space) refl
  | inr a ↦ elim (Bool-cases (ui.sidebar_sel == 6)) [
    | inl b ↦ rw (a, b, sidebar_space) refl
    | inr b ↦ elim (Bool-cases (ui.sidebar_sel == 7)) [
      | inl c ↦ rw (a, b, c, sidebar_space) refl
      | inr c ↦ elim (Bool-cases (ui.sidebar_sel == 8)) [
        | inl d ↦ rw (a, b, c, d, sidebar_space) refl
        | inr d ↦ rw (a, b, c, d, sidebar_space) refl
      ]
    ]
  ]
]

dishes_space-cat : (ui : TableUi) → (dishes_space ui).cat ≡ ui.cat
unfolding dishes_space
dishes_space-cat ui = elim (Option-cases (get_elem? ui.cat.items ui.sel)) [
  | inl e ↦ rw (e, dishes_space) refl
  | inr (m, e) ↦ elim (Bool-cases (is_true m.sold_out)) [
    | inl s ↦ rw (e, s, dishes_space) refl
    | inr s ↦ rw (e, s, dishes_space) refl
  ]
]

sidebar_arrow-cat : (key : Key) (ui : TableUi) → (sidebar_arrow key ui).cat ≡ ui.cat
unfolding sidebar_arrow
sidebar_arrow-cat key ui = elim key as (λ k. (sidebar_arrow k ui).cat ≡ ui.cat) [
  | no_key ↦ refl
  | key_up ↦ refl
  | key_down ↦ refl
  | key_left ↦ refl
  | key_right ↦ refl
  | key_enter ↦ refl
  | key_f n ↦ refl
  | char c ↦ refl
]

left-cat : (ui : TableUi) → (dishes_arrow key_left ui).cat ≡ ui.cat
unfolding dishes_arrow search_from
left-cat ui = elim (Bool-cases (visible_sel ui % 3 == 0)) [
  | inl e ↦ rw (e, dishes_arrow) refl
  | inr e ↦ rw (e, dishes_arrow) refl
]

dishes_arrow-cat : (key : Key) (ui : TableUi) → (dishes_arrow key ui).cat ≡ ui.cat
unfolding dishes_arrow search_from
dishes_arrow-cat key ui = elim key as (λ k. (dishes_arrow k ui).cat ≡ ui.cat) [
  | no_key ↦ refl
  | key_up ↦ refl
  | key_down ↦ refl
  | key_left ↦ left-cat ui
  | key_right ↦ refl
  | key_enter ↦ refl
  | key_f n ↦ refl
  | char c ↦ refl
]

by_focus-cat :
    (f : TableFocus) (cat : MenuCatalog) (a b : TableUi × World)
    → a.0.cat ≡ cat
    → b.0.cat ≡ cat
    → (elim f as (λ _. TableUi × World) [ focus_sidebar ↦ a | focus_menu ↦ b ]).0.cat ≡ cat
by_focus-cat focus_sidebar cat a b p q = p
by_focus-cat focus_menu cat a b p q = q

focus_key-cat :
    (sock : ℕ) (key : Key) (ui : TableUi) (w : World) → (focus_key sock key ui w).0.cat ≡ ui.cat
unfolding focus_key
focus_key-cat sock key ui w =
    by_focus-cat ui.focus ui.cat
      (if is_char 32 key then sidebar_space sock ui w else (sidebar_arrow key ui, w))
      (if is_char 32 key then dishes_space ui else dishes_arrow key ui, w)
      (elim (Bool-cases (is_char 32 key)) [
        | inl e ↦ rw e (sidebar_space-cat sock ui w)
        | inr e ↦ rw e (sidebar_arrow-cat key ui)
      ])
      (elim (Bool-cases (is_char 32 key)) [
        | inl e ↦ rw e (dishes_space-cat ui)
        | inr e ↦ rw e (dishes_arrow-cat key ui)
      ])

-- After every key on the menu, the selected dish is in the chosen category and not sold out, if the
-- menu has such a dish.
pub menu_key-IsChoice :
    (sock : ℕ) (key : Key) (ui : TableUi) (w : World) (i : ℕ)
    → IsChoice ui.cat (menu_key sock key ui w).0.current_category i
    → IsChoice ui.cat (menu_key sock key ui w).0.current_category (menu_key sock key ui w).0.sel
unfolding menu_key
menu_key-IsChoice sock key ui w i choice =
    let after = (focus_key sock key ui w).0 in
    let same = focus_key-cat sock key ui w in
    subst
      (λ cat.
        IsChoice cat after.current_category (settle after.cat after.current_category after.sel))
      same
      (settle-IsChoice after.cat after.current_category i after.sel
        (subst (λ cat. IsChoice cat after.current_category i) (sym same) choice))
