-- ===== src/Ui/Visible/Selecting.antt =====
-- The search of src/ui.c for a dish that can be selected.
use system_programming_team.Common.{MenuItem, MenuCatalog}
use system_programming_team.Prelude.{
  ℕ, zero, suc, ◌+◌, ◌≤◌, ◌≡◌, ◌≢◌, refl, sym, ap, subst, ◌∙◌, true, false, ◌||◌, none, some, arith,
  leb, get_elem?, ℤ, pos, negsuc, pos_part, neg_part, ◌+ℤ◌, eqb_ℤ, Bool-cases, Option-cases, inl,
  inr,
}
use system_programming_team.Text.{is_true}
use system_programming_team.Ui.Visible.Places.{places, index_at-places, places-match}
use system_programming_team.Ui.Visible.{
  ui_menu_is_selectable, ui_menu_match_category, ui_menu_visible_count, ui_menu_index_at_visible,
  in_bounds, index_at, selectable_at, selectable_loop, ui_find_selectable_visible_from,
}

-- Enough fuel for a search of `n` places from `v`: up, the places from `v`; down, those to `v`.
abbrev Enough : ℕ → ℕ → ℤ → ℤ → Type 0
Enough fuel n v (pos s) = (s ≢ 0) × (n + neg_part v ≤ fuel + pos_part v)
Enough fuel n v (negsuc s) = pos_part v + 1 ≤ fuel + neg_part v

selectable_loop-ends :
    (fuel : ℕ) (cat : MenuCatalog) (c : ℕ) (v step : ℤ)
    → Enough fuel (ui_menu_visible_count cat c) v step
    → selectable_loop fuel cat c v step ≢ none
unfolding selectable_loop ◌+ℤ◌
selectable_loop-ends zero cat c (negsuc v) step h = λ e. cc
selectable_loop-ends zero cat c (pos v) (pos s) h = ground (arith, h)
selectable_loop-ends zero cat c (pos v) (negsuc s) h = ground (arith, h)
selectable_loop-ends (suc fuel) cat c (negsuc v) step h = λ e. cc
selectable_loop-ends (suc fuel) cat c (pos v) step h =
    elim (Bool-cases (in_bounds (ui_menu_visible_count cat c) (pos v))) [
      | inr b ↦ rw (b, selectable_loop) (λ e. cc)
      | inl b ↦ elim (Option-cases (selectable_at cat (ui_menu_index_at_visible cat c (pos v)))) [
        | inr (i, e) ↦ rw (b, e, selectable_loop) (λ q. cc)
        | inl e ↦
            rw (b, e, selectable_loop)
              (selectable_loop-ends fuel cat c (pos v +ℤ step) step (next step h))
      ]
    ]
  where
    next :
        (step : ℤ)
        → Enough (suc fuel) (ui_menu_visible_count cat c) (pos v) step
        → Enough fuel (ui_menu_visible_count cat c) (pos v +ℤ step) step
    next (pos s) h = (h.0, ground (arith, h))
    next (negsuc s) h = ground (arith, h)

-- A dish that the search may return: it is in the menu, in the category, and not sold out.
abbrev pub IsChoice : MenuCatalog → ℕ → ℕ → Type 0
IsChoice cat c i =
    (m : MenuItem) × (get_elem? cat.items i ≡ some m)
    × (ui_menu_match_category m c ≡ true)
    × (is_true m.sold_out ≡ false)

choice :
    (cat : MenuCatalog) (c k i : ℕ)
    → selectable_at cat (ui_menu_index_at_visible cat c (pos k)) ≡ some i
    → IsChoice cat c i
unfolding ui_menu_index_at_visible ui_menu_is_selectable
choice cat c k i h = elim (Option-cases (ui_menu_index_at_visible cat c (pos k))) [
  | inl e ↦ absurd (ground (arith, e, h))
  | inr (r, e) ↦
      let same : k ≡ 0 + k = omega arith in
      let place : get_elem? (places c cat.items 0) k ≡ some r =
        sym (ap (λ n. index_at c (pos n) cat.items 0 0) same ∙ index_at-places c k cat.items 0 0)
        ∙ e in
      let (j, m, q, g, t) = places-match c cat.items 0 k r place in
      let at : get_elem? cat.items r ≡ some m =
        let here : r ≡ j = omega (arith, q) in ap (get_elem? cat.items) here ∙ g in
      taken r m e at t
]
  where
    taken :
        (r : ℕ) (m : MenuItem)
        → ui_menu_index_at_visible cat c (pos k) ≡ some r
        → get_elem? cat.items r ≡ some m
        → ui_menu_match_category m c ≡ true
        → IsChoice cat c i
    taken r m e g t = elim (Bool-cases (is_true m.sold_out)) [
      | inl s ↦ absurd (ground (arith, e, g, s, h))
      | inr s ↦ (m, ground (arith, e, g, s, h), t, s)
    ]

selectable_loop-out :
    (fuel : ℕ) (cat : MenuCatalog) (c : ℕ) (v step : ℤ)
    → in_bounds (ui_menu_visible_count cat c) v ≡ false
    → selectable_loop fuel cat c v step ≡ some none
unfolding selectable_loop
selectable_loop-out zero cat c v step b = rw (b, selectable_loop) refl
selectable_loop-out (suc fuel) cat c v step b = rw (b, selectable_loop) refl

selectable_loop-IsChoice :
    (fuel : ℕ) (cat : MenuCatalog) (c : ℕ) (v step : ℤ) (i : ℕ)
    → selectable_loop fuel cat c v step ≡ some (some i)
    → IsChoice cat c i
unfolding selectable_loop
selectable_loop-IsChoice zero cat c v step i h =
    elim (Bool-cases (in_bounds (ui_menu_visible_count cat c) v)) [
      | inl b ↦ absurd (ground (arith, b, h))
      | inr b ↦ absurd (ground (arith, b, h))
    ]
selectable_loop-IsChoice (suc fuel) cat c (negsuc v) step i h = absurd (ground arith)
selectable_loop-IsChoice (suc fuel) cat c (pos v) step i h =
    elim (Bool-cases (in_bounds (ui_menu_visible_count cat c) (pos v))) [
      | inr b ↦
          absurd (ground (arith, sym (selectable_loop-out (suc fuel) cat c (pos v) step b), h))
      | inl b ↦ elim (Option-cases (selectable_at cat (ui_menu_index_at_visible cat c (pos v)))) [
        | inr (r, e) ↦
            let found : selectable_loop (suc fuel) cat c (pos v) step ≡ some (some r) =
              rw (b, e, selectable_loop) refl in
            let same : r ≡ i = ground (arith, sym found ∙ h) in
            subst (IsChoice cat c) same (choice cat c v r e)
        | inl e ↦
            let next : selectable_loop (suc fuel) cat c (pos v) step
                ≡ selectable_loop fuel cat c (pos v +ℤ step) step =
              rw (b, e, selectable_loop) refl in
            selectable_loop-IsChoice fuel cat c (pos v +ℤ step) step i (sym next ∙ h)
      ]
    ]

Enough-start :
    (n : ℕ) (v step : ℤ) → in_bounds n v ≡ true → eqb_ℤ step (pos 0) ≡ false → Enough n n v step
Enough-start n (negsuc v) step b z = absurd (ground arith)
Enough-start n (pos v) (pos s) b z = ((λ e. ground arith), omega arith)
Enough-start n (pos v) (negsuc s) b z = ground arith

-- The search from a visible place in steps up or down always ends, and a dish that it finds is in
-- the menu, in the category and not sold out.
pub ui_find_selectable_visible_from-IsChoice :
    (cat : MenuCatalog) (c : ℕ) (start step : ℤ)
    → (ui_find_selectable_visible_from cat c start step ≢ none)
      × ((i : ℕ)
          → ui_find_selectable_visible_from cat c start step ≡ some (some i)
          → IsChoice cat c i)
unfolding ui_find_selectable_visible_from
ui_find_selectable_visible_from-IsChoice cat c start step =
    let n = ui_menu_visible_count cat c in
    elim (Bool-cases (leb n 0 || eqb_ℤ step (pos 0))) [
      | inl e ↦
          let q : ui_find_selectable_visible_from cat c start step ≡ some none =
            rw (e, ui_find_selectable_visible_from) refl in
          ((λ h. ground (arith, q, h)), λ i h. absurd (ground (arith, q, h)))
      | inr e ↦
          let q : ui_find_selectable_visible_from cat c start step
              ≡ selectable_loop n cat c start step =
            rw (e, ui_find_selectable_visible_from) refl in
          (
            λ h. ends e (sym q ∙ h),
            λ i h. selectable_loop-IsChoice n cat c start step i (sym q ∙ h),
          )
    ]
  where
    ends :
        (leb (ui_menu_visible_count cat c) 0 || eqb_ℤ step (pos 0)) ≡ false
        → selectable_loop (ui_menu_visible_count cat c) cat c start step ≢ none
    ends e = elim (Bool-cases (in_bounds (ui_menu_visible_count cat c) start)) [
      | inr b ↦ λ h.
          ground
            (arith, sym (selectable_loop-out (ui_menu_visible_count cat c) cat c start step b) ∙ h)
      | inl b ↦
          selectable_loop-ends (ui_menu_visible_count cat c) cat c start step
            (Enough-start (ui_menu_visible_count cat c) start step b (ground arith))
    ]
