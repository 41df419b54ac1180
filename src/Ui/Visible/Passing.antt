-- ===== src/Ui/Visible/Passing.antt =====
-- The dishes that the searches of src/ui.c pass over.
use system_programming_team.Common.{MenuItem, MenuCatalog}
use system_programming_team.Prelude.{
  ℕ, zero, suc, ◌+◌, ◌≤◌, ◌<◌, ◌≡◌, refl, sym, ap, subst, ◌∙◌, true, false, not, ◌==◌, List, [],
  ◌∷◌, none, some, arith, leb, get_elem?, pos, negsuc, ◌+ℤ◌, sub_ℕ, Bool-cases, Option-cases, inl,
  inr, ◌⊎◌,
}
use system_programming_team.Text.{is_true}
use system_programming_team.Ui.Visible.Places.{places, visible_places, get_elem?-bound}
use system_programming_team.Ui.Visible.Selecting.{IsChoice}
use system_programming_team.Ui.Visible.{
  ui_menu_is_selectable, ui_menu_match_category, ui_menu_visible_count, ui_menu_index_at_visible,
  ui_menu_visible_pos_of_index, in_bounds, selectable_at, selectable_loop,
  ui_find_selectable_visible_from, first_selectable, ui_menu_first_selectable_in_category,
}

-- No dish at the visible place can be selected.
abbrev pub IsBarred : MenuCatalog → ℕ → ℕ → Type 0
IsBarred cat c k = selectable_at cat (ui_menu_index_at_visible cat c (pos k)) ≡ none

plus_one : (v : ℕ) → pos v +ℤ pos 1 ≡ pos (suc v)
unfolding ◌+ℤ◌
plus_one v = ground arith

minus_one : (v : ℕ) → pos (suc v) +ℤ negsuc 0 ≡ pos v
unfolding ◌+ℤ◌
minus_one v = ground arith

-- A search up that finds nothing has passed every place from its start.
loop_up :
    (fuel : ℕ) (cat : MenuCatalog) (c v k : ℕ)
    → selectable_loop fuel cat c (pos v) (pos 1) ≡ some none
    → v ≤ k
    → k < ui_menu_visible_count cat c
    → IsBarred cat c k
unfolding selectable_loop
loop_up zero cat c v k h l b = absurd (ground arith)
loop_up (suc fuel) cat c v k h l b =
    let inside : in_bounds (ui_menu_visible_count cat c) (pos v) ≡ true = ground (arith, l, b) in
    elim (Option-cases (selectable_at cat (ui_menu_index_at_visible cat c (pos v)))) [
      | inr (i, e) ↦ absurd (ground (arith, inside, e, h))
      | inl e ↦ elim (Bool-cases (v == k)) [
        | inl q ↦ let same : v ≡ k = ground arith in subst (IsBarred cat c) same e
        | inr q ↦
            let next : selectable_loop (suc fuel) cat c (pos v) (pos 1)
                ≡ selectable_loop fuel cat c (pos v +ℤ pos 1) (pos 1) =
              rw (inside, e, selectable_loop) refl in
            loop_up fuel cat c (suc v) k
              (sym (next ∙ ap (λ z. selectable_loop fuel cat c z (pos 1)) (plus_one v)) ∙ h)
              (ground (arith, l, q)) b
      ]
    ]

-- A search down that finds nothing has passed every place to its start.
loop_down :
    (fuel : ℕ) (cat : MenuCatalog) (c v k : ℕ)
    → selectable_loop fuel cat c (pos v) (negsuc 0) ≡ some none
    → k ≤ v
    → v < ui_menu_visible_count cat c
    → IsBarred cat c k
unfolding selectable_loop
loop_down zero cat c v k h l b = absurd (ground arith)
loop_down (suc fuel) cat c zero k h l b =
    let inside : in_bounds (ui_menu_visible_count cat c) (pos 0) ≡ true = ground (arith, b) in
    elim (Option-cases (selectable_at cat (ui_menu_index_at_visible cat c (pos 0)))) [
      | inr (i, e) ↦ absurd (ground (arith, inside, e, h))
      | inl e ↦ let same : 0 ≡ k = omega arith in subst (IsBarred cat c) same e
    ]
loop_down (suc fuel) cat c (suc v) k h l b =
    let inside : in_bounds (ui_menu_visible_count cat c) (pos (suc v)) ≡ true = ground (arith, b) in
    elim (Option-cases (selectable_at cat (ui_menu_index_at_visible cat c (pos (suc v))))) [
      | inr (i, e) ↦ absurd (ground (arith, inside, e, h))
      | inl e ↦ elim (Bool-cases (suc v == k)) [
        | inl q ↦ let same : suc v ≡ k = ground arith in subst (IsBarred cat c) same e
        | inr q ↦
            let next : selectable_loop (suc fuel) cat c (pos (suc v)) (negsuc 0)
                ≡ selectable_loop fuel cat c (pos (suc v) +ℤ negsuc 0) (negsuc 0) =
              rw (inside, e, selectable_loop) refl in
            loop_down fuel cat c v k
              (sym (next ∙ ap (λ z. selectable_loop fuel cat c z (negsuc 0)) (minus_one v)) ∙ h)
              (ground (arith, l, q)) (omega arith)
      ]
    ]

-- Both searches from next to a visible place together pass every other place.
pub search_up :
    (cat : MenuCatalog) (c v k : ℕ)
    → ui_find_selectable_visible_from cat c (pos (v + 1)) (pos 1) ≡ some none
    → v < k
    → k < ui_menu_visible_count cat c
    → IsBarred cat c k
unfolding ui_find_selectable_visible_from
search_up cat c v k h l b =
    let some_place : leb (ui_menu_visible_count cat c) 0 ≡ false = ground (arith, b) in
    loop_up (ui_menu_visible_count cat c) cat c (v + 1) k (ground (arith, some_place, h))
      (omega arith) b

pub search_down :
    (cat : MenuCatalog) (c v k : ℕ)
    → ui_find_selectable_visible_from cat c (sub_ℕ v 1) (negsuc 0) ≡ some none
    → k < v
    → v < ui_menu_visible_count cat c
    → IsBarred cat c k
unfolding ui_find_selectable_visible_from
search_down cat c zero k h l b = absurd (omega arith)
search_down cat c (suc v) k h l b =
    let some_place : leb (ui_menu_visible_count cat c) 0 ≡ false = ground (arith, b) in
    let start : sub_ℕ (suc v) 1 ≡ pos v = ground arith in
    loop_down (ui_menu_visible_count cat c) cat c v k
      (ap (λ z. selectable_loop (ui_menu_visible_count cat c) cat c z (negsuc 0)) (sym start)
        ∙ ground (arith, some_place, h))
      (omega arith) (omega arith)

pub selectable_lem :
    (cat : MenuCatalog) (i : ℕ) (m : MenuItem)
    → get_elem? cat.items i ≡ some m
    → ui_menu_is_selectable cat (pos i) ≡ not (is_true m.sold_out)
unfolding ui_menu_is_selectable
selectable_lem cat i m g = rw (g, ui_menu_is_selectable) refl

-- A dish that can be ordered is not barred at its place.
pub open_place :
    (cat : MenuCatalog) (c i : ℕ)
    → IsChoice cat c i
    → (k : ℕ) × (k < ui_menu_visible_count cat c)
      × (selectable_at cat (ui_menu_index_at_visible cat c (pos k)) ≡ some i)
      × (ui_menu_visible_pos_of_index cat c i ≡ some k)
open_place cat c i (m, g, t, s) =
    let (count, index, back, placed) = visible_places cat c in
    let (k, p) = (placed i m g).0 t in
    let at : ui_menu_index_at_visible cat c (pos k) ≡ some i = (back i k).0 p in
    let free : ui_menu_is_selectable cat (pos i) ≡ true = selectable_lem cat i m g ∙ rw s refl in
    (
      k,
      omega (arith, count, get_elem?-bound (places c cat.items 0) k i (sym (index k) ∙ at)),
      rw at (rw free refl),
      p,
    )

-- One round of the first search.
first_hit :
    (cat : MenuCatalog) (c : ℕ) (x : MenuItem) (ms : List MenuItem) (i : ℕ)
    → ui_menu_match_category x c ≡ true
    → ui_menu_is_selectable cat (pos i) ≡ true
    → first_selectable cat c (x ∷ ms) i ≡ some i
unfolding first_selectable
first_hit cat c x ms i t s = rw (t, first_selectable) (rw s refl)

first_pass :
    (cat : MenuCatalog) (c : ℕ) (x : MenuItem) (ms : List MenuItem) (i : ℕ)
    → (ui_menu_match_category x c ≡ false) ⊎ (ui_menu_is_selectable cat (pos i) ≡ false)
    → first_selectable cat c (x ∷ ms) i ≡ first_selectable cat c ms (suc i)
unfolding first_selectable
first_pass cat c x ms i (inl t) = rw (t, first_selectable) refl
first_pass cat c x ms i (inr s) = elim (Bool-cases (ui_menu_match_category x c)) [
  | inl t ↦ rw (t, first_selectable) (rw s refl)
  | inr t ↦ rw (t, first_selectable) refl
]

-- It passes over no dish that can be ordered.
pub first-none :
    (cat : MenuCatalog) (c : ℕ) (ms : List MenuItem) (i j : ℕ) (m : MenuItem)
    → first_selectable cat c ms i ≡ none
    → get_elem? ms j ≡ some m
    → ui_menu_match_category m c ≡ true
    → ui_menu_is_selectable cat (pos (i + j)) ≡ false
first-none cat c [] i j m h g t = absurd (ground arith)
first-none cat c (x ∷ ms) i zero m h g t =
    let same : some x ≡ some m = g in
    let e : ui_menu_match_category x c ≡ true = ground (arith, same, t) in
    let here : i + 0 ≡ i = omega arith in
    ap (λ n. ui_menu_is_selectable cat (pos n)) here
    ∙ elim (Bool-cases (ui_menu_is_selectable cat (pos i))) [
      | inl s ↦ absurd (ground (arith, sym (first_hit cat c x ms i e s) ∙ h))
      | inr s ↦ s
    ]
first-none cat c (x ∷ ms) i (suc j) m h g t =
    let here : i + suc j ≡ suc i + j = omega arith in
    let later : first_selectable cat c ms (suc i) ≡ none =
      elim (Bool-cases (ui_menu_match_category x c)) [
        | inr e ↦ sym (first_pass cat c x ms i (inl e)) ∙ h
        | inl e ↦ elim (Bool-cases (ui_menu_is_selectable cat (pos i))) [
          | inl s ↦ absurd (ground (arith, sym (first_hit cat c x ms i e s) ∙ h))
          | inr s ↦ sym (first_pass cat c x ms i (inr s)) ∙ h
        ]
      ] in
    ap (λ n. ui_menu_is_selectable cat (pos n)) here ∙ first-none cat c ms (suc i) j m later g t

-- What it finds is a dish of the category that can be selected.
abbrev IsFirst : MenuCatalog → ℕ → List MenuItem → ℕ → ℕ → Type 0
IsFirst cat c ms i f =
    (j : ℕ) × (m : MenuItem) × (f ≡ i + j)
    × (get_elem? ms j ≡ some m)
    × (ui_menu_match_category m c ≡ true)
    × (ui_menu_is_selectable cat (pos f) ≡ true)

IsFirst-later :
    (cat : MenuCatalog) (c : ℕ) (x : MenuItem) (ms : List MenuItem) (i f : ℕ)
    → IsFirst cat c ms (suc i) f
    → IsFirst cat c (x ∷ ms) i f
IsFirst-later cat c x ms i f (j, m, q, g, t, s) = (suc j, m, omega (arith, q), g, t, s)

first_selectable-IsFirst :
    (cat : MenuCatalog) (c : ℕ) (ms : List MenuItem) (i f : ℕ)
    → first_selectable cat c ms i ≡ some f
    → IsFirst cat c ms i f
unfolding first_selectable
first_selectable-IsFirst cat c [] i f h = absurd (ground arith)
first_selectable-IsFirst cat c (x ∷ ms) i f h = elim (Bool-cases (ui_menu_match_category x c)) [
  | inr e ↦
      IsFirst-later cat c x ms i f
        (first_selectable-IsFirst cat c ms (suc i) f (sym (first_pass cat c x ms i (inl e)) ∙ h))
  | inl e ↦ elim (Bool-cases (ui_menu_is_selectable cat (pos i))) [
    | inr s ↦
        IsFirst-later cat c x ms i f
          (first_selectable-IsFirst cat c ms (suc i) f (sym (first_pass cat c x ms i (inr s)) ∙ h))
    | inl s ↦
        let found : some i ≡ some f = sym (first_hit cat c x ms i e s) ∙ h in
        let same : i ≡ f = ground (arith, found) in
        (
          0,
          x,
          omega (arith, same),
          refl,
          e,
          subst (λ n. ui_menu_is_selectable cat (pos n) ≡ true) same s,
        )
  ]
]

-- The dish that the search returns first can be ordered.
pub first_from-IsChoice :
    (cat : MenuCatalog) (c f : ℕ)
    → ui_menu_first_selectable_in_category cat c ≡ some f
    → IsChoice cat c f
unfolding ui_menu_first_selectable_in_category
first_from-IsChoice cat c f h =
    let (j, m, q, g, t, s) = first_selectable-IsFirst cat c cat.items 0 f h in
    let here : f ≡ j = omega (arith, q) in
    let at : get_elem? cat.items f ≡ some m = ap (get_elem? cat.items) here ∙ g in
    (m, at, t, ground (arith, sym (selectable_lem cat f m at) ∙ s))
