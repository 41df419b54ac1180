-- ===== src/Ui/Visible/Places.antt =====
-- The loops over the visible dishes against one list of their places.
use system_programming_team.Common.{MenuItem, MenuCatalog}
use system_programming_team.Prelude.{
  ℕ, zero, suc, ◌+◌, ◌<◌, ◌≡◌, refl, sym, ap, ◌∙◌, true, false, ◌==◌, List, [], ◌∷◌, some, arith,
  if◌then◌else◌, leb, length, get_elem?, pos, eqb_ℤ, Bool-cases, inl, inr, ◌↔◌,
}
use system_programming_team.Ui.Visible.{
  ui_menu_match_category, count_visible, ui_menu_visible_count, index_at, ui_menu_index_at_visible,
  visible_pos, ui_menu_visible_pos_of_index,
}

-- The places of the dishes of a category, in order, the first entry being at `i`.
abbrev pub places : ℕ → List MenuItem → ℕ → List ℕ
places category [] i = []
places category (m ∷ ms) i =
    if ui_menu_match_category m category
    then i ∷ places category ms (suc i)
    else places category ms (suc i)

count-places :
    (c : ℕ) (ms : List MenuItem) (i n : ℕ) → count_visible c ms n ≡ n + length (places c ms i)
unfolding count_visible
count-places c [] i n = omega arith
count-places c (m ∷ ms) i n = elim (Bool-cases (ui_menu_match_category m c)) [
  | inl e ↦ rw e (omega (arith, count-places c ms (suc i) (suc n)))
  | inr e ↦ rw e (count-places c ms (suc i) n)
]

pub index_at-places :
    (c k : ℕ) (ms : List MenuItem) (i s : ℕ)
    → index_at c (pos (s + k)) ms i s ≡ get_elem? (places c ms i) k
unfolding index_at
index_at-places c k [] i s = refl
index_at-places c zero (m ∷ ms) i s = elim (Bool-cases (ui_menu_match_category m c)) [
  | inl e ↦ let t : eqb_ℤ (pos s) (pos (s + 0)) ≡ true = ground arith in rw e (rw t refl)
  | inr e ↦ rw e (index_at-places c zero ms (suc i) s)
]
index_at-places c (suc k) (m ∷ ms) i s = elim (Bool-cases (ui_menu_match_category m c)) [
  | inl e ↦
      let t : eqb_ℤ (pos s) (pos (s + suc k)) ≡ false = ground arith in
      let q : s + suc k ≡ suc s + k = omega arith in
      rw e (
        rw t (
          ap (λ n. index_at c (pos n) ms (suc i) (suc s)) q
          ∙ index_at-places c k ms (suc i) (suc s)))
  | inr e ↦ rw e (index_at-places c (suc k) ms (suc i) s)
]

-- The places are those of entries of the category.
pub places-match :
    (c : ℕ) (ms : List MenuItem) (i k r : ℕ)
    → get_elem? (places c ms i) k ≡ some r
    → (j : ℕ) × (m : MenuItem) × (r ≡ i + j)
      × (get_elem? ms j ≡ some m)
      × (ui_menu_match_category m c ≡ true)
places-match c [] i k r h = absurd (ground arith)
places-match c (m ∷ ms) i zero r h = elim (Bool-cases (ui_menu_match_category m c)) [
  | inl e ↦ (0, m, ground arith, refl, e)
  | inr e ↦
      let (j, x, q, g, t) = places-match c ms (suc i) zero r (ground arith) in
      (suc j, x, omega (arith, q), g, t)
]
places-match c (m ∷ ms) i (suc k) r h = elim (Bool-cases (ui_menu_match_category m c)) [
  | inl e ↦
      let (j, x, q, g, t) = places-match c ms (suc i) k r (ground arith) in
      (suc j, x, omega (arith, q), g, t)
  | inr e ↦
      let (j, x, q, g, t) = places-match c ms (suc i) (suc k) r (ground arith) in
      (suc j, x, omega (arith, q), g, t)
]

-- Each entry of the category has a place.
match-places :
    (c : ℕ) (ms : List MenuItem) (i j : ℕ) (m : MenuItem)
    → get_elem? ms j ≡ some m
    → ui_menu_match_category m c ≡ true
    → (k : ℕ) × (get_elem? (places c ms i) k ≡ some (i + j))
match-places c [] i j m h t = absurd (ground arith)
match-places c (x ∷ ms) i zero m h t =
    let e : ui_menu_match_category x c ≡ true = ground (arith, h, t) in
    (0, rw e (ap some (omega arith)))
match-places c (x ∷ ms) i (suc j) m h t =
    let (k, g) = match-places c ms (suc i) j m h t in
    let q : some (suc i + j) ≡ some (i + suc j) = ap some (omega arith) in
    elim (Bool-cases (ui_menu_match_category x c)) [
      | inl e ↦ (suc k, rw e (g ∙ q))
      | inr e ↦ (k, rw e (g ∙ q))
    ]

visible_pos-places :
    (c r : ℕ) (ms : List MenuItem) (i s t : ℕ)
    → visible_pos c r ms i s ≡ some t
    → (k : ℕ) × (t ≡ s + k) × (get_elem? (places c ms i) k ≡ some r)
unfolding visible_pos
visible_pos-places c r [] i s t h = absurd (ground arith)
visible_pos-places c r (m ∷ ms) i s t h = elim (Bool-cases (ui_menu_match_category m c)) [
  | inr e ↦ let (k, q, g) = visible_pos-places c r ms (suc i) s t (ground arith) in (k, q, rw e g)
  | inl e ↦ elim (Bool-cases (i == r)) [
    | inl f ↦ (0, ground arith, rw e (ap some (ground arith)))
    | inr f ↦
        let (k, q, g) = visible_pos-places c r ms (suc i) (suc s) t (ground arith) in
        (suc k, omega (arith, q), rw e g)
  ]
]

places-visible_pos :
    (c r : ℕ) (ms : List MenuItem) (i s k : ℕ)
    → get_elem? (places c ms i) k ≡ some r
    → visible_pos c r ms i s ≡ some (s + k)
unfolding visible_pos
places-visible_pos c r [] i s k h = absurd (ground arith)
places-visible_pos c r (m ∷ ms) i s zero h = elim (Bool-cases (ui_menu_match_category m c)) [
  | inr e ↦ rw e (places-visible_pos c r ms (suc i) s zero (ground arith))
  | inl e ↦ let f : (i == r) ≡ true = ground arith in rw e (rw f (ap some (omega arith)))
]
places-visible_pos c r (m ∷ ms) i s (suc k) h = elim (Bool-cases (ui_menu_match_category m c)) [
  | inr e ↦ rw e (places-visible_pos c r ms (suc i) s (suc k) (ground arith))
  | inl e ↦
      let g : get_elem? (places c ms (suc i)) k ≡ some r = ground arith in
      let (j, x, q, _, _) = places-match c ms (suc i) k r g in
      let f : (i == r) ≡ false = ground (arith, q) in
      rw e (rw f (places-visible_pos c r ms (suc i) (suc s) k g ∙ ap some (omega arith)))
]

pub get_elem?-bound :
    {A : Type 0} (xs : List A) (j : ℕ) (x : A) → get_elem? xs j ≡ some x → j < length xs
get_elem?-bound [] j x h = absurd (ground arith)
get_elem?-bound (y ∷ xs) zero x h = omega arith
get_elem?-bound (y ∷ xs) (suc j) x h = omega (arith, get_elem?-bound xs j x h)

at_place :
    (cat : MenuCatalog) (c i k : ℕ)
    → (ui_menu_visible_pos_of_index cat c i ≡ some k)
      ↔ (get_elem? (places c cat.items 0) k ≡ some i)
unfolding ui_menu_visible_pos_of_index
at_place cat c i k = (to, from)
  where
    to : ui_menu_visible_pos_of_index cat c i ≡ some k → get_elem? (places c cat.items 0) k ≡ some i
    to h = elim (Bool-cases (leb (length cat.items) i)) [
      | inl e ↦ absurd (ground arith)
      | inr e ↦
          let (j, q, g) = visible_pos-places c i cat.items 0 0 k (ground arith) in
          let same : k ≡ j = omega (arith, q) in ap (get_elem? (places c cat.items 0)) same ∙ g
    ]

    from :
        get_elem? (places c cat.items 0) k ≡ some i → ui_menu_visible_pos_of_index cat c i ≡ some k
    from h =
        let (j, x, q, g, _) = places-match c cat.items 0 k i h in
        let e : leb (length cat.items) i ≡ false =
          ground (arith, q, get_elem?-bound cat.items j x g) in
        let same : 0 + k ≡ k = omega arith in
        rw e (places-visible_pos c i cat.items 0 0 k h ∙ ap some same)

-- What the three loops return is read off one list, the places of the category's dishes: how many
-- are visible, which dish is at a visible place, and at which visible place a dish is; the last two
-- are inverse to each other, and exactly the dishes of the category have a visible place.
pub visible_places :
    (cat : MenuCatalog) (c : ℕ)
    → (ui_menu_visible_count cat c ≡ length (places c cat.items 0))
      × ((k : ℕ) → ui_menu_index_at_visible cat c (pos k) ≡ get_elem? (places c cat.items 0) k)
      × ((i k : ℕ)
          → (ui_menu_visible_pos_of_index cat c i ≡ some k)
            ↔ (ui_menu_index_at_visible cat c (pos k) ≡ some i))
      × ((i : ℕ) (m : MenuItem)
          → get_elem? cat.items i ≡ some m
          → (ui_menu_match_category m c ≡ true)
            ↔ ((k : ℕ) × (ui_menu_visible_pos_of_index cat c i ≡ some k)))
unfolding ui_menu_visible_count ui_menu_index_at_visible ui_menu_visible_pos_of_index
visible_places cat c = (
  omega (arith, count-places c cat.items 0 0),
  at,
  λ i k. (λ h. at k ∙ (at_place cat c i k).0 h, λ h. (at_place cat c i k).1 (sym (at k) ∙ h)),
  λ i m g. (λ t. placed i m g t, λ h. (matched i m g h.0 h.1)),
)
  where
    at : (k : ℕ) → ui_menu_index_at_visible cat c (pos k) ≡ get_elem? (places c cat.items 0) k
    at k =
        let same : k ≡ 0 + k = omega arith in
        ap (λ n. index_at c (pos n) cat.items 0 0) same ∙ index_at-places c k cat.items 0 0

    placed :
        (i : ℕ) (m : MenuItem)
        → get_elem? cat.items i ≡ some m
        → ui_menu_match_category m c ≡ true
        → (k : ℕ) × (ui_menu_visible_pos_of_index cat c i ≡ some k)
    placed i m g t =
        let (k, h) = match-places c cat.items 0 i m g t in
        let same : 0 + i ≡ i = omega arith in (k, (at_place cat c i k).1 (h ∙ ap some same))

    matched :
        (i : ℕ) (m : MenuItem)
        → get_elem? cat.items i ≡ some m
        → (k : ℕ) → ui_menu_visible_pos_of_index cat c i ≡ some k
        → ui_menu_match_category m c ≡ true
    matched i m g k h =
        let (j, x, q, f, t) = places-match c cat.items 0 k i ((at_place cat c i k).0 h) in
        let here : j ≡ i = omega (arith, q) in
        let same : some x ≡ some m = sym f ∙ ap (get_elem? cat.items) here ∙ g in
        ground (arith, same, t)
