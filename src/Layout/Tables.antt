-- ===== src/Layout/Tables.antt =====
-- What the searches of a layout return.
use system_programming_team.Layout.{
  StoreLayout, TablePlacement, has_id, stands_at, first_table, layout_find_by_id, layout_find_at,
  max_active_id, layout_max_table_id,
}
use system_programming_team.Prelude.{
  ℕ, suc, ◌≡◌, refl, sym, subst, Bool, true, false, ◌&&◌, List, [], ◌∷◌, Option, none, some, arith,
  get_elem?, All, ℤ, pos, ◌≤ℤ◌, ltb_ℤ, Bool-cases, inl, inr, ◌⊎◌,
}
use system_programming_team.Text.{is_true}

-- What a search for a placement returns.
abbrev pub FirstTable :
    (TablePlacement → Bool) → List TablePlacement → Option (ℕ × TablePlacement) → Type 0
FirstTable test tps r =
    ((r ≡ none) × All (λ tp. test tp ≡ false) tps)
    ⊎ ((i : ℕ) × (tp : TablePlacement) × (r ≡ some (i, tp))
        × (get_elem? tps i ≡ some tp)
        × (test tp ≡ true))

first_table-FirstTable :
    (test : TablePlacement → Bool) (tps : List TablePlacement)
    → FirstTable test tps (first_table test tps)
unfolding first_table
first_table-FirstTable test [] = inl (refl, tt)
first_table-FirstTable test (tp ∷ tps) = elim (Bool-cases (test tp)) [
  | inl e ↦ inr (0, tp, ground arith, refl, e)
  | inr e ↦ elim (first_table-FirstTable test tps) [
    | inl (n, a) ↦ inl (ground arith, (e, a))
    | inr (i, x, f, g, t) ↦ inr (suc i, x, ground arith, g, t)
  ]
]

-- Each of the two searches fails exactly if no active table has the id, or stands at the place, and
-- otherwise returns a table of the layout that does.
pub layout_find-FirstTable :
    (layout : StoreLayout) (table_id row col : ℤ)
    → FirstTable (has_id table_id) layout.tables (layout_find_by_id layout table_id)
      × FirstTable (stands_at row col) layout.tables (layout_find_at layout row col)
unfolding layout_find_by_id layout_find_at
layout_find-FirstTable layout table_id row col = (
  first_table-FirstTable (has_id table_id) layout.tables,
  first_table-FirstTable (stands_at row col) layout.tables,
)

max_active_id-le : (m : ℤ) (tps : List TablePlacement) → m ≤ℤ max_active_id m tps
unfolding max_active_id
max_active_id-le m [] = omega arith
max_active_id-le m (tp ∷ tps) = elim (Bool-cases (is_true tp.active && ltb_ℤ m tp.table_id)) [
  | inl e ↦ rw e (ground (arith, max_active_id-le tp.table_id tps))
  | inr e ↦ rw e (max_active_id-le m tps)
]

-- No active table has an id above `k`.
abbrev pub Above : List TablePlacement → ℤ → Type 0
Above tps k = All (λ tp. is_true tp.active ≡ true → tp.table_id ≤ℤ k) tps

max_active_id-Above : (m : ℤ) (tps : List TablePlacement) → Above tps (max_active_id m tps)
unfolding max_active_id
max_active_id-Above m [] = tt
max_active_id-Above m (tp ∷ tps) = elim (Bool-cases (is_true tp.active && ltb_ℤ m tp.table_id)) [
  | inl e ↦
      let q : max_active_id m (tp ∷ tps) ≡ max_active_id tp.table_id tps =
        rw (e, max_active_id) refl in
      subst (Above (tp ∷ tps)) (sym q)
        (λ h. max_active_id-le tp.table_id tps, max_active_id-Above tp.table_id tps)
  | inr e ↦
      let q : max_active_id m (tp ∷ tps) ≡ max_active_id m tps = rw (e, max_active_id) refl in
      subst (Above (tp ∷ tps)) (sym q)
        (λ h. below (max_active_id m tps) h e (max_active_id-le m tps), max_active_id-Above m tps)
]
  where
    below :
        (k : ℤ)
        → is_true tp.active ≡ true
        → (is_true tp.active && ltb_ℤ m tp.table_id) ≡ false
        → m ≤ℤ k
        → tp.table_id ≤ℤ k
    below k h e b = ground arith

-- Where a maximum comes from.
abbrev pub Comes : ℤ → ℤ → List TablePlacement → Type 0
Comes m k [] = k ≡ m
Comes m k (tp ∷ tps) = ((is_true tp.active ≡ true) × (k ≡ tp.table_id)) ⊎ Comes m k tps

max_active_id-Comes : (m : ℤ) (tps : List TablePlacement) → Comes m (max_active_id m tps) tps
unfolding max_active_id
max_active_id-Comes m [] = refl
max_active_id-Comes m (tp ∷ tps) = elim (Bool-cases (is_true tp.active && ltb_ℤ m tp.table_id)) [
  | inr e ↦
      let q : max_active_id m (tp ∷ tps) ≡ max_active_id m tps = rw (e, max_active_id) refl in
      subst (λ k. Comes m k (tp ∷ tps)) (sym q) (inr (max_active_id-Comes m tps))
  | inl e ↦
      let q : max_active_id m (tp ∷ tps) ≡ max_active_id tp.table_id tps =
        rw (e, max_active_id) refl in
      subst (λ k. Comes m k (tp ∷ tps)) (sym q)
        (from tp m e (max_active_id tp.table_id tps) tps (max_active_id-Comes tp.table_id tps))
]
  where
    from :
        (tp : TablePlacement) (m : ℤ)
        → (is_true tp.active && ltb_ℤ m tp.table_id) ≡ true
        → (k : ℤ) (tps : List TablePlacement) → Comes tp.table_id k tps
        → ((is_true tp.active ≡ true) × (k ≡ tp.table_id)) ⊎ Comes m k tps
    from tp m e k [] c = inl (ground arith, c)
    from tp m e k (x ∷ tps) (inl c) = inr (inl c)
    from tp m e k (x ∷ tps) (inr c) = elim (from tp m e k tps c) [
      | inl h ↦ inl h
      | inr h ↦ inr (inr h)
    ]

-- The largest id is not below any active table's, is not negative, and is 0 or an active table's.
pub layout_max_table_id_lem :
    (layout : StoreLayout)
    → (pos 0 ≤ℤ layout_max_table_id layout)
      × Above layout.tables (layout_max_table_id layout)
      × Comes (pos 0) (layout_max_table_id layout) layout.tables
unfolding layout_max_table_id
layout_max_table_id_lem layout = (
  max_active_id-le (pos 0) layout.tables,
  max_active_id-Above (pos 0) layout.tables,
  max_active_id-Comes (pos 0) layout.tables,
)
