-- ===== src/Ui/Pos/Entering.antt =====
-- What the key Enter does on the cashier's tab for the tables.
use system_programming_team.Common.{
  Order, OrderStatus, waiting, cooking, done, paid, cancelled, max_orders,
}
use system_programming_team.Layout.{TablePlacement, layout_find_at}
use system_programming_team.Prelude.{
  not, Bool, true, false, ℕ, suc, ◌+◌, ◌≡◌, refl, sym, ap, ◌∙◌, subst, ◌||◌, List, [], ◌∷◌, Option,
  none, some, arith, if◌then◌else◌, get_elem?, ℤ, pos, leb_ℤ, eqb_ℤ, Bool-cases, inl, inr, ◌⊎◌,
}
use system_programming_team.Server.Orders.{is_done, server_pay_order}
use system_programming_team.Server.{ServerContext}
use system_programming_team.Ui.Pos.Loop.{PosRound, tab_key, home_block, other_blocks, pos_key}
use system_programming_team.Ui.Pos.{
  tab_home, tab_payment, PosUi, grid_key, home_key, order_indices,
  ui_pos_collect_table_order_indices, selected_order, pay_selected, payment_key,
}
use system_programming_team.Ui.Rounds.{Key, char, key_enter}
use system_programming_team.Ui.{is_cancelled}

abbrev pub counts : OrderStatus → Bool
counts cancelled = false
counts _ = true

is_cancelled-counts : (st : OrderStatus) → is_cancelled st ≡ not (counts st)
is_cancelled-counts waiting = refl
is_cancelled-counts cooking = refl
is_cancelled-counts done = refl
is_cancelled-counts paid = refl
is_cancelled-counts cancelled = refl

-- The table's first order that is not cancelled; no table stands for all.
abbrev pub first_order : ℤ → List Order → Option Order
first_order table [] = none
first_order table (o ∷ os) =
    if not (counts o.status)
    then first_order table os
    else if leb_ℤ table (pos 0) || eqb_ℤ o.table_id table
    then some o
    else first_order table os

-- What the first index that is collected has to do with it.
abbrev First : ℤ → List Order → ℕ → Option ℕ → Type 0
First table os i r =
    ((r ≡ none) × (first_order table os ≡ none))
    ⊎ ((j : ℕ) × (o : Order) × (r ≡ some (i + j))
        × (get_elem? os j ≡ some o)
        × (first_order table os ≡ some o))

First-later :
    (table : ℤ) (o : Order) (os : List Order) (i : ℕ) (r : Option ℕ)
    → first_order table (o ∷ os) ≡ first_order table os
    → First table os (suc i) r
    → First table (o ∷ os) i r
First-later table o os i r q (inl (a, b)) = inl (a, q ∙ b)
First-later table o os i r q (inr (j, x, a, g, b)) =
    inr (suc j, x, a ∙ ap some (omega arith), g, q ∙ b)

indices-First :
    (room : ℕ) (table : ℤ) (os : List Order) (i : ℕ)
    → First table os i (get_elem? (order_indices (suc room) table os i) 0)
unfolding order_indices
indices-First room table [] i = inl (refl, refl)
indices-First room table (o ∷ os) i =
    let goal : List ℕ → Type 0 = λ ids. First table (o ∷ os) i (get_elem? ids 0) in
    let later = indices-First room table os (suc i) in
    let all : List ℕ = order_indices (suc room) table (o ∷ os) i in
    let skip : List ℕ = order_indices (suc room) table os (suc i) in
    elim (Bool-cases (is_cancelled o.status)) [
      | inl e ↦
          let q : all ≡ skip = rw (e, order_indices) refl in
          let c = sym (is_cancelled-counts o.status) ∙ e in
          subst goal (sym q) (
            First-later table o os i _ (ap (λ b. if b then first_order table os else rest) c) later)
      | inr e ↦ elim (Bool-cases (leb_ℤ table (pos 0) || eqb_ℤ o.table_id table)) [
        | inl t ↦
            let q : all ≡ i ∷ order_indices room table os (suc i) = rw (e, t, order_indices) refl in
            let c = sym (is_cancelled-counts o.status) ∙ e in
            let found : first_order table (o ∷ os) ≡ some o =
              ap (λ b. if b then first_order table os else rest) c ∙ rw t refl in
            subst goal (sym q) (inr (0, o, ap some (omega arith), refl, found))
        | inr t ↦
            let q : all ≡ skip = rw (e, t, order_indices) refl in
            let c = sym (is_cancelled-counts o.status) ∙ e in
            let passed : first_order table (o ∷ os) ≡ first_order table os =
              ap (λ b. if b then first_order table os else rest) c ∙ rw t refl in
            subst goal (sym q) (First-later table o os i _ passed later)
      ]
    ]
  where
    rest : Option Order
    rest = if leb_ℤ table (pos 0) || eqb_ℤ o.table_id table then some o else first_order table os

abbrev pub can_be_paid : OrderStatus → Bool
can_be_paid done = true
can_be_paid _ = false

is_done-can_be_paid : (st : OrderStatus) → is_done st ≡ can_be_paid st
is_done-can_be_paid waiting = refl
is_done-can_be_paid cooking = refl
is_done-can_be_paid done = refl
is_done-can_be_paid paid = refl
is_done-can_be_paid cancelled = refl

-- Paying what is selected first pays the table's first order, if it is done.
abbrev pub pays : Option Order → ServerContext → ServerContext
pays none ctx = ctx
pays (some o) ctx = if can_be_paid o.status then (server_pay_order ctx o.order_id).1 else ctx

selected_first :
    (ctx : ServerContext) (table : ℤ)
    → selected_order ctx (ui_pos_collect_table_order_indices ctx table max_orders) 0
      ≡ first_order table ctx.orders
unfolding ui_pos_collect_table_order_indices
selected_first ctx table =
    let idxs = order_indices max_orders table ctx.orders 0 in
    let pick : Option ℕ → Option Order =
      λ r. elim r [ none ↦ none | some i ↦ get_elem? ctx.orders i ] in
    elim (indices-First 255 table ctx.orders 0) [
      | inl (a, b) ↦ ap pick a ∙ sym b
      | inr (j, o, a, g, b) ↦
          let here : 0 + j ≡ j = omega arith in
          ap pick a ∙ ap (get_elem? ctx.orders) here ∙ g ∙ sym b
    ]

-- The cashier's screen with the payment of a table open.
abbrev pub opened : TablePlacement → PosUi → PosUi
opened tp ui = record ui { pay_table = tp.table_id; tab = tab_payment; sel_payment = 0 }

-- The two keys that are Enter.
abbrev pub IsEnterKey : Key → Type 0
IsEnterKey key = (key ≡ key_enter) ⊎ (key ≡ char b'\n')

at_home :
    (key : Key) (ui : PosUi) (ctx : ServerContext) (i : ℕ) (tp : TablePlacement)
    → IsEnterKey key
    → layout_find_at ui.layout (pos ui.grid_row) (pos ui.grid_col) ≡ some (i, tp)
    → home_block key (record ui { tab = tab_key key tab_home }) ctx ≡ (opened tp ui, ctx)
unfolding home_block home_key grid_key tab_key
at_home key ui ctx i tp (inl k) e =
    ap (λ c. home_block c (record ui { tab = tab_key c tab_home }) ctx) k ∙ rw (e, home_key) refl
at_home key ui ctx i tp (inr k) e =
    ap (λ c. home_block c (record ui { tab = tab_key c tab_home }) ctx) k ∙ rw (e, home_key) refl

at_payment :
    (r : PosRound) (ui : PosUi) (ctx : ServerContext) (tp : TablePlacement)
    → IsEnterKey r.key
    → other_blocks r (opened tp ui) ctx
      ≡ some (
        opened tp ui,
        pay_selected (ui_pos_collect_table_order_indices ctx tp.table_id max_orders) 0 ctx,
      )
unfolding other_blocks payment_key
at_payment r ui ctx tp (inl k) = ap (λ key. payment_key key r.answers (opened tp ui) ctx) k
at_payment r ui ctx tp (inr k) = ap (λ key. payment_key key r.answers (opened tp ui) ctx) k

pays_first :
    (ctx : ServerContext) (table : ℤ)
    → pay_selected (ui_pos_collect_table_order_indices ctx table max_orders) 0 ctx
      ≡ pays (first_order table ctx.orders) ctx
unfolding pay_selected
pays_first ctx table =
    ap
      (λ x. elim x as (λ _. ServerContext) [
        | none ↦ ctx
        | some o ↦ if is_done o.status then (server_pay_order ctx o.order_id).1 else ctx
      ])
      (selected_first ctx table)
    ∙ same (first_order table ctx.orders)
  where
    same :
        (x : Option Order)
        → (elim x as (λ _. ServerContext) [
          | none ↦ ctx
          | some o ↦ if is_done o.status then (server_pay_order ctx o.order_id).1 else ctx
        ])
          ≡ pays x ctx
    same none = refl
    same (some o) =
        ap (λ b. if b then (server_pay_order ctx o.order_id).1 else ctx)
          (is_done-can_be_paid o.status)

-- Enter, KEY_ENTER or the line feed, at a table on the tab for the tables opens the table's payment
-- and, in the same round, pays the table's first order that is not cancelled if it is done; else the
-- orders stay as they are.
pub pos_key-Enter :
    (r : PosRound) (ui : PosUi) (ctx : ServerContext) (i : ℕ) (tp : TablePlacement)
    → IsEnterKey r.key
    → ui.tab ≡ tab_home
    → layout_find_at ui.layout (pos ui.grid_row) (pos ui.grid_col) ≡ some (i, tp)
    → pos_key r ui ctx ≡ some (opened tp ui, pays (first_order tp.table_id ctx.orders) ctx)
unfolding pos_key
pos_key-Enter r ui ctx i tp k t e =
    let next : PosUi × ServerContext → Option (PosUi × ServerContext) =
      λ x. other_blocks r x.0 x.1 in
    ap (λ tab. next (home_block r.key (record ui { tab = tab_key r.key tab }) ctx)) t
    ∙ ap next (at_home r.key ui ctx i tp k e)
    ∙ at_payment r ui ctx tp k
    ∙ ap (λ c. some (opened tp ui, c)) (pays_first ctx tp.table_id)
