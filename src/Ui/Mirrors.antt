-- ===== src/Ui/Mirrors.antt =====
-- What a screen makes of the server's events, and what the cashier's screen collects.
use system_programming_team.Common.{Order, OrderStatus, done, max_orders}
use system_programming_team.Keyed.{find, find_index, Distinct}
use system_programming_team.Keyed.Laws.{
  find_index-find, find_index-some, find-append, find-update_first, find-of_absent,
  update_first-set, update_first-length,
}
use system_programming_team.Order.{order_key, orders_find_index}
use system_programming_team.Prelude.{
  ℕ, zero, suc, ◌≤◌, ◌≡◌, ◌≢◌, refl, sym, ap, ◌∙◌, true, ◌&&◌, ◌||◌, List, [], ◌∷◌, map, Option,
  none, some, arith, if◌then◌else◌, ltb, length, length-append, All, ℤ, pos, ◌≤ℤ◌, leb_ℤ, eqb_ℤ,
  eqb_ℤ→eq, Bool-cases, Option-cases, inl, inr, ◌⊎◌,
}
use system_programming_team.Server.Orders.{is_done}
use system_programming_team.Server.{ServerContext}
use system_programming_team.Ui.{ui_merge_order_mirror, ui_pos_collect_table_done_ids, done_ids}

-- What the mirror has under the id of the order that came in.
abbrev pub merged : List Order → Order → Option Order
merged orders incoming = elim (find order_key incoming.order_id orders) [
  | some _ ↦ some incoming
  | none ↦ if ltb (length orders) max_orders then some incoming else none
]

-- The order that comes in replaces the one with its id, or is added while there is room; all other
-- orders stay, and the mirror stays within its array.
pub ui_merge_order_mirror_lem :
    (orders : List Order) (incoming : Order)
    → length orders ≤ max_orders
    → (length (ui_merge_order_mirror orders incoming) ≤ max_orders)
      × ((k : ℤ)
          → find order_key k (ui_merge_order_mirror orders incoming) ≡ (
              if eqb_ℤ incoming.order_id k
              then merged orders incoming
              else find order_key k orders))
unfolding ui_merge_order_mirror orders_find_index
ui_merge_order_mirror_lem orders incoming h =
    let id = incoming.order_id in
    elim (Option-cases (find_index order_key id orders)) [
      | inl e ↦
          let absent = find_index-find order_key id orders e in
          elim (Bool-cases (ltb (length orders) max_orders)) [
            | inl r ↦
                let m : merged orders incoming ≡ some incoming = rw (absent, r, merged) refl in
                rw (e, r, ui_merge_order_mirror)
                  (
                    ground (arith, length-append orders (incoming ∷ [])),
                    λ k. find-append order_key k orders incoming ∙ added k absent ∙ back k (sym m),
                  )
            | inr r ↦
                let m : merged orders incoming ≡ none = rw (absent, r, merged) refl in
                rw (e, r, ui_merge_order_mirror) (h, λ k. kept k absent ∙ back k (sym m))
          ]
      | inr (i, e) ↦
          let (x, g, _, f) = find_index-some order_key id orders i e in
          let put : Order → Order = λ _. incoming in
          let u = update_first-set order_key put id orders i x e g in
          let keeps : (y : Order) → order_key y ≡ id → order_key (put y) ≡ order_key y =
            λ y q. sym q in
          let m : merged orders incoming ≡ some incoming = rw (f, merged) refl in
          rw (e, ui_merge_order_mirror)
            (
              omega (arith, update_first-length order_key put id keeps orders _ u, h),
              λ k.
                  find-update_first order_key put id keeps k orders _ u
                  ∙ ap
                      (λ z.
                        if eqb_ℤ id k
                        then elim z [ none ↦ none | some y ↦ some incoming ]
                        else find order_key k orders)
                      f
                  ∙ back k (sym m),
            )
    ]
  where
    back :
        (k : ℤ) {a b : Option Order}
        → a ≡ b
        → (if eqb_ℤ incoming.order_id k then a else find order_key k orders)
          ≡ (if eqb_ℤ incoming.order_id k then b else find order_key k orders)
    back k = ap (λ z. if eqb_ℤ incoming.order_id k then z else find order_key k orders)

    same :
        (k : ℤ)
        → eqb_ℤ incoming.order_id k ≡ true
        → find order_key k orders ≡ find order_key incoming.order_id orders
    same k t = ap (λ j. find order_key j orders) (sym (eqb_ℤ→eq incoming.order_id k t))

    added :
        (k : ℤ)
        → find order_key incoming.order_id orders ≡ none
        → (elim (find order_key k orders) [
          | some x ↦ some x
          | none ↦ if eqb_ℤ incoming.order_id k then some incoming else none
        ])
          ≡ (if eqb_ℤ incoming.order_id k then some incoming else find order_key k orders)
    added k a = ground (arith, same k, a)

    kept :
        (k : ℤ)
        → find order_key incoming.order_id orders ≡ none
        → find order_key k orders
          ≡ (if eqb_ℤ incoming.order_id k then none else find order_key k orders)
    kept k a = ground (arith, same k, a)

-- An id under which the server has a done order of the table; no table stands for all.
abbrev pub IsDue : List Order → ℤ → ℤ → Type 0
IsDue os table id =
    (o : Order) × (find order_key id os ≡ some o)
    × (o.status ≡ done)
    × ((table ≤ℤ pos 0) ⊎ (o.table_id ≡ table))

done_lem : (a : OrderStatus) → is_done a ≡ true → a ≡ done
done_lem a h = ground arith

due :
    (o : Order) (os : List Order) (table : ℤ)
    → (is_done o.status && (leb_ℤ table (pos 0) || eqb_ℤ o.table_id table)) ≡ true
    → IsDue (o ∷ os) table o.order_id
unfolding find
due o os table h = elim (Bool-cases (is_done o.status)) [
  | inr d ↦ absurd (ground arith)
  | inl d ↦ elim (Bool-cases (leb_ℤ table (pos 0))) [
    | inl l ↦ (o, ground arith, done_lem o.status d, inl (ground arith))
    | inr l ↦ (o, ground arith, done_lem o.status d, inr (eqb_ℤ→eq o.table_id table (ground arith)))
  ]
]

IsDue-later :
    (o : Order) (os : List Order) (table id : ℤ)
    → All (λ j. j ≢ o.order_id) (map order_key os)
    → IsDue os table id
    → IsDue (o ∷ os) table id
unfolding find
IsDue-later o os table id d (x, f, s, t) = elim (Bool-cases (eqb_ℤ o.order_id id)) [
  | inl e ↦
      let q : find order_key id os ≡ none =
        ap (λ j. find order_key j os) (sym (eqb_ℤ→eq o.order_id id e))
        ∙ find-of_absent order_key o.order_id os d in
      absurd (ground arith)
  | inr e ↦ (x, ground arith, s, t)
]

All-later :
    (o : Order) (os : List Order) (table : ℤ) (ids : List ℤ)
    → All (λ j. j ≢ o.order_id) (map order_key os)
    → All (IsDue os table) ids
    → All (IsDue (o ∷ os) table) ids
All-later o os table [] d a = tt
All-later o os table (id ∷ ids) d a =
    (IsDue-later o os table id d a.0, All-later o os table ids d a.1)

done_ids-IsDue :
    (room : ℕ) (table : ℤ) (os : List Order)
    → Distinct (map order_key os)
    → All (IsDue os table) (done_ids room table os) × (length (done_ids room table os) ≤ room)
unfolding done_ids
done_ids-IsDue room table [] d = (tt, omega arith)
done_ids-IsDue zero table (o ∷ os) d = (tt, omega arith)
done_ids-IsDue (suc room) table (o ∷ os) d =
    elim (Bool-cases (is_done o.status && (leb_ℤ table (pos 0) || eqb_ℤ o.table_id table))) [
      | inl e ↦
          let (a, n) = done_ids-IsDue room table os d.1 in
          rw e ((due o os table e, All-later o os table _ d.0 a), omega (arith, n))
      | inr e ↦
          let (a, n) = done_ids-IsDue (suc room) table os d.1 in
          rw e (All-later o os table _ d.0 a, n)
    ]

-- While no two orders have one id, each id that the cashier's screen collects for a table is that
-- of a done order of the table, and no more are collected than there is room for.
pub ui_pos_collect_table_done_ids-IsDue :
    (ctx : ServerContext) (table : ℤ) (max_ids : ℕ)
    → Distinct (map order_key ctx.orders)
    → All (IsDue ctx.orders table) (ui_pos_collect_table_done_ids ctx table max_ids)
      × (length (ui_pos_collect_table_done_ids ctx table max_ids) ≤ max_ids)
unfolding ui_pos_collect_table_done_ids
ui_pos_collect_table_done_ids-IsDue ctx table max_ids d = done_ids-IsDue max_ids table ctx.orders d
