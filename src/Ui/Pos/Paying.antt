-- ===== src/Ui/Pos/Paying.antt =====
-- The key y of the cashier's tab for paying in src/ui.c, and the book of orders.
use system_programming_team.Common.{
  Order, OrderStatus, waiting, cooking, done, paid, cancelled, max_orders,
}
use system_programming_team.Keyed.{find, Distinct}
use system_programming_team.Keyed.Laws.{find-of_absent}
use system_programming_team.Order.{order_key}
use system_programming_team.Prelude.{
  ◌≢◌, subst, ◌⊎◌, Bytes, ◌<ℤ◌, eqb_ℤ_self, false, ℕ, zero, suc, ◌≤◌, ◌≡◌, refl, sym, ap, ◌∙◌, Bool,
  true, false, ◌&&◌, ◌||◌, List, [], ◌∷◌, map, Option, none, some, arith, if◌then◌else◌, length, ℤ,
  pos, leb_ℤ, eqb_ℤ, eqb_ℤ→eq, Bool-cases, inl, inr,
}
use system_programming_team.Server.Orders.Machine.Book.{book, moved_order, server_orders-move}
use system_programming_team.Server.Orders.{is_done, server_pay_order}
use system_programming_team.Server.{ServerContext}
use system_programming_team.Ui.Pos.{PosUi, pay_all, payment_key}
use system_programming_team.Ui.Rounds.{char}
use system_programming_team.Ui.{ui_pos_collect_table_done_ids, done_ids}

abbrev has : ℤ → List ℤ → Bool
has k [] = false
has k (id ∷ ids) = eqb_ℤ id k || has k ids

abbrev done_order : Order → Bool
done_order o = is_done o.status

-- Paying twice is paying once.
paid_once :
    (x : Option Order)
    → moved_order done_order paid (moved_order done_order paid x) ≡ moved_order done_order paid x
paid_once none = refl
paid_once (some o) = elim (Bool-cases (is_done o.status)) [
  | inl e ↦ rw e refl
  | inr e ↦
      let stays : moved_order done_order paid (some o) ≡ some o =
        ap (λ b. some (if b then record o { status = paid } else o)) e in
      ap (moved_order done_order paid) stays
]

pay_all-has :
    (ids : List ℤ) (c : ServerContext) (k : ℤ)
    → book (pay_all ids c) k
      ≡ (if has k ids then moved_order done_order paid (book c k) else book c k)
unfolding pay_all
pay_all-has [] c k = refl
pay_all-has (id ∷ ids) c k =
    pay_all-has ids (server_pay_order c id).1 k
    ∙ ap (λ x. if has k ids then moved_order done_order paid x else x)
        (server_orders-move c id id paid k).0
    ∙ step (eqb_ℤ id k) (has k ids) (λ t. eqb_ℤ→eq id k t)
  where
    step :
        (e h : Bool)
        → (e ≡ true → id ≡ k)
        → (if h
            then moved_order done_order paid
                (if e then moved_order done_order paid (book c id) else book c k)
            else (if e then moved_order done_order paid (book c id) else book c k))
          ≡ (if e || h then moved_order done_order paid (book c k) else book c k)
    step true true same =
        paid_once (book c id) ∙ ap (λ j. moved_order done_order paid (book c j)) (same refl)
    step true false same = ap (λ j. moved_order done_order paid (book c j)) (same refl)
    step false true same = refl
    step false false same = refl

abbrev pub is_due : ℤ → Order → Bool
is_due table o = is_done o.status && (leb_ℤ table (pos 0) || eqb_ℤ o.table_id table)

abbrev due : ℤ → Option Order → Bool
due table none = false
due table (some o) = is_due table o

-- The ids that are collected are those of the done orders of the table, if there is room for all.
has-done_ids :
    (room : ℕ) (table : ℤ) (os : List Order) (k : ℤ)
    → Distinct (map order_key os)
    → length os ≤ room
    → has k (done_ids room table os) ≡ due table (find order_key k os)
unfolding done_ids find
has-done_ids room table [] k d l = refl
has-done_ids zero table (o ∷ os) k d l = absurd (omega arith)
has-done_ids (suc room) table (o ∷ os) k d l =
    let here = has-done_ids room table os k d.1 (omega arith) in
    let more = has-done_ids (suc room) table os k d.1 (omega arith) in
    elim (Bool-cases (eqb_ℤ o.order_id k)) [
      | inr e ↦ elim (Bool-cases (is_due table o)) [
        | inl t ↦ rw (e, t) (rw e here)
        | inr t ↦ rw (e, t) more
      ]
      | inl e ↦
          let absent : find order_key k os ≡ none =
            ap (λ j. find order_key j os) (sym (eqb_ℤ→eq o.order_id k e))
            ∙ find-of_absent order_key o.order_id os d.0 in
          elim (Bool-cases (is_due table o)) [
            | inl t ↦ rw (e, t) (rw e refl)
            | inr t ↦ rw (e, t) (more ∙ ap (due table) absent)
          ]
    ]

settled :
    (table : ℤ) (x : Option Order)
    → (if due table x then moved_order done_order paid x else x) ≡ moved_order (is_due table) paid x
settled table none = refl
settled table (some o) = elim (Bool-cases (is_done o.status)) [
  | inl e ↦ elim (Bool-cases (leb_ℤ table (pos 0) || eqb_ℤ o.table_id table)) [
    | inl t ↦ rw (e, t) refl
    | inr t ↦ rw (e, t) refl
  ]
  | inr e ↦ rw e refl
]

-- The book after paying what was collected.
pay_all-book :
    (c : ServerContext) (table k : ℤ)
    → Distinct (map order_key c.orders)
    → length c.orders ≤ max_orders
    → book (pay_all (ui_pos_collect_table_done_ids c table max_orders) c) k
      ≡ moved_order (is_due table) paid (book c k)
unfolding ui_pos_collect_table_done_ids
pay_all-book c table k d l =
    pay_all-has (done_ids max_orders table c.orders) c k
    ∙ ap (λ b. if b then moved_order done_order paid (book c k) else book c k)
        (has-done_ids max_orders table c.orders k d l)
    ∙ settled table (book c k)

-- What stands under an id before and after a table is settled: a done order of the table is paid,
-- with all else as it was, and every other order is the same.
abbrev pub Settles : ℤ → Option Order → Option Order → Type 0
Settles table none after = after ≡ none
Settles table (some o) after =
    ((o.status ≡ done) × (o.table_id ≡ table) × (after ≡ some (record o { status = paid })))
    ⊎ ((¬ ((o.status ≡ done) × (o.table_id ≡ table))) × (after ≡ some o))

done_lem :
    (st : OrderStatus) → (is_done st ≡ true) × (st ≡ done) ⊎ (is_done st ≡ false) × (st ≢ done)
done_lem waiting = inr (refl, λ e. cc)
done_lem cooking = inr (refl, λ e. cc)
done_lem done = inl (refl, refl)
done_lem paid = inr (refl, λ e. cc)
done_lem cancelled = inr (refl, λ e. cc)

moved-Settles :
    (table : ℤ) (x : Option Order)
    → pos 0 <ℤ table
    → Settles table x (moved_order (is_due table) paid x)
moved-Settles table none p = refl
moved-Settles table (some o) p =
    let put : Bool → Option Order = λ b. some (if b then record o { status = paid } else o) in
    let positive : leb_ℤ table (pos 0) ≡ false = ground (arith, p) in
    elim (done_lem o.status) [
      | inr (e, n) ↦
          let no_due : is_due table o ≡ false = rw e refl in inr ((λ (h, _). n h), ap put no_due)
      | inl (e, d) ↦ elim (Bool-cases (eqb_ℤ o.table_id table)) [
        | inl t ↦
            let is_one : is_due table o ≡ true = rw (e, positive, t) refl in
            inl (d, eqb_ℤ→eq o.table_id table t, ap put is_one)
        | inr t ↦
            let no_due : is_due table o ≡ false = rw (e, positive, t) refl in
            inr (
              (λ (_, h).
                  let same : eqb_ℤ o.table_id table ≡ true =
                    subst (λ j. eqb_ℤ o.table_id j ≡ true) h (eqb_ℤ_self o.table_id) in
                  ground (arith, t, same)),
              ap put no_due,
            )
      ]
    ]

-- While no two orders have one id and there are at most MAX_ORDERS of them, the key y on the tab for
-- paying settles the table that is shown there, if its number is positive: every done order of the
-- table is paid, whatever is under any other id stays as it is, and so does the screen.
pub payment_key-Settles :
    (answers : List Bytes) (ui : PosUi) (ctx : ServerContext)
    → pos 0 <ℤ ui.pay_table
    → Distinct (map order_key ctx.orders)
    → length ctx.orders ≤ max_orders
    → (c : ServerContext) × (payment_key (char b'y') answers ui ctx ≡ some (ui, c))
      × ((k : ℤ) → Settles ui.pay_table (book ctx k) (book c k))
unfolding payment_key
payment_key-Settles answers ui ctx p d l =
    let table = ui.pay_table in
    let positive : leb_ℤ table (pos 0) ≡ false = ground (arith, p) in
    (
      pay_all (ui_pos_collect_table_done_ids ctx table max_orders) ctx,
      rw (positive, payment_key) refl,
      λ k.
          subst (Settles table (book ctx k)) (sym (pay_all-book ctx table k d l))
            (moved-Settles table (book ctx k) p),
    )
