-- ===== src/Server/Orders/Machine/History.antt =====
-- What a history may do to one order.
use system_programming_team.Common.{Order, OrderStatus, paid, cancelled}
use system_programming_team.Keyed.{find}
use system_programming_team.Keyed.Laws.{find-append, find-update_first}
use system_programming_team.Order.{order_key}
use system_programming_team.Prelude.{
  ◌≡◌, refl, sym, ap, subst, ◌∙◌, some, arith, ℤ, eqb_ℤ, eqb_ℤ→eq, Bool-cases, inl, inr, ◌⊎◌,
}
use system_programming_team.Server.Orders.Machine.Invariant.{pushed}
use system_programming_team.Server.Orders.Machine.{
  Moves, start, finish, skip, reopen, put_back, cancel, pay, Change, same, created, moved,
  with_status,
}
use system_programming_team.Server.{ServerContext}

-- Any number of moves.
pub data Course (a : OrderStatus) : OrderStatus → Type 0 where
  here : Course a a
  onward : {b c : OrderStatus} → Course a b → Moves b c → Course a c

pub Course-trans : {a b c : OrderStatus} → Course a b → Course b c → Course a c
Course-trans p here = p
Course-trans p (onward q m) = onward (Course-trans p q) m

-- A paid or cancelled order moves no more.
pub Course-closed : {a b : OrderStatus} → Course a b → (a ≡ paid) ⊎ (a ≡ cancelled) → b ≡ a
Course-closed here h = refl
Course-closed {a} (onward {b} p m) h =
    let e = Course-closed p h in
    absurd (stuck m (subst (λ s. (s ≡ paid) ⊎ (s ≡ cancelled)) (sym e) h))
  where
    stuck : {a b : OrderStatus} → Moves a b → (a ≡ paid) ⊎ (a ≡ cancelled) → ⊥
    stuck start h = ground arith
    stuck finish h = ground arith
    stuck skip h = ground arith
    stuck reopen h = ground arith
    stuck put_back h = ground arith
    stuck cancel h = ground arith
    stuck pay h = ground arith

-- The same order, further on its course.
pub record Later (o p : Order) : Type 0 where
  pub identity : p.order_id ≡ o.order_id
  pub table : p.table_id ≡ o.table_id
  pub items : p.items ≡ o.items
  pub total : p.total_price ≡ o.total_price
  pub time : p.created_at ≡ o.created_at
  pub course : Course o.status p.status

pub Later-refl : (o : Order) → Later o o
Later-refl o = record {
  identity = refl;
  table = refl;
  items = refl;
  total = refl;
  time = refl;
  course = here;
}

pub Later-trans : {o p q : Order} → Later o p → Later p q → Later o q
Later-trans a b = record {
  identity = b.identity ∙ a.identity;
  table = b.table ∙ a.table;
  items = b.items ∙ a.items;
  total = b.total ∙ a.total;
  time = b.time ∙ a.time;
  course = Course-trans a.course b.course;
}

-- An order that a change finds is still there behind it, the same but for its state.
pub Change-Later :
    {c d : ServerContext}
    → Change c d
    → (k : ℤ) (o : Order) → find order_key k c.orders ≡ some o
    → (p : Order) × (find order_key k d.orders ≡ some p) × Later o p
Change-Later (same e q) k o f = (o, rw e f, Later-refl o)
Change-Later {c} {d} (created n p w q) k o f =
    let (e, lt) = pushed c.orders d.orders n p in
    (o, rw (e, find-append order_key k c.orders n) (rw f), Later-refl o)
Change-Later {c} {d} (moved id x st g m u q) k o f =
    let e = find-update_first order_key (with_status st) id (λ _ _. refl) k c.orders d.orders u in
    elim (Bool-cases (eqb_ℤ id k)) [
      | inl t ↦
          let s : some x ≡ some o =
            sym g ∙ ap (λ j. find order_key j c.orders) (eqb_ℤ→eq id k t) ∙ f in
          let y : x ≡ o = ground arith in
          (
            with_status st x,
            e ∙ rw t (rw g),
            record {
              identity = ap (λ z. z.order_id) y;
              table = ap (λ z. z.table_id) y;
              items = ap (λ z. z.items) y;
              total = ap (λ z. z.total_price) y;
              time = ap (λ z. z.created_at) y;
              course = subst (λ z. Course z.status st) y (onward here m);
            },
          )
      | inr t ↦ (o, e ∙ rw t f, Later-refl o)
    ]
