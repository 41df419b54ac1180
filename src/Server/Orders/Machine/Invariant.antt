-- ===== src/Server/Orders/Machine/Invariant.antt =====
-- The invariant of the orders of src/server.c.
use mathlib.Core.List.{map-append}
use system_programming_team.Common.{Order, max_orders}
use system_programming_team.Keyed.{Distinct}
use system_programming_team.Keyed.Laws.{
  map-update_first, All-update_first, update_first-length, Distinct-append,
}
use system_programming_team.Order.{order_key}
use system_programming_team.Prelude.{
  ◌+◌, ◌-◌, ◌^◌, ◌≤◌, ◌<◌, ◌≡◌, ◌≢◌, refl, ◌∙◌, List, [], ◌∷◌, ◌++◌, map, some, arith, leb, length,
  length-append, All, All-append, ℤ, pos, negsuc, pos_part, ◌<ℤ◌, add_int, Bool-cases, inl, inr,
}
use system_programming_team.Server.Orders.Machine.{
  Change, same, created, moved, lines_total, with_status,
}
use system_programming_team.Server.Orders.{push_order_locked}
use system_programming_team.Server.{ServerContext}

-- An order that the server keeps: its id was given out, and its total is that of its lines.
pub record IsKept (next : ℤ) (o : Order) : Type 0 where
  pub given : pos 0 <ℤ o.order_id
  pub below : o.order_id <ℤ next
  pub total : o.total_price ≡ lines_total (pos 0) o.items
  pub has_line : 0 < length o.items

-- `room`: the ids that can still be given out, one for each free place, fit an `int`.
pub record Inv (c : ServerContext) : Type 0 where
  pub bounded : length c.orders ≤ max_orders
  pub positive : pos 0 <ℤ c.cfg.next_order_id
  pub room : pos_part c.cfg.next_order_id + (max_orders - length c.orders) < 2 ^ 31
  pub distinct : Distinct (map order_key c.orders)
  pub kept : All (IsKept c.cfg.next_order_id) c.orders

next_id : (n : ℤ) → pos 0 <ℤ n → pos_part n + 1 < 2 ^ 31 → add_int n (pos 1) ≡ pos (pos_part n + 1)
unfolding add_int
next_id (pos n) h b = ground arith
next_id (negsuc n) h b = absurd (omega arith)

next_lt : (n : ℤ) → pos 0 <ℤ n → n <ℤ pos (pos_part n + 1)
next_lt (pos n) h = omega arith
next_lt (negsuc n) h = absurd (omega arith)

keys_below : (n : ℤ) (os : List Order) → All (IsKept n) os → All (λ j. j ≢ n) (map order_key os)
keys_below n [] a = tt
keys_below n (o ∷ os) a = ((λ e. ground (arith, a.0.below)), keys_below n os a.1)

IsKept-mono : (n : ℤ) (m : ℤ) (os : List Order) → n <ℤ m → All (IsKept n) os → All (IsKept m) os
IsKept-mono n m [] h a = tt
IsKept-mono n m (o ∷ os) h a = (
  record {
    given = a.0.given;
    below = omega (arith, a.0.below);
    total = a.0.total;
    has_line = a.0.has_line;
  },
  IsKept-mono n m os h a.1,
)

pub pushed :
    (os ps : List Order) (o : Order)
    → push_order_locked os o ≡ some ps
    → (ps ≡ os ++ o ∷ []) × (length os < max_orders)
unfolding push_order_locked
pushed os ps o h = elim (Bool-cases (leb max_orders (length os))) [
  | inl e ↦ absurd (ground arith)
  | inr e ↦ (ground arith, ground arith)
]

pub Change-Inv : {c d : ServerContext} → Change c d → Inv c → Inv d
Change-Inv {c} {d} (same p q) v = record {
  bounded = rw p v.bounded;
  positive = rw q v.positive;
  room = rw (p, q) v.room;
  distinct = rw p v.distinct;
  kept = rw (p, q) v.kept;
}
Change-Inv {c} {d} (created o p n q) v =
    let (e, lt) = pushed c.orders d.orders o p in
    let next = c.cfg.next_order_id in
    let q' = q ∙ next_id next v.positive (omega (arith, v.room)) in
    let up : next <ℤ pos (pos_part next + 1) = next_lt next v.positive in
    let keys = keys_below next c.orders v.kept in
    record {
      bounded = rw e (omega (arith, length-append c.orders (o ∷ [])));
      positive = rw q' (omega arith);
      room = rw (q', e, length-append c.orders (o ∷ [])) (omega (arith, v.room));
      distinct =
          rw (e, map-append order_key c.orders (o ∷ []), n.identity)
            (Distinct-append order_key (map order_key c.orders) next v.distinct keys);
      kept =
          rw (q', e)
            (All-append (IsKept (pos (pos_part next + 1))) c.orders (o ∷ [])
              (IsKept-mono next _ c.orders up v.kept)
              (
                record {
                  given = rw n.identity v.positive;
                  below = rw n.identity up;
                  total = n.total;
                  has_line = n.has_line;
                },
                tt,
              ));
    }
Change-Inv {c} {d} (moved id o st f m u q) v = record {
  bounded = omega (
    arith,
    update_first-length order_key (with_status st) id (λ _ _. refl) c.orders d.orders u,
    v.bounded,
  );
  positive = rw q v.positive;
  room =
      rw (q, update_first-length order_key (with_status st) id (λ _ _. refl) c.orders d.orders u)
        v.room;
  distinct =
      rw (map-update_first order_key (with_status st) id (λ _ _. refl) c.orders d.orders u)
        v.distinct;
  kept = rw q (
      All-update_first order_key (with_status st) id (λ _ _. refl) (IsKept c.cfg.next_order_id)
        c.orders d.orders u
        (λ x _ k. record {
          given = k.given;
          below = k.below;
          total = k.total;
          has_line = k.has_line;
        })
        v.kept);
}
