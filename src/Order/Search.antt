-- ===== src/Order/Search.antt =====
-- The search in the array of orders.
use system_programming_team.Common.{Order}
use system_programming_team.Keyed.{find_index}
use system_programming_team.Keyed.Laws.{find_index-some, find_index-none}
use system_programming_team.Order.{order_key, orders_find, orders_find_index}
use system_programming_team.Prelude.{
  ℕ, ◌≡◌, ◌≢◌, List, map, Option, none, some, arith, ℤ, get_elem?, All, ◌⊎◌, inl, inr, Option-cases,
}

-- What a search of the orders returns.
abbrev pub Found : List Order → ℤ → Option (ℕ × Order) → Type 0
Found orders id r =
    ((r ≡ none) × All (λ j. j ≢ id) (map order_key orders))
    ⊎ ((i : ℕ) × (o : Order) × (r ≡ some (i, o))
        × (get_elem? orders i ≡ some o)
        × (o.order_id ≡ id))

-- `orders_find` fails exactly on an id that no order has, and otherwise points at an order of the
-- array that has it.
pub orders_find-Found : (orders : List Order) (id : ℤ) → Found orders id (orders_find orders id)
unfolding orders_find orders_find_index
orders_find-Found orders id = elim (Option-cases (find_index order_key id orders)) [
  | inl e ↦ inl (ground arith, find_index-none order_key id orders e)
  | inr (i, e) ↦
      let (o, g, k, f) = find_index-some order_key id orders i e in inr (i, o, ground arith, g, k)
]
