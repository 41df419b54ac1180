-- ===== src/Order/Lines.antt =====
-- The lines of a cart under the operations of src/order.c.
use mathlib.Core.List.{map-append}
use system_programming_team.Common.{CartItem, max_order_items}
use system_programming_team.Keyed.{find, find_index, update_first, remove_at, Distinct}
use system_programming_team.Keyed.Laws.{
  find-of_absent, find_index-none, find_index-some, find-remove_at, length-remove_at, get_elem?-lt,
  map-remove_at, Distinct-remove_at, All-remove_at, update_first-some, update_first-none,
  find-append, find-update_first, map-update_first, All-update_first, update_first-length,
  Distinct-append, find-none,
}
use system_programming_team.Order.{Cart, cart_id, cart_add, cart_remove_line, cart_set_qty}
use system_programming_team.Prelude.{
  ℕ, ◌≤◌, ◌≡◌, refl, sym, subst, ◌∙◌, leb→le, eqb_ℤ→eq, ap, List, [], ◌∷◌, ◌++◌, map, Option, none,
  some, Result, ok, err, true, false, arith, leb, if◌then◌else◌, length, length-append, All,
  All-append, ℤ, pos, leb_ℤ, eqb_ℤ, ◌<ℤ◌, add_int, Bool-cases, Option-cases, inl, inr, ◌⊎◌,
}
use system_programming_team.Text.{codes}

-- A cart that the operations can make: within the array, one line for each dish, and nothing is
-- ordered zero times.
pub record IsValid (c : Cart) : Type 0 where
  pub bounded : length c.items ≤ max_order_items
  pub distinct : Distinct (map cart_id c.items)
  pub ordered : All (λ l. pos 0 <ℤ l.qty) c.items

abbrev pub line_of : ℤ → Cart → Option CartItem
line_of k c = find cart_id k c.items

-- What `cart_add` makes of the cart's line for the same dish.
abbrev pub joined : CartItem → Option CartItem → CartItem
joined line none = line
joined line (some l) = record l { qty = add_int l.qty line.qty }

-- The line's quantity does not overflow an `int`.
abbrev pub Fits : CartItem → Option CartItem → Type 0
Fits line none = Unit
Fits line (some l) = pos 0 <ℤ add_int l.qty line.qty

-- How `cart_add` ends.
abbrev pub Added : Cart → CartItem → Result Cart → Type 0
Added c line (err e) =
    (leb_ℤ line.qty (pos 0) ≡ true)
    ⊎ ((max_order_items ≤ length c.items) × (line_of line.menu_id c ≡ none))
Added c line (ok d) =
    (k : ℤ)
    → line_of k d
      ≡ (if eqb_ℤ line.menu_id k then some (joined line (line_of line.menu_id c)) else line_of k c)

-- What the loop of `cart_add` does to the line that it finds.
abbrev more : CartItem → CartItem → CartItem
more line l = record l { qty = add_int l.qty line.qty }

same :
    (k : ℤ) (line : CartItem) (ls : List CartItem)
    → eqb_ℤ line.menu_id k ≡ true
    → find cart_id k ls ≡ find cart_id line.menu_id ls
same k line ls e = ap (λ j. find cart_id j ls) (sym (eqb_ℤ→eq line.menu_id k e))

-- Adding fails only for a quantity that is not positive, or for a new dish when the cart is full;
-- otherwise the dish's line has the sum of the quantities and keeps its name and price, or is the
-- new line, and the lines of all other dishes are as before.
pub cart_add-Added : (c : Cart) (line : CartItem) → Added c line (cart_add c line)
unfolding cart_add
cart_add-Added c line = elim (Bool-cases (leb_ℤ line.qty (pos 0))) [
  | inl e ↦ rw (e, cart_add) (inl e)
  | inr e ↦ elim (Option-cases (update_first cart_id (more line) line.menu_id c.items)) [
    | inl n ↦
        let absent = update_first-none cart_id (more line) line.menu_id (λ l _. refl) c.items n in
        elim (Bool-cases (leb max_order_items (length c.items))) [
          | inl full ↦ rw (e, n, full, cart_add) (inr (leb→le _ _ full, absent))
          | inr room ↦
              rw (e, n, room, cart_add)
                (λ k. rw absent (
                  find-append cart_id k c.items line ∙ ground (arith, absent, same k line c.items)))
        ]
    | inr (items, p) ↦
        let (l, q) =
          update_first-some cart_id (more line) line.menu_id (λ l _. refl) c.items items p in
        rw (e, p, cart_add)
          (λ k. rw q (
            ground (
              arith,
              q,
              find-update_first cart_id (more line) line.menu_id (λ l _. refl) k c.items items p,
            )))
  ]
]

-- A well-formed cart, with a positive quantity on every line and one line for each dish, stays well
-- formed under an addition that succeeds, if the sum of the quantities does not overflow an int.
pub cart_add-IsValid :
    (c d : Cart) (line : CartItem)
    → IsValid c
    → Fits line (line_of line.menu_id c)
    → cart_add c line ≡ ok d
    → IsValid d
unfolding cart_add
cart_add-IsValid c d line v fits h =
    elim (Option-cases (update_first cart_id (more line) line.menu_id c.items)) [
      | inl n ↦
          let e : record { items = c.items ++ line ∷ [] } ≡ d = ground arith in
          let absent = update_first-none cart_id (more line) line.menu_id (λ l _. refl) c.items n in
          subst IsValid e (record {
            bounded = ground (arith, length-append c.items (line ∷ []));
            distinct =
                subst Distinct (sym (map-append cart_id c.items (line ∷ [])))
                  (Distinct-append cart_id _ _ v.distinct (find-none cart_id _ c.items absent));
            ordered = All-append _ c.items (line ∷ []) v.ordered (ground arith, tt);
          })
      | inr (items, p) ↦
          let e : record { items = items } ≡ d = ground arith in
          subst IsValid e (record {
            bounded = omega (
              arith,
              update_first-length cart_id (more line) line.menu_id (λ l _. refl) c.items items p,
              v.bounded,
            );
            distinct =
                subst Distinct
                  (sym (
                    map-update_first cart_id (more line) line.menu_id (λ l _. refl) c.items items
                      p))
                  v.distinct;
            ordered =
                All-update_first cart_id (more line) line.menu_id (λ l _. refl)
                  (λ l. pos 0 <ℤ l.qty) c.items items p (λ x q z. ground arith) v.ordered;
          })
    ]

-- The line with the id is gone or has the quantity, and the lines of all other dishes are as before.
abbrev pub Replaced : Cart → ℤ → Option CartItem → Cart → Type 0
Replaced c k l d = (j : ℤ) → line_of j d ≡ (if eqb_ℤ k j then l else line_of j c)

-- In a well-formed cart, a removal fails exactly if no line has the dish; otherwise that line is
-- gone, the lines of all other dishes are as before, and the cart is well formed.
pub cart_remove_line-Replaced :
    (c : Cart) (k : ℤ)
    → IsValid c
    → ((cart_remove_line c k ≡ none) × (line_of k c ≡ none))
      ⊎ ((d : Cart) × (cart_remove_line c k ≡ some d) × Replaced c k none d × IsValid d)
unfolding cart_remove_line
cart_remove_line-Replaced c k v = elim (Option-cases (find_index cart_id k c.items)) [
  | inl n ↦
      inl (ground arith, find-of_absent cart_id k c.items (find_index-none cart_id k c.items n))
  | inr (i, p) ↦
      let (x, at, _, _) = find_index-some cart_id k c.items i p in
      inr (
        record { items = remove_at c.items i },
        ground arith,
        λ j. find-remove_at cart_id j k c.items i v.distinct p,
        record {
          bounded =
              omega (arith, length-remove_at c.items i (get_elem?-lt c.items i x at), v.bounded);
          distinct =
              subst Distinct (sym (map-remove_at cart_id c.items i))
                (Distinct-remove_at (map cart_id c.items) i v.distinct);
          ordered = All-remove_at _ c.items i v.ordered;
        },
      )
]

-- What `cart_set_qty` makes of the dish's line.
abbrev pub with_qty : ℤ → Option CartItem → Option CartItem
with_qty q none = none
with_qty q (some l) = if leb_ℤ q (pos 0) then none else some (record l { qty = q })

with_qty_gone : (q : ℤ) (l : Option CartItem) → leb_ℤ q (pos 0) ≡ true → with_qty q l ≡ none
with_qty_gone q none e = refl
with_qty_gone q (some l) e = rw e

qty_set :
    (c : Cart) (k q : ℤ) (items : List CartItem)
    → IsValid c
    → leb_ℤ q (pos 0) ≡ false
    → update_first cart_id (λ l. record l { qty = q }) k c.items ≡ some items
    → Replaced c k (with_qty q (line_of k c)) (record { items = items })
      × IsValid (record { items = items })
qty_set c k q items v e p =
    let f : CartItem → CartItem = λ l. record l { qty = q } in
    let keeps : (l : CartItem) → cart_id l ≡ k → cart_id (f l) ≡ cart_id l = λ l _. refl in
    let (l, found) = update_first-some cart_id f k keeps c.items items p in
    (
      λ j. rw (find-update_first cart_id f k keeps j c.items items p, found) (rw e),
      record {
        bounded = omega (arith, update_first-length cart_id f k keeps c.items items p, v.bounded);
        distinct =
            subst Distinct (sym (map-update_first cart_id f k keeps c.items items p)) v.distinct;
        ordered =
            All-update_first cart_id f k keeps (λ l. pos 0 <ℤ l.qty) c.items items p
              (λ x _ _. ground arith) v.ordered;
      },
    )

-- `cart_set_qty` fails exactly if the cart has no line of the dish; otherwise the line gets the
-- quantity, or is removed if the quantity is not positive, the other lines stay, and the cart
-- stays well formed.
pub cart_set_qty-Replaced :
    (c : Cart) (k q : ℤ)
    → IsValid c
    → ((e : List ℕ) × (cart_set_qty c k q ≡ err e) × (line_of k c ≡ none))
      ⊎ ((d : Cart) × (cart_set_qty c k q ≡ ok d)
          × (Replaced c k (with_qty q (line_of k c)) d × IsValid d))
unfolding cart_set_qty
cart_set_qty-Replaced c k q v = elim (Bool-cases (leb_ℤ q (pos 0))) [
  | inl e ↦ elim (cart_remove_line-Replaced c k v) [
    | inl (n, a) ↦ inl ([], rw (e, n, cart_set_qty), a)
    | inr (d, p, r, w) ↦
        inr (d, rw (e, p, cart_set_qty), (λ j. rw (with_qty_gone q (line_of k c) e) (r j), w))
  ]
  | inr e ↦ elim (Option-cases (update_first cart_id (λ l. record l { qty = q }) k c.items)) [
    | inl n ↦ inl (
      codes "line not in cart",
      rw (e, n, cart_set_qty),
      update_first-none cart_id (λ l. record l { qty = q }) k (λ l _. refl) c.items n,
    )
    | inr (items, p) ↦
        inr (record { items = items }, rw (e, p, cart_set_qty), qty_set c k q items v e p)
  ]
]
