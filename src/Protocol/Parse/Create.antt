-- ===== src/Protocol/Parse/Create.antt =====
-- The messages that `proto_parse_order_create` of src/protocol.c accepts.
use system_programming_team.Common.{CartItem, max_proto_line}
use system_programming_team.Prelude.{
  ℕ, zero, suc, ◌+◌, ◌≤◌, ◌≡◌, refl, sym, ◌∙◌, subst, if◌then◌else◌, List, [], ◌∷◌, ◌++◌, some, ok,
  err, ◌||◌, arith, length, length-append, All, All-append, Bytes, ℤ, pos, negsuc, ◌<ℤ◌, leb_ℤ,
  Bool-cases, Option-cases, Result-cases, inl, inr,
}
use system_programming_team.Protocol.Parse.{
  item_pairs, create_fields, create_items, read_items, proto_parse_order_create,
}
use system_programming_team.Text.{codes, fit, cut_at, atoi, after_find, tokens}

-- A line as it is ordered: positive numbers, and no name or price of the client's.
pub record IsOrdered (l : CartItem) : Type 0 where
  pub menu_id : pos 0 <ℤ l.menu_id
  pub qty : pos 0 <ℤ l.qty
  pub name : l.name ≡ []
  pub price : l.price ≡ pos 0

item_pairs-IsOrdered :
    (room : ℕ) (pairs : List Bytes) (cart out : List CartItem)
    → All IsOrdered cart
    → item_pairs room pairs cart ≡ ok out
    → All IsOrdered out × (length out ≤ length cart + room)
unfolding item_pairs
item_pairs-IsOrdered zero pairs cart out a h = ground arith
item_pairs-IsOrdered (suc room) [] cart out a h = ground arith
item_pairs-IsOrdered (suc room) (pair ∷ pairs) cart out a h =
    elim (Option-cases (cut_at b':' pair)) [
      | inl e ↦ absurd (ground arith)
      | inr ((l, r), e) ↦ elim (Bool-cases (leb_ℤ (atoi l) (pos 0) || leb_ℤ (atoi r) (pos 0))) [
        | inl t ↦ absurd (ground arith)
        | inr f ↦
            let new : CartItem = record {
              menu_id = atoi l;
              name = [];
              price = pos 0;
              qty = atoi r;
            } in
            let good : IsOrdered new = record {
              menu_id = ground arith;
              qty = ground arith;
              name = refl;
              price = refl;
            } in
            let (b, n) =
              item_pairs-IsOrdered room pairs (cart ++ new ∷ []) out
                (All-append IsOrdered cart (new ∷ []) a (good, tt)) (ground arith) in
            (b, omega (arith, n, length-append cart (new ∷ [])))
      ]
    ]

accepted :
    (max_cart : ℕ) (tbl : ℤ) (items : Bytes) (table : ℤ) (lines : List CartItem)
    → (if leb_ℤ tbl (pos 0) then err (codes "bad table") else create_items max_cart tbl items)
      ≡ ok (table, lines)
    → (pos 0 <ℤ table) × (length lines ≤ max_cart) × All IsOrdered lines
unfolding create_items read_items
accepted max_cart tbl [] table lines h = ground arith
accepted max_cart tbl (c ∷ s) table lines h =
    let ts = tokens b',' (fit max_proto_line (c ∷ s)) in
    elim (Result-cases (item_pairs max_cart ts [])) [
      | inl (e, q) ↦ absurd (ground arith)
      | inr (cart, q) ↦
          let (b, n) = item_pairs-IsOrdered max_cart ts [] cart tt q in
          let u : cart ≡ lines = ground arith in
          (
            ground arith,
            subst (λ x. length x ≤ max_cart) u (omega (arith, n)),
            subst (All IsOrdered) u b,
          )
    ]

pub opened :
    (msg p : Bytes) (max_cart : ℕ)
    → after_find (codes "ORDER_CREATE|") msg ≡ some p
    → proto_parse_order_create msg max_cart ≡ (
        let r = create_fields (tokens b'|' (fit max_proto_line p)) (negsuc 0) [] in
        if leb_ℤ r.0 (pos 0) then err (codes "bad table") else create_items max_cart r.0 r.1)
unfolding proto_parse_order_create
opened msg p max_cart e = rw (e, proto_parse_order_create) refl

-- An order that the parser accepts has a positive table, no more lines than were asked
-- for, and each line has a positive dish and quantity, and neither a name nor a price from the
-- client.
pub proto_parse_order_create-IsOrdered :
    (msg : Bytes) (max_cart : ℕ) (table : ℤ) (lines : List CartItem)
    → proto_parse_order_create msg max_cart ≡ ok (table, lines)
    → (pos 0 <ℤ table) × (length lines ≤ max_cart) × All IsOrdered lines
unfolding proto_parse_order_create
proto_parse_order_create-IsOrdered msg max_cart table lines h =
    elim (Option-cases (after_find (codes "ORDER_CREATE|") msg)) [
      | inl e ↦ absurd (ground arith)
      | inr (p, e) ↦
          let r = create_fields (tokens b'|' (fit max_proto_line p)) (negsuc 0) [] in
          accepted max_cart r.0 r.1 table lines (sym (opened msg p max_cart e) ∙ h)
    ]
