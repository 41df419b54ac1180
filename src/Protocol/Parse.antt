-- ===== src/Protocol/Parse.antt =====
-- The parsers of src/protocol.c for what the clients send, and for an entry of the menu message.
pub mod Create
use system_programming_team.Common.{
  MenuItem, CartItem, OrderStatus, waiting, max_name, max_category, max_proto_line,
  status_from_string,
}
use system_programming_team.Prelude.{
  ℕ, zero, suc, List, [], ◌∷◌, ◌++◌, Option, none, some, Result, ok, err, leb, if◌then◌else◌,
  length, Bytes, ℤ, pos, negsuc, leb_ℤ, ◌||◌,
}
use system_programming_team.Text.{
  codes, fit, truth, other_category, after_prefix, after_find, cut_at, tokens, skip_space, atoi,
}
use system_programming_team.Menu.Files.{flag_of}

abbrev category_or_other : List Bytes → Bytes
category_or_other [] = fit max_category other_category
category_or_other (t ∷ _) = fit max_category t

unfoldable pub segment_item : List Bytes → Option MenuItem
segment_item [] = none
segment_item (a ∷ []) = none
segment_item (a ∷ b ∷ []) = none
segment_item (a ∷ b ∷ c ∷ []) = none
segment_item (a ∷ b ∷ c ∷ d ∷ rest) = some (record {
  id = atoi a;
  name = fit max_name b;
  category = category_or_other rest;
  price = atoi c;
  sold_out = truth (atoi d);
  popular = flag_of (elim rest [ [] ↦ [] | _ ∷ more ↦ more ]);
})

-- The buffer holds MAX_NAME + MAX_CATEGORY + 128 bytes.
unfoldable pub proto_parse_menu_csv_segment : Bytes → Option MenuItem
unfolding segment_item tokens atoi
proto_parse_menu_csv_segment segment = segment_item (tokens b',' (fit 256 segment))

-- The number behind the last token that begins with `key`, or `value` if none does.
unfoldable pub last_int : Bytes → List Bytes → ℤ → ℤ
unfolding atoi
last_int key [] value = value
last_int key (tok ∷ toks) value =
    last_int key toks (elim (after_prefix key tok) [ none ↦ value | some s ↦ atoi s ])

-- The loop over the fields of ORDER_CREATE: the table, and the text of the items.
unfoldable pub create_fields : List Bytes → ℤ → Bytes → ℤ × Bytes
unfolding atoi
create_fields [] table items = (table, items)
create_fields (tok ∷ toks) table items = elim (after_prefix (codes "table=") tok) [
  | some s ↦ create_fields toks (atoi s) items
  | none ↦ elim (after_prefix (codes "items=") tok) [
    | some s ↦ create_fields toks table (fit max_proto_line s)
    | none ↦ create_fields toks table items
  ]
]

-- The loop over the pairs, for at most `room` of them; what is left over is dropped.
unfoldable pub item_pairs : ℕ → List Bytes → List CartItem → Result (List CartItem)
unfolding cut_at atoi
item_pairs zero pairs cart = ok cart
item_pairs (suc room) [] cart = ok cart
item_pairs (suc room) (pair ∷ pairs) cart = elim (cut_at b':' pair) [
  | none ↦ err (codes "bad item pair")
  | some (l, r) ↦
      if leb_ℤ (atoi l) (pos 0) || leb_ℤ (atoi r) (pos 0)
      then err (codes "bad menu/qty")
      else item_pairs room pairs
          (cart ++ record { menu_id = atoi l; name = []; price = pos 0; qty = atoi r } ∷ [])
]

-- The part of it that reads the items.
unfoldable pub read_items : ℕ → ℤ → Bytes → Result (ℤ × List CartItem)
unfolding tokens item_pairs
read_items max_cart table text = elim (item_pairs max_cart (tokens b',' text) []) [
  | err e ↦ err e
  | ok cart ↦ ok (table, cart)
]

-- The part behind the loop over the fields, for a table that is good.
unfoldable pub create_items : ℕ → ℤ → Bytes → Result (ℤ × List CartItem)
unfolding read_items
create_items max_cart table [] = err (codes "missing items")
create_items max_cart table (c ∷ s) = read_items max_cart table (fit max_proto_line (c ∷ s))

-- The table and the lines; `max_cart` bounds the lines.
unfoldable pub proto_parse_order_create : Bytes → ℕ → Result (ℤ × List CartItem)
unfolding after_find tokens create_fields create_items
proto_parse_order_create msg max_cart = elim (after_find (codes "ORDER_CREATE|") msg) [
  | none ↦ err (codes "not ORDER_CREATE")
  | some p ↦
      let (table, items) = create_fields (tokens b'|' (fit max_proto_line p)) (negsuc 0) [] in
      if leb_ℤ table (pos 0) then err (codes "bad table") else create_items max_cart table items
]

-- The loop over the fields of ORDER_UPDATE.
unfoldable pub update_fields : List Bytes → ℤ → OrderStatus → ℤ × OrderStatus
unfolding atoi status_from_string
update_fields [] oid st = (oid, st)
update_fields (tok ∷ toks) oid st = elim (after_prefix (codes "order_id=") tok) [
  | some s ↦ update_fields toks (atoi s) st
  | none ↦ elim (after_prefix (codes "status=") tok) [
    | some s ↦ update_fields toks oid (status_from_string (some s))
    | none ↦ update_fields toks oid st
  ]
]

unfoldable pub proto_parse_order_update : Bytes → Result (ℤ × OrderStatus)
unfolding after_find tokens update_fields
proto_parse_order_update msg = elim (after_find (codes "ORDER_UPDATE|") msg) [
  | none ↦ err (codes "not ORDER_UPDATE")
  | some p ↦
      let (oid, st) = update_fields (tokens b'|' (fit max_proto_line p)) (negsuc 0) waiting in
      if leb_ℤ oid (pos 0) then err (codes "bad order_id") else ok (oid, st)
]

-- The parsers for a message with one number: its prefix, the key, and the two messages of failure.
abbrev pub one_int : Bytes → Bytes → Bytes → Bytes → Bytes → Result ℤ
one_int prefix key missing bad msg = elim (after_find prefix msg) [
  | none ↦ err missing
  | some p ↦
      let n = last_int key (tokens b'|' (fit 256 p)) (negsuc 0) in
      if leb_ℤ n (pos 0) then err bad else ok n
]

unfoldable pub proto_parse_order_cancel : Bytes → Result ℤ
unfolding after_find tokens last_int
proto_parse_order_cancel =
    one_int (codes "ORDER_CANCEL|") (codes "order_id=") (codes "not ORDER_CANCEL")
      (codes "bad order_id")

unfoldable pub proto_parse_payment_request : Bytes → Result ℤ
unfolding after_find tokens last_int
proto_parse_payment_request =
    one_int (codes "PAYMENT_REQUEST|") (codes "order_id=") (codes "not PAYMENT_REQUEST")
      (codes "bad order_id")

unfoldable pub proto_parse_call_staff : Bytes → Result ℤ
unfolding after_find tokens last_int
proto_parse_call_staff =
    one_int (codes "CALL_STAFF|") (codes "table=") (codes "not CALL_STAFF") (codes "bad table")

unfoldable pub proto_parse_hello_table : Bytes → Result ℤ
unfolding skip_space atoi
proto_parse_hello_table msg = elim (after_prefix (codes "HELLO TABLE") msg) [
  | none ↦ err (codes "expected HELLO TABLE")
  | some p ↦
      let tid = atoi (skip_space p) in
      if leb_ℤ tid (pos 0) then err (codes "bad table id") else ok tid
]
