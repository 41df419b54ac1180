-- ===== src/Ui/Ordering.antt =====
-- The order that a table's screen of src/ui.c sends, and the server's parser.
pub mod Lines
use system_programming_team.Common.{CartItem, max_order_items, max_proto_line}
use system_programming_team.Order.{Cart, cart_init}
use system_programming_team.Os.{World, write_all}
use system_programming_team.Prelude.{
  ℕ, zero, suc, ◌+◌, ◌-◌, ◌*◌, ◌≤◌, ◌<◌, ◌≡◌, ◌≢◌, refl, sym, ap, ◌∙◌, false, List, [], ◌∷◌, ◌++◌,
  map, append-nil, append_assoc, Result, ok, err, arith, if◌then◌else◌, leb, length, length-append,
  take, take-eq_of_le, All, All-append, Lacks, Bytes, ℤ, pos, negsuc, leb_ℤ, ◌<ℤ◌, IsInt,
}
use system_programming_team.Protocol.Event.RoundTrip.Pieces.{fits_whole, tokens_key}
use system_programming_team.Protocol.Parse.Create.{opened}
use system_programming_team.Protocol.Parse.{
  create_fields, create_items, read_items, item_pairs, proto_parse_order_create,
}
use system_programming_team.Server.Reader.Framing.{cut_at_first}
use system_programming_team.Text.Decimal.{show-Lacks, show-ne-nil, show_short, atoi-show_alone}
use system_programming_team.Text.Tokens.{tokens_field, tokens_last}
use system_programming_team.Text.{codes, fit, show, tokens, after_find, is_digit}
use system_programming_team.Ui.{item_chunks, order_payload, ui_submit_cart_order}
use system_programming_team.Ui.Ordering.Lines.{
  IsOrderable, ordered, pair_text, chunks, item_chunks-chunks, chunks_short, pair-ne-nil,
  chunks-Lacks, tokens-chunks, not_leb_zero, item_pairs-ordered,
}

-- The message of a table's order, without its line end.
abbrev pub order_text : ℤ → Cart → Bytes
order_text table cart =
    codes "ORDER_CREATE|table=" ++ (show table ++ (codes "|items=" ++ chunks [] cart.items))

create_items-some :
    (max_cart : ℕ) (table : ℤ) (s : Bytes) (cart : List CartItem)
    → s ≢ []
    → length s < max_proto_line
    → item_pairs max_cart (tokens b',' s) [] ≡ ok cart
    → create_items max_cart table s ≡ ok (table, cart)
unfolding create_items
create_items-some max_cart table [] cart ne h e = absurd (ne refl)
create_items-some max_cart table (c ∷ s) cart ne h e =
    ap (read_items max_cart table) (fits_whole max_proto_line (c ∷ s) h) ∙ rw (e, read_items) refl

fields-read :
    (table : ℤ) (s : Bytes)
    → IsInt table
    → length s < max_proto_line
    → create_fields ((codes "table=" ++ show table) ∷ (codes "items=" ++ s) ∷ []) (negsuc 0) []
      ≡ (table, s)
unfolding create_fields
fields-read table s i h = rw (atoi-show_alone table i, fits_whole max_proto_line s h) refl

order_text-tokens :
    (table : ℤ) (s : Bytes)
    → Lacks b'|' s
    → tokens b'|' (codes "table=" ++ (show table ++ (codes "|items=" ++ s)))
      ≡ (codes "table=" ++ show table) ∷ (codes "items=" ++ s) ∷ []
order_text-tokens table s h =
    let rest = codes "items=" ++ s in
    tokens_key b'|' b't' (codes "able=") (show table) rest (omega arith)
      (show-Lacks b'|' table refl (omega arith))
    ∙ ap (◌∷◌ (codes "table=" ++ show table)) (
        tokens_last b'|' rest (λ e. cc)
          (All-append (λ x. x ≢ b'|') (codes "items=") s (omega arith) h))

-- A cart that a table can send.
pub record IsSendableCart (cart : Cart) : Type 0 where
  pub some_line : 0 < length cart.items
  pub bounded : length cart.items ≤ max_order_items
  pub lines : All IsOrderable cart.items

chunks-ne-nil : (ls : List CartItem) → 0 < length ls → chunks [] ls ≢ []
chunks-ne-nil [] h = absurd (omega arith)
chunks-ne-nil (l ∷ ls) h = pair-ne-nil l (chunks (b',' ∷ []) ls)

order_text-read :
    (table : ℤ) (cart : Cart)
    → pos 0 <ℤ table
    → IsInt table
    → IsSendableCart cart
    → proto_parse_order_create (order_text table cart) max_order_items
      ≡ ok (table, map ordered cart.items)
order_text-read table cart p i h =
    let s = chunks [] cart.items in
    let short = chunks_short [] cart.items (omega arith) h.lines in
    let rest = codes "table=" ++ (show table ++ (codes "|items=" ++ s)) in
    let n = length-append (show table) (codes "|items=" ++ s) in
    let whole : fit max_proto_line rest ≡ rest =
      fits_whole max_proto_line rest (omega (arith, n, show_short table i, short, h.bounded)) in
    let lack = chunks-Lacks b'|' [] cart.items refl (omega arith) (omega arith) (omega arith) tt in
    let z = not_leb_zero table p in
    let read : ℤ × Bytes → Result (ℤ × List CartItem) = λ r.
      if leb_ℤ r.0 (pos 0) then err (codes "bad table") else create_items max_order_items r.0 r.1 in
    opened (order_text table cart) rest max_order_items (unfold after_find in refl)
    ∙ ap (λ x. read (create_fields (tokens b'|' x) (negsuc 0) [])) whole
    ∙ ap (λ ts. read (create_fields ts (negsuc 0) [])) (order_text-tokens table s lack)
    ∙ ap read (fields-read table s i (omega (arith, short, h.bounded)))
    ∙ rw z (
        create_items-some max_order_items table s (map ordered cart.items)
          (chunks-ne-nil cart.items h.some_line) (omega (arith, short, h.bounded))
          (ap (λ ts. item_pairs max_order_items ts []) (pairs cart.items h.some_line)
            ∙ item_pairs-ordered max_order_items cart.items [] h.bounded h.lines))
  where
    pairs : (ls : List CartItem) → 0 < length ls → tokens b',' (chunks [] ls) ≡ map pair_text ls
    pairs [] h = absurd (omega arith)
    pairs (l ∷ ls) h = tokens-chunks l ls

order_payload-text :
    (table : ℤ) (cart : Cart)
    → IsInt table
    → IsSendableCart cart
    → order_payload table cart ≡ order_text table cart ++ b'\n' ∷ []
unfolding order_payload
order_payload-text table cart i h =
    let s = chunks [] cart.items in
    let short = chunks_short [] cart.items (omega arith) h.lines in
    let head : Bytes → Bytes =
      λ t. codes "ORDER_CREATE|table=" ++ (show table ++ (codes "|items=" ++ (t ++ b'\n' ∷ []))) in
    let n = length-append (show table) (codes "|items=" ++ (s ++ b'\n' ∷ [])) in
    let m = length-append s (b'\n' ∷ []) in
    ap (λ t. fit max_proto_line (head (take (max_proto_line - 48) t)))
      (item_chunks-chunks [] cart.items [] (omega arith) h.lines (omega (arith, h.bounded)))
    ∙ ap (λ t. fit max_proto_line (head t))
        (take-eq_of_le (max_proto_line - 48) s (omega (arith, short, h.bounded)))
    ∙ fits_whole max_proto_line (head s) (omega (arith, n, m, show_short table i, short, h.bounded))
    ∙ ap (λ t. codes "ORDER_CREATE|table=" ++ t)
        (sym (append_assoc (show table) (codes "|items=" ++ s) (b'\n' ∷ [])))

order_text-Lacks : (table : ℤ) (cart : Cart) → Lacks b'\n' (order_text table cart)
order_text-Lacks table cart =
    All-append (λ x. x ≢ b'\n') (codes "ORDER_CREATE|table=") _ (omega arith)
      (All-append (λ x. x ≢ b'\n') (show table) _ (show-Lacks b'\n' table refl (omega arith))
        (All-append (λ x. x ≢ b'\n') (codes "|items=") _ (omega arith)
          (chunks-Lacks b'\n' [] cart.items refl (omega arith) (omega arith) (omega arith) tt)))

-- A table's order with lines of positive dishes and quantities goes out as one line, empties the
-- cart, and is read by the server's parser as the same table, dishes and quantities, in order.
pub ui_submit_cart_order-read :
    (sock : ℕ) (table : ℤ) (cart : Cart) (banner_sz : ℕ) (w : World)
    → pos 0 <ℤ table
    → IsInt table
    → IsSendableCart cart
    → (text : Bytes) × Lacks b'\n' text
      × (proto_parse_order_create text max_order_items ≡ ok (table, map ordered cart.items))
      × ((ui_submit_cart_order sock table cart banner_sz w).3
          ≡ (write_all sock (text ++ b'\n' ∷ []) w).1)
      × ((ui_submit_cart_order sock table cart banner_sz w).2.items ≡ [])
unfolding ui_submit_cart_order cart_init
ui_submit_cart_order-read sock table cart banner_sz w p i h =
    let z : leb (length cart.items) 0 ≡ false = ground (arith, h.some_line) in
    (
      order_text table cart,
      order_text-Lacks table cart,
      order_text-read table cart p i h,
      rw z (ap (λ t. (write_all sock t w).1) (order_payload-text table cart i h)),
      rw z refl,
    )
