-- ===== src/Protocol.antt =====
-- include/protocol.h and the first part of src/protocol.c: fields that are safe to send, and the
-- texts that the server sends. The parsers are in `Parse`, the order events' parser in `Event`.
pub mod Parse
pub mod Event
pub mod Fields
use system_programming_team.Common.{
  MenuItem, MenuCatalog, Order, OrderLineItem, max_name, max_category, status_to_string,
}
use system_programming_team.Prelude.{
  ℕ, ◌+◌, ◌-◌, ◌%◌, ◌^◌, Bool, ◌||◌, List, [], ◌∷◌, ◌++◌, Option, none, some, ltb, leb, ◌==◌,
  if◌then◌else◌, length, take, map, Bytes, ℤ,
}
use system_programming_team.Text.{codes, fit, show, truth, non_empty, other_category}

-- The bytes that the messages use as separators.
abbrev pub is_separator : ℕ → Bool
is_separator c =
    (c == b',') || ((c == b';') || ((c == b'|') || ((c == b':') || ((c == b'\n') || (c == b'\r')))))

unfoldable pub sanitize_field : Bytes → Bytes
sanitize_field [] = []
sanitize_field (c ∷ s) = (if is_separator c then b'_' else c) ∷ sanitize_field s

-- A buffer of a fixed size and `pos`, the length of all that was printed, which may be more than
-- what the buffer holds.
pub record Out : Type 0 where
  pub buf : Bytes
  pub pos : ℕ

-- `snprintf (out + pos, outsz > pos ? outsz - pos : 0, "%s", s); pos += length of s`
abbrev pub put : ℕ → Bytes → Out → Out
put outsz s o = record {
  buf = if ltb o.pos outsz then o.buf ++ take (outsz - o.pos - 1) s else o.buf;
  pos = o.pos + length s;
}

-- It always returns 0. `dst` is the text in the buffer.
unfoldable pub proto_append_esc_name : Bytes → ℕ → Bytes → Bytes
unfolding sanitize_field
proto_append_esc_name dst dstsz name =
    (put dstsz (sanitize_field (fit max_name name)) (record { buf = dst; pos = length dst })).buf

-- One entry of the menu message.
unfoldable pub menu_entry : MenuItem → Bytes
unfolding sanitize_field show
menu_entry m =
    show m.id
    ++ (b',' ∷ sanitize_field (fit max_name m.name)
        ++ (b',' ∷ show m.price
            ++ (b',' ∷ show (truth m.sold_out)
                ++ (b',' ∷ sanitize_field (fit max_category (non_empty m.category other_category))
                    ++ (b',' ∷ show (truth m.popular))))))

-- `a - b` in `size_t`.
abbrev pub sub_size : ℕ → ℕ → ℕ
sub_size a b = (a + 2 ^ 64 - b) % 2 ^ 64

-- The loop over the entries; `sep` is empty in front of the first. none is -1.
unfoldable pub menu_entries : ℕ → List MenuItem → Bytes → Out → Option Out
unfolding menu_entry
menu_entries outsz [] sep o = some o
menu_entries outsz (m ∷ ms) sep o =
    let text = sep ++ menu_entry m in
    let rest = menu_entries outsz ms (b';' ∷ []) (put outsz text o) in
    if leb (sub_size outsz o.pos) (length text) then none else rest

unfoldable pub proto_build_menu_response : MenuCatalog → ℕ → Option Bytes
unfolding menu_entries
proto_build_menu_response cat outsz =
    elim (menu_entries outsz cat.items []
      (put outsz (codes "MENU_RESPONSE|") (record { buf = []; pos = 0 }))) [
        | none ↦ none
        | some o ↦ some o.buf
      ]

-- The text that `append_item_payload` prints, behind its `;`.
unfoldable pub item_payload : OrderLineItem → Bytes
unfolding sanitize_field show
item_payload it =
    show it.menu_id
    ++ (b':' ∷ show it.qty
        ++ (b':' ∷ sanitize_field (fit max_name it.name) ++ (b':' ∷ show it.unit_price)))

unfoldable pub append_item_payload : ℕ → Out → OrderLineItem → Out
unfolding item_payload
append_item_payload bufsz o it =
    put bufsz ((if ltb 0 o.pos then b';' ∷ [] else []) ++ item_payload it) o

unfoldable pub append_items : ℕ → Out → List OrderLineItem → Out
append_items bufsz o [] = o
append_items bufsz o (it ∷ its) = append_items bufsz (append_item_payload bufsz o it) its

-- The text in front of the items.
unfoldable pub event_head : Order → Bytes
unfolding show status_to_string
event_head ord =
    codes "ORDER_EVENT|order_id="
    ++ (show ord.order_id
        ++ (codes "|table="
            ++ (show ord.table_id
                ++ (codes "|status="
                    ++ (status_to_string ord.status
                        ++ (codes "|total="
                            ++ (show ord.total_price
                                ++ (codes "|created="
                                    ++ (show ord.created_at ++ codes "|items=")))))))))

unfoldable pub proto_build_order_broadcast : Order → ℕ → Bytes
unfolding event_head append_items append_item_payload
proto_build_order_broadcast ord outsz =
    (append_items outsz (put outsz (event_head ord) (record { buf = []; pos = 0 })) ord.items).buf

unfoldable pub proto_build_staff_broadcast : ℤ → ℕ → Bytes
unfolding show
proto_build_staff_broadcast table_id outsz = fit outsz (codes "STAFF_CALL|table=" ++ show table_id)
