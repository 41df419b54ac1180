-- ===== src/Ui/MenuMessage.antt =====
-- The menu message, built by src/protocol.c and taken by a screen of src/ui.c.
pub mod Dishes
use system_programming_team.Common.{
  MenuItem, MenuCatalog, max_menu_items, max_name, max_category, max_proto_line,
}
use system_programming_team.Menu.{menu_init_catalog}
use system_programming_team.Prelude.{
  ℕ, zero, suc, ◌+◌, ◌-◌, ◌*◌, ◌%◌, ◌^◌, ◌≤◌, ◌<◌, ◌≡◌, ◌≢◌, refl, sym, ap, ◌∙◌, Bool, true, false,
  ◌&&◌, not, List, [], ◌∷◌, ◌++◌, map, append-nil, append_assoc, Option, none, some, arith,
  if◌then◌else◌, ltb, leb, length, length-append, length-map, take, take-eq_of_le, All, All-append,
  Lacks, Bytes, ℤ, pos, ◌<ℤ◌, leb_ℤ, IsInt, Bool-cases, inl, inr,
}
use system_programming_team.Protocol.Event.RoundTrip.Pieces.{fits_whole}
use system_programming_team.Protocol.Fields.{sanitize_field_lem, safe-Lacks, sanitize_field-ne-nil}
use system_programming_team.Protocol.Parse.{proto_parse_menu_csv_segment, segment_item}
use system_programming_team.Protocol.{
  Out, put, sub_size, is_separator, sanitize_field, menu_entry, menu_entries,
  proto_build_menu_response,
}
use system_programming_team.Text.Decimal.{show-Lacks, show-ne-nil, show_short, atoi-show_alone}
use system_programming_team.Text.Tokens.{tokens_field, tokens_last}
use system_programming_team.Text.{
  codes, fit, show, truth, tokens, atoi, after_find, is_digit, non_empty, other_category,
}
use system_programming_team.Ui.{menu_segments, ui_apply_menu_response}
use system_programming_team.Ui.MenuMessage.Dishes.{
  IsSendableDish, sent_dish, dish_text, menu_entry-dish_text, dish_text-Lacks, segment-read,
}

-- The dishes' text, each behind `sep`, all but the first behind a semicolon.
abbrev pub dishes_text : Bytes → List MenuItem → Bytes
dishes_text sep [] = []
dishes_text sep (m ∷ ms) = (sep ++ dish_text m) ++ dishes_text (b';' ∷ []) ms

put_whole :
    (text buf : Bytes)
    → length buf + length text < max_proto_line
    → put max_proto_line text (record { buf = buf; pos = length buf })
      ≡ record { buf = buf ++ text; pos = length (buf ++ text) }
put_whole text buf h =
    let room : ltb (length buf) max_proto_line ≡ true = ground (arith, h) in
    rw
      (
        room,
        take-eq_of_le (max_proto_line - length buf - 1) text (omega (arith, h)),
        length-append buf text,
      )
      refl

enough : (n k : ℕ) → n + k < max_proto_line → leb (sub_size max_proto_line n) k ≡ false
enough n k h = ground (arith, h)

menu_entries-dishes_text :
    (sep : Bytes) (ms : List MenuItem) (buf : Bytes)
    → All IsSendableDish ms
    → length buf + length (dishes_text sep ms) < max_proto_line
    → menu_entries max_proto_line ms sep (record { buf = buf; pos = length buf })
      ≡ some (record { buf = buf ++ dishes_text sep ms; pos = length (buf ++ dishes_text sep ms) })
unfolding menu_entries
menu_entries-dishes_text sep [] buf a h =
    ap (λ b. some (record { buf = b; pos = length b })) (sym (append-nil buf))
menu_entries-dishes_text sep (m ∷ ms) buf a h =
    let text = sep ++ dish_text m in
    let n = length-append text (dishes_text (b';' ∷ []) ms) in
    rw
      (
        menu_entry-dish_text m a.0,
        enough (length buf) (length text) (omega (arith, h, n)),
        put_whole text buf (omega (arith, h, n)),
      )
      (menu_entries-dishes_text (b';' ∷ []) ms (buf ++ text) a.1
          (omega (arith, h, n, length-append buf text))
        ∙ ap (λ b. some (record { buf = b; pos = length b }))
            (append_assoc buf text (dishes_text (b';' ∷ []) ms)))

dish_text-ne-nil : (m : MenuItem) → dish_text m ≢ []
dish_text-ne-nil m = front (show m.id) _ (show-ne-nil m.id)
  where
    front : (s t : Bytes) → s ≢ [] → s ++ t ≢ []
    front [] t h = absurd (h refl)
    front (c ∷ s) t h = λ e. cc

tokens-dishes_text :
    (m : MenuItem) (ms : List MenuItem)
    → tokens b';' (dishes_text [] (m ∷ ms)) ≡ map dish_text (m ∷ ms)
tokens-dishes_text m [] =
    ap (tokens b';') (append-nil (dish_text m))
    ∙ tokens_last b';' (dish_text m) (dish_text-ne-nil m) (dish_text-Lacks m)
tokens-dishes_text m (x ∷ ms) =
    tokens_field b';' (dish_text m) (dishes_text [] (x ∷ ms)) (dish_text-ne-nil m)
      (dish_text-Lacks m)
    ∙ ap (◌∷◌ (dish_text m)) (tokens-dishes_text x ms)

no_dishes : tokens b';' [] ≡ []
unfolding tokens
no_dishes = refl

dishes-tokens : (ms : List MenuItem) → tokens b';' (dishes_text [] ms) ≡ map dish_text ms
dishes-tokens [] = no_dishes
dishes-tokens (m ∷ ms) = tokens-dishes_text m ms

menu_segments-read :
    (ms : List MenuItem) (cat : MenuCatalog)
    → All IsSendableDish ms
    → length cat.items + length ms ≤ max_menu_items
    → menu_segments (map dish_text ms) cat ≡ record { items = cat.items ++ map sent_dish ms }
unfolding menu_segments
menu_segments-read [] cat a h = ap (λ x. record { items = x }) (sym (append-nil cat.items))
menu_segments-read (m ∷ ms) cat a h =
    let z : leb_ℤ m.id (pos 0) ≡ false = not_leb_zero m.id a.0.id in
    let room : ltb (length cat.items) max_menu_items ≡ true = ground (arith, h) in
    rw (segment-read m a.0, menu_segments)
      (rw (z, room)
        (menu_segments-read ms (record { items = cat.items ++ sent_dish m ∷ [] }) a.1
            (omega (arith, h, length-append cat.items (sent_dish m ∷ [])))
          ∙ ap (λ x. record { items = x })
              (append_assoc cat.items (sent_dish m ∷ []) (map sent_dish ms))))
  where
    not_leb_zero : (a : ℤ) → pos 0 <ℤ a → leb_ℤ a (pos 0) ≡ false
    not_leb_zero a p = ground arith

-- The text of the menu's message.
abbrev pub menu_text : MenuCatalog → Bytes
menu_text cat = codes "MENU_RESPONSE|" ++ dishes_text [] cat.items

pub record IsSendableMenu (cat : MenuCatalog) : Type 0 where
  pub bounded : length cat.items ≤ max_menu_items
  pub dishes : All IsSendableDish cat.items
  pub short : length (menu_text cat) < max_proto_line

built :
    (cat : MenuCatalog)
    → IsSendableMenu cat
    → proto_build_menu_response cat max_proto_line ≡ some (menu_text cat)
unfolding proto_build_menu_response
built cat h =
    let head = codes "MENU_RESPONSE|" in
    let first : put max_proto_line head (record { buf = []; pos = 0 })
        ≡ record { buf = head; pos = length head } =
      put_whole head [] (omega arith) in
    rw (first, proto_build_menu_response)
      (rw (menu_entries-dishes_text [] cat.items head h.dishes (omega (arith, h.short))) refl)

taken :
    (old cat : MenuCatalog)
    → IsSendableMenu cat
    → ui_apply_menu_response old (menu_text cat) ≡ record { items = map sent_dish cat.items }
unfolding ui_apply_menu_response after_find menu_init_catalog
taken old cat h =
    ap (λ s. menu_segments (tokens b';' s) menu_init_catalog)
      (fits_whole max_proto_line (dishes_text [] cat.items) (omega (arith, h.short)))
    ∙ ap (λ ts. menu_segments ts menu_init_catalog) (dishes-tokens cat.items)
    ∙ menu_segments-read cat.items (record { items = [] }) h.dishes (omega (arith, h.bounded))

-- The message for a menu whose dishes can be sent is built, and a screen that takes it has the same
-- dishes in the same order, with their names and categories made safe, whatever it had before.
pub menu_message-round_trip :
    (old cat : MenuCatalog)
    → IsSendableMenu cat
    → (text : Bytes) × (proto_build_menu_response cat max_proto_line ≡ some text)
      × (ui_apply_menu_response old text ≡ record { items = map sent_dish cat.items })
menu_message-round_trip old cat h = (menu_text cat, built cat h, taken old cat h)
