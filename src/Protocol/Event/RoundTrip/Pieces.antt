-- ===== src/Protocol/Event/RoundTrip/Pieces.antt =====
-- The pieces of an order event: its fields and its segments as `strtok_r` finds them.
use system_programming_team.Common.{OrderLineItem, max_name}
use system_programming_team.Prelude.{
  ℕ, suc, ◌+◌, ◌-◌, ◌<◌, ◌≡◌, ◌≢◌, refl, sym, ap, ◌∙◌, List, [], ◌∷◌, ◌++◌, map, arith, true, false,
  append-nil, append_assoc, length, length-append, take-eq_of_le, All-append, Lacks, Bytes, ltb,
}
use system_programming_team.Protocol.Fields.{sanitize_field_lem, safe-Lacks, sanitize_field-ne-nil}
use system_programming_team.Protocol.{
  item_payload, append_item_payload, append_items, sanitize_field, is_separator,
}
use system_programming_team.Text.Decimal.{show-Lacks, show-ne-nil}
use system_programming_team.Text.Tokens.{tokens_field, tokens_delimiter, tokens_last}
use system_programming_team.Text.{fit, show, tokens, after_find, is_digit}

-- The items of an event, each behind a `;`, the first too.
abbrev pub payloads : List OrderLineItem → Bytes
payloads [] = []
payloads (it ∷ its) = b';' ∷ (item_payload it ++ payloads its)

-- A text shorter than its buffer is there whole.
pub fits_whole : (n : ℕ) (s : Bytes) → length s < n → fit n s ≡ s
fits_whole n s h = take-eq_of_le (n - 1) s (omega arith)

-- A search for a text that begins with `b` passes over bytes other than `b`.
pub after_find-skip :
    (b : ℕ) (p s rest : Bytes)
    → Lacks b s
    → after_find (b ∷ p) (s ++ rest) ≡ after_find (b ∷ p) rest
unfolding after_find
after_find-skip b p [] rest h = refl
after_find-skip b p (c ∷ s) rest h = ground (arith, after_find-skip b p s rest h.1, h.0)

-- A field `key=value` up to the next delimiter.
pub tokens_key :
    (b c : ℕ) (k v rest : Bytes)
    → Lacks b (c ∷ k)
    → Lacks b v
    → tokens b ((c ∷ k) ++ (v ++ b ∷ rest)) ≡ ((c ∷ k) ++ v) ∷ tokens b rest
tokens_key b c k v rest h g =
    sym (ap (tokens b) (append_assoc (c ∷ k) v (b ∷ rest)))
    ∙ tokens_field b ((c ∷ k) ++ v) rest (λ e. cc) (All-append (λ x. x ≢ b) (c ∷ k) v h g)

name-Lacks : (b : ℕ) (s : Bytes) → is_separator b ≡ true → Lacks b (sanitize_field (fit max_name s))
name-Lacks b s h = safe-Lacks b _ h (sanitize_field_lem (fit max_name s)).1

-- A payload holds no separator but its own colons.
pub item_payload-Lacks :
    (b : ℕ) (it : OrderLineItem)
    → is_separator b ≡ true
    → is_digit b ≡ false
    → b ≢ 45
    → b ≢ b':'
    → Lacks b (item_payload it)
unfolding item_payload
item_payload-Lacks b it s d m c =
    let q : b':' ≢ b = λ e. c (sym e) in
    let join = All-append (λ x. x ≢ b) in
    join (show it.menu_id) _ (show-Lacks b it.menu_id d m) (
      q,
      join (show it.qty) _ (show-Lacks b it.qty d m) (
        q,
        join (sanitize_field (fit max_name it.name)) _ (name-Lacks b it.name s)
            (q, show-Lacks b it.unit_price d m),
      ),
    )

item_payload-ne-nil : (it : OrderLineItem) → item_payload it ≢ []
unfolding item_payload
item_payload-ne-nil it = front (show it.menu_id) _ (show-ne-nil it.menu_id)
  where
    front : (s t : Bytes) → s ≢ [] → s ++ t ≢ []
    front [] t h = absurd (h refl)
    front (c ∷ s) t h = λ e. cc

pub payloads-Lacks : (its : List OrderLineItem) → Lacks b'|' (payloads its)
payloads-Lacks [] = tt
payloads-Lacks (it ∷ its) = (
  λ e. absurd (omega arith),
  All-append (λ x. x ≢ b'|') (item_payload it) (payloads its)
      (item_payload-Lacks b'|' it refl refl (omega arith) (omega arith)) (payloads-Lacks its),
)

tokens_payload_first :
    (it : OrderLineItem) (its : List OrderLineItem)
    → tokens b';' (item_payload it ++ payloads its) ≡ item_payload it ∷ map item_payload its
tokens_payload_first it [] =
    ap (tokens b';') (append-nil (item_payload it))
    ∙ tokens_last b';' (item_payload it) (item_payload-ne-nil it)
        (item_payload-Lacks b';' it refl refl (omega arith) (omega arith))
tokens_payload_first it (x ∷ its) =
    tokens_field b';' (item_payload it) (item_payload x ++ payloads its) (item_payload-ne-nil it)
      (item_payload-Lacks b';' it refl refl (omega arith) (omega arith))
    ∙ ap (◌∷◌ (item_payload it)) (tokens_payload_first x its)

-- The segments of the items' text are the payloads.
pub tokens-payloads : (its : List OrderLineItem) → tokens b';' (payloads its) ≡ map item_payload its
tokens-payloads [] = unfold tokens in refl
tokens-payloads (it ∷ its) =
    tokens_delimiter b';' (item_payload it ++ payloads its) ∙ tokens_payload_first it its

-- The fields of a payload.
pub tokens-payload :
    (it : OrderLineItem)
    → it.name ≢ []
    → length it.name < max_name
    → tokens b':' (item_payload it)
      ≡ show it.menu_id ∷ show it.qty ∷ sanitize_field it.name ∷ show it.unit_price ∷ []
unfolding item_payload
tokens-payload it ne short =
    let name = sanitize_field it.name in
    let safe = safe-Lacks b':' name refl (sanitize_field_lem it.name).1 in
    rw (fits_whole max_name it.name short) (
      tokens_field b':' (show it.menu_id) _ (show-ne-nil it.menu_id)
        (show-Lacks b':' it.menu_id refl (omega arith))
      ∙ ap (◌∷◌ (show it.menu_id)) (
          tokens_field b':' (show it.qty) _ (show-ne-nil it.qty)
            (show-Lacks b':' it.qty refl (omega arith))
          ∙ ap (◌∷◌ (show it.qty)) (
              tokens_field b':' name (show it.unit_price) (sanitize_field-ne-nil it.name ne) safe
              ∙ ap (◌∷◌ name) (
                  tokens_last b':' (show it.unit_price) (show-ne-nil it.unit_price)
                    (show-Lacks b':' it.unit_price refl (omega arith))))))

-- Printing into a buffer that is large enough appends.
append_item_payload_lem :
    (n : ℕ) (it : OrderLineItem) (buf : Bytes)
    → 0 < length buf
    → length buf + suc (length (item_payload it)) < n
    → append_item_payload n (record { buf = buf; pos = length buf }) it
      ≡ record { buf = buf ++ b';' ∷ item_payload it; pos = length (buf ++ b';' ∷ item_payload it) }
unfolding append_item_payload
append_item_payload_lem n it buf h b =
    let text = b';' ∷ item_payload it in
    let z : ltb 0 (length buf) ≡ true = ground arith in
    let room : ltb (length buf) n ≡ true = ground arith in
    let whole = take-eq_of_le (n - length buf - 1) text (omega arith) in
    rw (z, room, whole, length-append buf text)

pub append_items-payloads :
    (n : ℕ) (its : List OrderLineItem) (buf : Bytes)
    → 0 < length buf
    → length buf + length (payloads its) < n
    → (append_items n (record { buf = buf; pos = length buf }) its).buf ≡ buf ++ payloads its
unfolding append_items
append_items-payloads n [] buf h b = sym (append-nil buf)
append_items-payloads n (it ∷ its) buf h b =
    let text = b';' ∷ item_payload it in
    let bound = length-append (item_payload it) (payloads its) in
    let grown = length-append buf text in
    ap (λ o. (append_items n o its).buf) (append_item_payload_lem n it buf h (omega (arith, bound)))
    ∙ append_items-payloads n its (buf ++ text) (omega (arith, grown)) (omega (arith, grown, bound))
    ∙ append_assoc buf text (payloads its)
