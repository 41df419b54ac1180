-- ===== src/Ui/Ordering/Lines.antt =====
-- The lines of the order that a table sends.
use system_programming_team.Common.{CartItem, max_proto_line}
use system_programming_team.Prelude.{
  ℕ, zero, suc, ◌+◌, ◌-◌, ◌*◌, ◌≤◌, ◌<◌, ◌≡◌, ◌≢◌, refl, sym, ap, ◌∙◌, false, List, [], ◌∷◌, ◌++◌,
  map, append-nil, append_assoc, ok, arith, length, length-append, take, take-eq_of_le, All,
  All-append, Lacks, Bytes, ℤ, pos, leb_ℤ, ◌<ℤ◌, IsInt,
}
use system_programming_team.Protocol.Event.RoundTrip.Pieces.{fits_whole}
use system_programming_team.Protocol.Parse.{item_pairs}
use system_programming_team.Server.Reader.Framing.{cut_at_first}
use system_programming_team.Text.Decimal.{show-Lacks, show-ne-nil, show_short, atoi-show_alone}
use system_programming_team.Text.Tokens.{tokens_field, tokens_last}
use system_programming_team.Text.{show, tokens, is_digit}
use system_programming_team.Ui.{item_chunks}

-- A line that a table can order.
pub record IsOrderable (l : CartItem) : Type 0 where
  pub menu_id : pos 0 <ℤ l.menu_id
  pub menu_id_int : IsInt l.menu_id
  pub qty : pos 0 <ℤ l.qty
  pub qty_int : IsInt l.qty

-- What the server knows of a line: the dish and the quantity.
abbrev pub ordered : CartItem → CartItem
ordered l = record { menu_id = l.menu_id; name = []; price = pos 0; qty = l.qty }

abbrev pub pair_text : CartItem → Bytes
pair_text l = show l.menu_id ++ (b':' ∷ show l.qty)

-- The lines' text, each behind `sep`, all but the first behind a comma.
abbrev pub chunks : Bytes → List CartItem → Bytes
chunks sep [] = []
chunks sep (l ∷ ls) = (sep ++ pair_text l) ++ chunks (b',' ∷ []) ls

pair_short : (l : CartItem) → IsOrderable l → length (pair_text l) ≤ 23
pair_short l h = omega (
  arith,
  length-append (show l.menu_id) (b':' ∷ show l.qty),
  show_short l.menu_id h.menu_id_int,
  show_short l.qty h.qty_int,
)

pub item_chunks-chunks :
    (sep : Bytes) (ls : List CartItem) (items : Bytes)
    → length sep ≤ 1
    → All IsOrderable ls
    → length items + 24 * length ls < max_proto_line
    → item_chunks sep ls items ≡ items ++ chunks sep ls
unfolding item_chunks
item_chunks-chunks sep [] items s a h = sym (append-nil items)
item_chunks-chunks sep (l ∷ ls) items s a h =
    let text = sep ++ pair_text l in
    let n = length-append sep (pair_text l) in
    let b = pair_short l a.0 in
    let m = length-append items text in
    let more : Bytes → Bytes = λ t. item_chunks (b',' ∷ []) ls t in
    ap (λ t. more (items ++ take (max_proto_line - length items - 1) t))
      (fits_whole 64 text (omega (arith, n, b)))
    ∙ ap (λ t. more (items ++ t))
        (take-eq_of_le (max_proto_line - length items - 1) text (omega (arith, n, b)))
    ∙ item_chunks-chunks (b',' ∷ []) ls (items ++ text) (omega arith) a.1 (omega (arith, n, b, m))
    ∙ append_assoc items text (chunks (b',' ∷ []) ls)

pub chunks_short :
    (sep : Bytes) (ls : List CartItem)
    → length sep ≤ 1
    → All IsOrderable ls
    → length (chunks sep ls) ≤ 24 * length ls
chunks_short sep [] s a = omega arith
chunks_short sep (l ∷ ls) s a = omega (
  arith,
  length-append (sep ++ pair_text l) (chunks (b',' ∷ []) ls),
  length-append sep (pair_text l),
  pair_short l a.0,
  chunks_short (b',' ∷ []) ls (omega arith) a.1,
)

number-Lacks :
    (b : ℕ) (l : CartItem) → is_digit b ≡ false → b ≢ 45 → b ≢ b':' → Lacks b (pair_text l)
number-Lacks b l d m c =
    All-append (λ x. x ≢ b) (show l.menu_id) _ (show-Lacks b l.menu_id d m)
      (λ e. c (sym e), show-Lacks b l.qty d m)

pub pair-ne-nil : (l : CartItem) (rest : Bytes) → pair_text l ++ rest ≢ []
pair-ne-nil l rest e = front (show l.menu_id) (show-ne-nil l.menu_id) e
  where
    front : (s : Bytes) → s ≢ [] → (s ++ (b':' ∷ show l.qty)) ++ rest ≢ []
    front [] h = absurd (h refl)
    front (c ∷ s) h = λ e. cc

pub chunks-Lacks :
    (b : ℕ) (sep : Bytes) (ls : List CartItem)
    → is_digit b ≡ false
    → b ≢ 45
    → b ≢ b':'
    → b ≢ b','
    → Lacks b sep
    → Lacks b (chunks sep ls)
chunks-Lacks b sep [] d m c k h = tt
chunks-Lacks b sep (l ∷ ls) d m c k h =
    All-append (λ x. x ≢ b) (sep ++ pair_text l) _
      (All-append (λ x. x ≢ b) sep _ h (number-Lacks b l d m c))
      (chunks-Lacks b (b',' ∷ []) ls d m c k (λ e. k (sym e), tt))

pub tokens-chunks :
    (l : CartItem) (ls : List CartItem) → tokens b',' (chunks [] (l ∷ ls)) ≡ map pair_text (l ∷ ls)
tokens-chunks l [] =
    ap (tokens b',') (append-nil (pair_text l))
    ∙ tokens_last b',' (pair_text l) (λ e. pair-ne-nil l [] (append-nil (pair_text l) ∙ e))
        (number-Lacks b',' l refl (omega arith) (omega arith))
tokens-chunks l (x ∷ ls) =
    tokens_field b',' (pair_text l) (chunks [] (x ∷ ls))
      (λ e. pair-ne-nil l [] (append-nil (pair_text l) ∙ e))
      (number-Lacks b',' l refl (omega arith) (omega arith))
    ∙ ap (◌∷◌ (pair_text l)) (tokens-chunks x ls)

pub not_leb_zero : (a : ℤ) → pos 0 <ℤ a → leb_ℤ a (pos 0) ≡ false
not_leb_zero a h = ground arith

pub item_pairs-ordered :
    (room : ℕ) (ls cart : List CartItem)
    → length ls ≤ room
    → All IsOrderable ls
    → item_pairs room (map pair_text ls) cart ≡ ok (cart ++ map ordered ls)
unfolding item_pairs
item_pairs-ordered zero [] cart h a = ap ok (sym (append-nil cart))
item_pairs-ordered zero (l ∷ ls) cart h a = absurd (omega arith)
item_pairs-ordered (suc room) [] cart h a = ap ok (sym (append-nil cart))
item_pairs-ordered (suc room) (l ∷ ls) cart h a =
    let c =
      cut_at_first b':' (show l.menu_id) (show l.qty)
        (show-Lacks b':' l.menu_id refl (omega arith)) in
    let p = not_leb_zero l.menu_id a.0.menu_id in
    let q = not_leb_zero l.qty a.0.qty in
    rw (c, item_pairs)
      (rw (atoi-show_alone l.menu_id a.0.menu_id_int, atoi-show_alone l.qty a.0.qty_int, p, q)
        (item_pairs-ordered room ls (cart ++ ordered l ∷ []) (omega arith) a.1
          ∙ ap ok (append_assoc cart (ordered l ∷ []) (map ordered ls))))
