-- ===== src/Ui/Kitchen/UpdateLines.antt =====
-- The line of an update that the kitchen's screen sends, and the server's parser.
use system_programming_team.Common.Names.{status-round_trip}
use system_programming_team.Common.{
  OrderStatus, waiting, cooking, done, paid, cancelled, status_to_string, status_from_string,
  max_proto_line,
}
use system_programming_team.Prelude.{
  ℕ, ◌≤◌, negsuc, ◌≡◌, ◌≢◌, refl, ap, ◌∙◌, false, List, [], ◌∷◌, ◌++◌, append_assoc, some, Result,
  ok, err, arith, if◌then◌else◌, length, length-append, All-append, Lacks, Bytes, ℤ, pos, ◌<ℤ◌,
  leb_ℤ, IsInt,
}
use system_programming_team.Protocol.Event.RoundTrip.Pieces.{fits_whole, tokens_key}
use system_programming_team.Protocol.Parse.{update_fields, proto_parse_order_update}
use system_programming_team.Text.Decimal.{show-Lacks, show_short, atoi-show_alone}
use system_programming_team.Text.Tokens.{tokens_last}
use system_programming_team.Text.{codes, show, tokens, after_find}
use system_programming_team.Ui.Kitchen.{update_text}

-- The line of an update, without its end.
abbrev pub update_line : ℤ → OrderStatus → Bytes
update_line oid st =
    codes "ORDER_UPDATE|order_id=" ++ (show oid ++ (codes "|status=" ++ status_to_string st))

name_lem :
    (st : OrderStatus)
    → (length (status_to_string st) ≤ 9)
      × (status_to_string st ≢ [])
      × Lacks b'|' (status_to_string st)
      × Lacks b'\n' (status_to_string st)
unfolding status_to_string
name_lem waiting = (omega arith, (λ e. cc), omega arith, omega arith)
name_lem cooking = (omega arith, (λ e. cc), omega arith, omega arith)
name_lem done = (omega arith, (λ e. cc), omega arith, omega arith)
name_lem paid = (omega arith, (λ e. cc), omega arith, omega arith)
name_lem cancelled = (omega arith, (λ e. cc), omega arith, omega arith)

pub update_text-line :
    (oid : ℤ) (st : OrderStatus) → IsInt oid → update_text oid st ≡ update_line oid st ++ b'\n' ∷ []
unfolding update_text
update_text-line oid st i =
    fits_whole 128
      (codes "ORDER_UPDATE|order_id="
        ++ (show oid ++ (codes "|status=" ++ (status_to_string st ++ b'\n' ∷ []))))
      (omega (
        arith,
        length-append (show oid) (codes "|status=" ++ (status_to_string st ++ b'\n' ∷ [])),
        length-append (status_to_string st) (b'\n' ∷ []),
        show_short oid i,
        (name_lem st).0,
      ))
    ∙ simp append_assoc

pub update_line-Lacks : (oid : ℤ) (st : OrderStatus) → Lacks b'\n' (update_line oid st)
update_line-Lacks oid st =
    let p = λ (x : ℕ). x ≢ b'\n' in
    All-append p (codes "ORDER_UPDATE|order_id=") _ (omega arith) (
      All-append p (show oid) _ (show-Lacks b'\n' oid refl (omega arith))
        (All-append p (codes "|status=") _ (omega arith) (name_lem st).3))

fields-tokens :
    (oid : ℤ) (st : OrderStatus)
    → tokens b'|' (codes "order_id=" ++ (show oid ++ (codes "|status=" ++ status_to_string st)))
      ≡ (codes "order_id=" ++ show oid) ∷ (codes "status=" ++ status_to_string st) ∷ []
fields-tokens oid st =
    tokens_key b'|' b'o' (codes "rder_id=") (show oid) (codes "status=" ++ status_to_string st)
      (omega arith) (show-Lacks b'|' oid refl (omega arith))
    ∙ ap (◌∷◌ (codes "order_id=" ++ show oid)) (
        tokens_last b'|' (codes "status=" ++ status_to_string st) (λ e. cc)
          (All-append (λ x. x ≢ b'|') (codes "status=") _ (omega arith) (name_lem st).2))

-- The server's parser reads an update as it was meant.
pub update_line-read :
    (oid : ℤ) (st : OrderStatus)
    → pos 0 <ℤ oid
    → IsInt oid
    → proto_parse_order_update (update_line oid st) ≡ ok (oid, st)
unfolding proto_parse_order_update after_find update_fields
update_line-read oid st p i =
    let fields = codes "order_id=" ++ (show oid ++ (codes "|status=" ++ status_to_string st)) in
    let checked : ℤ → OrderStatus → Result (ℤ × OrderStatus) =
      λ n t. if leb_ℤ n (pos 0) then err (codes "bad order_id") else ok (n, t) in
    let judged : List Bytes → Result (ℤ × OrderStatus) = λ toks.
      checked (update_fields toks (negsuc 0) waiting).0 (update_fields toks (negsuc 0) waiting).1 in
    let positive : leb_ℤ oid (pos 0) ≡ false = ground (arith, p) in
    ap (λ s. judged (tokens b'|' s))
      (fits_whole max_proto_line fields (
        omega (
          arith,
          length-append (show oid) (codes "|status=" ++ status_to_string st),
          show_short oid i,
          (name_lem st).0,
        )))
    ∙ ap judged (fields-tokens oid st)
    ∙ ap (λ n. checked n (status_from_string (some (status_to_string st)))) (atoi-show_alone oid i)
    ∙ ap (checked oid) (status-round_trip.0 st)
    ∙ rw positive refl
