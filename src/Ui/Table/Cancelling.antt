-- ===== src/Ui/Table/Cancelling.antt =====
-- The cancellations that the table's screen sends, and what the server makes of them.
use system_programming_team.Common.{Order}
use system_programming_team.Os.{World, write_all}
use system_programming_team.Prelude.{
  ℕ, suc, ◌≡◌, ◌≢◌, refl, sym, ap, subst, ◌∙◌, true, false, ◌||◌, not, ◌==◌, List, [], ◌∷◌, ◌++◌,
  some, Result, ok, err, arith, if◌then◌else◌, length-append, All, All-append, Lacks, Bytes, ℤ, pos,
  negsuc, ◌<ℤ◌, leb_ℤ, eqb_ℤ, eqb_ℤ→eq, eqb_ℤ_self, IsInt, Bool-cases, Option-cases, inl, inr, ◌⊎◌,
}
use system_programming_team.Protocol.Event.RoundTrip.Pieces.{fits_whole}
use system_programming_team.Protocol.Parse.{last_int, proto_parse_order_cancel}
use system_programming_team.Server.Orders.{is_waiting, server_get_order, server_cancel_order}
use system_programming_team.Server.{ServerContext}
use system_programming_team.Text.Decimal.{show-Lacks, show_short, atoi-show_alone}
use system_programming_team.Text.Tokens.{tokens_last}
use system_programming_team.Text.{codes, show, tokens, after_find}
use system_programming_team.Ui.Table.Loop.{cancel_text, cancel_selected}
use system_programming_team.Ui.Table.{TableUi, nth_order, ui_table_get_nth_order}
use system_programming_team.Ui.{is_cancelled}

-- The line of a cancellation, without its end.
abbrev pub cancel_line : ℤ → Bytes
cancel_line order_id = codes "ORDER_CANCEL|order_id=" ++ show order_id

cancel_text-line : (id : ℤ) → IsInt id → cancel_text id ≡ cancel_line id ++ b'\n' ∷ []
unfolding cancel_text
cancel_text-line id i =
    fits_whole 128 (codes "ORDER_CANCEL|order_id=" ++ (show id ++ b'\n' ∷ []))
      (omega (arith, length-append (show id) (b'\n' ∷ []), show_short id i))

cancel_line-Lacks : (id : ℤ) → Lacks b'\n' (cancel_line id)
cancel_line-Lacks id =
    All-append (λ x. x ≢ b'\n') (codes "ORDER_CANCEL|order_id=") _ (omega arith)
      (show-Lacks b'\n' id refl (omega arith))

cancel_line-read :
    (id : ℤ) → pos 0 <ℤ id → IsInt id → proto_parse_order_cancel (cancel_line id) ≡ ok id
unfolding proto_parse_order_cancel after_find last_int
cancel_line-read id p i =
    let field = codes "order_id=" ++ show id in
    let checked : ℤ → Result ℤ =
      λ n. if leb_ℤ n (pos 0) then err (codes "bad order_id") else ok n in
    let judged : List Bytes → Result ℤ =
      λ toks. checked (last_int (codes "order_id=") toks (negsuc 0)) in
    let positive : leb_ℤ id (pos 0) ≡ false = ground (arith, p) in
    ap (λ s. judged (tokens b'|' s)) (fits_whole 256 field (omega (arith, show_short id i)))
    ∙ ap judged (
        tokens_last b'|' field (λ e. cc)
          (All-append (λ x. x ≢ b'|') (codes "order_id=") _ (omega arith)
            (show-Lacks b'|' id refl (omega arith))))
    ∙ ap checked (atoi-show_alone id i)
    ∙ rw positive refl

-- The order at a place of the list is one of the table's on the mirror.
nth-All :
    (P : Order → Type 0) (table : ℤ) (nth : ℕ) (os : List Order) (n : ℕ) (o : Order)
    → All P os
    → nth_order table nth os n ≡ some o
    → P o × (o.table_id ≡ table)
unfolding nth_order
nth-All P table nth [] n o a h = absurd (ground arith)
nth-All P table nth (x ∷ os) n o a h =
    elim (Bool-cases (not (eqb_ℤ x.table_id table) || is_cancelled x.status)) [
      | inl e ↦
          let skip : nth_order table nth (x ∷ os) n ≡ nth_order table nth os n =
            rw (e, nth_order) refl in
          nth-All P table nth os n o a.1 (sym skip ∙ h)
      | inr e ↦ elim (Bool-cases (n == nth)) [
        | inr f ↦
            let next : nth_order table nth (x ∷ os) n ≡ nth_order table nth os (suc n) =
              rw (e, f, nth_order) refl in
            nth-All P table nth os (suc n) o a.1 (sym next ∙ h)
        | inl f ↦
            let here : nth_order table nth (x ∷ os) n ≡ some x = rw (e, f, nth_order) refl in
            let same : x ≡ o = ground (arith, sym here ∙ h) in
            subst (λ y. P y × (y.table_id ≡ table)) same
              (a.0, eqb_ℤ→eq x.table_id table (ground arith))
      ]
    ]

-- The server cancels a waiting order of the table.
cancelled_lem :
    (ctx : ServerContext) (id table : ℤ) (i : ℕ) (o : Order)
    → server_get_order ctx id ≡ some (i, o)
    → o.table_id ≡ table
    → is_waiting o.status ≡ true
    → (server_cancel_order ctx id table).0 ≡ ok tt
unfolding server_cancel_order
cancelled_lem ctx id table i o g t s =
    let e : eqb_ℤ o.table_id table ≡ true =
      subst (λ k. eqb_ℤ o.table_id k ≡ true) t (eqb_ℤ_self o.table_id) in
    rw (g, server_cancel_order) (rw (e, s) refl)

-- A cancellation that is sent.
abbrev pub Cancels : ℕ → TableUi → World → World → Type 0
Cancels sock ui w v =
    (o : Order) × (text : Bytes) × (ui_table_get_nth_order ui.mirror ui.table_id ui.sel ≡ some o)
    × (is_waiting o.status ≡ true)
    × Lacks b'\n' text
    × (v ≡ (write_all sock (text ++ b'\n' ∷ []) w).1)
    × (proto_parse_order_cancel text ≡ ok o.order_id)
    × ((ctx : ServerContext) (i : ℕ) (o' : Order)
        → server_get_order ctx o.order_id ≡ some (i, o')
        → o'.table_id ≡ ui.table_id
        → is_waiting o'.status ≡ true
        → (server_cancel_order ctx o.order_id ui.table_id).0 ≡ ok tt)

-- With positive ints for ids on the mirror, the key that cancels sends nothing, or one line that the
-- server's parser reads as the id of the selected order, which is waiting on the mirror; and the
-- server cancels that order for the table if it is the table's and still waiting there. The screen's orders and cart stay as they are.
pub cancel_selected-Cancels :
    (sock : ℕ) (ui : TableUi) (w : World)
    → All (λ o. (pos 0 <ℤ o.order_id) × IsInt o.order_id) ui.mirror
    → (((cancel_selected sock ui w).1 ≡ w) ⊎ Cancels sock ui w (cancel_selected sock ui w).1)
      × ((cancel_selected sock ui w).0.mirror ≡ ui.mirror)
      × ((cancel_selected sock ui w).0.cart ≡ ui.cart)
unfolding cancel_selected ui_table_get_nth_order
cancel_selected-Cancels sock ui w a =
    elim (Option-cases (ui_table_get_nth_order ui.mirror ui.table_id ui.sel)) [
      | inl e ↦ rw (e, cancel_selected) (inl refl, refl, refl)
      | inr (o, e) ↦ elim (Bool-cases (is_waiting o.status)) [
        | inr s ↦ rw (e, s, cancel_selected) (inl refl, refl, refl)
        | inl s ↦
            let ((p, i), t) = nth-All _ ui.table_id ui.sel ui.mirror 0 o a e in
            rw (e, s, cancel_selected)
              (
                inr (
                  o,
                  cancel_line o.order_id,
                  refl,
                  s,
                  cancel_line-Lacks o.order_id,
                  ap (λ l. (write_all sock l w).1) (cancel_text-line o.order_id i),
                  cancel_line-read o.order_id p i,
                  λ ctx j o' g t' s'. cancelled_lem ctx o.order_id ui.table_id j o' g t' s',
                ),
                refl,
                refl,
              )
      ]
    ]
