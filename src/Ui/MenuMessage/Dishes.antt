-- ===== src/Ui/MenuMessage/Dishes.antt =====
-- The text of one dish in the menu message, and what a screen reads from it.
use system_programming_team.Common.{MenuItem, max_name, max_category}
use system_programming_team.Prelude.{
  ℕ, ◌<◌, ◌≡◌, ◌≢◌, refl, ap, ◌∙◌, true, false, [], ◌∷◌, ◌++◌, some, arith, length, length-append,
  All-append, Lacks, Bytes, ℤ, pos, ◌<ℤ◌, IsInt,
}
use system_programming_team.Protocol.Event.RoundTrip.Pieces.{fits_whole}
use system_programming_team.Protocol.Fields.{sanitize_field_lem, safe-Lacks, sanitize_field-ne-nil}
use system_programming_team.Protocol.Parse.{proto_parse_menu_csv_segment, segment_item}
use system_programming_team.Protocol.{is_separator, sanitize_field, menu_entry}
use system_programming_team.Text.Decimal.{show-Lacks, show-ne-nil, show_short, atoi-show_alone}
use system_programming_team.Text.Tokens.{tokens_field, tokens_last}
use system_programming_team.Text.{show, truth, tokens, is_digit, non_empty, other_category}

-- A dish that can be sent.
pub record IsSendableDish (m : MenuItem) : Type 0 where
  pub id : pos 0 <ℤ m.id
  pub id_int : IsInt m.id
  pub price : IsInt m.price
  pub name : m.name ≢ []
  pub name_fits : length m.name < max_name
  pub category : m.category ≢ []
  pub category_fits : length m.category < max_category
  pub sold_out : truth m.sold_out ≡ m.sold_out
  pub popular : truth m.popular ≡ m.popular

-- The dish as a screen gets it.
abbrev pub sent_dish : MenuItem → MenuItem
sent_dish m = record m { name = sanitize_field m.name; category = sanitize_field m.category }

-- The text of a dish whose fields fit.
abbrev pub dish_text : MenuItem → Bytes
dish_text m =
    show m.id
    ++ (b',' ∷ sanitize_field m.name
        ++ (b',' ∷ show m.price
            ++ (b',' ∷ show m.sold_out
                ++ (b',' ∷ sanitize_field m.category ++ (b',' ∷ show m.popular)))))

non_empty_lem : (s t : Bytes) → s ≢ [] → non_empty s t ≡ s
non_empty_lem [] t h = absurd (h refl)
non_empty_lem (c ∷ s) t h = refl

pub menu_entry-dish_text : (m : MenuItem) → IsSendableDish m → menu_entry m ≡ dish_text m
unfolding menu_entry
menu_entry-dish_text m h =
    rw
      (
        fits_whole max_name m.name h.name_fits,
        non_empty_lem m.category other_category h.category,
        fits_whole max_category m.category h.category_fits,
        h.sold_out,
        h.popular,
      )
      refl

truth-IsInt : (a : ℤ) → truth a ≡ a → IsInt a
truth-IsInt a e = record { above = ground (arith, e); below = ground (arith, e) }

dish_text_short : (m : MenuItem) → IsSendableDish m → length (dish_text m) < 200
dish_text_short m h =
    let s = sanitize_field m.category in
    let p = show m.popular in
    let o = show m.sold_out in
    let t3 = b',' ∷ s ++ (b',' ∷ p) in
    let t2 = b',' ∷ o ++ t3 in
    let t1 = b',' ∷ show m.price ++ t2 in
    omega (
      arith,
      length-append (show m.id) (b',' ∷ sanitize_field m.name ++ t1),
      length-append (sanitize_field m.name) t1,
      length-append (show m.price) t2,
      length-append o t3,
      length-append s (b',' ∷ p),
      show_short m.id h.id_int,
      show_short m.price h.price,
      show_short m.sold_out (truth-IsInt m.sold_out h.sold_out),
      show_short m.popular (truth-IsInt m.popular h.popular),
      (sanitize_field_lem m.name).0,
      (sanitize_field_lem m.category).0,
      h.name_fits,
      h.category_fits,
    )

safe : (b : ℕ) (s : Bytes) → is_separator b ≡ true → Lacks b (sanitize_field s)
safe b s h = safe-Lacks b (sanitize_field s) h (sanitize_field_lem s).1

number : (b : ℕ) (a : ℤ) → is_digit b ≡ false → b ≢ 45 → Lacks b (show a)
number b a d m = show-Lacks b a d m

pub dish_text-Lacks : (m : MenuItem) → Lacks b';' (dish_text m)
dish_text-Lacks m =
    let join = All-append (λ x. x ≢ b';') in
    let num : (a : ℤ) → Lacks b';' (show a) = λ a. number b';' a refl (omega arith) in
    let q : b',' ≢ b';' = omega arith in
    join (show m.id) _ (num m.id) (
      q,
      join (sanitize_field m.name) _ (safe b';' m.name refl) (
        q,
        join (show m.price) _ (num m.price) (
          q,
          join (show m.sold_out) _ (num m.sold_out) (
            q,
            join (sanitize_field m.category) _ (safe b';' m.category refl) (q, num m.popular),
          ),
        ),
      ),
    )

tokens-dish_text :
    (m : MenuItem)
    → IsSendableDish m
    → tokens b',' (dish_text m)
      ≡ show m.id
        ∷ sanitize_field m.name
        ∷ show m.price
        ∷ show m.sold_out
        ∷ sanitize_field m.category
        ∷ show m.popular
        ∷ []
tokens-dish_text m h =
    let num : (a : ℤ) → Lacks b',' (show a) = λ a. number b',' a refl (omega arith) in
    tokens_field b',' (show m.id) _ (show-ne-nil m.id) (num m.id)
    ∙ ap (◌∷◌ (show m.id)) (
        tokens_field b',' (sanitize_field m.name) _ (sanitize_field-ne-nil m.name h.name)
          (safe b',' m.name refl)
        ∙ ap (◌∷◌ (sanitize_field m.name)) (
            tokens_field b',' (show m.price) _ (show-ne-nil m.price) (num m.price)
            ∙ ap (◌∷◌ (show m.price)) (
                tokens_field b',' (show m.sold_out) _ (show-ne-nil m.sold_out) (num m.sold_out)
                ∙ ap (◌∷◌ (show m.sold_out)) (
                    tokens_field b',' (sanitize_field m.category) (show m.popular)
                      (sanitize_field-ne-nil m.category h.category) (safe b',' m.category refl)
                    ∙ ap (◌∷◌ (sanitize_field m.category)) (
                        tokens_last b',' (show m.popular) (show-ne-nil m.popular)
                          (num m.popular))))))

pub segment-read :
    (m : MenuItem)
    → IsSendableDish m
    → proto_parse_menu_csv_segment (dish_text m) ≡ some (sent_dish m)
unfolding proto_parse_menu_csv_segment segment_item
segment-read m h =
    let n = (sanitize_field_lem m.name).0 in
    let c = (sanitize_field_lem m.category).0 in
    ap (λ s. segment_item (tokens b',' s))
      (fits_whole 256 (dish_text m) (omega (arith, dish_text_short m h)))
    ∙ ap segment_item (tokens-dish_text m h)
    ∙ rw
        (
          atoi-show_alone m.id h.id_int,
          atoi-show_alone m.price h.price,
          atoi-show_alone m.sold_out (truth-IsInt m.sold_out h.sold_out),
          atoi-show_alone m.popular (truth-IsInt m.popular h.popular),
          fits_whole max_name (sanitize_field m.name) (omega (arith, n, h.name_fits)),
          fits_whole max_category (sanitize_field m.category) (omega (arith, c, h.category_fits)),
          h.sold_out,
          h.popular,
        )
        refl
