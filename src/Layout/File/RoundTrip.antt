-- ===== src/Layout/File/RoundTrip.antt =====
-- `layout_load` of src/layout.c behind `layout_save`.
use system_programming_team.Layout.File.Saving.{
  active_rows, layout_save-Saves, table_rows-active_rows,
}
use system_programming_team.Layout.File.{
  max_grid_rows, max_grid_cols, layout_of_text, grid_text, table_row, table_rows,
  ensure_layout_file, layout_save, at_most, take_layout, sized_layout, opened_layout, layout_load,
}
use system_programming_team.Layout.{StoreLayout, TablePlacement, layout_init_default}
use system_programming_team.Menu.Files.{tmp_path}
use system_programming_team.Os.{World, fine, stat, open_read, read, next_reply, after_reply}
use system_programming_team.Prelude.{
  ℕ, ◌+◌, ◌≤◌, ◌<◌, ◌≡◌, refl, ap, sym, subst, ◌∙◌, false, List, [], ◌∷◌, ◌++◌, Option, none, some,
  Result, ok, err, arith, length, length-append, take-eq_of_le, Bytes, bytes_eq, leb, ltb,
  Bool-cases, Option-cases, inl, inr,
}
use system_programming_team.Text.Decimal.{show_short}
use system_programming_team.Text.{show, codes, is_true}
use system_programming_team.Layout.File.Grid.{IsGoodLayout, kept, IsInt-of, layout_of_text-read}

-- A text that was saved fits the buffer.
rows_short :
    (tps : List TablePlacement) (body text : Bytes)
    → table_rows tps body ≡ some text
    → length body < 32768
    → length text < 32768
unfolding table_rows
rows_short [] body text h l = ground (arith, h, l)
rows_short (tp ∷ tps) body text h l = elim (Bool-cases (is_true tp.active)) [
  | inr e ↦ rows_short tps body text (ground arith) l
  | inl e ↦ elim (Bool-cases (leb 32768 (length body + length (table_row tp)))) [
    | inl f ↦ absurd (ground arith)
    | inr f ↦
        rows_short tps (body ++ table_row tp) text (ground arith)
          (ground (arith, length-append body (table_row tp)))
  ]
]

calm-next : (w : World) → w.replies ≡ [] → next_reply w ≡ fine
unfolding next_reply
calm-next w r = rw r refl

calm-after : (w : World) → w.replies ≡ [] → after_reply w ≡ w
unfolding after_reply
calm-after w r =
    ap (λ rs. record w { replies = elim rs [ [] ↦ [] | _ ∷ more ↦ more ] }) r
    ∙ ap (λ rs. record w { replies = rs }) (sym r)

calm-stat :
    (path c : Bytes) (w : World)
    → w.replies ≡ []
    → w.files path ≡ some c
    → stat path w ≡ (some (length c), w)
unfolding stat
calm-stat path c w r f = rw (calm-next w r, calm-after w r, stat) (rw f refl)

calm-open :
    (path c : Bytes) (w : World)
    → w.replies ≡ []
    → w.files path ≡ some c
    → open_read path w ≡ (some c, w)
unfolding open_read
calm-open path c w r f = rw (calm-next w r, calm-after w r, open_read) (rw f refl)

calm-read :
    (c : Bytes) (w : World)
    → w.replies ≡ []
    → length c ≤ 65536
    → read (at_most 65536 (length c)) c w ≡ (some c, w)
unfolding read
calm-read c w r l =
    let whole : at_most 65536 (length c) ≡ length c =
      let e : ltb 65536 (length c) ≡ false = ground (arith, l) in rw e refl in
    rw (whole, calm-next w r, calm-after w r, read)
      (ap (λ t. (some t, w)) (take-eq_of_le (length c) c (omega arith)))

calm-ensure :
    (path c : Bytes) (w : World)
    → w.replies ≡ []
    → w.files path ≡ some c
    → ensure_layout_file path w ≡ w
unfolding ensure_layout_file
calm-ensure path c w r f =
    ap
      (λ (v : Option ℕ × World). elim v.0 [
        | some _ ↦ v.1
        | none ↦ (layout_save path layout_init_default v.1).1
      ])
      (calm-stat path c w r f)

-- What is loaded where every call of the system succeeds.
load_calm :
    (path text : Bytes) (w : World) (layout : StoreLayout)
    → w.replies ≡ []
    → w.files path ≡ some text
    → length text ≤ 65536
    → layout_of_text text ≡ some layout
    → (layout_load path w).0 ≡ some (ok layout)
unfolding layout_load opened_layout sized_layout take_layout
load_calm path text w layout r f l h =
    let take_text : Option StoreLayout → Option (Result StoreLayout) =
      λ o. elim o [ none ↦ none | some x ↦ some (ok x) ] in
    ap (λ v. (opened_layout path v.error_text (open_read path v)).0) (calm-ensure path text w r f)
    ∙ ap (λ v. (opened_layout path w.error_text v).0) (calm-open path text w r f)
    ∙ ap (λ v. (sized_layout text v).0) (calm-stat path text w r f)
    ∙ ap (λ v. (take_layout v).0) (calm-read text w r l)
    ∙ ap take_text h

grid_short : (layout : StoreLayout) → IsGoodLayout layout → length (grid_text layout) < 32768
unfolding grid_text
grid_short layout g =
    let i = IsInt-of max_grid_rows layout.grid_rows (omega arith) g.some_row g.rows in
    let j = IsInt-of max_grid_cols layout.grid_cols (omega arith) g.some_col g.cols in
    omega (
      arith,
      length-append (show layout.grid_rows)
          (b'\n' ∷ codes "grid_cols=" ++ (show layout.grid_cols ++ b'\n' ∷ [])),
      length-append (show layout.grid_cols) (b'\n' ∷ []),
      show_short layout.grid_rows i,
      show_short layout.grid_cols j,
    )

saved_text :
    (path : Bytes) (layout : StoreLayout) (w : World)
    → (layout_save path layout w).0 ≡ ok tt
    → IsGoodLayout layout
    → length (grid_text layout ++ active_rows layout.tables) ≤ 65536
unfolding layout_save
saved_text path layout w h g = elim (Option-cases (table_rows layout.tables (grid_text layout))) [
  | inl e ↦
      let no : layout_save path layout w ≡ (err (codes "layout buffer full"), w) =
        rw (e, layout_save) refl in
      absurd (ground (arith, no, h))
  | inr (body, e) ↦
      let t = table_rows-active_rows layout.tables (grid_text layout) body e in
      subst (λ s. length s ≤ 65536) t
        (omega (arith, rows_short layout.tables (grid_text layout) body e (grid_short layout g)))
]

-- A layout with good settings and tables that was saved is loaded, by a system that answers every
-- call and left the file alone, with its grid and its active tables, in order.
pub layout_save-load :
    (path : Bytes) (layout : StoreLayout) (w w' : World)
    → bytes_eq path (tmp_path path) ≡ false
    → IsGoodLayout layout
    → (layout_save path layout w).0 ≡ ok tt
    → w'.files path ≡ (layout_save path layout w).1.files path
    → w'.replies ≡ []
    → (layout_load path w').0 ≡ some (ok (kept layout))
layout_save-load path layout w w' n g h f r =
    load_calm path (grid_text layout ++ active_rows layout.tables) w' (kept layout) r
      (f ∙ (layout_save-Saves path layout w n).0.0 h) (saved_text path layout w h g)
      (layout_of_text-read layout g)
