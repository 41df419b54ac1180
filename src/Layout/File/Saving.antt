-- ===== src/Layout/File/Saving.antt =====
-- `layout_save` of src/layout.c, whatever the system answers.
use system_programming_team.Layout.{StoreLayout, TablePlacement}
use system_programming_team.Layout.File.{grid_text, table_row, table_rows, store_body, layout_save}
use system_programming_team.Menu.Files.{tmp_path}
use system_programming_team.Os.Files.{
  is_whole, open_trunc_lem, write_lem, fsync_files, Saves, Saves-err, Saves-rename,
}
use system_programming_team.Os.{
  World, open_trunc, write, fsync, rename, next_reply, after_reply, content_of,
}
use system_programming_team.Prelude.{
  Option, Result, ok, ==_self, bytes_eq_self, ◌<◌, ◌≤◌, sym, length-append, none, err, ◌+◌, ◌≡◌,
  refl, ap, subst, ◌∙◌, false, List, [], ◌∷◌, ◌++◌, append-nil, append_assoc, some, leb, length,
  Bytes, bytes_eq, Bool-cases, Option-cases, inl, inr, arith, if◌then◌else◌,
}
use system_programming_team.Text.{is_true, codes}

-- The rows of the active tables.
abbrev pub active_rows : List TablePlacement → Bytes
active_rows [] = []
active_rows (tp ∷ tps) =
    if is_true tp.active then table_row tp ++ active_rows tps else active_rows tps

pub table_rows-active_rows :
    (tps : List TablePlacement) (body text : Bytes)
    → table_rows tps body ≡ some text
    → text ≡ body ++ active_rows tps
unfolding table_rows
table_rows-active_rows [] body text h = ground (arith, append-nil body)
table_rows-active_rows (tp ∷ tps) body text h = elim (Bool-cases (is_true tp.active)) [
  | inr e ↦ rw e (table_rows-active_rows tps body text (ground arith))
  | inl e ↦ elim (Bool-cases (leb 32768 (length body + length (table_row tp)))) [
    | inl f ↦ absurd (ground arith)
    | inr f ↦ rw e (
        table_rows-active_rows tps (body ++ table_row tp) text (ground arith)
        ∙ append_assoc body (table_row tp) (active_rows tps))
  ]
]

store_body-Saves :
    (path body : Bytes) (w : World)
    → bytes_eq path (tmp_path path) ≡ false
    → Saves path (tmp_path path) body w (store_body path body w)
unfolding store_body
store_body-Saves path body w n =
    let tmp = tmp_path path in
    let (made, other1) = open_trunc_lem tmp w in
    let w1 = (open_trunc tmp w).1 in
    let (put, other2) = write_lem tmp body w1 in
    let w2 = (write tmp body w1).1 in
    let w3 = (fsync w2).1 in
    let same : (q : Bytes) → bytes_eq q tmp ≡ false → w3.files q ≡ w.files q =
      λ q b. ap (λ g. g q) (fsync_files w2) ∙ other2 q b ∙ other1 q b in
    elim (Bool-cases (open_trunc tmp w).0) [
      | inr e ↦ rw e (Saves-err path tmp _ w w1 _ n other1)
      | inl e1 ↦ elim (Bool-cases (is_whole (write tmp body w1).0 body)) [
        | inr e ↦ rw (e1, e) (Saves-err path tmp _ w w3 _ n same)
        | inl e2 ↦
            rw (e1, e2)
              (Saves-rename path tmp _ w w3 _ n same (
                ap (λ g. g tmp) (fsync_files w2)
                ∙ put e2
                ∙ ap (λ o. some (content_of o ++ body)) (made e1)))
      ]
    ]

rows_full :
    (tps : List TablePlacement) (body : Bytes)
    → length body < 32768
    → 32768 ≤ length (body ++ active_rows tps)
    → table_rows tps body ≡ none
unfolding table_rows
rows_full [] body l h = absurd (omega (arith, l, h, length-append body []))
rows_full (tp ∷ tps) body l h = elim (Bool-cases (is_true tp.active)) [
  | inr e ↦
      let rest : 32768 ≤ length (body ++ active_rows tps) =
        subst
          (λ b.
            32768
            ≤ length (body ++ (if b then table_row tp ++ active_rows tps else active_rows tps)))
          e h in
      rw e (rows_full tps body l rest)
  | inl e ↦ elim (Bool-cases (leb 32768 (length body + length (table_row tp)))) [
    | inl f ↦ rw (e, f) refl
    | inr f ↦
        let all : 32768 ≤ length (body ++ (table_row tp ++ active_rows tps)) =
          subst
            (λ b.
              32768
              ≤ length (body ++ (if b then table_row tp ++ active_rows tps else active_rows tps)))
            e h in
        let rest : 32768 ≤ length ((body ++ table_row tp) ++ active_rows tps) =
          subst (λ s. 32768 ≤ length s) (sym (append_assoc body (table_row tp) (active_rows tps)))
            all in
        rw e (
          rw f (
            rows_full tps (body ++ table_row tp)
              (ground (arith, f, length-append body (table_row tp))) rest))
  ]
]

layout_save-full :
    (path : Bytes) (layout : StoreLayout) (w : World)
    → length (grid_text layout) < 32768
    → 32768 ≤ length (grid_text layout ++ active_rows layout.tables)
    → layout_save path layout w ≡ (err (codes "layout buffer full"), w)
unfolding layout_save
layout_save-full path layout w l h =
    let full = rows_full layout.tables (grid_text layout) l h in rw (full, layout_save) refl

layout_save-replaces :
    (path : Bytes) (layout : StoreLayout) (w : World)
    → bytes_eq path (tmp_path path) ≡ false
    → Saves path
        (tmp_path path)
        (grid_text layout ++ active_rows layout.tables)
        w
        (layout_save path layout w)
unfolding layout_save
layout_save-replaces path layout w n =
    elim (Option-cases (table_rows layout.tables (grid_text layout))) [
      | inl e ↦ rw (e, layout_save) (Saves-err path (tmp_path path) _ w w _ n (λ q b. refl))
      | inr (body, e) ↦
          rw (e, layout_save)
            (subst (λ t. Saves path (tmp_path path) t w (store_body path body w))
              (table_rows-active_rows layout.tables (grid_text layout) body e)
              (store_body-Saves path body w n))
    ]

rows_fit :
    (tps : List TablePlacement) (body : Bytes)
    → length (body ++ active_rows tps) < 32768
    → table_rows tps body ≡ some (body ++ active_rows tps)
unfolding table_rows
rows_fit [] body h = ap some (sym (append-nil body))
rows_fit (tp ∷ tps) body h = elim (Bool-cases (is_true tp.active)) [
  | inr e ↦
      let rest : length (body ++ active_rows tps) < 32768 =
        subst
          (λ b.
            length (body ++ (if b then table_row tp ++ active_rows tps else active_rows tps))
            < 32768)
          e h in
      rw e (rows_fit tps body rest)
  | inl e ↦
      let all : length (body ++ (table_row tp ++ active_rows tps)) < 32768 =
        subst
          (λ b.
            length (body ++ (if b then table_row tp ++ active_rows tps else active_rows tps))
            < 32768)
          e h in
      let assoc = append_assoc body (table_row tp) (active_rows tps) in
      let rest : length ((body ++ table_row tp) ++ active_rows tps) < 32768 =
        subst (λ s. length s < 32768) (sym assoc) all in
      let room : leb 32768 (length body + length (table_row tp)) ≡ false = ground (
        arith,
        rest,
        length-append (body ++ table_row tp) (active_rows tps),
        length-append body (table_row tp),
      ) in
      rw e (rw room (rows_fit tps (body ++ table_row tp) rest ∙ ap some assoc))
]

-- A system that answers every call.
store_body-calm :
    (path body : Bytes) (w : World) → w.replies ≡ [] → (store_body path body w).0 ≡ ok tt
unfolding store_body open_trunc write fsync rename next_reply after_reply
store_body-calm path body w r =
    let tmp = tmp_path path in
    let calm : World = record w { replies = [] } in
    let same : w ≡ calm = ap (λ x. record w { replies = x }) r in
    ap (λ v. (store_body path body v).0) same ∙ rw (==_self (length body), bytes_eq_self tmp) refl

layout_save-calm :
    (path : Bytes) (layout : StoreLayout) (w : World)
    → length (grid_text layout ++ active_rows layout.tables) < 32768
    → w.replies ≡ []
    → (layout_save path layout w).0 ≡ ok tt
unfolding layout_save
layout_save-calm path layout w h r =
    let fits = rows_fit layout.tables (grid_text layout) h in
    let text = grid_text layout ++ active_rows layout.tables in
    let saves : Option Bytes → Result (Unit {0}) = λ x.
      (elim x as (λ _. Result (Unit {0}) × World) [
        | none ↦ (err (codes "layout buffer full"), w)
        | some body ↦ store_body path body w
      ]).0 in
    ap saves fits ∙ store_body-calm path text w r

-- Whatever the system answers, and if a path is not the one of its temporary file, saving the layout
-- leaves in its file the grid and a row for each active table if it succeeds, and what the file had
-- before if it fails; no file changes but that one and the temporary one. It succeeds if the text has fewer than 32768 bytes and the system
-- answers every call; if it has 32768 or more, and the grid's settings alone have fewer, it fails and
-- changes nothing.
pub layout_save-Saves :
    (path : Bytes) (layout : StoreLayout) (w : World)
    → bytes_eq path (tmp_path path) ≡ false
    → Saves path
        (tmp_path path)
        (grid_text layout ++ active_rows layout.tables)
        w
        (layout_save path layout w)
      × (length (grid_text layout ++ active_rows layout.tables) < 32768
          → w.replies ≡ []
          → (layout_save path layout w).0 ≡ ok tt)
      × (length (grid_text layout) < 32768
          → 32768 ≤ length (grid_text layout ++ active_rows layout.tables)
          → layout_save path layout w ≡ (err (codes "layout buffer full"), w))
layout_save-Saves path layout w n = (
  layout_save-replaces path layout w n,
  layout_save-calm path layout w,
  layout_save-full path layout w,
)
