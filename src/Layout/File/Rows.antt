-- ===== src/Layout/File/Rows.antt =====
-- The rows of the tables in the layout's file, as `layout_load` reads them.
use system_programming_team.Common.{max_tables}
use system_programming_team.Layout.File.Keys.{
  IsWord, IsWord-Lacks, scan_word-whole, scan_int-show, keys_loop-skip, keys_loop-last,
  keys_loop-key, lines_from-line,
}
use system_programming_team.Layout.File.Saving.{active_rows}
use system_programming_team.Layout.File.{
  TableKeys, scan_word, take_key, keys_loop, line_keys, table_line, table_row, layout_line,
  layout_lines, lines_from, or_old,
}
use system_programming_team.Layout.{
  StoreLayout, TablePlacement, TableZone, inside, outside, layout_zone_name,
  layout_zone_from_string,
}
use system_programming_team.Prelude.{
  ℕ, ◌+◌, ◌≤◌, ◌<◌, ◌≡◌, ◌≢◌, refl, ap, sym, ◌∙◌, false, ◌==◌, List, [], ◌∷◌, ◌++◌, append-nil,
  append_assoc, Option, some, arith, length, length-append, take-eq_of_le, All, All-append, Lacks,
  Bytes, ℤ, pos, IsInt, if◌then◌else◌, leb, Bool-cases, inl, inr,
}
use system_programming_team.Text.Decimal.{show-Lacks}
use system_programming_team.Text.{show, codes, is_true, fit}

-- A table that the file can hold.
pub record IsGoodTable (tp : TablePlacement) : Type 0 where
  pub id : IsInt tp.table_id
  pub row : IsInt tp.row
  pub col : IsInt tp.col
  pub some_label : tp.label ≢ []
  pub short : length tp.label ≤ 15
  pub word : IsWord tp.label

-- The keys behind the id of a row, then `tail`.
abbrev pub keys_text : TablePlacement → Bytes → Bytes
keys_text tp tail =
    codes " zone="
    ++ (layout_zone_name tp.zone
        ++ (codes " row="
            ++ (show tp.row
                ++ (codes " col=" ++ (show tp.col ++ (codes " label=" ++ (tp.label ++ tail)))))))

abbrev pub keys_of : TablePlacement → TableKeys
keys_of tp = record {
  zonebuf = layout_zone_name tp.zone;
  row = tp.row;
  col = tp.col;
  labelbuf = tp.label;
}

abbrev no_keys : TableKeys
no_keys = record { zonebuf = []; row = pos 0; col = pos 0; labelbuf = [] }

zone-word :
    (z : TableZone)
    → (layout_zone_name z ≢ [])
      × (length (layout_zone_name z) ≤ 15)
      × IsWord (layout_zone_name z)
      × Lacks 32 (layout_zone_name z)
unfolding layout_zone_name
zone-word outside = ((λ e. cc), omega arith, ground arith, omega arith)
zone-word inside = ((λ e. cc), omega arith, ground arith, omega arith)

-- A key with its value is taken, and the loop is at the space behind it.
key_step :
    (key value rest : Bytes) (d : ℕ) (t u : TableKeys)
    → (d == 32) ≡ false
    → Lacks 32 (d ∷ key ++ value)
    → take_key ((d ∷ key ++ value) ++ 32 ∷ rest) t ≡ u
    → keys_loop (32 ∷ (d ∷ key ++ value) ++ 32 ∷ rest) t ≡ keys_loop (32 ∷ rest) u
key_step key value rest d t u e l h =
    keys_loop-key d ((key ++ value) ++ 32 ∷ rest) t e
    ∙ ap (keys_loop ((d ∷ key ++ value) ++ 32 ∷ rest)) h
    ∙ keys_loop-skip (d ∷ key ++ value) rest u l

show-Lacks_space : (a : ℤ) → Lacks 32 (show a)
show-Lacks_space a = show-Lacks 32 a refl (omega arith)

zone_key :
    (z : TableZone) (rest : Bytes) (t : TableKeys)
    → keys_loop (codes " zone=" ++ (layout_zone_name z ++ 32 ∷ rest)) t
      ≡ keys_loop (32 ∷ rest) (record t { zonebuf = layout_zone_name z })
zone_key z rest t =
    let (n, l, w, k) = zone-word z in
    key_step (codes "one=") (layout_zone_name z) rest b'z' t _ refl
      (All-append (λ c. c ≢ 32) (codes "zone=") (layout_zone_name z) (omega arith) k)
      (unfold take_key in
        ap (λ s. record t { zonebuf = s })
          (scan_word-whole (layout_zone_name z) (32 ∷ rest) t.zonebuf n l w refl))

row_key :
    (a : ℤ) (rest : Bytes) (t : TableKeys)
    → IsInt a
    → keys_loop (codes " row=" ++ (show a ++ 32 ∷ rest)) t
      ≡ keys_loop (32 ∷ rest) (record t { row = a })
row_key a rest t h =
    key_step (codes "ow=") (show a) rest b'r' t _ refl
      (All-append (λ c. c ≢ 32) (codes "row=") (show a) (omega arith) (show-Lacks_space a))
      (unfold take_key in ap (λ s. record t { row = s }) (scan_int-show a t.row (32 ∷ rest) h refl))

col_key :
    (a : ℤ) (rest : Bytes) (t : TableKeys)
    → IsInt a
    → keys_loop (codes " col=" ++ (show a ++ 32 ∷ rest)) t
      ≡ keys_loop (32 ∷ rest) (record t { col = a })
col_key a rest t h =
    key_step (codes "ol=") (show a) rest b'c' t _ refl
      (All-append (λ c. c ≢ 32) (codes "col=") (show a) (omega arith) (show-Lacks_space a))
      (unfold take_key in ap (λ s. record t { col = s }) (scan_int-show a t.col (32 ∷ rest) h refl))

label_key :
    (tp : TablePlacement) (t : TableKeys)
    → IsGoodTable tp
    → keys_loop (codes " label=" ++ tp.label) t ≡ (record t { labelbuf = tp.label }, false)
label_key tp t g =
    let taken : take_key (codes "label=" ++ tp.label) t ≡ record t { labelbuf = tp.label } =
      unfold take_key in
      ap (λ s. record t { labelbuf = s })
        (ap (λ s. scan_word s t.labelbuf) (sym (append-nil tp.label))
          ∙ scan_word-whole tp.label [] t.labelbuf g.some_label g.short g.word tt) in
    keys_loop-key b'l' (codes "abel=" ++ tp.label) t refl
    ∙ ap (keys_loop (codes "label=" ++ tp.label)) taken
    ∙ keys_loop-last (codes "label=" ++ tp.label) (record t { labelbuf = tp.label })
        (All-append (λ c. c ≢ 32) (codes "label=") tp.label (omega arith)
          (IsWord-Lacks 32 tp.label refl g.word))

keys-read :
    (tp : TablePlacement)
    → IsGoodTable tp
    → keys_loop (show tp.table_id ++ keys_text tp []) no_keys ≡ (keys_of tp, false)
keys-read tp g =
    ap
      (λ l.
        keys_loop
          (show tp.table_id
            ++ (codes " zone="
                ++ (layout_zone_name tp.zone
                    ++ (codes " row="
                        ++ (show tp.row
                            ++ (codes " col=" ++ (show tp.col ++ (codes " label=" ++ l))))))))
          no_keys)
      (append-nil tp.label)
    ∙ keys_loop-skip (show tp.table_id) _ no_keys (show-Lacks_space tp.table_id)
    ∙ zone_key tp.zone _ no_keys
    ∙ row_key tp.row _ _ g.row
    ∙ col_key tp.col _ _ g.col
    ∙ label_key tp _ g

-- What a table is after its row was read.
abbrev pub read_table : TablePlacement → TablePlacement
read_table tp = record tp { active = pos 1 }

zone-read : (z : TableZone) → layout_zone_from_string (some (layout_zone_name z)) ≡ z
unfolding layout_zone_from_string layout_zone_name
zone-read outside = refl
zone-read inside = refl

old_label : (l other : Bytes) → l ≢ [] → or_old l other ≡ l
old_label [] other h = absurd (h refl)
old_label (c ∷ s) other h = refl

table_line-read :
    (tp : TablePlacement) (behind : Option Bytes)
    → IsGoodTable tp
    → table_line (show tp.table_id ++ keys_text tp []) behind ≡ some (read_table tp)
unfolding table_line line_keys
table_line-read tp behind g =
    let made : ℤ → TableZone → Bytes → Option TablePlacement =
      λ id z l. some (record tp { table_id = id; zone = z; label = l; active = pos 1 }) in
    rw (keys-read tp g, table_line, line_keys)
      (ap
          (λ id.
            made id (layout_zone_from_string (some (layout_zone_name tp.zone)))
              (fit 16 (or_old tp.label (b'T' ∷ show id))))
          (scan_int-show tp.table_id (pos 0) (keys_text tp []) g.id refl)
        ∙ ap (λ z. made tp.table_id z (fit 16 (or_old tp.label (b'T' ∷ show tp.table_id))))
            (zone-read tp.zone)
        ∙ ap (λ l. made tp.table_id tp.zone (fit 16 l)) (old_label tp.label _ g.some_label)
        ∙ ap (made tp.table_id tp.zone) (take-eq_of_le 15 tp.label g.short))

-- The line of a table, without its end.
abbrev pub table_text : TablePlacement → Bytes
table_text tp = codes "table=" ++ (show tp.table_id ++ keys_text tp [])

table_row-text :
    (tp : TablePlacement) (rest : Bytes) → table_row tp ++ rest ≡ table_text tp ++ b'\n' ∷ rest
unfolding table_row
table_row-text tp rest = simp (append_assoc)

table_text-Lacks : (tp : TablePlacement) → IsGoodTable tp → Lacks b'\n' (table_text tp)
table_text-Lacks tp g =
    let p = λ (x : ℕ). x ≢ b'\n' in
    let number : (a : ℤ) → Lacks b'\n' (show a) = λ a. show-Lacks b'\n' a refl (omega arith) in
    let (n, l, w, k) = zone-word tp.zone in
    All-append p (codes "table=") _ (omega arith) (
      All-append p (show tp.table_id) _ (number tp.table_id) (
        All-append p (codes " zone=") _ (omega arith) (
          All-append p (layout_zone_name tp.zone) _ (IsWord-Lacks b'\n' _ refl w) (
            All-append p (codes " row=") _ (omega arith) (
              All-append p (show tp.row) _ (number tp.row) (
                All-append p (codes " col=") _ (omega arith) (
                  All-append p (show tp.col) _ (number tp.col) (
                    All-append p (codes " label=") _ (omega arith)
                      (All-append p tp.label [] (IsWord-Lacks b'\n' _ refl g.word) tt)))))))))

-- The tables that a file keeps, as they are when it is read.
abbrev pub kept_tables : List TablePlacement → List TablePlacement
kept_tables [] = []
kept_tables (tp ∷ tps) =
    if is_true tp.active then read_table tp ∷ kept_tables tps else kept_tables tps

row-read :
    (tp : TablePlacement) (rest : Bytes) (layout : StoreLayout)
    → IsGoodTable tp
    → length layout.tables < max_tables
    → layout_lines (lines_from [] (table_row tp ++ rest)) layout
      ≡ layout_lines
          (lines_from [] rest)
          (record layout { tables = layout.tables ++ read_table tp ∷ [] })
unfolding layout_lines layout_line
row-read tp rest layout g h =
    let room : leb max_tables (length layout.tables) ≡ false = ground (arith, h) in
    rw
      (
        table_row-text tp rest,
        lines_from-line (table_text tp) rest (λ e. cc) (table_text-Lacks tp g),
        layout_lines,
        layout_line,
      )
      (rw (room, table_line-read tp (some rest) g) refl)

pub rows-read :
    (tps : List TablePlacement) (layout : StoreLayout)
    → All IsGoodTable tps
    → length layout.tables + length tps ≤ max_tables
    → layout_lines (lines_from [] (active_rows tps)) layout
      ≡ some (record layout { tables = layout.tables ++ kept_tables tps })
unfolding layout_lines lines_from
rows-read [] layout a h =
    ap (λ ts. some (record layout { tables = ts })) (sym (append-nil layout.tables))
rows-read (tp ∷ tps) layout a h = elim (Bool-cases (is_true tp.active)) [
  | inr e ↦ rw e (rows-read tps layout a.1 (omega (arith, h)))
  | inl e ↦
      let added = layout.tables ++ read_table tp ∷ [] in
      rw e (
        row-read tp (active_rows tps) layout a.0 (omega (arith, h))
        ∙ rows-read tps (record layout { tables = added }) a.1
            (omega (arith, h, length-append layout.tables (read_table tp ∷ [])))
        ∙ ap (λ ts. some (record layout { tables = ts }))
            (append_assoc layout.tables (read_table tp ∷ []) (kept_tables tps)))
]
