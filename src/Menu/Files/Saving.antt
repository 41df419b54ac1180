-- ===== src/Menu/Files/Saving.antt =====
-- `menu_save_file` of src/menu.c, whatever the system answers.
use system_programming_team.Common.{MenuItem, MenuCatalog}
use system_programming_team.Menu.Files.{csv_row, csv_header, write_rows, tmp_path, menu_save_file}
use system_programming_team.Os.Files.{
  is_whole, open_trunc_lem, write_lem, fsync_files, Saves, Saves-err, Saves-rename,
}
use system_programming_team.Os.{World, open_trunc, write, fsync, content_of}
use system_programming_team.Prelude.{
  ◌≡◌, refl, sym, ap, ◌∙◌, List, [], ◌∷◌, ◌++◌, append-nil, append_assoc, true, false, some, Bytes,
  bytes_eq, Bool-cases, inl, inr,
}
use system_programming_team.Text.{fit}

-- The rows of the file.
abbrev pub rows_text : List MenuItem → Bytes
rows_text [] = []
rows_text (m ∷ ms) = fit 512 (csv_row m) ++ rows_text ms

write_rows_lem :
    (ms : List MenuItem) (path c : Bytes) (w : World)
    → w.files path ≡ some c
    → ((write_rows ms path w).0 ≡ true
        → (write_rows ms path w).1.files path ≡ some (c ++ rows_text ms))
      × ((q : Bytes) → bytes_eq q path ≡ false → (write_rows ms path w).1.files q ≡ w.files q)
unfolding write_rows
write_rows_lem [] path c w h = (λ _. h ∙ ap some (sym (append-nil c)), λ q _. refl)
write_rows_lem (m ∷ ms) path c w h =
    let line = fit 512 (csv_row m) in
    let (done, others) = write_lem path line w in
    elim (Bool-cases (is_whole (write path line w).0 line)) [
      | inl e ↦
          let at = done e ∙ ap (λ o. some (content_of o ++ line)) h in
          let (all, rest) = write_rows_lem ms path (c ++ line) (write path line w).1 at in
          rw e (
            λ t. all t ∙ ap some (append_assoc c line (rows_text ms)),
            λ q n. rest q n ∙ others q n,
          )
      | inr e ↦ rw e (λ t. cc, others)
    ]

-- Whatever the system answers, saving the menu leaves in its file the header and a row for each
-- dish if it succeeds, and what the file had before if it fails; no file changes but that one and
-- the temporary one.
pub menu_save_file-Saves :
    (cat : MenuCatalog) (path : Bytes) (w : World)
    → bytes_eq path (tmp_path path) ≡ false
    → Saves path (tmp_path path) (csv_header ++ rows_text cat.items) w (menu_save_file cat path w)
unfolding menu_save_file
menu_save_file-Saves cat path w n =
    let tmp = tmp_path path in
    let (made, other1) = open_trunc_lem tmp w in
    let w1 = (open_trunc tmp w).1 in
    let (put, other2) = write_lem tmp csv_header w1 in
    let w2 = (write tmp csv_header w1).1 in
    elim (Bool-cases (open_trunc tmp w).0) [
      | inr e ↦ rw e (Saves-err path tmp _ w w1 _ n other1)
      | inl e1 ↦ elim (Bool-cases (is_whole (write tmp csv_header w1).0 csv_header)) [
        | inr e ↦ rw (e1, e) (Saves-err path tmp _ w w2 _ n (λ q b. other2 q b ∙ other1 q b))
        | inl e2 ↦
            let at = put e2 ∙ ap (λ o. some (content_of o ++ csv_header)) (made e1) in
            let (all, other3) = write_rows_lem cat.items tmp csv_header w2 at in
            let w3 = (write_rows cat.items tmp w2).1 in
            let same : (q : Bytes) → bytes_eq q tmp ≡ false → w3.files q ≡ w.files q =
              λ q b. other3 q b ∙ other2 q b ∙ other1 q b in
            elim (Bool-cases (write_rows cat.items tmp w2).0) [
              | inr e ↦ rw (e1, e2, e) (Saves-err path tmp _ w w3 _ n same)
              | inl e3 ↦ elim (Bool-cases (fsync w3).0) [
                | inr e ↦
                    rw (e1, e2, e3, e)
                      (Saves-err path tmp _ w (fsync w3).1 _ n
                        (λ q b. ap (λ g. g q) (fsync_files w3) ∙ same q b))
                | inl e4 ↦
                    rw (e1, e2, e3, e4)
                      (Saves-rename path tmp _ w (fsync w3).1 _ n
                        (λ q b. ap (λ g. g q) (fsync_files w3) ∙ same q b)
                        (ap (λ g. g tmp) (fsync_files w3) ∙ all e3))
              ]
            ]
      ]
    ]
