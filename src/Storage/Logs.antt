-- ===== src/Storage/Logs.antt =====
-- Appending to a log.
use system_programming_team.Os.Files.{is_whole, open_append_lem, write_lem, fsync_files}
use system_programming_team.Os.{World, open_append, write, content_of}
use system_programming_team.Prelude.{
  ◌≡◌, ap, ◌∙◌, ◌++◌, false, some, Result, ok, Bytes, bytes_eq, Bool-cases, inl, inr,
}
use system_programming_team.Storage.{
  append_file, storage_append_orders_log, storage_append_sales_log, storage_append_server_log,
}

-- An append: on success the line stands behind what the file had, and no other file changes.
abbrev pub Appends : Bytes → Bytes → World → Result (Unit {0}) × World → Type 0
Appends path line w r =
    (r.0 ≡ ok tt → r.1.files path ≡ some (content_of (w.files path) ++ line))
    × ((q : Bytes) → bytes_eq q path ≡ false → r.1.files q ≡ w.files q)

append_file-Appends :
    (path line : Bytes) (w : World) → Appends path line w (append_file path line w)
unfolding append_file
append_file-Appends path line w =
    let (made, other1) = open_append_lem path w in
    let w1 = (open_append path w).1 in
    let (put, other2) = write_lem path line w1 in
    let w2 = (write path line w1).1 in
    elim (Bool-cases (open_append path w).0) [
      | inr e ↦ rw e (λ h. cc, other1)
      | inl e1 ↦ elim (Bool-cases (is_whole (write path line w1).0 line)) [
        | inr e ↦ rw (e1, e) (λ h. cc, λ q b. other2 q b ∙ other1 q b)
        | inl e2 ↦
            rw (e1, e2)
              (
                λ _.
                    ap (λ g. g path) (fsync_files w2)
                    ∙ put e2
                    ∙ ap (λ o. some (content_of o ++ line)) (made e1),
                λ q b. ap (λ g. g q) (fsync_files w2) ∙ other2 q b ∙ other1 q b,
              )
      ]
    ]

-- Whatever the system answers, each of the three functions that append to a log leaves the line
-- behind what its file had if it succeeds, and changes no other file.
pub append_logs-Appends :
    (path line : Bytes) (w : World)
    → Appends path line w (storage_append_orders_log path line w)
      × Appends path line w (storage_append_sales_log path line w)
      × Appends path line w (storage_append_server_log path line w)
unfolding storage_append_orders_log storage_append_sales_log storage_append_server_log
append_logs-Appends path line w = let a = append_file-Appends path line w in (a, a, a)
