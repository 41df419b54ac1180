-- ===== src/Storage.antt =====
-- include/storage.h and src/storage.c: the configuration, its file, the logs and their last part.
pub mod Config
pub mod Logs
use system_programming_team.Common.{max_tables}
use system_programming_team.Os.Files.{is_whole}
use system_programming_team.Os.{
  World, is_fine, next_reply, after_reply, stat, open_read, read, open_trunc, open_append, write,
  fsync, rename,
}
use system_programming_team.Prelude.{
  ℕ, suc, ◌+◌, ◌-◌, ◌==◌, Bool, true, false, ◌||◌, not, List, [], ◌∷◌, ◌++◌, Option, none, some,
  Result, ok, err, ltb, leb, if◌then◌else◌, length, take, drop, Bytes, ℤ, pos, leb_ℤ, ltb_ℤ,
}
use system_programming_team.Protocol.{sub_size}
use system_programming_team.Text.{codes, fit, after_prefix, tokens, atoi, show}

pub record StoreConfig : Type 0 where
  pub max_tables : ℤ
  pub next_order_id : ℤ

-- A call such as `malloc` or `lseek` that can only succeed or fail.
abbrev pub try : World → Bool × World
try w = (is_fine (next_reply w), after_reply w)

-- The last `outsiz - 1` bytes of a file.
unfoldable pub storage_read_tail : Bytes → ℕ → World → Result Bytes × World
unfolding stat open_read read next_reply after_reply
storage_read_tail path outsiz w =
    let (st, w1) = stat path w in
    let (fd, w2) = open_read path w1 in
    let (sought, w3) = try w2 in
    elim st [
      | none ↦ (err (codes "stat tail: " ++ w.error_text), w1)
      | some size ↦ elim fd [
        | none ↦ (err (codes "open tail"), w2)
        | some content ↦
            if not sought
            then (err (codes "lseek tail failed"), w3)
            else (let (rd, w4) = read (sub_size outsiz 1) (drop (size - (outsiz - 1)) content) w3 in
                elim rd [ none ↦ (err (codes "read tail failed"), w4) | some s ↦ (ok s, w4) ])
      ]
    ]

unfoldable pub write_entire_file : Bytes → Bytes → World → World
unfolding open_trunc write fsync
write_entire_file path text w =
    let (opened, w1) = open_trunc path w in if opened then (fsync (write path text w1).1).1 else w1

abbrev pub default_config : Bytes
default_config =
    codes "# tables=N sets seat count\n# next_order_id starts from 1\ntables=8\nnext_order_id=1\n"

unfoldable pub ensure_defaults : Bytes → World → World
unfolding stat write_entire_file
ensure_defaults path w =
    let (st, w1) = stat path w in
    elim st [ some _ ↦ w1 | none ↦ write_entire_file path default_config w1 ]

abbrev pub is_comment : Bytes → Bool
is_comment [] = true
is_comment (c ∷ s) = c == b'#'

-- One line of the file.
unfoldable pub config_line : Bytes → StoreConfig → StoreConfig
unfolding atoi
config_line line cfg = if is_comment line then cfg else elim (after_prefix (codes "tables=") line) [
  | some s ↦ record cfg { max_tables = atoi s }
  | none ↦ elim (after_prefix (codes "next_order_id=") line) [
    | some s ↦ record cfg { next_order_id = atoi s }
    | none ↦ cfg
  ]
]

-- The loop over the lines of the file.
unfoldable pub config_lines : List Bytes → StoreConfig → StoreConfig
unfolding config_line
config_lines [] cfg = cfg
config_lines (line ∷ lines) cfg = config_lines lines (config_line line cfg)

abbrev pub default_cfg : StoreConfig
default_cfg = record { max_tables = pos 8; next_order_id = pos 1 }

-- The checks behind the loop.
abbrev pub checked : StoreConfig → StoreConfig
checked cfg = record {
  max_tables =
      if leb_ℤ cfg.max_tables (pos 0) || ltb_ℤ (pos max_tables) cfg.max_tables
      then pos 8
      else cfg.max_tables;
  next_order_id = if leb_ℤ cfg.next_order_id (pos 0) then pos 1 else cfg.next_order_id;
}

unfoldable pub config_of_text : Bytes → StoreConfig
unfolding tokens config_lines
config_of_text text = checked (config_lines (tokens b'\n' text) default_cfg)

unfoldable pub storage_load_config : Bytes → World → Result StoreConfig × World
unfolding ensure_defaults open_read stat read config_of_text next_reply after_reply
storage_load_config path w =
    let (fd, w1) = open_read path (ensure_defaults path w) in
    let (st, w2) = stat path w1 in
    let (made, w3) = try w2 in
    elim fd [
      | none ↦ (err (codes "open config: " ++ w.error_text), w1)
      | some content ↦ elim st [
        | none ↦ (err (codes "stat config failed"), w2)
        | some size ↦
            if not made
            then (err (codes "oom"), w3)
            else (let (rd, w4) = read (if ltb 65536 size then 65536 else size) content w3 in
                elim rd [
                  | none ↦ (err (codes "read config"), w4)
                  | some buf ↦ (ok (config_of_text buf), w4)
                ])
      ]
    ]

-- What `memcpy (out, tmp, n)` copies after `n = snprintf (tmp, 512, …)`; none where it reads past
-- the end of `tmp`.
abbrev pub through_tmp : Bytes → Option Bytes
through_tmp text =
    if ltb (length text) 512
    then some text
    else if length text == 512
    then some (fit 512 text ++ 0 ∷ [])
    else none

-- The line that is written for a line of the file.
abbrev pub new_line : StoreConfig → Bytes → Bytes
new_line cfg line =
    if is_comment line then line ++ b'\n' ∷ [] else elim (after_prefix (codes "tables=") line) [
      | some _ ↦ codes "tables=" ++ (show cfg.max_tables ++ b'\n' ∷ [])
      | none ↦ elim (after_prefix (codes "next_order_id=") line) [
        | some _ ↦ codes "next_order_id=" ++ (show cfg.next_order_id ++ b'\n' ∷ [])
        | none ↦ line ++ b'\n' ∷ []
      ]
    ]

abbrev pub found : Option Bytes → Bool
found none = false
found (some s) = true

abbrev pub sets_tables : Bytes → Bool
sets_tables line = if is_comment line then false else found (after_prefix (codes "tables=") line)

abbrev pub sets_next : Bytes → Bool
sets_next line =
    if is_comment line
    then false
    else if found (after_prefix (codes "tables=") line)
    then false
    else found (after_prefix (codes "next_order_id=") line)

-- The loop of `rewrite_config_lines`: the text so far, `saw_tables` and `saw_next`. It ends early
-- when the buffer of 8192 bytes is full.
unfoldable pub rewrite_loop :
    StoreConfig → List Bytes → Bytes → Bool → Bool → Option (Bytes × Bool × Bool)
unfolding show
rewrite_loop cfg [] out t n = some (out, t, n)
rewrite_loop cfg (line ∷ lines) out t n =
    let text = new_line cfg line in
    let t' = sets_tables line || t in
    let n' = sets_next line || n in
    if leb 8192 (length out + length text)
    then some (out, t', n')
    else elim (through_tmp text) [ none ↦ none | some s ↦ rewrite_loop cfg lines (out ++ s) t' n' ]

-- `opos += snprintf (outbuf + opos, sizeof outbuf - opos, …)`; none where the later `write` reads
-- past the end of `outbuf`.
abbrev pub put_tail : Bytes → Bytes → Option Bytes
put_tail out text =
    if ltb (length out + length text) 8192
    then some (out ++ text)
    else if length out + length text == 8192
    then some (take 8191 (out ++ text) ++ 0 ∷ [])
    else none

abbrev pub put_missing : Bool → Option Bytes → Bytes → Option Bytes
put_missing true out text = out
put_missing false none text = none
put_missing false (some out) text = put_tail out text

-- The text that is written for the text of the file; none is undefined behaviour.
unfoldable pub rewrite_text : StoreConfig → Bytes → Option Bytes
unfolding rewrite_loop tokens show
rewrite_text cfg text = elim (rewrite_loop cfg (tokens b'\n' (fit 8192 text)) [] false false) [
  | none ↦ none
  | some (out, t, n) ↦
      put_missing n
        (put_missing t (some out) (codes "tables=" ++ (show cfg.max_tables ++ b'\n' ∷ [])))
        (codes "next_order_id=" ++ (show cfg.next_order_id ++ b'\n' ∷ []))
]

abbrev pub fresh_config : Bytes
fresh_config =
    codes
      "# tables=N sets seat count\n# next_order_id persists counters\ntables=8\nnext_order_id=1\n"

-- The text that `rewrite_config_lines` starts from.
unfoldable pub old_config : Bytes → World → Result Bytes × World
unfolding stat open_read read next_reply after_reply
old_config path w =
    let (st, w1) = stat path w in
    elim st [
      | none ↦ (ok fresh_config, w1)
      | some size ↦
          if size == 0
          then (ok fresh_config, w1)
          else (let big = ltb 4096 (size + 1) in
              let (made, w2) : Bool × World = if big then try w1 else (true, w1) in
              let (fd, w3) = open_read path w2 in
              let cap = if big then size + 1 else 4096 in
              if not made then (err (codes "oom"), w2) else elim fd [
                | none ↦ (err (codes "open config ro"), w3)
                | some content ↦
                    let (rd, w4) = read (cap - 1) content w3 in
                    elim rd [ none ↦ (err (codes "read config"), w4) | some s ↦ (ok s, w4) ]
              ])
    ]

abbrev pub config_tmp : Bytes → Bytes
config_tmp path = fit 512 (path ++ codes ".tmp")

-- The part that writes the file.
unfoldable pub replace_config : Bytes → Bytes → World → Result (Unit {0}) × World
unfolding open_trunc write fsync rename
replace_config path text w =
    let tmp = config_tmp path in
    let (opened, w1) = open_trunc tmp w in
    let (n, w2) = write tmp text w1 in
    let w3 = (fsync w2).1 in
    let (renamed, w4) = rename tmp path w3 in
    if not opened
    then (err (codes "open tmp config"), w1)
    else if not (is_whole n text)
    then (err (codes "write tmp config"), w3)
    else (if renamed then ok tt else err (codes "rename config"), w4)

-- none is undefined behaviour.
unfoldable pub storage_save_config :
    Bytes → StoreConfig → World → Option (Result (Unit {0}) × World)
unfolding old_config rewrite_text replace_config
storage_save_config path cfg w =
    let (old, w1) = old_config path w in
    elim old [
      | err e ↦ some (err e, w1)
      | ok text ↦ elim (rewrite_text cfg text) [
        | none ↦ none
        | some new ↦ some (replace_config path new w1)
      ]
    ]

unfoldable pub append_file : Bytes → Bytes → World → Result (Unit {0}) × World
unfolding open_append write fsync
append_file path line w =
    let (opened, w1) = open_append path w in
    let (n, w2) = write path line w1 in
    if not opened
    then (err (codes "open log " ++ (path ++ (codes ": " ++ w.error_text))), w1)
    else if not (is_whole n line)
    then (err (codes "write log incomplete"), w2)
    else (ok tt, (fsync w2).1)

unfoldable pub storage_append_orders_log : Bytes → Bytes → World → Result (Unit {0}) × World
unfolding append_file
storage_append_orders_log path line w = append_file path line w

unfoldable pub storage_append_sales_log : Bytes → Bytes → World → Result (Unit {0}) × World
unfolding append_file
storage_append_sales_log path line w = append_file path line w

unfoldable pub storage_append_server_log : Bytes → Bytes → World → Result (Unit {0}) × World
unfolding append_file
storage_append_server_log path line w = append_file path line w
