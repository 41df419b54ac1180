-- ===== src/Menu/Files/Loading/Replies.antt =====
-- The replies of the system that a call of `menu_load_file` takes.
use system_programming_team.Menu.Files.{
  default_csv, write_default_menu_file, load_text, take_menu, read_menu, load_once,
}
use system_programming_team.Os.Files.{is_whole}
use system_programming_team.Os.{
  Reply, World, next_reply, after_reply, is_fine, stat, open_read, read, open_trunc, write,
  written_by,
}
use system_programming_team.Prelude.{
  ℕ, ◌-◌, ◌≤◌, ◌≡◌, refl, List, [], ◌∷◌, arith, length, Bytes, Bool-cases, Option-cases,
  Result-cases, inl, inr,
}

-- How many replies are given.
abbrev pub left : World → ℕ
left w = length w.replies

after_reply-lt : (w : World) → left (after_reply w) ≡ left w - 1
unfolding after_reply
after_reply-lt w = tail w.replies
  where
    tail : (rs : List Reply) → length (elim rs [ [] ↦ [] | _ ∷ qs ↦ qs ]) ≡ length rs - 1
    tail [] = refl
    tail (r ∷ rs) = omega arith

stat-lt : (path : Bytes) (w : World) → left (stat path w).1 ≡ left w - 1
unfolding stat
stat-lt path w = after_reply-lt w

open_read-le : (path : Bytes) (w : World) → left (open_read path w).1 ≤ left w
unfolding open_read
open_read-le path w = omega (arith, after_reply-lt w)

read-le : (n : ℕ) (s : Bytes) (w : World) → left (read n s w).1 ≤ left w
unfolding read
read-le n s w = omega (arith, after_reply-lt w)

open_trunc-le : (path : Bytes) (w : World) → left (open_trunc path w).1 ≤ left w
unfolding open_trunc
open_trunc-le path w = elim (Bool-cases (is_fine (next_reply w))) [
  | inl e ↦ rw (e, open_trunc) (omega (arith, after_reply-lt w))
  | inr e ↦ rw (e, open_trunc) (omega (arith, after_reply-lt w))
]

write-le : (path s : Bytes) (w : World) → left (write path s w).1 ≤ left w
unfolding write
write-le path s w = elim (Option-cases (written_by (next_reply w) s)) [
  | inl e ↦ rw (e, write) (omega (arith, after_reply-lt w))
  | inr (t, e) ↦ rw (e, write) (omega (arith, after_reply-lt w))
]

write_default-le : (path : Bytes) (w : World) → left (write_default_menu_file path w).1 ≤ left w
unfolding write_default_menu_file
write_default-le path w =
    let a = open_trunc-le path w in
    let b = write-le path default_csv (open_trunc path w).1 in
    elim (Bool-cases (open_trunc path w).0) [
      | inr e ↦ rw (e, write_default_menu_file) a
      | inl e ↦
          elim (Bool-cases
            (is_whole (write path default_csv (open_trunc path w).1).0 default_csv)) [
              | inl f ↦ rw (e, f, write_default_menu_file) (omega (arith, a, b))
              | inr f ↦ rw (e, f, write_default_menu_file) (omega (arith, a, b))
            ]
    ]

take_menu-le : (path buf : Bytes) (w : World) → left (take_menu path buf w).1 ≤ left w
unfolding take_menu
take_menu-le path buf w = elim (Result-cases (load_text buf)) [
  | inl (e, h) ↦ rw (h, take_menu) (omega arith)
  | inr (m ∷ ms, h) ↦ rw (h, take_menu) (omega arith)
  | inr ([], h) ↦ elim (Result-cases (write_default_menu_file path w).0) [
    | inl (e, g) ↦ rw (h, g, take_menu) (write_default-le path w)
    | inr (_, g) ↦ rw (h, g, take_menu) (write_default-le path w)
  ]
]

read_menu-le : (path text : Bytes) (w : World) → left (read_menu path text w).1 ≤ left w
unfolding read_menu
read_menu-le path text w =
    let a = open_read-le path w in
    let w1 = (open_read path w).1 in
    elim (Option-cases (open_read path w).0) [
      | inl e ↦ rw (e, read_menu) a
      | inr (content, e) ↦
          let b = read-le 65535 content w1 in
          elim (Option-cases (read 65535 content w1).0) [
            | inl f ↦ rw (e, f, read_menu) (omega (arith, a, b))
            | inr (buf, f) ↦
                rw (e, f, read_menu)
                  (omega (arith, a, b, take_menu-le path buf (read 65535 content w1).1))
          ]
    ]

pub load_once-lt : (path : Bytes) (w : World) → left (load_once path w).1 ≤ left w - 1
unfolding load_once
load_once-lt path w =
    let a = stat-lt path w in
    let w1 = (stat path w).1 in
    elim (Option-cases (stat path w).0) [
      | inr (n, e) ↦ rw (e, load_once) (omega (arith, a, read_menu-le path w.error_text w1))
      | inl e ↦
          let b = write_default-le path w1 in
          elim (Result-cases (write_default_menu_file path w1).0) [
            | inl (m, f) ↦ rw (e, f, load_once) (omega (arith, a, b))
            | inr (_, f) ↦
                rw (e, f, load_once)
                  (omega (
                    arith,
                    a,
                    b,
                    read_menu-le path w.error_text (write_default_menu_file path w1).1,
                  ))
          ]
    ]
