-- ===== src/Os.antt =====
-- The system calls that the sources make, on an explicit world: files by their path, the bytes
-- sent to each socket, a clock, and the replies by which the system answers the calls to come.
-- When the given replies run out, every further call succeeds.
pub mod Laws
pub mod Files
use system_programming_team.Prelude.{
  ℕ, suc, ◌+◌, Bool, true, false, List, [], ◌∷◌, ◌++◌, Option, none, some, Bytes, bytes_eq,
  if◌then◌else◌, length, take, drop, ℤ, pos,
}

-- `short n`: a read or a write moves at most n bytes. `interrupted`: the call fails with EINTR.
pub data Reply : Type 0 where
  fine fails interrupted : Reply
  short : ℕ → Reply

pub record World : Type 0 where
  pub files : Bytes → Option Bytes
  pub sent : List (ℕ × Bytes)
  pub clock : ℕ
  pub delays : List ℕ
  pub replies : List Reply
  -- The text of `strerror (errno)`.
  pub error_text : Bytes

unfoldable pub next_reply : World → Reply
next_reply w = elim w.replies [ [] ↦ fine | r ∷ _ ↦ r ]

unfoldable pub after_reply : World → World
after_reply w = record w { replies = elim w.replies [ [] ↦ [] | _ ∷ rs ↦ rs ] }

-- Whether a call that transfers nothing succeeds.
abbrev pub is_fine : Reply → Bool
is_fine fine = true
is_fine (short n) = true
is_fine fails = false
is_fine interrupted = false

abbrev pub put_file : Bytes → Bytes → (Bytes → Option Bytes) → Bytes → Option Bytes
put_file path content files p = if bytes_eq p path then some content else files p

-- `time (NULL)`: the clock never goes back.
unfoldable pub time : World → ℕ × World
time w = elim w.delays [
  | [] ↦ (w.clock, w)
  | d ∷ ds ↦ (w.clock + d, record w { clock = w.clock + d; delays = ds })
]

-- The size of a file, none where `stat` fails.
unfoldable pub stat : Bytes → World → Option ℕ × World
unfolding next_reply after_reply
stat path w = (
  if is_fine (next_reply w)
      then elim (w.files path) [ none ↦ none | some c ↦ some (length c) ]
      else none,
  after_reply w,
)

-- `open (path, O_RDONLY)`: what can be read from the descriptor.
unfoldable pub open_read : Bytes → World → Option Bytes × World
unfolding next_reply after_reply
open_read path w = (if is_fine (next_reply w) then w.files path else none, after_reply w)

-- `read (fd, buf, n)` at the start of a descriptor.
abbrev pub read_by : Reply → ℕ → Bytes → Option Bytes
read_by fine n content = some (take n content)
read_by (short k) n content = some (take k (take n content))
read_by fails n content = none
read_by interrupted n content = none

unfoldable pub read : ℕ → Bytes → World → Option Bytes × World
unfolding next_reply after_reply
read n content w = (read_by (next_reply w) n content, after_reply w)

-- `open (path, O_CREAT | O_TRUNC | O_WRONLY)`.
unfoldable pub open_trunc : Bytes → World → Bool × World
unfolding next_reply after_reply
open_trunc path w =
    if is_fine (next_reply w)
    then (true, record (after_reply w) { files = put_file path [] w.files })
    else (false, after_reply w)

abbrev pub content_of : Option Bytes → Bytes
content_of none = []
content_of (some c) = c

-- `open (path, O_CREAT | O_APPEND | O_WRONLY)`.
unfoldable pub open_append : Bytes → World → Bool × World
unfolding next_reply after_reply
open_append path w =
    if is_fine (next_reply w)
    then (
      true,
      record (after_reply w) { files = put_file path (content_of (w.files path)) w.files },
    )
    else (false, after_reply w)

-- How many bytes of a `write` are taken, none where it fails.
abbrev pub written_by : Reply → Bytes → Option Bytes
written_by fine s = some s
written_by (short k) s = some (take k s)
written_by fails s = none
written_by interrupted s = none

-- `write` at the end of the open file `path`; the count of the bytes written.
unfoldable pub write : Bytes → Bytes → World → Option ℕ × World
unfolding next_reply after_reply
write path s w = elim (written_by (next_reply w) s) [
  | none ↦ (none, after_reply w)
  | some t ↦ (
    some (length t),
    record (after_reply w) { files = put_file path (content_of (w.files path) ++ t) w.files },
  )
]

unfoldable pub fsync : World → Bool × World
unfolding next_reply after_reply
fsync w = (is_fine (next_reply w), after_reply w)

-- `rename (from, to)`: the file `to` is replaced at once.
unfoldable pub rename : Bytes → Bytes → World → Bool × World
unfolding next_reply after_reply
rename from to w =
    if is_fine (next_reply w)
    then elim (w.files from) [
      | none ↦ (false, after_reply w)
      | some c ↦ (
        true,
        record (after_reply w) {
          files =
              λ p. if bytes_eq p to then some c else if bytes_eq p from then none else w.files p;
        },
      )
    ]
    else (false, after_reply w)

-- Bytes go out on a socket.
abbrev pub send : ℕ → Bytes → World → World
send fd s w = record w { sent = w.sent ++ (fd, s) ∷ [] }

-- `write_all` of src/server.c. One round is one `write`; a round that fails, or that moves nothing,
-- ends the loop with -1, and an interrupted one is made again.
unfoldable pub write_loop : List Reply → ℕ → Bytes → World → Bool × World
write_loop rs fd [] w = (true, record w { replies = rs })
write_loop [] fd (c ∷ s) w = (true, record (send fd (c ∷ s) w) { replies = [] })
write_loop (fine ∷ rs) fd (c ∷ s) w = (true, record (send fd (c ∷ s) w) { replies = rs })
write_loop (fails ∷ rs) fd (c ∷ s) w = (false, record w { replies = rs })
write_loop (interrupted ∷ rs) fd (c ∷ s) w = write_loop rs fd (c ∷ s) w
write_loop (short ℕ.zero ∷ rs) fd (c ∷ s) w = (false, record w { replies = rs })
write_loop (short (suc n) ∷ rs) fd (c ∷ s) w =
    write_loop rs fd (drop n s) (send fd (c ∷ take n s) w)

unfoldable pub write_all : ℕ → Bytes → World → Bool × World
unfolding write_loop
write_all fd s w = write_loop w.replies fd s w
