-- ===== src/Server/Reader.antt =====
-- The line reader of src/server.c, on the chunks that the reads of a socket return.
pub mod Framing
use system_programming_team.Prelude.{
  ℕ, zero, suc, ◌+◌, ◌-◌, ◌==◌, Bool, true, false, ◌||◌, List, [], ◌∷◌, ◌++◌, Option, none, some,
  ltb, leb, if◌then◌else◌, length, take, drop, Bytes,
}
use system_programming_team.Text.{cut_at, fit}

-- What a `read` of a socket returns: some bytes, EINTR, an error; the end is the empty chunk.
pub data Chunk : Type 0 where
  bytes : Bytes → Chunk
  interrupted : Chunk
  fails : Chunk

-- 1 with a line, 0 at the end of the stream, and -1.
pub data Line : Type 0 where
  line : Bytes → Line
  end : Line
  failure : Line

-- A text without the line ends behind it.
unfoldable pub strip_crnl : Bytes → Bytes
strip_crnl [] = []
strip_crnl (c ∷ s) = elim (strip_crnl s) [
  | [] ↦ if (c == b'\n') || (c == b'\r') then [] else c ∷ []
  | d ∷ t ↦ c ∷ d ∷ t
]

-- The text that reaches the caller: a C string ends at its first NUL.
abbrev pub to_nul : Bytes → Bytes
to_nul s = elim (cut_at 0 s) [ none ↦ s | some (t, _) ↦ t ]

abbrev pub buf_size : ℕ
buf_size = 8192

-- The line in front of a line end, cut to the caller's buffer.
abbrev pub taken : Bytes → ℕ → Bytes
taken l outsz = strip_crnl (to_nul (take (outsz - 1) l))

-- `sock_read_line` with the bytes that are in the buffer and what the reads to come return; when
-- these run out, the stream has ended. The result is the line, the buffer, and the reads left.
unfoldable pub read_line : List Chunk → Bytes → ℕ → Line × Bytes × List Chunk
unfolding cut_at strip_crnl
read_line [] buf outsz = elim (cut_at b'\n' buf) [
  | some (l, rest) ↦ (line (taken l outsz), rest, [])
  | none ↦ if leb buf_size (length buf) then (failure, buf, []) else (end, buf, [])
]
read_line (chunk ∷ chunks) buf outsz = elim (cut_at b'\n' buf) [
  | some (l, rest) ↦ (line (taken l outsz), rest, chunk ∷ chunks)
  | none ↦
      let again = read_line chunks buf outsz in
      if leb buf_size (length buf) then (failure, buf, chunk ∷ chunks) else elim chunk [
        | fails ↦ (failure, buf, chunks)
        | interrupted ↦ again
        | bytes [] ↦ (end, buf, chunks)
        | bytes (c ∷ s) ↦ read_line chunks (buf ++ take (buf_size - length buf) (c ∷ s)) outsz
      ]
]

unfoldable pub sock_read_line : List Chunk → Bytes → ℕ → Line × Bytes × List Chunk
unfolding read_line
sock_read_line chunks buf outsz =
    if outsz == 0 then (failure, buf, chunks) else read_line chunks buf outsz
