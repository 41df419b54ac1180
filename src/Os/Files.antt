-- ===== src/Os/Files.antt =====
-- What the system calls on files do.
use system_programming_team.Os.{
  Reply, fine, fails, interrupted, short, World, next_reply, after_reply, is_fine, content_of,
  written_by, open_trunc, open_append, write, fsync, rename,
}
use system_programming_team.Prelude.{
  ℕ, zero, suc, ◌≡◌, refl, ap, ◌∙◌, [], ◌∷◌, ◌++◌, Bool, true, false, Option, none, some, arith,
  Bytes, bytes_eq, bytes_eq_self, take, length, ◌==◌, if◌then◌else◌, Bool-cases, Option-cases, inl,
  inr, Result, ok, err,
}

-- Whether a `write` took the whole text.
abbrev pub is_whole : Option ℕ → Bytes → Bool
is_whole none s = false
is_whole (some n) s = n == length s

take_whole : (k : ℕ) (s : Bytes) → (length (take k s) == length s) ≡ true → take k s ≡ s
take_whole zero [] h = refl
take_whole zero (c ∷ s) h = absurd (ground arith)
take_whole (suc k) [] h = refl
take_whole (suc k) (c ∷ s) h = ap (◌∷◌ c) (take_whole k s (ground arith))

written_whole :
    (r : Reply) (s t : Bytes) → written_by r s ≡ some t → (length t == length s) ≡ true → t ≡ s
written_whole fine s t e h = ground arith
written_whole fails s t e h = cc
written_whole interrupted s t e h = cc
written_whole (short k) s t e h =
    let q : take k s ≡ t = ground arith in ground (arith, take_whole k s)

pub open_trunc_lem :
    (path : Bytes) (w : World)
    → ((open_trunc path w).0 ≡ true → (open_trunc path w).1.files path ≡ some [])
      × ((q : Bytes) → bytes_eq q path ≡ false → (open_trunc path w).1.files q ≡ w.files q)
unfolding open_trunc
open_trunc_lem path w = elim (Bool-cases (is_fine (next_reply w))) [
  | inl e ↦ rw (e, open_trunc) (λ _. rw (bytes_eq_self path), λ q n. rw n)
  | inr e ↦ rw (e, open_trunc) (λ h. cc, λ q n. refl)
]

pub open_append_lem :
    (path : Bytes) (w : World)
    → ((open_append path w).0 ≡ true
        → (open_append path w).1.files path ≡ some (content_of (w.files path)))
      × ((q : Bytes) → bytes_eq q path ≡ false → (open_append path w).1.files q ≡ w.files q)
unfolding open_append
open_append_lem path w = elim (Bool-cases (is_fine (next_reply w))) [
  | inl e ↦ rw (e, open_append) (λ _. rw (bytes_eq_self path), λ q n. rw n)
  | inr e ↦ rw (e, open_append) (λ h. cc, λ q n. refl)
]

pub write_lem :
    (path s : Bytes) (w : World)
    → (is_whole (write path s w).0 s ≡ true
        → (write path s w).1.files path ≡ some (content_of (w.files path) ++ s))
      × ((q : Bytes) → bytes_eq q path ≡ false → (write path s w).1.files q ≡ w.files q)
unfolding write
write_lem path s w = elim (Option-cases (written_by (next_reply w) s)) [
  | inl e ↦ rw (e, write) (λ h. cc, λ q n. refl)
  | inr (t, e) ↦
      rw (e, write)
        (
          λ h. rw (bytes_eq_self path) (
              ap (λ x. some (content_of (w.files path) ++ x))
                (written_whole (next_reply w) s t e h)),
          λ q n. rw n,
        )
]

pub fsync_files : (w : World) → (fsync w).1.files ≡ w.files
unfolding fsync after_reply
fsync_files w = refl

-- A rename that succeeds moves the content; one that fails changes nothing.
pub rename_lem :
    (from to : Bytes) (w : World)
    → ((rename from to w).0 ≡ true → (rename from to w).1.files to ≡ w.files from)
      × ((rename from to w).0 ≡ false → (rename from to w).1.files ≡ w.files)
      × ((q : Bytes)
          → bytes_eq q to ≡ false
          → bytes_eq q from ≡ false
          → (rename from to w).1.files q ≡ w.files q)
unfolding rename
rename_lem from to w = elim (Bool-cases (is_fine (next_reply w))) [
  | inr e ↦ rw (e, rename) (λ h. cc, λ _. refl, λ q _ _. refl)
  | inl e ↦ elim (Option-cases (w.files from)) [
    | inl n ↦ rw (e, n, rename) (λ h. cc, λ _. refl, λ q _ _. refl)
    | inr (c, p) ↦ rw (e, p, rename) (λ _. rw (bytes_eq_self to), λ h. cc, λ q a b. rw (a, b))
  ]
]

-- A save: on success `path` has the content; on failure it has what it had, so a reader never sees
-- half a file; and only `path` and the temporary file change.
abbrev pub Saves : Bytes → Bytes → Bytes → World → Result (Unit {0}) × World → Type 0
Saves path tmp content w r =
    (r.0 ≡ ok tt → r.1.files path ≡ some content)
    × ((e : Bytes) → r.0 ≡ err e → r.1.files path ≡ w.files path)
    × ((q : Bytes) → bytes_eq q path ≡ false → bytes_eq q tmp ≡ false → r.1.files q ≡ w.files q)

-- A save that gives up has only touched the temporary file.
pub Saves-err :
    (path tmp content : Bytes) (w v : World) (e : Bytes)
    → bytes_eq path tmp ≡ false
    → ((q : Bytes) → bytes_eq q tmp ≡ false → v.files q ≡ w.files q)
    → Saves path tmp content w (err e, v)
Saves-err path tmp content w v e n h = (λ q. cc, λ e' _. h path n, λ q _ a. h q a)

-- The last step of a save, after the content stands in the temporary file.
pub Saves-rename :
    (path tmp content : Bytes) (w v : World) (e : Bytes)
    → bytes_eq path tmp ≡ false
    → ((q : Bytes) → bytes_eq q tmp ≡ false → v.files q ≡ w.files q)
    → v.files tmp ≡ some content
    → Saves path tmp content w
        (if (rename tmp path v).0 then ok tt else err e, (rename tmp path v).1)
Saves-rename path tmp content w v e n h c = elim (Bool-cases (rename tmp path v).0) [
  | inl t ↦ rw t (
    λ _. (rename_lem tmp path v).0 t ∙ c,
    λ e' q. cc,
    λ q a b. (rename_lem tmp path v).2 q a b ∙ h q b,
  )
  | inr f ↦ rw f (
    λ q. cc,
    λ e' _. ap (λ g. g path) ((rename_lem tmp path v).1 f) ∙ h path n,
    λ q a b. (rename_lem tmp path v).2 q a b ∙ h q b,
  )
]
