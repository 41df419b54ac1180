-- ===== src/Os/Laws.antt =====
-- Laws of `write_all`, of src/server.c.
use system_programming_team.Os.{
  Reply, fine, fails, interrupted, short, World, send, write_loop, write_all,
}
use system_programming_team.Prelude.{
  ℕ, zero, suc, ◌≡◌, refl, sym, ap, ◌∙◌, List, [], ◌∷◌, ◌++◌, append-nil, append_assoc, Bool, true,
  false, Bytes, take, drop, ◌==◌, if◌then◌else◌, take-append-drop,
}

-- All bytes that a socket was sent, in order.
abbrev pub stream : ℕ → List (ℕ × Bytes) → Bytes
stream fd [] = []
stream fd ((i, s) ∷ rest) = (if i == fd then s else []) ++ stream fd rest

pub stream-append :
    (fd : ℕ) (xs ys : List (ℕ × Bytes)) → stream fd (xs ++ ys) ≡ stream fd xs ++ stream fd ys
stream-append fd [] ys = refl
stream-append fd ((i, s) ∷ xs) ys =
    rw (stream-append fd xs ys) (sym (append_assoc (if i == fd then s else []) _ _))

stream-send :
    (fd i : ℕ) (s : Bytes) (w : World)
    → stream i (send fd s w).sent ≡ stream i w.sent ++ (if fd == i then s else [])
stream-send fd i s w =
    stream-append i w.sent ((fd, s) ∷ []) ∙ ap (◌++◌ (stream i w.sent)) (append-nil _)

-- What a call of `write_all` did: `part` went out on the socket, all of it if the call succeeded,
-- and nothing else changed.
abbrev pub Wrote : ℕ → Bytes → World → Bool × World → Type 0
Wrote fd s w r =
    (part : Bytes) × (rest : Bytes) × (s ≡ part ++ rest)
    × (r.0 ≡ true → rest ≡ [])
    × ((i : ℕ) → stream i r.1.sent ≡ stream i w.sent ++ (if fd == i then part else []))
    × (r.1.files ≡ w.files)

nothing : (b : Bool) (xs : Bytes) → xs ≡ xs ++ (if b then [] else [])
nothing true xs = sym (append-nil xs)
nothing false xs = sym (append-nil xs)

joined :
    (b : Bool) (xs p q : Bytes)
    → (xs ++ (if b then p else [])) ++ (if b then q else []) ≡ xs ++ (if b then p ++ q else [])
joined true xs p q = append_assoc xs p q
joined false xs p q = append-nil (xs ++ [])

write_loop-Wrote :
    (rs : List Reply) (fd : ℕ) (s : Bytes) (w : World) → Wrote fd s w (write_loop rs fd s w)
unfolding write_loop
write_loop-Wrote rs fd [] w =
    ([], [], refl, λ _. refl, λ i. nothing (fd == i) (stream i w.sent), refl)
write_loop-Wrote [] fd (c ∷ s) w =
    (c ∷ s, [], sym (append-nil (c ∷ s)), λ _. refl, λ i. stream-send fd i (c ∷ s) w, refl)
write_loop-Wrote (fine ∷ rs) fd (c ∷ s) w =
    (c ∷ s, [], sym (append-nil (c ∷ s)), λ _. refl, λ i. stream-send fd i (c ∷ s) w, refl)
write_loop-Wrote (fails ∷ rs) fd (c ∷ s) w =
    ([], c ∷ s, refl, λ e. cc, λ i. nothing (fd == i) (stream i w.sent), refl)
write_loop-Wrote (interrupted ∷ rs) fd (c ∷ s) w = write_loop-Wrote rs fd (c ∷ s) w
write_loop-Wrote (short zero ∷ rs) fd (c ∷ s) w =
    ([], c ∷ s, refl, λ e. cc, λ i. nothing (fd == i) (stream i w.sent), refl)
write_loop-Wrote (short (suc n) ∷ rs) fd (c ∷ s) w =
    let (part, rest, e, whole, out, files) =
      write_loop-Wrote rs fd (drop n s) (send fd (c ∷ take n s) w) in
    (
      (c ∷ take n s) ++ part,
      rest,
      ap (◌∷◌ c) (
          sym (take-append-drop n s)
          ∙ ap (◌++◌ (take n s)) e
          ∙ sym (append_assoc (take n s) part rest)),
      whole,
      λ i.
          out i
          ∙ ap (λ (x : Bytes). x ++ (if fd == i then part else []))
              (stream-send fd i (c ∷ take n s) w)
          ∙ joined (fd == i) (stream i w.sent) (c ∷ take n s) part,
      files,
    )

-- Whatever the system answers, `write_all` sends a prefix of the text on the socket, all of it if it
-- returns 0; no other socket gets a byte and no file changes.
pub write_all-Wrote : (fd : ℕ) (s : Bytes) (w : World) → Wrote fd s w (write_all fd s w)
unfolding write_all
write_all-Wrote fd s w = write_loop-Wrote w.replies fd s w
