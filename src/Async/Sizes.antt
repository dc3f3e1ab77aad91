-- ===== src/Async/Sizes.antt =====
-- The byte count that decides when a buffer is due.
use rawduck.Prelude.{
  ℕ, ◌+◌, ◌≡◌, inl, inr, Str, str_eq, Bool, true, false, Bool-cases, List, [], ◌∷◌, ◌++◌, length,
  ltb, All, arith,
}
use rawduck.Async.{Payload, Buffer, Buffers, enqueue, is_due, take_due}

abbrev pub total_size : List Payload → ℕ
total_size [] = 0
total_size (p ∷ ps) = length p.0 + total_size ps

total_size-append : (ps qs : List Payload) → total_size (ps ++ qs) ≡ total_size ps + total_size qs
total_size-append [] qs = omega arith
total_size-append (p ∷ ps) qs = omega (arith, total_size-append ps qs)

-- Each buffer counts the bytes of its payloads.
abbrev pub AreCounted : Buffers → Type 0
AreCounted = All (λ e. e.1.bytes ≡ total_size e.1.payloads)

-- Enqueue and a pass of the flusher keep every byte count exact.
pub enqueue-AreCounted :
    (bs : Buffers) (target : Str) (payload : Payload) (now : ℕ)
    → AreCounted bs
    → AreCounted (enqueue bs target payload now)
unfolding enqueue
enqueue-AreCounted [] target payload now h = (omega arith, tt)
enqueue-AreCounted ((t, b) ∷ bs) target payload now h = elim (Bool-cases (str_eq t target)) [
  | inl e ↦ rw e (omega (arith, h.0, total_size-append b.payloads (payload ∷ [])), h.1)
  | inr e ↦ rw e (h.0, enqueue-AreCounted bs target payload now h.1)
]

take_due-AreCounted :
    (due : Buffer → Bool) (bs : Buffers)
    → AreCounted bs
    → AreCounted (take_due due bs).0 × AreCounted (take_due due bs).1
unfolding take_due
take_due-AreCounted due [] h = (tt, tt)
take_due-AreCounted due ((t, b) ∷ bs) h =
    let rest = take_due-AreCounted due bs h.1 in
    elim (Bool-cases (due b)) [
      | inl e ↦ rw e ((h.0, rest.0), rest.1)
      | inr e ↦ rw e (rest.0, (h.0, rest.1))
    ]

-- What stays after a pass of FlushLoop is below the byte limit and younger than the timeout.
pub take_due-rest :
    (timeout due_bytes now : ℕ) (bs : Buffers)
    → AreCounted bs
    → All
        (λ e.
          (ltb (total_size e.1.payloads) due_bytes ≡ true)
          × (is_due timeout due_bytes now e.1 ≡ false))
        (take_due (is_due timeout due_bytes now) bs).1
unfolding take_due
take_due-rest timeout due_bytes now [] h = tt
take_due-rest timeout due_bytes now ((t, b) ∷ bs) h =
    elim (Bool-cases (is_due timeout due_bytes now b)) [
      | inl e ↦ rw e (take_due-rest timeout due_bytes now bs h.1)
      | inr e ↦ rw e ((ground (arith, e, h.0), e), take_due-rest timeout due_bytes now bs h.1)
    ]
