-- ===== src/Async/Flushed.antt =====
-- Every payload that was enqueued is taken for its table exactly once and in its order, or still waits.
use rawduck.Prelude.{
  ℕ, ◌≡◌, refl, sym, ◌∙◌, ap, inl, inr, Str, str_eq, str_eq_iff, Bool, true, false, Bool-cases,
  List, [], ◌∷◌, ◌++◌, All, map, if◌then◌else◌, arith,
}
use mathlib.Core.List.{append_assoc, append-nil}
use rawduck.Async.{Payload, Buffer, Buffers, enqueue, take_due, take_all}

-- The payloads that wait for a target.
unfoldable pub waiting : Buffers → Str → List Payload
waiting [] target = []
waiting ((t, b) ∷ bs) target = if str_eq t target then b.payloads else waiting bs target

-- Of payloads with their targets, those for one target.
unfoldable pub sent_to : List (Str × Payload) → Str → List Payload
sent_to [] target = []
sent_to ((t, p) ∷ sent) target =
    if str_eq t target then p ∷ sent_to sent target else sent_to sent target

-- A std::map has each key once.
abbrev pub HasDistinctKeys : Buffers → Type 0
HasDistinctKeys [] = Unit
HasDistinctKeys ((t, b) ∷ bs) = All (λ e. str_eq t e.0 ≡ false) bs × HasDistinctKeys bs

waiting-absent : (bs : Buffers) (t : Str) → All (λ e. str_eq t e.0 ≡ false) bs → waiting bs t ≡ []
unfolding waiting
waiting-absent [] t h = refl
waiting-absent ((u, b) ∷ bs) t h =
    ground (arith, h.0, str_eq_iff t u, str_eq_iff u t, waiting-absent bs t h.1)

waiting-other :
    (bs : Buffers) (t u : Str)
    → All (λ e. str_eq t e.0 ≡ false) bs
    → str_eq t u ≡ true
    → waiting bs u ≡ []
waiting-other bs t u h e = ap (waiting bs) (sym ((str_eq_iff t u).0 e)) ∙ waiting-absent bs t h

waiting-enqueue :
    (bs : Buffers) (target : Str) (p : Payload) (now : ℕ) (t : Str)
    → waiting (enqueue bs target p now) t ≡ waiting bs t ++ (if str_eq target t then p ∷ [] else [])
unfolding waiting enqueue
waiting-enqueue [] target p now t = ground arith
waiting-enqueue ((u, b) ∷ bs) target p now t = ground (
  arith,
  waiting-enqueue bs target p now t,
  str_eq_iff u target,
  str_eq_iff u t,
  str_eq_iff target t,
  append-nil b.payloads,
  append-nil (waiting bs t),
)

All-enqueue :
    (bs : Buffers) (target : Str) (p : Payload) (now : ℕ) (u : Str)
    → str_eq u target ≡ false
    → All (λ e. str_eq u e.0 ≡ false) bs
    → All (λ e. str_eq u e.0 ≡ false) (enqueue bs target p now)
unfolding enqueue
All-enqueue [] target p now u n h = (n, tt)
All-enqueue ((t, b) ∷ bs) target p now u n h = elim (Bool-cases (str_eq t target)) [
  | inl e ↦ rw e h
  | inr e ↦ rw e (h.0, All-enqueue bs target p now u n h.1)
]

enqueue-HasDistinctKeys :
    (bs : Buffers) (target : Str) (p : Payload) (now : ℕ)
    → HasDistinctKeys bs
    → HasDistinctKeys (enqueue bs target p now)
unfolding enqueue
enqueue-HasDistinctKeys [] target p now h = (tt, tt)
enqueue-HasDistinctKeys ((t, b) ∷ bs) target p now h = elim (Bool-cases (str_eq t target)) [
  | inl e ↦ rw e h
  | inr e ↦ rw e (All-enqueue bs target p now t e h.0, enqueue-HasDistinctKeys bs target p now h.1)
]

All-take_due :
    (due : Buffer → Bool) (u : Str) (bs : Buffers)
    → All (λ e. str_eq u e.0 ≡ false) bs
    → All (λ e. str_eq u e.0 ≡ false) (take_due due bs).0
      × All (λ e. str_eq u e.0 ≡ false) (take_due due bs).1
unfolding take_due
All-take_due due u [] h = (tt, tt)
All-take_due due u ((t, b) ∷ bs) h =
    let rest = All-take_due due u bs h.1 in
    elim (Bool-cases (due b)) [
      | inl e ↦ rw e ((h.0, rest.0), rest.1)
      | inr e ↦ rw e (rest.0, (h.0, rest.1))
    ]

take_due-HasDistinctKeys :
    (due : Buffer → Bool) (bs : Buffers)
    → HasDistinctKeys bs
    → HasDistinctKeys (take_due due bs).0 × HasDistinctKeys (take_due due bs).1
unfolding take_due
take_due-HasDistinctKeys due [] h = (tt, tt)
take_due-HasDistinctKeys due ((t, b) ∷ bs) h =
    let rest = take_due-HasDistinctKeys due bs h.1 in
    let apart = All-take_due due t bs h.0 in
    elim (Bool-cases (due b)) [
      | inl e ↦ rw e ((apart.0, rest.0), rest.1)
      | inr e ↦ rw e (rest.0, (apart.1, rest.1))
    ]

-- A pass takes all that waits for a target, or nothing of it.
waiting-take_due :
    (due : Buffer → Bool) (bs : Buffers) (u : Str)
    → HasDistinctKeys bs
    → waiting (take_due due bs).0 u ++ waiting (take_due due bs).1 u ≡ waiting bs u
unfolding waiting take_due
waiting-take_due due [] u h = refl
waiting-take_due due ((t, b) ∷ bs) u h =
    let apart = All-take_due due t bs h.0 in
    ground (
      arith,
      waiting-take_due due bs u h.1,
      waiting-other (take_due due bs).0 t u apart.0,
      waiting-other (take_due due bs).1 t u apart.1,
      append-nil b.payloads,
    )

-- The payloads of buffers, each with its target.
unfoldable pub entries : Buffers → List (Str × Payload)
entries [] = []
entries ((t, b) ∷ bs) = map (λ p. (t, p)) b.payloads ++ entries bs

sent_to-append :
    (xs ys : List (Str × Payload)) (u : Str) → sent_to (xs ++ ys) u ≡ sent_to xs u ++ sent_to ys u
unfolding sent_to
sent_to-append [] ys u = refl
sent_to-append ((t, p) ∷ xs) ys u = ground (arith, sent_to-append xs ys u)

sent_to-map :
    (ps : List Payload) (t u : Str)
    → sent_to (map (λ p. (t, p)) ps) u ≡ (if str_eq t u then ps else [])
unfolding sent_to
sent_to-map [] t u = ground arith
sent_to-map (p ∷ ps) t u = ground (arith, sent_to-map ps t u)

sent_to-entries :
    (bs : Buffers) (u : Str) → HasDistinctKeys bs → sent_to (entries bs) u ≡ waiting bs u
unfolding entries waiting sent_to
sent_to-entries [] u h = refl
sent_to-entries ((t, b) ∷ bs) u h =
    rw (sent_to-append (map (λ p. (t, p)) b.payloads) (entries bs) u, sent_to-map b.payloads t u)
      (ground (arith, sent_to-entries bs u h.1, waiting-other bs t u h.0, append-nil b.payloads))

-- What can happen to the buffers: `sent` was enqueued and `taken` was handed to a flush, both in
-- order; a pass of the flusher takes the buffers that are due by any test, FlushAll takes all.
pub data Reach : List (Str × Payload) → List (Str × Payload) → Buffers → Type 0 where
  starts : Reach [] [] []
  enqueues :
      (sent taken : List (Str × Payload)) (bs : Buffers) (target : Str) (p : Payload) (now : ℕ)
      → Reach sent taken bs
      → Reach (sent ++ ((target, p) ∷ [])) taken (enqueue bs target p now)
  passes :
      (sent taken : List (Str × Payload)) (bs : Buffers) (due : Buffer → Bool)
      → Reach sent taken bs
      → Reach sent (taken ++ entries (take_due due bs).0) (take_due due bs).1
  drains :
      (sent taken : List (Str × Payload)) (bs : Buffers)
      → Reach sent taken bs
      → Reach sent (taken ++ entries (take_all bs).0) (take_all bs).1

Reach-HasDistinctKeys :
    (sent taken : List (Str × Payload)) (bs : Buffers) → Reach sent taken bs → HasDistinctKeys bs
Reach-HasDistinctKeys sent taken bs starts = tt
Reach-HasDistinctKeys sent taken bs (enqueues s t b target p now r) =
    enqueue-HasDistinctKeys b target p now (Reach-HasDistinctKeys s t b r)
Reach-HasDistinctKeys sent taken bs (passes s t b due r) =
    (take_due-HasDistinctKeys due b (Reach-HasDistinctKeys s t b r)).1
Reach-HasDistinctKeys sent taken bs (drains s t b r) = tt

-- At any moment, for each target table, the payloads handed to a flush followed by those that still
-- wait are exactly the payloads that were enqueued for it, in the order in which they came.
pub Reach-order :
    (sent taken : List (Str × Payload)) (bs : Buffers) (target : Str)
    → Reach sent taken bs
    → sent_to taken target ++ waiting bs target ≡ sent_to sent target
unfolding sent_to waiting
Reach-order sent taken bs u starts = refl
Reach-order sent taken bs u (enqueues s t b target p now r) =
    rw (waiting-enqueue b target p now u, sent_to-append s ((target, p) ∷ []) u)
      (sym (append_assoc (sent_to t u) (waiting b u) (if str_eq target u then p ∷ [] else []))
        ∙ ap (λ l. l ++ (if str_eq target u then p ∷ [] else [])) (Reach-order s t b u r))
Reach-order sent taken bs u (passes s t b due r) =
    let keys = Reach-HasDistinctKeys s t b r in
    rw
      (
        sent_to-append t (entries (take_due due b).0) u,
        sent_to-entries (take_due due b).0 u (take_due-HasDistinctKeys due b keys).0,
      )
      (append_assoc (sent_to t u) (waiting (take_due due b).0 u) (waiting (take_due due b).1 u)
        ∙ ap (λ l. sent_to t u ++ l) (waiting-take_due due b u keys)
        ∙ Reach-order s t b u r)
Reach-order sent taken bs u (drains s t b r) =
    append-nil (sent_to (t ++ entries b) u)
    ∙ sent_to-append t (entries b) u
    ∙ ap (λ l. sent_to t u ++ l) (sent_to-entries b u (Reach-HasDistinctKeys s t b r))
    ∙ Reach-order s t b u r
