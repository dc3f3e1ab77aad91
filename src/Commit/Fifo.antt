-- ===== src/Commit/Fifo.antt =====
-- Requests are resolved exactly once and in their order, and none waits without a leader.
use rawduck.Prelude.{
  ◌≡◌, ◌⊎◌, inl, inr, refl, sym, subst, ◌∙◌, ap, Bool, true, false, ◌&&◌, Bool-cases, List, [], ◌∷◌,
  ◌++◌, map, map-append, if◌then◌else◌, if_both, if_false, arith,
}
use mathlib.Core.List.{append_assoc, append-nil}
use rawduck.Flatten.{is_empty}
use rawduck.Commit.{
  PendingItem, Outcome, Coordinator, idle, enter, take_batch, own_outcome, resolve_batch, step_down,
  abandon,
}

-- `Runs start entered c`: the requests that entered since, in order, and a state that they can bring
-- about.
pub data Runs (start : Coordinator) : List PendingItem → Coordinator → Type 0 where
  starts : Runs start [] start
  enters :
      (entered : List PendingItem) (c : Coordinator) (item : PendingItem)
      → Runs start entered c
      → Runs start (entered ++ (item ∷ [])) (enter c item)
  takes :
      (entered : List PendingItem) (c : Coordinator)
      → Runs start entered c
      → Runs start entered (take_batch c)
  resolves :
      (entered : List PendingItem) (c : Coordinator) (outcome : Outcome)
      → Runs start entered c
      → Runs start entered (resolve_batch c outcome)
  steps_down :
      (entered : List PendingItem) (c : Coordinator)
      → Runs start entered c
      → Runs start entered (step_down c)
  abandons :
      (entered : List PendingItem) (c : Coordinator)
      → Runs start entered c
      → Runs start entered (abandon c)

abbrev pub Reach : List PendingItem → Coordinator → Type 0
Reach = Runs idle

abbrev pub item_of : PendingItem × Outcome → PendingItem
item_of r = r.0

-- Those that are resolved, those in the batch and those that are queued.
abbrev pub accounted : Coordinator → List PendingItem
accounted c = map item_of c.resolved ++ (c.batch ++ c.pending)

is_empty-nil : {A : Type 0} (xs : List A) → is_empty xs ≡ true → xs ≡ []
is_empty-nil [] h = refl
is_empty-nil (x ∷ xs) h = ground arith

and_left : (a b : Bool) → (a && b) ≡ true → a ≡ true
and_left a b h = ground arith

and_right : (a b : Bool) → (a && b) ≡ true → b ≡ true
and_right a b h = ground arith

abbrev took : Coordinator → Coordinator
took c = record c { batch = c.pending; pending = [] }

take_batch-accounted : (c : Coordinator) → accounted (take_batch c) ≡ accounted c
unfolding take_batch
take_batch-accounted c = elim (Bool-cases (c.leading && is_empty c.batch)) [
  | inl e ↦
      subst (λ b. accounted (if b then took c else c) ≡ accounted c) (sym e)
        (ap (λ l. map item_of c.resolved ++ l)
          (append-nil c.pending
            ∙ ap (λ l. l ++ c.pending)
                (sym (is_empty-nil c.batch (and_right c.leading (is_empty c.batch) e)))))
  | inr e ↦ subst (λ b. accounted (if b then took c else c) ≡ accounted c) (sym e) refl
]

items-own_outcome :
    (o : Outcome) (items : List PendingItem)
    → map item_of (map (λ item. (item, own_outcome o item)) items) ≡ items
items-own_outcome o [] = refl
items-own_outcome o (item ∷ items) = ap (λ l. item ∷ l) (items-own_outcome o items)

resolve_batch-accounted :
    (c : Coordinator) (o : Outcome) → accounted (resolve_batch c o) ≡ accounted c
unfolding resolve_batch
resolve_batch-accounted c o =
    if_both (λ d. accounted d ≡ accounted c) c.leading
      (record c {
        resolved = c.resolved ++ map (λ item. (item, own_outcome o item)) c.batch;
        batch = [];
      })
      c
      (ap (λ l. l ++ c.pending)
          (map-append item_of c.resolved (map (λ item. (item, own_outcome o item)) c.batch)
            ∙ ap (λ l. map item_of c.resolved ++ l) (items-own_outcome o c.batch))
        ∙ append_assoc (map item_of c.resolved) c.batch c.pending)
      refl

-- At every moment, the requests that entered are exactly those that are resolved, in the batch or
-- queued, each once and in the order of entering. That a request in the batch or in the queue is
-- resolved later is not said.
pub Reach-accounted :
    (entered : List PendingItem) (c : Coordinator) → Reach entered c → accounted c ≡ entered
unfolding enter step_down abandon
Reach-accounted entered c starts = refl
Reach-accounted entered c (enters es d item r) =
    sym (
      append_assoc (map item_of d.resolved) (d.batch ++ d.pending) (item ∷ [])
      ∙ ap (λ l. map item_of d.resolved ++ l) (append_assoc d.batch d.pending (item ∷ [])))
    ∙ ap (λ l. l ++ (item ∷ [])) (Reach-accounted es d r)
Reach-accounted entered c (takes es d r) = take_batch-accounted d ∙ Reach-accounted es d r
Reach-accounted entered c (resolves es d o r) = resolve_batch-accounted d o ∙ Reach-accounted es d r
Reach-accounted entered c (steps_down es d r) =
    if_both (λ x. accounted x ≡ es) (d.leading && (is_empty d.pending && is_empty d.batch))
      (record d { committing = false; leading = false }) d (Reach-accounted es d r)
      (Reach-accounted es d r)
Reach-accounted entered c (abandons es d r) = Reach-accounted es d r

abbrev pub IsLed : Coordinator → Type 0
IsLed c = (c.committing ≡ true) ⊎ ((c.pending ≡ []) × (c.batch ≡ []))

-- While a request is queued or in a batch the target is marked as committing.
pub Reach-IsLed : (entered : List PendingItem) (c : Coordinator) → Reach entered c → IsLed c
unfolding enter take_batch resolve_batch step_down abandon
Reach-IsLed entered c starts = inr (refl, refl)
Reach-IsLed entered c (enters es d item r) = inl refl
Reach-IsLed entered c (takes es d r) =
    if_both IsLed (d.leading && is_empty d.batch) (took d) d
      (elim (Reach-IsLed es d r) [ inl h ↦ inl h | inr h ↦ inr (refl, h.0) ]) (Reach-IsLed es d r)
Reach-IsLed entered c (resolves es d o r) =
    if_both IsLed d.leading _ d
      (elim (Reach-IsLed es d r) [ inl h ↦ inl h | inr h ↦ inr (h.0, refl) ]) (Reach-IsLed es d r)
Reach-IsLed entered c (steps_down es d r) =
    let idle_now = is_empty d.pending && is_empty d.batch in
    elim (Bool-cases (d.leading && idle_now)) [
      | inl e ↦
          subst (λ b. IsLed (if b then record d { committing = false; leading = false } else d))
            (sym e)
            (let both = and_right d.leading idle_now e in
              inr (
                is_empty-nil d.pending (and_left (is_empty d.pending) (is_empty d.batch) both),
                is_empty-nil d.batch (and_right (is_empty d.pending) (is_empty d.batch) both),
              ))
      | inr e ↦
          subst (λ b. IsLed (if b then record d { committing = false; leading = false } else d))
            (sym e) (Reach-IsLed es d r)
    ]
Reach-IsLed entered c (abandons es d r) = Reach-IsLed es d r

-- Marked as committing, with no leader.
abbrev pub IsStranded : Coordinator → Type 0
IsStranded c = (c.committing ≡ true) × (c.leading ≡ false)

and_false : (a b : Bool) → a ≡ false → (a && b) ≡ false
and_false a b h = ground arith

-- A step under a test that fails.
stays :
    (start d e : Coordinator) (test : Bool)
    → IsStranded d × (d.resolved ≡ start.resolved)
    → test ≡ false
    → IsStranded (if test then e else d) × ((if test then e else d).resolved ≡ start.resolved)
stays start d e test h f =
    subst (λ x. IsStranded x × (x.resolved ≡ start.resolved)) (sym (if_false test e d f)) h

pub Runs-IsStranded :
    (start : Coordinator) (entered : List PendingItem) (c : Coordinator)
    → IsStranded start
    → Runs start entered c
    → IsStranded c × (c.resolved ≡ start.resolved)
unfolding enter take_batch resolve_batch step_down abandon
Runs-IsStranded start entered c h starts = (h, refl)
Runs-IsStranded start entered c h (enters es d item r) =
    let ((marked, nobody), same) = Runs-IsStranded start es d h r in
    ((refl, ground (arith, marked, nobody)), same)
Runs-IsStranded start entered c h (takes es d r) =
    let ih = Runs-IsStranded start es d h r in
    stays start d (took d) (d.leading && is_empty d.batch) ih (and_false d.leading _ ih.0.1)
Runs-IsStranded start entered c h (resolves es d o r) =
    let ih = Runs-IsStranded start es d h r in stays start d _ d.leading ih ih.0.1
Runs-IsStranded start entered c h (steps_down es d r) =
    let ih = Runs-IsStranded start es d h r in
    stays start d _ (d.leading && (is_empty d.pending && is_empty d.batch)) ih
      (and_false d.leading _ ih.0.1)
Runs-IsStranded start entered c h (abandons es d r) =
    let ((marked, nobody), same) = Runs-IsStranded start es d h r in ((marked, refl), same)
