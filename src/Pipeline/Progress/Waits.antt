-- ===== src/Pipeline/Progress/Waits.antt =====
-- When an operation of the pipeline does not wait, and which threads are not over.
use rawduck.Prelude.{
  ℕ, suc, ◌<◌, ◌≡◌, ◌⊎◌, refl, inl, inr, Str, length, Bool, true, false, Option, none, some, List,
  [], ◌∷◌, get_elem?, arith, sum_by, if◌then◌else◌,
}
use rawduck.Duck.{Duck}
use rawduck.Payload.{RawParseOptions}
use rawduck.Pipeline.{
  Item, Pipe, has_room, push_raw, push, Taken, waits, closed, taken, pop_raw, pop_raw_from, pop,
  pop_from, Parser, ready, holding, failing, ended, System, after_pop, after_take,
}
use rawduck.Pipeline.Invariant.{is_active, is_running}

-- Not the instruction to wait.
abbrev pub Given : {A : Type 0} → Option A → Type 0
Given {A} o = (a : A) × (o ≡ some a)

abbrev pub Answers : {A : Type 0} → Taken A → Type 0
Answers waits = ⊥
Answers _ = Unit

-- What an operation needs in order not to wait.
pub tested-Given :
    (a r : Bool) (p q : Pipe)
    → (a ≡ true) ⊎ (r ≡ true)
    → Given (if a then some p else if r then some q else none)
tested-Given true r p q h = (p, refl)
tested-Given false true p q h = (q, refl)
tested-Given false false p q h = elim h [ inl e ↦ cc | inr e ↦ cc ]

pub push_raw-Given :
    (p : Pipe) (batch : Str)
    → (p.aborted ≡ true) ⊎ (has_room p.raw_queue p.capacity ≡ true)
    → Given (push_raw p batch)
unfolding push_raw
push_raw-Given p batch = tested-Given p.aborted (has_room p.raw_queue p.capacity) p _

pub push-Given :
    (p : Pipe) (item : Item)
    → (p.aborted ≡ true) ⊎ (has_room p.queue p.capacity ≡ true)
    → Given (push p item)
unfolding push
push-Given p item = tested-Given p.aborted (has_room p.queue p.capacity) p _

pub pop_raw-Answers :
    (p : Pipe)
    → (p.aborted ≡ true) ⊎ ((p.reader_done ≡ true) ⊎ (0 < length p.raw_queue))
    → Answers (pop_raw p)
unfolding pop_raw
pop_raw-Answers p h = go p.aborted p.raw_queue h
  where
    go :
        (a : Bool) (raw : List Str)
        → (a ≡ true) ⊎ ((p.reader_done ≡ true) ⊎ (0 < length raw))
        → Answers (if a then closed else pop_raw_from p raw)
    go true raw h = tt
    go false [] h = elim h [
      | inl b ↦ cc
      | inr r ↦ elim r [ inl d ↦ rw d tt | inr l ↦ absurd (omega arith) ]
    ]
    go false (b ∷ raw) h = tt

pub pop-Answers :
    (p : Pipe)
    → (p.aborted ≡ true)
      ⊎ (((p.reader_done ≡ true) × (p.active_parsers ≡ 0)) ⊎ (0 < length p.queue))
    → Answers (pop p)
unfolding pop
pop-Answers p h = go p.aborted p.queue h
  where
    go :
        (a : Bool) (queue : List Item)
        → (a ≡ true) ⊎ (((p.reader_done ≡ true) × (p.active_parsers ≡ 0)) ⊎ (0 < length queue))
        → Answers (if a then closed else pop_from p queue)
    go true queue h = tt
    go false [] h = elim h [
      | inl b ↦ cc
      | inr r ↦ elim r [ inl d ↦ rw (d.0, d.1) tt | inr l ↦ absurd (omega arith) ]
    ]
    go false (b ∷ queue) h = tt

-- Which parser or consumer is not over, if one is.
pub active_parser :
    (parsers : List Parser)
    → (sum_by is_active parsers ≡ 0)
      ⊎ ((i : ℕ) × ((w : Parser) × ((get_elem? parsers i ≡ some w) × (is_active w ≡ 1))))
active_parser [] = inl refl
active_parser (ended ∷ ps) = elim (active_parser ps) [
  | inl e ↦ inl (omega (arith, e))
  | inr (i, (w, h)) ↦ inr (suc i, (w, h))
]
active_parser (ready ∷ ps) = inr (0, (ready, (refl, refl)))
active_parser (holding item ∷ ps) = inr (0, (holding item, (refl, refl)))
active_parser (failing batch e ∷ ps) = inr (0, (failing batch e, (refl, refl)))

pub running_consumer :
    (consumers : List Bool)
    → (sum_by is_running consumers ≡ 0) ⊎ ((i : ℕ) × (get_elem? consumers i ≡ some true))
running_consumer [] = inl refl
running_consumer (true ∷ cs) = inr (0, refl)
running_consumer (false ∷ cs) = elim (running_consumer cs) [
  | inl e ↦ inl (omega (arith, e))
  | inr (i, h) ↦ inr (suc i, h)
]

module _ (duck : Duck) (options : RawParseOptions) where
  pub after_pop-Given :
      (s : System) (i : ℕ) (r : Taken Str) → Answers r → Given (after_pop duck options s i r)
  after_pop-Given s i waits h = elim h [ ]
  after_pop-Given s i closed h = (_, refl)
  after_pop-Given s i (taken batch p) h = (_, refl)

  pub after_take-Given :
      (s : System) (i : ℕ) (r : Taken Item) → Answers r → Given (after_take s i false r)
  after_take-Given s i waits h = elim h [ ]
  after_take-Given s i closed h = (_, refl)
  after_take-Given s i (taken item p) h = (_, refl)
