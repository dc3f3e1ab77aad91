-- ===== src/Pipeline/Invariant/Parsers.antt =====
-- The parsers' steps keep the invariant.
use rawduck.Prelude.{
  ℕ, ◌-◌, ◌||◌, ◌≡◌, refl, sym, ap, subst, inl, inr, Str, length, true, false, Option, none, some,
  List, [], ◌∷◌, arith, sum_by, sum_by-append, sum_by-update_nth, length-append, ◌++◌, get_elem?,
  length-update_nth, Option-cases, Result, err, ok, ltb→lt,
}
use rawduck.Duck.{Duck}
use rawduck.Payload.{RawParseOptions, RawParsedPayload, Failure, process}
use rawduck.Pipeline.{
  Item, Pipe, Exception, abort, reader_ends, parser_ends, first_error, aborts, set_parser,
  parse_failed, ready, holding, failing, ended, System, parse_batch, parse_result, has_room,
}
use rawduck.Pipeline.Moves.{IsClosedRaw}
use rawduck.Pipeline.Invariant.{is_active, item_weight, in_hand, Inv}

parser_ends-none :
    (p : Pipe) → parser_ends p none ≡ record p { active_parsers = p.active_parsers - 1 }
unfolding parser_ends
parser_ends-none p = go p.error
  where
    go :
        (e : Option Exception)
        → record p {
          error = first_error e none;
          aborted = aborts e none || p.aborted;
          active_parsers = p.active_parsers - 1;
        }
          ≡ record p { error = e; active_parsers = p.active_parsers - 1 }
    go none = refl
    go (some e) = refl

parser_ends-first :
    (p : Pipe) (x : Exception)
    → p.error ≡ none
    → parser_ends p (some x)
      ≡ record p { error = some x; aborted = true; active_parsers = p.active_parsers - 1 }
unfolding parser_ends
parser_ends-first p x q = rw q refl

parser_ends-later :
    (p : Pipe) (x y : Exception)
    → p.error ≡ some y
    → parser_ends p (some x) ≡ record p { error = some y; active_parsers = p.active_parsers - 1 }
unfolding parser_ends
parser_ends-later p x y q = rw q refl

module _ (duck : Duck) (options : RawParseOptions) (weight : Str → ℕ) (batches : List Str) where
  parse_batch_active : (batch : Str) → is_active (parse_batch duck options batch) ≡ 1
  unfolding parse_batch
  parse_batch_active batch = go (process duck batch options)
    where
      go : (r : Result Failure RawParsedPayload) → is_active (parse_result duck options batch r) ≡ 1
      go (err e) = refl
      go (ok p) = refl

  parse_batch_weight :
      (batch : Str) → in_hand weight (parse_batch duck options batch) ≡ weight batch
  unfolding parse_batch
  parse_batch_weight batch = go (process duck batch options)
    where
      go :
          (r : Result Failure RawParsedPayload)
          → in_hand weight (parse_result duck options batch r) ≡ weight batch
      go (err e) = refl
      go (ok p) = refl

  pub pops_raw-Inv :
      (s : System) (i : ℕ) (batch : Str) (rest : List Str)
      → get_elem? s.parsers i ≡ some ready
      → s.pipe.aborted ≡ false
      → s.pipe.raw_queue ≡ batch ∷ rest
      → Inv weight batches s
      → Inv weight batches
          (set_parser s i (record s.pipe { raw_queue = rest }) (parse_batch duck options batch))
  unfolding reader_ends parser_ends abort
  pops_raw-Inv s i batch rest w a e h =
      let u = sum_by-update_nth is_active s.parsers i ready (parse_batch duck options batch) w in
      let n = length-update_nth s.parsers i (parse_batch duck options batch) in
      record {
        raw_bound = omega (arith, h.raw_bound, ap length e);
        bound = h.bound;
        active = omega (arith, h.active, u, parse_batch_active batch);
        read = h.read;
        done = h.done;
        erred = h.erred;
        parser_done = λ p q. h.parser_done (omega (arith, p, u, n, parse_batch_active batch)) q;
        parser_left =
            λ p q. cc (h.parser_left (omega (arith, p, u, n, parse_batch_active batch)) q);
        consumer_done = h.consumer_done;
        kept = λ p. omega (
          arith,
          h.kept p,
          ap (sum_by weight) e,
          parse_batch_weight batch,
          sum_by-update_nth (in_hand weight) s.parsers i ready (parse_batch duck options batch) w,
        );
      }

  pub stops_parsing-Inv :
      (s : System) (i : ℕ)
      → get_elem? s.parsers i ≡ some ready
      → IsClosedRaw s.pipe
      → Inv weight batches s
      → Inv weight batches (set_parser s i (parser_ends s.pipe none) ended)
  unfolding reader_ends parser_ends abort
  stops_parsing-Inv s i w c h =
      let u = sum_by-update_nth is_active s.parsers i ready ended w in
      subst (λ p. Inv weight batches (set_parser s i p ended)) (sym (parser_ends-none s.pipe))
        (record {
          raw_bound = h.raw_bound;
          bound = h.bound;
          active = omega (arith, h.active, u);
          read = h.read;
          done = h.done;
          erred = h.erred;
          parser_done = λ p q. elim c [ inl a ↦ cc | inr r ↦ r.1 ];
          parser_left = λ p q. elim c [ inl a ↦ cc (q.0) | inr r ↦ r.0 ];
          consumer_done = λ p q. let r = h.consumer_done p q in (r.0, omega (arith, r.1), r.2);
          kept = λ p.
              omega (arith, h.kept p, sum_by-update_nth (in_hand weight) s.parsers i ready ended w);
        })

  pub pushes_item-Inv :
      (s : System) (i : ℕ) (item : Item)
      → get_elem? s.parsers i ≡ some (holding item)
      → s.pipe.aborted ≡ false
      → has_room s.pipe.queue s.pipe.capacity ≡ true
      → Inv weight batches s
      → Inv weight batches
          (set_parser s i (record s.pipe { queue = s.pipe.queue ++ (item ∷ []) }) ready)
  unfolding reader_ends parser_ends abort
  pushes_item-Inv s i item w a r h =
      let u = sum_by-update_nth is_active s.parsers i (holding item) ready w in
      let n = length-update_nth s.parsers i ready in
      record {
        raw_bound = h.raw_bound;
        bound = omega (
          arith,
          length-append s.pipe.queue (item ∷ []),
          ltb→lt (length s.pipe.queue) s.pipe.capacity r,
        );
        active = omega (arith, h.active, u);
        read = h.read;
        done = h.done;
        erred = h.erred;
        parser_done = λ p q. h.parser_done (omega (arith, p, u, n)) q;
        parser_left = λ p q. h.parser_left (omega (arith, p, u, n)) q;
        consumer_done = λ p q. absurd (
            omega (
              arith,
              (h.consumer_done p q).1,
              h.active,
              sum_by-update_nth is_active s.parsers i (holding item) ended w,
            ));
        kept = λ p. omega (
          arith,
          h.kept p,
          sum_by-append (item_weight weight) s.pipe.queue (item ∷ []),
          sum_by-update_nth (in_hand weight) s.parsers i (holding item) ready w,
        );
      }

  pub drops_item-Inv :
      (s : System) (i : ℕ) (item : Item)
      → get_elem? s.parsers i ≡ some (holding item)
      → s.pipe.aborted ≡ true
      → Inv weight batches s
      → Inv weight batches (set_parser s i s.pipe ready)
  unfolding reader_ends parser_ends abort
  drops_item-Inv s i item w a h =
      let u = sum_by-update_nth is_active s.parsers i (holding item) ready w in
      let n = length-update_nth s.parsers i ready in
      record {
        raw_bound = h.raw_bound;
        bound = h.bound;
        active = omega (arith, h.active, u);
        read = h.read;
        done = h.done;
        erred = h.erred;
        parser_done = λ p q. cc;
        parser_left = λ p q. cc (q.0);
        consumer_done = λ p q. cc;
        kept = λ p. cc (p.0);
      }

  pub fails_parsing-Inv :
      (s : System) (i : ℕ) (batch : Str) (f : Failure)
      → get_elem? s.parsers i ≡ some (failing batch f)
      → Inv weight batches s
      → Inv weight batches (set_parser s i (parser_ends s.pipe (some (parse_failed f))) ended)
  unfolding reader_ends parser_ends abort
  fails_parsing-Inv s i batch f w h = elim (Option-cases s.pipe.error) [
    | inl e ↦
        subst (λ p. Inv weight batches (set_parser s i p ended))
          (sym (parser_ends-first s.pipe (parse_failed f) e))
          (record {
            raw_bound = h.raw_bound;
            bound = h.bound;
            active = omega (
              arith,
              h.active,
              sum_by-update_nth is_active s.parsers i (failing batch f) ended w,
            );
            read = λ p q. cc;
            done = h.done;
            erred = inr (inl refl);
            parser_done = λ p q. cc;
            parser_left = λ p q. cc (q.0);
            consumer_done = λ p q. cc;
            kept = λ p. cc (p.0);
          })
    | inr (x, e) ↦
        subst (λ p. Inv weight batches (set_parser s i p ended))
          (sym (parser_ends-later s.pipe (parse_failed f) x e))
          (record {
            raw_bound = h.raw_bound;
            bound = h.bound;
            active = omega (
              arith,
              h.active,
              sum_by-update_nth is_active s.parsers i (failing batch f) ended w,
            );
            read = h.read;
            done = h.done;
            erred = inr (elim h.erred [ inl n ↦ cc | inr r ↦ r ]);
            parser_done =
                λ p q. elim h.erred [ inl n ↦ cc | inr r ↦ elim r [ inl a ↦ cc | inr d ↦ d ] ];
            parser_left = λ p q. cc (q.1);
            consumer_done = λ p q. let r = h.consumer_done p q in (r.0, omega (arith, r.1), r.2);
            kept = λ p. cc (p.1);
          })
  ]
