-- ===== src/Pipeline/Invariant/Readers.antt =====
-- The reader's steps keep the invariant.
use rawduck.Prelude.{
  ℕ, ◌≡◌, refl, ap, inr, Str, length, Bool, true, false, List, [], ◌∷◌, arith, sum_by-append,
  length-append, ◌++◌, ltb→lt,
}
use rawduck.Pipeline.{
  abort, reader_ends, parser_ends, reading, finished, System, has_room, read_error,
}
use rawduck.Pipeline.Invariant.{to_read, Inv, error_before}

module _ (weight : Str → ℕ) (batches : List Str) where
  pub pushes-Inv :
      (s : System) (batch : Str) (left : List Str) (fails : Bool)
      → s.reader ≡ reading (batch ∷ left) fails
      → s.pipe.aborted ≡ false
      → has_room s.pipe.raw_queue s.pipe.capacity ≡ true
      → Inv weight batches s
      → Inv weight batches (record s {
        pipe = record s.pipe { raw_queue = s.pipe.raw_queue ++ (batch ∷ []) };
        reader = reading left fails;
      })
  unfolding reader_ends parser_ends abort
  pushes-Inv s batch left fails e a r h = record {
    raw_bound = omega (
      arith,
      length-append s.pipe.raw_queue (batch ∷ []),
      ltb→lt (length s.pipe.raw_queue) s.pipe.capacity r,
    );
    bound = h.bound;
    active = h.active;
    read = λ p q. cc (h.read p q);
    done = λ p. cc;
    erred = h.erred;
    parser_done = h.parser_done;
    parser_left = λ p q. cc (h.read q.0 (h.parser_done p q.0));
    consumer_done = h.consumer_done;
    kept = λ p. omega (
      arith,
      h.kept p,
      ap (to_read weight) e,
      sum_by-append weight s.pipe.raw_queue (batch ∷ []),
    );
  }

  pub drops-Inv :
      (s : System) (batch : Str) (left : List Str) (fails : Bool)
      → s.reader ≡ reading (batch ∷ left) fails
      → s.pipe.aborted ≡ true
      → Inv weight batches s
      → Inv weight batches (record s { reader = reading left fails })
  unfolding reader_ends parser_ends abort
  drops-Inv s batch left fails e a h = record {
    raw_bound = h.raw_bound;
    bound = h.bound;
    active = h.active;
    read = λ p q. cc;
    done = λ p. cc;
    erred = h.erred;
    parser_done = h.parser_done;
    parser_left = h.parser_left;
    consumer_done = h.consumer_done;
    kept = λ p. cc (p.0);
  }

  pub stops_reading-Inv :
      (s : System) (fails : Bool)
      → s.reader ≡ reading [] fails
      → Inv weight batches s
      → Inv weight batches
          (record s { pipe = reader_ends s.pipe (read_error fails); reader = finished })
  unfolding reader_ends parser_ends abort
  stops_reading-Inv s fails e h = record {
    raw_bound = h.raw_bound;
    bound = h.bound;
    active = h.active;
    read = λ p q. refl;
    done = λ p. refl;
    erred = inr (inr refl);
    parser_done = λ p q. refl;
    parser_left = λ p q. h.parser_left p (q.0, error_before s.pipe.error _ q.1);
    consumer_done = λ p q. let c = h.consumer_done p q in (c.0, c.1, refl);
    kept = λ p. omega (arith, h.kept (p.0, error_before s.pipe.error _ p.1), ap (to_read weight) e);
  }
