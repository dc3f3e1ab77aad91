-- ===== src/Pipeline/Invariant/Consumers.antt =====
-- The consumers' steps keep the invariant.
use rawduck.Prelude.{
  ℕ, ◌≡◌, refl, ap, inl, inr, Str, length, Bool, true, false, some, List, [], ◌∷◌, arith, sum_by,
  sum_by-append, ◌++◌, get_elem?,
}
use rawduck.Pipeline.{Item, abort, reader_ends, parser_ends, System, consumer_ends}
use rawduck.Pipeline.Moves.{IsClosed}
use rawduck.Pipeline.Invariant.{item_weight, Inv}

module _ (weight : Str → ℕ) (batches : List Str) where
  pub takes-Inv :
      (s : System) (i : ℕ) (item : Item) (rest : List Item)
      → get_elem? s.consumers i ≡ some true
      → s.pipe.aborted ≡ false
      → s.pipe.queue ≡ item ∷ rest
      → Inv weight batches s
      → Inv weight batches
          (record s { pipe = record s.pipe { queue = rest }; consumed = s.consumed ++ (item ∷ []) })
  unfolding reader_ends parser_ends abort
  takes-Inv s i item rest w a e h = record {
    raw_bound = h.raw_bound;
    bound = omega (arith, h.bound, ap length e);
    active = h.active;
    read = h.read;
    done = h.done;
    erred = h.erred;
    parser_done = h.parser_done;
    parser_left = h.parser_left;
    consumer_done = λ p q. cc ((h.consumer_done p q).0);
    kept = λ p. omega (
      arith,
      h.kept p,
      ap (sum_by (item_weight weight)) e,
      sum_by-append (item_weight weight) s.consumed (item ∷ []),
    );
  }

  pub throws_item-Inv :
      (s : System) (i : ℕ) (item : Item) (rest : List Item)
      → get_elem? s.consumers i ≡ some true
      → s.pipe.aborted ≡ false
      → s.pipe.queue ≡ item ∷ rest
      → Inv weight batches s
      → Inv weight batches (consumer_ends s i (record s.pipe { queue = rest }) true)
  unfolding reader_ends parser_ends abort
  throws_item-Inv s i item rest w a e h = record {
    raw_bound = h.raw_bound;
    bound = omega (arith, h.bound, ap length e);
    active = h.active;
    read = λ p q. cc;
    done = λ p. refl;
    erred = inr (inl refl);
    parser_done = λ p q. refl;
    parser_left = λ p q. cc (q.0);
    consumer_done = λ p q. cc;
    kept = λ p. cc (p.0);
  }

  pub stops_consuming-Inv :
      (s : System) (i : ℕ) (throws : Bool)
      → get_elem? s.consumers i ≡ some true
      → IsClosed s.pipe
      → Inv weight batches s
      → Inv weight batches (consumer_ends s i s.pipe throws)
  unfolding reader_ends parser_ends abort
  stops_consuming-Inv s i true w c h = record {
    raw_bound = h.raw_bound;
    bound = h.bound;
    active = h.active;
    read = λ p q. cc;
    done = λ p. refl;
    erred = inr (inl refl);
    parser_done = λ p q. refl;
    parser_left = λ p q. cc (q.0);
    consumer_done = λ p q. cc;
    kept = λ p. cc (p.0);
  }
  stops_consuming-Inv s i false w c h = record {
    raw_bound = h.raw_bound;
    bound = h.bound;
    active = h.active;
    read = h.read;
    done = h.done;
    erred = h.erred;
    parser_done = h.parser_done;
    parser_left = h.parser_left;
    consumer_done = λ p q. elim c [ inl a ↦ cc | inr r ↦ (r.0, r.2, r.1) ];
    kept = h.kept;
  }
