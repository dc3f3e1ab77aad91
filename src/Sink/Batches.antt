-- ===== src/Sink/Batches.antt =====
-- The batches that a thread of the sink ingests.
use rawduck.Prelude.{
  ℕ, ◌≤◌, leb, leb→le, length, Bool, true, false, ◌≡◌, refl, sym, ap, ◌∙◌, subst, inl, inr, Str,
  Option, none, some, List, [], ◌∷◌, ◌++◌, if◌then◌else◌, Result, err, ok, and_then_ok, Bool-cases,
}
use mathlib.Core.List.{append_assoc, append-nil}
use rawduck.SqlType.{TypeId}
use rawduck.Json.{Value}
use rawduck.Duck.{Duck}
use rawduck.Flatten.{is_empty}
use rawduck.Payload.{
  Failure, RawParseOptions, RawPayload, collect_rows, add_document, add_rows, add_parse_error,
  invalid_json,
}
use rawduck.Ingest.{Ingestor}
use rawduck.Sink.{
  SinkFailure, batch_rows, or_payload, add_documents, ingest_batch, flush_building, building_or_new,
  flush_full, sink_chunk, sink_thread,
}

pub and_then_ok-inv {ℓ κ μ} :
    {E : Type ℓ} {A : Type κ} {B : Type μ} (r : Result E A) (f : A → Result E B) (b : B)
    → and_then_ok r f ≡ ok b
    → (a : A) × ((r ≡ ok a) × (f a ≡ ok b))
and_then_ok-inv (err e) f b h = cc h
and_then_ok-inv (ok a) f b h = (a, (refl, h))

or_payload-inv {ℓ} : {A : Type ℓ} (r : Result Failure A) (a : A) → or_payload r ≡ ok a → r ≡ ok a
or_payload-inv (err e) a h = cc h
or_payload-inv (ok b) a h =
    ap (λ (x : Result SinkFailure _). elim x [ err _ ↦ ok b | ok c ↦ ok c ]) h

-- All batches but the last have enough rows.
abbrev pub AreFull : List RawPayload → Type 0
AreFull [] = Unit
AreFull (b ∷ []) = Unit
AreFull (b ∷ c ∷ bs) = (batch_rows ≤ length b.rows) × AreFull (c ∷ bs)

full-AreFull :
    (b : RawPayload) (bs : List RawPayload)
    → batch_rows ≤ length b.rows
    → AreFull bs
    → AreFull (b ∷ bs)
full-AreFull b [] h k = tt
full-AreFull b (c ∷ bs) h k = (h, k)

abbrev pub payload_rows : List RawPayload → List Value
payload_rows [] = []
payload_rows (b ∷ bs) = b.rows ++ payload_rows bs

ok_rows : (x y : RawPayload) → Path (Result Failure RawPayload) (ok x) (ok y) → x.rows ≡ y.rows
ok_rows x y h = ap (λ (r : Result Failure RawPayload). elim r [ err _ ↦ [] | ok z ↦ z.rows ]) h

empty_rows : (rows : List Value) → is_empty rows ≡ true → [] ≡ rows
empty_rows [] h = refl
empty_rows (v ∷ rows) h = cc h

full_rows : (rows : List Value) → leb batch_rows (length rows) ≡ true → is_empty rows ≡ false
full_rows [] h = cc h
full_rows (v ∷ rows) h = refl

ok_state :
    (x y : Ingestor × Option RawPayload)
    → Path (Result SinkFailure (Ingestor × Option RawPayload)) (ok x) (ok y)
    → x ≡ y
ok_state x y h =
    ap (λ (r : Result SinkFailure (Ingestor × Option RawPayload)). elim r [ err _ ↦ x | ok z ↦ z ])
      h

module _ (duck : Duck) where
  abbrev pub document_rows : Option Str → List Value
  document_rows none = []
  document_rows (some text) = elim (duck.read text) [ none ↦ [] | some root ↦ collect_rows root ]

  abbrev pub chunk_rows : List (Option Str) → List Value
  chunk_rows [] = []
  chunk_rows (d ∷ chunk) = document_rows d ++ chunk_rows chunk

  abbrev pub all_rows : List (List (Option Str)) → List Value
  all_rows [] = []
  all_rows (chunk ∷ chunks) = chunk_rows chunk ++ all_rows chunks

  document_added :
      (p q : RawPayload) (ignore : Bool) (o : Option Value)
      → (elim o as (λ _. Result Failure RawPayload) [
        | none ↦ if ignore then ok (add_parse_error p) else err invalid_json
        | some root ↦ ok (add_rows p (collect_rows root))
      ])
        ≡ ok q
      → q.rows ≡ p.rows ++ (elim o [ none ↦ [] | some root ↦ collect_rows root ])
  document_added p q true none h = sym (ok_rows (add_parse_error p) q h) ∙ sym (append-nil p.rows)
  document_added p q false none h = cc h
  document_added p q ignore (some root) h = sym (ok_rows (add_rows p (collect_rows root)) q h)

module _ (char_code : ℕ → ℕ) (id_code : TypeId → ℕ) (duck : Duck) (options : RawParseOptions) where
  add_documents-rows :
      (p q : RawPayload) (chunk : List (Option Str))
      → add_documents char_code id_code duck options p chunk ≡ ok q
      → q.rows ≡ p.rows ++ chunk_rows duck chunk
  unfolding add_documents add_document
  add_documents-rows p q [] h = sym (ok_rows p q h) ∙ sym (append-nil p.rows)
  add_documents-rows p q (none ∷ chunk) h = add_documents-rows p q chunk h
  add_documents-rows p q (some text ∷ chunk) h =
      let (r, (first, rest)) =
        and_then_ok-inv (add_document duck p text options.ignore_errors)
          (λ r. add_documents char_code id_code duck options r chunk) q h in
      add_documents-rows r q chunk rest
      ∙ ap (λ rs. rs ++ chunk_rows duck chunk)
          (document_added duck p r options.ignore_errors (duck.read text) first)
      ∙ append_assoc p.rows (document_rows duck (some text)) (chunk_rows duck chunk)

  abbrev pub ingest_batches : Ingestor → List RawPayload → Result SinkFailure Ingestor
  ingest_batches s [] = ok s
  ingest_batches s (b ∷ bs) =
      and_then_ok (ingest_batch char_code id_code duck options s b) (λ t. ingest_batches t bs)

  -- The thread has ingested the rows in these batches.
  abbrev pub IsIngested : Ingestor → List Value → Ingestor → List RawPayload → Type 0
  IsIngested s rows t bs = (ingest_batches s bs ≡ ok t) × (payload_rows bs ≡ rows) × AreFull bs

  flushed :
      (s t : Ingestor) (building : Option RawPayload)
      → flush_building char_code id_code duck options s building ≡ ok t
      → (bs : List RawPayload) × IsIngested s (building_or_new building).rows t bs
  unfolding flush_building
  flushed s t none h = ([], (h, refl, tt))
  flushed s t (some p) h = elim (Bool-cases (is_empty p.rows)) [
    | inl e ↦ ([], (rw e at h, empty_rows p.rows e, tt))
    | inr e ↦ (p ∷ [], (ap (λ r. and_then_ok r (λ t. ok t)) (rw e at h), append-nil p.rows, tt))
  ]

  -- A full payload is ingested, and another is kept.
  flush_full-IsIngested :
      (s t : Ingestor) (p : RawPayload) (r : Ingestor × Option RawPayload) (more : List Value)
      (bs : List RawPayload)
      → flush_full char_code id_code duck options s p ≡ ok r
      → IsIngested r.0 ((building_or_new r.1).rows ++ more) t bs
      → (bs' : List RawPayload) × IsIngested s (p.rows ++ more) t bs'
  unfolding flush_building
  flush_full-IsIngested s t p r more bs h i = elim (Bool-cases (leb batch_rows (length p.rows))) [
    | inr e ↦
        let kept = ok_state (s, some p) r (rw e at h) in
        (
          bs,
          subst
              (λ (z : Ingestor × Option RawPayload).
                IsIngested z.0 ((building_or_new z.1).rows ++ more) t bs)
              (sym kept) i,
        )
    | inl e ↦
        let (u, (b, q)) =
          and_then_ok-inv (ingest_batch char_code id_code duck options s p) (λ t. ok (t, none)) r
            (rw (e, full_rows p.rows e) at h) in
        let (i', rows, full) : IsIngested u more t bs =
          subst
            (λ (z : Ingestor × Option RawPayload).
              IsIngested z.0 ((building_or_new z.1).rows ++ more) t bs)
            (sym (ok_state (u, none) r q)) i in
        (
          p ∷ bs,
          (
            ap (λ x. and_then_ok x (λ t. ingest_batches t bs)) b ∙ i',
            ap (λ rs. p.rows ++ rs) rows,
            full-AreFull p bs (leb→le batch_rows (length p.rows) e) full,
          ),
        )
  ]

  sink_thread_from :
      (chunks : List (List (Option Str))) (s t : Ingestor) (building : Option RawPayload)
      → sink_thread char_code id_code duck options s building chunks ≡ ok t
      → (bs : List RawPayload) × IsIngested s
          ((building_or_new building).rows ++ all_rows duck chunks)
          t
          bs
  unfolding sink_thread sink_chunk
  sink_thread_from [] s t building h =
      let (bs, (i, rows, full)) = flushed s t building h in
      (bs, (i, rows ∙ sym (append-nil (building_or_new building).rows), full))
  sink_thread_from (chunk ∷ chunks) s t building h =
      let start = building_or_new building in
      let (r, (chunked, rest)) =
        and_then_ok-inv (sink_chunk char_code id_code duck options s building chunk)
          (λ r. sink_thread char_code id_code duck options r.0 r.1 chunks) t h in
      let (p, (added, flushed_full)) =
        and_then_ok-inv (or_payload (add_documents char_code id_code duck options start chunk))
          (flush_full char_code id_code duck options s) r chunked in
      let rows = add_documents-rows start p chunk (or_payload-inv _ p added) in
      let (bs, i) = sink_thread_from chunks r.0 t r.1 rest in
      let (bs', (i', rows', full)) =
        flush_full-IsIngested s t p r (all_rows duck chunks) bs flushed_full i in
      (
        bs',
        (
          i',
          rows'
              ∙ ap (λ rs. rs ++ all_rows duck chunks) rows
              ∙ append_assoc start.rows (chunk_rows duck chunk) (all_rows duck chunks),
          full,
        ),
      )

  -- What a thread of the INSERT sink ingests, when nothing fails: batches with exactly the rows of its
  -- documents, in the order of the chunks, where a document that is an array gives its elements, NULLs
  -- give nothing, and so do documents that are skipped as unreadable. Each batch but the last has at
  -- least 30000 rows.
  pub sink_thread-batches :
      (s t : Ingestor) (chunks : List (List (Option Str)))
      → sink_thread char_code id_code duck options s none chunks ≡ ok t
      → (bs : List RawPayload) × IsIngested s (all_rows duck chunks) t bs
  sink_thread-batches s t chunks h = sink_thread_from chunks s t none h
