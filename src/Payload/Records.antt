-- ===== src/Payload/Records.antt =====
-- RawParsedPayload::Process on newline-delimited records (src/raw_json.cpp): a row for each line.
use rawduck.Prelude.{
  ℕ, suc, ◌≡◌, refl, sym, ap, ◌∙◌, inl, inr, Str, length, Bool, true, false, not, ◌&&◌, Option,
  none, some, List, [], ◌∷◌, Bool-cases, Option-cases, some-eq, Result, err, ok, and_then_ok,
  if◌then◌else◌, arith,
}
use rawduck.Json.{Value, arr}
use rawduck.Duck.{Duck}
use rawduck.Flatten.{FlattenResult, flatten_schema, is_empty}
use rawduck.Node.{Node, empty_node, infer_schema}
use rawduck.Payload.{
  Failure, RawParseOptions, RawPayload, RawParsedPayload, empty_payload, collect_rows, split_lines,
  is_blank, parse_lines, check_row_uniformity, check_and_explode, parse, with_columns, with_schema,
  process, add_rows, set_rows,
}
use rawduck.Payload.Lines.{documents, refused_at, first_bad, read_lines, parse_lines-reads}
use rawduck.FileInput.{is_white, all_white}
use rawduck.FileInput.Whole.{keep}
use rawduck.FileInput.Content.{content}

abbrev is_array : Value → Bool
is_array (arr vs) = true
is_array _ = false

module _ (duck : Duck) where
  -- A line that is one JSON document, which is not an array.
  abbrev pub is_record : Str → Bool
  is_record line =
      if is_blank duck line
      then false
      else elim (duck.read line) [ none ↦ false | some v ↦ not (is_array v) ]

  abbrev pub are_records : List Str → Bool
  are_records [] = true
  are_records (line ∷ lines) = is_record line && are_records lines

  -- What the code relies on in DuckDB and yyjson: JSON's white space is white space, and a text of
  -- several documents is not a document, while one of a single document is that document.
  pub record ReadsLines : Type 0 where
    pub white : (c : ℕ) → is_white c ≡ true → duck.is_space c ≡ true
    pub one :
        (text : Str) (v : Value)
        → are_records (content text) ≡ true
        → duck.read text ≡ some v
        → (line : Str) × ((content text ≡ line ∷ []) × (duck.read line ≡ some v))

  all_white-blank :
      ((c : ℕ) → is_white c ≡ true → duck.is_space c ≡ true)
      → (s : Str) → all_white s ≡ true
      → is_blank duck s ≡ true
  unfolding all_white
  all_white-blank w [] h = refl
  all_white-blank w (c ∷ s) h =
      rw (w c (ground (arith, h))) (all_white-blank w s (ground (arith, h)))

  record-reads :
      (line : Str)
      → is_record line ≡ true
      → (v : Value) × ((is_blank duck line ≡ false)
          × ((duck.read line ≡ some v) × (is_array v ≡ false)))
  record-reads line r = elim (Bool-cases (is_blank duck line)) [
    | inl b ↦ ground (arith, b, r)
    | inr b ↦ elim (Option-cases (duck.read line)) [
      | inl n ↦ ground (arith, b, n, r)
      | inr (v, m) ↦ (v, (b, (m, ground (arith, b, m, r))))
    ]
  ]

  length-documents :
      ReadsLines
      → (lines : List Str) → are_records (keep lines) ≡ true
      → length (documents duck lines) ≡ length (keep lines)
  unfolding documents
  length-documents reads [] h = refl
  length-documents reads (line ∷ lines) h = elim (Bool-cases (all_white line)) [
    | inl e ↦
        let kept : keep (line ∷ lines) ≡ keep lines = rw e refl in
        rw (all_white-blank reads.white line e, kept)
          (length-documents reads lines (sym (ap are_records kept) ∙ h))
    | inr e ↦
        let kept : keep (line ∷ lines) ≡ line ∷ keep lines = rw e refl in
        let h' : (is_record line && are_records (keep lines)) ≡ true =
          sym (ap are_records kept) ∙ h in
        let (v, (blank, (read, _))) = record-reads line (ground (arith, h')) in
        rw (blank, read, kept) (ap suc (length-documents reads lines (ground (arith, h'))))
  ]

  with_columns-rows :
      (p : RawPayload) (root : Node) (f : FlattenResult) (parsed : RawParsedPayload)
      → with_columns duck p root f ≡ ok parsed
      → parsed.payload.rows ≡ p.rows
  with_columns-rows p root (FlattenResult.columns cs) parsed h =
      let same : Path RawParsedPayload (record { payload = p; root = root; columns = cs }) parsed =
        cc h in
      ap (λ x. x.payload.rows) (sym same)
  with_columns-rows p root (FlattenResult.too_many_columns n) parsed h = cc h

  -- What the end of Parse and the schema leave of the rows, without an explode path.
  checked-rows :
      (p : RawPayload) (scalar_rows : Result Failure Bool) (none_exploded : Bool)
      (exploded : Bool → Result Failure RawPayload) (parsed : RawParsedPayload)
      → none_exploded ≡ true
      → and_then_ok
          (and_then_ok scalar_rows
            (λ b. if none_exploded then ok (set_rows p p.rows b) else exploded b))
          (with_schema duck)
        ≡ ok parsed
      → parsed.payload.rows ≡ p.rows
  unfolding with_schema
  checked-rows p (err e) b exploded parsed plain h = cc h
  checked-rows p (ok s) false exploded parsed plain h = ground (arith, plain)
  checked-rows p (ok s) true exploded parsed plain h =
      let q = set_rows p p.rows s in
      let root = infer_schema duck empty_node q.rows in
      with_columns-rows q root (flatten_schema root q.scalar_rows) parsed h

  read-rows :
      (r : Result Failure RawPayload) (options : RawParseOptions) (parsed : RawParsedPayload)
      → is_empty options.explode_path ≡ true
      → and_then_ok (and_then_ok r (λ p. check_and_explode duck p options)) (with_schema duck)
        ≡ ok parsed
      → (p : RawPayload) × ((r ≡ ok p) × (parsed.payload.rows ≡ p.rows))
  unfolding check_and_explode
  read-rows (err e) options parsed plain h = cc h
  read-rows (ok p) options parsed plain h = (
    p,
    (
      refl,
      checked-rows p (check_row_uniformity p.rows) (is_empty options.explode_path) _ parsed plain h,
    ),
  )

  document-rows : (v : Value) → is_array v ≡ false → collect_rows v ≡ v ∷ []
  document-rows (arr vs) h = ground (arith, h)
  document-rows Value.null h = refl
  document-rows (Value.bool b) h = refl
  document-rows (Value.uint n) h = refl
  document-rows (Value.sint z) h = refl
  document-rows (Value.real r) h = refl
  document-rows (Value.str s) h = refl
  document-rows (Value.obj fs) h = refl

  refused_at-rows : (o : Option ℕ) (q p : RawPayload) → refused_at duck o q ≡ ok p → p.rows ≡ q.rows
  refused_at-rows none q p h = let same : q ≡ p = cc h in ap (λ x. x.rows) (sym same)
  refused_at-rows (some k) q p h = cc h

  lines-rows :
      (ignore_errors : Bool) (lines : List Str) (p : RawPayload)
      → parse_lines duck ignore_errors lines 0 empty_payload ≡ ok p
      → p.rows ≡ documents duck lines
  lines-rows ignore_errors lines p h =
      refused_at-rows (if ignore_errors then none else first_bad duck lines 0)
        (read_lines duck lines empty_payload) p
        (sym (parse_lines-reads duck ignore_errors lines 0 empty_payload) ∙ h)

  -- A text whose lines with content are records has a row for each of these lines.
  pub process-records :
      (text : Str) (options : RawParseOptions) (parsed : RawParsedPayload)
      → ReadsLines
      → is_empty options.explode_path ≡ true
      → are_records (content text) ≡ true
      → process duck text options ≡ ok parsed
      → length parsed.payload.rows ≡ length (content text)
  unfolding process parse
  process-records text options parsed reads plain records h =
      let by_lines = parse_lines duck options.ignore_errors (split_lines text) 0 empty_payload in
      let read : Option Value → Result Failure RawPayload = λ o. elim o [
        | some root ↦ ok (add_rows empty_payload (collect_rows root))
        | none ↦ by_lines
      ] in
      let (p, (e, same)) = read-rows (read (duck.read text)) options parsed plain h in
      elim (Option-cases (duck.read text)) [
        | inl n ↦
            ap length
              (same ∙ lines-rows options.ignore_errors (split_lines text) p (ap read (sym n) ∙ e))
            ∙ length-documents reads (split_lines text) records
        | inr (v, m) ↦
            let (line, (only, reads_as)) = reads.one text v records m in
            let is_one : is_record line ≡ true =
              ground (arith, sym (ap are_records only) ∙ records) in
            let (w, (_, (read_as, plain_value))) = record-reads line is_one in
            let added : add_rows empty_payload (collect_rows v) ≡ p = cc (ap read (sym m) ∙ e) in
            let is_plain : is_array v ≡ false =
              ap is_array (some-eq v w (sym reads_as ∙ read_as)) ∙ plain_value in
            ap length (same ∙ ap (λ x. x.rows) (sym added) ∙ document-rows v is_plain)
            ∙ ap length (sym only)
      ]
