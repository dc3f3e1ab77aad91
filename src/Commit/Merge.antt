-- ===== src/Commit/Merge.antt =====
-- What a merged batch is: all rows, but only the first request's schema.
use rawduck.Prelude.{◌≡◌, refl, sym, ◌∙◌, ap, Str, List, [], ◌∷◌, ◌++◌}
use mathlib.Core.List.{append_assoc, append-nil}
use rawduck.Json.{Value}
use rawduck.Payload.{RawParsedPayload}
use rawduck.Payload.Lines.{join_lines}
use rawduck.Commit.{PendingItem, merge_parsed_payloads, merge_batch, combined_text}

abbrev pub rows_of : List PendingItem → List Value
rows_of [] = []
rows_of (item ∷ items) = item.parsed.payload.rows ++ rows_of items

-- The combined payload of a batch has the rows of all requests in their order, and the columns and
-- the schema tree of the first request alone: columns that only later requests have are in neither.
pub merge_batch-rows :
    (first : RawParsedPayload) (items : List PendingItem)
    → ((merge_batch first items).payload.rows ≡ first.payload.rows ++ rows_of items)
      × ((merge_batch first items).columns ≡ first.columns)
      × ((merge_batch first items).root ≡ first.root)
unfolding merge_batch merge_parsed_payloads
merge_batch-rows first [] = (sym (append-nil first.payload.rows), refl, refl)
merge_batch-rows first (item ∷ items) =
    let rest = merge_batch-rows (merge_parsed_payloads first item.parsed) items in
    (
      rest.0 ∙ append_assoc first.payload.rows item.parsed.payload.rows (rows_of items),
      rest.1,
      rest.2,
    )

abbrev pub texts : List PendingItem → List Str
texts [] = []
texts (item ∷ items) = item.payload_text ∷ texts items

combined_text-append :
    (a b : Str) (items : List PendingItem)
    → combined_text (a ++ b) items ≡ a ++ combined_text b items
unfolding combined_text
combined_text-append a b [] = refl
combined_text-append a b (item ∷ items) =
    rw (append_assoc a b (b'\n' ∷ item.payload_text))
      (combined_text-append a (b ++ (b'\n' ∷ item.payload_text)) items)

-- The combined text is the requests' texts with a newline between each two, so that a text without
-- newlines is a line of its own.
pub combined_text-lines :
    (text : Str) (items : List PendingItem)
    → combined_text text items ≡ join_lines text (texts items)
unfolding combined_text join_lines
combined_text-lines text [] = refl
combined_text-lines text (item ∷ items) =
    combined_text-append text (b'\n' ∷ item.payload_text) items
    ∙ ap (λ t. text ++ t)
        (combined_text-append (b'\n' ∷ []) item.payload_text items
          ∙ ap (λ t. b'\n' ∷ t) (combined_text-lines item.payload_text items))
