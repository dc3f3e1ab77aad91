-- ===== src/Examples/Buffers.antt =====
-- Small runs of the asynchronous buffers.
use rawduck.Prelude.{◌≡◌, refl, Bool, [], ◌∷◌, ◌++◌, codes, false}
use rawduck.Payload.{RawParseOptions}
use rawduck.Async.{Payload, Buffer, Buffers, enqueue, is_due, take_due}
use rawduck.Async.Sizes.{AreCounted}
use rawduck.Async.Flushed.{Reach, starts, enqueues, passes, waiting, sent_to, entries, Reach-order}

abbrev plain : RawParseOptions
plain = record { ignore_errors = false; explode_path = []; otlp = false }

abbrev one : Payload
one = (codes "1", plain)

abbrev buffered : Buffers
buffered = enqueue (enqueue [] (codes "a") one 0) (codes "b") (codes "22", plain) 5

buffered-AreCounted : AreCounted buffered
unfolding enqueue
buffered-AreCounted = (refl, (refl, tt))

abbrev by_size : Buffer → Bool
by_size = is_due 200 2 10

run :
    Reach
      ((codes "a", one) ∷ (codes "b", (codes "22", plain)) ∷ [])
      (entries (take_due by_size buffered).0)
      (take_due by_size buffered).1
run = passes ((codes "a", one) ∷ (codes "b", (codes "22", plain)) ∷ []) [] buffered by_size (
    enqueues ((codes "a", one) ∷ []) [] (enqueue [] (codes "a") one 0) (codes "b")
      (codes "22", plain) 5 (enqueues [] [] [] (codes "a") one 0 starts))

Reach-order_example :
    sent_to (entries (take_due by_size buffered).0) (codes "b")
      ++ waiting (take_due by_size buffered).1 (codes "b")
    ≡ sent_to ((codes "a", one) ∷ (codes "b", (codes "22", plain)) ∷ []) (codes "b")
Reach-order_example =
    Reach-order ((codes "a", one) ∷ (codes "b", (codes "22", plain)) ∷ [])
      (entries (take_due by_size buffered).0) (take_due by_size buffered).1 (codes "b") run
