-- ===== src/Node/Lookup.antt =====
-- `RawNode::FindChild` and `RawNode::GetOrCreateChild`: the scan and the hash map agree.
use rawduck.Prelude.{
  ℕ, zero, suc, ◌≡◌, refl, ◌∙◌, ap, Str, str_eq, str_eq_iff, Bool, Option, none, some, [], ◌∷◌,
  arith, if◌then◌else◌,
}
use rawduck.Node.{
  Node, Children, ChildLookup, node, no_child, child, children, child_lookup, count, scan,
  lookup_find, lookup_set, child_at, update_at, push_child, child_position,
}

abbrev pub IsIndexed : ChildLookup → Children → Type 0
IsIndexed lk ch = (k : Str) → lookup_find lk k ≡ scan ch k

-- The names of the children are distinct.
abbrev pub IsDistinct : Children → Type 0
IsDistinct no_child = Unit
IsDistinct (child k n ch) = (scan ch k ≡ none) × IsDistinct ch

abbrev pub pushed_position : Option ℕ → Bool → ℕ → Option ℕ
pushed_position (some i) same n = some i
pushed_position none same n = if same then some n else none

pub scan-update_at :
    (ch : Children) (i : ℕ) (f : Node → Node) (k : Str) → scan (update_at ch i f) k ≡ scan ch k
unfolding scan update_at
scan-update_at no_child i f k = refl
scan-update_at (child j n ch) zero f k = refl
scan-update_at (child j n ch) (suc i) f k = rw (scan-update_at ch i f k)

pub count-update_at :
    (ch : Children) (i : ℕ) (f : Node → Node) → count (update_at ch i f) ≡ count ch
unfolding count update_at
count-update_at no_child i f = refl
count-update_at (child j n ch) zero f = refl
count-update_at (child j n ch) (suc i) f = ap suc (count-update_at ch i f)

pub scan-push_child :
    (ch : Children) (key : Str) (m : Node) (k : Str)
    → scan (push_child ch key m) k ≡ pushed_position (scan ch k) (str_eq key k) (count ch)
unfolding scan push_child count
scan-push_child no_child key m k = refl
scan-push_child (child j n ch) key m k = ground (arith, scan-push_child ch key m k)

pub lookup_find-lookup_set :
    (lk : ChildLookup) (key : Str) (i : ℕ) (k : Str)
    → lookup_find (lookup_set lk key i) k ≡ (if str_eq key k then some i else lookup_find lk k)
unfolding lookup_find lookup_set
lookup_find-lookup_set [] key i k = refl
lookup_find-lookup_set ((j, n) ∷ lk) key i k =
    ground
      (arith, lookup_find-lookup_set lk key i k, str_eq_iff j key, str_eq_iff key k, str_eq_iff j k)

-- Above and below the scan limit, the position found for a name is the one that the linear scan of
-- the children finds, if the hash map maps every name to its position.
pub child_position-eq-scan :
    (n : Node) (k : Str)
    → IsIndexed (child_lookup n) (children n)
    → child_position n k ≡ scan (children n) k
unfolding child_position
child_position-eq-scan (node c s ch lk el) k h = ground (arith, h k)

pub IsIndexed-add :
    (lk : ChildLookup) (ch : Children) (key : Str) (m : Node)
    → IsIndexed lk ch
    → scan ch key ≡ none
    → IsIndexed (lookup_set lk key (count ch)) (push_child ch key m)
IsIndexed-add lk ch key m h new k =
    rw (lookup_find-lookup_set, scan-push_child) (ground (arith, h k, str_eq_iff key k))

pub IsDistinct-update_at :
    (ch : Children) (i : ℕ) (f : Node → Node) → IsDistinct ch → IsDistinct (update_at ch i f)
unfolding update_at
IsDistinct-update_at no_child i f h = tt
IsDistinct-update_at (child k n ch) zero f h = h
IsDistinct-update_at (child k n ch) (suc i) f h =
    (scan-update_at ch i f k ∙ h.0, IsDistinct-update_at ch i f h.1)

pub IsDistinct-push_child :
    (ch : Children) (key : Str) (m : Node)
    → IsDistinct ch
    → scan ch key ≡ none
    → IsDistinct (push_child ch key m)
unfolding scan push_child
IsDistinct-push_child no_child key m h new = (refl, tt)
IsDistinct-push_child (child k n ch) key m h new = (
  ground (arith, scan-push_child ch key m k, str_eq_iff key k, str_eq_iff k key),
  IsDistinct-push_child ch key m h.1 (ground arith),
)

pub child_at-update_at :
    (ch : Children) (i : ℕ) (f : Node → Node)
    → child_at (update_at ch i f) i ≡ elim (child_at ch i) [ none ↦ none | some n ↦ some (f n) ]
unfolding child_at update_at
child_at-update_at no_child i f = refl
child_at-update_at (child k n ch) zero f = refl
child_at-update_at (child k n ch) (suc i) f = child_at-update_at ch i f

pub child_at-push_child_last :
    (ch : Children) (key : Str) (m : Node) → child_at (push_child ch key m) (count ch) ≡ some m
unfolding child_at push_child count
child_at-push_child_last no_child key m = refl
child_at-push_child_last (child k n ch) key m = child_at-push_child_last ch key m

pub child_at-push_child :
    (ch : Children) (key : Str) (m : Node) (i : ℕ) (n : Node)
    → child_at ch i ≡ some n
    → child_at (push_child ch key m) i ≡ some n
unfolding child_at push_child
child_at-push_child no_child key m i n h = cc
child_at-push_child (child k n' ch) key m zero n h = h
child_at-push_child (child k n' ch) key m (suc i) n h = child_at-push_child ch key m i n h

-- The scan stays inside the vector.
pub scan-child_at :
    (ch : Children) (key : Str) (i : ℕ)
    → scan ch key ≡ some i
    → (n : Node) × (child_at ch i ≡ some n)
unfolding scan child_at
scan-child_at no_child key i h = cc
scan-child_at (child k n ch) key zero h = (n, refl)
scan-child_at (child k n ch) key (suc i) h = scan-child_at ch key i (ground arith)
