-- ===== src/Node/Route.antt =====
-- Where a key is routed before and after a change through `GetOrCreateChild`.
use rawduck.Prelude.{
  ℕ, zero, suc, ◌≡◌, refl, sym, ◌∙◌, ◌⊎◌, inl, inr, Str, str_eq_refl, Option, none, some, arith,
  Option-cases, subst, some-eq,
}
use rawduck.Node.{
  Node, Children, node, no_child, child, children, empty_node, count, scan, child_at, update_at,
  push_child, child_position, find_child, get_or_create_child, add_child, update_child, with_child,
}
use rawduck.Node.Lookup.{
  scan-update_at, scan-push_child, child_at-update_at, child_at-push_child,
  child_at-push_child_last, scan-child_at,
}
use rawduck.Node.WellFormed.{
  IsWellFormed, AreWellFormed, IsObject, KeepsWellFormed, IsWellFormed-position,
  IsWellFormed-empty_node, with_child-IsObject,
}

abbrev pub at_position : Children → Option ℕ → Option Node
at_position ch none = none
at_position ch (some i) = child_at ch i

abbrev pub route : Children → Str → Option Node
route ch k = at_position ch (scan ch k)

pub find_child-eq-route :
    (n : Node) (k : Str) → IsWellFormed n → find_child n k ≡ route (children n) k
unfolding find_child
find_child-eq-route n k h = ground (arith, IsWellFormed-position n k h)

child_at-update_at_or :
    (ch : Children) (i j : ℕ) (f : Node → Node) (m : Node)
    → child_at ch j ≡ some m
    → (child_at (update_at ch i f) j ≡ some m) ⊎ (child_at (update_at ch i f) j ≡ some (f m))
unfolding child_at update_at
child_at-update_at_or no_child i j f m e = cc
child_at-update_at_or (child k n ch) zero zero f m e = ground arith
child_at-update_at_or (child k n ch) zero (suc j) f m e = inl e
child_at-update_at_or (child k n ch) (suc i) zero f m e = inl e
child_at-update_at_or (child k n ch) (suc i) (suc j) f m e = child_at-update_at_or ch i j f m e

abbrev pub Kept : Option Node → (Node → Node) → Node → Type 0
Kept o f m = (o ≡ some m) ⊎ (o ≡ some (f m))

route-update_at :
    (ch : Children) (i : ℕ) (f : Node → Node) (k : Str) (m : Node)
    → route ch k ≡ some m
    → Kept (route (update_at ch i f) k) f m
route-update_at ch i f k m e = rw (scan-update_at ch i f k, at_position) (at_scan (scan ch k) e)
  where
    at_scan :
        (o : Option ℕ) → at_position ch o ≡ some m → Kept (at_position (update_at ch i f) o) f m
    at_scan none e = cc
    at_scan (some j) e = child_at-update_at_or ch i j f m e

route-push_child :
    (ch : Children) (key : Str) (new : Node) (k : Str) (m : Node)
    → route ch k ≡ some m
    → route (push_child ch key new) k ≡ some m
route-push_child ch key new k m e = elim (Option-cases (scan ch k)) [
  | inl s ↦ ground arith
  | inr (i, s) ↦ ground (arith, scan-push_child ch key new k, child_at-push_child ch key new i m)
]

route-push_child_self :
    (ch : Children) (key : Str) (new : Node)
    → scan ch key ≡ none
    → route (push_child ch key new) key ≡ some new
route-push_child_self ch key new e =
    ground
      (arith, scan-push_child ch key new key, str_eq_refl key, child_at-push_child_last ch key new)

route-update_at_self :
    (ch : Children) (i : ℕ) (f : Node → Node) (k : Str) (m : Node)
    → scan ch k ≡ some i
    → child_at ch i ≡ some m
    → route (update_at ch i f) k ≡ some (f m)
route-update_at_self ch i f k m s e =
    ground (arith, scan-update_at ch i f k, child_at-update_at ch i f)

AreWellFormed-child_at :
    (ch : Children) (i : ℕ) (m : Node) → AreWellFormed ch → child_at ch i ≡ some m → IsWellFormed m
unfolding child_at
AreWellFormed-child_at no_child i m h e = cc
AreWellFormed-child_at (child k n ch) zero m h e = subst IsWellFormed (some-eq _ _ e) h.0
AreWellFormed-child_at (child k n ch) (suc i) m h e = AreWellFormed-child_at ch i m h.1 e

children-add_child :
    (n : Node) (k : Str) → children (add_child n k).0 ≡ push_child (children n) k empty_node
children-add_child (node c s ch lk el) k = refl

count-add_child : (n : Node) (k : Str) → (add_child n k).1 ≡ count (children n)
count-add_child (node c s ch lk el) k = refl

children-update_child :
    (i : ℕ) (f : Node → Node) (n : Node)
    → children (update_child i f n) ≡ update_at (children n) i f
children-update_child i f (node c s ch lk el) = refl

IsWellFormed-children : (n : Node) → IsWellFormed n → AreWellFormed (children n)
IsWellFormed-children (node c s ch lk el) h = h.3

-- The children after a change: an update of the child that was there, or of a new last child.
children-with_child :
    (k : Str) (f : Node → Node) (n : Node)
    → IsWellFormed n
    → ((i : ℕ) × (scan (children n) k ≡ some i)
        × (children (with_child k f n) ≡ update_at (children n) i f))
      ⊎ ((scan (children n) k ≡ none)
          × (children (with_child k f n)
              ≡ update_at (push_child (children n) k empty_node) (count (children n)) f))
unfolding with_child get_or_create_child
children-with_child k f n h = elim (Option-cases (child_position n k)) [
  | inl e ↦ inr (
    sym (IsWellFormed-position n k h) ∙ e,
    rw (e, get_or_create_child)
        (children-update_child (add_child n k).1 f (add_child n k).0
          ∙ rw (children-add_child n k, count-add_child n k)),
  )
  | inr (i, e) ↦ inl (
    i,
    sym (IsWellFormed-position n k h) ∙ e,
    rw (e, get_or_create_child) (children-update_child i f n),
  )
]

pub find_child-IsWellFormed :
    (n : Node) (k : Str) (m : Node) → IsWellFormed n → find_child n k ≡ some m → IsWellFormed m
find_child-IsWellFormed n k m h e =
    at_scan (scan (children n) k) (sym (find_child-eq-route n k h) ∙ e)
  where
    at_scan : (o : Option ℕ) → at_position (children n) o ≡ some m → IsWellFormed m
    at_scan none e = cc
    at_scan (some i) e = AreWellFormed-child_at (children n) i m (IsWellFormed-children n h) e

module _ (k : Str) (f : Node → Node) (n : Node) (keep : KeepsWellFormed f) (h : IsObject n) where
  find-with : (k' : Str) → find_child (with_child k f n) k' ≡ route (children (with_child k f n)) k'
  find-with k' = find_child-eq-route (with_child k f n) k' (with_child-IsObject k f n keep h).1

  -- A key that was routed to a child still is, and the child is as it was or `f` of it.
  pub find_child-with_child :
      (k' : Str) (m : Node) → find_child n k' ≡ some m → Kept (find_child (with_child k f n) k') f m
  find_child-with_child k' m e = rw (find-with k') (at_children (children-with_child k f n h.1))
    where
      before : route (children n) k' ≡ some m
      before = sym (find_child-eq-route n k' h.1) ∙ e

      at_children :
          ((i : ℕ) × (scan (children n) k ≡ some i)
              × (children (with_child k f n) ≡ update_at (children n) i f))
            ⊎ ((scan (children n) k ≡ none)
                × (children (with_child k f n)
                    ≡ update_at (push_child (children n) k empty_node) (count (children n)) f))
          → Kept (route (children (with_child k f n)) k') f m
      at_children (inl (i, s, c)) = rw c (route-update_at (children n) i f k' m before)
      at_children (inr (s, c)) = rw c (
          route-update_at (push_child (children n) k empty_node) (count (children n)) f k' m
            (route-push_child (children n) k empty_node k' m before))

  -- The changed key is routed to `f` of a well-formed child.
  pub find_child-with_child_self :
      (c : Node) × IsWellFormed c × (find_child (with_child k f n) k ≡ some (f c))
  find_child-with_child_self = elim (children-with_child k f n h.1) [
    | inl (i, s, c) ↦ old i s c (scan-child_at (children n) k i s)
    | inr (s, c) ↦ (
      empty_node,
      IsWellFormed-empty_node,
      find-with k
          ∙ rw c (
              route-update_at_self (push_child (children n) k empty_node) (count (children n)) f k
                empty_node
                (ground (arith, scan-push_child (children n) k empty_node k, str_eq_refl k))
                (child_at-push_child_last (children n) k empty_node)),
    )
  ]
    where
      old :
          (i : ℕ)
          → scan (children n) k ≡ some i
          → children (with_child k f n) ≡ update_at (children n) i f
          → ((m : Node) × (child_at (children n) i ≡ some m))
          → (c : Node) × IsWellFormed c × (find_child (with_child k f n) k ≡ some (f c))
      old i s c (m, e) = (
        m,
        AreWellFormed-child_at (children n) i m (IsWellFormed-children n h.1) e,
        find-with k ∙ rw c (route-update_at_self (children n) i f k m s e),
      )
