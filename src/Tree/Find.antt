-- ===== src/Tree/Find.antt =====
-- What node::find answers at one node, and where it reads past the last key.
use sql_relational_database.Common.{
  ℕ, suc, ◌+◌, ◌-◌, ◌≤◌, ◌<◌, ◌≡◌, ◌≢◌, inl, inr, refl, sym, ap, ◌∙◌, true, false, arith,
  if◌then◌else◌, Bool-cases, dec_lt,
}
use sql_relational_database.Tree.Key.{Key, same, greater, compare_key, compare_key_refl, eq_of_same}
use sql_relational_database.Tree.Node.{
  Node, Found, at_slot, at_end, in_child, find_key, find, get_element, remove_from_leaf,
  dec_num_key, lower_elements,
}
use sql_relational_database.Tree.Slots.{key-get_element}
use sql_relational_database.Tree.Search.{IsSorted, Splits, Located, Sign-cases, find_key-Located}

abbrev pub Answers : Key → Node → Found → Type 0
Answers key nd (at_slot r) = (r ≤ nd.num_key) × (nd.keys r ≡ key)
Answers key nd at_end = (nd.leaf ≡ true) × ((r : ℕ) × Splits nd.keys nd.num_key key r)
Answers key nd (in_child r) = (nd.leaf ≡ false) × Splits nd.keys nd.num_key key r

-- The answer once the binary search has given slot r.
find_at : Key → Node → ℕ → Found
unfolding get_element
find_at key nd i = elim (compare_key (get_element i nd).key key) [
  | same ↦ at_slot i
  | _ ↦ if nd.leaf then at_end else in_child i
]

find-eq-find_at : (key : Key) (nd : Node) → find key nd ≡ find_at key nd (find_key key nd)
unfolding find find_at
find-eq-find_at key nd = refl

-- Neither `less` nor `greater` is taken for a match.
find_at_same :
    (key : Key) (nd : Node) (i : ℕ)
    → compare_key (nd.keys i) key ≡ same
    → find_at key nd i ≡ at_slot i
unfolding find_at
find_at_same key nd i e = ground (arith, key-get_element i nd)

find_at_differs :
    (key : Key) (nd : Node) (i : ℕ)
    → compare_key (nd.keys i) key ≢ same
    → find_at key nd i ≡ (if nd.leaf then at_end else in_child i)
unfolding find_at
find_at_differs key nd i e =
    ground (arith, key-get_element i nd, Sign-cases (compare_key (nd.keys i) key))

flip_same : (a b : Key) → compare_key a b ≡ same → compare_key b a ≡ same
flip_same a b e = rw (eq_of_same a b e) (compare_key_refl b)

Splits-at :
    (key : Key) (nd : Node) (r : ℕ)
    → Splits nd.keys nd.num_key key r
    → compare_key (nd.keys r) key ≢ same
    → Answers key nd (find_at key nd r)
Splits-at key nd r s differs = elim (Bool-cases nd.leaf) [
  | inl l ↦
      rw (find_at_differs key nd r differs ∙ ap (λ b. if b then at_end else in_child r) l)
        (l, (r, s))
  | inr l ↦
      rw (find_at_differs key nd r differs ∙ ap (λ b. if b then at_end else in_child r) l) (l, s)
]

Answers-at :
    (key : Key) (nd : Node) (r : ℕ)
    → Located nd.keys nd.num_key key r
    → Answers key nd (find_at key nd r)
Answers-at key nd r (inl (h, e)) =
    rw (find_at_same key nd r (flip_same key (nd.keys r) e))
      (omega arith, sym (eq_of_same key (nd.keys r) e))
Answers-at key nd r (inr s) = elim (Sign-cases (compare_key (nd.keys r) key)) [
  | inl e ↦ Splits-at key nd r s (λ e'. cc)
  | inr (inl e) ↦ rw (find_at_same key nd r e) (s.0, eq_of_same (nd.keys r) key e)
  | inr (inr e) ↦ Splits-at key nd r s (λ e'. cc)
]

-- On a node whose keys ascend an answer of find is right: a slot that is returned holds the key,
-- the end is returned by a leaf alone, and child r by an inner node alone, where the keys before
-- slot r are less than the key and those from it on greater. The slot may be the one past the last
-- key.
pub find-Answers :
    (key : Key) (nd : Node) → IsSorted nd.keys nd.num_key → Answers key nd (find key nd)
find-Answers key nd sorted =
    rw (find-eq-find_at key nd)
      (Answers-at key nd (find_key key nd) (find_key-Located key nd sorted))

-- A key that a node whose keys ascend holds is found, at a slot below the number of keys that holds
-- it.
pub find_complete :
    (key : Key) (nd : Node) (i : ℕ)
    → IsSorted nd.keys nd.num_key
    → i < nd.num_key
    → nd.keys i ≡ key
    → (r : ℕ) × (find key nd ≡ at_slot r) × (r < nd.num_key) × (nd.keys r ≡ key)
find_complete key nd i sorted h e = elim (find_key-Located key nd sorted) [
  | inl (l, p) ↦ (
    find_key key nd,
    (find-eq-find_at key nd ∙ find_at_same key nd _ (flip_same key _ p)),
    l,
    sym (eq_of_same key _ p),
  )
  | inr s ↦ absurd (misses s)
]
  where
    here : compare_key key (nd.keys i) ≡ same
    here = rw e (compare_key_refl key)

    misses : Splits nd.keys nd.num_key key (find_key key nd) → ⊥
    misses s = elim (dec_lt i (find_key key nd)) [
      | yes p ↦ cc (here, s.1 i p)
      | no p ↦ cc (here, s.2 i (omega arith) h)
    ]

-- The slot past the last key is compared as well. Where it still holds the key, and every key of
-- the node is less, the answer is that slot.
pub find_past_end :
    (key : Key) (nd : Node)
    → IsSorted nd.keys nd.num_key
    → ((j : ℕ) → j < nd.num_key → compare_key key (nd.keys j) ≡ greater)
    → nd.keys nd.num_key ≡ key
    → find key nd ≡ at_slot nd.num_key
find_past_end key nd sorted below e = elim (find_key-Located key nd sorted) [
  | inl (l, p) ↦ cc (p, below (find_key key nd) l)
  | inr s ↦ ends s (dec_lt (find_key key nd) nd.num_key)
]
  where
    ends :
        Splits nd.keys nd.num_key key (find_key key nd)
        → Dec (find_key key nd < nd.num_key)
        → find key nd ≡ at_slot nd.num_key
    ends s (yes p) = cc (s.2 (find_key key nd) (omega arith) p, below (find_key key nd) p)
    ends s (no p) =
        let r : find_key key nd ≡ nd.num_key = omega (arith, s.0) in
        find-eq-find_at key nd ∙ rw r (find_at_same key nd nd.num_key (rw e (compare_key_refl key)))

-- Where a node has n + 1 keys, the first n ascend and the last is greater than each of them,
-- removing the last key leaves it in its slot, and find for it afterwards returns that slot, not
-- the end.
pub find-remove_last :
    (nd : Node) (n : ℕ)
    → nd.num_key ≡ suc n
    → IsSorted nd.keys n
    → ((j : ℕ) → j < n → compare_key (nd.keys n) (nd.keys j) ≡ greater)
    → find (nd.keys n) (remove_from_leaf n nd).1 ≡ at_slot n
unfolding remove_from_leaf lower_elements dec_num_key
find-remove_last nd n e sorted above =
    rw removed (find_past_end (nd.keys n) (record nd { num_key = n }) sorted above refl)
  where
    removed : (remove_from_leaf n nd).1 ≡ record nd { num_key = n }
    removed =
        let none_left : nd.num_key - (n + 1) ≡ 0 = omega arith in
        rw none_left (ap (λ k. record nd { num_key = k }) (omega arith))
