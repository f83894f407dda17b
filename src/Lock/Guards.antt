-- ===== src/Lock/Guards.antt =====
-- Every guard's hold is one of its lock, so that a unique guard is alone on its lock.
use sql_relational_database.Common.{
  ℕ, zero, suc, ◌+◌, ◌-◌, ◌≤◌, ◌≡◌, ◌≢◌, refl, sym, ap, subst, ◌⊎◌, inl, inr, arith, Bool, true,
  false, ◌==◌, ◌&&◌, if◌then◌else◌, List, [], ◌∷◌, Option, none, some, get_elem?, set,
}
use sql_relational_database.Lock.{
  RwLock, Answer, given, blocks, refused, Guard, System, acquired, null_of, released, with_guard,
  same_class, destroy, move_construct,
}

abbrev pub points : ℕ → Option ℕ → Bool
points l none = false
points l (some m) = m == l

-- Whether the guard is of the class and holds the lock, as a number.
abbrev pub weight : Bool → ℕ → Guard → ℕ
weight class l g = if same_class class g.is_unique && points l g.m_lock then 1 else 0

abbrev pub count : Bool → ℕ → List Guard → ℕ
count class l [] = 0
count class l (g ∷ gs) = weight class l g + count class l gs

weight-null :
    (class unique : Bool) (l : ℕ)
    → weight class l (record { is_unique = unique; m_lock = none }) ≡ 0
weight-null true true l = refl
weight-null true false l = refl
weight-null false true l = refl
weight-null false false l = refl

count-set :
    (class : Bool) (l : ℕ) (gs : List Guard) (i : ℕ) (g g' : Guard)
    → get_elem? gs i ≡ some g
    → count class l (set gs i g') + weight class l g ≡ count class l gs + weight class l g'
count-set class l [] i g g' e = cc
count-set class l (h ∷ gs) zero g g' e =
    let k : weight class l h ≡ weight class l g = ap (λ o. weight_of o) e in omega arith
  where
    weight_of : Option Guard → ℕ
    weight_of none = 0
    weight_of (some g) = weight class l g
count-set class l (h ∷ gs) (suc i) g g' e = let k = count-set class l gs i g g' e in omega arith

get_elem?-set_other :
    (gs : List Guard) (i j : ℕ) (g o : Guard)
    → (i == j) ≡ false
    → get_elem? gs j ≡ some o
    → get_elem? (set gs i g) j ≡ some o
get_elem?-set_other [] i j g o h e = e
get_elem?-set_other (k ∷ gs) zero zero g o h e = absurd (ground arith)
get_elem?-set_other (k ∷ gs) zero (suc j) g o h e = e
get_elem?-set_other (k ∷ gs) (suc i) zero g o h e = e
get_elem?-set_other (k ∷ gs) (suc i) (suc j) g o h e =
    get_elem?-set_other gs i j g o (ground arith) e

module _ (rw : RwLock) where
  -- Every guard that holds a lock has one of the holds of that lock.
  abbrev pub Held : System rw → Type 0
  Held sys =
      (l : ℕ)
      → (count false l sys.guards ≤ rw.readers (sys.locks l))
        × (count true l sys.guards ≤ rw.writers (sys.locks l))

  abbrev pub HeldBy : Option (System rw) → Type 0
  HeldBy none = Unit {0}
  HeldBy (some sys) = Held sys

  -- The holds that a new guard adds.
  abbrev pub added : Bool → Bool → ℕ
  added class unique = if same_class class unique then 1 else 0

  pub acquired-Held :
      (unique : Bool) (m : ℕ) (sys : System rw) (o : Answer rw.State)
      → o ≢ refused
      → Held sys
      → ((s : rw.State)
          → o ≡ given s
          → (rw.readers s ≡ rw.readers (sys.locks m) + added false unique)
            × (rw.writers s ≡ rw.writers (sys.locks m) + added true unique))
      → HeldBy (acquired rw unique m sys o)
  acquired-Held unique m sys blocks n h law = tt
  acquired-Held unique m sys refused n h law = absurd (n refl)
  acquired-Held unique m sys (given s) n h law =
      λ l. at_lock unique l (m == l) refl (law s refl) (h l)
    where
      at_lock :
          (unique : Bool) (l : ℕ) (b : Bool)
          → (m == l) ≡ b
          → (rw.readers s ≡ rw.readers (sys.locks m) + added false unique)
            × (rw.writers s ≡ rw.writers (sys.locks m) + added true unique)
          → (count false l sys.guards ≤ rw.readers (sys.locks l))
            × (count true l sys.guards ≤ rw.writers (sys.locks l))
          → ((if same_class false unique && b then 1 else 0) + count false l sys.guards
              ≤ rw.readers (if b then s else sys.locks l))
            × ((if same_class true unique && b then 1 else 0) + count true l sys.guards
                ≤ rw.writers (if b then s else sys.locks l))
      at_lock true l true e (r, w) (c, d) =
          let k : m ≡ l = ground arith in
          (
            omega (arith, ap (λ n. rw.readers (sys.locks n)) k),
            omega (arith, ap (λ n. rw.writers (sys.locks n)) k),
          )
      at_lock false l true e (r, w) (c, d) =
          let k : m ≡ l = ground arith in
          (
            omega (arith, ap (λ n. rw.readers (sys.locks n)) k),
            omega (arith, ap (λ n. rw.writers (sys.locks n)) k),
          )
      at_lock true l false e (r, w) (c, d) = (omega arith, omega arith)
      at_lock false l false e (r, w) (c, d) = (omega arith, omega arith)

  -- A guard that is destroyed gives up its hold.
  module _ (unique : Bool) (i m : ℕ) (sys : System rw)
      (e : get_elem? sys.guards i ≡ some (record { is_unique = unique; m_lock = some m })) where
    abbrev dropped : List Guard
    dropped = set sys.guards i (record { is_unique = unique; m_lock = none })

    released-at :
        (unique : Bool) (l : ℕ) (b : Bool)
        → (m == l) ≡ b
        → (rw.writers (sys.locks m) ≡ 0)
          ⊎ ((rw.readers (sys.locks m) ≡ 0) × (rw.writers (sys.locks m) ≡ 1))
        → (count false l dropped + (if same_class false unique && b then 1 else 0)
            ≡ count false l sys.guards)
        → (count true l dropped + (if same_class true unique && b then 1 else 0)
            ≡ count true l sys.guards)
        → (count false l sys.guards ≤ rw.readers (sys.locks l))
          × (count true l sys.guards ≤ rw.writers (sys.locks l))
        → (count false l dropped ≤ rw.readers (if b then rw.unlock (sys.locks m) else sys.locks l))
          × (count true l dropped ≤ rw.writers (if b then rw.unlock (sys.locks m) else sys.locks l))
    released-at true l false k x p q (c, d) = (omega arith, omega arith)
    released-at false l false k x p q (c, d) = (omega arith, omega arith)
    released-at unique l true k x p q (c, d) =
        let n : m ≡ l = ground arith in
        at_free unique x p q
          (subst (λ n. count false l sys.guards ≤ rw.readers (sys.locks n)) (sym n) c)
          (subst (λ n. count true l sys.guards ≤ rw.writers (sys.locks n)) (sym n) d)
          (rw.unlock_law (sys.locks m))
      where
        at_free :
            (unique : Bool)
            → (rw.writers (sys.locks m) ≡ 0)
              ⊎ ((rw.readers (sys.locks m) ≡ 0) × (rw.writers (sys.locks m) ≡ 1))
            → (count false l dropped + (if same_class false unique && true then 1 else 0)
                ≡ count false l sys.guards)
            → (count true l dropped + (if same_class true unique && true then 1 else 0)
                ≡ count true l sys.guards)
            → count false l sys.guards ≤ rw.readers (sys.locks m)
            → count true l sys.guards ≤ rw.writers (sys.locks m)
            → (rw.readers (rw.unlock (sys.locks m)) ≡ rw.readers (sys.locks m) - 1)
              × (rw.writers (rw.unlock (sys.locks m)) ≡ rw.writers (sys.locks m) - 1)
            → (count false l dropped ≤ rw.readers (rw.unlock (sys.locks m)))
              × (count true l dropped ≤ rw.writers (rw.unlock (sys.locks m)))
        at_free true (inl x) p q c d (r, w) = absurd (omega arith)
        at_free true (inr (x, y)) p q c d (r, w) = (omega arith, omega arith)
        at_free false (inl x) p q c d (r, w) = (omega arith, omega arith)
        at_free false (inr (x, y)) p q c d (r, w) = absurd (omega arith)

    counted :
        (class : Bool) (l : ℕ)
        → count class l dropped + (if same_class class unique && (m == l) then 1 else 0)
          ≡ count class l sys.guards
    counted class l = omega (
      arith,
      count-set class l sys.guards i _ (record { is_unique = unique; m_lock = none }) e,
      weight-null class unique l,
    )

    released-Held :
        Held sys
        → Held (released rw i (record { is_unique = unique; m_lock = some m }) (some m) sys)
    released-Held h l =
        released-at unique l (m == l) refl (rw.exclusive (sys.locks m)) (counted false l)
          (counted true l) (h l)

  release-HeldBy :
      (i : ℕ) (sys : System rw) (unique : Bool) (p : Option ℕ)
      → get_elem? sys.guards i ≡ some (record { is_unique = unique; m_lock = p })
      → Held sys
      → Held (released rw i (record { is_unique = unique; m_lock = p }) p sys)
  release-HeldBy i sys unique none e h = h
  release-HeldBy i sys unique (some m) e h = released-Held unique i m sys e h

  pub destroy-Held : (i : ℕ) (sys : System rw) → Held sys → HeldBy (destroy rw i sys)
  unfolding destroy
  destroy-Held i sys h = found (get_elem? sys.guards i) refl
    where
      found :
          (o : Option Guard)
          → get_elem? sys.guards i ≡ o
          → HeldBy (with_guard rw o λ g. some (released rw i g g.m_lock sys))
      found none e = tt
      found (some g) e = release-HeldBy i sys g.is_unique g.m_lock e h

  moved-Held :
      (i : ℕ) (sys : System rw) (g : Guard)
      → get_elem? sys.guards i ≡ some g
      → Held sys
      → Held (record sys { guards = g ∷ set sys.guards i (null_of rw g) })
  moved-Held i sys g e h l =
      let (c, d) = h l in
      (
        omega (
          arith,
          count-set false l sys.guards i g (null_of rw g) e,
          weight-null false g.is_unique l,
        ),
        omega (
          arith,
          count-set true l sys.guards i g (null_of rw g) e,
          weight-null true g.is_unique l,
        ),
      )

  pub move_construct-Held : (i : ℕ) (sys : System rw) → Held sys → HeldBy (move_construct rw i sys)
  unfolding move_construct
  move_construct-Held i sys h = found (get_elem? sys.guards i) refl
    where
      found :
          (o : Option Guard)
          → get_elem? sys.guards i ≡ o
          → HeldBy (
              with_guard rw o
                λ g. some (record sys { guards = g ∷ set sys.guards i (null_of rw g) }))
      found none e = tt
      found (some g) e = moved-Held i sys g e h

  same_class-weight :
      (unique other class : Bool) (l : ℕ) (p : Option ℕ)
      → same_class unique other ≡ true
      → weight class l (record { is_unique = unique; m_lock = p })
        ≡ weight class l (record { is_unique = other; m_lock = p })
  same_class-weight true true class l p e = refl
  same_class-weight true false class l p e = absurd (ground arith)
  same_class-weight false true class l p e = absurd (ground arith)
  same_class-weight false false class l p e = refl

  pub assigned-Held :
      (i j : ℕ) (sys : System rw) (g o : Guard)
      → get_elem? sys.guards i ≡ some g
      → get_elem? sys.guards j ≡ some o
      → (i == j) ≡ false
      → same_class g.is_unique o.is_unique ≡ true
      → Held sys
      → Held (record sys {
        guards = set (set sys.guards i (record g { m_lock = o.m_lock })) j (null_of rw o);
      })
  assigned-Held i j sys g o e f apart alike h l =
      let (c, d) = h l in (omega (arith, fewer false), omega (arith, fewer true))
    where
      g' : Guard
      g' = record g { m_lock = o.m_lock }

      fewer :
          (class : Bool)
          → count class l (set (set sys.guards i g') j (null_of rw o)) ≤ count class l sys.guards
      fewer class = omega (
        arith,
        count-set class l sys.guards i g g' e,
        count-set class l (set sys.guards i g') j o (null_of rw o)
            (get_elem?-set_other sys.guards i j g' o apart f),
        weight-null class o.is_unique l,
        same_class-weight g.is_unique o.is_unique class l o.m_lock alike,
      )
