-- ===== src/Lock/Exclusive.antt =====
-- Whatever the threads do, a unique guard is alone on its lock.
use sql_relational_database.Common.{
  ℕ, zero, suc, ◌≤◌, ◌≡◌, ◌≢◌, refl, ap, ◌∙◌, subst, ◌⊎◌, inl, inr, arith, Bool, true, false, ◌==◌,
  ==_iff, if◌then◌else◌, List, [], ◌∷◌, Option, none, some, get_elem?, set,
}
use sql_relational_database.Lock.{
  RwLock, Guard, System, shared_lock, unique_lock, null_of, with_guard, same_class, move_assign,
  Step, share, own, drop, construct, assign, step, Reached, start, then_step, IsServed, AllServed,
}
use sql_relational_database.Lock.Guards.{
  weight, count, Held, HeldBy, acquired-Held, destroy-Held, move_construct-Held, assigned-Held,
}

module _ (rw : RwLock) where
  abbrev assigned : ℕ → ℕ → System rw → Guard → Guard → Option (System rw)
  assigned i j sys g o = some (record sys {
    guards = set (set sys.guards i (record g { m_lock = o.m_lock })) j (null_of rw o);
  })

  move_assign-Held : (i j : ℕ) (sys : System rw) → Held rw sys → HeldBy rw (move_assign rw i j sys)
  unfolding move_assign
  move_assign-Held i j sys h = first (get_elem? sys.guards i) refl
    where
      tested :
          (g o : Guard) (b alike : Bool)
          → get_elem? sys.guards i ≡ some g
          → get_elem? sys.guards j ≡ some o
          → (i == j) ≡ b
          → same_class g.is_unique o.is_unique ≡ alike
          → HeldBy rw (if b then some sys else if alike then assigned i j sys g o else none)
      tested g o true alike e f k l = h
      tested g o false true e f k l = assigned-Held rw i j sys g o e f k l h
      tested g o false false e f k l = tt

      second :
          (g : Guard) (o : Option Guard)
          → get_elem? sys.guards i ≡ some g
          → get_elem? sys.guards j ≡ o
          → HeldBy rw (
              with_guard rw o λ o.
                if i == j
                then some sys
                else if same_class g.is_unique o.is_unique
                then assigned i j sys g o
                else none)
      second g none e f = tt
      second g (some o) e f = tested g o (i == j) (same_class g.is_unique o.is_unique) e f refl refl

      first :
          (o : Option Guard)
          → get_elem? sys.guards i ≡ o
          → HeldBy rw (
              with_guard rw o λ g. with_guard rw (get_elem? sys.guards j) λ o.
                if i == j
                then some sys
                else if same_class g.is_unique o.is_unique
                then assigned i j sys g o
                else none)
      first none e = tt
      first (some g) e = second g (get_elem? sys.guards j) e refl

  step-Held :
      (s : Step rw) (sys : System rw) → IsServed rw s sys → Held rw sys → HeldBy rw (step rw s sys)
  unfolding step shared_lock unique_lock
  step-Held (share l) sys n h =
      acquired-Held rw false l sys (rw.rdlock (sys.locks l)) n h
        λ s e. (let (r, w) = rw.rdlock_law (sys.locks l) s e in (omega arith, omega arith))
  step-Held (own l) sys n h =
      acquired-Held rw true l sys (rw.wrlock (sys.locks l)) n h
        λ s e. (let (r, w) = rw.wrlock_law (sys.locks l) s e in (omega arith, omega arith))
  step-Held (drop i) sys n h = destroy-Held rw i sys h
  step-Held (construct i) sys n h = move_construct-Held rw i sys h
  step-Held (assign i j) sys n h = move_assign-Held i j sys h

  Reached-Held :
      (first : ℕ → rw.State) (sys : System rw) (r : Reached rw first sys)
      → AllServed rw first sys r
      → Held rw sys
  Reached-Held first _ start n = λ l. (omega arith, omega arith)
  Reached-Held first next (then_step sys _ s r e) (n, ns) =
      subst (HeldBy rw) e (step-Held s sys n (Reached-Held first sys r ns))

weight-holding :
    (l : ℕ) (unique : Bool) → weight unique l (record { is_unique = unique; m_lock = some l }) ≡ 1
weight-holding l true = ap (λ b. if b then 1 else 0) ((==_iff l l).1 refl)
weight-holding l false = ap (λ b. if b then 1 else 0) ((==_iff l l).1 refl)

head-weight :
    (l : ℕ) (g : Guard) (gs : List Guard) (unique : Bool)
    → get_elem? (g ∷ gs) 0 ≡ some (record { is_unique = unique; m_lock = some l })
    → weight unique l g ≡ 1
head-weight l g gs unique e = ap (λ o. weight_of o) e ∙ weight-holding l unique
  where
    weight_of : Option Guard → ℕ
    weight_of none = 0
    weight_of (some g) = weight unique l g

-- A guard is counted; two are counted twice.
one_counted :
    (l : ℕ) (gs : List Guard) (i : ℕ) (unique : Bool)
    → get_elem? gs i ≡ some (record { is_unique = unique; m_lock = some l })
    → 1 ≤ count unique l gs
one_counted l [] i unique e = absurd (ground arith)
one_counted l (g ∷ gs) zero unique e = let k = head-weight l g gs unique e in omega arith
one_counted l (g ∷ gs) (suc i) unique e = let k = one_counted l gs i unique e in omega arith

two_counted :
    (l : ℕ) (gs : List Guard) (i j : ℕ) (unique : Bool)
    → (i == j) ≡ false
    → get_elem? gs i ≡ some (record { is_unique = unique; m_lock = some l })
    → get_elem? gs j ≡ some (record { is_unique = unique; m_lock = some l })
    → 2 ≤ count unique l gs
two_counted l [] i j unique h e f = absurd (ground arith)
two_counted l (g ∷ gs) zero zero unique h e f = absurd (ground arith)
two_counted l (g ∷ gs) zero (suc j) unique h e f =
    let a = head-weight l g gs unique e in let b = one_counted l gs j unique f in omega arith
two_counted l (g ∷ gs) (suc i) zero unique h e f =
    let a = head-weight l g gs unique f in let b = one_counted l gs i unique e in omega arith
two_counted l (g ∷ gs) (suc i) (suc j) unique h e f =
    let b = two_counted l gs i j unique (ground arith) e f in omega arith

module _ (rw : RwLock) (first : ℕ → rw.State) (sys : System rw) (l i j : ℕ) where
  apart :
      (class b : Bool)
      → (i == j) ≡ b
      → get_elem? sys.guards i ≡ some (record { is_unique = true; m_lock = some l })
      → get_elem? sys.guards j ≡ some (record { is_unique = class; m_lock = some l })
      → (count false l sys.guards ≤ rw.readers (sys.locks l))
        × (count true l sys.guards ≤ rw.writers (sys.locks l))
      → (rw.writers (sys.locks l) ≡ 0)
        ⊎ ((rw.readers (sys.locks l) ≡ 0) × (rw.writers (sys.locks l) ≡ 1))
      → i ≡ j
  apart class true k e f h x = (==_iff i j).0 k
  apart class false k e f (c, d) (inl x) = absurd (omega (arith, one_counted l sys.guards i true e))
  apart true false k e f (c, d) (inr (x, y)) =
      absurd (omega (arith, two_counted l sys.guards i j true k e f))
  apart false false k e f (c, d) (inr (x, y)) =
      absurd (omega (arith, one_counted l sys.guards j false f))

-- Start without guards, with locks in any state, and let threads make shared and unique guards, move
-- them, assign them and destroy them, in any order. If the calls that asked for a lock were none of
-- them refused with an error on the way, and a unique guard then holds a lock, no other guard of
-- either class holds it.
pub Reached-exclusive :
    (rw : RwLock) (first : ℕ → rw.State) (sys : System rw) (l i j : ℕ) (other : Guard)
    (r : Reached rw first sys)
    → AllServed rw first sys r
    → get_elem? sys.guards i ≡ some (record { is_unique = true; m_lock = some l })
    → get_elem? sys.guards j ≡ some other
    → i ≢ j
    → other.m_lock ≢ some l
Reached-exclusive rw first sys l i j other r served e f differ held = differ (
    apart rw first sys l i j other.is_unique (i == j) refl e
      (f ∙ ap (λ p. some (record { is_unique = other.is_unique; m_lock = p })) held)
      (Reached-Held rw first sys r served l) (rw.exclusive (sys.locks l)))
