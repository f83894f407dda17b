-- ===== src/Lock.antt =====
-- The reader and writer locks of lock/lock.h and lock/lock.cpp: guards of class shared_lock and
-- unique_lock on locks. pthread_rwlock is a parameter: its states, and what the calls do to them.
mod Guards
mod Exclusive
mod Tests
use sql_relational_database.Common.{
  ℕ, zero, suc, ◌+◌, ◌-◌, ◌≤◌, ◌≡◌, ◌≢◌, ◌⊎◌, Bool, true, false, ◌==◌, if◌then◌else◌, List, [], ◌∷◌,
  ◌++◌, Option, none, some, get_elem?, set,
}

-- What a call for a lock does: it returns 0 with the lock in another state, it does not return while
-- the lock is as it is, or it returns an error (EDEADLK, EAGAIN) and the lock stays as it is.
pub data Answer (State : Type 0) : Type 0 where
  given : State → Answer State
  blocks refused : Answer State

-- pthread_rwlock_t. By POSIX, a lock has readers or one writer; a thread gets it to read while there
-- is no writer, to write while there is nobody, and unlocking gives up one hold.
pub record RwLock : Type 1 where
  pub State : Type 0
  pub readers : State → ℕ
  pub writers : State → ℕ
  pub rdlock : State → Answer State
  pub wrlock : State → Answer State
  pub unlock : State → State
  pub exclusive : (s : State) → (writers s ≡ 0) ⊎ ((readers s ≡ 0) × (writers s ≡ 1))
  pub rdlock_law :
      (s s' : State)
      → rdlock s ≡ given s'
      → (readers s' ≡ suc (readers s)) × (writers s' ≡ writers s)
  pub wrlock_law :
      (s s' : State)
      → wrlock s ≡ given s'
      → (readers s' ≡ readers s) × (writers s' ≡ suc (writers s))
  pub unlock_law :
      (s : State) → (readers (unlock s) ≡ readers s - 1) × (writers (unlock s) ≡ writers s - 1)

-- An object of class unique_lock, or else of class shared_lock. The pointer is none for nullptr.
pub record Guard : Type 0 where
  pub is_unique : Bool
  pub m_lock : Option ℕ

-- The locks, by their address, and every guard that was made; one that was destroyed is null.
pub record System (rw : RwLock) : Type 0 where
  pub locks : ℕ → rw.State
  pub guards : List Guard

-- Only guards of one class are moved to each other.
abbrev pub same_class : Bool → Bool → Bool
same_class true b = b
same_class false true = false
same_class false false = true

module _ (rw : RwLock) where
  abbrev pub with_lock : (ℕ → rw.State) → ℕ → rw.State → ℕ → rw.State
  with_lock locks l s k = if l == k then s else locks k

  -- The answer is not looked at: a guard that was refused the lock names it too.
  abbrev pub acquired : Bool → ℕ → System rw → Answer rw.State → Option (System rw)
  acquired unique l sys blocks = none
  acquired unique l sys refused =
      some (record sys { guards = record { is_unique = unique; m_lock = some l } ∷ sys.guards })
  acquired unique l sys (given s) = some (record {
    locks = with_lock sys.locks l s;
    guards = record { is_unique = unique; m_lock = some l } ∷ sys.guards;
  })

  -- shared_lock::shared_lock (red::lock*)
  unfoldable pub shared_lock : ℕ → System rw → Option (System rw)
  shared_lock l sys = acquired false l sys (rw.rdlock (sys.locks l))

  -- unique_lock::unique_lock (red::lock*)
  unfoldable pub unique_lock : ℕ → System rw → Option (System rw)
  unique_lock l sys = acquired true l sys (rw.wrlock (sys.locks l))

  abbrev pub null_of : Guard → Guard
  null_of g = record g { m_lock = none }

  abbrev pub released : ℕ → Guard → Option ℕ → System rw → System rw
  released i g none sys = sys
  released i g (some l) sys = record {
    locks = with_lock sys.locks l (rw.unlock (sys.locks l));
    guards = set sys.guards i (null_of g);
  }

  abbrev pub with_guard : Option Guard → (Guard → Option (System rw)) → Option (System rw)
  with_guard none f = none
  with_guard (some g) f = f g

  -- ~shared_lock and ~unique_lock
  unfoldable pub destroy : ℕ → System rw → Option (System rw)
  destroy i sys = with_guard (get_elem? sys.guards i) λ g. some (released i g g.m_lock sys)

  -- shared_lock (shared_lock&&) and unique_lock (unique_lock&&)
  unfoldable pub move_construct : ℕ → System rw → Option (System rw)
  move_construct i sys =
      with_guard (get_elem? sys.guards i)
        λ g. some (record sys { guards = g ∷ set sys.guards i (null_of g) })

  -- operator=(shared_lock&&) and operator=(unique_lock&&): what this guard held is not unlocked.
  unfoldable pub move_assign : ℕ → ℕ → System rw → Option (System rw)
  move_assign i j sys = with_guard (get_elem? sys.guards i) λ g.
      with_guard (get_elem? sys.guards j) λ o.
        if i == j
        then some sys
        else if same_class g.is_unique o.is_unique
        then some (record sys {
          guards = set (set sys.guards i (record g { m_lock = o.m_lock })) j (null_of o);
        })
        else none

  pub data Step : Type 0 where
    share : ℕ → Step
    own : ℕ → Step
    drop : ℕ → Step
    construct : ℕ → Step
    assign : ℕ → ℕ → Step

  unfoldable pub step : Step → System rw → Option (System rw)
  unfolding shared_lock unique_lock destroy move_construct move_assign
  step (share l) = shared_lock l
  step (own l) = unique_lock l
  step (drop i) = destroy i
  step (construct i) = move_construct i
  step (assign i j) = move_assign i j

  -- The states that the threads can reach together, each call being one step.
  pub data Reached (first : ℕ → rw.State) : System rw → Type 0 where
    start : Reached first (record { locks = first; guards = [] })
    then_step :
        (sys next : System rw) (s : Step)
        → Reached first sys
        → step s sys ≡ some next
        → Reached first next

  -- A constructor's call is not refused.
  abbrev pub IsServed : Step → System rw → Type 0
  IsServed (share l) sys = rw.rdlock (sys.locks l) ≢ refused
  IsServed (own l) sys = rw.wrlock (sys.locks l) ≢ refused
  IsServed (drop i) sys = Unit {0}
  IsServed (construct i) sys = Unit {0}
  IsServed (assign i j) sys = Unit {0}

  -- On the way to a state, no constructor's call was refused.
  abbrev pub AllServed : (first : ℕ → rw.State) (sys : System rw) → Reached first sys → Type 0
  AllServed first _ start = Unit {0}
  AllServed first next (then_step sys _ s r e) = IsServed s sys × AllServed first sys r
