-- ===== src/Lock/Tests.antt =====
-- A lock with counters of its readers and its writers, and runs of guards on it.
use sql_relational_database.Common.{
  ℕ, zero, suc, ◌-◌, ◌≡◌, ◌≢◌, refl, sym, ◌⊎◌, inl, inr, ap, arith, true, ◌==◌, if◌then◌else◌, [],
  ◌∷◌, List, Option, none, some,
}
use sql_relational_database.Lock.{
  RwLock, Answer, given, blocks, refused, Guard, System, Step, shared_lock, unique_lock,
  move_construct, move_assign, own, assign, drop, construct, step, Reached, start, then_step,
  destroy,
}
use sql_relational_database.Lock.Exclusive.{Reached-exclusive}

-- Nobody, n + 1 readers, or one writer. All the guards are those of one thread, so that a call for
-- the lock that it has to write is refused (EDEADLK).
data Holders : Type 0 where
  nobody : Holders
  reading : ℕ → Holders
  writing : Holders

abbrev readers_of : Holders → ℕ
readers_of nobody = 0
readers_of (reading n) = suc n
readers_of writing = 0

abbrev writers_of : Holders → ℕ
writers_of nobody = 0
writers_of (reading n) = 0
writers_of writing = 1

abbrev read_lock : Holders → Answer Holders
read_lock nobody = given (reading 0)
read_lock (reading n) = given (reading (suc n))
read_lock writing = refused

abbrev write_lock : Holders → Answer Holders
write_lock nobody = given writing
write_lock (reading n) = blocks
write_lock writing = refused

abbrev give_up : Holders → Holders
give_up nobody = nobody
give_up (reading zero) = nobody
give_up (reading (suc n)) = reading n
give_up writing = nobody

holders_exclude : (s : Holders) → (writers_of s ≡ 0) ⊎ ((readers_of s ≡ 0) × (writers_of s ≡ 1))
holders_exclude nobody = inl refl
holders_exclude (reading n) = inl refl
holders_exclude writing = inr (refl, refl)

abbrev look : (Holders → ℕ) → Answer Holders → ℕ
look f blocks = 0
look f refused = 0
look f (given s) = f s

read_lock_law :
    (s s' : Holders)
    → read_lock s ≡ given s'
    → (readers_of s' ≡ suc (readers_of s)) × (writers_of s' ≡ writers_of s)
read_lock_law nobody s' e = (ap (look readers_of) (sym e), ap (look writers_of) (sym e))
read_lock_law (reading n) s' e = (ap (look readers_of) (sym e), ap (look writers_of) (sym e))
read_lock_law writing s' e = absurd cc

write_lock_law :
    (s s' : Holders)
    → write_lock s ≡ given s'
    → (readers_of s' ≡ readers_of s) × (writers_of s' ≡ suc (writers_of s))
write_lock_law nobody s' e = (ap (look readers_of) (sym e), ap (look writers_of) (sym e))
write_lock_law (reading n) s' e = absurd cc
write_lock_law writing s' e = absurd cc

give_up_law :
    (s : Holders)
    → (readers_of (give_up s) ≡ readers_of s - 1) × (writers_of (give_up s) ≡ writers_of s - 1)
give_up_law nobody = (refl, refl)
give_up_law (reading zero) = (refl, refl)
give_up_law (reading (suc n)) = (omega arith, refl)
give_up_law writing = (refl, refl)

abbrev counted : RwLock
counted = record {
  State = Holders;
  readers = readers_of;
  writers = writers_of;
  rdlock = read_lock;
  wrlock = write_lock;
  unlock = give_up;
  exclusive = holders_exclude;
  rdlock_law = read_lock_law;
  wrlock_law = write_lock_law;
  unlock_law = give_up_law;
}

abbrev unlocked : ℕ → Holders
unlocked l = nobody

abbrev guard_on : Option ℕ → Guard
guard_on p = record { is_unique = true; m_lock = p }

-- Lock 7 is taken by a unique guard, which is then moved to a new one.
abbrev one_owner : System counted
one_owner = record {
  locks = λ k. if 7 == k then writing else nobody;
  guards = guard_on (some 7) ∷ guard_on none ∷ [];
}

one_owner-Reached : Reached counted unlocked one_owner
unfolding step shared_lock unique_lock destroy move_construct move_assign
one_owner-Reached =
    then_step
      (record { locks = λ k. if 7 == k then writing else nobody; guards = guard_on (some 7) ∷ [] })
      one_owner (construct 0)
      (then_step (record { locks = unlocked; guards = [] }) _ (own 7) start refl) refl

Reached-exclusive_example : (guard_on none).m_lock ≢ some 7
unfolding one_owner-Reached
Reached-exclusive_example =
    Reached-exclusive counted unlocked one_owner 7 0 1 (guard_on none) one_owner-Reached
      (tt, ((λ e. cc), tt)) refl refl (omega arith)

abbrev run : {A : Type 0} → Step counted → System counted → (System counted → Option A) → Option A
unfolding step shared_lock unique_lock destroy move_construct move_assign
run s sys next = follow (step counted s sys) next
  where
    follow : {A : Type 0} → Option (System counted) → (System counted → Option A) → Option A
    follow none next = none
    follow (some after) next = next after

abbrev no_guards : System counted
no_guards = record { locks = unlocked; guards = [] }

-- The guard that holds lock 7 is assigned from one that holds lock 8; when every guard is gone, lock
-- 7 is still locked.
still_locked :
    (run (own 7) no_guards λ a.
      run
        (own 8)
        a
        λ b. run (assign 1 0) b λ c. run (drop 1) c λ d. run (drop 0) d λ sys. some (sys.locks 7))
    ≡ some writing
unfolding run step
still_locked = refl

abbrev guards_and_lock : System counted → Option (List Guard × Holders)
guards_and_lock sys = some (sys.guards, sys.locks 7)

-- The thread makes a second unique guard on lock 7: the call is refused, both guards name the lock,
-- and when the second one is gone the lock is free, though the first one lives.
refused_guard :
    (run (own 7) no_guards λ a. run (own 7) a guards_and_lock)
    ≡ some (guard_on (some 7) ∷ guard_on (some 7) ∷ [], writing)
unfolding run step
refused_guard = refl

lock_given_up :
    (run (own 7) no_guards λ a. run (own 7) a λ b. run (drop 0) b guards_and_lock)
    ≡ some (guard_on none ∷ guard_on (some 7) ∷ [], nobody)
unfolding run step
lock_given_up = refl
