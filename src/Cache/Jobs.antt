-- ===== src/Cache/Jobs.antt =====
-- The job queue of class file_cache (cache/cache.cpp: add_job, kill, do_work). The files under it
-- are a parameter: whether a block cache can be had by its name, and whether its schema can be
-- saved; they answer the same for a name throughout the work.
use sql_relational_database.Common.{
  inl, inr, Bool-cases, ap, ◌∙◌, Bool, true, false, ◌||◌, List, [], ◌∷◌, ◌++◌, ◌≡◌, refl,
  if◌then◌else◌, All,
}
use sql_relational_database.Tree.Key.{compare_key}
use sql_relational_database.Vm.Item.{Text}
use sql_relational_database.Vm.Eval.{eq_text}

-- TYPE_KILL, TYPE_FLUSH, TYPE_PURGE and any other number.
pub data JobType : Type 0 where
  type_kill type_flush type_purge type_unknown : JobType

pub record Job : Type 0 where
  pub type : JobType
  pub name : Text

abbrev pub is_kill : JobType → Bool
is_kill type_kill = true
is_kill type_flush = false
is_kill type_purge = false
is_kill type_unknown = false

-- A purge goes on into the flush.
abbrev pub flushes : JobType → Bool
flushes type_kill = false
flushes type_flush = true
flushes type_purge = true
flushes type_unknown = false

-- "kill"
abbrev pub kill_name : Text
kill_name = 107 ∷ 105 ∷ 108 ∷ 108 ∷ []

-- m_flag and m_job_q.
pub record JobQueue : Type 0 where
  pub running : Bool
  pub jobs : List Job

unfoldable pub add_job : JobType → Text → JobQueue → JobQueue
add_job type name q = record q { jobs = q.jobs ++ (record { type = type; name = name } ∷ []) }

unfoldable pub kill : JobQueue → JobQueue
kill q = record q {
  running = false;
  jobs = q.jobs ++ (record { type = type_kill; name = kill_name } ∷ []);
}

-- What get_block_cache_no_lock answers: the block cache, a null pointer, or an exception.
pub data Lookup : Type 0 where
  found absent failed : Lookup

-- save_schema throws where `saves` is false.
pub record Files : Type 0 where
  pub lookup : Text → Lookup
  pub saves : Text → Bool

-- The calls that do_work makes on the block cache of that name and on its schema.
pub data Effect : Type 0 where
  flushes_cache saves_schema : Text → Effect

pub data Ending : Type 0 where
  returned thrown : Ending

-- One round of the loop: to the next one, or out of it.
pub data Round : Type 0 where
  goes_on : List Effect → Round
  ends : Ending → List Effect → Round

abbrev pub kills : Job → Bool
kills job = is_kill job.type || eq_text (compare_key job.name kill_name)

abbrev pub flush_and_save : Files → Text → Round
flush_and_save files name =
    if files.saves name
    then goes_on (flushes_cache name ∷ saves_schema name ∷ [])
    else ends thrown (flushes_cache name ∷ [])

abbrev pub work_on : Files → Job → Lookup → Round
work_on files job found = if flushes job.type then flush_and_save files job.name else goes_on []
work_on files job absent = ends returned []
work_on files job failed = ends thrown []

abbrev pub round : Files → Job → Round
round files job = if kills job then ends returned [] else work_on files job (files.lookup job.name)

abbrev pub next_round :
    Round → List Job → List Effect × (List Job × Ending) → List Effect × (List Job × Ending)
next_round (goes_on done) jobs (effects, left) = (done ++ effects, left)
next_round (ends ending done) jobs later = (done, (jobs, ending))

-- Its effects in order, the jobs that it leaves in the queue, and how it ends.
unfoldable pub do_work : Files → List Job → List Effect × (List Job × Ending)
unfolding compare_key
do_work files [] = ([], ([], returned))
do_work files (job ∷ jobs) = next_round (round files job) jobs (do_work files jobs)

abbrev pub effects_before : Job → List Effect → List Effect
effects_before job later =
    if flushes job.type then flushes_cache job.name ∷ saves_schema job.name ∷ later else later

abbrev pub effects_of : List Job → List Effect
effects_of [] = []
effects_of (job ∷ jobs) = effects_before job (effects_of jobs)

-- A job that is no kill, whose block cache can be had and whose schema can be saved.
abbrev pub IsServed : Files → Job → Type 0
IsServed files job =
    (kills job ≡ false) × ((files.lookup job.name ≡ found) × (files.saves job.name ≡ true))

-- A job after which do_work ends: how, and what it does of that job before.
pub data IsLast (files : Files) (job : Job) : Ending → List Effect → Type 0 where
  by_kill : kills job ≡ true → IsLast files job returned []
  no_cache : kills job ≡ false → files.lookup job.name ≡ absent → IsLast files job returned []
  failed_lookup : kills job ≡ false → files.lookup job.name ≡ failed → IsLast files job thrown []
  failed_save :
      kills job ≡ false
      → files.lookup job.name ≡ found
      → flushes job.type ≡ true
      → files.saves job.name ≡ false
      → IsLast files job thrown (flushes_cache job.name ∷ [])

do_work-served :
    (files : Files) (job : Job) (jobs : List Job) (later : List Effect) (left : List Job × Ending)
    → IsServed files job
    → do_work files jobs ≡ (later, left)
    → do_work files (job ∷ jobs) ≡ (effects_before job later, left)
unfolding do_work
do_work-served files job jobs later left (k, (l, s)) h = elim (Bool-cases (flushes job.type)) [
  | inl e ↦ rw (k, l, e, s, h) refl
  | inr e ↦ rw (k, l, e, h) refl
]

do_work_last :
    (files : Files) (job : Job) (rest : List Job) (ending : Ending) (last : List Effect)
    → IsLast files job ending last
    → do_work files (job ∷ rest) ≡ (last, (rest, ending))
unfolding do_work
do_work_last files job rest _ _ (by_kill k) = rw k refl
do_work_last files job rest _ _ (no_cache k l) = rw (k, l) refl
do_work_last files job rest _ _ (failed_lookup k l) = rw (k, l) refl
do_work_last files job rest _ _ (failed_save k l f s) = rw (k, l, f, s) refl

effects_before-append :
    (job : Job) (later last : List Effect)
    → effects_before job (later ++ last) ≡ effects_before job later ++ last
effects_before-append job later last = elim (Bool-cases (flushes job.type)) [
  | inl e ↦ rw e refl
  | inr e ↦ rw e refl
]

-- Jobs that are none of them a kill, whose block caches can be had and whose schemas can be saved
-- are all done, in their order: each flush or purge among them flushes the block cache that it
-- names and then saves its schema, none is left, and do_work returns. Behind such jobs it ends in
-- four ways, with the jobs after that one left in the queue: it returns at a kill and at a name
-- that has no block cache, and throws where the look-up throws and where the schema cannot be
-- saved, the block cache then flushed.
pub do_work_lem :
    (files : Files) (jobs : List Job)
    → All (IsServed files) jobs
    → (do_work files jobs ≡ (effects_of jobs, ([], returned)))
      × ((job : Job) (rest : List Job) (ending : Ending) (last : List Effect)
          → IsLast files job ending last
          → do_work files (jobs ++ (job ∷ rest)) ≡ (effects_of jobs ++ last, (rest, ending)))
unfolding do_work
do_work_lem files [] served = (refl, do_work_last files)
do_work_lem files (x ∷ jobs) (here, served) =
    let (all, ended) = do_work_lem files jobs served in
    (
      do_work-served files x jobs (effects_of jobs) ([], returned) here all,
      (λ job rest ending last h.
          do_work-served files x (jobs ++ (job ∷ rest)) (effects_of jobs ++ last) (rest, ending)
            here (ended job rest ending last h)
          ∙ ap (λ effects. (effects, (rest, ending)))
              (effects_before-append x (effects_of jobs) last)),
    )
