-- ===== src/Pool/Worker.antt =====
-- A thread of the pool of src/emi_thread.c at the reads and writes of its members: `thread_func`
-- against `emi_thread_pool_submit` and `emi_thread_destroy`. The thread holds its lock but for the
-- time before it takes it and the time in `emi_cond_wait`; a submission writes and signals without
-- that lock, under the pool's lock, and a signal wakes a thread that waits and is lost on any other.
use emilib.Prelude.{ℕ, suc, ◌≡◌, Bool, true, Option, none, some, List, [], ◌∷◌, ◌++◌}

-- where the thread is: before it takes its lock, at the test of `func`, behind a test that found
-- NULL, in `emi_cond_wait`, woken there, in a job, between the two writes behind a job, at the pool's
-- lock, or at the end
pub data Place : Type 0 where
  starting : Place
  testing : Place
  blocking : Place
  waiting : Place
  woken : Place
  running : Place
  clearing : Place
  moving : Place
  ended : Place

pub data Status : Type 0 where
  thread_idle : Status
  thread_busy : Status
  thread_exit : Status

-- how far a submission of a function with its `args` is: there is none, `status` is written, or
-- `func` is
pub data Stage : Type 0 where
  unlocked : Stage
  marked : ℕ → ℕ → Stage
  filled : ℕ → Stage

-- `signals` are the submissions that have yet to signal; `given` records the functions that the
-- thread was given, and `started` those that it started, with the `args` that it read
pub record Worker : Type 0 where
  pub place : Place
  pub status : Status
  pub func : Option ℕ
  pub args : ℕ
  pub stage : Stage
  pub signals : ℕ
  pub given : List ℕ
  pub started : List (ℕ × ℕ)

-- `args` is not set
abbrev pub emi_thread_init : ℕ → Worker
emi_thread_init args = record {
  place = starting;
  status = thread_idle;
  func = none;
  args = args;
  stage = unlocked;
  signals = 0;
  given = [];
  started = [];
}

-- a signal
abbrev pub wake : Place → Place
wake waiting = woken
wake starting = starting
wake testing = testing
wake blocking = blocking
wake woken = woken
wake running = running
wake clearing = clearing
wake moving = moving
wake ended = ended

-- what the thread does next once it is woken
abbrev pub resumed : Status → Place
resumed thread_exit = ended
resumed thread_idle = testing
resumed thread_busy = testing

-- one step of the thread or of a submission
pub data Step : Worker → Worker → Type 0 where
  locks : {w : Worker} → w.place ≡ starting → Step w (record w { place = testing })
  finds_none :
      {w : Worker} → w.place ≡ testing → w.func ≡ none → Step w (record w { place = blocking })
  finds_job :
      {w : Worker} (f : ℕ)
      → w.place ≡ testing
      → w.func ≡ some f
      → Step w (record w { place = running; started = w.started ++ ((f, w.args) ∷ []) })
  waits : {w : Worker} → w.place ≡ blocking → Step w (record w { place = waiting })
  resumes : {w : Worker} → w.place ≡ woken → Step w (record w { place = resumed w.status })
  clears : {w : Worker} → w.place ≡ running → Step w (record w { place = clearing; func = none })
  idles :
      {w : Worker} → w.place ≡ clearing → Step w (record w { place = moving; status = thread_idle })
  moves :
      {w : Worker} → w.place ≡ moving → w.stage ≡ unlocked → Step w (record w { place = testing })
  sets_status :
      {w : Worker} (f a : ℕ)
      → w.stage ≡ unlocked
      → w.status ≡ thread_idle
      → Step w (record w { status = thread_busy; stage = marked f a })
  sets_func :
      {w : Worker} (f a : ℕ)
      → w.stage ≡ marked f a
      → Step w (record w { func = some f; stage = filled a; given = w.given ++ (f ∷ []) })
  sets_args :
      {w : Worker} (a : ℕ)
      → w.stage ≡ filled a
      → Step w (record w { args = a; stage = unlocked; signals = suc w.signals })
  signals_it :
      {w : Worker} (n : ℕ)
      → w.signals ≡ suc n
      → Step w (record w { place = wake w.place; signals = n })

-- a run, in which `emi_cond_wait` wakes up without a signal only if that is allowed
pub data Steps (spurious : Bool) (w : Worker) : Worker → Type 0 where
  here : Steps spurious w w
  next : {u v : Worker} → Steps spurious w u → Step u v → Steps spurious w v
  wakes :
      {u : Worker}
      → spurious ≡ true
      → Steps spurious w u
      → u.place ≡ waiting
      → Steps spurious w (record u { place = woken })

-- `emi_thread_destroy` up to `pthread_join`, once it has the thread's lock
abbrev pub emi_thread_destroy : Worker → Worker
emi_thread_destroy w = record w { place = wake w.place; status = thread_exit }
