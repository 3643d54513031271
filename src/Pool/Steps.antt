-- ===== src/Pool/Steps.antt =====
-- The steps of the broker and of the threads on the pool of src/emi_thread.c.
use emilib.Prelude.{Bool, none, ℕ, ◌≡◌, true, some, List}
use emilib.Hlist.Chain.{has}
use emilib.Pool.{
  Pool, emi_thread_pool_init, emi_thread_pool_submit, clear_func, set_idle, give_back,
}

-- a step in a pool of the threads `ts`: a job is submitted, a thread takes its job off,
-- says to be idle, or moves to the front of the list
pub data Step (head : ℕ) (ts : List ℕ) : Pool → Pool → Type 0 where
  submits :
      {p : Pool} (spawns : Bool) (job : ℕ)
      → Step head ts p (emi_thread_pool_submit p head spawns job).1
  finishes : {p : Pool} (t job : ℕ) → p.func t ≡ some job → Step head ts p (clear_func p t)
  idles : {p : Pool} (t : ℕ) → p.func t ≡ none → Step head ts p (set_idle p t)
  returns : {p : Pool} (t : ℕ) → has t ts ≡ true → Step head ts p (give_back p head t)

-- the states that the pool comes to, in any order of steps
pub data Reached (head : ℕ) (ts : List ℕ) : Pool → Type 0 where
  init : (raw : Pool) → Reached head ts (emi_thread_pool_init raw head ts)
  step : {p q : Pool} → Reached head ts p → Step head ts p q → Reached head ts q
