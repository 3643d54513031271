-- ===== src/Pool/Tests.antt =====
-- The pool of src/emi_thread.c with two threads.
use emilib.Prelude.{ℕ, ◌≡◌, refl, true, false, Option, some, List, [], ◌∷◌, ◌++◌, arith, ◌&&◌}
use emilib.Pool.{Pool, thread_busy, emi_thread_pool_init, emi_thread_pool_submit}
use emilib.Pool.Steps.{Reached, init, step, submits}
use emilib.Pool.Invariant.{IsPool, Reached-IsPool}
use emilib.Pool.Worker.{
  Worker, blocking, ended, emi_thread_init, Steps, here, next, locks, finds_none,
  emi_thread_destroy,
}
use emilib.Pool.Order.{InOrder, emi_thread_init-InOrder}
use emilib.Pool.Wakeup.{job_lost, emi_thread_destroy-starting}
use emilib.Pool.Create.{Parts, emi_thread_create, create_pool, all_made, made}
use emilib.Pool.Created.{Outcome, create_pool-Outcome}
use emilib.Pool.Submit.{Submitted, emi_thread_pool_submit-Submitted}

abbrev raw : Pool
raw = record {
  rings = record { nexts = λ a. 9; prevs = λ a. 9 };
  status = λ a. thread_busy;
  func = λ a. some 4;
}

abbrev fresh : Pool
fresh = emi_thread_pool_init raw 0 (1 ∷ 2 ∷ [])

abbrev busy : Pool
busy = (emi_thread_pool_submit fresh 0 true 50).1

busy-Reached : Reached 0 (1 ∷ 2 ∷ []) busy
busy-Reached = step (init raw) (submits true 50)

busy-IsPool : IsPool 0 (1 ∷ 2 ∷ []) busy
busy-IsPool = Reached-IsPool 0 (1 ∷ 2 ∷ []) busy refl (refl, (refl, tt)) (omega arith) busy-Reached

emi_thread_pool_submit-Submitted_example :
    Submitted 0 (1 ∷ 2 ∷ []) busy-IsPool.order busy true 60 (emi_thread_pool_submit busy 0 true 60)
emi_thread_pool_submit-Submitted_example =
    emi_thread_pool_submit-Submitted 0 (1 ∷ 2 ∷ []) busy true 60 busy-IsPool (omega arith)

-- a thread that has found no job
abbrev tested : Worker
tested = record (emi_thread_init 8) { place = blocking }

tested-Steps : Steps true (emi_thread_init 8) tested
tested-Steps = next (next here (locks refl)) (finds_none refl refl)

emi_thread_init-InOrder_example : InOrder tested
emi_thread_init-InOrder_example = emi_thread_init-InOrder 8 true tested tested-Steps

job_lost_example :
    (w : Worker) × Steps false tested w
    × (w.given ≡ tested.given ++ (7 ∷ []))
    × ((v : Worker) → Steps false w v → (v.started ≡ tested.started) × (v.func ≡ some 7))
job_lost_example = job_lost tested 7 50 refl refl refl refl

emi_thread_destroy-starting_example :
    (w : Worker) × Steps false (emi_thread_destroy (emi_thread_init 8)) w
    × ((v : Worker) → Steps false w v → ¬ (v.place ≡ ended))
emi_thread_destroy-starting_example =
    emi_thread_destroy-starting (emi_thread_init 8) refl refl refl refl

abbrev parts : Parts
parts = record { cond = true; lock = true; thread = true }

-- the third thread cannot be started
abbrev attempts : List (Option ℕ × Parts)
attempts = (some 1, parts) ∷ (some 2, parts) ∷ (some 3, record parts { thread = false }) ∷ []

create_pool-Outcome_example :
    (q : Pool) × (freed : List ℕ) × (create_pool (λ t. true) 3 true raw 0 attempts
      ≡ some (true && all_made attempts, q, freed))
    × Outcome true (all_made attempts) 0 (made attempts) raw q freed
unfolding emi_thread_create emilib.Pool.Create.emi_thread_init
create_pool-Outcome_example =
    create_pool-Outcome (λ t. true) 3 true raw 0 attempts refl (refl, (refl, tt)) (omega arith)
      (λ e c m. refl)
