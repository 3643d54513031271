-- ===== src/Pool/Wakeup.antt =====
-- When a thread of the pool of src/emi_thread.c sleeps until `emi_cond_wait` wakes up by itself.
use emilib.Prelude.{ℕ, suc, ◌≡◌, refl, ap, false, none, some, List, [], ◌∷◌, ◌++◌, arith}
use emilib.Pool.Worker.{
  starting, testing, blocking, waiting, running, ended, thread_idle, thread_busy, thread_exit,
  unlocked, marked, filled, Worker, wake, Step, locks, finds_none, finds_job, waits, resumes,
  clears, idles, moves, sets_status, sets_func, sets_args, signals_it, Steps, here, next, wakes,
  emi_thread_destroy,
}

-- a thread that sleeps with a job, and that nobody will signal
record IsLost (f : ℕ) (started : List (ℕ × ℕ)) (w : Worker) : Type 0 where
  place : w.place ≡ waiting
  func : w.func ≡ some f
  status : w.status ≡ thread_busy
  stage : w.stage ≡ unlocked
  signals : w.signals ≡ 0
  started_before : w.started ≡ started

Step-IsLost : {w u : Worker} (f : ℕ) (xs : List (ℕ × ℕ)) → IsLost f xs w → Step w u → IsLost f xs u
Step-IsLost f xs l (locks e) = absurd (let q = l.place in cc)
Step-IsLost f xs l (finds_none e k) = absurd (let q = l.place in cc)
Step-IsLost f xs l (finds_job j e k) = absurd (let q = l.place in cc)
Step-IsLost f xs l (waits e) = absurd (let q = l.place in cc)
Step-IsLost f xs l (resumes e) = absurd (let q = l.place in cc)
Step-IsLost f xs l (clears e) = absurd (let q = l.place in cc)
Step-IsLost f xs l (idles e) = absurd (let q = l.place in cc)
Step-IsLost f xs l (moves e s) = absurd (let q = l.place in cc)
Step-IsLost f xs l (sets_status g a s e) = absurd (let q = l.status in cc)
Step-IsLost f xs l (sets_func g a s) = absurd (let q = l.stage in cc)
Step-IsLost f xs l (sets_args a s) = absurd (let q = l.stage in cc)
Step-IsLost f xs l (signals_it n e) = absurd (let q = l.signals in omega arith)

Steps-IsLost :
    {w u : Worker} (f : ℕ) (xs : List (ℕ × ℕ)) → IsLost f xs w → Steps false w u → IsLost f xs u
Steps-IsLost f xs l here = l
Steps-IsLost f xs l (next r s) = Step-IsLost f xs (Steps-IsLost f xs l r) s
Steps-IsLost f xs l (wakes b r e) = absurd (let q = b in cc)

-- a thread that found no job and does not wait yet, to which every signal was sent, while no
-- submission is under way: it can come, without a spurious wake-up, to a state in which it was given
-- a further function, and from which it starts none in any run in which emi_cond_wait does not wake
-- up spuriously
pub job_lost :
    (u : Worker) (f a : ℕ)
    → u.place ≡ blocking
    → u.status ≡ thread_idle
    → u.stage ≡ unlocked
    → u.signals ≡ 0
    → (w : Worker) × Steps false u w
      × (w.given ≡ u.given ++ (f ∷ []))
      × ((v : Worker) → Steps false w v → (v.started ≡ u.started) × (v.func ≡ some f))
job_lost u f a e i s z =
    let u₁ : Worker = record u { status = thread_busy; stage = marked f a } in
    let u₂ : Worker = record u₁ { func = some f; stage = filled a; given = u.given ++ (f ∷ []) } in
    let u₃ : Worker = record u₂ { args = a; stage = unlocked; signals = suc u.signals } in
    let u₄ : Worker = record u₃ { place = wake u.place; signals = u.signals } in
    let w : Worker = record u₄ { place = waiting } in
    let lost : IsLost f u.started w = record {
      place = refl;
      func = refl;
      status = refl;
      stage = refl;
      signals = z;
      started_before = refl;
    } in
    let submitted : Steps false u u₃ =
      next (next (next here (sets_status f a s i)) (sets_func f a refl)) (sets_args a refl) in
    (
      w,
      next (next submitted (signals_it u.signals refl)) (waits (ap wake e)),
      refl,
      λ v r. let l = Steps-IsLost f u.started lost r in (l.started_before, l.func),
    )

-- a thread that waits ends when it is destroyed
pub emi_thread_destroy-waiting :
    (u : Worker)
    → u.place ≡ waiting
    → (w : Worker) × Steps false (emi_thread_destroy u) w × (w.place ≡ ended)
emi_thread_destroy-waiting u e =
    (record (emi_thread_destroy u) { place = ended }, next here (resumes (ap wake e)), refl)

-- a thread that sleeps and was told to end, and that nobody will signal
record IsStranded (w : Worker) : Type 0 where
  place : w.place ≡ waiting
  status : w.status ≡ thread_exit
  stage : w.stage ≡ unlocked
  signals : w.signals ≡ 0

Step-IsStranded : {w u : Worker} → IsStranded w → Step w u → IsStranded u
Step-IsStranded l (locks e) = absurd (let q = l.place in cc)
Step-IsStranded l (finds_none e k) = absurd (let q = l.place in cc)
Step-IsStranded l (finds_job j e k) = absurd (let q = l.place in cc)
Step-IsStranded l (waits e) = absurd (let q = l.place in cc)
Step-IsStranded l (resumes e) = absurd (let q = l.place in cc)
Step-IsStranded l (clears e) = absurd (let q = l.place in cc)
Step-IsStranded l (idles e) = absurd (let q = l.place in cc)
Step-IsStranded l (moves e s) = absurd (let q = l.place in cc)
Step-IsStranded l (sets_status g a s e) = absurd (let q = l.status in cc)
Step-IsStranded l (sets_func g a s) = absurd (let q = l.stage in cc)
Step-IsStranded l (sets_args a s) = absurd (let q = l.stage in cc)
Step-IsStranded l (signals_it n e) = absurd (let q = l.signals in omega arith)

Steps-IsStranded : {w u : Worker} → IsStranded w → Steps false w u → IsStranded u
Steps-IsStranded l here = l
Steps-IsStranded l (next r s) = Step-IsStranded (Steps-IsStranded l r) s
Steps-IsStranded l (wakes b r e) = absurd (let q = b in cc)

-- a new thread that is destroyed before it takes its lock, with no job, no submission under way and
-- no signal on the way: it can come, without a spurious wake-up, to a state from which it does not
-- end in any run in which emi_cond_wait does not wake up spuriously
pub emi_thread_destroy-starting :
    (u : Worker)
    → u.place ≡ starting
    → u.func ≡ none
    → u.stage ≡ unlocked
    → u.signals ≡ 0
    → (w : Worker) × Steps false (emi_thread_destroy u) w
      × ((v : Worker) → Steps false w v → ¬ (v.place ≡ ended))
emi_thread_destroy-starting u e f s z =
    let w : Worker = record (emi_thread_destroy u) { place = waiting } in
    let stranded : IsStranded w = record { place = refl; status = refl; stage = s; signals = z } in
    (
      w,
      next (next (next here (locks (ap wake e))) (finds_none refl f)) (waits refl),
      λ v r q. let l = Steps-IsStranded stranded r in let p = l.place in cc,
    )

-- a thread that looks for a job while a submission is between its writes of `func` and of `args`
-- starts the function with the `args` of its former one
pub args_missed :
    (u : Worker) (f a : ℕ)
    → u.place ≡ testing
    → u.status ≡ thread_idle
    → u.stage ≡ unlocked
    → (w : Worker) × Steps false u w
      × (w.stage ≡ filled a)
      × (w.started ≡ u.started ++ ((f, u.args) ∷ []))
args_missed u f a e i s =
    let u₁ : Worker = record u { status = thread_busy; stage = marked f a } in
    let u₂ : Worker = record u₁ { func = some f; stage = filled a; given = u.given ++ (f ∷ []) } in
    (
      record u₂ { place = running; started = u.started ++ ((f, u.args) ∷ []) },
      next (next (next here (sets_status f a s i)) (sets_func f a refl)) (finds_job f e refl),
      refl,
      refl,
    )
