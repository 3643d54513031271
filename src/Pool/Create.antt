-- ===== src/Pool/Create.antt =====
-- How a pool of src/emi_thread.c is made and destroyed, where a thread may fail to be made. A thread
-- is known by its address; a destroyed one is given back. `joins` tells of which threads
-- `pthread_join` comes to an end once they are told to end; of which it does is in Pool.Wakeup.
use emilib.Prelude.{
  length, ap, arith, ℕ, zero, suc, ◌≡◌, refl, Bool, true, false, Option, none, some, List, [], ◌∷◌,
  ◌==◌, if◌then◌else◌, Bool-cases, Option-cases, inl, inr,
}
use emilib.Ring.{Rings, init_list_head, list_del}
use emilib.Pool.{Pool, add_thread, add_threads}

-- the parts of a thread: which can be made, or which there are
pub record Parts : Type 0 where
  pub cond : Bool
  pub lock : Bool
  pub thread : Bool

abbrev no_parts : Parts
no_parts = record { cond = false; lock = false; thread = false }

abbrev pub out_cond : Parts → Bool × Parts
out_cond p = (false, record p { cond = false })

abbrev pub out_lock : Parts → Bool × Parts
out_lock p = out_cond (record p { lock = false })

-- `emi_thread_init`: whether it succeeds, and the parts that are there afterwards
unfoldable pub emi_thread_init : Parts → Bool × Parts
emi_thread_init can =
    let with_cond : Parts = record no_parts { cond = true } in
    let with_lock : Parts = record with_cond { lock = true } in
    if can.cond
    then (if can.lock
        then (if can.thread then (true, record with_lock { thread = true }) else out_lock with_lock)
        else out_cond with_cond)
    else (false, no_parts)

-- `emi_thread_create`: `malloc` gives the address, or NULL, and a thread that cannot be made is given
-- back
unfoldable pub emi_thread_create : Option ℕ → Parts → Option ℕ
emi_thread_create none can = none
emi_thread_create (some t) can = if (emi_thread_init can).0 then some t else none

-- the loop of `emi_thread_pool_init`: whether all threads were made, and the pool
unfoldable pub create_threads : Pool → ℕ → List (Option ℕ × Parts) → Bool × Pool
create_threads p head [] = (true, p)
create_threads p head ((a, can) ∷ rest) = elim (emi_thread_create a can) [
  | none ↦ (false, p)
  | some t ↦ create_threads (add_thread p head t) head rest
]

abbrev pub noted : ℕ → Option (Rings × List ℕ) → Option (Rings × List ℕ)
noted t none = none
noted t (some (u, ts)) = some (u, t ∷ ts)

-- the loop of `emi_thread_pool_destroy` from `pos` on: the list, and the threads that were given
-- back, in order. Each thread is told to end and waited for; `none` is also a wait without an end
unfoldable pub destroy_threads : (ℕ → Bool) → ℕ → Rings → ℕ → ℕ → Option (Rings × List ℕ)
destroy_threads joins zero t head pos = none
destroy_threads joins (suc n) t head pos =
    let rest = destroy_threads joins n (list_del t pos) head (t.nexts pos) in
    if pos == head then some (t, []) else if joins pos then noted pos rest else none

abbrev pub destroyed : Pool → Option (Rings × List ℕ) → Option (Bool × Pool × List ℕ)
destroyed p none = none
destroyed p (some (t, ts)) = some (false, record p { rings = t }, ts)

-- the end of `emi_thread_pool_init`: the pool is destroyed if a thread could not be made
unfoldable pub settle : (ℕ → Bool) → ℕ → ℕ → Bool × Pool → Option (Bool × Pool × List ℕ)
settle joins n head (all, p) =
    if all
    then some (true, p, [])
    else destroyed p (destroy_threads joins n p.rings head (p.rings.nexts head))

-- `emi_thread_pool_init`, where the lock of the pool may fail to be made: whether it succeeds, the
-- pool, and the threads that were given back
unfoldable pub create_pool :
    (ℕ → Bool) → ℕ → Bool → Pool → ℕ → List (Option ℕ × Parts) → Option (Bool × Pool × List ℕ)
create_pool joins n lock p head xs =
    if lock
    then settle joins n head
        (create_threads (record p { rings = init_list_head p.rings head }) head xs)
    else some (false, p, [])

-- what `size` calls of `emi_thread_create` are granted, the first with `size - 1`
abbrev pub tries : ℕ → (ℕ → Option ℕ × Parts) → List (Option ℕ × Parts)
tries zero attempts = []
tries (suc size) attempts = attempts size ∷ tries size attempts

-- a thread that cannot be made leaves none of its parts, and has all of them if it is made
pub emi_thread_init-parts :
    (can : Parts)
    → (emi_thread_init can).1 ≡ (
        if (emi_thread_init can).0
        then record { cond = true; lock = true; thread = true }
        else no_parts)
unfolding emi_thread_init
emi_thread_init-parts can = elim (Bool-cases can.cond) [
  | inl c ↦ elim (Bool-cases can.lock) [
    | inl l ↦ elim (Bool-cases can.thread) [
      | inl t ↦ rw (emi_thread_init, c, l, t) refl
      | inr t ↦ rw (emi_thread_init, c, l, t) refl
    ]
    | inr l ↦ rw (emi_thread_init, c, l) refl
  ]
  | inr c ↦ rw (emi_thread_init, c) refl
]

-- the threads that are made before the first failure
abbrev pub made : List (Option ℕ × Parts) → List ℕ
made [] = []
made ((a, can) ∷ rest) = elim (emi_thread_create a can) [ none ↦ [] | some t ↦ t ∷ made rest ]

abbrev pub all_made : List (Option ℕ × Parts) → Bool
all_made [] = true
all_made ((a, can) ∷ rest) = elim (emi_thread_create a can) [
  | none ↦ false
  | some t ↦ all_made rest
]

pub create_threads-add_threads :
    (p : Pool) (head : ℕ) (xs : List (Option ℕ × Parts))
    → create_threads p head xs ≡ (all_made xs, add_threads p head (made xs))
unfolding create_threads add_threads
create_threads-add_threads p head [] = refl
create_threads-add_threads p head ((a, can) ∷ rest) =
    elim (Option-cases (emi_thread_create a can)) [
      | inl e ↦ rw (create_threads, all_made, made, e) refl
      | inr (t, e) ↦
          rw (create_threads, all_made, made, e)
            (create_threads-add_threads (add_thread p head t) head rest)
    ]

pub all_made-length :
    (xs : List (Option ℕ × Parts)) → all_made xs ≡ true → length (made xs) ≡ length xs
all_made-length [] e = refl
all_made-length ((a, can) ∷ rest) e = elim (Option-cases (emi_thread_create a can)) [
  | inl q ↦ absurd (ground arith)
  | inr (t, q) ↦
      let more = all_made-length rest (rw (all_made, q) at e) in rw (made, q) (ap suc more)
]

pub length-tries :
    (size : ℕ) (attempts : ℕ → Option ℕ × Parts) → length (tries size attempts) ≡ size
length-tries zero attempts = refl
length-tries (suc size) attempts = ap suc (length-tries size attempts)
