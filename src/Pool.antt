-- ===== src/Pool.antt =====
-- The thread pool of src/emi_thread.c: which thread gets a job. A thread is known by its address, a
-- job is `func` with its `args`. What is done under the pool's lock is one step; the two writes of a
-- thread behind its job and its move in the pool's list are three. Pool.Worker has one thread in
-- smaller steps, with its condition variable and its end, and Pool.Create the making of a pool that
-- may fail, and its destruction. Mutexes and the creation of threads are the operating system's.
pub mod Steps
pub mod Invariant
pub mod Submit
pub mod Worker
pub mod Order
pub mod Wakeup
pub mod Create
pub mod Created
mod Tests
use emilib.Prelude.{if◌then◌else◌, ℕ, ◌≡◌, Bool, true, false, Option, none, some, List, [], ◌∷◌}
use emilib.Hlist.{update}
use emilib.Ring.{Rings, init_list_head, list_add, list_move, list_move_tail}

-- the states of a thread that is in the pool
pub data Status : Type 0 where
  thread_busy : Status
  thread_idle : Status

pub record Pool : Type 0 where
  pub rings : Rings
  pub status : ℕ → Status
  pub func : ℕ → Option ℕ

-- `emi_thread_init`, and the `list_add` of `emi_thread_pool_init`
unfoldable pub add_thread : Pool → ℕ → ℕ → Pool
add_thread p head t = record {
  rings = list_add (init_list_head p.rings t) t head;
  status = update p.status t thread_idle;
  func = update p.func t none;
}

-- the loop of `emi_thread_pool_init`, with the addresses that `malloc` gives
unfoldable pub add_threads : Pool → ℕ → List ℕ → Pool
add_threads p head [] = p
add_threads p head (t ∷ ts) = add_threads (add_thread p head t) head ts

unfoldable pub emi_thread_pool_init : Pool → ℕ → List ℕ → Pool
emi_thread_pool_init p head ts =
    add_threads (record p { rings = init_list_head p.rings head }) head ts

-- how a submission ends: a thread of the pool takes the job, it gets a thread of its own, or that
-- cannot be made, and -1 is returned
pub data Submission : Type 0 where
  taken : Submission
  own_thread : Submission
  refused : Submission

-- `spawns` tells whether `pthread_create` makes a thread
unfoldable pub emi_thread_pool_submit : Pool → ℕ → Bool → ℕ → Submission × Pool
emi_thread_pool_submit p head spawns job =
    let t = p.rings.nexts head in
    elim (p.status t) [
      | thread_busy ↦ (if spawns then own_thread else refused, p)
      | thread_idle ↦ (
        taken,
        record {
          rings = list_move_tail p.rings t head;
          status = update p.status t thread_busy;
          func = update p.func t (some job);
        },
      )
    ]

-- `thread_func` after the job: its two writes, without a lock
unfoldable pub clear_func : Pool → ℕ → Pool
clear_func p t = record p { func = update p.func t none }

unfoldable pub set_idle : Pool → ℕ → Pool
set_idle p t = record p { status = update p.status t thread_idle }

-- `thread_func` under the pool's lock
unfoldable pub give_back : Pool → ℕ → ℕ → Pool
give_back p head t = record p { rings = list_move p.rings t head }
