-- ===== src/Handler/Init/Tests.antt =====
-- A process that finds the broker's segment, and cannot make its second thread.
use emilib.Prelude.{◌+◌, ◌==◌, ℕ, ◌<◌, ◌≡◌, refl, arith, Bool, true, false, none, some, length}
use emilib.Hlist.Chain.{has}
use emilib.Shmem.{Sizes}
use emilib.Segment.{posix, init_pathname}
use emilib.Segment.Sample.{NameSet, with, names, names-HasNames}
use emilib.Segment.Space.{emilib_name}
use emilib.Ring.Segment.{Distinct}
use emilib.Pool.{thread_busy}
use emilib.Pool.Create.{Parts, emi_thread_create, emi_thread_init, made}
use emilib.Handler.Init.{threads, Receiver, Granted, emi_init, IsAttached, emi_init-Ended}

abbrev sizes : Sizes
sizes = record { spinlock = 4; mutex = 40 }

abbrev parts : Parts
parts = record { cond = true; lock = true; thread = true }

abbrev granted : Granted
granted = record {
  sigaction = true;
  pool_lock = true;
  attempts = λ i. (some (i + 1), record parts { thread = i == 1 });
  joins = λ t. true;
}

-- the broker's segment is there
abbrev before : Receiver NameSet
before = record {
  handles = false;
  shm_id = none;
  recv_mgr = none;
  segment = record { system = with (λ p. false) (init_pathname posix emilib_name); shmem_size = 0 };
  pool = record {
    rings = record { nexts = λ a. 9; prevs = λ a. 9 };
    status = λ a. thread_busy;
    func = λ a. some 4;
  };
}

one-apart :
    (has 0 (made (threads granted)) ≡ false)
    × Distinct (made (threads granted))
    × (length (made (threads granted)) < 3)
unfolding emi_thread_create emi_thread_init
one-apart = (refl, (refl, tt), omega arith)

emi_init-Ended_example :
    (r : Bool × Receiver NameSet) × (emi_init 3 0 names posix sizes 300 granted before ≡ some r)
    × (r.0 ≡ true → IsAttached NameSet sizes 300 0 (made (threads granted)) r.1)
    × (r.0 ≡ false
        → granted.sigaction ≡ true
        → (id : ℕ) → r.1.shm_id ≡ some id
        → r.1.segment.system (init_pathname posix emilib_name) ≡ false)
emi_init-Ended_example =
    emi_init-Ended NameSet 3 0 names sizes 300 granted (λ f p. f p) names-HasNames one-apart.0
      one-apart.1 one-apart.2 (λ e c m. refl) before
