-- ===== src/Handler/Init.antt =====
-- How a receiving process starts, `emi_init` of src/emi_ifr.c, and what it leaves where it fails.
mod Tests
use emilib.Prelude.{
  ℕ, ◌<◌, ◌≡◌, refl, sym, ap, ◌∙◌, arith, Bool, true, false, ◌&&◌, Option, none, some, List, length,
  ◌>>=◌, if◌then◌else◌, Bool-cases, Option-cases, inl, inr,
}
use emilib.Hlist.Chain.{has}
use emilib.Shmem.{Sizes, ShmemMgr, get_shm_size, emi_shmem_mgr_init}
use emilib.Shmem.Layout.{Layout, emi_shmem_mgr_init-Layout}
use emilib.Segment.{
  System, Segment, Kind, posix, init_pathname, sized, emi_shm_init, emi_shm_alloc, emi_shm_free,
  emi_shm_destroy,
}
use emilib.Segment.Names.{HasNames}
use emilib.Segment.Space.{emilib_name}
use emilib.Ring.Segment.{Distinct}
use emilib.Pool.{Pool}
use emilib.Pool.Invariant.{IsPool}
use emilib.Pool.Create.{all_made-length, length-tries, tries, Parts, made, all_made, create_pool}
use emilib.Pool.Created.{Outcome, create_pool-Outcome, Outcome-IsPool}

-- the globals of a receiving process: whether it handles the signal, `emi_global.shm_id`, which is -1
-- or an identifier, `__recv_mgr` if it was set, its segment, and its pool
pub record Receiver (F : Type 0) : Type 0 where
  pub handles : Bool
  pub shm_id : Option ℕ
  pub recv_mgr : Option ShmemMgr
  pub segment : Segment F
  pub pool : Pool

-- what the operating system grants, and that a thread ends once it is told to
pub record Granted : Type 0 where
  pub sigaction : Bool
  pub pool_lock : Bool
  pub attempts : ℕ → Option ℕ × Parts
  pub joins : ℕ → Bool

-- the size of a receiver's pool
abbrev pub pool_size : ℕ
pool_size = 2

abbrev pub threads : Granted → List (Option ℕ × Parts)
threads can = tries pool_size can.attempts

module _ {F : Type 0} (n head : ℕ) (k : System F) (kind : Kind) (z : Sizes) (pid_max : ℕ)
    (can : Granted) where
  -- `emi_shm_destroy` and the return of -1
  abbrev pub gives_up : Receiver F → ℕ → Segment F → Option (Bool × Receiver F)
  gives_up g id s =
      emi_shm_destroy k kind s emilib_name id >>= (λ u. some (false, record g { segment = u }))

  -- what follows `emi_thread_pool_init`
  abbrev pub has_pool : Receiver F → ℕ → ℕ → Bool × Pool × List ℕ → Option (Bool × Receiver F)
  has_pool g id base (ok, p, freed) =
      let h = record g { pool = p } in
      if ok then some (true, h) else gives_up h id (emi_shm_free k h.segment base)

  -- what follows `emi_shm_alloc`
  abbrev pub based : Receiver F → ℕ → Option ℕ × Segment F → Option (Bool × Receiver F)
  based g id (none, s) = gives_up g id s
  based g id (some base, s) =
      let h = record g { segment = s; recv_mgr = some (emi_shmem_mgr_init z base pid_max) } in
      create_pool can.joins n can.pool_lock h.pool head (threads can) >>= has_pool h id base

  -- what follows `emi_shm_init`
  abbrev pub opened : Receiver F → Option ℕ × Segment F → Option (Bool × Receiver F)
  opened g (none, s) = some (false, record g { shm_id = none; segment = s })
  opened g (some id, s) =
      based (record g { shm_id = some id; segment = s }) id (emi_shm_alloc k s id true)

  unfoldable pub emi_init : Receiver F → Option (Bool × Receiver F)
  emi_init g =
      if can.sigaction
      then (emi_shm_init k kind g.segment emilib_name (get_shm_size z pid_max) false
          >>= opened (record g { handles = true }))
      else some (false, g)

-- a process that is ready for messages
pub record IsAttached (F : Type 0) (z : Sizes) (pid_max head : ℕ) (ts : List ℕ) (g : Receiver F)
    : Type 0 where
  pub handles : g.handles ≡ true
  pub mgr : ShmemMgr
  pub regions : g.recv_mgr ≡ some mgr
  pub layout : Layout z mgr.base pid_max mgr
  pub pool : IsPool head ts g.pool
  pub two : length ts ≡ 2

module _ (F : Type 0) (n head : ℕ) (k : System F) (z : Sizes) (pid_max : ℕ) (can : Granted)
    (exists : F → List ℕ → Bool) (is : HasNames F k exists)
    (out : has head (made (threads can)) ≡ false) (distinct : Distinct (made (threads can)))
    (fuel : length (made (threads can)) < n)
    (joined : all_made (threads can) ≡ false
      → (c : ℕ) → has c (made (threads can)) ≡ true
      → can.joins c ≡ true) where
  -- how a start ends that opened the segment
  record Ended (r : Bool × Receiver F) : Type 0 where
    good : r.0 ≡ true → IsAttached F z pid_max head (made (threads can)) r.1
    gone : r.0 ≡ false → exists r.1.segment.system (init_pathname posix emilib_name) ≡ false

  gives_up-Ended :
      (g : Receiver F) (id : ℕ) (s : Segment F)
      → (r : Bool × Receiver F) × (gives_up n head k posix z pid_max can g id s ≡ some r) × Ended r
  unfolding emi_shm_destroy
  gives_up-Ended g id s = (
    (
      false,
      record g {
        segment = record s {
          system = k.unlink (k.close s.system id) (init_pathname posix emilib_name);
        };
      },
    ),
    refl,
    record {
      good = λ q. cc;
      gone = λ q. is.unlink_self (k.close s.system id) (init_pathname posix emilib_name);
    },
  )

  has_pool-Ended :
      (g : Receiver F) (id base : ℕ) (ok : Bool) (p : Pool) (freed : List ℕ)
      → g.handles ≡ true
      → g.recv_mgr ≡ some (emi_shmem_mgr_init z base pid_max)
      → (ok ≡ true → IsPool head (made (threads can)) p)
      → (ok ≡ true → all_made (threads can) ≡ true)
      → (r : Bool × Receiver F) × (has_pool n head k posix z pid_max can g id base (ok, p, freed)
          ≡ some r)
        × Ended r
  unfolding emi_shmem_mgr_init
  has_pool-Ended g id base false p freed h m pool all =
      let t = record g { pool = p } in gives_up-Ended t id (emi_shm_free k t.segment base)
  has_pool-Ended g id base true p freed h m pool all = (
    (true, record g { pool = p }),
    refl,
    record {
      good = λ q. record {
        handles = h;
        mgr = emi_shmem_mgr_init z base pid_max;
        regions = m;
        layout = emi_shmem_mgr_init-Layout z base pid_max;
        pool = pool refl;
        two = all_made-length (threads can) (all refl) ∙ length-tries pool_size can.attempts;
      };
      gone = λ q. cc;
    },
  )

  based-Ended :
      (g : Receiver F) (id : ℕ) (m : Option ℕ × Segment F)
      → g.handles ≡ true
      → (r : Bool × Receiver F) × (based n head k posix z pid_max can g id m ≡ some r) × Ended r
  based-Ended g id (none, s) h = gives_up-Ended g id s
  based-Ended g id (some base, s) h =
      let t = record g { segment = s; recv_mgr = some (emi_shmem_mgr_init z base pid_max) } in
      let (p, freed, run, o) =
        create_pool-Outcome can.joins n can.pool_lock t.pool head (threads can) out distinct fuel
          joined in
      let pool =
        Outcome-IsPool can.pool_lock (all_made (threads can)) head (made (threads can)) t.pool p
          freed o in
      let (r, run', ended) =
        has_pool-Ended t id base (can.pool_lock && all_made (threads can)) p freed h refl pool
          (λ q. ground arith) in
      (r, ap (λ x. x >>= has_pool n head k posix z pid_max can t id base) run ∙ run', ended)

  opened-Ended :
      (g : Receiver F) (m : Option ℕ × Segment F)
      → g.handles ≡ true
      → (r : Bool × Receiver F) × (opened n head k posix z pid_max can g m ≡ some r)
        × (r.0 ≡ true → IsAttached F z pid_max head (made (threads can)) r.1)
        × (r.0 ≡ false
            → (id : ℕ) → r.1.shm_id ≡ some id
            → exists r.1.segment.system (init_pathname posix emilib_name) ≡ false)
  opened-Ended g (none, s) h =
      ((false, record g { shm_id = none; segment = s }), refl, λ q. cc, λ q id i. cc)
  opened-Ended g (some id, s) h =
      let (r, run, ended) =
        based-Ended (record g { shm_id = some id; segment = s }) id (emi_shm_alloc k s id true) h in
      (r, run, ended.good, λ q id i. ended.gone q)

  -- with a segment of POSIX shared memory, distinct addresses of threads and more fuel than threads,
  -- and where each thread of the pool ends once it is told to if not both can be made, emi_init
  -- ends. If it succeeds the process handles the signal, knows the regions, and has a well-formed pool
  -- of two threads; if it fails with the segment open, because it is not mapped or the pool is not
  -- made, the segment's name is gone, which the broker made
  pub emi_init-Ended :
      (g : Receiver F)
      → (r : Bool × Receiver F) × (emi_init n head k posix z pid_max can g ≡ some r)
        × (r.0 ≡ true → IsAttached F z pid_max head (made (threads can)) r.1)
        × (r.0 ≡ false
            → can.sigaction ≡ true
            → (id : ℕ) → r.1.shm_id ≡ some id
            → exists r.1.segment.system (init_pathname posix emilib_name) ≡ false)
  unfolding emi_init emi_shm_init
  emi_init-Ended g = elim (Bool-cases can.sigaction) [
    | inl e ↦
        let size = get_shm_size z pid_max in
        let m = k.shm_open g.segment.system (init_pathname posix emilib_name) false in
        let (r, run, good, gone) =
          opened-Ended (record g { handles = true })
            (sized k g.segment (init_pathname posix emilib_name) size false m) refl in
        let to : emi_init n head k posix z pid_max can g
            ≡ opened n head k posix z pid_max can (record g { handles = true })
                (sized k g.segment (init_pathname posix emilib_name) size false m) =
          rw (emi_init, e) refl in
        (r, to ∙ run, good, λ q s id i. gone q id i)
    | inr e ↦ ((false, g), rw (emi_init, e) refl, λ q. cc, λ q s id m. cc)
  ]
