-- ===== src/Broker/Started.antt =====
-- What the start of the broker, `__emi_core` of src/emi_core.c, comes to.
use emilib.Prelude.{
  ℕ, ◌+◌, ◌<◌, ◌^◌, ◌≡◌, refl, sym, ap, ◌∙◌, Bool, true, false, ◌&&◌, Option, none, some, List, [],
  ◌∷◌, arith, length, Bool-cases, Option-cases, inl, inr,
}
use mathlib.Core.Path.{subst}
use emilib.Hlist.Chain.{has}
use emilib.Hash.{MsgTable, init_msg_table}
use emilib.Hash.Table.{init_msg_table-IsTable}
use emilib.Shbuf.{init_emi_buf}
use emilib.Shbuf.Alloc.{IsHeap}
use emilib.Shbuf.Free.{init_emi_buf-IsHeap}
use emilib.Shmem.{Sizes, ShmemMgr, get_shm_size}
use emilib.Segment.{System, Kind}
use emilib.Segment.Space.{Space, Ready, int_global_shm_space-Ready}
use emilib.Ring.Segment.{Distinct}
use emilib.Pool.{Pool, emi_thread_pool_submit}
use emilib.Pool.Invariant.{IsPool, submit-IsPool}
use emilib.Pool.Create.{all_made-length, length-tries, made, all_made}
use emilib.Pool.Created.{create_pool-Outcome, Outcome-IsPool}
use emilib.Core.Registry.{Represents}
use emilib.Broker.Start.{
  pool_size, threads, Granted, Globals, has_pool, has_space, start, accept_all, IsServing, sockets,
  all_granted,
}

-- what a start that came to `g` and goes on to `r` is: it succeeds if and only if `good`, and if so
-- the pool is well-formed and the socket is open
record Continued (F : Type 0) (head : ℕ) (ts : List ℕ) (good : Bool) (g : Globals F)
    (r : Bool × Globals F) : Type 0 where
  ok : r.0 ≡ good
  table : r.1.table ≡ g.table
  space : r.1.space ≡ g.space
  shm : r.1.shm ≡ g.shm
  pool : r.0 ≡ true → IsPool head ts r.1.pool
  is_open : r.0 ≡ true → r.1.is_open ≡ true

has_pool-Continued :
    (F : Type 0) (head : ℕ) (ts : List ℕ) (can : Granted) (g : Globals F) (ok : Bool) (p : Pool)
    (freed : List ℕ)
    → (ok ≡ true → IsPool head ts p)
    → Continued F head ts (ok && sockets can) g (has_pool can g (ok, p, freed))
has_pool-Continued F head ts can g false p freed is = record {
  ok = refl;
  table = refl;
  space = refl;
  shm = refl;
  pool = λ q. cc;
  is_open = λ q. cc;
}
has_pool-Continued F head ts can g true p freed is = record {
  ok = ground arith;
  table = ground arith;
  space = ground arith;
  shm = ground arith;
  pool = λ q. subst (IsPool head ts) (ground arith) (is refl);
  is_open = λ q. ground arith;
}

empty-Represents : (t : MsgTable) → Represents (init_msg_table t) (λ b. []) (λ b. [])
empty-Represents t = record {
  is = init_msg_table-IsTable t;
  unique = record { unique = λ b a c h m m' e. cc };
  registered = λ b h. refl;
}

module _ (F : Type 0) (n head : ℕ) (can : Granted) (out : has head (made (threads can)) ≡ false)
    (distinct : Distinct (made (threads can))) (fuel : length (made (threads can)) < n)
    (joined : all_made (threads can) ≡ false
      → (c : ℕ) → has c (made (threads can)) ≡ true
      → can.joins c ≡ true) where
  has_space-Continued :
      (g : Globals F) (mgr : ShmemMgr)
      → let h = record g {
        shm = record (g.shm) { base = mgr.base; vector = init_emi_buf g.shm.vector };
      } in
        (r : Bool × Globals F) × (has_space n head can g (some mgr) ≡ some r)
        × Continued F head
            (made (threads can))
            (can.spinlock && ((can.pool_lock && all_made (threads can)) && sockets can))
            h
            r
  has_space-Continued g mgr =
      let h : Globals F = record g {
        shm = record (g.shm) { base = mgr.base; vector = init_emi_buf g.shm.vector };
      } in
      elim (Bool-cases can.spinlock) [
        | inl e ↦
            let (p, freed, run, o) =
              create_pool-Outcome can.joins n can.pool_lock h.pool head (threads can) out distinct
                fuel joined in
            let ok = can.pool_lock && all_made (threads can) in
            let is =
              Outcome-IsPool can.pool_lock (all_made (threads can)) head (made (threads can)) h.pool
                p freed o in
            (
              has_pool can h (ok, p, freed),
              rw (e, run) refl,
              rw e (has_pool-Continued F head (made (threads can)) can h ok p freed is),
            )
        | inr e ↦ (
          (false, h),
          rw e refl,
          rw e (record {
            ok = refl;
            table = refl;
            space = refl;
            shm = refl;
            pool = λ q. cc;
            is_open = λ q. cc;
          }),
        )
      ]

  Continued-IsServing :
      (k : System F) (z : Sizes) (pid_max : ℕ) (g : Globals F) (v : Space F) (mgr : ShmemMgr)
      (r : Bool × Globals F)
      → Continued F head
          (made (threads can))
          (can.spinlock && ((can.pool_lock && all_made (threads can)) && sockets can))
          (record g {
            table = init_msg_table g.table;
            space = v;
            shm = record (g.shm) { base = mgr.base; vector = init_emi_buf g.shm.vector };
          })
          r
      → v.core_shmem_mgr ≡ some mgr
      → Ready F z pid_max mgr v
      → all_made (threads can) ≡ true
      → r.0 ≡ true
      → IsServing F z pid_max head (made (threads can)) r.1
  Continued-IsServing k z pid_max g v mgr r c q ready all w = record {
    registry =
        subst (λ t. Represents t (λ b. []) (λ b. [])) (sym c.table) (empty-Represents g.table);
    heap = subst IsHeap (sym c.shm) (init_emi_buf-IsHeap (record (g.shm) { base = mgr.base })).0;
    mgr = mgr;
    regions = ap (λ s. s.core_shmem_mgr) c.space ∙ q;
    ready = subst (Ready F z pid_max mgr) (sym c.space) ready;
    based = ap (λ s. s.base) c.shm;
    pool = c.pool w;
    five = all_made-length (threads can) all ∙ length-tries pool_size can.attempts;
    is_open = c.is_open w;
  }

  -- where a size_t holds the size of the shared memory and malloc gives distinct addresses, with
  -- more fuel than threads, and each thread of the pool ends once it is told to if not all five can
  -- be made, the start of the broker ends. It comes to its loop if and only if all is granted and
  -- the shared memory is mapped; then nothing is registered, the heap is exact and its regions lie
  -- in the mapped memory, the pool is well-formed and has its five threads, and the socket is open
  pub start-IsServing :
      (k : System F) (kind : Kind) (z : Sizes) (pid_max : ℕ) (g : Globals F)
      → 0 < k.page_size
      → get_shm_size z pid_max + k.page_size < 2 ^ 64
      → (r : Bool × Globals F) × (start n head k kind z pid_max can g ≡ some r)
        × (r.0 ≡ true
            → (all_granted can ≡ true) × IsServing F z pid_max head (made (threads can)) r.1)
        × (all_granted can ≡ true
            → (mgr : ShmemMgr) → r.1.space.core_shmem_mgr ≡ some mgr
            → r.0 ≡ true)
  unfolding start
  start-IsServing k kind z pid_max g page size = elim (Bool-cases can.rwlock) [
    | inl e ↦
        let h : Globals F = record g { table = init_msg_table g.table } in
        let (v, run, ready) =
          int_global_shm_space-Ready F k kind z pid_max h.space.segment page size in
        let u : Globals F = record h { space = v } in
        let to : start n head k kind z pid_max can g ≡ has_space n head can u v.core_shmem_mgr =
          rw (start, e, run) refl in
        elim (Option-cases v.core_shmem_mgr) [
          | inl q ↦ (
            (false, u),
            to ∙ ap (has_space n head can u) q,
            λ w. cc,
            λ w mgr m. absurd (let clash = sym q ∙ m in cc),
          )
          | inr (mgr, q) ↦
              let (r, run', c) = has_space-Continued u mgr in
              (
                r,
                to ∙ ap (has_space n head can u) q ∙ run',
                λ w.
                    let good = sym c.ok ∙ w in
                    (
                      rw (e, good) refl,
                      Continued-IsServing k z pid_max g v mgr r c q (ready mgr q) (ground arith) w,
                    ),
                λ w mgr' m. c.ok ∙ ground arith,
              )
        ]
    | inr e ↦ (
      (false, record g { table = init_msg_table g.table }),
      rw e refl,
      λ q. cc,
      λ q. absurd (ground arith),
    )
  ]

-- a broker that is ready for connections, with at least one thread in its pool, stays so in its loop
pub accept_all-IsServing :
    (F : Type 0) (z : Sizes) (pid_max head : ℕ) (ts : List ℕ) (g : Globals F)
    (cs : List (Option (ℕ × Bool)))
    → 0 < length ts
    → IsServing F z pid_max head ts g
    → IsServing F z pid_max head ts (accept_all head g cs).1
unfolding accept_all
accept_all-IsServing F z pid_max head ts g [] some_thread is = is
accept_all-IsServing F z pid_max head ts g (none ∷ cs) some_thread is =
    accept_all-IsServing F z pid_max head ts g cs some_thread is
accept_all-IsServing F z pid_max head ts g (some (client_sd, spawns) ∷ cs) some_thread is =
    let p = (emi_thread_pool_submit g.pool head spawns client_sd).1 in
    accept_all-IsServing F z pid_max head ts (record g { pool = p }) cs some_thread
      (record {
        registry = is.registry;
        heap = is.heap;
        mgr = is.mgr;
        regions = is.regions;
        ready = record { layout = is.ready.layout; room = is.ready.room; known = is.ready.known };
        based = is.based;
        five = is.five;
        pool = submit-IsPool head ts g.pool spawns client_sd is.pool some_thread;
        is_open = is.is_open;
      })
