-- ===== src/Broker/Start.antt =====
-- How the broker starts, `__emi_core` of src/emi_core.c and its loop: each part is initialised, and
-- the first that fails ends it. What the operating system grants is an argument.
use emilib.Prelude.{
  length, ℕ, ◌≡◌, Bool, true, false, ◌&&◌, Option, none, some, List, [], ◌∷◌, ◌>>=◌, if◌then◌else◌,
}
use emilib.Hash.{MsgTable, init_msg_table}
use emilib.Shbuf.{Shm, init_emi_buf}
use emilib.Shbuf.Alloc.{IsHeap}
use emilib.Shmem.{Sizes, ShmemMgr}
use emilib.Segment.{System, Kind}
use emilib.Segment.Space.{Space, Ready, int_global_shm_space}
use emilib.Pool.{Submission, Pool, emi_thread_pool_submit}
use emilib.Pool.Invariant.{IsPool}
use emilib.Pool.Create.{tries, Parts, all_made, create_pool}
use emilib.Core.Registry.{Represents}

-- what is granted: the locks, the threads, that a thread ends once it is told to, and the calls on
-- the socket
pub record Granted : Type 0 where
  pub rwlock : Bool
  pub spinlock : Bool
  pub pool_lock : Bool
  pub attempts : ℕ → Option ℕ × Parts
  pub joins : ℕ → Bool
  pub opens : Bool
  pub reuses : Bool
  pub binds : Bool
  pub listens : Bool

-- the size of the broker's pool
abbrev pub pool_size : ℕ
pool_size = 5

abbrev pub threads : Granted → List (Option ℕ × Parts)
threads can = tries pool_size can.attempts

-- the globals of the broker, and whether its socket is open
pub record Globals (F : Type 0) : Type 0 where
  pub table : MsgTable
  pub space : Space F
  pub shm : Shm
  pub pool : Pool
  pub is_open : Bool

-- from `emi_open` to `emi_listen`
abbrev pub open_socket : {F : Type 0} → Granted → Globals F → Bool × Globals F
open_socket can g =
    if can.opens
    then (if can.reuses
        then (if can.binds
            then (if can.listens
                then (true, record g { is_open = true })
                else (false, record g { is_open = false }))
            else (false, record g { is_open = false }))
        else (false, record g { is_open = true }))
    else (false, g)

-- what follows `emi_thread_pool_init`
abbrev pub has_pool : {F : Type 0} → Granted → Globals F → Bool × Pool × List ℕ → Bool × Globals F
has_pool can g (ok, p, freed) =
    let h = record g { pool = p } in if ok then open_socket can h else (false, h)

-- what follows `int_global_shm_space`; `head` is the pool's list
abbrev pub has_space :
    {F : Type 0} → ℕ → ℕ → Granted → Globals F → Option ShmemMgr → Option (Bool × Globals F)
has_space n head can g none = some (false, g)
has_space n head can g (some mgr) =
    let h = record g {
      shm = record (g.shm) { base = mgr.base; vector = init_emi_buf g.shm.vector };
    } in
    if can.spinlock
    then create_pool can.joins n can.pool_lock h.pool head (threads can)
      >>= (λ r. some (has_pool can h r))
    else some (false, h)

-- whether the loop is reached, and the globals
unfoldable pub start :
    {F : Type 0}
    → ℕ
    → ℕ
    → System F
    → Kind
    → Sizes
    → ℕ
    → Granted
    → Globals F
    → Option (Bool × Globals F)
start n head k kind z pid_max can g =
    let h = record g { table = init_msg_table g.table } in
    if can.rwlock
    then (int_global_shm_space k kind z h.space.segment pid_max
        >>= (λ v. has_space n head can (record h { space = v }) v.core_shmem_mgr))
    else some (false, h)

-- the loop, for the connections that `emi_accept` gives, each with whether a thread can be made for
-- it: how its submission ended, which is not looked at
unfoldable pub accept_all :
    {F : Type 0} → ℕ → Globals F → List (Option (ℕ × Bool)) → List Submission × Globals F
accept_all head g [] = ([], g)
accept_all head g (none ∷ cs) = accept_all head g cs
accept_all head g (some (client_sd, spawns) ∷ cs) =
    let (s, p) = emi_thread_pool_submit g.pool head spawns client_sd in
    let (ss, h) = accept_all head (record g { pool = p }) cs in (s ∷ ss, h)

-- the broker is ready for connections: nothing is registered, all the shared memory is free and lies
-- where its regions say, the pool has the five threads `ts`, and the socket is open
pub record IsServing (F : Type 0) (z : Sizes) (pid_max head : ℕ) (ts : List ℕ) (g : Globals F)
    : Type 0 where
  pub registry : Represents g.table (λ b. []) (λ b. [])
  pub heap : IsHeap g.shm
  pub mgr : ShmemMgr
  pub regions : g.space.core_shmem_mgr ≡ some mgr
  pub ready : Ready F z pid_max mgr g.space
  pub based : g.shm.base ≡ mgr.base
  pub pool : IsPool head ts g.pool
  pub five : length ts ≡ 5
  pub is_open : g.is_open ≡ true

-- the calls on the socket
abbrev pub sockets : Granted → Bool
sockets can = can.opens && (can.reuses && (can.binds && can.listens))

-- all that is granted
abbrev pub all_granted : Granted → Bool
all_granted can =
    can.rwlock && (can.spinlock && ((can.pool_lock && all_made (threads can)) && sockets can))
