-- ===== src/Broker/Tests.antt =====
-- A registration over the slow connection, at an empty table.
use emilib.Prelude.{ℕ, ◌+◌, ◌^◌, ◌<◌, ◌≡◌, refl, arith, Bool, true, false, none, some, [], length}
use emilib.Hlist.Chain.{has}
use emilib.Ring.Segment.{Distinct}
use emilib.Shmem.{Sizes, ShmemMgr, get_shm_size}
use emilib.Segment.{System, posix}
use emilib.Pool.{thread_busy}
use emilib.Pool.Create.{Parts, emi_thread_create, emi_thread_init, made}
use emilib.Broker.Start.{threads, Granted, Globals, start, all_granted, IsServing}
use emilib.Broker.Started.{start-IsServing}
use emilib.Message.{EmiMsg, payload, get_offset}
use emilib.Message.Codec.{received}
use emilib.Hash.{MsgTable, init_msg_table}
use emilib.Hash.Table.{init_msg_table-IsTable}
use emilib.Shared.{zeroed, alloc_shared_msg}
use emilib.Shared.Owned.{Granted-Owned}
use emilib.Shared.Sample.{fresh, half, first_half, first_half-IsHeap}
use emilib.Core.Registry.{Registry, Effect, admit}
use emilib.Sock.{emi_read}
use emilib.Sock.Slow.{Line, coming, went, slow, slow-IsStream}
use emilib.Sock.Payload.{emi_msg_read_payload}
use emilib.Broker.{Broker, Served, Receivers, untouched, serve_connection}
use emilib.Broker.Serve.{IsPlain, request, IsStanding, Attended, serve_connection-Attended}

-- process 90 registers for message 1
abbrev registration : EmiMsg
registration = record zeroed { flag = 16384; msg = 1; cmd = 90 }

registration-IsPlain : IsPlain registration
registration-IsPlain = record {
  members = record {
    flag = omega arith;
    msg = omega arith;
    cmd = omega arith;
    size = omega arith;
    retsize = omega arith;
  };
  no_data = refl;
  no_size = refl;
  no_retdata = refl;
}

abbrev empty : MsgTable
empty = init_msg_table (record {
  lists = record { firsts = λ b. some 9; nexts = λ n. some 9; pprevs = λ n. none };
  msg = λ a. 1;
  pid = λ a. 70;
})

abbrev nobody : Registry
nobody b = []

empty-IsStanding : IsStanding empty (λ b. []) nobody 3 60 registration
empty-IsStanding = record {
  registered = record {
    is = init_msg_table-IsTable (record {
      lists = record { firsts = λ b. some 9; nexts = λ n. some 9; pprevs = λ n. none };
      msg = λ a. 1;
      pid = λ a. 70;
    });
    unique = record { unique = λ b a c h m k q. cc };
    registered = λ b h. refl;
  };
  fresh = λ b h. refl;
  fits = omega arith;
  few = omega arith;
}

abbrev idle : Receivers
idle m shm mem = untouched 0 m shm mem

abbrev broker : Broker
broker = record { shm = fresh; mem = λ c. 0; table = empty }

abbrev obtained : EmiMsg
obtained = record zeroed { data_offset = get_offset first_half.1 (first_half.1 + half) }

alloc_made : alloc_shared_msg half fresh 0 ≡ some (some (first_half.1, obtained), first_half.2)
unfolding alloc_shared_msg
alloc_made = rw (alloc_shared_msg, first_half.3) refl

payload_read :
    emi_msg_read_payload 60 slow (payload registration, []) obtained
    ≡ some (true, received registration obtained, ([], []))
unfolding emi_msg_read_payload emi_read
payload_read = refl

abbrev admitted : Effect
admitted = admit nobody (request registration) false

serve_connection-Attended_example :
    (r : Served Line) × (serve_connection half 1 60 slow
        (payload registration, [])
        idle
        broker
        (some 3)
        []
      ≡ some r)
    × Attended Line 60 slow went idle
        (λ c. 0)
        first_half.1
        9
        first_half.0
        first_half.2
        (received registration obtained)
        admitted
        ([], [])
        r
serve_connection-Attended_example =
    serve_connection-Attended Line slow coming went slow-IsStream half 1 60 (omega arith) idle
      broker 3 [] (λ b. []) nobody admitted registration obtained (received registration obtained)
      first_half.2 first_half.1 9 first_half.0 (payload registration, []) ([], []) [] alloc_made
      first_half-IsHeap
      (Granted-Owned fresh half 9 first_half.0 first_half.1 first_half.2 first_half.4)
      registration-IsPlain refl payload_read empty-IsStanding refl
      (record { same = refl; no_data = refl; no_retdata = refl })

-- a system that grants everything
abbrev granting : System ℕ
granting = record {
  shm_open = λ f name create. some (3, f);
  ftruncate = λ f id size. (true, f);
  unlink = λ f name. f;
  close = λ f id. f;
  mmap = λ f size id both. some (8192, f);
  munmap = λ f a n. f;
  page_size = 4096;
}

abbrev sizes : Sizes
sizes = record { spinlock = 4; mutex = 40 }

abbrev parts : Parts
parts = record { cond = true; lock = true; thread = true }

abbrev everything : Granted
everything = record {
  rwlock = true;
  spinlock = true;
  pool_lock = true;
  attempts = λ i. (some (i + 1), parts);
  joins = λ t. true;
  opens = true;
  reuses = true;
  binds = true;
  listens = true;
}

abbrev before : Globals ℕ
before = record {
  table = empty;
  space = record {
    core_shmid = none;
    core_shmem_mgr = none;
    segment = record { system = 0; shmem_size = 0 };
  };
  shm = fresh;
  pool = record {
    rings = record { nexts = λ a. 9; prevs = λ a. 9 };
    status = λ a. thread_busy;
    func = λ a. some 4;
  };
  is_open = false;
}

small : get_shm_size sizes 300 + 4096 < 2 ^ 64
unfolding get_shm_size
small = omega arith

five-apart :
    (has 0 (made (threads everything)) ≡ false)
    × Distinct (made (threads everything))
    × (length (made (threads everything)) < 6)
unfolding emi_thread_create emi_thread_init
five-apart = (refl, (refl, (refl, (refl, (refl, (refl, tt))))), omega arith)

start-IsServing_example :
    (r : Bool × Globals ℕ) × (start 6 0 granting posix sizes 300 everything before ≡ some r)
    × (r.0 ≡ true
        → (all_granted everything ≡ true) × IsServing ℕ sizes 300 0 (made (threads everything)) r.1)
    × (all_granted everything ≡ true
        → (mgr : ShmemMgr) → r.1.space.core_shmem_mgr ≡ some mgr
        → r.0 ≡ true)
start-IsServing_example =
    start-IsServing ℕ 6 0 everything five-apart.0 five-apart.1 five-apart.2 (λ e c m. refl) granting
      posix sizes 300 before (omega arith) small
