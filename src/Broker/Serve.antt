-- ===== src/Broker/Serve.antt =====
-- What a connection leaves behind, `emi_receive_operation` of src/emi_core.c, for a message without
-- data.
use emilib.Prelude.{
  ℕ, ◌^◌, ◌<◌, ◌≡◌, refl, ◌∙◌, arith, Bool, true, false, some, List, [], ◌∷◌, ◌++◌, length, ltb,
  same_run,
}
use mathlib.Core.Path.{subst}
use emilib.Message.{EmiMsg, payload, has_flag, cmd_register, flag_allocdata}
use emilib.Message.Codec.{IsEmiMsg, received}
use emilib.Hash.{hash32, MsgTable}
use emilib.Hash.Table.{Entries}
use emilib.Shbuf.{Shm}
use emilib.Shbuf.Alloc.{IsHeap}
use emilib.Shbuf.Free.{Freed}
use emilib.Shared.{alloc_shared_msg}
use emilib.Shared.Owned.{Owned}
use emilib.Shared.Release.{free_shared_msg-Freed}
use emilib.Core.{Message, Round, Outcome}
use emilib.Core.Deliver.{Fresh}
use emilib.Core.Registry.{Registry, Effect, Represents, addressed, serve}
use emilib.Core.Refines.{Refines}
use emilib.Core.Receive.{emi_receive_operation-Refines}
use emilib.Sock.{Socket, IsStream, emi_write}
use emilib.Sock.Write.{Writes, emi_write-Writes}
use emilib.Sock.Message.{emi_msg_write_payload, append_all}
use emilib.Sock.Payload.{emi_msg_read_payload, emi_msg_read_payload-PayloadRead}
use emilib.Sockr.{MsgRead, emi_msg_read}
use emilib.Sockr.Ret.{emi_msg_write_ret}
use emilib.Broker.{
  Broker, Served, Handled, Receivers, touched, write_answer, finish, was_read, allocated,
  serve_connection,
}
use emilib.Broker.Flags.{serve-flag}

-- the message as the receivers leave it: without data and return data, in the same memory
pub record IsTame (shm : Shm) (h : Handled) : Type 0 where
  pub same : h.shm ≡ shm
  pub no_data : has_flag h.m.flag flag_allocdata ≡ false
  pub no_retdata : h.m.retsize ≡ 0

-- what a connection with the message `m`, which was read to the block `blk` at `a`, left behind; `v`
-- is the connection after the reading
pub record Attended (S : Type 0) (fuel : ℕ) (k : Socket S) (outgoing : S → List ℕ)
    (receivers : Receivers) (mem : ℕ → ℕ) (a ord blk : ℕ) (t : Shm) (m : EmiMsg) (e : Effect)
    (v : S) (r : Served S) : Type 0 where
  pub entries : Entries
  pub table : Represents r.broker.table entries e.registry
  pub signals : r.signals ≡ e.signals
  pub freed : Freed t ord blk r.broker.shm
  pub silent : e.reply ≡ false → r.sd ≡ v
  pub answered :
      e.reply ≡ true
      → let final = (touched receivers a e.signals (record m { flag = e.flag }) t mem).m in
        (ok : Bool) × (emi_write fuel k v (payload final) ≡ some (ok, r.sd))
        × (ok ≡ true → outgoing r.sd ≡ outgoing v ++ payload final)

-- the answer of a message without return data is its payload
record Written (S : Type 0) (fuel : ℕ) (k : Socket S) (outgoing : S → List ℕ) (v : S) (m : EmiMsg)
    (reply : Bool) (u : S) : Type 0 where
  silent : reply ≡ false → u ≡ v
  answered :
      reply ≡ true
      → (ok : Bool) × (emi_write fuel k v (payload m) ≡ some (ok, u))
        × (ok ≡ true → outgoing u ≡ outgoing v ++ payload m)

module _ (S : Type 0) (k : Socket S) (incoming outgoing : S → List ℕ)
    (is : IsStream S k incoming outgoing) (n fuel a : ℕ) (long : 20 < fuel) where
  write_answer-Written :
      (v : S) (reply registers : Bool) (h : Handled)
      → h.m.retsize ≡ 0
      → (w : Bool × S) × (write_answer n fuel k v a reply registers h ≡ some w)
        × Written S fuel k outgoing v h.m reply w.1
  unfolding write_answer emi_msg_write_payload emi_msg_write_ret
  write_answer-Written v false registers h z =
      ((true, v), refl, record { silent = λ q. refl; answered = λ q. cc })
  write_answer-Written v true true h z =
      let ((ok, u), run, w) =
        emi_write-Writes S k incoming outgoing is fuel v (payload h.m) (omega arith) in
      (
        (ok, u),
        run,
        record {
          silent = λ q. cc;
          answered = λ q. (
            ok,
            run,
            λ y.
                append_all S outgoing v (payload h.m) u
                  (subst (λ o. Writes S outgoing v (payload h.m) (o, u)) y w),
          );
        },
      )
  write_answer-Written v true false h z =
      let ((ok, u), run, w) =
        emi_write-Writes S k incoming outgoing is fuel v (payload h.m) (omega arith) in
      let none_left : ltb 0 h.m.retsize ≡ false = ground arith in go ok u run w none_left
    where
      go :
          (ok : Bool) (u : S)
          → emi_write fuel k v (payload h.m) ≡ some (ok, u)
          → Writes S outgoing v (payload h.m) (ok, u)
          → ltb 0 h.m.retsize ≡ false
          → (w : Bool × S) × (write_answer n fuel k v a true false h ≡ some w)
            × Written S fuel k outgoing v h.m true w.1
      go false u run w l = (
        (false, u),
        rw (write_answer, emi_msg_write_ret, emi_msg_write_payload, run) refl,
        record { silent = λ q. cc; answered = λ q. (false, run, λ y. cc) },
      )
      go true u run w l = (
        (true, u),
        rw (write_answer, emi_msg_write_ret, emi_msg_write_payload, run, l) refl,
        record {
          silent = λ q. cc;
          answered = λ q. (true, run, λ y. append_all S outgoing v (payload h.m) u w);
        },
      )

  -- what follows the handling
  finish-Attended :
      (receivers : Receivers) (mem : ℕ → ℕ) (ord blk : ℕ) (t : Shm) (m : EmiMsg) (v : S)
      (o : Outcome) (e : Effect)
      → IsHeap t
      → Owned t a ord blk
      → IsTame t (touched receivers a e.signals (record m { flag = e.flag }) t mem)
      → Refines o e
      → let g : MsgRead S = record { ok = true; m = m; shm = t; mem = mem; sd = v } in
        (r : Served S) × (finish n fuel k receivers a g o ≡ some r)
        × Attended S fuel k outgoing receivers mem a ord blk t m e v r
  unfolding finish
  finish-Attended receivers mem ord blk t m v o e heap owned tame ref =
      let h = touched receivers a e.signals (record m { flag = e.flag }) t mem in
      let (w, run, written) =
        write_answer-Written v e.reply (has_flag m.flag cmd_register) h tame.no_retdata in
      let (u, freed, gone) =
        free_shared_msg-Freed t a ord blk h.m heap owned tame.no_data tame.no_retdata in
      let r : Served S = record {
        broker = record { shm = u; mem = h.mem; table = o.table };
        signals = o.signals;
        sd = w.1;
      } in
      (
        r,
        rw (ref.signals, ref.flag, ref.reply, run, tame.same, freed) refl,
        record {
          entries = ref.entries;
          table = ref.table;
          signals = ref.signals;
          freed = gone;
          silent = written.silent;
          answered = written.answered;
        },
      )

-- a message that comes without data and without return data
pub record IsPlain (m : EmiMsg) : Type 0 where
  pub members : IsEmiMsg m
  pub no_data : has_flag m.flag flag_allocdata ≡ false
  pub no_size : m.size ≡ 0
  pub no_retdata : m.retsize ≡ 0

-- what a message is to the handling
abbrev pub request : EmiMsg → Message
request m = record { flag = m.flag; msg = m.msg; cmd = m.cmd }

-- the table holds the registrations `g`, the new entry `p` is not in it, and there is fuel for it
pub record IsStanding (table : MsgTable) (f : Entries) (g : Registry) (p fuel : ℕ) (m : EmiMsg)
    : Type 0 where
  pub registered : Represents table f g
  pub fresh : Fresh f p
  pub fits : length (f (hash32 m.msg)) < fuel
  pub few : length (addressed m.msg (g (hash32 m.msg))) < 2 ^ 32

touched-IsTame :
    (receivers : Receivers) (a : ℕ) (signals : List ℕ) (m : EmiMsg) (t : Shm) (mem : ℕ → ℕ)
    → has_flag m.flag flag_allocdata ≡ false
    → m.retsize ≡ 0
    → IsTame t (receivers m t mem)
    → IsTame t (touched receivers a signals m t mem)
touched-IsTame receivers a [] m t mem f r tame = record { same = refl; no_data = f; no_retdata = r }
touched-IsTame receivers a (pid ∷ pids) m t mem f r tame = tame

module _ (S : Type 0) (k : Socket S) (incoming outgoing : S → List ℕ)
    (is : IsStream S k incoming outgoing) (sizeof n fuel : ℕ) (long : 20 < fuel)
    (receivers : Receivers) where
  -- the message was read
  plain_read :
      (mem : ℕ → ℕ) (a : ℕ) (t : Shm) (m old : EmiMsg) (sd v : S) (m₁ : EmiMsg) (rest : List ℕ)
      → IsPlain m
      → incoming sd ≡ payload m ++ rest
      → emi_msg_read_payload fuel k sd old ≡ some (true, m₁, v)
      → emi_msg_read sizeof fuel k sd t mem a old
        ≡ some (record { ok = true; m = received m old; shm = t; mem = mem; sd = v })
  unfolding emi_msg_read
  plain_read mem a t m old sd v m₁ rest plain e run =
      let (q, run', reads) =
        emi_msg_read_payload-PayloadRead S k incoming outgoing is fuel sd m old rest long
          plain.members e in
      let same : m₁ ≡ received m old =
        same_run (λ z. z.0 ≡ true → z.1 ≡ received m old) (emi_msg_read_payload fuel k sd old) q
          (true, m₁, v) run' run reads.message refl in
      let none_left : ltb 0 m.size ≡ false = ground (arith, plain.no_size) in
      rw (emi_msg_read, run, same, none_left) refl

  -- a connection that alloc_shared_msg gives a block in a heap, whose message has no data and no
  -- return data and is read in full, with a table that holds the registrations and fuel for it,
  -- where the specification serves the message, and with receivers that leave it without data and
  -- the heap alone: serve_connection ends. The table holds what is promised, the signals are the
  -- promised ones, and the block is given back. A promised answer is the payload of the message as
  -- the receivers leave it; without one the connection is as it was after the reading
  pub serve_connection-Attended :
      (b : Broker) (p : ℕ) (rounds : List Round) (f : Entries) (g : Registry) (e : Effect)
      (m old m₁ : EmiMsg) (t : Shm) (a ord blk : ℕ) (sd v : S) (rest : List ℕ)
      → alloc_shared_msg sizeof b.shm 0 ≡ some (some (a, old), t)
      → IsHeap t
      → Owned t a ord blk
      → IsPlain m
      → incoming sd ≡ payload m ++ rest
      → emi_msg_read_payload fuel k sd old ≡ some (true, m₁, v)
      → IsStanding b.table f g p fuel m
      → serve g (request m) rounds ≡ some e
      → IsTame t (receivers (record (received m old) { flag = e.flag }) t b.mem)
      → (r : Served S) × (serve_connection sizeof n fuel k sd receivers b (some p) rounds ≡ some r)
        × Attended S fuel k outgoing receivers b.mem a ord blk t (received m old) e v r
  unfolding serve_connection allocated was_read
  serve_connection-Attended b p rounds f g e m old m₁ t a ord blk sd v rest made heap owned plain
        arrives read standing promised tame =
      let (o, handled, ref) =
        emi_receive_operation-Refines fuel b.table f g (request m) p rounds e standing.registered
          standing.fresh standing.fits standing.few promised in
      let flags = serve-flag g (request m) rounds e promised ∙ plain.no_data in
      let (r, done, attended) =
        finish-Attended S k incoming outgoing is n fuel a long receivers b.mem ord blk t
          (received m old) v o e heap owned
          (touched-IsTame receivers a e.signals (record (received m old) { flag = e.flag }) t b.mem
            flags plain.no_retdata tame)
          ref in
      (
        r,
        rw (made, plain_read b.mem a t m old sd v m₁ rest plain arrives read, handled) done,
        attended,
      )
