-- ===== src/Broker.antt =====
-- What the broker does with one connection, `emi_receive_operation` of src/emi_core.c from the first
-- byte to the last: the message is made in the shared memory, read, handled as in Core, answered and
-- given back. `malloc` gives the new entry `p`; the receivers' part is an argument, as in Core the
-- rounds of the wait.
pub mod Flags
pub mod Serve
pub mod Start
pub mod Started
pub mod Main
mod Tests
use emilib.Prelude.{
  ℕ, ◌+◌, Bool, true, false, Option, none, some, List, [], ◌∷◌, ◌>>=◌, if◌then◌else◌,
}
use emilib.Message.{EmiMsg, get_addr, has_flag, cmd_register, decode, load_bytes}
use emilib.Hash.{MsgTable}
use emilib.Shbuf.{Shm}
use emilib.Shared.{alloc_shared_msg, free_shared_msg}
use emilib.Retdata.{Blocks}
use emilib.Core.{Message, Round, Outcome, emi_receive_operation}
use emilib.Sock.{Socket}
use emilib.Sock.Message.{emi_msg_write_payload}
use emilib.Sock.Ret.{blocks_in}
use emilib.Sockr.{MsgRead, emi_msg_read}
use emilib.Sockr.Ret.{Answered, emi_msg_write_ret}

-- the allocator's memory, the bytes of the data in it, and the table
pub record Broker : Type 0 where
  pub shm : Shm
  pub mem : ℕ → ℕ
  pub table : MsgTable

-- the end of a connection: the broker, the processes that were signalled, and the socket
pub record Served (S : Type 0) : Type 0 where
  pub broker : Broker
  pub signals : List ℕ
  pub sd : S

-- a message with its return data, as the receivers leave it
pub record Handled : Type 0 where
  pub m : EmiMsg
  pub blocks : Blocks
  pub pad : ℕ → ℕ
  pub mem : ℕ → ℕ
  pub shm : Shm

abbrev pub Receivers : Type 0
Receivers = EmiMsg → Shm → (ℕ → ℕ) → Handled

-- no receiver was signalled: what lies in memory
abbrev pub untouched : ℕ → EmiMsg → Shm → (ℕ → ℕ) → Handled
untouched a m shm mem = record {
  m = m;
  blocks = blocks_in a mem;
  pad = λ d. decode (load_bytes 4 (get_addr a d + 12) mem);
  mem = mem;
  shm = shm;
}

abbrev pub touched : Receivers → ℕ → List ℕ → EmiMsg → Shm → (ℕ → ℕ) → Handled
touched receivers a [] m shm mem = untouched a m shm mem
touched receivers a (pid ∷ pids) m shm mem = receivers m shm mem

-- the label `e0`
abbrev pub give_up :
    {S : Type 0} → MsgTable → List ℕ → ℕ → EmiMsg → Shm → (ℕ → ℕ) → S → Option (Served S)
give_up table signals a m shm mem sd = do
  t ← free_shared_msg shm a m
  some
      (record { broker = record { shm = t; mem = mem; table = table }; signals = signals; sd = sd })

-- the answer, whose failure changes nothing but the connection
unfoldable pub write_answer :
    {S : Type 0} → ℕ → ℕ → Socket S → S → ℕ → Bool → Bool → Handled → Option (Bool × S)
write_answer n fuel k sd a false registers h = some (true, sd)
write_answer n fuel k sd a true true h = emi_msg_write_payload fuel k sd h.m
write_answer n fuel k sd a true false h =
    emi_msg_write_ret n fuel k sd
      (record { a = a; m = h.m; blocks = h.blocks; pad = h.pad; mem = h.mem })

-- what follows the handling of the message
unfoldable pub finish :
    {S : Type 0} → ℕ → ℕ → Socket S → Receivers → ℕ → MsgRead S → Outcome → Option (Served S)
finish n fuel k receivers a g o =
    let h = touched receivers a o.signals (record (g.m) { flag = o.flag }) g.shm g.mem in
    write_answer n fuel k g.sd a o.reply (has_flag g.m.flag cmd_register) h
    >>= (λ w. give_up o.table o.signals a h.m h.shm h.mem w.1)

-- what follows the reading of the message
unfoldable pub was_read :
    {S : Type 0}
    → ℕ
    → ℕ
    → Socket S
    → Receivers
    → MsgTable
    → Option ℕ
    → List Round
    → ℕ
    → MsgRead S
    → Option (Served S)
was_read n fuel k receivers table p rounds a g =
    if g.ok
    then (emi_receive_operation fuel table
          (some (record { flag = g.m.flag; msg = g.m.msg; cmd = g.m.cmd })) p rounds
        >>= finish n fuel k receivers a g)
    else give_up table [] a g.m g.shm g.mem g.sd

-- what follows `alloc_shared_msg`
unfoldable pub allocated :
    {S : Type 0}
    → ℕ
    → ℕ
    → ℕ
    → Socket S
    → S
    → Receivers
    → (ℕ → ℕ)
    → MsgTable
    → Option ℕ
    → List Round
    → Option (ℕ × EmiMsg) × Shm
    → Option (Served S)
allocated sizeof n fuel k sd receivers mem table p rounds (none, t) =
    some (record { broker = record { shm = t; mem = mem; table = table }; signals = []; sd = sd })
allocated sizeof n fuel k sd receivers mem table p rounds (some (a, m), t) =
    emi_msg_read sizeof fuel k sd t mem a m >>= was_read n fuel k receivers table p rounds a

-- one connection; `n` is fuel for the blocks of an answer, `fuel` for bytes and chains
unfoldable pub serve_connection :
    {S : Type 0}
    → ℕ
    → ℕ
    → ℕ
    → Socket S
    → S
    → Receivers
    → Broker
    → Option ℕ
    → List Round
    → Option (Served S)
serve_connection sizeof n fuel k sd receivers b p rounds =
    alloc_shared_msg sizeof b.shm 0
    >>= allocated sizeof n fuel k sd receivers b.mem b.table p rounds
