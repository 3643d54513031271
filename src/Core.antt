-- ===== src/Core.antt =====
-- What the broker does with one message, `emi_receive_operation` of src/emi_core.c. The message is
-- an argument, `none` if it could not be read; so are the address that `malloc` gives for a new
-- entry, and what the receivers do while the broker waits for them. Each pass over a bucket is one
-- step under the table's lock. The handing over of the message's index through a receiver's slot of
-- the shared memory, which ends with an empty slot, is reduced to the signal, and the making of a
-- slot's lock to the number of the process, which the code does not check.
pub mod Sweep
pub mod Deliver
pub mod Register
pub mod Send
pub mod Receive
pub mod Registry
pub mod Settle
pub mod Verdict
pub mod Refines
mod Tests
use emilib.Prelude.{
  ℕ, zero, suc, ◌+◌, ◌-◌, ◌*◌, ◌/◌, ◌%◌, ◌^◌, ◌≡◌, Bool, true, false, ◌&&◌, not, Option, none, some,
  List, [], ◌∷◌, ltb, ◌==◌, if◌then◌else◌,
}
use emilib.Message.{mode_block, cmd_register, ret_succeeded, has_flag, set_flag, clear_flag}
use emilib.Hlist.{first, load}
use emilib.Hash.{
  hash32, MsgTable, msg_map_init, free_msg_map, emi_hinsert_unique_lock, count_receivers,
}

-- the fields of `struct emi_msg` that the broker reads; its `count` starts as 0
pub record Message : Type 0 where
  pub flag : ℕ
  pub msg : ℕ
  pub cmd : ℕ

-- the decrement of a 32-bit number
abbrev pub dec : ℕ → ℕ
dec n = (n + (2 ^ 32 - 1)) % 2 ^ 32

-- what the wait for the receivers changes; `receivers` is `max_exit_receiver`
pub record Wait : Type 0 where
  pub table : MsgTable
  pub flag : ℕ
  pub count : ℕ
  pub receivers : ℕ

-- one entry of the pass that looks for receivers that are gone; `alive` is `kill(pid, 0) >= 0`
unfoldable pub sweep_entry : (ℕ → Bool) → Wait → ℕ → ℕ → Wait
sweep_entry alive w msg map =
    if (w.table.msg map == msg) && not (alive (w.table.pid map))
    then record w {
      table = free_msg_map w.table (some map);
      count = dec w.count;
      receivers = dec w.receivers;
    }
    else w

-- the pass, from `map` on
unfoldable pub sweep : ℕ → (ℕ → Bool) → Wait → Option ℕ → ℕ → Option Wait
sweep zero alive w map msg = none
sweep (suc n) alive w none msg = some w
sweep (suc n) alive w (some map) msg =
    sweep n alive (sweep_entry alive w msg map) (w.table.lists.nexts map) msg

-- what happens before a pass: `handled` receivers have counted themselves off, `failed` if a function
-- of theirs did not return 0, and at the pass the processes of `alive` run
pub record Round : Type 0 where
  pub handled : ℕ
  pub failed : Bool
  pub alive : ℕ → Bool

-- what `func_sterotype_thread` of src/emi_ifr.c does to the flags before it counts itself off, in the
-- message that it shares with the broker
abbrev pub judged : Bool → ℕ → ℕ
judged failed flag =
    if failed && has_flag flag mode_block then clear_flag flag ret_succeeded else flag

-- the receivers of a round count themselves off
abbrev pub count_off : Round → Wait → Wait
count_off r w = record w {
  flag = judged r.failed w.flag;
  count = (w.count + (2 ^ 32 - r.handled)) % 2 ^ 32;
}

-- `while(msg_pos->count)`; `none` also means that the wait goes on after the rounds
unfoldable pub wait : ℕ → List Round → Wait → ℕ → Option Wait
wait fuel [] w msg = if w.count == 0 then some w else none
wait fuel (r ∷ rs) w msg =
    let u = count_off r w in
    elim (w.count == 0) [
      | true ↦ some w
      | false ↦ elim (sweep fuel r.alive u (load u.table.lists (first (hash32 msg))) msg) [
        | none ↦ none
        | some v ↦ wait fuel rs v msg
      ]
    ]

abbrev pub signalled : Bool → ℕ → Option (List ℕ) → Option (List ℕ)
signalled b pid none = none
signalled true pid (some pids) = some (pid ∷ pids)
signalled false pid (some pids) = some pids

-- the pass that signals the receivers, from `map` on: their pids in order
unfoldable pub deliver : ℕ → MsgTable → Option ℕ → ℕ → Option (List ℕ)
deliver zero t map msg = none
deliver (suc n) t none msg = some []
deliver (suc n) t (some map) msg =
    signalled (t.msg map == msg) (t.pid map) (deliver n t (t.lists.nexts map) msg)

-- the table and the flags at the end, of which slot the lock was made, by the number of its process,
-- which processes were signalled, and whether the sender is answered
pub record Outcome : Type 0 where
  pub table : MsgTable
  pub flag : ℕ
  pub slot_lock : Option ℕ
  pub signals : List ℕ
  pub reply : Bool

unfoldable pub register : ℕ → MsgTable → Message → Option ℕ → Option Outcome
register fuel t m none =
    some (record { table = t; flag = m.flag; slot_lock = none; signals = []; reply = false })
register fuel t m (some p) =
    let (ok, u) = msg_map_init t (some p) m.msg m.cmd in
    elim (emi_hinsert_unique_lock fuel u p) [
      | none ↦ none
      | some r ↦
          let (ok, v) = r in
          some (record {
            table = v;
            flag = if ok then set_flag m.flag ret_succeeded else clear_flag m.flag ret_succeeded;
            slot_lock = if ok then some (v.pid p) else none;
            signals = [];
            reply = true;
          })
    ]

-- the wait for `n` receivers starts
abbrev pub wait_for : MsgTable → Message → ℕ → Wait
wait_for t m n = record {
  table = t;
  flag = set_flag m.flag ret_succeeded;
  count = n;
  receivers = n;
}

-- the end of a wait
abbrev pub sent : Message → List ℕ → Wait → Outcome
sent m signals w = record {
  table = w.table;
  flag = if w.receivers == 0 then clear_flag w.flag ret_succeeded else w.flag;
  slot_lock = none;
  signals = signals;
  reply = has_flag m.flag mode_block;
}

unfoldable pub send : ℕ → MsgTable → Message → List Round → Option Outcome
send fuel t m rounds =
    let map = load t.lists (first (hash32 m.msg)) in
    elim (count_receivers fuel t map m.msg 0) [
      | none ↦ none
      | some zero ↦ some (record {
        table = t;
        flag = clear_flag m.flag ret_succeeded;
        slot_lock = none;
        signals = [];
        reply = has_flag m.flag mode_block;
      })
      | some (suc n) ↦ elim (deliver fuel t map m.msg) [
        | none ↦ none
        | some signals ↦ elim (wait fuel rounds (wait_for t m (suc n)) m.msg) [
          | none ↦ none
          | some w ↦ some (sent m signals w)
        ]
      ]
    ]

unfoldable pub emi_receive_operation :
    ℕ → MsgTable → Option Message → Option ℕ → List Round → Option Outcome
emi_receive_operation fuel t none p rounds =
    some (record { table = t; flag = 0; slot_lock = none; signals = []; reply = false })
emi_receive_operation fuel t (some m) p rounds =
    if has_flag m.flag cmd_register then register fuel t m p else send fuel t m rounds
