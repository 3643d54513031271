-- ===== src/Core/Receive.antt =====
-- `emi_receive_operation` of src/emi_core.c on its two kinds of messages.
use emilib.Prelude.{
  inl, inr, Bool-cases, ℕ, ◌+◌, ◌<◌, ◌^◌, ◌≡◌, true, false, Option, some, List, ◌∷◌, length,
}
use emilib.Hash.{hash32, MsgTable}
use emilib.Hash.Table.{Entries, IsTable}
use emilib.Hash.Insert.{taken, HasUniquePids}
use emilib.Message.{has_flag, cmd_register}
use emilib.Core.{Message, Outcome, Round, emi_receive_operation}
use emilib.Core.Deliver.{targets, Fresh}
use emilib.Core.Sweep.{is_gone, gone}
use emilib.Core.Register.{Registered, register-Registered}
use emilib.Core.Send.{Sent, send-Sent}
use mathlib.Core.Path.{subst}
use emilib.Core.Registry.{Registry, Effect, Represents, addressed, has_pid, admit, serve}
use emilib.Core.Refines.{Refines}
use emilib.Core.Refines.Register.{register-Refines}
use emilib.Core.Refines.Send.{send-Refines}

-- a message that registers, with a new entry and with fuel for its bucket: the broker ends and
-- answers; it refuses if the bucket has an entry of the process; if not, it sets SUCCEEDED, and the
-- next message of that number signals the process, before the ones that it signalled until then
pub emi_receive_operation-Registered :
    (fuel : ℕ) (t : MsgTable) (f : Entries) (m : Message) (p : ℕ) (rounds : List Round)
    → has_flag m.flag cmd_register ≡ true
    → IsTable t f
    → HasUniquePids t f
    → Fresh f p
    → length (f (hash32 m.msg)) < fuel
    → (o : Outcome) × (emi_receive_operation fuel t (some m) (some p) rounds ≡ some o)
      × Registered t f m p (taken t m.cmd (f (hash32 m.msg))) o
unfolding emi_receive_operation
emi_receive_operation-Registered fuel t f m p rounds k is un new h =
    let (o, run, rest) = register-Registered fuel t f m p is un new h in
    (o, rw (emi_receive_operation, k) run, rest)

-- a message to at least one and fewer than 2 ^ 32 receivers, with fuel for its bucket: each of them
-- is signalled once. If in the first round of the wait as many have counted themselves off as are
-- not found gone, the broker ends with that round: those that are gone leave the table, which keeps
-- all others; SUCCEEDED is set, unless all were gone or one failed to handle a message that blocks;
-- the sender is answered if it waits
emi_receive_operation-Sent :
    (fuel : ℕ) (t : MsgTable) (f : Entries) (m : Message) (p : Option ℕ) (r : Round)
    (rs : List Round)
    → let zs = f (hash32 m.msg) in
      let pids = targets t m.msg zs in
      let out = is_gone r.alive t m.msg in
      has_flag m.flag cmd_register ≡ false
      → IsTable t f
      → 0 < length pids
      → length pids < 2 ^ 32
      → r.handled + gone out zs ≡ length pids
      → length zs < fuel
      → (o : Outcome) × (emi_receive_operation fuel t (some m) p (r ∷ rs) ≡ some o)
        × Sent f m out r.failed r.handled pids o
unfolding emi_receive_operation
emi_receive_operation-Sent fuel t f m p r rs k is pos small all h =
    let (o, run, rest) = send-Sent fuel t f m r rs is pos small all h in
    (o, rw (emi_receive_operation, k) run, rest)

-- for registrations that the table holds, with a new entry, with fuel for the bucket and for fewer
-- than 2 ^ 32 receivers: if the receivers that are waited for are counted off or found gone, each
-- once, the broker ends, with the registrations, the signals, the flags, the slot of which the lock
-- is made, and the answer that `serve` promises; SUCCEEDED is cleared if all were gone, or if one
-- failed to handle a message that blocks
pub emi_receive_operation-Refines :
    (fuel : ℕ) (t : MsgTable) (f : Entries) (g : Registry) (m : Message) (p : ℕ)
    (rounds : List Round) (e : Effect)
    → Represents t f g
    → Fresh f p
    → length (f (hash32 m.msg)) < fuel
    → length (addressed m.msg (g (hash32 m.msg))) < 2 ^ 32
    → serve g m rounds ≡ some e
    → (o : Outcome) × (emi_receive_operation fuel t (some m) (some p) rounds ≡ some o) × Refines o e
unfolding emi_receive_operation
emi_receive_operation-Refines fuel t f g m p rounds e rep new h small promised =
    elim (Bool-cases (has_flag m.flag cmd_register)) [
      | inl k ↦
          let (o, run, r) = register-Refines fuel t f g m p rep new h in
          let q : some (admit g m (has_pid m.cmd (g (hash32 m.msg)))) ≡ some e = rw k at promised in
          let same : admit g m (has_pid m.cmd (g (hash32 m.msg))) ≡ e = cc in
          (o, rw (emi_receive_operation, k) run, subst (Refines o) same r)
      | inr k ↦
          let (o, run, r) = send-Refines fuel t f g m rounds rep h e small (rw k at promised) in
          (o, rw (emi_receive_operation, k) run, r)
    ]
