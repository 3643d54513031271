-- ===== src/Core/Send.antt =====
-- What the broker does with a message to receivers, src/emi_core.c.
use emilib.Prelude.{
  ℕ, suc, ◌+◌, ◌-◌, ◌<◌, ◌^◌, ◌≡◌, refl, ap, ◌∙◌, Bool, true, false, none, some, List, [], ◌∷◌,
  arith, ◌==◌, length,
}
use emilib.Hlist.{first, load}
use emilib.Hash.{hash32, MsgTable, count_receivers}
use emilib.Hash.Table.{Entries, IsTable, hash32-lt}
use emilib.Hash.Search.{count_receivers-walk}
use emilib.Message.{clear_flag, has_flag, ret_succeeded, mode_block}
use emilib.Core.{
  Message, Outcome, Wait, Round, count_off, wait_for, sweep, wait, deliver, send, sent,
}
use emilib.Core.Deliver.{targets, length-targets, deliver-targets}
use emilib.Core.Verdict.{verdict, judged-verdict}
use emilib.Core.Sweep.{is_gone, staying, gone, sweep-Swept}

pub count_targets :
    (fuel : ℕ) (t : MsgTable) (f : Entries) (msg : ℕ)
    → IsTable t f
    → length (f (hash32 msg)) < fuel
    → count_receivers fuel t (load t.lists (first (hash32 msg))) msg 0
      ≡ some (length (targets t msg (f (hash32 msg))))
count_targets fuel t f msg is h =
    let b = hash32 msg in
    count_receivers-walk fuel t (first b) (f b) msg 0 (is.chains b (hash32-lt msg)) h
    ∙ ap some (omega (arith, length-targets t msg (f b)))

pub wait_over :
    (fuel : ℕ) (rs : List Round) (w : Wait) (msg : ℕ) → w.count ≡ 0 → wait fuel rs w msg ≡ some w
unfolding wait
wait_over fuel [] w msg e =
    let zero_left : (w.count == 0) ≡ true = ap (λ z. z == 0) e in rw (wait, zero_left) refl
wait_over fuel (r ∷ rs) w msg e =
    let zero_left : (w.count == 0) ≡ true = ap (λ z. z == 0) e in rw (wait, zero_left) refl

-- a round of the wait in which no receiver is missing is the last one
wait_round :
    (fuel : ℕ) (r : Round) (rs : List Round) (w v : Wait) (msg : ℕ)
    → let u = count_off r w in
      (w.count == 0) ≡ false
      → sweep fuel r.alive u (load u.table.lists (first (hash32 msg))) msg ≡ some v
      → v.count ≡ 0
      → wait fuel (r ∷ rs) w msg ≡ some v
unfolding wait
wait_round fuel r rs w v msg p run e = rw (wait, p, run) (wait_over fuel rs v msg e)

-- what a message to `pids` leaves behind, of which those for whose entries `out` holds were gone
pub record Sent (f : Entries) (m : Message) (out : ℕ → Bool) (failed : Bool) (handled : ℕ)
    (pids : List ℕ) (o : Outcome) : Type 0 where
  pub signals : o.signals ≡ pids
  pub entries : Entries
  pub is : IsTable o.table entries
  pub bucket : entries (hash32 m.msg) ≡ staying out (f (hash32 m.msg))
  pub others : (c : ℕ) → ¬ (hash32 m.msg ≡ c) → entries c ≡ f c
  pub flag : o.flag ≡ verdict handled failed m.flag
  pub reply : o.reply ≡ has_flag m.flag mode_block
  pub slot_lock : o.slot_lock ≡ none

pub send_run :
    (fuel : ℕ) (t : MsgTable) (m : Message) (rounds : List Round) (n : ℕ) (pids : List ℕ) (w : Wait)
    → count_receivers fuel t (load t.lists (first (hash32 m.msg))) m.msg 0 ≡ some (suc n)
    → deliver fuel t (load t.lists (first (hash32 m.msg))) m.msg ≡ some pids
    → wait fuel rounds (wait_for t m (suc n)) m.msg ≡ some w
    → send fuel t m rounds ≡ some (sent m pids w)
unfolding send
send_run fuel t m rounds n pids w c d e = rw (send, c, d, e) refl

-- a message with receivers, fewer than 2 ^ 32, and with fuel for its bucket: each of them is
-- signalled once. If in the first round of the wait as many have counted themselves off as are not
-- found gone, the broker ends with that round: those that are gone leave the table, which keeps all
-- others; SUCCEEDED is set, unless all were gone or one failed to handle a message that blocks; the
-- sender is answered if it waits
pub send-Sent :
    (fuel : ℕ) (t : MsgTable) (f : Entries) (m : Message) (r : Round) (rs : List Round)
    → let zs = f (hash32 m.msg) in
      let pids = targets t m.msg zs in
      let out = is_gone r.alive t m.msg in
      IsTable t f
      → 0 < length pids
      → length pids < 2 ^ 32
      → r.handled + gone out zs ≡ length pids
      → length zs < fuel
      → (o : Outcome) × (send fuel t m (r ∷ rs) ≡ some o) × Sent f m out r.failed r.handled pids o
send-Sent fuel t f m r rs is pos small all h =
    let b = hash32 m.msg in
    let pids = targets t m.msg (f b) in
    let out = is_gone r.alive t m.msg in
    let n = length pids - 1 in
    let len : length pids ≡ suc n = omega arith in
    let w : Wait = wait_for t m (suc n) in
    let u : Wait = count_off r w in
    let (v, run, s) =
      sweep-Swept fuel r.alive u m.msg f is (omega arith) (omega arith) (omega arith) (omega arith)
        h in
    let done : v.count ≡ 0 = omega (arith, s.counted) in
    let left : v.receivers ≡ r.handled = omega (arith, s.left) in
    (
      sent m pids v,
      send_run fuel t m (r ∷ rs) n pids v (count_targets fuel t f m.msg is h ∙ ap some len)
          (deliver-targets fuel t f m.msg is h)
          (wait_round fuel r rs w v m.msg (ground arith) run done),
      record {
        signals = refl;
        entries = s.entries;
        is = s.is;
        bucket = s.bucket;
        others = s.others;
        flag = rw (left, s.flag) (judged-verdict r.handled r.failed m.flag);
        reply = refl;
        slot_lock = refl;
      },
    )

-- a message without receivers, and with fuel for its bucket, is not waited for: nobody is signalled,
-- the table stays, and SUCCEEDED is cleared
pub send-none :
    (fuel : ℕ) (t : MsgTable) (f : Entries) (m : Message) (rounds : List Round)
    → IsTable t f
    → length (targets t m.msg (f (hash32 m.msg))) ≡ 0
    → length (f (hash32 m.msg)) < fuel
    → send fuel t m rounds
      ≡ some (record {
        table = t;
        flag = clear_flag m.flag ret_succeeded;
        slot_lock = none;
        signals = [];
        reply = has_flag m.flag mode_block;
      })
unfolding send
send-none fuel t f m rounds is e h = rw (send, count_targets fuel t f m.msg is h, e) refl
