-- ===== src/Core/Registry.antt =====
-- What the broker of src/emi_core.c promises, without the table's pointers: the processes that are
-- registered, and what a message does to them.
use emilib.Prelude.{
  ℕ, ◌+◌, ◌-◌, ◌<◌, ◌≡◌, refl, ap, Bool, true, false, ◌&&◌, ◌||◌, not, Option, none, some, List, [],
  ◌∷◌, arith, ltb, ◌==◌, if◌then◌else◌, length,
}
use emilib.Message.{mode_block, cmd_register, ret_succeeded, has_flag, set_flag, clear_flag}
use emilib.Hlist.{update}
use emilib.Hash.{hash32, MsgTable, emi_msg_table_size}
use emilib.Hash.Table.{Entries, IsTable}
use emilib.Hash.Insert.{taken, HasUniquePids}
use emilib.Core.{Message, Round}
use emilib.Core.Deliver.{targets}
use emilib.Core.Verdict.{verdict}
use emilib.Core.Sweep.{is_gone, staying, gone}

-- a message number and the process that receives it
abbrev pub Registration : Type 0
Registration = ℕ × ℕ

-- the registrations of each bucket, the newest first
abbrev pub Registry : Type 0
Registry = ℕ → List Registration

abbrev pub addressed : ℕ → List Registration → List ℕ
addressed msg [] = []
addressed msg ((k, pid) ∷ xs) = if k == msg then pid ∷ addressed msg xs else addressed msg xs

abbrev pub has_pid : ℕ → List Registration → Bool
has_pid pid [] = false
has_pid pid ((k, q) ∷ xs) = (q == pid) || has_pid pid xs

-- the registrations for the message whose processes are gone, and the others
abbrev pub losses : (ℕ → Bool) → ℕ → List Registration → ℕ
losses alive msg [] = 0
losses alive msg ((k, pid) ∷ xs) =
    (if (k == msg) && not (alive pid) then 1 else 0) + losses alive msg xs

abbrev pub remaining : (ℕ → Bool) → ℕ → List Registration → List Registration
remaining alive msg [] = []
remaining alive msg ((k, pid) ∷ xs) =
    if (k == msg) && not (alive pid)
    then remaining alive msg xs
    else (k, pid) ∷ remaining alive msg xs

-- how many of `k` receivers do not go before none of `n` is missing, and what stays registered;
-- and whether one that was waited for failed, if none failed until then unless `failed`;
-- `none` if after the rounds some are missing, or if more were counted off than were missing
abbrev pub settle :
    ℕ → List Round → Bool → ℕ → ℕ → List Registration → Option (ℕ × Bool × List Registration)
settle msg [] failed n k xs = if n == 0 then some (k, failed, xs) else none
settle msg (r ∷ rs) failed n k xs =
    let g = losses r.alive msg xs in
    elim (n == 0) [
      | true ↦ some (k, failed, xs)
      | false ↦ elim (ltb n (r.handled + g)) [
        | true ↦ none
        | false ↦
            settle msg rs (failed || r.failed) (n - (r.handled + g)) (k - g)
              (remaining r.alive msg xs)
      ]
    ]

-- what a message changes and makes known
pub record Effect : Type 0 where
  pub registry : Registry
  pub flag : ℕ
  pub slot_lock : Option ℕ
  pub signals : List ℕ
  pub reply : Bool

abbrev pub admit : Registry → Message → Bool → Effect
admit g m true = record {
  registry = g;
  flag = clear_flag m.flag ret_succeeded;
  slot_lock = none;
  signals = [];
  reply = true;
}
admit g m false = record {
  registry = update g (hash32 m.msg) ((m.msg, m.cmd) ∷ g (hash32 m.msg));
  flag = set_flag m.flag ret_succeeded;
  slot_lock = some m.cmd;
  signals = [];
  reply = true;
}

abbrev pub spread :
    Registry → Message → List ℕ → Option (ℕ × Bool × List Registration) → Option Effect
spread g m [] e = some (record {
  registry = g;
  flag = clear_flag m.flag ret_succeeded;
  slot_lock = none;
  signals = [];
  reply = has_flag m.flag mode_block;
})
spread g m (pid ∷ pids) none = none
spread g m (pid ∷ pids) (some (k, failed, xs)) = some (record {
  registry = update g (hash32 m.msg) xs;
  flag = verdict k failed m.flag;
  slot_lock = none;
  signals = pid ∷ pids;
  reply = has_flag m.flag mode_block;
})

-- a message: a process registers unless its bucket has it, or the processes that are registered are
-- signalled and waited for
abbrev pub serve : Registry → Message → List Round → Option Effect
serve g m rounds =
    let xs = g (hash32 m.msg) in
    let pids = addressed m.msg xs in
    if has_flag m.flag cmd_register
    then some (admit g m (has_pid m.cmd xs))
    else spread g m pids (settle m.msg rounds false (length pids) (length pids) xs)

-- the registrations that are in entries of the table
abbrev pub reads : MsgTable → List ℕ → List Registration
reads t [] = []
reads t (x ∷ xs) = (t.msg x, t.pid x) ∷ reads t xs

-- the table, whose buckets have the entries `f`, holds the registrations `g`
pub record Represents (t : MsgTable) (f : Entries) (g : Registry) : Type 0 where
  pub is : IsTable t f
  pub unique : HasUniquePids t f
  pub registered : (b : ℕ) → b < emi_msg_table_size → reads t (f b) ≡ g b

pub reads-targets :
    (t : MsgTable) (msg : ℕ) (xs : List ℕ) → targets t msg xs ≡ addressed msg (reads t xs)
reads-targets t msg [] = refl
reads-targets t msg (x ∷ xs) = ground (arith, reads-targets t msg xs)

pub reads-taken : (t : MsgTable) (pid : ℕ) (xs : List ℕ) → taken t pid xs ≡ has_pid pid (reads t xs)
reads-taken t pid [] = refl
reads-taken t pid (x ∷ xs) = ap (λ z. (t.pid x == pid) || z) (reads-taken t pid xs)

pub reads-gone :
    (alive : ℕ → Bool) (t : MsgTable) (msg : ℕ) (xs : List ℕ)
    → gone (is_gone alive t msg) xs ≡ losses alive msg (reads t xs)
reads-gone alive t msg [] = refl
reads-gone alive t msg (x ∷ xs) = ground (arith, reads-gone alive t msg xs)

pub reads-staying :
    (alive : ℕ → Bool) (t : MsgTable) (msg : ℕ) (xs : List ℕ)
    → reads t (staying (is_gone alive t msg) xs) ≡ remaining alive msg (reads t xs)
reads-staying alive t msg [] = refl
reads-staying alive t msg (x ∷ xs) = ground (arith, reads-staying alive t msg xs)
