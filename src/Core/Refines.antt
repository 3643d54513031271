-- ===== src/Core/Refines.antt =====
-- What it means that the broker of src/emi_core.c does with its table what it promises for the
-- registrations.
pub mod Register
pub mod Send
use emilib.Prelude.{
  ℕ, suc, ◌<◌, ◌^◌, ◌≡◌, refl, sym, ap, ◌∙◌, inl, inr, Bool, true, false, Option, none, some, List,
  [], ◌∷◌, arith, ◌==◌, if◌then◌else◌, length, eq-cases,
}
use mathlib.Core.Path.{subst}
use emilib.Message.{mode_block, ret_succeeded, has_flag, set_flag, clear_flag}
use emilib.Hlist.{update, update_self, update_other}
use emilib.Hlist.Chain.{has}
use emilib.Hash.{hash32, MsgTable, emi_msg_table_size}
use emilib.Hash.Table.{Entries, hash32-lt}
use emilib.Hash.Insert.{taken}
use emilib.Core.{Message, Outcome, Round, Wait, register, send, sent}
use emilib.Core.Deliver.{targets, deliver-targets, Fresh}
use emilib.Core.Register.{Registered, register-Registered}
use emilib.Core.Send.{count_targets, send_run, send-none}
use emilib.Core.Settle.{Settled, wait-Settled, reads-same}
use emilib.Core.Registry.{
  Registration, Registry, Effect, Represents, reads, reads-targets, reads-taken, addressed, has_pid,
  settle, admit, spread,
}

-- the outcome is what was promised, in a table whose buckets have the entries `f`
pub record Refines (o : Outcome) (e : Effect) : Type 0 where
  pub entries : Entries
  pub table : Represents o.table entries e.registry
  pub flag : o.flag ≡ e.flag
  pub signals : o.signals ≡ e.signals
  pub reply : o.reply ≡ e.reply
  pub slot_lock : o.slot_lock ≡ e.slot_lock
