-- ===== src/Core/Tests.antt =====
-- The broker of src/emi_core.c at small tables.
use emilib.Prelude.{
  ℕ, ◌≡◌, refl, Bool, true, false, Option, none, some, List, [], ◌∷◌, arith, ◌==◌, if◌then◌else◌,
}
use emilib.Hlist.{
  update, init_hlist_head, init_hlist_node, hlist_add_head, hlist_unlink, hlist_del_init,
}
use emilib.Hash.{
  hash32, MsgTable, msg_map_init, emi_hinsert, emi_hdelete, free_msg_map, init_heads,
  init_msg_table, find_pid, emi_hinsert_unique_lock, count_receivers,
}
use emilib.Hash.Table.{Entries, IsTable, init_msg_table-IsTable, emi_hinsert-IsTable}
use emilib.Hash.Insert.{HasUniquePids}
use emilib.Core.{
  Message, Outcome, Round, sweep_entry, sweep, wait, deliver, register, send, emi_receive_operation,
}
use emilib.Core.Registry.{Registry, Effect, Represents, reads, serve}
use emilib.Core.Refines.{Refines}
use emilib.Core.Receive.{emi_receive_operation-Refines}

program : Unit {0}
unfolding hash32 msg_map_init emi_hinsert emi_hdelete free_msg_map init_heads init_msg_table
    find_pid emi_hinsert_unique_lock count_receivers init_hlist_head init_hlist_node hlist_add_head
    hlist_unlink hlist_del_init sweep_entry sweep wait deliver register send emi_receive_operation
program = tt

-- entries 5 and 7 are for message 1, of the processes 70 and 80
abbrev raw : MsgTable
raw = record {
  lists = record { firsts = λ b. some 9; nexts = λ n. some 9; pprevs = λ n. none };
  msg = λ a. 1;
  pid = λ a. if a == 7 then 80 else 70;
}

abbrev empty : MsgTable
empty = init_msg_table raw

abbrev no_entries : Entries
no_entries b = []

empty-IsTable : IsTable empty no_entries
empty-IsTable = init_msg_table-IsTable raw

no_entries-HasUniquePids : HasUniquePids empty no_entries
no_entries-HasUniquePids = record { unique = λ b a c h m k q. cc }

abbrev one : MsgTable
one = emi_hinsert empty 5

abbrev one_entry : Entries
one_entry = update no_entries (hash32 (empty.msg 5)) (5 ∷ [])

one-IsTable : IsTable one one_entry
one-IsTable = emi_hinsert-IsTable empty no_entries 5 empty-IsTable (λ b h. refl)

abbrev two : MsgTable
two = emi_hinsert one 7

abbrev two_entries : Entries
two_entries = update one_entry (hash32 (one.msg 7)) (7 ∷ one_entry (hash32 (one.msg 7)))

two-IsTable : IsTable two two_entries
unfolding program
two-IsTable = emi_hinsert-IsTable one one_entry 7 one-IsTable (λ b h. ground arith)

-- a blocking message 1, and a registration of process 90 for it
abbrev plain : Message
plain = record { flag = 256; msg = 1; cmd = 0 }

abbrev register_90 : Message
register_90 = record { flag = 16384; msg = 1; cmd = 90 }

-- process 80 has handled the message, process 70 is gone
abbrev half : Round
half = record { handled = 1; failed = false; alive = λ pid. pid == 80 }

abbrev summary : Option Outcome → Option (ℕ × List ℕ × Bool)
summary none = none
summary (some o) = some (o.flag, o.signals, o.reply)

-- the function of process 80 fails: SUCCEEDED is cleared
half_failed :
    summary (emi_receive_operation 9 two (some plain) none (record half { failed = true } ∷ []))
    ≡ some (256, 80 ∷ 70 ∷ [], true)
unfolding program
half_failed = refl

half_run :
    summary (emi_receive_operation 9 two (some plain) none (half ∷ []))
    ≡ some (65792, 80 ∷ 70 ∷ [], true)
unfolding program
half_run = refl

-- process 70 is the only receiver, handles the message and is gone before the pass: it is counted
-- off twice, and the wait goes on
counted_twice :
    wait 9
      (record { handled = 1; failed = false; alive = λ pid. false } ∷ [])
      (record { table = one; flag = 65792; count = 1; receivers = 1 })
      1
    ≡ none
unfolding program
counted_twice = refl

one-HasUniquePids : HasUniquePids one one_entry
unfolding program
one-HasUniquePids = record { unique = λ b a c h m k q. ground arith }

two-HasUniquePids : HasUniquePids two two_entries
unfolding program
two-HasUniquePids = record { unique = λ b a c h m k q. ground arith }

-- processes 80 and 70 for message 1
abbrev two_registered : Registry
two_registered b = reads two (two_entries b)

two-Represents : Represents two two_entries two_registered
two-Represents = record { is = two-IsTable; unique = two-HasUniquePids; registered = λ b h. refl }

-- process 70 is gone in the first round, process 80 fails to handle the message in the second one
abbrev two_rounds : List Round
two_rounds =
    record { handled = 0; failed = false; alive = λ pid. pid == 80 }
    ∷ record { handled = 1; failed = true; alive = λ pid. pid == 80 }
    ∷ []

abbrev settled : Effect
settled = record {
  registry = update two_registered (hash32 1) ((1, 80) ∷ []);
  flag = 256;
  slot_lock = none;
  signals = 80 ∷ 70 ∷ [];
  reply = true;
}

served : serve two_registered plain two_rounds ≡ some settled
unfolding program
served = refl

emi_receive_operation-Refines_example :
    (o : Outcome) × (emi_receive_operation 9 two (some plain) (some 3) two_rounds ≡ some o)
    × Refines o settled
unfolding program
emi_receive_operation-Refines_example =
    emi_receive_operation-Refines 9 two two_entries two_registered plain 3 two_rounds settled
      two-Represents (λ b h. ground arith) (omega arith) (omega arith) served
