-- ===== src/Hash/Tests.antt =====
-- The table of src/emi_hash.c at small tables.
use emilib.Prelude.{◌≡◌, refl, true, false, not, none, some, [], ◌∷◌, arith, ◌==◌, if◌then◌else◌}
use emilib.Hlist.{
  first, update, init_hlist_head, init_hlist_node, hlist_add_head, hlist_unlink, hlist_del_init,
}
use emilib.Hlist.Chain.{Chain}
use emilib.Hlist.Del.{erase, hlist_del_init-Chain}
use emilib.Hash.{
  hash32, MsgTable, msg_map_init, emi_hinsert, emi_hdelete, free_msg_map, init_heads,
  init_msg_table, find_pid, emi_hinsert_unique_lock, count_receivers,
}
use emilib.Hash.Table.{
  Entries, IsTable, init_msg_table-IsTable, emi_hinsert-IsTable, emi_hdelete-IsTable,
}
use emilib.Hash.Insert.{
  taken, HasUniquePids, entries_after, table_after, emi_hinsert_unique_lock_lem,
}

program : Unit {0}
unfolding hash32 msg_map_init emi_hinsert emi_hdelete free_msg_map init_heads init_msg_table
    find_pid emi_hinsert_unique_lock count_receivers init_hlist_head init_hlist_node hlist_add_head
    hlist_unlink hlist_del_init
program = tt

-- entry 5 is for message 1 and process 70, entry 6 for message 234 and the same process, entry 7 for
-- message 1 and process 80
abbrev raw : MsgTable
raw = record {
  lists = record { firsts = λ b. some 9; nexts = λ n. some 9; pprevs = λ n. none };
  msg = λ a. if a == 6 then 234 else 1;
  pid = λ a. if a == 7 then 80 else 70;
}

abbrev empty : MsgTable
empty = init_msg_table raw

abbrev no_entries : Entries
no_entries b = []

empty-IsTable : IsTable empty no_entries
empty-IsTable = init_msg_table-IsTable raw

no_entries-HasUniquePids : HasUniquePids empty no_entries
no_entries-HasUniquePids = record { unique = λ b a c h m k q. cc }

hash_run : hash32 1 ≡ 158
unfolding program
hash_run = refl

-- message 234 is of the bucket of message 1, so entry 6 is refused for the process of entry 5
abbrev one : MsgTable
one = emi_hinsert empty 5

other_message_refused : emi_hinsert_unique_lock 9 one 6 ≡ some (false, one)
unfolding program
other_message_refused = refl

other_process_taken : emi_hinsert_unique_lock 9 one 7 ≡ some (true, emi_hinsert one 7)
unfolding program
other_process_taken = refl

abbrev one_entry : Entries
one_entry = update no_entries (hash32 (empty.msg 5)) (5 ∷ [])

one-IsTable : IsTable one one_entry
one-IsTable = emi_hinsert-IsTable empty no_entries 5 empty-IsTable (λ b h. refl)

hlist_del_init-Chain_example : Chain (hlist_del_init one.lists 5) (first 158) (erase 5 (5 ∷ []))
unfolding program
hlist_del_init-Chain_example =
    hlist_del_init-Chain one.lists (first 158) (5 ∷ []) 5 refl (refl, refl, refl, refl) refl

emi_hdelete-IsTable_example :
    IsTable (emi_hdelete one 5) (update one_entry 158 (erase 5 (one_entry 158)))
unfolding program
emi_hdelete-IsTable_example = emi_hdelete-IsTable one one_entry 158 5 one-IsTable (omega arith) refl

emi_hinsert_unique_lock_example :
    let refused = taken empty 70 [] in
    (emi_hinsert_unique_lock 1 empty 5 ≡ some (not refused, table_after refused empty 5))
    × IsTable (table_after refused empty 5) (entries_after refused empty no_entries 5)
    × HasUniquePids (table_after refused empty 5) (entries_after refused empty no_entries 5)
unfolding program
emi_hinsert_unique_lock_example =
    emi_hinsert_unique_lock_lem 1 empty no_entries 5 empty-IsTable no_entries-HasUniquePids
      (λ b h. refl) (omega arith)
