-- ===== src/Hash.antt =====
-- The table of registered messages, include/emi_hash.h and src/emi_hash.c: an entry is known by its
-- address, and `malloc` gives a new entry's address. What the code does under the table's lock is
-- one step; initialising that lock is left out. A walk along a chain takes fuel, and `none` means
-- that the fuel ran out.
pub mod Table
pub mod Empty
pub mod Insert
pub mod Search
mod Tests
use emilib.Prelude.{
  ℕ, zero, suc, ◌+◌, ◌-◌, ◌*◌, ◌/◌, ◌%◌, ◌^◌, Bool, true, false, Option, none, some, ◌==◌,
  if◌then◌else◌,
}
use emilib.Hlist.{
  Hlists, first, load, update, init_hlist_head, init_hlist_node, hlist_add_head, hlist_del_init,
}

abbrev pub emi_hash_mask : ℕ
emi_hash_mask = 8

abbrev pub emi_msg_table_size : ℕ
emi_msg_table_size = 2 ^ emi_hash_mask

-- `__hash32`: the product is one of 64 bits, and is cut to 32 bits
unfoldable pub hash32 : ℕ → ℕ
hash32 k = k * 0x9e370001 % 2 ^ 64 % 2 ^ 32 / 2 ^ (32 - emi_hash_mask)

-- `struct msg_map` by fields, and the heads of the chains
pub record MsgTable : Type 0 where
  pub lists : Hlists
  pub msg : ℕ → ℕ
  pub pid : ℕ → ℕ

-- `null` is the null pointer
unfoldable pub msg_map_init : MsgTable → Option ℕ → ℕ → ℕ → Bool × MsgTable
msg_map_init t none msg pid = (false, t)
msg_map_init t (some map) msg pid = (
  true,
  record {
    lists = init_hlist_node t.lists map;
    msg = update t.msg map msg;
    pid = update t.pid map pid;
  },
)

unfoldable pub emi_hinsert : MsgTable → ℕ → MsgTable
emi_hinsert t map = record t { lists = hlist_add_head t.lists map (hash32 (t.msg map)) }

unfoldable pub emi_hdelete : MsgTable → ℕ → MsgTable
emi_hdelete t map = record t { lists = hlist_del_init t.lists map }

-- giving the entry back to `malloc` is left out
unfoldable pub free_msg_map : MsgTable → Option ℕ → MsgTable
unfolding emi_hdelete
free_msg_map t none = t
free_msg_map t (some map) = emi_hdelete t map

-- the loop of `init_msg_table_lock`, by the rounds that are left
unfoldable pub init_heads : ℕ → ℕ → Hlists → Hlists
init_heads zero i h = h
init_heads (suc n) i h = init_heads n (i + 1) (init_hlist_head h i)

unfoldable pub init_msg_table : MsgTable → MsgTable
unfolding init_heads
init_msg_table t = record t { lists = init_heads emi_msg_table_size 0 t.lists }

-- the loop of `emi_hinsert_unique_lock`: whether an entry from `map` on has the pid
unfoldable pub find_pid : ℕ → MsgTable → Option ℕ → ℕ → Option Bool
find_pid zero t map pid = none
find_pid (suc n) t none pid = some false
find_pid (suc n) t (some map) pid =
    let rest = find_pid n t (t.lists.nexts map) pid in if t.pid map == pid then some true else rest

-- `true` is 0 and `false` is -1
unfoldable pub emi_hinsert_unique_lock : ℕ → MsgTable → ℕ → Option (Bool × MsgTable)
emi_hinsert_unique_lock fuel t p =
    elim (find_pid fuel t (load t.lists (first (hash32 (t.msg p)))) (t.pid p)) [
      | none ↦ none
      | some true ↦ some (false, t)
      | some false ↦ some (true, emi_hinsert t p)
    ]

-- the loop of `emi_receive_operation` that counts the receivers of a message, from `map` on
unfoldable pub count_receivers : ℕ → MsgTable → Option ℕ → ℕ → ℕ → Option ℕ
count_receivers zero t map msg count = none
count_receivers (suc n) t none msg count = some count
count_receivers (suc n) t (some map) msg count =
    count_receivers n t (t.lists.nexts map) msg (if t.msg map == msg then count + 1 else count)
