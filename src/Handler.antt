-- ===== src/Handler.antt =====
-- What a receiving process does, src/emi_ifr.c: the functions that it registered, the call of one of
-- them for a message in the shared memory, and the return data that it may allocate. What is done
-- under a lock is one step.
pub mod Retdata
pub mod Find
pub mod Init
mod Tests
use emilib.Prelude.{
  ℕ, zero, suc, ◌+◌, ◌-◌, ◌%◌, ◌^◌, Bool, true, false, ◌&&◌, not, Option, none, some, List, ◌==◌,
  if◌then◌else◌, length,
}
use emilib.Hlist.{update}
use emilib.Message.{
  EmiMsg, get_offset, get_addr, has_flag, clear_flag, mode_block, ret_succeeded, store_bytes,
}
use emilib.Shbuf.{Shm, emi_alloc}
use emilib.Retdata.{Blocks, sizeof_retdata}
use emilib.Ring.{Rings, list_add}
use emilib.Pool.{Submission, Pool, emi_thread_pool_submit}

-- a message that a process handles: the allocator's memory, the message, its blocks of return data
-- by their offsets from the message, and the bytes of data
pub record Reply : Type 0 where
  pub shm : Shm
  pub m : EmiMsg
  pub blocks : Blocks
  pub mem : ℕ → ℕ

-- `msg->flag &= ~EMI_MSG_RET_SUCCEEDED`
abbrev pub fail : Reply → Reply
fail r = record r { m = record (r.m) { flag = clear_flag r.m.flag ret_succeeded } }

-- the new block at `x` goes before the others; `old_retdata_offset` has 32 bits
abbrev pub add_block : Reply → Shm → ℕ → ℕ → ℕ → Reply
add_block r t a x size =
    let offset = get_offset a x in
    record {
      shm = t;
      m = record (r.m) {
        retsize = (r.m.retsize + (size + sizeof_retdata)) % 2 ^ 32;
        retdata_offset = offset;
      };
      blocks = record {
        next_offset = update r.blocks.next_offset offset (r.m.retdata_offset % 2 ^ 32);
        size = update r.blocks.size offset size;
      };
      mem = r.mem;
    }

-- the outer `none` is the allocator's fault, the inner one is NULL
unfoldable pub emi_retdata_alloc : Reply → ℕ → ℕ → Option (Option ℕ × Reply)
emi_retdata_alloc r a size =
    if size == 0
    then some (none, r)
    else if not (has_flag r.m.flag mode_block)
    then some (none, fail r)
    else (elim (emi_alloc r.shm (size + sizeof_retdata)) [
      | none ↦ none
      | some (none, t) ↦ some (none, fail (record r { shm = t }))
      | some (some x, t) ↦ some (some (x + sizeof_retdata), add_block r t a x size)
    ])

-- `true` is 0 and `false` is -1
unfoldable pub emi_load_retdata : Reply → ℕ → List ℕ → Option (Bool × Reply)
emi_load_retdata r a bs = elim (emi_retdata_alloc r a (length bs)) [
  | none ↦ none
  | some (none, u) ↦ some (false, u)
  | some (some d, u) ↦ some (true, record u { mem = store_bytes u.mem d bs })
]

-- the functions that the process registered, `__func_list`: `struct func_list` by fields
pub record Functions : Type 0 where
  pub rings : Rings
  pub msg : ℕ → ℕ
  pub func : ℕ → ℕ

-- the walk of `__func_sterotype`, from the node `lh` on: the function of the message
unfoldable pub find_func : ℕ → Functions → ℕ → ℕ → ℕ → Option (Option ℕ)
find_func zero fs head lh msg = none
find_func (suc n) fs head lh msg =
    let rest = find_func n fs head (fs.rings.nexts lh) msg in
    if lh == head then some none else if fs.msg lh == msg then some (some (fs.func lh)) else rest

-- the end of `__emi_msg_register`: the new node `fl` is filled in and put into the list
unfoldable pub add_func : Functions → ℕ → ℕ → ℕ → ℕ → Functions
add_func fs head fl msg func = record {
  rings = list_add fs.rings fl head;
  msg = update fs.msg fl msg;
  func = update fs.func fl func;
}

-- what `__func_sterotype` does to the message once the function gave `ret`
unfoldable pub handled : EmiMsg → ℕ → EmiMsg
handled m ret = record m {
  flag =
      if has_flag m.flag mode_block && not (ret == 0)
      then clear_flag m.flag ret_succeeded
      else m.flag;
  count = (m.count + (2 ^ 32 - 1)) % 2 ^ 32;
}

-- `__func_sterotype`: `call` runs a function on the message, and gives what it returns and the
-- message after it; a message without a function counts as failed
unfoldable pub func_sterotype_thread :
    ℕ → Functions → ℕ → (ℕ → EmiMsg → ℕ × EmiMsg) → EmiMsg → Option EmiMsg
func_sterotype_thread fuel fs head call m =
    elim (find_func fuel fs head (fs.rings.nexts head) m.msg) [
      | none ↦ none
      | some none ↦ some (handled m (2 ^ 32 - 1))
      | some (some f) ↦ let (ret, u) = call f m in some (handled u ret)
    ]

-- `func_sterotype`, the handler of the signal: it takes the message's offset out of the process's
-- slot, empties the slot, and submits the message's address to the pool
unfoldable pub func_sterotype : (ℕ → ℕ) → Pool → ℕ → Bool → ℕ → ℕ → (ℕ → ℕ) × (Submission × Pool)
func_sterotype pididx pool head spawns base pid =
    (update pididx pid 0, emi_thread_pool_submit pool head spawns (get_addr base (pididx pid)))
