-- ===== src/Shared.antt =====
-- The messages that the broker keeps in the shared memory, src/emi_shbuf.c: `alloc_shared_msg`,
-- `free_shared_msg` and `realloc_shared_msg` over the allocator. A message is known by its address
-- `a`; `sizeof` is `sizeof(struct emi_msg)`. `none` is the fault of the allocator, or a shift by a
-- negative number; the Boolean of a result is whether it is not NULL.
pub mod Owned
pub mod Realloc
pub mod Release
pub mod Sample
mod Tests
use emilib.Prelude.{
  ℕ, zero, suc, ◌+◌, ◌-◌, ◌*◌, ◌%◌, ◌^◌, Bool, true, false, not, Option, none, some, ltb,
  if◌then◌else◌, ◌>>=◌,
}
use emilib.Prelude.Int.{ℤ, pos, negsuc, ltb_ℤ}
use emilib.Buddy.{flip_order, order_at}
use emilib.Message.{
  EmiMsg, get_offset, get_addr, has_flag, set_flag, clear_flag, flag_allocdata, ret_succeeded,
}
use emilib.Shbuf.{Shm, buddy_shift, addr_buf_offset, to_int, get_buf_addr, emi_alloc, emi_free}

-- a message after `memset`
abbrev pub zeroed : EmiMsg
zeroed = record {
  flag = 0;
  msg = 0;
  cmd = 0;
  size = 0;
  retsize = 0;
  data_offset = 0;
  retdata_offset = 0;
  count = 0;
}

unfoldable pub alloc_shared_msg : ℕ → Shm → ℕ → Option (Option (ℕ × EmiMsg) × Shm)
alloc_shared_msg sizeof s size = elim (emi_alloc s (sizeof + size)) [
  | none ↦ none
  | some (none, t) ↦ some (none, t)
  | some (some a, t) ↦ some (some (a, record zeroed { data_offset = get_offset a (a + sizeof) }), t)
]

-- the first half of `free_shared_msg_data`
unfoldable pub free_alloc_data : Shm → ℕ → EmiMsg → Option (EmiMsg × Shm)
free_alloc_data s a m =
    if has_flag m.flag flag_allocdata
    then (do
      t ← emi_free s (get_addr a m.data_offset)
      some (record m { flag = clear_flag m.flag flag_allocdata }, t))
    else some (m, s)

-- the second half
unfoldable pub free_ret_data : Shm → ℕ → EmiMsg → Option (EmiMsg × Shm)
free_ret_data s a m =
    if ltb 0 m.retsize
    then (do t ← emi_free s (get_addr a m.retdata_offset); some (record m { retsize = 0 }, t))
    else some (m, s)

unfoldable pub free_shared_msg_data : Shm → ℕ → EmiMsg → Option (EmiMsg × Shm)
free_shared_msg_data s a m = do r ← free_alloc_data s a m; free_ret_data r.1 a r.0

unfoldable pub free_shared_msg : Shm → ℕ → EmiMsg → Option Shm
free_shared_msg s a m = do r ← free_shared_msg_data s a m; emi_free r.1 a

-- the part of `realloc_shared_msg` after `emi_alloc` gave `x`
unfoldable pub move_data : Shm → ℕ → EmiMsg → ℕ → Option (Bool × EmiMsg × Shm)
move_data t a m x = do
  w ← (if has_flag m.flag flag_allocdata then emi_free t (get_addr a m.data_offset) else some t)
  some (true, record m { data_offset = get_offset a x; flag = set_flag m.flag flag_allocdata }, w)

unfoldable pub grow : Shm → ℕ → EmiMsg → Option (Bool × EmiMsg × Shm)
grow s a m = elim (emi_alloc s m.size) [
  | none ↦ none
  | some (none, t) ↦ some (false, record m { flag = clear_flag m.flag ret_succeeded }, t)
  | some (some x, t) ↦ move_data t a m x
]

unfoldable pub realloc_shared_msg : ℕ → Shm → ℕ → EmiMsg → Option (Bool × EmiMsg × Shm)
realloc_shared_msg sizeof s a m =
    let newsize = to_int (m.size + sizeof) in
    elim (flip_order (order_at s.vector (get_buf_addr s a))) [
      | negsuc order ↦ none
      | pos order ↦
          if ltb_ℤ (pos (2 ^ order * 2 ^ buddy_shift - addr_buf_offset)) newsize
          then grow s a m
          else some (true, m, s)
    ]
