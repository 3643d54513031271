-- ===== src/Shmem.antt =====
-- The layout of the shared memory, include/emi_shmem.h. The sizes of the types that the locks' library
-- declares are arguments. Addresses do not overflow.
pub mod Layout
use emilib.Prelude.{ℕ, ◌+◌, ◌*◌, ◌^◌}
use emilib.Shbuf.{emi_order_num, buddy_shift}

-- `sizeof(espinlock_t)` and `sizeof(emutex_t)`
pub record Sizes : Type 0 where
  pub spinlock : ℕ
  pub mutex : ℕ

-- `sizeof(struct emi_buf)` and `sizeof(eu32)`
abbrev pub sizeof_emi_buf : ℕ
sizeof_emi_buf = 8

abbrev pub sizeof_eu32 : ℕ
sizeof_eu32 = 4

abbrev pub msg_shm_size : ℕ
msg_shm_size = 2 ^ buddy_shift * 2 ^ emi_order_num

abbrev pub msgbuf_shm_size : ℕ
msgbuf_shm_size = 2 * (sizeof_emi_buf * 2 ^ emi_order_num)

unfoldable pub get_shm_size : Sizes → ℕ → ℕ
get_shm_size z pid_max =
    msg_shm_size + msgbuf_shm_size + z.spinlock + pid_max * sizeof_eu32 + pid_max * z.mutex

pub record ShmemMgr : Type 0 where
  pub base : ℕ
  pub msgbuf : ℕ
  pub msgbuf_lock : ℕ
  pub pididx : ℕ
  pub pididx_lock : ℕ

unfoldable pub emi_shmem_mgr_init : Sizes → ℕ → ℕ → ShmemMgr
emi_shmem_mgr_init z base pid_max = record {
  base = base;
  msgbuf = base + msg_shm_size;
  msgbuf_lock = base + msg_shm_size + msgbuf_shm_size;
  pididx = base + msg_shm_size + msgbuf_shm_size + z.spinlock;
  pididx_lock = base + msg_shm_size + msgbuf_shm_size + z.spinlock + pid_max * sizeof_eu32;
}
