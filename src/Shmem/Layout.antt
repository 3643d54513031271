-- ===== src/Shmem/Layout.antt =====
-- The regions of the shared memory of include/emi_shmem.h do not overlap.
use emilib.Prelude.{ℕ, ◌+◌, ◌*◌, ◌^◌, ◌≤◌, ◌<◌, arith}
use native.Mathlib.Nat.{mul-le-mul_right}
use emilib.Shbuf.{emi_order_num, buddy_shift}
use emilib.Shmem.{Sizes, ShmemMgr, sizeof_emi_buf, sizeof_eu32, get_shm_size, emi_shmem_mgr_init}

-- what the regions hold, each up to the start of the next one, and the last up to the end
pub record Layout (z : Sizes) (base pid_max : ℕ) (m : ShmemMgr) : Type 0 where
  pub blocks : (b : ℕ) → b < 2 ^ emi_order_num → m.base + (b + 1) * 2 ^ buddy_shift ≤ m.msgbuf
  pub vector :
      (i : ℕ) → i + 1 < 2 * 2 ^ emi_order_num → m.msgbuf + (i + 1) * sizeof_emi_buf ≤ m.msgbuf_lock
  pub lock : m.msgbuf_lock + z.spinlock ≤ m.pididx
  pub slots : (pid : ℕ) → pid < pid_max → m.pididx + (pid + 1) * sizeof_eu32 ≤ m.pididx_lock
  pub mutexes :
      (pid : ℕ)
      → pid < pid_max
      → m.pididx_lock + (pid + 1) * z.mutex ≤ base + get_shm_size z pid_max

rows : (a b c : ℕ) → a < b → (a + 1) * c ≤ b * c
rows a b c h = mul-le-mul_right c (omega arith)

-- emi_shmem_mgr_init lays the blocks of messages, the entries of the buddy tree, its lock, and a slot
-- and a mutex for each pid below pid_max one behind the other, within the size of the shared memory
pub emi_shmem_mgr_init-Layout :
    (z : Sizes) (base pid_max : ℕ) → Layout z base pid_max (emi_shmem_mgr_init z base pid_max)
unfolding emi_shmem_mgr_init get_shm_size
emi_shmem_mgr_init-Layout z base pid_max = record {
  blocks = λ b h. omega arith;
  vector = λ i h. omega arith;
  lock = omega arith;
  slots = λ pid h. omega arith;
  mutexes = λ pid h. omega (arith, rows pid pid_max z.mutex h);
}
