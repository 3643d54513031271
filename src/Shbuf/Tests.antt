-- ===== src/Shbuf/Tests.antt =====
-- The allocator of src/emi_shbuf.c at a fresh shared memory.
use emilib.Prelude.{ℕ, ◌+◌, ◌*◌, ◌^◌, ◌≤◌, ◌<◌, ◌≡◌, ◌⊎◌, suc, refl, some, none, arith}
use emilib.Prelude.Int.{pos}
use emilib.Buddy.Get.{Free}
use emilib.Shbuf.{
  Shm, emi_order_num, buddy_shift, addr_buf_offset, size_to_order, init_emi_buf, emi_alloc,
  emi_free,
}
use emilib.Buddy.Update.{untied}
use emilib.Shbuf.Order.{size_to_order-least}
use emilib.Shbuf.Alloc.{IsHeap, Granted, emi_alloc-Granted}
use emilib.Shbuf.Free.{init_emi_buf-IsHeap, Freed, emi_free-Freed, emi_free-emi_free}

abbrev raw : Shm
raw = record { base = 4096; vector = λ i. record { blk_offset = 7; order = pos 9 }; word = λ a. 0 }

abbrev fresh : Shm
fresh = record raw { vector = init_emi_buf raw.vector }

orders :
    (size_to_order (pos 256) ≡ 0)
    × (size_to_order (pos 257) ≡ 1)
    × (size_to_order (pos 262_144) ≡ 10)
unfolding size_to_order
orders = (refl, refl, refl)

size_to_order-least_example :
    (257 ≤ 2 ^ size_to_order (pos 257) * 2 ^ buddy_shift)
    × ((size_to_order (pos 257) ≡ 0)
        ⊎ ((e : ℕ) × (size_to_order (pos 257) ≡ suc e) × (2 ^ e * 2 ^ buddy_shift < 257)))
size_to_order-least_example = size_to_order-least 257 (omega arith) (omega arith)

-- the whole memory, but for the word before it
abbrev all : ℕ
all = 262_140

all-order : size_to_order (pos (all + addr_buf_offset)) ≡ emi_order_num
unfolding size_to_order
all-order = refl

all-Free : Free fresh.vector emi_order_num (size_to_order (pos (all + addr_buf_offset))) 0
all-Free = rw all-order (init_emi_buf-IsHeap raw).1

emi_alloc-Granted_example :
    (b addr : ℕ) × (t : Shm) × (emi_alloc fresh all ≡ some (some addr, t))
    × Granted fresh all (size_to_order (pos (all + addr_buf_offset))) b addr t
emi_alloc-Granted_example =
    emi_alloc-Granted fresh all 0 (init_emi_buf-IsHeap raw).0 (omega arith) (omega arith)
      (omega (arith, all-order)) all-Free

too_much : size_to_order (pos (300_000 + addr_buf_offset)) ≡ 11
unfolding size_to_order
too_much = refl

-- the shared memory once all of it is handed out
granted :
    (b addr : ℕ) × (t : Shm) × (emi_alloc fresh all ≡ some (some addr, t))
    × Granted fresh all emi_order_num b addr t
granted = rw all-order at (
    emi_alloc-Granted fresh all 0 (init_emi_buf-IsHeap raw).0 (omega arith) (omega arith)
      (omega (arith, all-order)) all-Free)

granted-IsHeap : IsHeap granted.2
unfolding untied
granted-IsHeap = granted.4.heap refl

emi_free-Freed_example :
    (t : Shm) × (emi_free granted.2 granted.1 ≡ some t) × Freed granted.2 emi_order_num granted.0 t
emi_free-Freed_example =
    emi_free-Freed granted.2 granted.1 emi_order_num granted.0 granted-IsHeap granted.4.used
      granted.4.header

emi_free-emi_free_example :
    (t : Shm) × (emi_free granted.2 granted.1 ≡ some t) × (emi_free t granted.1 ≡ none)
emi_free-emi_free_example =
    emi_free-emi_free granted.2 granted.1 emi_order_num granted.0 granted-IsHeap granted.4.used
      granted.4.header
