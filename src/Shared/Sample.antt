-- ===== src/Shared/Sample.antt =====
-- A shared memory of src/emi_shbuf.c that was handed out in two halves, for tests.
use emilib.Prelude.{ℕ, ◌+◌, ◌^◌, ◌<◌, ◌≡◌, refl, sym, ap, Option, some, none, arith}
use emilib.Prelude.Int.{pos}
use mathlib.Core.Path.{subst}
use emilib.Buddy
use emilib.Buddy.Get.{Free, get_emi_buf-Free}
use emilib.Buddy.Update.{untied}
use emilib.Message.{EmiMsg, get_offset}
use emilib.Shbuf.{
  Shm, emi_order_num, addr_buf_offset, size_to_order, init_emi_buf, alloc_emi_buf, emi_alloc,
}
use emilib.Shbuf.Alloc.{IsHeap, Granted, emi_alloc-Granted}
use emilib.Shbuf.Free.{init_emi_buf-IsHeap}
use emilib.Shared.{zeroed}
use emilib.Shared.Owned.{Owned, Granted-Owned, Granted-keeps}
use emilib.Shared.Realloc.{IsMapped}

abbrev pub raw : Shm
raw = record { base = 4096; vector = λ i. record { blk_offset = 7; order = pos 9 }; word = λ a. 0 }

abbrev pub fresh : Shm
fresh = record raw { vector = init_emi_buf raw.vector }

-- half of the memory, but for the word before it
abbrev pub half : ℕ
half = 131_068

pub half-order : size_to_order (pos (half + addr_buf_offset)) ≡ 9
unfolding size_to_order
half-order = refl

pub fresh-IsHeap : IsHeap fresh
fresh-IsHeap = (init_emi_buf-IsHeap raw).0

pub fresh-Free : (b : ℕ) × Free fresh.vector emi_order_num 9 b
unfolding init_emi_buf Buddy.init_emi_buf
fresh-Free =
    let (b, _, f) =
      get_emi_buf-Free fresh.vector emi_order_num 9 (omega arith) fresh-IsHeap.exact refl in
    (b, f)

pub first_half :
    (b x : ℕ) × (t : Shm) × (emi_alloc fresh half ≡ some (some x, t)) × Granted fresh half 9 b x t
first_half = rw half-order at (
    emi_alloc-Granted fresh half fresh-Free.0 fresh-IsHeap (omega arith) (omega arith)
      (omega (arith, half-order)) (rw half-order (fresh-Free.1)))

pub first_half-IsHeap : IsHeap first_half.2
unfolding untied
first_half-IsHeap = first_half.4.heap (ground arith)

-- the memory after that, as it is computed
abbrev pub memory_of : Option (Option ℕ × Shm) → Shm
memory_of none = fresh
memory_of (some (r, t)) = t

abbrev pub shm : Shm
shm = memory_of (emi_alloc fresh half)

pub shm-first_half : first_half.2 ≡ shm
shm-first_half = sym (ap memory_of first_half.3)

pub shm-IsHeap : IsHeap shm
shm-IsHeap = subst IsHeap shm-first_half first_half-IsHeap

pub second-Free : (b : ℕ) × Free shm.vector emi_order_num 9 b
unfolding init_emi_buf Buddy.init_emi_buf emi_alloc alloc_emi_buf size_to_order Buddy.alloc_block
    Buddy.get_emi_buf Buddy.update_buf_order Buddy.sibling Buddy.update_loop Buddy.get_loop
    Buddy.next_child Buddy.new_order
second-Free =
    let (b, _, f) =
      get_emi_buf-Free shm.vector emi_order_num 9 (omega arith) shm-IsHeap.exact refl in
    (b, f)

pub second_half :
    (b x : ℕ) × (t : Shm) × (emi_alloc shm half ≡ some (some x, t)) × Granted shm half 9 b x t
second_half = rw half-order at (
    emi_alloc-Granted shm half second-Free.0 shm-IsHeap (omega arith) (omega arith)
      (omega (arith, half-order)) (rw half-order (second-Free.1)))

pub second_half-IsHeap : IsHeap second_half.2
unfolding untied
second_half-IsHeap = second_half.4.heap (ground arith)

pub second_half-Owned : Owned second_half.2 second_half.1 9 second_half.0
second_half-Owned = Granted-Owned shm half 9 second_half.0 second_half.1 second_half.2 second_half.4

pub shm-Owned : Owned shm first_half.1 9 first_half.0
shm-Owned =
    subst (λ z. Owned z first_half.1 9 first_half.0) shm-first_half
      (Granted-Owned fresh half 9 first_half.0 first_half.1 first_half.2 first_half.4)

pub first_half-Owned : Owned second_half.2 first_half.1 9 first_half.0
first_half-Owned =
    Granted-keeps shm half 9 second_half.0 second_half.1 second_half.2 second_half.4 first_half.1 9
      first_half.0 shm-Owned

abbrev pub message : EmiMsg
message = record zeroed { data_offset = get_offset first_half.1 (first_half.1 + 112); size = 30 }

pub bound : first_half.1 < 2 ^ 63
bound = omega (arith, first_half.4.holds, first_half.4.in_memory)

pub shm-IsMapped : IsMapped shm
shm-IsMapped = subst IsMapped shm-first_half (omega (arith, first_half.4.base))
