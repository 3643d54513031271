-- ===== src/Handler/Tests.antt =====
-- A process of src/emi_ifr.c that handles a message and returns data.
use emilib.Prelude.{ℕ, ◌+◌, ◌-◌, ◌^◌, ◌≡◌, refl, some, true, Bool, arith, [], ◌∷◌}
use emilib.Prelude.Int.{pos}
use emilib.Buddy
use emilib.Buddy.Get.{Free, get_emi_buf-Free}
use emilib.Message.{EmiMsg}
use emilib.Shbuf.{
  Shm, emi_order_num, addr_buf_offset, size_to_order, init_emi_buf, alloc_emi_buf, emi_alloc,
}
use emilib.Shbuf.Alloc.{Granted, emi_alloc-Granted}
use emilib.Shared.{zeroed}
use emilib.Shared.Sample.{shm, shm-IsHeap, shm-IsMapped, shm-Owned, first_half, bound}
use emilib.Ring.{init_list_head}
use emilib.Ring.Laws.{IsRing, init_list_head-IsRing}
use emilib.Handler.{Reply, Functions, emi_load_retdata, add_func, func_sterotype_thread}
use emilib.Handler.Retdata.{HasBlocks, Loaded, emi_load_retdata-Loaded, emi_load_retdata_cut}
use emilib.Handler.Find.{lookup, outcome, Counted, add_func-find, func_sterotype_thread_lem}

abbrev blocking : Reply
blocking = record {
  shm = shm;
  m = record zeroed { flag = 256 };
  blocks = record { next_offset = λ d. 7; size = λ d. 7 };
  mem = λ c. 0;
}

blocking-HasBlocks : HasBlocks blocking first_half.1 []
blocking-HasBlocks = record {
  linked = refl;
  small = λ d m. cc;
  held = λ d m. absurd (ground arith);
  order = 9;
  block = first_half.0;
  owned = shm-Owned;
}

emi_load_retdata-Loaded_example :
    (ok : Bool) × (u : Reply) × (emi_load_retdata blocking first_half.1 (7 ∷ 8 ∷ []) ≡ some (ok, u))
    × Loaded blocking first_half.1 [] (7 ∷ 8 ∷ []) ok u
emi_load_retdata-Loaded_example =
    emi_load_retdata-Loaded blocking first_half.1 [] (7 ∷ 8 ∷ []) blocking-HasBlocks shm-IsHeap
      shm-IsMapped (omega (arith, bound)) refl (omega arith) (omega arith) (omega arith)

-- a message whose former block lies 16 bytes before it
abbrev before : Reply
before = record blocking { m = record (blocking.m) { retdata_offset = 2 ^ 64 - 16 } }

small-order : size_to_order (pos (18 + addr_buf_offset)) ≡ 0
unfolding size_to_order
small-order = refl

small-Free : (b : ℕ) × Free shm.vector emi_order_num 0 b
unfolding init_emi_buf Buddy.init_emi_buf emi_alloc alloc_emi_buf size_to_order Buddy.alloc_block
    Buddy.get_emi_buf Buddy.update_buf_order Buddy.sibling Buddy.update_loop Buddy.get_loop
    Buddy.next_child Buddy.new_order
small-Free =
    let (b, _, f) =
      get_emi_buf-Free shm.vector emi_order_num 0 (omega arith) shm-IsHeap.exact refl in
    (b, f)

small :
    (b x : ℕ) × (t : Shm) × (emi_alloc shm 18 ≡ some (some x, t))
    × Granted shm 18 (size_to_order (pos (18 + addr_buf_offset))) b x t
small =
    emi_alloc-Granted shm 18 small-Free.0 shm-IsHeap (omega arith) (omega arith)
      (omega (arith, small-order)) (rw small-order (small-Free.1))

emi_load_retdata_cut_example :
    (u : Reply) × (emi_load_retdata before first_half.1 (7 ∷ 8 ∷ []) ≡ some (true, u))
    × (¬ (u.blocks.next_offset u.m.retdata_offset ≡ 2 ^ 64 - 16))
emi_load_retdata_cut_example =
    emi_load_retdata_cut before first_half.1 small.1 small.2 (7 ∷ 8 ∷ []) (omega arith) refl small.3
      (omega arith)

abbrev none_yet : Functions
none_yet = record {
  rings = init_list_head (record { nexts = λ a. 9; prevs = λ a. 9 }) 0;
  msg = λ a. 1;
  func = λ a. 1;
}

add_func-IsRing : IsRing (add_func none_yet 0 5 3 40).rings 0 (5 ∷ [])
add_func-IsRing =
    (add_func-find 9 none_yet 0 5 3 40 []
      (init_list_head-IsRing (record { nexts = λ a. 9; prevs = λ a. 9 }) 0) (omega arith) refl
      (omega arith)).0

abbrev three : EmiMsg
three = record zeroed { flag = 256; msg = 3; count = 2 }

func_sterotype_thread_lem_example :
    let fs = add_func none_yet 0 5 3 40 in
    let r = outcome (λ f m. (1, m)) (lookup fs 3 (5 ∷ [])) three in
    (v : EmiMsg) × (func_sterotype_thread 9 fs 0 (λ f m. (1, m)) three ≡ some v) × Counted r.0 r.1 v
unfolding add_func
func_sterotype_thread_lem_example =
    func_sterotype_thread_lem 9 (add_func none_yet 0 5 3 40) 0 (5 ∷ []) (λ f m. (1, m)) three
      add_func-IsRing (omega arith)
