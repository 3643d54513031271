-- ===== src/Shared/Release.antt =====
-- `free_shared_msg` of src/emi_shbuf.c: what becomes of a message and of its data.
use emilib.Prelude.{ℕ, ◌^◌, ◌<◌, ◌≡◌, refl, ap, ◌∙◌, arith, some, none, true, false, ltb}
use emilib.Prelude.Int.{pos}
use emilib.Buddy.Mark.{no_ties}
use emilib.Message.{EmiMsg, get_offset, get_addr, has_flag, flag_allocdata}
use emilib.Shbuf.{Shm, emi_order_num}
use emilib.Shbuf.Alloc.{IsHeap}
use emilib.Shbuf.Free.{Freed, emi_free-Freed, emi_free-emi_free}
use emilib.Shared.{free_alloc_data, free_ret_data, free_shared_msg_data, free_shared_msg}
use emilib.Shared.Owned.{Owned, get_addr-get_offset}

plain_data :
    (s : Shm) (a : ℕ) (m : EmiMsg)
    → has_flag m.flag flag_allocdata ≡ false
    → free_alloc_data s a m ≡ some (m, s)
unfolding free_alloc_data
plain_data s a m f = rw (free_alloc_data, f) refl

-- a message without data of its own, for which the sender's members say that there is return data:
-- free_shared_msg gives the message itself back twice, and leaves the vector at its front
pub free_shared_msg_twice :
    (s : Shm) (a k b : ℕ) (m : EmiMsg)
    → IsHeap s
    → Owned s a k b
    → a < 2 ^ 64
    → has_flag m.flag flag_allocdata ≡ false
    → 0 < m.retsize
    → m.retdata_offset ≡ 0
    → free_shared_msg s a m ≡ none
unfolding free_shared_msg free_shared_msg_data free_ret_data
free_shared_msg_twice s a k b m heap o top f r z =
    let (t, run, again) = emi_free-emi_free s a k b heap o.used o.header in
    let here : get_addr a m.retdata_offset ≡ a = omega (arith, z) in
    let some_left : ltb 0 m.retsize ≡ true = ground arith in
    rw
      (
        free_shared_msg,
        free_shared_msg_data,
        plain_data s a m f,
        free_ret_data,
        some_left,
        here,
        run,
      )
      again

-- what became of two blocks, first `c` of order `l` and then `b` of order `k`
pub record BothFreed (s : Shm) (k b l c : ℕ) (t : Shm) : Type 0 where
  pub between : Shm
  pub first : Freed s l c between
  pub second : Freed between k b t

-- free_shared_msg of a message that is in use, with data in another block and without return data:
-- both blocks are given back, first the data's, if giving that back meets no tie
pub free_shared_msg-BothFreed :
    (s : Shm) (a k b x l c : ℕ) (m : EmiMsg)
    → IsHeap s
    → Owned s a k b
    → Owned s x l c
    → ¬ (b ≡ c)
    → a < 2 ^ 64
    → x < 2 ^ 64
    → has_flag m.flag flag_allocdata ≡ true
    → m.data_offset ≡ get_offset a x
    → m.retsize ≡ 0
    → no_ties s.vector emi_order_num l c (pos l) ≡ true
    → (t : Shm) × (free_shared_msg s a m ≡ some t) × BothFreed s k b l c t
unfolding free_shared_msg free_shared_msg_data free_alloc_data free_ret_data
free_shared_msg-BothFreed s a k b x l c m heap o p n top top' f d r ties =
    let (u, run, freed) = emi_free-Freed s x l c heap p.used p.header in
    let (t, run', freed') =
      emi_free-Freed u a k b (freed.heap ties) (freed.released.others k b n o.used)
        (freed.words _ ∙ o.header) in
    let there = ap (get_addr a) d ∙ get_addr-get_offset a x top top' in
    (
      t,
      rw (free_shared_msg, free_shared_msg_data, free_alloc_data, f, there, run, free_ret_data, r)
          run',
      record { between = u; first = freed; second = freed' },
    )

-- free_shared_msg of a message that is in use, without data of its own and without return data: its
-- block is given back
pub free_shared_msg-Freed :
    (s : Shm) (a k b : ℕ) (m : EmiMsg)
    → IsHeap s
    → Owned s a k b
    → has_flag m.flag flag_allocdata ≡ false
    → m.retsize ≡ 0
    → (t : Shm) × (free_shared_msg s a m ≡ some t) × Freed s k b t
unfolding free_shared_msg free_shared_msg_data free_ret_data
free_shared_msg-Freed s a k b m heap o f r =
    let (t, run, freed) = emi_free-Freed s a k b heap o.used o.header in
    (t, rw (free_shared_msg, free_shared_msg_data, plain_data s a m f, free_ret_data, r) run, freed)
