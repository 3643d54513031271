-- ===== src/Shared/Realloc.antt =====
-- `alloc_shared_msg` and `realloc_shared_msg` of src/emi_shbuf.c: where a message and its data lie.
use emilib.Prelude.{
  ◌⊎◌, ℕ, ◌+◌, ◌-◌, ◌*◌, ◌%◌, ◌^◌, ◌≤◌, ◌<◌, ◌≡◌, refl, ap, ◌∙◌, inl, inr, arith, Bool, some, none,
  true, false, Bool-cases, ltb, pow_pos, pow_le,
}
use emilib.Prelude.Int.{pos, negsuc, ltb_ℤ}
use emilib.Buddy.{order_at, flip_order}
use emilib.Message.{
  EmiMsg, get_offset, get_addr, has_flag, set_flag, clear_flag, flag_allocdata, ret_succeeded,
}
use emilib.Shbuf.{
  Shm, emi_order_num, buddy_shift, addr_buf_offset, to_int, size_to_order, get_buf_addr, emi_alloc,
}
use emilib.Shbuf.Alloc.{IsHeap, bytes, Granted}
use emilib.Shared.{move_data, grow, realloc_shared_msg}
use emilib.Shared.Owned.{
  get_addr-get_offset, Owned, Room, Granted-Owned, Granted-keeps, emi_alloc-cases,
}

-- the addresses of the shared memory are 64-bit numbers
abbrev pub IsMapped : Shm → Type 0
IsMapped s = s.base + bytes (2 ^ emi_order_num) < 2 ^ 64

to_int_small : (n : ℕ) → n < 2 ^ 31 → to_int n ≡ pos n
to_int_small n h =
    let e : n % 2 ^ 32 ≡ n = omega arith in
    let q : ltb n (2 ^ 31) ≡ true = ground arith in rw (e, q)

-- a size from 2 ^ 31 on is a negative `int`
to_int_large : (n : ℕ) → 2 ^ 31 ≤ n → n < 2 ^ 32 → to_int n ≡ negsuc (2 ^ 32 - n - 1)
to_int_large n l h =
    let e : n % 2 ^ 32 ≡ n = omega arith in
    let q : ltb n (2 ^ 31) ≡ false = ground arith in rw (e, q)

-- the bytes of a block of order `k` behind its word
abbrev pub room : ℕ → ℕ
room k = 2 ^ k * 2 ^ buddy_shift - addr_buf_offset

module _ (sizeof : ℕ) (s : Shm) (a k b : ℕ) (o : Owned s a k b) (m : EmiMsg) where
  order_of : flip_order (order_at s.vector (get_buf_addr s a)) ≡ pos k
  order_of = ap (λ z. flip_order (order_at s.vector z)) o.header ∙ ap flip_order o.used.mark

  fits_run :
      ltb_ℤ (pos (room k)) (to_int (m.size + sizeof)) ≡ false
      → realloc_shared_msg sizeof s a m ≡ some (true, m, s)
  unfolding realloc_shared_msg
  fits_run e = rw (order_of, realloc_shared_msg, e) refl

  grows_run :
      ltb_ℤ (pos (room k)) (to_int (m.size + sizeof)) ≡ true
      → realloc_shared_msg sizeof s a m ≡ grow s a m
  unfolding realloc_shared_msg
  grows_run e = rw (order_of, realloc_shared_msg, e) refl

  -- for a size that, with the message, is from 2 ^ 31 to 2 ^ 32 - 1, realloc_shared_msg says that
  -- the message's own block is enough, and it is not
  pub realloc_shared_msg_large :
      2 ^ 31 ≤ m.size + sizeof
      → m.size + sizeof < 2 ^ 32
      → (realloc_shared_msg sizeof s a m ≡ some (true, m, s)) × (room k < m.size + sizeof)
  realloc_shared_msg_large l h = (
    fits_run (rw (to_int_large (m.size + sizeof) l h) refl),
    omega (arith, pow_le k emi_order_num o.used.small),
  )

-- how a call of `realloc_shared_msg` for the message `m` at `a`, in block `b` of order `k`, ended:
-- nothing changed, a new block was granted, or there was none
pub record Reallocated (sizeof : ℕ) (s : Shm) (a k b : ℕ) (m : EmiMsg) (r : Bool × EmiMsg × Shm)
    : Type 0 where
  pub room_for : r.0 ≡ true → Room r.2 (get_addr a r.1.data_offset) m.size
  pub owned : Owned r.2 a k b
  pub failed : r.0 ≡ false → (r.2 ≡ s) × (has_flag r.1.flag ret_succeeded ≡ false)
  pub size : r.1.size ≡ m.size
  pub msg : r.1.msg ≡ m.msg
  pub cmd : r.1.cmd ≡ m.cmd
  pub retsize : r.1.retsize ≡ m.retsize
  pub own : m.size + sizeof ≤ room k → (r.0 ≡ true) × (r.1 ≡ m) × (r.2 ≡ s)
  pub granted :
      r.0 ≡ true
      → room k < m.size + sizeof
      → (l c x : ℕ) × Granted s m.size l c x r.2
        × (r.1 ≡ record m { data_offset = get_offset a x; flag = set_flag m.flag flag_allocdata })
  pub unchanged :
      r.0 ≡ false → (r.2 ≡ s) × (r.1 ≡ record m { flag = clear_flag m.flag ret_succeeded })
  pub flag : r.0 ≡ true → (r.1.flag ≡ m.flag) ⊎ (r.1.flag ≡ set_flag m.flag flag_allocdata)

grow_null :
    (s : Shm) (a : ℕ) (m : EmiMsg)
    → emi_alloc s m.size ≡ some (none, s)
    → grow s a m ≡ some (false, record m { flag = clear_flag m.flag ret_succeeded }, s)
unfolding grow
grow_null s a m e = rw (grow, e) refl

grow-some :
    (s t : Shm) (a x : ℕ) (m : EmiMsg)
    → has_flag m.flag flag_allocdata ≡ false
    → emi_alloc s m.size ≡ some (some x, t)
    → grow s a m
      ≡ some (
        true,
        record m { data_offset = get_offset a x; flag = set_flag m.flag flag_allocdata },
        t,
      )
unfolding grow move_data
grow-some s t a x m f e = rw (grow, e, move_data, f) refl

cleared : (flag : ℕ) → has_flag (clear_flag flag ret_succeeded) ret_succeeded ≡ false
cleared flag = ground arith

fits_Reallocated :
    (sizeof : ℕ) (s : Shm) (a k b : ℕ) (m : EmiMsg)
    → Owned s a k b
    → m.data_offset ≡ get_offset a (a + sizeof)
    → a + sizeof < 2 ^ 64
    → m.size + sizeof ≤ room k
    → Reallocated sizeof s a k b m (true, m, s)
fits_Reallocated sizeof s a k b m o d top fits =
    let here = ap (get_addr a) d ∙ get_addr-get_offset a (a + sizeof) (omega arith) top in
    record {
      room_for = λ q. record {
        order = k;
        block = b;
        used = o.used;
        from = omega (arith, here, o.place);
        to = omega (arith, here, o.place, pow_pos k);
      };
      owned = o;
      failed = λ q. cc;
      size = refl;
      msg = refl;
      cmd = refl;
      retsize = refl;
      own = λ h. (refl, refl, refl);
      granted = λ q more. absurd (omega arith);
      unchanged = λ q. cc;
      flag = λ q. inl refl;
    }

grown_Reallocated :
    (sizeof : ℕ) (s t : Shm) (a k b x c : ℕ) (m : EmiMsg)
    → IsMapped s
    → Owned s a k b
    → a < 2 ^ 64
    → Granted s m.size (size_to_order (pos (m.size + addr_buf_offset))) c x t
    → room k < m.size + sizeof
    → Reallocated sizeof s a k b m
        (true, record m { data_offset = get_offset a x; flag = set_flag m.flag flag_allocdata }, t)
grown_Reallocated sizeof s t a k b x c m mapped o top g more =
    let l = size_to_order (pos (m.size + addr_buf_offset)) in
    let new = Granted-Owned s m.size l c x t g in
    let there = get_addr-get_offset a x top (omega (arith, g.holds, g.in_memory)) in
    record {
      room_for = λ q. record {
        order = l;
        block = c;
        used = g.used;
        from = omega (arith, there, new.place);
        to = omega (arith, there, g.holds, g.base);
      };
      owned = Granted-keeps s m.size l c x t g a k b o;
      failed = λ q. cc;
      size = refl;
      msg = refl;
      cmd = refl;
      retsize = refl;
      own = λ h. absurd (omega arith);
      granted = λ q h. (l, c, x, g, refl);
      unchanged = λ q. cc;
      flag = λ q. inr refl;
    }

-- in an exact heap, for a message that is in use and that has no data of its own yet, with sizes
-- below 2 ^ 31, realloc_shared_msg ends; if it does not give NULL, the data's offset leads to that
-- many bytes in a block that is in use, behind its word: in the message's own block where they fit,
-- and else in a new one. If it gives NULL, nothing changes but that SUCCEEDED is cleared
pub realloc_shared_msg-Reallocated :
    (sizeof : ℕ) (s : Shm) (a k b : ℕ) (m : EmiMsg)
    → IsHeap s
    → IsMapped s
    → Owned s a k b
    → has_flag m.flag flag_allocdata ≡ false
    → m.data_offset ≡ get_offset a (a + sizeof)
    → a + sizeof < 2 ^ 64
    → 0 < m.size
    → m.size + sizeof < 2 ^ 31
    → m.size + addr_buf_offset < 2 ^ 31
    → (r : Bool × EmiMsg × Shm) × (realloc_shared_msg sizeof s a m ≡ some r)
      × Reallocated sizeof s a k b m r
realloc_shared_msg-Reallocated sizeof s a k b m heap mapped o f d top p small small' =
    let e = to_int_small (m.size + sizeof) small in
    elim (Bool-cases (ltb (room k) (m.size + sizeof))) [
      | inr fits ↦ (
        (true, m, s),
        fits_run sizeof s a k b o m (rw e fits),
        fits_Reallocated sizeof s a k b m o d top (ground arith),
      )
      | inl more ↦ elim (emi_alloc-cases s m.size heap p small') [
        | inl null ↦ (
          (false, record m { flag = clear_flag m.flag ret_succeeded }, s),
          grows_run sizeof s a k b o m (rw e more) ∙ grow_null s a m null,
          record {
            room_for = λ q. cc;
            owned = o;
            failed = λ q. (refl, cleared m.flag);
            size = refl;
            msg = refl;
            cmd = refl;
            retsize = refl;
            own = λ h. absurd (ground arith);
            granted = λ q. cc;
            unchanged = λ q. (refl, refl);
            flag = λ q. cc;
          },
        )
        | inr (c, x, t, run, g) ↦ (
          (
            true,
            record m { data_offset = get_offset a x; flag = set_flag m.flag flag_allocdata },
            t,
          ),
          grows_run sizeof s a k b o m (rw e more) ∙ grow-some s t a x m f run,
          grown_Reallocated sizeof s t a k b x c m mapped o (omega arith) g (ground arith),
        )
      ]
    ]
