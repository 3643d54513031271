-- ===== src/Shbuf/Order.antt =====
-- `size_to_order` of src/emi_shbuf.c finds the smallest order whose blocks hold the size.
use emilib.Prelude.{
  ℕ, zero, suc, ◌+◌, ◌-◌, ◌*◌, ◌/◌, ◌^◌, ◌≤◌, ◌<◌, ◌≡◌, refl, ◌⊎◌, inl, inr, arith, ◌==◌,
  Bool-cases, pow_suc,
}
use emilib.Prelude.Int.{pos}
use emilib.Shbuf.{order_loop, size_to_order, buddy_shift}

-- `d` is the number of binary digits of `n`
pub record IsBits (n d : ℕ) : Type 0 where
  pub above : n < 2 ^ d
  pub below : (d ≡ 0) ⊎ ((e : ℕ) × (d ≡ suc e) × (2 ^ e ≤ n))

IsBits-half : (n d : ℕ) → 0 < n → IsBits (n / 2) d → IsBits n (suc d)
IsBits-half n d h b = record {
  above = omega (arith, pow_suc d, b.above);
  below = inr (elim b.below [
    | inl e ↦ (d, refl, rw e h)
    | inr (e, p, le) ↦ (d, refl, rw p (omega (arith, pow_suc e)))
  ]);
}

-- the loop counts the binary digits
order_loop-IsBits :
    (n size order : ℕ)
    → size < 2 ^ n
    → (d : ℕ) × (order_loop n size order ≡ order + d) × IsBits size d
unfolding order_loop
order_loop-IsBits zero size order h = (0, omega arith, record { above = h; below = inl refl })
order_loop-IsBits (suc n) size order h = elim (Bool-cases (size == 0)) [
  | inl e ↦ (0, rw e (omega arith), record { above = ground arith; below = inl refl })
  | inr e ↦
      let (d, run, b) = order_loop-IsBits n (size / 2) (order + 1) (omega (arith, pow_suc n)) in
      (suc d, rw (e, run) (omega arith), IsBits-half size d (ground arith) b)
]

-- the block of the order that is computed holds the size, and the next smaller one does not
pub size_to_order-least :
    (size : ℕ)
    → 0 < size
    → size < 2 ^ 31
    → (size ≤ 2 ^ size_to_order (pos size) * 2 ^ buddy_shift)
      × ((size_to_order (pos size) ≡ 0)
          ⊎ ((e : ℕ) × (size_to_order (pos size) ≡ suc e) × (2 ^ e * 2 ^ buddy_shift < size)))
unfolding size_to_order
size_to_order-least size h k =
    let (d, run, b) = order_loop-IsBits 31 ((size - 1) / 2 ^ buddy_shift) 0 (omega arith) in
    let e : order_loop 31 ((size - 1) / 2 ^ buddy_shift) 0 ≡ d = omega arith in
    rw e (
      omega (arith, b.above),
      (elim b.below [ inl z ↦ inl z | inr (i, p, le) ↦ inr (i, p, omega arith) ]),
    )
