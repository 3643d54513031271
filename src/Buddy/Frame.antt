-- ===== src/Buddy/Frame.antt =====
-- Where `update_buf_order` of src/emi_shbuf.c writes: at the ancestors of an entry, and nowhere else.
use emilib.Prelude.{
  ℕ, zero, suc, ◌-◌, ◌^◌, ◌≤◌, ◌<◌, ◌≡◌, refl, sym, ◌∙◌, ◌⊎◌, inl, inr, arith, none, some, pow_suc,
}
use emilib.Prelude.Int.{ℤ, pos, inc_ℤ}
use emilib.Buddy.{
  Vector, EmiBuf, order_at, write, set_order, parent, sibling, new_order, update_loop,
  update_buf_order,
}
use emilib.Buddy.Index.{In, here, le_of_In, In-trans, In-parent}

-- entry `b` stands `n` levels under the root
abbrev pub Depth : ℕ → ℕ → Type 0
Depth zero b = b ≡ 0
Depth (suc n) b = (0 < b) × Depth n (parent b)

-- `w` differs from `v` at most in the orders of the ancestors of `b`
pub record Above (b : ℕ) (v w : Vector) : Type 0 where
  pub offsets : (j : ℕ) → (w j).blk_offset ≡ (v j).blk_offset
  pub others : (j : ℕ) → (j ≡ b) ⊎ (¬ (In j b)) → w j ≡ v j

not_above : (b j : ℕ) → 0 < b → (j ≡ b) ⊎ (¬ (In j b)) → ¬ (In j (parent b))
not_above b j h (inl e) r = omega (arith, le_of_In r)
not_above b j h (inr out) r = out (In-trans r (In-parent b h))

pub write-other : (v : Vector) (p j : ℕ) (e : EmiBuf) → ¬ (p ≡ j) → write v p e j ≡ v j
write-other v p j e n = ground arith

-- from an entry `n` levels under the root `n` rounds end, and write only above it
pub update_loop-Above :
    (n : ℕ) (v : Vector) (b : ℕ) (o : ℤ)
    → Depth n b
    → (w : Vector) × (update_loop n v b o ≡ some w) × Above b v w
unfolding update_loop
update_loop-Above zero v b o d = (v, refl, record { offsets = λ j. refl; others = λ j h. refl })
update_loop-Above (suc n) v zero o d = absurd (omega arith)
update_loop-Above (suc n) v (suc b) o (h, d) =
    let p = parent (suc b) in
    let x = new_order o (order_at v (sibling (suc b))) (order_at v (suc b)) (order_at v p) in
    let (w, run, a) = update_loop-Above n (set_order v p x) p (inc_ℤ o) d in
    (
      w,
      run,
      record {
        offsets = λ j. a.offsets j ∙ ground arith;
        others = λ j t.
            let out = not_above (suc b) j h t in
            a.others j (inr out) ∙ write-other v p j _ (λ q. out (here (sym q)));
      },
    )

-- from a block of order `k` of a tree of order `m`, whatever the orders are, the update ends inside of
-- the vector, and changes nothing but the orders of the entries above the block
pub update_buf_order-Above :
    (v : Vector) (m k b : ℕ)
    → k ≤ m
    → Depth (m - k) b
    → (w : Vector) × (update_buf_order v b (pos k) m ≡ some w) × Above b v w
unfolding update_buf_order
update_buf_order-Above v m k b h d = update_loop-Above (m - k) v b (pos (suc k)) d

-- more rounds than there are levels above an entry leave the vector
pub update_loop-eq-none :
    (n : ℕ) (v : Vector) (b : ℕ) (o : ℤ) → suc b < 2 ^ n → update_loop n v b o ≡ none
unfolding update_loop
update_loop-eq-none zero v b o h = absurd (omega arith)
update_loop-eq-none (suc n) v zero o h = refl
update_loop-eq-none (suc n) v (suc b) o h =
    update_loop-eq-none n _ (parent (suc b)) (inc_ℤ o) (omega (arith, pow_suc n))
