-- ===== src/Buddy/Release.antt =====
-- `__free_emi_buf` of src/emi_shbuf.c: what giving a block back does, and giving one back twice.
use emilib.Prelude.{
  ℕ, zero, suc, ◌+◌, ◌-◌, ◌^◌, ◌<◌, ◌≡◌, refl, sym, ap, ◌∙◌, inl, inr, true, false, arith, some,
  none, pow_le,
}
use emilib.Prelude.Int.{pos, negsuc, inc_ℤ}
use emilib.Buddy.{Vector, order_at, parent, sibling, flip_order, free_block, update_buf_order}
use emilib.Buddy.Index.{In-trans, le_of_In, sibling_cases, parent-sibling}
use emilib.Buddy.Shape.{combine, combine_comm, Below, Below-frame, Exact, block, split, Ascent}
use emilib.Buddy.Frame.{Depth, update_loop-eq-none}
use emilib.Buddy.Tie.{child-Exact, Exact_down}
use emilib.Buddy.Blocks.{Used, Used-frame, not_Below-Used}
use emilib.Buddy.Mark.{no_ties, Switch, Switched, update-Switched}

-- an exact tree reads the same all the way up from an entry that is not wholly free
Exact-Ascent :
    (n m : ℕ) (v : Vector) (k b : ℕ)
    → k + n ≡ m
    → Depth n b
    → Exact v m 0
    → ¬ ((order_at v b ≡ pos k) × Below v k b)
    → Ascent v n k b (order_at v b)
Exact-Ascent zero m v k b e d x part = d
Exact-Ascent (suc n) m v k b e (h, d) x part =
    let above = Exact_down n m v (suc k) (parent b) (omega arith) d x in
    let (joined, wide) = joint above in
    (
      h,
      joined,
      child-Exact v k (sibling b) (omega (arith, sibling_cases b h))
          (rw (parent-sibling b h) above),
      Exact-Ascent n m v (suc k) (parent b) (omega arith) d x (λ q. wide q.1),
    )
  where
    whole : Below v (suc k) (parent b) → (order_at v b ≡ pos k) × Below v k b
    whole (o, l, q, r) = elim (sibling_cases b h) [
      | inl (i, j) ↦ (ap (order_at v) i ∙ o, rw i l)
      | inr (i, j) ↦ (ap (order_at v) i ∙ q, rw i r)
    ]

    joint :
        Exact v (suc k) (parent b)
        → (order_at v (parent b) ≡ combine k (order_at v b) (order_at v (sibling b)))
          × (¬ (Below v (suc k) (parent b)))
    joint (block o below) = absurd (part (whole below))
    joint (split c l r) = (
      elim (sibling_cases b h) [
        | inl (i, j) ↦ rw (← i, ← j) at c
        | inr (i, j) ↦ c ∙ combine_comm k _ _ ∙ (rw (← i, ← j) refl)
      ],
      λ below. part (whole below),
    )

-- what giving back block `b` of order `k` and leaving `w` has done
pub record Released (v : Vector) (m k b : ℕ) (w : Vector) : Type 0 where
  pub whole : order_at w b ≡ pos k
  pub below : Below w k b
  pub others : (l c : ℕ) → ¬ (c ≡ b) → Used v m l c → Used w m l c
  pub offsets : (j : ℕ) → (w j).blk_offset ≡ (v j).blk_offset
  pub exact : no_ties v m k b (pos k) ≡ true → Exact w m 0
  pub broken : no_ties v m k b (pos k) ≡ false → ¬ (Exact w m 0)

Used-Switch :
    (v : Vector) (m k b : ℕ) → Exact v m 0 → Used v m k b → Switch v m k b (negsuc k) (pos k)
Used-Switch v m k b x u =
    let le = u.small in
    let path =
      Exact-Ascent (m - k) m v k b (omega arith) u.depth x
        (λ (o, _). let q = sym u.mark ∙ o in cc) in
    record {
      below = u.below;
      path = rw u.mark at path;
      small = le;
      range = refl;
      block = inl refl;
      changed = inl (λ p. cc);
    }

Switched-Released :
    (v w : Vector) (m k b : ℕ) → Used v m k b → Switched v m k b (pos k) w → Released v m k b w
Switched-Released v w m k b u s = record {
  whole = s.mark;
  below =
      Below-frame v w k b (λ j h r. ap (λ e. e.order) (s.others j (λ t. omega (arith, le_of_In t))))
        u.below;
  others = λ l c ne t.
      let out = not_Below-Used v m l k c b t.small t.depth t.below u (λ e. ne (sym e)) in
      Used-frame v w m l c (λ j r. ap (λ e. e.order) (s.others j (λ z. out (In-trans r z)))) t;
  offsets = s.offsets;
  exact = s.exact;
  broken = s.broken;
}

-- giving back a block that is in use ends inside of the vector, and leaves the other ones alone
pub free_block-Released :
    (v : Vector) (m k b : ℕ)
    → Exact v m 0
    → Used v m k b
    → (w : Vector) × (free_block v b (flip_order (order_at v b)) m ≡ some w) × Released v m k b w
unfolding free_block
free_block-Released v m k b x u =
    let (w, run, s) = update-Switched v m k b (negsuc k) (pos k) (Used-Switch v m k b x u) in
    (w, rw u.mark run, Switched-Released v w m k b u s)

-- giving back a block that is not in use leaves the vector at its front
pub free_block-eq-none :
    (v : Vector) (m k b : ℕ)
    → suc b < 2 ^ suc m
    → order_at v b ≡ pos k
    → free_block v b (flip_order (order_at v b)) m ≡ none
unfolding free_block update_buf_order
free_block-eq-none v m k b h e = rw e (
    update_loop-eq-none (m + suc k) _ b (inc_ℤ (negsuc k))
      (omega (arith, pow_le (suc m) (m + suc k) (omega arith))))
