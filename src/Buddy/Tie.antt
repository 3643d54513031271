-- ===== src/Buddy/Tie.antt =====
-- Where `update_buf_order` of src/emi_shbuf.c goes wrong: siblings of one order that are not wholly
-- free. The parent's order is then incremented, and says more than there is.
use emilib.Prelude.{
  ℕ, zero, suc, ◌+◌, ◌<◌, ◌≡◌, refl, sym, ap, ap₂, ◌∙◌, ◌≢◌, ◌⊎◌, inl, inr, ◌||◌, not, false, arith,
  Bool-cases, and_false, some,
}
use emilib.Prelude.Int.{ℤ, pos, negsuc, eqb_ℤ, is_neg}
use emilib.Buddy.{Vector, order_at, parent, sibling, new_order, update_loop}
use emilib.Buddy.Index.{le_of_In, sibling_cases}
use emilib.Buddy.Shape.{combine, combine_comm, Exact, block, split, InRange, Ascent}
use emilib.Buddy.Update.{
  untied, Ready, update_step, no_tie, update_step-Ready, order_at-set_order,
  order_at-set_order_self,
}
use emilib.Buddy.Frame.{Depth, Above, update_loop-Above}

pub Ascent-Depth : (v : Vector) (n k b : ℕ) (old : ℤ) → Ascent v n k b old → Depth n b
Ascent-Depth v zero k b old p = p
Ascent-Depth v (suc n) k b old (h, _, _, p) =
    (h, Ascent-Depth v n (suc k) (parent b) (order_at v (parent b)) p)

-- the children of an exact entry are exact
pub child-Exact : (v : Vector) (k b : ℕ) → 0 < b → Exact v (suc k) (parent b) → Exact v k b
child-Exact v k b h (block e (o, l, q, r)) = elim (sibling_cases b h) [
  | inl (x, y) ↦ rw x (block (inl o) l)
  | inr (x, y) ↦ rw x (block (inl q) r)
]
child-Exact v k b h (split e l r) = elim (sibling_cases b h) [
  | inl (x, y) ↦ rw x l
  | inr (x, y) ↦ rw x r
]

-- an exact entry combines its children, unless both are wholly free
combines :
    (v : Vector) (k b : ℕ)
    → 0 < b
    → Exact v (suc k) (parent b)
    → (order_at v b ≡ pos k)
      ⊎ (order_at v (parent b) ≡ combine k (order_at v b) (order_at v (sibling b)))
combines v k b h (block e (o, l, q, r)) = elim (sibling_cases b h) [
  | inl (x, y) ↦ inl (ap (order_at v) x ∙ o)
  | inr (x, y) ↦ inl (ap (order_at v) x ∙ q)
]
combines v k b h (split e l r) = elim (sibling_cases b h) [
  | inl (x, y) ↦ inr (rw (← x, ← y) at e)
  | inr (x, y) ↦
      inr (
        e
        ∙ ap₂ (combine k) (ap (order_at v) (sym y)) (ap (order_at v) (sym x))
        ∙ combine_comm k _ _)
]

-- every entry of an exact tree is exact
pub Exact_down :
    (n m : ℕ) (v : Vector) (k b : ℕ) → k + n ≡ m → Depth n b → Exact v m 0 → Exact v k b
Exact_down zero m v k b e d x = let q : k ≡ m = omega arith in rw (q, d) x
Exact_down (suc n) m v k b e (h, d) x =
    child-Exact v k b h (Exact_down n m v (suc k) (parent b) (omega arith) d x)

-- after a tie the parent's order is not the intended one
new_order-tie :
    (k : ℕ) (s b old : ℤ)
    → InRange k old
    → (not (eqb_ℤ s b) || is_neg b || eqb_ℤ b (pos k)) ≡ false
    → new_order (pos (suc k)) s b (combine k old s) ≢ combine k b s × (b ≢ pos k)
unfolding new_order combine
new_order-tie k (pos s) (pos b) (pos o) ho t = ground arith
new_order-tie k (pos s) (pos b) (negsuc o) ho t = ground arith
new_order-tie k (pos s) (negsuc b) o ho t = ground arith
new_order-tie k (negsuc s) (pos b) o ho t = ground arith
new_order-tie k (negsuc s) (negsuc b) o ho t = ground arith

-- a round that meets a tie leaves a parent that no later round mends
tie-not_Exact :
    (n m : ℕ) (v w : Vector) (k b : ℕ) (old : ℤ)
    → k + suc n ≡ m
    → Ready (suc n) v k b old
    → no_tie v k b (order_at v b) ≡ false
    → Above (parent b) (update_step v k b) w
    → ¬ (Exact w m 0)
tie-not_Exact n m v w k b old e ready tie above x =
    let (h, q, s, path) = ready.path in
    let p = parent b in
    let wrong = new_order-tie k (order_at v (sibling b)) (order_at v b) old ready.range tie in
    let at_p : order_at w p ≡ order_at (update_step v k b) p =
      ap (λ f. f.order) (above.others p (inl refl)) in
    let at_b : order_at w b ≡ order_at v b =
      ap (λ f. f.order) (above.others b (inr (λ r. omega (arith, le_of_In r))))
      ∙ order_at-set_order v p b _ (λ t. omega arith) in
    let at_s : order_at w (sibling b) ≡ order_at v (sibling b) =
      ap (λ f. f.order)
        (above.others (sibling b) (inr (λ r. omega (arith, le_of_In r, sibling_cases b h))))
      ∙ order_at-set_order v p (sibling b) _ (λ t. omega (arith, sibling_cases b h)) in
    elim (combines w k b h
      (Exact_down n m w (suc k) p (omega arith) (Ascent-Depth v n (suc k) p _ path) x)) [
        | inl whole ↦ wrong.1 (sym at_b ∙ whole)
        | inr right ↦
            wrong.0 (
              rw (← q)
                (sym (order_at-set_order_self v p _) ∙ sym at_p ∙ (rw (at_b, at_s) at right)))
      ]

-- the loop ends inside of the vector, and leaves no exact tree where it meets a tie
pub update_loop-tie :
    (n m : ℕ) (v : Vector) (k b : ℕ) (old : ℤ)
    → k + n ≡ m
    → Ready n v k b old
    → untied n v k b (order_at v b) ≡ false
    → (w : Vector) × (update_loop n v b (pos (suc k)) ≡ some w) × (¬ (Exact w m 0))
unfolding update_loop untied
update_loop-tie zero m v k b old e ready t = cc
update_loop-tie (suc n) m v k zero old e ready t = absurd (omega (arith, ready.path.0))
update_loop-tie (suc n) m v k (suc b) old e ready t =
    elim (Bool-cases (no_tie v k (suc b) (order_at v (suc b)))) [
      | inl now ↦
          let (next, same) = update_step-Ready n v k (suc b) old ready now in
          update_loop-tie n m (update_step v k (suc b)) (suc k) (parent (suc b))
            (order_at v (parent (suc b))) (omega arith) next (same ∙ and_false _ _ now t)
      | inr tie ↦
          let (h, q, s, path) = ready.path in
          let (w, run, above) =
            update_loop-Above n (update_step v k (suc b)) (parent (suc b)) (pos (suc (suc k)))
              (Ascent-Depth v n (suc k) (parent (suc b)) (order_at v (parent (suc b))) path) in
          (w, run, tie-not_Exact n m v w k (suc b) old e ready tie above)
    ]
