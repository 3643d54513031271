-- ===== src/Buddy/Init.antt =====
-- `__init_emi_buf` of src/emi_shbuf.c: the vector that it leaves.
use emilib.Prelude.{
  ℕ, zero, suc, ◌+◌, ◌-◌, ◌*◌, ◌^◌, ◌≤◌, ◌<◌, ◌≡◌, refl, ap, ◌∙◌, ◌⊎◌, inl, inr, arith, eq-cases,
  pow_suc, pow_pos, pow_mono,
}
use emilib.Prelude.Int.{pos}
use emilib.Buddy.{
  Vector, EmiBuf, order_at, write, son, daughter, init_row, init_rows, init_emi_buf,
  left_most_offspring,
}
use emilib.Buddy.Shape.{Below, Exact, block}

-- the entry at place `j` of row `i`
abbrev pub at_row : ℕ → ℕ → ℕ
at_row i j = left_most_offspring (2 ^ i) + j

-- what that entry is to hold, in a tree of order `m`
abbrev pub row_entry : ℕ → ℕ → ℕ → EmiBuf
row_entry m i j = record { blk_offset = j * 2 ^ (m - i); order = pos (m - i) }

-- the rows of a tree do not overlap
at_row-lt : (i j l p : ℕ) → i < l → j < 2 ^ i → at_row i j < at_row l p
at_row-lt i j l p h k = omega (arith, pow_mono i l h, pow_pos i)

write_self : (v : Vector) (i : ℕ) (e : EmiBuf) → write v i e i ≡ e
write_self v i e = ground arith

write_other : (v : Vector) (i j : ℕ) (e : EmiBuf) → ¬ (i ≡ j) → write v i e j ≡ v j
write_other v i j e n = ground arith

-- the inner loop writes no other place
init_row-out :
    (n j i m : ℕ) (v : Vector) (q : ℕ)
    → (q < at_row i j) ⊎ (at_row i (j + n) ≤ q)
    → init_row n j i m v q ≡ v q
unfolding init_row
init_row-out zero j i m v q h = refl
init_row-out (suc n) j i m v q h =
    init_row-out n (j + 1) i m _ q (omega arith) ∙ write_other v (at_row i j) q _ (omega arith)

-- the inner loop writes its places of the row
init_row-in :
    (n j i m : ℕ) (v : Vector) (p : ℕ)
    → j ≤ p
    → p < j + n
    → init_row n j i m v (at_row i p) ≡ row_entry m i p
unfolding init_row
init_row-in zero j i m v p h k = absurd (omega arith)
init_row-in (suc n) j i m v p h k = elim (eq-cases j p) [
  | inl e ↦
      init_row-out n (j + 1) i m _ (at_row i p) (omega arith) ∙ (rw e (write_self v (at_row i p) _))
  | inr d ↦ init_row-in n (j + 1) i m _ p (omega arith) (omega arith)
]

init_rows-out : (n i m : ℕ) (v : Vector) (q : ℕ) → q < at_row i 0 → init_rows n i m v q ≡ v q
unfolding init_rows
init_rows-out zero i m v q h = refl
init_rows-out (suc n) i m v q h =
    init_rows-out n (i + 1) m _ q (omega (arith, pow_mono i (i + 1)))
    ∙ init_row-out (2 ^ i) 0 i m v q (inl h)

init_rows-in :
    (n i m : ℕ) (v : Vector) (l p : ℕ)
    → i ≤ l
    → l < i + n
    → p < 2 ^ l
    → init_rows n i m v (at_row l p) ≡ row_entry m l p
unfolding init_rows
init_rows-in zero i m v l p h k r = absurd (omega arith)
init_rows-in (suc n) i m v l p h k r = elim (eq-cases i l) [
  | inl e ↦
      init_rows-out n (i + 1) m _ (at_row l p) (at_row-lt l p (i + 1) 0 (omega arith) r)
      ∙ (rw e (init_row-in (2 ^ l) 0 l m v p (omega arith) (omega arith)))
  | inr d ↦ init_rows-in n (i + 1) m _ l p (omega arith) (omega arith) r
]

-- the offset that each block of a tree of order `m` has
abbrev pub Offsets : Vector → ℕ → Type 0
Offsets v m = (i j : ℕ) → i ≤ m → j < 2 ^ i → (v (at_row i j)).blk_offset ≡ j * 2 ^ (m - i)

-- each entry of a tree of order `m` holds the order and the offset of its block
abbrev pub Rows : Vector → ℕ → Type 0
Rows v m = (i j : ℕ) → i ≤ m → j < 2 ^ i → v (at_row i j) ≡ row_entry m i j

Rows-Below : (k i j m : ℕ) (v : Vector) → k + i ≡ m → Rows v m → j < 2 ^ i → Below v k (at_row i j)
Rows-Below zero i j m v e rows h = tt
Rows-Below (suc k) i j m v e rows h =
    let up = pow_suc i in
    let pos_i = pow_pos i in
    let s : son (at_row i j) ≡ at_row (suc i) (2 * j) = omega arith in
    let d : daughter (at_row i j) ≡ at_row (suc i) (2 * j + 1) = omega arith in
    rw (s, d)
      (
        level (rows (suc i) (2 * j) (omega arith) (omega arith)),
        Rows-Below k (suc i) (2 * j) m v (omega arith) rows (omega arith),
        level (rows (suc i) (2 * j + 1) (omega arith) (omega arith)),
        Rows-Below k (suc i) (2 * j + 1) m v (omega arith) rows (omega arith),
      )
  where
    level :
        {b : EmiBuf} {o : ℕ}
        → b ≡ record { blk_offset = o; order = pos (m - suc i) }
        → b.order ≡ pos k
    level q = ap (λ (x : EmiBuf). x.order) q ∙ ap pos (omega arith)

-- whatever the memory held, the tree that `__init_emi_buf` leaves is one free block, with every
-- block at its place
pub init_emi_buf-Rows : (m : ℕ) (v : Vector) → Rows (init_emi_buf m v) m
unfolding init_emi_buf
init_emi_buf-Rows m v i j h k = init_rows-in (m + 1) 0 m v i j (omega arith) (omega arith) k

pub Rows-Exact :
    (m : ℕ) (v : Vector) → Rows v m → Exact v m 0 × (order_at v 0 ≡ pos m) × Offsets v m
Rows-Exact m v rows =
    let top : order_at v 0 ≡ pos m =
      ap (λ (x : EmiBuf). x.order) (rows 0 0 (omega arith) (omega arith)) ∙ ap pos (omega arith) in
    (
      block (inl top) (Rows-Below m 0 0 m v (omega arith) rows (omega arith)),
      top,
      λ i j h k. ap (λ (x : EmiBuf). x.blk_offset) (rows i j h k),
    )
