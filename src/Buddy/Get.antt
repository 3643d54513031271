-- ===== src/Buddy/Get.antt =====
-- `get_emi_buf` of src/emi_shbuf.c: the block that it finds in an exact tree.
use emilib.Prelude.{
  ℕ, zero, suc, ◌+◌, ◌-◌, ◌≤◌, ◌<◌, ◌≡◌, refl, sym, ◌∙◌, ◌⊎◌, inl, inr, false, arith, Bool-cases,
  some,
}
use emilib.Prelude.Int.{ℤ, pos, negsuc, ltb_ℤ}
use emilib.Buddy.{
  Vector, order_at, parent, son, daughter, sibling, next_child, get_loop, get_emi_buf,
}
use emilib.Buddy.Shape.{
  combine, combine_comm, Below, Exact, block, split, InRange, Exact-InRange, Ascent,
}

-- block `b` of order `k` is free, in a tree of order `m`: it and all under it have their full
-- order, and what stands above it counts it in
pub record Free (v : Vector) (m k b : ℕ) : Type 0 where
  pub whole : order_at v b ≡ pos k
  pub below : Below v k b
  pub path : Ascent v (m - k) k b (pos k)

combine-whole :
    (k : ℕ) (a b : ℤ)
    → InRange k a
    → InRange k b
    → combine k a b ≡ pos (suc k)
    → (a ≡ pos k) × (b ≡ pos k)
unfolding combine
combine-whole k (pos a) (pos b) p q e = ground arith
combine-whole k (pos a) (negsuc b) p q e = ground arith
combine-whole k (negsuc a) (pos b) p q e = ground arith
combine-whole k (negsuc a) (negsuc b) p q e = ground arith

-- an exact entry of full order is wholly free
pub Exact-Below : (v : Vector) (k b : ℕ) → Exact v k b → order_at v b ≡ pos k → Below v k b
Exact-Below v k b (block _ below) e = below
Exact-Below v (suc k) b (split c l r) e =
    let (x, y) =
      combine-whole k (order_at v (son b)) (order_at v (daughter b)) (Exact-InRange l)
        (Exact-InRange r) (sym c ∙ e) in
    (x, Exact-Below v k (son b) l x, y, Exact-Below v k (daughter b) r y)

-- what a descent meets at an entry: it is exact and has enough
record Enough (v : Vector) (order k b : ℕ) : Type 0 where
  exact : Exact v k b
  enough : ltb_ℤ (order_at v b) (pos order) ≡ false

combine-enough :
    (k order : ℕ) (a b : ℤ)
    → order ≤ k
    → ltb_ℤ (combine k a b) (pos order) ≡ false
    → (ltb_ℤ a (pos order) ≡ false) ⊎ (ltb_ℤ b (pos order) ≡ false)
unfolding combine
combine-enough k order (pos a) (pos b) p q = ground arith
combine-enough k order (pos a) (negsuc b) p q = ground arith
combine-enough k order (negsuc a) (pos b) p q = ground arith
combine-enough k order (negsuc a) (negsuc b) p q = ground arith

-- the two children of an entry that is no used block
record Pair (v : Vector) (k b : ℕ) : Type 0 where
  left : Exact v k (son b)
  right : Exact v k (daughter b)
  joined : order_at v b ≡ combine k (order_at v (son b)) (order_at v (daughter b))

open_entry : (v : Vector) (order k b : ℕ) → Enough v order (suc k) b → Pair v k b
unfolding combine
open_entry v order k b h = go h.exact
  where
    go : Exact v (suc k) b → Pair v k b
    go (split c l r) = record { left = l; right = r; joined = c }
    go (block (inl e) (o, l, p, r)) = record {
      left = block (inl o) l;
      right = block (inl p) r;
      joined = rw (e, o, p) (ground arith);
    }
    go (block (inr e) below) = absurd (let q = h.enough in ground (arith))

-- a child of `b` that a descent may take
record Child (v : Vector) (order k b c : ℕ) : Type 0 where
  below : 0 < c
  of : parent c ≡ b
  has : Enough v order k c
  beside : Exact v k (sibling c)
  joined : order_at v (parent c) ≡ combine k (order_at v c) (order_at v (sibling c))

son-Child :
    (v : Vector) (order k b : ℕ)
    → Pair v k b
    → ltb_ℤ (order_at v (son b)) (pos order) ≡ false
    → Child v order k b (son b)
unfolding sibling
son-Child v order k b p e =
    let s : sibling (son b) ≡ daughter b = ground arith in
    let q : parent (son b) ≡ b = omega arith in
    record {
      below = omega arith;
      of = q;
      has = record { exact = p.left; enough = e };
      beside = rw s p.right;
      joined = rw (s, q) p.joined;
    }

daughter-Child :
    (v : Vector) (order k b : ℕ)
    → Pair v k b
    → ltb_ℤ (order_at v (daughter b)) (pos order) ≡ false
    → Child v order k b (daughter b)
unfolding sibling
daughter-Child v order k b p e =
    let s : sibling (daughter b) ≡ son b = ground arith in
    let q : parent (daughter b) ≡ b = omega arith in
    record {
      below = omega arith;
      of = q;
      has = record { exact = p.right; enough = e };
      beside = rw s p.left;
      joined = rw (s, q) (p.joined ∙ combine_comm k _ _);
    }

next_child-Child :
    (v : Vector) (order k b : ℕ)
    → order ≤ k
    → Enough v order (suc k) b
    → Child v order k b (next_child v order b)
unfolding next_child
next_child-Child v order k b le h =
    let p = open_entry v order k b h in
    let some_child =
      combine-enough k order (order_at v (son b)) (order_at v (daughter b)) le
        (rw p.joined at h.enough) in
    elim (Bool-cases (ltb_ℤ (order_at v (son b)) (pos order))) [
      | inl few ↦ rw few (daughter-Child v order k b p (elim some_child [ inl e ↦ cc | inr e ↦ e ]))
      | inr left ↦ elim (Bool-cases (ltb_ℤ (order_at v (daughter b)) (pos order))) [
        | inl few ↦ rw (left, few) (son-Child v order k b p left)
        | inr right ↦ elim (Bool-cases (ltb_ℤ (order_at v (daughter b)) (order_at v (son b)))) [
          | inl lt ↦ rw (left, right, lt) (daughter-Child v order k b p right)
          | inr ge ↦ rw (left, right, ge) (son-Child v order k b p left)
        ]
      ]
    ]

full_order : (k : ℕ) (o : ℤ) → InRange k o → ltb_ℤ o (pos k) ≡ false → o ≡ pos k
full_order k (pos a) p q = ground arith
full_order k (negsuc a) p q = cc

get_loop-Free :
    (n u d k : ℕ) (v : Vector) (order b : ℕ)
    → k ≡ order + n
    → n + u ≡ d
    → Enough v order k b
    → Ascent v u k b (order_at v b)
    → (order_at v (get_loop n v order b) ≡ pos order)
      × Below v order (get_loop n v order b)
      × Ascent v d order (get_loop n v order b) (pos order)
unfolding get_loop
get_loop-Free zero u d k v order b e f h path =
    let e' : order ≡ k = omega arith in
    let f' : d ≡ u = omega arith in
    let full : order_at v b ≡ pos k =
      full_order k (order_at v b) (Exact-InRange h.exact) (rw e' at h.enough) in
    rw (e', f') (full, Exact-Below v k b h.exact full, rw full at path)
get_loop-Free (suc n) u d zero v order b e f h path = absurd (omega arith)
get_loop-Free (suc n) u d (suc k) v order b e f h path =
    let c = next_child v order b in
    let child = next_child-Child v order k b (omega arith) h in
    get_loop-Free n (suc u) d k v order c (omega arith) (omega arith) child.has
      (child.below, child.joined, child.beside, rw child.of path)

-- in an exact tree that has enough, the block found is free and has the order that was asked for
pub get_emi_buf-Free :
    (v : Vector) (m order : ℕ)
    → order ≤ m
    → Exact v m 0
    → ltb_ℤ (order_at v 0) (pos order) ≡ false
    → (b : ℕ) × (get_emi_buf v order m ≡ some b) × Free v m order b
unfolding get_emi_buf
get_emi_buf-Free v m order le x e =
    let (w, l, p) =
      get_loop-Free (m - order) 0 (m - order) m v order 0 (omega arith) (omega arith)
        (record { exact = x; enough = e }) refl in
    (get_loop (m - order) v order 0, rw e, record { whole = w; below = l; path = p })

combine_mono :
    (k order : ℕ) (a b : ℤ)
    → order ≤ k
    → ltb_ℤ a (pos order) ≡ false
    → ltb_ℤ (combine k a b) (pos order) ≡ false
unfolding combine
combine_mono k order (pos a) (pos b) le p = ground arith
combine_mono k order (pos a) (negsuc b) le p = ground arith
combine_mono k order (negsuc a) b le p = cc

-- what stands above an entry that has enough has enough
pub Ascent-enough :
    (n k order : ℕ) (v : Vector) (b : ℕ) (o : ℤ)
    → order ≤ k
    → Ascent v n k b o
    → o ≡ order_at v b
    → ltb_ℤ o (pos order) ≡ false
    → ltb_ℤ (order_at v 0) (pos order) ≡ false
Ascent-enough zero k order v b o le path e h = rw (← path, ← e) h
Ascent-enough (suc n) k order v b o le (p, c, s, path) e h =
    Ascent-enough n (suc k) order v (parent b) (order_at v (parent b)) (omega arith) path refl
      (rw c (combine_mono k order o (order_at v (sibling b)) le h))
