-- ===== src/Hlist/Del.antt =====
-- `hlist_del_init` of include/emi_hash.h takes a node out of its chain.
use emilib.Prelude.{
  ℕ, ◌≡◌, refl, ◌⊎◌, inl, inr, true, false, ◌||◌, none, some, List, [], ◌∷◌, arith, ◌==◌,
  if◌then◌else◌, Bool-cases, Option-cases,
}
use emilib.Hlist.{
  Loc, first, next, Hlists, load, hlist_unlink, init_hlist_node, hlist_unhashed, hlist_del_init,
}
use emilib.Hlist.Chain.{has, away, Chain, Chain-frame}

-- the nodes without `a`
abbrev pub erase : ℕ → List ℕ → List ℕ
erase a [] = []
erase a (x ∷ xs) = if x == a then xs else x ∷ erase a xs

pub has-erase : (a b : ℕ) (xs : List ℕ) → has a xs ≡ false → has a (erase b xs) ≡ false
has-erase a b [] h = refl
has-erase a b (x ∷ xs) h = ground (arith, has-erase a b xs)

-- where a node behind `y` stands: a node at hand leads to it, and what follows it is at hand
record Inner (t : Hlists) (y : ℕ) (ys : List ℕ) (x n : ℕ) : Type 0 where
  back : t.pprevs x ≡ some (next n)
  before : ((n == y) || has n ys) ≡ true
  after : (w : ℕ) → t.nexts x ≡ some w → has w ys ≡ true

find-Inner :
    (t : Hlists) (y : ℕ) (ys : List ℕ) (x : ℕ)
    → Chain t (next y) ys
    → has x ys ≡ true
    → (n : ℕ) × Inner t y ys x n
find-Inner t y [] x c h = cc
find-Inner t y (z ∷ []) x (e, q, out, c) h =
    (y, record { back = ground arith; before = ground arith; after = λ w k. ground arith })
find-Inner t y (z ∷ u ∷ us) x (e, q, out, c) h = elim (Bool-cases (x == z)) [
  | inl same ↦
      (y, record { back = ground arith; before = ground arith; after = λ w k. ground (arith, c.0) })
  | inr other ↦
      let (n, i) = find-Inner t z (u ∷ us) x c (ground arith) in
      (
        n,
        record {
          back = i.back;
          before = (let b = i.before in ground arith);
          after = λ w k. ground (arith, i.after w k);
        },
      )
]

-- what `hlist_del_init` does to a node that `l` leads to
abbrev unlinked : Hlists → ℕ → Loc → Hlists
unlinked t n l = init_hlist_node (hlist_unlink t n l) n

hlist_del_init-unlinked :
    (t : Hlists) (n : ℕ) (l : Loc) → t.pprevs n ≡ some l → hlist_del_init t n ≡ unlinked t n l
unfolding hlist_del_init
hlist_del_init-unlinked t n l e = rw (e, hlist_del_init)

unlisted : (t : Hlists) (x : ℕ) → t.pprevs x ≡ none → hlist_del_init t x ≡ t
unfolding hlist_del_init
unlisted t x e = rw (e, hlist_del_init)

-- the first node of a chain goes
unlinked-head :
    (t : Hlists) (l : Loc) (y : ℕ) (ys : List ℕ)
    → away l (y ∷ ys) ≡ true
    → Chain t l (y ∷ ys)
    → Chain (unlinked t y l) l ys
unfolding hlist_unlink init_hlist_node
unlinked-head t (first b) y [] far (e, q, out, c) = ground arith
unlinked-head t (next n) y [] far (e, q, out, c) = ground arith
unlinked-head t (first b) y (z ∷ zs) far (e, q, out, (c, d, o, r)) = (
  ground arith,
  ground arith,
  o,
  Chain-frame t (unlinked t y (first b)) (next z) zs (ground arith)
      (λ a h. (ground arith, ground arith)) r,
)
unlinked-head t (next n) y (z ∷ zs) far (e, q, out, (c, d, o, r)) = (
  ground arith,
  ground arith,
  o,
  Chain-frame t (unlinked t y (next n)) (next z) zs (ground arith)
      (λ a h. (ground arith, ground arith)) r,
)

-- a node in front of the one that goes stays
unlinked-front :
    (t : Hlists) (l : Loc) (y : ℕ) (ys : List ℕ) (x n : ℕ)
    → away l (y ∷ ys) ≡ true
    → Chain t l (y ∷ ys)
    → has x ys ≡ true
    → Inner t y ys x n
    → (load (unlinked t x (next n)) l ≡ some y) × ((unlinked t x (next n)).pprevs y ≡ some l)
unfolding hlist_unlink init_hlist_node
unlinked-front t l y ys x n far (e, q, out, c) h i = elim (Option-cases (t.nexts x)) [
  | inl no_next ↦ at l far e q (inl no_next)
  | inr (w, one) ↦ at l far e q (inr (w, one, i.after w one))
]
  where
    at :
        (l : Loc)
        → away l (y ∷ ys) ≡ true
        → load t l ≡ some y
        → t.pprevs y ≡ some l
        → (t.nexts x ≡ none) ⊎ ((w : ℕ) × (t.nexts x ≡ some w) × (has w ys ≡ true))
        → (load (unlinked t x (next n)) l ≡ some y) × ((unlinked t x (next n)).pprevs y ≡ some l)
    at (first b) far e q u = ground (arith, i.before)
    at (next m) far e q u = ground (arith, i.before)

-- the chain loses the node
pub hlist_del_init-Chain :
    (t : Hlists) (l : Loc) (xs : List ℕ) (x : ℕ)
    → away l xs ≡ true
    → Chain t l xs
    → has x xs ≡ true
    → Chain (hlist_del_init t x) l (erase x xs)
hlist_del_init-Chain t l [] x far c h = cc
hlist_del_init-Chain t l (y ∷ ys) x far c h = elim (Bool-cases (y == x)) [
  | inl same ↦
      let e : y ≡ x = ground arith in
      rw (same, ← e, hlist_del_init-unlinked t y l c.1) (unlinked-head t l y ys far c)
  | inr other ↦
      let behind : has x ys ≡ true = ground arith in
      let (n, i) = find-Inner t y ys x c.3 behind in
      let (a, b) = unlinked-front t l y ys x n far c behind i in
      let rest = hlist_del_init-Chain t (next y) ys x (let o = c.2 in ground arith) c.3 behind in
      let run = hlist_del_init-unlinked t x (next n) i.back in
      rw other (rw run a, rw run b, has-erase y x ys c.2, rest)
]

-- where a node of the chain of bucket `b` stands
record Spot (t : Hlists) (b : ℕ) (xs : List ℕ) (x : ℕ) (l : Loc) : Type 0 where
  back : t.pprevs x ≡ some l
  before : (l ≡ first b) ⊎ ((n : ℕ) × (l ≡ next n) × (has n xs ≡ true))
  after : (w : ℕ) → t.nexts x ≡ some w → has w xs ≡ true

find-Spot :
    (t : Hlists) (b : ℕ) (xs : List ℕ) (x : ℕ)
    → Chain t (first b) xs
    → has x xs ≡ true
    → (l : Loc) × Spot t b xs x l
find-Spot t b [] x c h = cc
find-Spot t b (y ∷ ys) x (e, q, out, c) h = elim (Bool-cases (x == y)) [
  | inl same ↦ (
    first b,
    record { back = ground arith; before = inl refl; after = λ w k. head ys c w (ground arith) },
  )
  | inr other ↦
      let (n, i) = find-Inner t y ys x c (ground arith) in
      (
        next n,
        record {
          back = i.back;
          before = inr (n, refl, i.before);
          after = λ w k. ground (arith, i.after w k);
        },
      )
]
  where
    head :
        (ys : List ℕ)
        → Chain t (next y) ys
        → (w : ℕ) → t.nexts y ≡ some w
        → ((w == y) || has w ys) ≡ true
    head [] c w k = cc
    head (z ∷ zs) c w k = let first_next = c.0 in ground arith

-- the chains of the other buckets stay
pub hlist_del_init-other :
    (t : Hlists) (b c x : ℕ) (xs ys : List ℕ)
    → ¬ (b ≡ c)
    → Chain t (first b) xs
    → has x xs ≡ true
    → ((a : ℕ) → has a ys ≡ true → has a xs ≡ false)
    → Chain t (first c) ys
    → Chain (hlist_del_init t x) (first c) ys
unfolding hlist_unlink init_hlist_node
hlist_del_init-other t b c x xs ys ne p h apart q =
    let (l, i) = find-Spot t b xs x p h in rw (hlist_del_init-unlinked t x l i.back) (at l i)
  where
    at : (l : Loc) → Spot t b xs x l → Chain (unlinked t x l) (first c) ys
    at l i = elim i.before [
      | inl e ↦ rw e (elim (Option-cases (t.nexts x)) [
        | inl u ↦
            Chain-frame t (unlinked t x (first b)) (first c) ys (ground arith)
              (λ a k. (ground (arith, apart a), ground (arith, apart a))) q
        | inr (w, u) ↦
            let m = i.after w u in
            Chain-frame t (unlinked t x (first b)) (first c) ys (ground arith)
              (λ a k. (ground (arith, apart a), ground (arith, apart a))) q
      ])
      | inr (n, e, f) ↦ rw e (elim (Option-cases (t.nexts x)) [
        | inl u ↦
            Chain-frame t (unlinked t x (next n)) (first c) ys (ground arith)
              (λ a k. (ground (arith, apart a), ground (arith, apart a))) q
        | inr (w, u) ↦
            let m = i.after w u in
            Chain-frame t (unlinked t x (next n)) (first c) ys (ground arith)
              (λ a k. (ground (arith, apart a), ground (arith, apart a))) q
      ])
    ]

gone : (t : Hlists) (x : ℕ) → (hlist_del_init t x).pprevs x ≡ none
unfolding init_hlist_node
gone t x = elim (Option-cases (t.pprevs x)) [
  | inl e ↦ rw (unlisted t x e) e
  | inr (l, e) ↦ rw (hlist_del_init-unlinked t x l e) (ground arith)
]

-- a node that was taken out is in no chain, and taking it out again changes nothing
pub hlist_del_init-twice :
    (t : Hlists) (x : ℕ)
    → (hlist_unhashed (hlist_del_init t x) x ≡ true)
      × (hlist_del_init (hlist_del_init t x) x ≡ hlist_del_init t x)
unfolding hlist_unhashed
hlist_del_init-twice t x = (rw (gone t x), unlisted (hlist_del_init t x) x (gone t x))
