-- ===== src/Hlist/Add.antt =====
-- `hlist_add_head` of include/emi_hash.h puts a node before a chain.
use emilib.Prelude.{ℕ, ◌≡◌, true, false, List, [], ◌∷◌, arith}
use emilib.Hlist.{first, next, Hlists, hlist_add_head}
use emilib.Hlist.Chain.{has, Chain, Chain-frame}

-- the bucket's chain has one more node
pub hlist_add_head-Chain :
    (t : Hlists) (n b : ℕ) (xs : List ℕ)
    → has n xs ≡ false
    → Chain t (first b) xs
    → Chain (hlist_add_head t n b) (first b) (n ∷ xs)
unfolding hlist_add_head
hlist_add_head-Chain t n b [] out c = (ground arith, ground arith, out, ground arith)
hlist_add_head-Chain t n b (x ∷ xs) out (p, q, d, c) = (
  ground arith,
  ground arith,
  out,
  (
    ground arith,
    ground arith,
    d,
    Chain-frame t (hlist_add_head t n b) (next x) xs (ground arith)
        (λ a h. (ground arith, ground arith)) c,
  ),
)

-- the chains of the other buckets stay
pub hlist_add_head-other :
    (t : Hlists) (n b c : ℕ) (xs ys : List ℕ)
    → ¬ (b ≡ c)
    → Chain t (first b) xs
    → has n ys ≡ false
    → ((a : ℕ) → has a ys ≡ true → has a xs ≡ false)
    → Chain t (first c) ys
    → Chain (hlist_add_head t n b) (first c) ys
unfolding hlist_add_head
hlist_add_head-other t n b c [] ys ne p out apart q =
    Chain-frame t (hlist_add_head t n b) (first c) ys (ground arith)
      (λ a h. (ground arith, ground arith)) q
hlist_add_head-other t n b c (x ∷ xs) ys ne (p, _, _, _) out apart q =
    Chain-frame t (hlist_add_head t n b) (first c) ys (ground arith)
      (λ a h. (ground (arith, apart a), ground (arith, apart a))) q
