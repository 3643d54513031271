-- ===== src/Buddy/Region.antt =====
-- The memory that the blocks of src/emi_shbuf.c stand for, counted in the smallest blocks.
use emilib.Prelude.{
  ℕ, zero, suc, ◌+◌, ◌-◌, ◌*◌, ◌/◌, ◌^◌, ◌≤◌, ◌<◌, ◌≡◌, ◌⊎◌, inl, inr, arith, eq-cases, pow_suc,
  pow_mono, pow_le,
}
use emilib.Buddy.{parent}
use emilib.Buddy.Index.{In, here, up}
use emilib.Buddy.Frame.{Depth}

-- an entry `n` levels under the root stands in row `n`
pub Depth-bounds : (n b : ℕ) → Depth n b → (2 ^ n ≤ b + 1) × (b + 1 < 2 * 2 ^ n)
Depth-bounds zero b d = omega arith
Depth-bounds (suc n) b (h, d) = omega (arith, Depth-bounds n (parent b) d, pow_suc n)

-- the entries of a tree of order `m` have the indices below `2 ^ (m + 1) - 1`
pub Depth-lt : (m n b : ℕ) → n ≤ m → Depth n b → suc b < 2 ^ suc m
Depth-lt m n b h d = omega (arith, Depth-bounds n b d, pow_le n m h, pow_suc m)

-- its place in the row
abbrev pub place : ℕ → ℕ → ℕ
place n b = b + 1 - 2 ^ n

-- where its block starts, in a tree of order `m`
unfoldable pub start : ℕ → ℕ → ℕ → ℕ
start m n b = place n b * 2 ^ (m - n)

-- two stretches of memory, each from its start and of its length, do not meet
abbrev pub Apart : ℕ → ℕ → ℕ → ℕ → Type 0
Apart x s y t = (x + s ≤ y) ⊎ (y + t ≤ x)

pow_pred : (m n : ℕ) → n < m → 2 ^ (m - n) ≡ 2 * 2 ^ (m - suc n)
pow_pred m n h = let e : m - n ≡ suc (m - suc n) = omega arith in rw e (pow_suc (m - suc n))

half_bounds : (j i s : ℕ) → i ≡ j / 2 → (i * (2 * s) ≤ j * s) × (j * s + s ≤ i * (2 * s) + 2 * s)
half_bounds j i s e =
    let split : (j ≡ 2 * i) ⊎ (j ≡ 2 * i + 1) = omega arith in
    elim split [ inl p ↦ rw p (omega arith) | inr p ↦ rw p (omega arith) ]

-- a block lies in that of its parent
start-parent :
    (m n b : ℕ)
    → n < m
    → Depth (suc n) b
    → (start m n (parent b) ≤ start m (suc n) b)
      × (start m (suc n) b + 2 ^ (m - suc n) ≤ start m n (parent b) + 2 ^ (m - n))
unfolding start
start-parent m n b h d = rw (pow_pred m n h) (
    half_bounds (place (suc n) b) (place n (parent b)) (2 ^ (m - suc n))
      (omega (arith, pow_suc n, Depth-bounds (suc n) b d)))

times_mono : (a b s : ℕ) → a < b → a * s + s ≤ b * s
times_mono a b s h = grind arith

-- blocks of one size do not meet
start-Apart :
    (m n b c : ℕ)
    → Depth n b
    → Depth n c
    → ¬ (b ≡ c)
    → Apart (start m n b) (2 ^ (m - n)) (start m n c) (2 ^ (m - n))
unfolding start
start-Apart m n b c d e ne =
    let order : (place n b < place n c) ⊎ (place n c < place n b) =
      omega (arith, Depth-bounds n b d, Depth-bounds n c e) in
    elim order [
      | inl h ↦ inl (times_mono (place n b) (place n c) (2 ^ (m - n)) h)
      | inr h ↦ inr (times_mono (place n c) (place n b) (2 ^ (m - n)) h)
    ]

-- blocks of which the smaller does not lie in the larger do not meet
pub Apart-blocks :
    (l m n b c : ℕ)
    → n ≤ l
    → l ≤ m
    → Depth n b
    → Depth l c
    → ¬ (In b c)
    → Apart (start m n b) (2 ^ (m - n)) (start m l c) (2 ^ (m - l))
Apart-blocks zero m zero b c h k d e out = absurd (out (here (omega arith)))
Apart-blocks zero m (suc n) b c h k d e out = absurd (omega arith)
Apart-blocks (suc l) m n b c h k d (p, e) out = elim (eq-cases n (suc l)) [
  | inl q ↦ rw q (start-Apart m (suc l) b c (rw q at d) (p, e) (λ t. out (here t)))
  | inr q ↦
      let lt : b < c =
        omega (arith, Depth-bounds n b d, Depth-bounds (suc l) c (p, e), pow_mono n (suc l)) in
      let above =
        Apart-blocks l m n b (parent c) (omega arith) (omega arith) d e (λ t. out (up lt t)) in
      omega (arith, start-parent m l c (omega arith) (p, e), above)
]

start_root : (m : ℕ) → start m 0 0 ≡ 0
unfolding start
start_root m = omega arith

-- the blocks lie in the memory of the root
pub start_bounds : (m n b : ℕ) → n ≤ m → Depth n b → start m n b + 2 ^ (m - n) ≤ 2 ^ m
start_bounds m zero b h d =
    let e : m - 0 ≡ m = omega arith in rw (d, e) (omega (arith, start_root m))
start_bounds m (suc n) b h (p, d) =
    omega
      (arith, start-parent m n b (omega arith) (p, d), start_bounds m n (parent b) (omega arith) d)
