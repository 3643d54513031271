-- ===== src/Hash/Search.antt =====
-- The walks along the chains of src/emi_hash.c that count the receivers of a message.
use emilib.Prelude.{
  ℕ, zero, suc, ◌+◌, ◌≤◌, ◌<◌, ◌≡◌, refl, sym, ap, ◌∙◌, ◌⊎◌, inl, inr, true, some, List, [], ◌∷◌,
  arith, ◌==◌, if◌then◌else◌, eq-cases, length,
}
use emilib.Hlist.{Loc, first, next, load}
use emilib.Hlist.Chain.{has, Chain}
use emilib.Hash.{hash32, MsgTable, emi_msg_table_size, count_receivers}
use emilib.Hash.Table.{Entries, IsTable, hash32-lt}

-- how many of the entries are registered for the message
abbrev pub receivers : MsgTable → ℕ → List ℕ → ℕ
receivers t msg [] = 0
receivers t msg (x ∷ xs) = (if t.msg x == msg then 1 else 0) + receivers t msg xs

pub count_receivers-walk :
    (n : ℕ) (t : MsgTable) (l : Loc) (xs : List ℕ) (msg count : ℕ)
    → Chain t.lists l xs
    → length xs < n
    → count_receivers n t (load t.lists l) msg count ≡ some (count + receivers t msg xs)
unfolding count_receivers
count_receivers-walk zero t l xs msg count c h = absurd (omega arith)
count_receivers-walk (suc n) t l [] msg count c h = rw (c, count_receivers) (ground arith)
count_receivers-walk (suc n) t l (x ∷ xs) msg count (e, q, o, c) h =
    let k = if t.msg x == msg then count + 1 else count in
    let rest = count_receivers-walk n t (next x) xs msg k c (omega arith) in
    rw (e, count_receivers, rest) (ground arith)

none_elsewhere :
    (t : MsgTable) (msg b : ℕ) (xs ys : List ℕ)
    → ((a : ℕ) → has a ys ≡ true → hash32 (t.msg a) ≡ b)
    → ((a : ℕ) → has a xs ≡ true → has a ys ≡ true)
    → ¬ (hash32 msg ≡ b)
    → receivers t msg xs ≡ 0
none_elsewhere t msg b [] ys h sub n = refl
none_elsewhere t msg b (x ∷ xs) ys h sub n =
    let rest = none_elsewhere t msg b xs ys h (λ a m. sub a (ground arith)) n in
    let here : hash32 (t.msg x) ≡ b = h x (sub x (ground arith)) in
    elim (eq-cases (t.msg x) msg) [
      | inl e ↦ absurd (n (ap hash32 (sym e) ∙ here))
      | inr d ↦ ground arith
    ]

-- the receivers of a message in the buckets below `n`
abbrev pub all_receivers : MsgTable → Entries → ℕ → ℕ → ℕ
all_receivers t f msg zero = 0
all_receivers t f msg (suc n) = receivers t msg (f n) + all_receivers t f msg n

total :
    (t : MsgTable) (f : Entries) (msg n : ℕ)
    → IsTable t f
    → n ≤ emi_msg_table_size
    → ((hash32 msg < n) × (all_receivers t f msg n ≡ receivers t msg (f (hash32 msg))))
      ⊎ ((n ≤ hash32 msg) × (all_receivers t f msg n ≡ 0))
total t f msg zero is h = inr (omega arith, refl)
total t f msg (suc n) is h = elim (eq-cases (hash32 msg) n) [
  | inl e ↦ inl (omega arith, rw e (omega (arith, total t f msg n is (omega arith))))
  | inr d ↦
      let zero_here =
        none_elsewhere t msg n (f n) (f n) (λ a. is.homes n a (omega arith)) (λ a m. m) d in
      omega (arith, zero_here, total t f msg n is (omega arith))
]

-- the walk along the bucket of a message counts all entries of the table that are registered for it
pub count_receivers-all :
    (fuel : ℕ) (t : MsgTable) (f : Entries) (msg count : ℕ)
    → IsTable t f
    → length (f (hash32 msg)) < fuel
    → count_receivers fuel t (load t.lists (first (hash32 msg))) msg count
      ≡ some (count + all_receivers t f msg emi_msg_table_size)
count_receivers-all fuel t f msg count is h =
    let lt = hash32-lt msg in
    let all : all_receivers t f msg emi_msg_table_size ≡ receivers t msg (f (hash32 msg)) =
      omega (arith, total t f msg emi_msg_table_size is (omega arith)) in
    rw all (
      count_receivers-walk fuel t (first (hash32 msg)) (f (hash32 msg)) msg count
        (is.chains (hash32 msg) lt) h)
