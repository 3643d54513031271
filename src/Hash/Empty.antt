-- ===== src/Hash/Empty.antt =====
-- `hash_empty` of include/emi_hash.h: whether a message is registered at all.
use emilib.Prelude.{
  ℕ, zero, suc, ◌+◌, ◌≤◌, ◌<◌, ◌≡◌, refl, arith, inl, inr, Bool, true, false, List, [], ◌∷◌,
  if◌then◌else◌, eq-cases, Bool-cases,
}
use emilib.Hlist.{first, Hlists, hlist_empty}
use mathlib.Core.Path.{subst}
use emilib.Hlist.Chain.{Chain}
use emilib.Hash.{MsgTable, emi_msg_table_size}
use emilib.Hash.Table.{Entries, IsTable}

-- the loop of `__hash_empty` from bucket `i` on, by the rounds that are left
unfoldable pub hash_empty_loop : ℕ → ℕ → Hlists → Bool
hash_empty_loop zero i h = true
hash_empty_loop (suc n) i h =
    let rest = hash_empty_loop n (i + 1) h in if hlist_empty h i then rest else false

unfoldable pub hash_empty : Hlists → Bool
unfolding hash_empty_loop
hash_empty h = hash_empty_loop emi_msg_table_size 0 h

hash_empty_loop_sound :
    (n i : ℕ) (h : Hlists) (b : ℕ)
    → hash_empty_loop n i h ≡ true
    → i ≤ b
    → b < i + n
    → hlist_empty h b ≡ true
unfolding hash_empty_loop
hash_empty_loop_sound zero i h b e l u = absurd (omega arith)
hash_empty_loop_sound (suc n) i h b e l u = elim (Bool-cases (hlist_empty h i)) [
  | inl q ↦ elim (eq-cases i b) [
    | inl same ↦ ground arith
    | inr ne ↦ hash_empty_loop_sound n (i + 1) h b (rw q at e) (omega arith) (omega arith)
  ]
  | inr q ↦ absurd (let w : false ≡ true = rw q at e in cc)
]

hash_empty_loop_complete :
    (n i : ℕ) (h : Hlists)
    → ((b : ℕ) → i ≤ b → b < i + n → hlist_empty h b ≡ true)
    → hash_empty_loop n i h ≡ true
unfolding hash_empty_loop
hash_empty_loop_complete zero i h k = refl
hash_empty_loop_complete (suc n) i h k =
    rw (k i (omega arith) (omega arith))
      (hash_empty_loop_complete n (i + 1) h (λ b l u. k b (omega arith) (omega arith)))

no_entries :
    (t : Hlists) (b : ℕ) (xs : List ℕ) → Chain t (first b) xs → hlist_empty t b ≡ true → xs ≡ []
unfolding hlist_empty
no_entries t b [] c e = refl
no_entries t b (x ∷ xs) (f, back, out, c) e = absurd (ground arith)

-- the table is empty if and only if no bucket has an entry
pub hash_empty_iff :
    (t : MsgTable) (f : Entries)
    → IsTable t f
    → (hash_empty t.lists ≡ true → (b : ℕ) → b < emi_msg_table_size → f b ≡ [])
      × (((b : ℕ) → b < emi_msg_table_size → f b ≡ []) → hash_empty t.lists ≡ true)
unfolding hash_empty hlist_empty
hash_empty_iff t f is = (
  λ e b h.
      no_entries t.lists b (f b) (is.chains b h)
        (hash_empty_loop_sound emi_msg_table_size 0 t.lists b e (omega arith) (omega arith)),
  λ k. hash_empty_loop_complete emi_msg_table_size 0 t.lists (λ b l u.
      let c : Chain t.lists (first b) [] =
        subst (Chain t.lists (first b)) (k b (omega arith)) (is.chains b (omega arith)) in
      ground arith),
)
