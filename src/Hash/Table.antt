-- ===== src/Hash/Table.antt =====
-- What the table of src/emi_hash.c holds, and that every operation keeps it so.
use emilib.Prelude.{
  ℕ, zero, suc, ◌+◌, ◌≤◌, ◌<◌, ◌≡◌, refl, sym, ap, ◌∙◌, ◌⊎◌, inl, inr, true, false, ◌||◌, none,
  List, [], ◌∷◌, arith, ◌==◌, Bool-cases, eq-cases,
}
use mathlib.Core.Path.{subst}
use emilib.Hlist.{
  update_self, update_other, Hlists, first, update, init_hlist_head, hlist_add_head, hlist_del_init,
}
use emilib.Hlist.Chain.{has, Chain}
use emilib.Hlist.Add.{hlist_add_head-Chain, hlist_add_head-other}
use emilib.Hlist.Del.{erase, hlist_del_init-Chain, hlist_del_init-other}
use emilib.Hash.{
  hash32, MsgTable, emi_hinsert, emi_hdelete, init_heads, init_msg_table, emi_msg_table_size,
}

-- the entries of each bucket, in order
abbrev pub Entries : Type 0
Entries = ℕ → List ℕ

-- each bucket of the table chains its entries, and an entry stands in the bucket of its message
pub record IsTable (t : MsgTable) (f : Entries) : Type 0 where
  pub chains : (b : ℕ) → b < emi_msg_table_size → Chain t.lists (first b) (f b)
  pub homes : (b a : ℕ) → b < emi_msg_table_size → has a (f b) ≡ true → hash32 (t.msg a) ≡ b

-- every message has a bucket of the table
pub hash32-lt : (k : ℕ) → hash32 k < emi_msg_table_size
unfolding hash32
hash32-lt k = omega arith

-- buckets have no entry in common
apart :
    (t : MsgTable) (f : Entries)
    → IsTable t f
    → (b c : ℕ) → b < emi_msg_table_size
    → c < emi_msg_table_size
    → ¬ (b ≡ c)
    → (a : ℕ) → has a (f c) ≡ true
    → has a (f b) ≡ false
apart t f is b c hb hc ne a h = elim (Bool-cases (has a (f b))) [
  | inl m ↦ absurd (ne (sym (is.homes b a hb m) ∙ is.homes c a hc h))
  | inr m ↦ m
]

init_heads-first :
    (n i : ℕ) (h : Hlists) (b : ℕ)
    → ((i ≤ b) × (b < i + n)) ⊎ (h.firsts b ≡ none)
    → (init_heads n i h).firsts b ≡ none
unfolding init_heads init_hlist_head
init_heads-first zero i h b k = ground arith
init_heads-first (suc n) i h b k =
    init_heads-first n (i + 1) (init_hlist_head h i) b
      (elim (eq-cases i b) [ inl e ↦ inr (ground arith) | inr ne ↦ ground arith ])

-- `init_msg_table_lock` leaves the empty table
pub init_msg_table-IsTable : (t : MsgTable) → IsTable (init_msg_table t) (λ b. [])
unfolding init_msg_table
init_msg_table-IsTable t = record {
  chains = λ b h. init_heads-first emi_msg_table_size 0 t.lists b (inl (omega arith, omega arith));
  homes = λ b a h m. cc;
}

-- the chains after a change of bucket `b` to `xs`
module _ (u : Hlists) (f : Entries) (b : ℕ) (xs : List ℕ) where
  changed-Chain :
      Chain u (first b) xs
      → ((c : ℕ) → c < emi_msg_table_size → ¬ (b ≡ c) → Chain u (first c) (f c))
      → (c : ℕ) → c < emi_msg_table_size
      → Chain u (first c) (update f b xs c)
  changed-Chain here others c h = elim (eq-cases b c) [
    | inl e ↦
        subst (λ d. Chain u (first d) (update f b xs d)) e
          (subst (Chain u (first b)) (sym (update_self f b xs)) here)
    | inr n ↦ subst (Chain u (first c)) (sym (update_other f b c xs n)) (others c h n)
  ]

  changed-homes :
      (hash_of : ℕ → ℕ)
      → ((a : ℕ) → has a xs ≡ true → hash_of a ≡ b)
      → ((c a : ℕ) → c < emi_msg_table_size → has a (f c) ≡ true → hash_of a ≡ c)
      → (c a : ℕ) → c < emi_msg_table_size
      → has a (update f b xs c) ≡ true
      → hash_of a ≡ c
  changed-homes hash_of here others c a h m = elim (eq-cases b c) [
    | inl e ↦
        here a
          (subst (λ z. has a z ≡ true) (ap (λ d. update f b xs d) (sym e) ∙ update_self f b xs) m)
        ∙ e
    | inr n ↦ others c a h (subst (λ z. has a z ≡ true) (update_other f b c xs n) m)
  ]

-- an insertion puts a new entry before those of its bucket
pub emi_hinsert-IsTable :
    (t : MsgTable) (f : Entries) (p : ℕ)
    → IsTable t f
    → ((b : ℕ) → b < emi_msg_table_size → has p (f b) ≡ false)
    → let b = hash32 (t.msg p) in IsTable (emi_hinsert t p) (update f b (p ∷ f b))
unfolding emi_hinsert
emi_hinsert-IsTable t f p is new =
    let b = hash32 (t.msg p) in
    let hb = hash32-lt (t.msg p) in
    let u = hlist_add_head t.lists p b in
    record {
      chains =
          changed-Chain u f b (p ∷ f b)
            (hlist_add_head-Chain t.lists p b (f b) (new b hb) (is.chains b hb))
            (λ c hc n.
              hlist_add_head-other t.lists p b c (f b) (f c) n (is.chains b hb) (new c hc)
                (apart t f is b c hb hc n) (is.chains c hc));
      homes =
          changed-homes u f b (p ∷ f b) (λ a. hash32 (t.msg a))
            (λ a m. head_home a b m (is.homes b a hb) refl) is.homes;
    }
  where
    head_home :
        (a b : ℕ)
        → ((a == p) || has a (f b)) ≡ true
        → (has a (f b) ≡ true → hash32 (t.msg a) ≡ b)
        → b ≡ hash32 (t.msg p)
        → hash32 (t.msg a) ≡ b
    head_home a b m h e = elim (eq-cases a p) [
      | inl q ↦ ap (λ x. hash32 (t.msg x)) q ∙ sym e
      | inr n ↦ h (ground arith)
    ]

has_of-erase : (a p : ℕ) (xs : List ℕ) → has a (erase p xs) ≡ true → has a xs ≡ true
has_of-erase a p [] h = h
has_of-erase a p (x ∷ xs) h = ground (arith, has_of-erase a p xs)

-- a deletion takes the entry out of its bucket
pub emi_hdelete-IsTable :
    (t : MsgTable) (f : Entries) (b p : ℕ)
    → IsTable t f
    → b < emi_msg_table_size
    → has p (f b) ≡ true
    → IsTable (emi_hdelete t p) (update f b (erase p (f b)))
unfolding emi_hdelete
emi_hdelete-IsTable t f b p is hb m =
    let u = hlist_del_init t.lists p in
    record {
      chains =
          changed-Chain u f b (erase p (f b))
            (hlist_del_init-Chain t.lists (first b) (f b) p refl (is.chains b hb) m)
            (λ c hc n.
              hlist_del_init-other t.lists b c p (f b) (f c) n (is.chains b hb) m
                (apart t f is b c hb hc n) (is.chains c hc));
      homes =
          changed-homes u f b (erase p (f b)) (λ a. hash32 (t.msg a))
            (λ a h. is.homes b a hb (has_of-erase a p (f b) h)) is.homes;
    }
