-- ===== src/Hash/Insert.antt =====
-- `emi_hinsert_unique_lock` of src/emi_hash.c: which entries it refuses.
use emilib.Prelude.{
  ℕ, zero, suc, ◌<◌, ◌≡◌, sym, ap, ◌∙◌, inl, inr, Bool, true, false, ◌||◌, not, some, List, [], ◌∷◌,
  arith, ◌==◌, Bool-cases, eq-cases, length,
}
use emilib.Hlist.{Loc, first, next, load, update, update_self, update_other}
use emilib.Hlist.Chain.{has, Chain}
use emilib.Hash.{
  hash32, MsgTable, emi_msg_table_size, emi_hinsert, find_pid, emi_hinsert_unique_lock,
}
use emilib.Hash.Table.{Entries, IsTable, hash32-lt, emi_hinsert-IsTable}

-- whether one of the entries has the pid
abbrev pub taken : MsgTable → ℕ → List ℕ → Bool
taken t pid [] = false
taken t pid (x ∷ xs) = (t.pid x == pid) || taken t pid xs

-- the walk reads the chain to the first entry with the pid, and ends
find_pid-taken :
    (n : ℕ) (t : MsgTable) (l : Loc) (xs : List ℕ) (pid : ℕ)
    → Chain t.lists l xs
    → length xs < n
    → find_pid n t (load t.lists l) pid ≡ some (taken t pid xs)
unfolding find_pid
find_pid-taken zero t l xs pid c h = absurd (omega arith)
find_pid-taken (suc n) t l [] pid c h = rw (c, find_pid)
find_pid-taken (suc n) t l (x ∷ xs) pid (e, q, o, c) h =
    let rest = find_pid-taken n t (next x) xs pid c (omega arith) in
    rw (e, find_pid, rest) (ground arith)

-- no bucket has two entries of one process
pub record HasUniquePids (t : MsgTable) (f : Entries) : Type 0 where
  pub unique :
      (b a c : ℕ)
      → b < emi_msg_table_size
      → has a (f b) ≡ true
      → has c (f b) ≡ true
      → t.pid a ≡ t.pid c
      → a ≡ c

not_taken :
    (t : MsgTable) (pid a : ℕ) (xs : List ℕ)
    → taken t pid xs ≡ false
    → has a xs ≡ true
    → ¬ (t.pid a ≡ pid)
not_taken t pid a [] h m e = cc
not_taken t pid a (x ∷ xs) h m e = ground (arith, not_taken t pid a xs)

-- the table and its entries after an insertion that is refused if `b` holds
abbrev pub entries_after : Bool → MsgTable → Entries → ℕ → Entries
entries_after true t f p = f
entries_after false t f p = update f (hash32 (t.msg p)) (p ∷ f (hash32 (t.msg p)))

abbrev pub table_after : Bool → MsgTable → ℕ → MsgTable
table_after true t p = t
table_after false t p = emi_hinsert t p

insert_unique :
    (t : MsgTable) (f : Entries) (p : ℕ)
    → HasUniquePids t f
    → taken t (t.pid p) (f (hash32 (t.msg p))) ≡ false
    → HasUniquePids (emi_hinsert t p) (entries_after false t f p)
unfolding emi_hinsert
insert_unique t f p u free = record {
  unique = λ c x y hc mx my q. elim (eq-cases b c) [
    | inl e ↦
        let same : update f b (p ∷ f b) c ≡ p ∷ f b =
          ap (update f b (p ∷ f b)) (sym e) ∙ update_self f b (p ∷ f b) in
        front x y (hash32-lt (t.msg p)) (rw same at mx) (rw same at my) q
    | inr n ↦
        let same : update f b (p ∷ f b) c ≡ f c = update_other f b c (p ∷ f b) n in
        u.unique c x y hc (rw same at mx) (rw same at my) q
  ];
}
  where
    b : ℕ
    b = hash32 (t.msg p)

    front :
        (x y : ℕ)
        → b < emi_msg_table_size
        → has x (p ∷ f b) ≡ true
        → has y (p ∷ f b) ≡ true
        → t.pid x ≡ t.pid y
        → x ≡ y
    front x y hb mx my q = ground (
      arith,
      u.unique b x y hb,
      not_taken t (t.pid p) x (f b) free,
      not_taken t (t.pid p) y (f b) free,
    )

-- with fuel for the chain the insertion ends: it is refused, and nothing changes, if the bucket has
-- an entry of the process, whatever that entry's message is; else the entry is put into the table
pub emi_hinsert_unique_lock_lem :
    (fuel : ℕ) (t : MsgTable) (f : Entries) (p : ℕ)
    → IsTable t f
    → HasUniquePids t f
    → ((b : ℕ) → b < emi_msg_table_size → has p (f b) ≡ false)
    → length (f (hash32 (t.msg p))) < fuel
    → let refused = taken t (t.pid p) (f (hash32 (t.msg p))) in
      (emi_hinsert_unique_lock fuel t p ≡ some (not refused, table_after refused t p))
      × IsTable (table_after refused t p) (entries_after refused t f p)
      × HasUniquePids (table_after refused t p) (entries_after refused t f p)
unfolding emi_hinsert_unique_lock
emi_hinsert_unique_lock_lem fuel t f p is u new h =
    let b = hash32 (t.msg p) in
    let found =
      find_pid-taken fuel t (first b) (f b) (t.pid p) (is.chains b (hash32-lt (t.msg p))) h in
    elim (Bool-cases (taken t (t.pid p) (f b))) [
      | inl e ↦ rw e (rw (found, emi_hinsert_unique_lock, e), is, u)
      | inr e ↦ rw e (
        rw (found, emi_hinsert_unique_lock, e),
        emi_hinsert-IsTable t f p is new,
        insert_unique t f p u e,
      )
    ]
