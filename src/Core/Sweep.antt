-- ===== src/Core/Sweep.antt =====
-- The pass of `emi_receive_operation` that takes out the receivers that are gone.
use emilib.Prelude.{
  head, append_assoc, ℕ, zero, suc, ◌+◌, ◌-◌, ◌≤◌, ◌<◌, ◌^◌, ◌≡◌, refl, sym, ap, ◌∙◌, inl, inr,
  Bool, true, false, ◌&&◌, not, some, List, [], ◌∷◌, ◌++◌, arith, ◌==◌, if◌then◌else◌, eq-cases,
  Bool-cases, length,
}
use mathlib.Core.Path.{subst}
use emilib.Hlist.{Hlists, Loc, first, next, load, update, update_self, update_other}
use emilib.Hlist.Chain.{has, Chain}
use emilib.Hlist.Del.{erase}
use emilib.Hash.{hash32, MsgTable, emi_hdelete, free_msg_map}
use emilib.Hash.Table.{Entries, IsTable, hash32-lt, emi_hdelete-IsTable}
use emilib.Core.{Wait, dec, sweep_entry, sweep}

-- whether the entry is registered for the message by a process that is gone
abbrev pub is_gone : (ℕ → Bool) → MsgTable → ℕ → ℕ → Bool
is_gone alive t msg x = (t.msg x == msg) && not (alive (t.pid x))

abbrev pub staying : (ℕ → Bool) → List ℕ → List ℕ
staying out [] = []
staying out (x ∷ xs) = if out x then staying out xs else x ∷ staying out xs

abbrev pub gone : (ℕ → Bool) → List ℕ → ℕ
gone out [] = 0
gone out (x ∷ xs) = (if out x then 1 else 0) + gone out xs

pub load-head : (t : Hlists) (l : Loc) (xs : List ℕ) → Chain t l xs → load t l ≡ head xs
load-head t l [] c = c
load-head t l (x ∷ xs) (e, q, o, c) = e

nexts_middle :
    (t : Hlists) (l : Loc) (ys : List ℕ) (x : ℕ) (zs : List ℕ)
    → Chain t l (ys ++ (x ∷ zs))
    → t.nexts x ≡ head zs
nexts_middle t l [] x zs (e, q, o, c) = load-head t (next x) zs c
nexts_middle t l (y ∷ ys) x zs (e, q, o, c) = nexts_middle t (next y) ys x zs c

has_middle : (ys : List ℕ) (x : ℕ) (zs : List ℕ) → has x (ys ++ (x ∷ zs)) ≡ true
has_middle [] x zs = ground arith
has_middle (y ∷ ys) x zs = ground (arith, has_middle ys x zs)

erase_middle :
    (t : Hlists) (l : Loc) (ys : List ℕ) (x : ℕ) (zs : List ℕ)
    → Chain t l (ys ++ (x ∷ zs))
    → erase x (ys ++ (x ∷ zs)) ≡ ys ++ zs
erase_middle t l [] x zs c = ground arith
erase_middle t l (y ∷ ys) x zs (e, q, o, c) =
    let rest = erase_middle t (next y) ys x zs c in
    let here = has_middle ys x zs in
    elim (eq-cases y x) [
      | inl same ↦
          absurd (
            let p : true ≡ false = sym here ∙ ap (λ z. has z (ys ++ (x ∷ zs))) (sym same) ∙ o in cc)
      | inr n ↦ ground (arith, rest)
    ]

-- the pass from the state `w` ended in `u`: bucket `b`, from which the pass had yet to look at
-- `zs`, keeps of these the ones that stay
pub record Swept (b : ℕ) (out : ℕ → Bool) (f : Entries) (w : Wait) (ys zs : List ℕ) (u : Wait)
    : Type 0 where
  pub entries : Entries
  pub is : IsTable u.table entries
  pub bucket : entries b ≡ ys ++ staying out zs
  pub others : (c : ℕ) → ¬ (b ≡ c) → entries c ≡ f c
  pub counted : u.count ≡ w.count - gone out zs
  pub left : u.receivers ≡ w.receivers - gone out zs
  pub flag : u.flag ≡ w.flag
  pub msg : u.table.msg ≡ w.table.msg
  pub pid : u.table.pid ≡ w.table.pid

-- the state after an entry was taken out
abbrev without : Wait → ℕ → Wait
without w x = record w {
  table = emi_hdelete w.table x;
  count = dec w.count;
  receivers = dec w.receivers;
}

sweep_entry-without :
    (alive : ℕ → Bool) (w : Wait) (msg x : ℕ)
    → is_gone alive w.table msg x ≡ true
    → sweep_entry alive w msg x ≡ without w x
unfolding sweep_entry free_msg_map
sweep_entry-without alive w msg x e = rw (sweep_entry, e) refl

sweep_entry-same :
    (alive : ℕ → Bool) (w : Wait) (msg x : ℕ)
    → is_gone alive w.table msg x ≡ false
    → sweep_entry alive w msg x ≡ w
unfolding sweep_entry
sweep_entry-same alive w msg x e = rw (sweep_entry, e) refl

sweep-Swept_of :
    (n : ℕ) (alive : ℕ → Bool) (w : Wait) (msg : ℕ) (f : Entries) (ys zs : List ℕ)
    → let out = is_gone alive w.table msg in
      IsTable w.table f
      → f (hash32 msg) ≡ ys ++ zs
      → w.count < 2 ^ 32
      → w.receivers < 2 ^ 32
      → gone out zs ≤ w.count
      → gone out zs ≤ w.receivers
      → length zs < n
      → (u : Wait) × (sweep n alive w (head zs) msg ≡ some u) × Swept (hash32 msg) out f w ys zs u
unfolding sweep emi_hdelete
sweep-Swept_of zero alive w msg f ys zs is e c₁ c₂ g₁ g₂ h = absurd (omega arith)
sweep-Swept_of (suc n) alive w msg f ys [] is e c₁ c₂ g₁ g₂ h = (
  w,
  refl,
  record {
    entries = f;
    is = is;
    bucket = e;
    others = λ c d. refl;
    counted = omega arith;
    left = omega arith;
    flag = refl;
    msg = refl;
    pid = refl;
  },
)
sweep-Swept_of (suc n) alive w msg f ys (x ∷ zs) is e c₁ c₂ g₁ g₂ h =
    let b = hash32 msg in
    let out = is_gone alive w.table msg in
    let chain = subst (λ l. Chain w.table.lists (first b) l) e (is.chains b (hash32-lt msg)) in
    let after = nexts_middle w.table.lists (first b) ys x zs chain in
    elim (Bool-cases (out x)) [
      | inl q ↦
          let v = without w x in
          let f₁ = update f b (erase x (f b)) in
          let member = ap (has x) e ∙ has_middle ys x zs in
          let bucket₁ : f₁ b ≡ ys ++ zs =
            update_self f b (erase x (f b))
            ∙ ap (erase x) e
            ∙ erase_middle w.table.lists (first b) ys x zs chain in
          let some_gone : gone out (x ∷ zs) ≡ suc (gone out zs) = ground arith in
          let (u, run, s) =
            sweep-Swept_of n alive v msg f₁ ys zs
              (emi_hdelete-IsTable w.table f b x is (hash32-lt msg) member) bucket₁ (omega arith)
              (omega arith) (omega arith) (omega arith) (omega arith) in
          (
            u,
            rw (sweep, sweep_entry-without alive w msg x q, after) run,
            record {
              entries = s.entries;
              is = s.is;
              bucket = s.bucket ∙ ap (λ l. ys ++ l) (ground arith);
              others = λ c d. s.others c d ∙ update_other f b c (erase x (f b)) d;
              counted = omega (arith, s.counted);
              left = omega (arith, s.left);
              flag = s.flag;
              msg = s.msg;
              pid = s.pid;
            },
          )
      | inr q ↦
          let none_gone : gone out (x ∷ zs) ≡ gone out zs = ground arith in
          let (u, run, s) =
            sweep-Swept_of n alive w msg f (ys ++ (x ∷ [])) zs is
              (e ∙ sym (append_assoc ys (x ∷ []) zs)) c₁ c₂ (omega arith) (omega arith)
              (omega arith) in
          (
            u,
            rw (sweep, sweep_entry-same alive w msg x q, after) run,
            record {
              entries = s.entries;
              is = s.is;
              bucket =
                  s.bucket
                  ∙ append_assoc ys (x ∷ []) (staying out zs)
                  ∙ ap (λ l. ys ++ l) (ground arith);
              others = s.others;
              counted = omega (arith, s.counted);
              left = omega (arith, s.left);
              flag = s.flag;
              msg = s.msg;
              pid = s.pid;
            },
          )
    ]

-- a pass over the bucket of a message with fuel for the bucket ends: the receivers of the message
-- that are gone leave the table, which keeps the others, and both counts fall by as many, if they
-- are 32-bit numbers and not less than that
pub sweep-Swept :
    (fuel : ℕ) (alive : ℕ → Bool) (w : Wait) (msg : ℕ) (f : Entries)
    → let out = is_gone alive w.table msg in
      let zs = f (hash32 msg) in
      IsTable w.table f
      → w.count < 2 ^ 32
      → w.receivers < 2 ^ 32
      → gone out zs ≤ w.count
      → gone out zs ≤ w.receivers
      → length zs < fuel
      → (u : Wait) × (sweep fuel alive w (load w.table.lists (first (hash32 msg))) msg ≡ some u)
        × Swept (hash32 msg) out f w [] zs u
sweep-Swept fuel alive w msg f is c₁ c₂ g₁ g₂ h =
    let b = hash32 msg in
    let (u, run, s) = sweep-Swept_of fuel alive w msg f [] (f b) is refl c₁ c₂ g₁ g₂ h in
    (u, rw (load-head w.table.lists (first b) (f b) (is.chains b (hash32-lt msg))) run, s)
