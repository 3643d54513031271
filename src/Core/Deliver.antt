-- ===== src/Core/Deliver.antt =====
-- Whom a message reaches, and that a registration is reached, src/emi_core.c.
use emilib.Prelude.{
  ℕ, zero, suc, ◌<◌, ◌≡◌, refl, sym, ap, ◌∙◌, inl, inr, true, false, none, some, List, [], ◌∷◌,
  arith, ◌==◌, if◌then◌else◌, Bool-cases, length,
}
use emilib.Hlist.{Loc, first, next, load, update, update_other, init_hlist_node}
use emilib.Hlist.Chain.{has, Chain, Chain-frame}
use emilib.Hash.{hash32, MsgTable, emi_msg_table_size}
use emilib.Hash.Table.{Entries, IsTable, hash32-lt}
use emilib.Hash.Insert.{taken, HasUniquePids}
use emilib.Hash.Search.{receivers}
use emilib.Core.{deliver}

-- the processes of the entries that are registered for the message
abbrev pub targets : MsgTable → ℕ → List ℕ → List ℕ
targets t msg [] = []
targets t msg (x ∷ xs) = if t.msg x == msg then t.pid x ∷ targets t msg xs else targets t msg xs

pub length-targets :
    (t : MsgTable) (msg : ℕ) (xs : List ℕ) → length (targets t msg xs) ≡ receivers t msg xs
length-targets t msg [] = refl
length-targets t msg (x ∷ xs) = ground (arith, length-targets t msg xs)

deliver-walk :
    (n : ℕ) (t : MsgTable) (l : Loc) (xs : List ℕ) (msg : ℕ)
    → Chain t.lists l xs
    → length xs < n
    → deliver n t (load t.lists l) msg ≡ some (targets t msg xs)
unfolding deliver
deliver-walk zero t l xs msg c h = absurd (omega arith)
deliver-walk (suc n) t l [] msg c h = rw (c, deliver)
deliver-walk (suc n) t l (x ∷ xs) msg (e, q, o, c) h =
    let rest = deliver-walk n t (next x) xs msg c (omega arith) in
    rw (e, deliver, rest)
      (elim (Bool-cases (t.msg x == msg)) [ inl y ↦ rw y refl | inr y ↦ rw y refl ])

-- the pass that signals reaches the processes of the bucket that are registered for the message,
-- each once and in the bucket's order
pub deliver-targets :
    (fuel : ℕ) (t : MsgTable) (f : Entries) (msg : ℕ)
    → IsTable t f
    → length (f (hash32 msg)) < fuel
    → deliver fuel t (load t.lists (first (hash32 msg))) msg ≡ some (targets t msg (f (hash32 msg)))
deliver-targets fuel t f msg is h =
    let b = hash32 msg in deliver-walk fuel t (first b) (f b) msg (is.chains b (hash32-lt msg)) h

abbrev pub Fresh : Entries → ℕ → Type 0
Fresh f p = (b : ℕ) → b < emi_msg_table_size → has p (f b) ≡ false

-- the table with the entry's fields filled in
abbrev pub filled : MsgTable → ℕ → ℕ → ℕ → MsgTable
filled t p msg pid = record {
  lists = init_hlist_node t.lists p;
  msg = update t.msg p msg;
  pid = update t.pid p pid;
}

apart_from : (p a : ℕ) (xs : List ℕ) → has p xs ≡ false → has a xs ≡ true → ¬ (p ≡ a)
apart_from p a xs h m e = let q : true ≡ false = sym m ∙ ap (λ z. has z xs) (sym e) ∙ h in cc

pub filled-IsTable :
    (t : MsgTable) (f : Entries) (p msg pid : ℕ)
    → IsTable t f
    → Fresh f p
    → IsTable (filled t p msg pid) f
unfolding init_hlist_node
filled-IsTable t f p msg pid is new = record {
  chains = λ b h.
      Chain-frame t.lists (init_hlist_node t.lists p) (first b) (f b) refl
        (λ a m.
          let n = apart_from p a (f b) (new b h) m in
          (update_other t.lists.nexts p a none n, update_other t.lists.pprevs p a none n))
        (is.chains b h);
  homes = λ b a h m.
      ap hash32 (update_other t.msg p a msg (apart_from p a (f b) (new b h) m)) ∙ is.homes b a h m;
}

pub filled-HasUniquePids :
    (t : MsgTable) (f : Entries) (p msg pid : ℕ)
    → HasUniquePids t f
    → Fresh f p
    → HasUniquePids (filled t p msg pid) f
filled-HasUniquePids t f p msg pid u new = record {
  unique = λ b a c h m k q. u.unique b a c h m k (
      sym (update_other t.pid p a pid (apart_from p a (f b) (new b h) m))
      ∙ q
      ∙ update_other t.pid p c pid (apart_from p c (f b) (new b h) k));
}

pub taken-filled :
    (t : MsgTable) (p msg pid : ℕ) (xs : List ℕ)
    → has p xs ≡ false
    → taken (filled t p msg pid) pid xs ≡ taken t pid xs
taken-filled t p msg pid [] h = refl
taken-filled t p msg pid (x ∷ xs) h = ground (arith, taken-filled t p msg pid xs)

pub targets-filled :
    (t : MsgTable) (p msg pid : ℕ) (xs : List ℕ)
    → has p xs ≡ false
    → targets (filled t p msg pid) msg xs ≡ targets t msg xs
targets-filled t p msg pid [] h = refl
targets-filled t p msg pid (x ∷ xs) h = ground (arith, targets-filled t p msg pid xs)
