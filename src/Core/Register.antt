-- ===== src/Core/Register.antt =====
-- What a registration does, the branch of EMI_MSG_CMD_REGISTER in src/emi_core.c.
use emilib.Prelude.{
  ℕ, suc, ◌<◌, ◌≡◌, refl, sym, ap, ◌∙◌, Bool, true, false, not, Option, none, some, List, [], ◌∷◌,
  arith, if◌then◌else◌, length,
}
use mathlib.Core.Path.{subst}
use emilib.Hlist.{first, load, update, update_self, update_other}
use emilib.Hash.{hash32, MsgTable, msg_map_init, emi_hinsert, emi_hinsert_unique_lock}
use emilib.Hash.Table.{Entries, IsTable, hash32-lt}
use emilib.Hash.Insert.{
  taken, HasUniquePids, entries_after, table_after, emi_hinsert_unique_lock_lem,
}
use emilib.Message.{set_flag, clear_flag, ret_succeeded}
use emilib.Core.{Message, Outcome, deliver, register}
use emilib.Core.Deliver.{
  targets, deliver-targets, Fresh, filled, filled-IsTable, filled-HasUniquePids, taken-filled,
  targets-filled,
}

-- how the registration `m` with the new entry `p` ended
pub record Registered (t : MsgTable) (f : Entries) (m : Message) (p : ℕ) (refused : Bool)
    (o : Outcome) : Type 0 where
  pub entries : Entries
  pub is : IsTable o.table entries
  pub unique : HasUniquePids o.table entries
  pub bucket : entries (hash32 m.msg) ≡ (if refused then f (hash32 m.msg) else p ∷ f (hash32 m.msg))
  pub others : (c : ℕ) → ¬ (hash32 m.msg ≡ c) → entries c ≡ f c
  pub flag :
      o.flag ≡ (if refused then clear_flag m.flag ret_succeeded else set_flag m.flag ret_succeeded)
  pub reply : o.reply ≡ true
  pub slot_lock : o.slot_lock ≡ (if refused then none else some m.cmd)
  pub signals : o.signals ≡ []
  pub msg : o.table.msg ≡ update t.msg p m.msg
  pub pid : o.table.pid ≡ update t.pid p m.cmd
  pub reached :
      (n : ℕ)
      → suc (length (f (hash32 m.msg))) < n
      → deliver n o.table (load o.table.lists (first (hash32 m.msg))) m.msg
        ≡ some (
            if refused
            then targets t m.msg (f (hash32 m.msg))
            else m.cmd ∷ targets t m.msg (f (hash32 m.msg)))

targets-emi_hinsert :
    (t : MsgTable) (p msg : ℕ) (xs : List ℕ) → targets (emi_hinsert t p) msg xs ≡ targets t msg xs
unfolding emi_hinsert
targets-emi_hinsert t p msg [] = refl
targets-emi_hinsert t p msg (x ∷ xs) = ground (arith, targets-emi_hinsert t p msg xs)

targets_new :
    (t : MsgTable) (p msg pid : ℕ) (xs : List ℕ)
    → t.msg p ≡ msg
    → t.pid p ≡ pid
    → targets (emi_hinsert t p) msg (p ∷ xs) ≡ pid ∷ targets t msg xs
unfolding emi_hinsert
targets_new t p msg pid xs e k = ground (arith, targets-emi_hinsert t p msg xs)

emi_hinsert-fields :
    (t : MsgTable) (p : ℕ) → ((emi_hinsert t p).msg ≡ t.msg) × ((emi_hinsert t p).pid ≡ t.pid)
unfolding emi_hinsert
emi_hinsert-fields t p = (refl, refl)

module _ (fuel : ℕ) (t : MsgTable) (f : Entries) (m : Message) (p : ℕ) (new : Fresh f p) where
  register-Registered_of :
      (refused : Bool)
      → let u = filled t p m.msg m.cmd in
        (emi_hinsert_unique_lock fuel u p ≡ some (not refused, table_after refused u p))
        → IsTable (table_after refused u p) (entries_after refused u f p)
        → HasUniquePids (table_after refused u p) (entries_after refused u f p)
        → (o : Outcome) × (register fuel t m (some p) ≡ some o) × Registered t f m p refused o
  unfolding register msg_map_init
  register-Registered_of true run is un =
      let b = hash32 m.msg in
      let u = filled t p m.msg m.cmd in
      (
        record {
          table = u;
          flag = clear_flag m.flag ret_succeeded;
          slot_lock = none;
          signals = [];
          reply = true;
        },
        rw (register, run) refl,
        record {
          entries = f;
          is = is;
          unique = un;
          bucket = refl;
          others = λ c d. refl;
          flag = refl;
          reply = refl;
          slot_lock = refl;
          signals = refl;
          msg = refl;
          pid = refl;
          reached = λ n h.
              deliver-targets n u f m.msg is (omega arith)
              ∙ ap some (targets-filled t p m.msg m.cmd (f b) (new b (hash32-lt m.msg)));
        },
      )
  register-Registered_of false run is un =
      let b = hash32 m.msg in
      let u = filled t p m.msg m.cmd in
      let e : u.msg p ≡ m.msg = update_self t.msg p m.msg in
      let home : hash32 (u.msg p) ≡ b = ap hash32 e in
      let g = entries_after false u f p in
      let placed : ℕ → Option Outcome = λ pid. some (record {
        table = emi_hinsert u p;
        flag = set_flag m.flag ret_succeeded;
        slot_lock = some pid;
        signals = [];
        reply = true;
      }) in
      let at : g b ≡ p ∷ f b = ap (λ z. update f z (p ∷ f z) b) home ∙ update_self f b (p ∷ f b) in
      (
        record {
          table = emi_hinsert u p;
          flag = set_flag m.flag ret_succeeded;
          slot_lock = some (u.pid p);
          signals = [];
          reply = true;
        },
        rw (register, run) (ap placed (ap (λ h. h p) (emi_hinsert-fields u p).1)),
        record {
          entries = g;
          is = is;
          unique = un;
          bucket = at;
          others = λ c d. ap (λ z. update f z (p ∷ f z) c) home ∙ update_other f b c (p ∷ f b) d;
          flag = refl;
          reply = refl;
          slot_lock = ap some (update_self t.pid p m.cmd);
          signals = refl;
          msg = (emi_hinsert-fields u p).0;
          pid = (emi_hinsert-fields u p).1;
          reached = λ n h.
              deliver-targets n (emi_hinsert u p) g m.msg is (subst (λ z. length z < n) (sym at) h)
              ∙ ap some (
                  ap (targets (emi_hinsert u p) m.msg) at
                  ∙ targets_new u p m.msg m.cmd (f b) e (update_self t.pid p m.cmd)
                  ∙ ap (λ l. m.cmd ∷ l)
                      (targets-filled t p m.msg m.cmd (f b) (new b (hash32-lt m.msg))));
        },
      )

-- a registration with a new entry and with fuel for its bucket ends and is answered; it is refused
-- if the bucket has an entry of the process; if not, SUCCEEDED is set and the next message of that
-- number signals the process, before the ones that it signalled until then
pub register-Registered :
    (fuel : ℕ) (t : MsgTable) (f : Entries) (m : Message) (p : ℕ)
    → IsTable t f
    → HasUniquePids t f
    → Fresh f p
    → length (f (hash32 m.msg)) < fuel
    → (o : Outcome) × (register fuel t m (some p) ≡ some o)
      × Registered t f m p (taken t m.cmd (f (hash32 m.msg))) o
register-Registered fuel t f m p is un new h =
    let b = hash32 m.msg in
    let u = filled t p m.msg m.cmd in
    let home : hash32 (u.msg p) ≡ b = ap hash32 (update_self t.msg p m.msg) in
    let same : taken u (u.pid p) (f (hash32 (u.msg p))) ≡ taken t m.cmd (f b) =
      ap (λ z. taken u z (f (hash32 (u.msg p)))) (update_self t.pid p m.cmd)
      ∙ ap (λ z. taken u m.cmd (f z)) home
      ∙ taken-filled t p m.msg m.cmd (f b) (new b (hash32-lt m.msg)) in
    let (run, table, unique) =
      emi_hinsert_unique_lock_lem fuel u f p (filled-IsTable t f p m.msg m.cmd is new)
        (filled-HasUniquePids t f p m.msg m.cmd un new) new
        (subst (λ z. length (f z) < fuel) (sym home) h) in
    register-Registered_of fuel t f m p new (taken t m.cmd (f b))
      (run ∙ ap (λ z. some (not z, table_after z u p)) same)
      (subst (λ z. IsTable (table_after z u p) (entries_after z u f p)) same table)
      (subst (λ z. HasUniquePids (table_after z u p) (entries_after z u f p)) same unique)
