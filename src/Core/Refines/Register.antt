-- ===== src/Core/Refines/Register.antt =====
-- The registration of src/emi_core.c, for the registrations that the table holds.
use emilib.Prelude.{
  ℕ, ◌<◌, ◌≡◌, refl, sym, ap, ◌∙◌, inl, inr, Bool, true, false, some, List, [], ◌∷◌, arith, length,
  eq-cases,
}
use mathlib.Core.Path.{subst}
use emilib.Hlist.{update, update_self, update_other}
use emilib.Hlist.Chain.{has}
use emilib.Hash.{hash32, MsgTable, emi_msg_table_size}
use emilib.Hash.Table.{Entries, hash32-lt}
use emilib.Hash.Insert.{taken}
use emilib.Core.{Message, Outcome, register}
use emilib.Core.Deliver.{Fresh}
use emilib.Core.Register.{Registered, register-Registered}
use emilib.Core.Registry.{Registry, Represents, reads, reads-taken, has_pid, admit}
use emilib.Core.Refines.{Refines}

reads-other :
    (t u : MsgTable) (p msg pid : ℕ) (xs : List ℕ)
    → has p xs ≡ false
    → u.msg ≡ update t.msg p msg
    → u.pid ≡ update t.pid p pid
    → reads u xs ≡ reads t xs
reads-other t u p msg pid [] h e k = refl
reads-other t u p msg pid (x ∷ xs) h e k =
    let apart : ¬ (p ≡ x) = λ q. ground arith in
    let at : u.msg x ≡ t.msg x = ap (λ z. z x) e ∙ update_other t.msg p x msg apart in
    let at' : u.pid x ≡ t.pid x = ap (λ z. z x) k ∙ update_other t.pid p x pid apart in
    let rest = reads-other t u p msg pid xs (ground arith) e k in rw (at, at', rest) refl

module _ (t : MsgTable) (f : Entries) (g : Registry) (m : Message) (p : ℕ) (o : Outcome)
    (rep : Represents t f g) (new : Fresh f p) where
  kept :
      (refused : Bool) (d : Registered t f m p refused o) (c : ℕ)
      → c < emi_msg_table_size
      → d.entries c ≡ f c
      → reads o.table (d.entries c) ≡ g c
  kept refused d c h q =
      ap (reads o.table) q
      ∙ reads-other t o.table p m.msg m.cmd (f c) (new c h) d.msg d.pid
      ∙ rep.registered c h

  admitted :
      (refused : Bool) (d : Registered t f m p refused o) (c : ℕ)
      → c < emi_msg_table_size
      → reads o.table (d.entries c) ≡ (admit g m refused).registry c
  admitted true d c h = elim (eq-cases (hash32 m.msg) c) [
    | inl e ↦ kept true d c h (subst (λ z. d.entries z ≡ f z) e d.bucket)
    | inr n ↦ kept true d c h (d.others c n)
  ]
  admitted false d c h =
      let b = hash32 m.msg in
      let xs = (m.msg, m.cmd) ∷ g b in
      let msg_at : o.table.msg p ≡ m.msg = ap (λ z. z p) d.msg ∙ update_self t.msg p m.msg in
      let pid_at : o.table.pid p ≡ m.cmd = ap (λ z. z p) d.pid ∙ update_self t.pid p m.cmd in
      let rest : reads o.table (f b) ≡ g b =
        reads-other t o.table p m.msg m.cmd (f b) (new b (hash32-lt m.msg)) d.msg d.pid
        ∙ rep.registered b (hash32-lt m.msg) in
      let here : reads o.table (p ∷ f b) ≡ xs = rw (msg_at, pid_at, rest) refl in
      elim (eq-cases b c) [
        | inl e ↦
            subst (λ z. reads o.table (d.entries z) ≡ update g b xs z) e
              (ap (reads o.table) d.bucket ∙ here ∙ sym (update_self g b xs))
        | inr n ↦ kept false d c h (d.others c n) ∙ sym (update_other g b c xs n)
      ]

  register-Refines_of :
      (refused : Bool) → Registered t f m p refused o → Refines o (admit g m refused)
  register-Refines_of true d = record {
    entries = d.entries;
    table = record { is = d.is; unique = d.unique; registered = admitted true d };
    flag = d.flag;
    signals = d.signals;
    reply = d.reply;
    slot_lock = d.slot_lock;
  }
  register-Refines_of false d = record {
    entries = d.entries;
    table = record { is = d.is; unique = d.unique; registered = admitted false d };
    flag = d.flag;
    signals = d.signals;
    reply = d.reply;
    slot_lock = d.slot_lock;
  }

pub register-Refines :
    (fuel : ℕ) (t : MsgTable) (f : Entries) (g : Registry) (m : Message) (p : ℕ)
    → Represents t f g
    → Fresh f p
    → length (f (hash32 m.msg)) < fuel
    → (o : Outcome) × (register fuel t m (some p) ≡ some o)
      × Refines o (admit g m (has_pid m.cmd (g (hash32 m.msg))))
register-Refines fuel t f g m p rep new h =
    let b = hash32 m.msg in
    let (o, run, d) = register-Registered fuel t f m p rep.is rep.unique new h in
    let same : taken t m.cmd (f b) ≡ has_pid m.cmd (g b) =
      reads-taken t m.cmd (f b) ∙ ap (has_pid m.cmd) (rep.registered b (hash32-lt m.msg)) in
    (
      o,
      run,
      register-Refines_of t f g m p o rep new (has_pid m.cmd (g b))
          (subst (λ z. Registered t f m p z o) same d),
    )
