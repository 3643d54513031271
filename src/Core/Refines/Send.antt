-- ===== src/Core/Refines/Send.antt =====
-- A message to receivers of src/emi_core.c, for the registrations that the table holds.
use emilib.Prelude.{
  ℕ, suc, ◌<◌, ◌^◌, ◌≡◌, refl, sym, ap, ◌∙◌, inl, inr, true, false, Bool, Option, none, some, List,
  [], ◌∷◌, arith, length, eq-cases,
}
use mathlib.Core.Path.{subst}
use emilib.Message.{mode_block, ret_succeeded, has_flag, set_flag, clear_flag}
use emilib.Hlist.{update, update_self, update_other}
use emilib.Hlist.Chain.{has}
use emilib.Hash.{hash32, MsgTable}
use emilib.Hash.Table.{Entries, hash32-lt}
use emilib.Core.{Message, Outcome, Round, Wait, judged, wait_for, send, sent}
use emilib.Core.Verdict.{verdict, judged-verdict}
use emilib.Core.Deliver.{targets, deliver-targets}
use emilib.Core.Send.{count_targets, send_run, send-none}
use emilib.Core.Settle.{Settled, wait-Settled, reads-same}
use emilib.Core.Registry.{
  Registration, Registry, Effect, Represents, reads, reads-targets, addressed, settle, spread,
}
use emilib.Core.Refines.{Refines}

Settled-Represents :
    (t : MsgTable) (f : Entries) (g : Registry) (m : Message) (n b k flag : ℕ)
    (ys : List Registration) (v : Wait)
    → Represents t f g
    → (d : Settled (wait_for t m n) f b k flag ys v) → Represents v.table d.entries (update g b ys)
Settled-Represents t f g m n b k flag ys v rep d =
    let within : (c a : ℕ) → has a (d.entries c) ≡ true → has a (f c) ≡ true = λ c a m.
      elim (eq-cases b c) [
        | inl e ↦
            subst (λ z. has a (f z) ≡ true) e
              (d.within a (subst (λ z. has a (d.entries z) ≡ true) (sym e) m))
        | inr q ↦ subst (λ l. has a l ≡ true) (d.others c q) m
      ] in
    record {
      is = d.is;
      unique = record {
        unique = λ c a a' h m m' q.
            rep.unique.unique c a a' h (within c a m) (within c a' m')
              (sym (ap (λ z. z a) d.pid) ∙ q ∙ ap (λ z. z a') d.pid);
      };
      registered = λ c h. elim (eq-cases b c) [
        | inl e ↦
            subst (λ z. reads v.table (d.entries z) ≡ update g b ys z) e
              (d.bucket ∙ sym (update_self g b ys))
        | inr q ↦
            ap (reads v.table) (d.others c q)
            ∙ reads-same t v.table (f c) d.msg d.pid
            ∙ rep.registered c h
            ∙ sym (update_other g b c ys q)
      ];
    }

module _ (fuel : ℕ) (t : MsgTable) (f : Entries) (g : Registry) (m : Message) (rounds : List Round)
    (rep : Represents t f g) (h : length (f (hash32 m.msg)) < fuel) where
  nobody-Refines :
      targets t m.msg (f (hash32 m.msg)) ≡ []
      → (e : Effect) → spread g m [] none ≡ some e
      → (o : Outcome) × (send fuel t m rounds ≡ some o) × Refines o e
  nobody-Refines q e r =
      let x : Effect = record {
        registry = g;
        flag = clear_flag m.flag ret_succeeded;
        slot_lock = none;
        signals = [];
        reply = has_flag m.flag mode_block;
      } in
      let same : x ≡ e = cc in
      let o : Outcome = record {
        table = t;
        flag = clear_flag m.flag ret_succeeded;
        slot_lock = none;
        signals = [];
        reply = has_flag m.flag mode_block;
      } in
      (
        o,
        send-none fuel t f m rounds rep.is (ap length q) h,
        subst (Refines o) same (record {
          entries = f;
          table = rep;
          flag = refl;
          signals = refl;
          reply = refl;
          slot_lock = refl;
        }),
      )

  receivers-Refines :
      (pid : ℕ) (pids : List ℕ) (k : ℕ) (failed : Bool) (ys : List Registration)
      → targets t m.msg (f (hash32 m.msg)) ≡ pid ∷ pids
      → suc (length pids) < 2 ^ 32
      → settle m.msg rounds false (suc (length pids)) (suc (length pids)) (g (hash32 m.msg))
        ≡ some (k, failed, ys)
      → (e : Effect) → spread g m (pid ∷ pids) (some (k, failed, ys)) ≡ some e
      → (o : Outcome) × (send fuel t m rounds ≡ some o) × Refines o e
  receivers-Refines pid pids k failed ys q small settles e r =
      let b = hash32 m.msg in
      let n = suc (length pids) in
      let w = wait_for t m n in
      let (v, run, d) =
        wait-Settled fuel rounds w m.msg f k (set_flag m.flag ret_succeeded) false failed ys rep.is
          refl small (omega arith) h
          (ap (settle m.msg rounds false n n) (rep.registered b (hash32-lt m.msg)) ∙ settles) in
      let counted = count_targets fuel t f m.msg rep.is h ∙ ap (λ l. some (length l)) q in
      let signalled = deliver-targets fuel t f m.msg rep.is h ∙ ap some q in
      let x : Effect = record {
        registry = update g b ys;
        flag = verdict k failed m.flag;
        slot_lock = none;
        signals = pid ∷ pids;
        reply = has_flag m.flag mode_block;
      } in
      let same : x ≡ e = cc in
      (
        sent m (pid ∷ pids) v,
        send_run fuel t m rounds (length pids) (pid ∷ pids) v counted signalled run,
        subst (Refines (sent m (pid ∷ pids) v)) same (record {
          entries = d.entries;
          table =
              Settled-Represents t f g m n b k (judged failed (set_flag m.flag ret_succeeded)) ys v
                rep d;
          flag = rw (d.left, d.flags) (judged-verdict k failed m.flag);
          signals = refl;
          reply = refl;
          slot_lock = refl;
        }),
      )

  pub send-Refines :
      (e : Effect)
      → let xs = g (hash32 m.msg) in
        let pids = addressed m.msg xs in
        length pids < 2 ^ 32
        → spread g m pids (settle m.msg rounds false (length pids) (length pids) xs) ≡ some e
        → (o : Outcome) × (send fuel t m rounds ≡ some o) × Refines o e
  send-Refines e small r =
      let b = hash32 m.msg in
      go (addressed m.msg (g b))
        (settle m.msg rounds false (length (addressed m.msg (g b))) (length (addressed m.msg (g b)))
          (g b))
        (reads-targets t m.msg (f b) ∙ ap (addressed m.msg) (rep.registered b (hash32-lt m.msg)))
        small refl r
    where
      go :
          (pids : List ℕ) (s : Option (ℕ × Bool × List Registration))
          → targets t m.msg (f (hash32 m.msg)) ≡ pids
          → length pids < 2 ^ 32
          → settle m.msg rounds false (length pids) (length pids) (g (hash32 m.msg)) ≡ s
          → spread g m pids s ≡ some e
          → (o : Outcome) × (send fuel t m rounds ≡ some o) × Refines o e
      go [] s q small c r = nobody-Refines q e r
      go (pid ∷ pids) none q small c r = cc
      go (pid ∷ pids) (some (k, failed, ys)) q small c r =
          receivers-Refines pid pids k failed ys q small c e r
