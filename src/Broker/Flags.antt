-- ===== src/Broker/Flags.antt =====
-- What the broker of src/emi_core.c does to the flag ALLOCDATA of a message.
use emilib.Prelude.{
  ℕ, ◌+◌, ◌-◌, ◌/◌, ◌%◌, ◌^◌, ◌≡◌, refl, sym, ap, ◌∙◌, inl, inr, arith, Bool, true, false, ◌||◌,
  ◌&&◌, Option, none, some, List, [], ◌∷◌, length, ◌==◌, Bool-cases,
}
use emilib.Message.{
  mode_block, has_flag, set_flag, clear_flag, cmd_register, ret_succeeded, flag_allocdata,
}
use emilib.Hash.{hash32}
use emilib.Core.{Message, Round}
use emilib.Core.Verdict.{verdict}
use emilib.Core.Registry.{
  Registry, Effect, Registration, addressed, has_pid, settle, admit, spread, serve,
}

set_flag-other :
    (x : ℕ) → has_flag (set_flag x ret_succeeded) flag_allocdata ≡ has_flag x flag_allocdata
set_flag-other x = elim (Bool-cases (has_flag x ret_succeeded)) [
  | inl e ↦ rw e refl
  | inr e ↦
      let same : (x + 2 ^ ret_succeeded) / 2 ^ flag_allocdata % 2 ≡ x / 2 ^ flag_allocdata % 2 =
        ground arith in
      rw e (ap (λ z. z == 1) same)
]

clear_flag-other :
    (x : ℕ) → has_flag (clear_flag x ret_succeeded) flag_allocdata ≡ has_flag x flag_allocdata
clear_flag-other x = elim (Bool-cases (has_flag x ret_succeeded)) [
  | inl e ↦
      let same : (x - 2 ^ ret_succeeded) / 2 ^ flag_allocdata % 2 ≡ x / 2 ^ flag_allocdata % 2 =
        ground arith in
      rw e (ap (λ z. z == 1) same)
  | inr e ↦ rw e refl
]

abbrev flag_of : Option Effect → ℕ
flag_of none = 0
flag_of (some e) = e.flag

admit-flag :
    (g : Registry) (m : Message) (refused : Bool)
    → has_flag (admit g m refused).flag flag_allocdata ≡ has_flag m.flag flag_allocdata
admit-flag g m true = clear_flag-other m.flag
admit-flag g m false = set_flag-other m.flag

spread-flag :
    (g : Registry) (m : Message) (pids : List ℕ) (s : Option (ℕ × Bool × List Registration))
    (e : Effect)
    → spread g m pids s ≡ some e
    → has_flag e.flag flag_allocdata ≡ has_flag m.flag flag_allocdata
spread-flag g m [] s e r =
    ap (λ z. has_flag z flag_allocdata) (sym (ap flag_of r)) ∙ clear_flag-other m.flag
spread-flag g m (pid ∷ pids) none e r = cc
spread-flag g m (pid ∷ pids) (some (k, failed, xs)) e r =
    ap (λ z. has_flag z flag_allocdata) (sym (ap flag_of r)) ∙ last
  where
    last : has_flag (verdict k failed m.flag) flag_allocdata ≡ has_flag m.flag flag_allocdata
    last = elim (Bool-cases ((k == 0) || (failed && has_flag m.flag mode_block))) [
      | inl q ↦ rw q (clear_flag-other m.flag)
      | inr q ↦ rw q (set_flag-other m.flag)
    ]

-- nothing that the broker promises touches ALLOCDATA
pub serve-flag :
    (g : Registry) (m : Message) (rounds : List Round) (e : Effect)
    → serve g m rounds ≡ some e
    → has_flag e.flag flag_allocdata ≡ has_flag m.flag flag_allocdata
serve-flag g m rounds e r = elim (Bool-cases (has_flag m.flag cmd_register)) [
  | inl k ↦
      let xs = g (hash32 m.msg) in
      let q : some (admit g m (has_pid m.cmd xs)) ≡ some e = rw k at r in
      ap (λ z. has_flag z flag_allocdata) (sym (ap flag_of q)) ∙ admit-flag g m (has_pid m.cmd xs)
  | inr k ↦
      let xs = g (hash32 m.msg) in
      let pids = addressed m.msg xs in
      spread-flag g m pids (settle m.msg rounds false (length pids) (length pids) xs) e (rw k at r)
]
