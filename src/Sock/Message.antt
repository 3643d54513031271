-- ===== src/Sock/Message.antt =====
-- How a message is written to a socket: `emi_msg_write` of src/emi_sock.c. The members of
-- `struct emi_msg` that are sent are 32-bit numbers, the lowest byte first.
use emilib.Prelude.{
  append_assoc, append-nil, ℕ, ◌<◌, ◌≡◌, refl, sym, ap, ◌∙◌, inl, inr, arith, Bool, true, false,
  Option, none, some, List, ◌++◌, ltb, if◌then◌else◌, Bool-cases,
}
use mathlib.Core.Path.{subst}
use emilib.Message.{EmiMsg, payload, load_bytes, get_addr}
use emilib.Message.Codec.{length-load_bytes}
use emilib.Sock.{Socket, IsStream, emi_write}
use emilib.Sock.Write.{Writes, emi_write-Writes}

unfoldable pub emi_msg_write_payload : {S : Type 0} → ℕ → Socket S → S → EmiMsg → Option (Bool × S)
emi_msg_write_payload fuel k s m = emi_write fuel k s (payload m)

-- the message stands at `a` of the memory `mem`
unfoldable pub emi_msg_write_data :
    {S : Type 0} → ℕ → Socket S → S → (ℕ → ℕ) → ℕ → EmiMsg → Option (Bool × S)
emi_msg_write_data fuel k s mem a m =
    emi_write fuel k s (load_bytes m.size (get_addr a m.data_offset) mem)

unfoldable pub emi_msg_write :
    {S : Type 0} → ℕ → Socket S → S → (ℕ → ℕ) → ℕ → EmiMsg → Option (Bool × S)
emi_msg_write fuel k s mem a m = elim (emi_msg_write_payload fuel k s m) [
  | none ↦ none
  | some r ↦
      let (ok, u) = r in
      elim ok [
        | false ↦ some (false, u)
        | true ↦ if ltb 0 m.size then emi_msg_write_data fuel k u mem a m else some (true, u)
      ]
]

pub append_all :
    (S : Type 0) (outgoing : S → List ℕ) (s : S) (buf : List ℕ) (u : S)
    → Writes S outgoing s buf (true, u)
    → outgoing u ≡ outgoing s ++ buf
append_all S outgoing s buf u w =
    w.went
    ∙ ap (λ l. outgoing s ++ l)
        (sym (w.parts ∙ ap (λ l. w.taken ++ l) (w.all refl) ∙ append-nil w.taken))

module _ (S : Type 0) (k : Socket S) (incoming outgoing : S → List ℕ)
    (is : IsStream S k incoming outgoing) where
  -- on a stream and with more fuel than bytes of the payload and of the data, emi_msg_write ends, and
  -- if it gives 0 the stream took the payload and then the data
  pub emi_msg_write-all :
      (fuel : ℕ) (s : S) (mem : ℕ → ℕ) (a : ℕ) (m : EmiMsg)
      → 20 < fuel
      → m.size < fuel
      → (r : Bool × S) × (emi_msg_write fuel k s mem a m ≡ some r)
        × (r.0 ≡ true
            → outgoing r.1
              ≡ outgoing s ++ (payload m ++ load_bytes m.size (get_addr a m.data_offset) mem))
  unfolding emi_msg_write emi_msg_write_payload emi_msg_write_data
  emi_msg_write-all fuel s mem a m h hs =
      let ((ok, u), run, w) =
        emi_write-Writes S k incoming outgoing is fuel s (payload m) (omega arith) in
      let ((ok₂, v), run₂, w₂) =
        emi_write-Writes S k incoming outgoing is fuel u
          (load_bytes m.size (get_addr a m.data_offset) mem)
          (omega (arith, length-load_bytes m.size (get_addr a m.data_offset) mem)) in
      go ok u run w ok₂ v run₂ w₂
    where
      go :
          (ok : Bool) (u : S)
          → emi_write fuel k s (payload m) ≡ some (ok, u)
          → Writes S outgoing s (payload m) (ok, u)
          → (ok₂ : Bool) (v : S)
          → emi_write fuel k u (load_bytes m.size (get_addr a m.data_offset) mem) ≡ some (ok₂, v)
          → Writes S outgoing u (load_bytes m.size (get_addr a m.data_offset) mem) (ok₂, v)
          → (r : Bool × S) × (emi_msg_write fuel k s mem a m ≡ some r)
            × (r.0 ≡ true
                → outgoing r.1
                  ≡ outgoing s ++ (payload m ++ load_bytes m.size (get_addr a m.data_offset) mem))
      go false u run w ok₂ v run₂ w₂ = ((false, u), rw (emi_msg_write, run) refl, λ q. cc)
      go true u run w ok₂ v run₂ w₂ = elim (Bool-cases (ltb 0 m.size)) [
        | inl pos ↦ (
          (ok₂, v),
          rw (emi_msg_write, run, pos, emi_msg_write_data, run₂) refl,
          λ q.
              append_all S outgoing u (load_bytes m.size (get_addr a m.data_offset) mem) v (
                subst
                  (λ z.
                    Writes S outgoing u (load_bytes m.size (get_addr a m.data_offset) mem) (z, v))
                  q w₂)
              ∙ ap (λ l. l ++ load_bytes m.size (get_addr a m.data_offset) mem)
                  (append_all S outgoing s (payload m) u w)
              ∙ append_assoc (outgoing s) (payload m)
                  (load_bytes m.size (get_addr a m.data_offset) mem),
        )
        | inr zero_size ↦
            let none_left : m.size ≡ 0 = ground arith in
            (
              (true, u),
              rw (emi_msg_write, run, zero_size) refl,
              λ q.
                  append_all S outgoing s (payload m) u w
                  ∙ ap (λ l. outgoing s ++ l)
                      (sym (
                        ap (λ n. payload m ++ load_bytes n (get_addr a m.data_offset) mem) none_left
                        ∙ append-nil (payload m))),
            )
      ]
