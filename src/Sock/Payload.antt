-- ===== src/Sock/Payload.antt =====
-- `emi_msg_read_payload` of src/emi_sock.c: what comes in overwrites the start of the message.
use emilib.Prelude.{
  ℕ, ◌<◌, ◌≡◌, sym, ap, ◌∙◌, Bool, true, Option, none, some, List, ◌++◌, length, take, drop,
  take_all, drop_all,
}
use emilib.Message.{EmiMsg, payload, payload_size, with_payload, overwrite}
use emilib.Message.Codec.{IsEmiMsg, received, with_payload-payload, overwrite_all}
use emilib.Sock.{Socket, IsStream, Received, emi_read}
use emilib.Sock.Read.{emi_read-Reads}

abbrev pub take_payload : {S : Type 0} → EmiMsg → Option (Received S) → Option (Bool × EmiMsg × S)
take_payload m none = none
take_payload m (some (ok, xs, u)) = some (ok, with_payload m (overwrite xs (payload m)), u)

unfoldable pub emi_msg_read_payload :
    {S : Type 0} → ℕ → Socket S → S → EmiMsg → Option (Bool × EmiMsg × S)
emi_msg_read_payload fuel k s m = take_payload m (emi_read fuel k s payload_size)

pub append_cancel : (xs ys zs : List ℕ) → xs ++ ys ≡ xs ++ zs → ys ≡ zs
append_cancel xs ys zs e = sym (drop_all xs ys) ∙ ap (drop (length xs)) e ∙ drop_all xs zs

-- how the reading of a message `m` and of what follows it ended
pub record PayloadRead (S : Type 0) (incoming : S → List ℕ) (m old : EmiMsg) (rest : List ℕ)
    (r : Bool × EmiMsg × S) : Type 0 where
  pub message : r.0 ≡ true → r.1 ≡ received m old
  pub left : r.0 ≡ true → incoming r.2 ≡ rest

pub emi_msg_read_payload-PayloadRead :
    (S : Type 0) (k : Socket S) (incoming outgoing : S → List ℕ)
    → IsStream S k incoming outgoing
    → (fuel : ℕ) (s : S) (m old : EmiMsg) (rest : List ℕ) → 20 < fuel
    → IsEmiMsg m
    → incoming s ≡ payload m ++ rest
    → (r : Bool × EmiMsg × S) × (emi_msg_read_payload fuel k s old ≡ some r)
      × PayloadRead S incoming m old rest r
unfolding emi_msg_read_payload
emi_msg_read_payload-PayloadRead S k incoming outgoing is fuel s m old rest h im e =
    let ((ok, xs, u), run, reads) = emi_read-Reads S k incoming outgoing is fuel s payload_size h in
    let whole : ok ≡ true → xs ≡ payload m =
      λ q. reads.next q ∙ ap (take 20) e ∙ take_all (payload m) rest in
    (
      (ok, with_payload old (overwrite xs (payload old)), u),
      ap (take_payload old) run,
      record {
        message = λ q.
            ap (with_payload old) (overwrite_all xs (payload old) (ap length (whole q)) ∙ whole q)
            ∙ with_payload-payload m old im;
        left = λ q.
            append_cancel (payload m) (incoming u) rest
              (ap (λ l. l ++ incoming u) (sym (whole q)) ∙ sym reads.came ∙ e);
      },
    )
