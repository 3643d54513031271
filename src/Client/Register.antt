-- ===== src/Client/Register.antt =====
-- `emi_msg_register` of src/emi_ifr.c: what the process's list holds afterwards.
use emilib.Prelude.{
  ℕ, suc, ◌<◌, ◌^◌, ◌≡◌, refl, ◌∙◌, inl, inr, arith, Bool, true, false, some, List, ◌∷◌, ◌++◌, ◌==◌,
  length, Bool-cases,
}
use Prim.Native.Nat.{bit_or}
use emilib.Hlist.Chain.{has}
use emilib.Message.{EmiMsg, payload, has_flag, cmd_register, ret_succeeded}
use emilib.Message.Codec.{IsEmiMsg, received}
use emilib.Ring.Laws.{IsRing}
use emilib.Handler.{Functions, find_func, add_func}
use emilib.Handler.Find.{add_func-find}
use emilib.Sock.{Socket, IsStream}
use emilib.Sock.Write.{emi_write-Writes}
use emilib.Sock.Message.{emi_msg_write_payload}
use emilib.Sock.Payload.{emi_msg_read_payload, emi_msg_read_payload-PayloadRead}
use emilib.Client.{registered, emi_msg_register}

-- the message that registers, over what the stack held
abbrev pub registration : EmiMsg → ℕ → ℕ → ℕ → EmiMsg
registration garbage pid msg_num flag = record garbage {
  cmd = pid;
  msg = msg_num;
  flag = bit_or garbage.flag (bit_or flag (2 ^ cmd_register));
  size = 0;
}

-- how a registration ended that the broker answered with `r`; `xs` are the nodes of the list before
pub record IsRegistered (n : ℕ) (fs : Functions) (head fl msg_num func : ℕ) (xs : List ℕ)
    (r : EmiMsg) (q : Bool × Functions) : Type 0 where
  pub granted : q.0 ≡ true → has_flag r.flag ret_succeeded ≡ true
  pub list : q.0 ≡ true → IsRing q.1.rings head (fl ∷ xs)
  pub finds : q.0 ≡ true → find_func n q.1 head (q.1.rings.nexts head) msg_num ≡ some (some func)
  pub refused : q.0 ≡ false → q.1 ≡ fs

IsRegistered-not :
    (n : ℕ) (fs : Functions) (head fl msg_num func : ℕ) (xs : List ℕ) (r : EmiMsg)
    → IsRegistered n fs head fl msg_num func xs r (false, fs)
IsRegistered-not n fs head fl msg_num func xs r = record {
  granted = λ q. cc;
  list = λ q. cc;
  finds = λ q. cc;
  refused = λ q. refl;
}

module _ (S : Type 0) (k : Socket S) (incoming outgoing : S → List ℕ)
    (is : IsStream S k incoming outgoing) (fuel n : ℕ) (fs : Functions) (head fl msg_num func : ℕ)
    (xs : List ℕ) (ring : IsRing fs.rings head xs) (d : ¬ (fl ≡ head)) (new : has fl xs ≡ false)
    (long : suc (length xs) < n) (h : 20 < fuel) where
  registered-IsRegistered :
      (m r : EmiMsg) (s : S)
      → (q : Bool × Functions) × (registered fs head (some fl) msg_num func (true, received r m, s)
          ≡ some q)
        × IsRegistered n fs head fl msg_num func xs r q
  registered-IsRegistered m r s = elim (Bool-cases (has_flag r.flag ret_succeeded)) [
    | inl e ↦
        let u = add_func fs head fl msg_num func in
        let (ring', find) = add_func-find n fs head fl msg_num func xs ring d new long in
        let same : (msg_num == msg_num) ≡ true = ground arith in
        let mine : find_func n u head (u.rings.nexts head) msg_num ≡ some (some func) =
          find msg_num ∙ rw same refl in
        (
          (true, u),
          rw e refl,
          record { granted = λ q. e; list = λ q. ring'; finds = λ q. mine; refused = λ q. cc },
        )
    | inr e ↦ ((false, fs), rw e refl, IsRegistered-not n fs head fl msg_num func xs r)
  ]

  -- with more fuel than bytes and fuel for the list, where the broker's answer arrives once the
  -- registration is written: emi_msg_register ends; if it gives 0, the broker had set SUCCEEDED, the
  -- list is well-formed with the new node, and the process finds the function for its message; if
  -- not, the list is as it was
  pub emi_msg_register-IsRegistered :
      (garbage r : EmiMsg) (pid flag : ℕ) (sd : S) (rest : List ℕ)
      → IsEmiMsg r
      → ((u : S)
          → emi_msg_write_payload fuel k sd (registration garbage pid msg_num flag) ≡ some (true, u)
          → incoming u ≡ payload r ++ rest)
      → (q : Bool × Functions) × (emi_msg_register fuel k
            (some sd)
            garbage
            pid
            fs
            head
            (some fl)
            msg_num
            func
            flag
          ≡ some q)
        × IsRegistered n fs head fl msg_num func xs r q
  unfolding emi_msg_register emi_msg_write_payload
  emi_msg_register-IsRegistered garbage r pid flag sd rest ok arrives =
      let m = registration garbage pid msg_num flag in
      let ((sent, u), run, w) =
        emi_write-Writes S k incoming outgoing is fuel sd (payload m) (omega arith) in
      written sent u run
    where
      answered :
          (u : S) (sent : Bool) (m' : EmiMsg) (v : S)
          → emi_msg_write_payload fuel k sd (registration garbage pid msg_num flag) ≡ some (true, u)
          → emi_msg_read_payload fuel k u (registration garbage pid msg_num flag)
            ≡ some (sent, m', v)
          → (sent ≡ true → m' ≡ received r (registration garbage pid msg_num flag))
          → (q : Bool × Functions) × (emi_msg_register fuel k
                (some sd)
                garbage
                pid
                fs
                head
                (some fl)
                msg_num
                func
                flag
              ≡ some q)
            × IsRegistered n fs head fl msg_num func xs r q
      answered u false m' v run read same = (
        (false, fs),
        rw (emi_msg_register, run, read) refl,
        IsRegistered-not n fs head fl msg_num func xs r,
      )
      answered u true m' v run read same =
          let (q, run', good) =
            registered-IsRegistered (registration garbage pid msg_num flag) r v in
          (q, rw (emi_msg_register, run, read, same refl) run', good)

      written :
          (sent : Bool) (u : S)
          → emi_msg_write_payload fuel k sd (registration garbage pid msg_num flag) ≡ some (sent, u)
          → (q : Bool × Functions) × (emi_msg_register fuel k
                (some sd)
                garbage
                pid
                fs
                head
                (some fl)
                msg_num
                func
                flag
              ≡ some q)
            × IsRegistered n fs head fl msg_num func xs r q
      written false u run = (
        (false, fs),
        rw (emi_msg_register, run) refl,
        IsRegistered-not n fs head fl msg_num func xs r,
      )
      written true u run =
          let ((sent, m', v), read, reads) =
            emi_msg_read_payload-PayloadRead S k incoming outgoing is fuel u r
              (registration garbage pid msg_num flag) rest h ok (arrives u run) in
          answered u sent m' v run read reads.message
