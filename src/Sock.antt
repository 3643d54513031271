-- ===== src/Sock.antt =====
-- The transfer of bytes in src/emi_sock.c. A socket is an argument: `recv` and `send` stand for
-- `read` and `write` on its descriptor, and give the bytes, or how many were taken, or an error.
-- A loop takes fuel, and `none` means that the fuel ran out.
pub mod Read
pub mod Write
pub mod Message
pub mod Payload
pub mod Slow
pub mod Ret
pub mod Reply
mod Tests
use emilib.Prelude.{
  ℕ, zero, suc, ◌+◌, ◌-◌, ◌≤◌, ◌<◌, ◌≡◌, Bool, true, false, Option, none, some, List, [], ◌∷◌, ◌++◌,
  length, drop, take,
}

-- an error, or a result; and the state of the connection after it
pub data Answer (A S : Type 0) : Type 0 where
  failed : S → Answer A S
  got : A → S → Answer A S

-- what the operating system does on a descriptor; `S` is the state of the connection
pub record Socket (S : Type 0) : Type 0 where
  pub recv : S → ℕ → Answer (List ℕ) S
  pub send : S → List ℕ → Answer ℕ S

-- what `read` and `write` document of a stream: `incoming` are the bytes that will arrive until the
-- peer closes the connection, `outgoing` the bytes that were accepted
pub record IsStream (S : Type 0) (k : Socket S) (incoming outgoing : S → List ℕ) : Type 0 where
  pub recv_short : (s : S) (n : ℕ) (xs : List ℕ) (u : S) → k.recv s n ≡ got xs u → length xs ≤ n
  pub recv_bytes :
      (s : S) (n : ℕ) (xs : List ℕ) (u : S) → k.recv s n ≡ got xs u → incoming s ≡ xs ++ incoming u
  pub recv_end : (s : S) (n : ℕ) (u : S) → k.recv s (suc n) ≡ got [] u → incoming s ≡ []
  pub recv_fail : (s : S) (n : ℕ) (u : S) → k.recv s n ≡ failed u → incoming u ≡ incoming s
  pub send_short : (s : S) (xs : List ℕ) (n : ℕ) (u : S) → k.send s xs ≡ got n u → n ≤ length xs
  pub send_bytes :
      (s : S) (xs : List ℕ) (n : ℕ) (u : S)
      → k.send s xs ≡ got n u
      → outgoing u ≡ outgoing s ++ take n xs
  pub send_some :
      (s : S) (x : ℕ) (xs : List ℕ) (n : ℕ) (u : S) → k.send s (x ∷ xs) ≡ got n u → 0 < n
  pub send_fail : (s : S) (xs : List ℕ) (u : S) → k.send s xs ≡ failed u → outgoing u ≡ outgoing s

-- how a transfer ended, `true` for 0 and `false` for -1; the bytes put into the buffer; the socket
abbrev pub Received : Type 0 → Type 0
Received S = Bool × List ℕ × S

-- `emi_read`: what follows the bytes `xs` of a round
abbrev pub after : {S : Type 0} → List ℕ → Option (Received S) → Option (Received S)
after xs none = none
after xs (some (ok, ys, u)) = some (ok, xs ++ ys, u)

unfoldable pub emi_read : {S : Type 0} → ℕ → Socket S → S → ℕ → Option (Received S)
emi_read zero k s size = none
emi_read (suc n) k s size = elim (k.recv s size) [
  | failed u ↦ some (false, [], u)
  | got [] u ↦ some (true, [], u)
  | got (x ∷ xs) u ↦ after (x ∷ xs) (emi_read n k u (size - length (x ∷ xs)))
]

unfoldable pub emi_write : {S : Type 0} → ℕ → Socket S → S → List ℕ → Option (Bool × S)
emi_write zero k s buf = none
emi_write (suc n) k s buf = elim (k.send s buf) [
  | failed u ↦ some (false, u)
  | got zero u ↦ some (true, u)
  | got (suc m) u ↦ emi_write n k u (drop (suc m) buf)
]
