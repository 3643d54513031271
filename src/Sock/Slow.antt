-- ===== src/Sock/Slow.antt =====
-- A connection that carries one byte at a time, to which the loops of src/emi_sock.c are applied.
use emilib.Prelude.{
  take, ℕ, zero, suc, ◌≤◌, ◌<◌, ◌≡◌, refl, ap, ◌∙◌, arith, List, [], ◌∷◌, ◌++◌, length,
}
use emilib.Sock.{Socket, Answer, failed, got, IsStream}

-- the bytes to come, and those that were sent
abbrev pub Line : Type 0
Line = List ℕ × List ℕ

abbrev pub coming : Line → List ℕ
coming (i, o) = i

abbrev pub went : Line → List ℕ
went (i, o) = o

abbrev pub receive_one : Line → ℕ → Answer (List ℕ) Line
receive_one s zero = got [] s
receive_one ([], o) (suc n) = got [] ([], o)
receive_one ((x ∷ i), o) (suc n) = got (x ∷ []) (i, o)

abbrev pub send_one : Line → List ℕ → Answer ℕ Line
send_one s [] = got 0 s
send_one (i, o) (x ∷ xs) = got 1 (i, o ++ (x ∷ []))

abbrev pub slow : Socket Line
slow = record { recv = receive_one; send = send_one }

append_empty : (xs : List ℕ) → xs ≡ xs ++ []
append_empty [] = refl
append_empty (x ∷ xs) = ap (λ l. x ∷ l) (append_empty xs)

pub slow-IsStream : IsStream Line slow coming went
slow-IsStream = record {
  recv_short = receive_short;
  recv_bytes = receive_bytes;
  recv_end = receive_end;
  recv_fail = receive_fail;
  send_short = sent_short;
  send_bytes = sent_bytes;
  send_some = sent_some;
  send_fail = sent_fail;
}
  where
    receive_short :
        (s : Line) (n : ℕ) (xs : List ℕ) (u : Line) → receive_one s n ≡ got xs u → length xs ≤ n
    receive_short s zero xs u e = ground arith
    receive_short ([], o) (suc n) xs u e = ground arith
    receive_short ((x ∷ i), o) (suc n) xs u e = ground arith

    receive_bytes :
        (s : Line) (n : ℕ) (xs : List ℕ) (u : Line)
        → receive_one s n ≡ got xs u
        → coming s ≡ xs ++ coming u
    receive_bytes s zero xs u e = ground arith
    receive_bytes ([], o) (suc n) xs u e = ground arith
    receive_bytes ((x ∷ i), o) (suc n) xs u e = ground arith

    receive_end : (s : Line) (n : ℕ) (u : Line) → receive_one s (suc n) ≡ got [] u → coming s ≡ []
    receive_end ([], o) n u e = refl
    receive_end ((x ∷ i), o) n u e = cc

    receive_fail : (s : Line) (n : ℕ) (u : Line) → receive_one s n ≡ failed u → coming u ≡ coming s
    receive_fail s zero u e = cc
    receive_fail ([], o) (suc n) u e = cc
    receive_fail ((x ∷ i), o) (suc n) u e = cc

    sent_short :
        (s : Line) (xs : List ℕ) (n : ℕ) (u : Line) → send_one s xs ≡ got n u → n ≤ length xs
    sent_short s [] n u e = ground arith
    sent_short (i, o) (x ∷ xs) n u e = ground arith

    sent_bytes :
        (s : Line) (xs : List ℕ) (n : ℕ) (u : Line)
        → send_one s xs ≡ got n u
        → went u ≡ went s ++ take n xs
    sent_bytes (i, o) [] zero u e = let q : went u ≡ o = ground arith in q ∙ append_empty o
    sent_bytes (i, o) [] (suc n) u e = absurd (ground arith)
    sent_bytes (i, o) (x ∷ xs) zero u e = absurd (ground arith)
    sent_bytes (i, o) (x ∷ xs) (suc n) u e = ground arith

    sent_some :
        (s : Line) (x : ℕ) (xs : List ℕ) (n : ℕ) (u : Line) → send_one s (x ∷ xs) ≡ got n u → 0 < n
    sent_some (i, o) x xs n u e = ground arith

    sent_fail : (s : Line) (xs : List ℕ) (u : Line) → send_one s xs ≡ failed u → went u ≡ went s
    sent_fail s [] u e = cc
    sent_fail (i, o) (x ∷ xs) u e = cc
