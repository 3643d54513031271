-- ===== src/Sock/Read.antt =====
-- What `emi_read` reads, src/emi_sock.c.
use emilib.Prelude.{
  ℕ, zero, suc, ◌-◌, ◌<◌, ◌≡◌, refl, sym, ◌∙◌, ap, arith, true, false, some, List, [], ◌∷◌, ◌++◌,
  length, take, take_append, append_assoc,
}
use emilib.Sock.{Socket, Answer, failed, got, IsStream, Received, emi_read}

-- how a read of `size` bytes in state `s` ended: the bytes it put into the buffer came off the
-- stream, and if it gave 0 they are the next `size` ones, or all that are left
pub record Reads (S : Type 0) (incoming : S → List ℕ) (s : S) (size : ℕ) (r : Received S)
    : Type 0 where
  pub came : incoming s ≡ r.1 ++ incoming r.2
  pub next : r.0 ≡ true → r.1 ≡ take size (incoming s)

module _ (S : Type 0) (k : Socket S) (incoming outgoing : S → List ℕ)
    (is : IsStream S k incoming outgoing) where
  emi_read-Reads_of :
      (n : ℕ) (s : S) (size : ℕ) (a : Answer (List ℕ) S)
      → ((u : S) (m : ℕ)
          → m < n
          → (r : Received S) × (emi_read n k u m ≡ some r) × Reads S incoming u m r)
      → k.recv s size ≡ a
      → size < suc n
      → (r : Received S) × (emi_read (suc n) k s size ≡ some r) × Reads S incoming s size r
  unfolding emi_read
  emi_read-Reads_of n s size (failed u) ih e h = (
    (false, [], u),
    rw (emi_read, e) refl,
    record { came = sym (is.recv_fail s size u e); next = λ q. cc },
  )
  emi_read-Reads_of n s zero (got [] u) ih e h = (
    (true, [], u),
    rw (emi_read, e) refl,
    record { came = is.recv_bytes s zero [] u e; next = λ q. refl },
  )
  emi_read-Reads_of n s (suc m) (got [] u) ih e h = (
    (true, [], u),
    rw (emi_read, e) refl,
    record { came = is.recv_bytes s (suc m) [] u e; next = λ q. rw (is.recv_end s m u e) refl },
  )
  emi_read-Reads_of n s size (got (x ∷ xs) u) ih e h =
      let short = is.recv_short s size (x ∷ xs) u e in
      let came₁ = is.recv_bytes s size (x ∷ xs) u e in
      let ((ok, ys, w), run, reads) = ih u (size - length (x ∷ xs)) (omega arith) in
      (
        (ok, (x ∷ xs) ++ ys, w),
        rw (emi_read, e, run) refl,
        record {
          came =
              came₁
              ∙ ap (λ l. (x ∷ xs) ++ l) (reads.came)
              ∙ sym (append_assoc (x ∷ xs) ys (incoming w));
          next = λ q.
              ap (λ l. (x ∷ xs) ++ l) (reads.next q)
              ∙ sym (take_append size (x ∷ xs) (incoming u) short)
              ∙ ap (take size) (sym came₁);
        },
      )

  -- on a stream and with more fuel than bytes to read, emi_read ends; the bytes that it put into the
  -- buffer came off the stream, and if it gave 0 they are the next ones: `size` of them, or all that
  -- will ever come
  pub emi_read-Reads :
      (fuel : ℕ) (s : S) (size : ℕ)
      → size < fuel
      → (r : Received S) × (emi_read fuel k s size ≡ some r) × Reads S incoming s size r
  emi_read-Reads zero s size h = absurd (omega arith)
  emi_read-Reads (suc n) s size h =
      emi_read-Reads_of n s size (k.recv s size) (λ u m l. emi_read-Reads n u m l) refl h
