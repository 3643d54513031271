-- ===== src/Sock/Write.antt =====
-- What `emi_write` writes, src/emi_sock.c.
use emilib.Prelude.{
  take, drop, take-drop, length-drop, append_assoc, append-nil, ℕ, zero, suc, ◌<◌, ◌≡◌, refl, sym,
  ◌∙◌, ap, arith, Bool, true, false, some, List, [], ◌∷◌, ◌++◌, length,
}
use emilib.Sock.{Socket, Answer, failed, got, IsStream, emi_write}

take_prefix : (n : ℕ) (xs ys zs : List ℕ) → drop n xs ≡ ys ++ zs → xs ≡ (take n xs ++ ys) ++ zs
take_prefix n xs ys zs e =
    sym (take-drop n xs) ∙ ap (λ l. take n xs ++ l) e ∙ sym (append_assoc (take n xs) ys zs)

-- how a write of `buf` in state `s` ended: what the stream took is the start of the buffer, and if
-- the write gave 0 it is all of the buffer
pub record Writes (S : Type 0) (outgoing : S → List ℕ) (s : S) (buf : List ℕ) (r : Bool × S)
    : Type 0 where
  pub taken : List ℕ
  pub left : List ℕ
  pub parts : buf ≡ taken ++ left
  pub went : outgoing r.1 ≡ outgoing s ++ taken
  pub all : r.0 ≡ true → left ≡ []

module _ (S : Type 0) (k : Socket S) (incoming outgoing : S → List ℕ)
    (is : IsStream S k incoming outgoing) where
  emi_write-Writes_of :
      (n : ℕ) (s : S) (buf : List ℕ) (a : Answer ℕ S)
      → ((u : S) (xs : List ℕ)
          → length xs < n
          → (r : Bool × S) × (emi_write n k u xs ≡ some r) × Writes S outgoing u xs r)
      → k.send s buf ≡ a
      → length buf < suc n
      → (r : Bool × S) × (emi_write (suc n) k s buf ≡ some r) × Writes S outgoing s buf r
  unfolding emi_write
  emi_write-Writes_of n s buf (failed u) ih e h = (
    (false, u),
    rw (emi_write, e) refl,
    record {
      taken = [];
      left = buf;
      parts = refl;
      went = is.send_fail s buf u e ∙ sym (append-nil (outgoing s));
      all = λ q. cc;
    },
  )
  emi_write-Writes_of n s [] (got zero u) ih e h = (
    (true, u),
    rw (emi_write, e) refl,
    record {
      taken = [];
      left = [];
      parts = refl;
      went = is.send_bytes s [] 0 u e;
      all = λ q. refl;
    },
  )
  emi_write-Writes_of n s (x ∷ xs) (got zero u) ih e h =
      absurd (omega (arith, is.send_some s x xs 0 u e))
  emi_write-Writes_of n s buf (got (suc m) u) ih e h =
      let short = is.send_short s buf (suc m) u e in
      let ((ok, w), run, writes) =
        ih u (drop (suc m) buf) (omega (arith, length-drop (suc m) buf)) in
      (
        (ok, w),
        rw (emi_write, e, run) refl,
        record {
          taken = take (suc m) buf ++ writes.taken;
          left = writes.left;
          parts = take_prefix (suc m) buf writes.taken writes.left writes.parts;
          went =
              writes.went
              ∙ ap (λ l. l ++ writes.taken) (is.send_bytes s buf (suc m) u e)
              ∙ append_assoc (outgoing s) (take (suc m) buf) writes.taken;
          all = writes.all;
        },
      )

  -- on a stream and with more fuel than bytes, emi_write ends; the stream took a start of the
  -- buffer, and all of it if the write gave 0
  pub emi_write-Writes :
      (fuel : ℕ) (s : S) (buf : List ℕ)
      → length buf < fuel
      → (r : Bool × S) × (emi_write fuel k s buf ≡ some r) × Writes S outgoing s buf r
  emi_write-Writes zero s buf h = absurd (omega arith)
  emi_write-Writes (suc n) s buf h =
      emi_write-Writes_of n s buf (k.send s buf) (λ u xs l. emi_write-Writes n u xs l) refl h
