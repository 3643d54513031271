-- ===== src/Message/Codec.antt =====
-- What is written of a message of include/emi_msg.h is read back.
use emilib.Prelude.{
  ℕ, zero, suc, ◌+◌, ◌^◌, ◌<◌, ◌≤◌, ◌≡◌, refl, sym, ap, ◌∙◌, arith, List, [], ◌∷◌, ◌++◌, length,
}
use emilib.Message.{
  EmiMsg, encode, decode, payload, with_payload, load_bytes, store_bytes, overwrite,
}

pub length-load_bytes : (n a : ℕ) (mem : ℕ → ℕ) → length (load_bytes n a mem) ≡ n
length-load_bytes zero a mem = refl
length-load_bytes (suc n) a mem = omega (arith, length-load_bytes n (a + 1) mem)

-- the members are 32-bit numbers
pub record IsEmiMsg (m : EmiMsg) : Type 0 where
  pub flag : m.flag < 2 ^ 32
  pub msg : m.msg < 2 ^ 32
  pub cmd : m.cmd < 2 ^ 32
  pub size : m.size < 2 ^ 32
  pub retsize : m.retsize < 2 ^ 32

pub decode-encode : (n : ℕ) (xs : List ℕ) → n < 2 ^ 32 → decode (encode n ++ xs) ≡ n
decode-encode n xs h = omega arith

-- the message `old` with the members of `m` that are sent
abbrev pub received : EmiMsg → EmiMsg → EmiMsg
received m old = record old {
  flag = m.flag;
  msg = m.msg;
  cmd = m.cmd;
  size = m.size;
  retsize = m.retsize;
}

pub with_payload-payload :
    (m old : EmiMsg) → IsEmiMsg m → with_payload old (payload m) ≡ received m old
with_payload-payload m old h =
    rw
      (
        decode-encode m.flag (encode m.msg ++ (encode m.cmd ++ (encode m.size ++ encode m.retsize)))
            h.flag,
        decode-encode m.msg (encode m.cmd ++ (encode m.size ++ encode m.retsize)) h.msg,
        decode-encode m.cmd (encode m.size ++ encode m.retsize) h.cmd,
        decode-encode m.size (encode m.retsize) h.size,
        decode-encode m.retsize [] h.retsize,
      )
      refl

load-frame :
    (n a : ℕ) (mem mem' : ℕ → ℕ)
    → ((c : ℕ) → a ≤ c → c < a + n → mem' c ≡ mem c)
    → load_bytes n a mem' ≡ load_bytes n a mem
load-frame zero a mem mem' h = refl
load-frame (suc n) a mem mem' h =
    ap (λ x. x ∷ load_bytes n (a + 1) mem') (h a (omega arith) (omega arith))
    ∙ ap (λ l. mem a ∷ l) (load-frame n (a + 1) mem mem' (λ c p q. h c (omega arith) (omega arith)))

-- the bytes that were stored
pub load-store :
    (mem : ℕ → ℕ) (a : ℕ) (xs : List ℕ) → load_bytes (length xs) a (store_bytes mem a xs) ≡ xs
load-store mem a [] = refl
load-store mem a (x ∷ xs) =
    let first : store_bytes mem a (x ∷ xs) a ≡ x = ground arith in
    ap (λ y. y ∷ load_bytes (length xs) (a + 1) (store_bytes mem a (x ∷ xs))) first
    ∙ ap (λ l. x ∷ l)
        (load-frame (length xs) (a + 1) (store_bytes mem (a + 1) xs) (store_bytes mem a (x ∷ xs))
            (λ c p q. ground arith)
          ∙ load-store mem (a + 1) xs)

-- a whole buffer that came in
pub overwrite_all : (xs old : List ℕ) → length xs ≡ length old → overwrite xs old ≡ xs
overwrite_all [] [] h = refl
overwrite_all [] (y ∷ ys) h = absurd (omega arith)
overwrite_all (x ∷ xs) [] h = absurd (omega arith)
overwrite_all (x ∷ xs) (y ∷ ys) h = ap (λ l. x ∷ l) (overwrite_all xs ys (omega arith))

-- the bytes `ys` among those that were stored, behind `xs`
pub load-store_part :
    (mem : ℕ → ℕ) (a : ℕ) (xs ys zs : List ℕ)
    → load_bytes (length ys) (a + length xs) (store_bytes mem a (xs ++ (ys ++ zs))) ≡ ys
load-store_part mem a [] [] zs = refl
load-store_part mem a [] (y ∷ ys) zs =
    let here : a + 0 ≡ a = omega arith in
    let first : store_bytes mem a (y ∷ (ys ++ zs)) a ≡ y = ground arith in
    let rest = load-store_part mem (a + 1) [] ys zs in
    let here' : a + 1 + 0 ≡ a + 1 = omega arith in
    ap (λ c. load_bytes (suc (length ys)) c (store_bytes mem a (y ∷ (ys ++ zs)))) here
    ∙ ap (λ z. z ∷ load_bytes (length ys) (a + 1) (store_bytes mem a (y ∷ (ys ++ zs)))) first
    ∙ ap (λ l. y ∷ l)
        (load-frame (length ys) (a + 1) (store_bytes mem (a + 1) (ys ++ zs))
            (store_bytes mem a (y ∷ (ys ++ zs))) (λ c p q. ground arith)
          ∙ ap (λ c. load_bytes (length ys) c (store_bytes mem (a + 1) (ys ++ zs))) (sym here')
          ∙ rest)
load-store_part mem a (x ∷ xs) ys zs =
    let next : a + suc (length xs) ≡ a + 1 + length xs = omega arith in
    ap (λ c. load_bytes (length ys) c (store_bytes mem a (x ∷ (xs ++ (ys ++ zs))))) next
    ∙ load-frame (length ys) (a + 1 + length xs) (store_bytes mem (a + 1) (xs ++ (ys ++ zs)))
        (store_bytes mem a (x ∷ (xs ++ (ys ++ zs)))) (λ c p q. ground arith)
    ∙ load-store_part mem (a + 1) xs ys zs
