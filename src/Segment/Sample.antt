-- ===== src/Segment/Sample.antt =====
-- A system with the names that were created and not removed, which grants all else.
use emilib.Prelude.{
  ℕ, ◌≡◌, refl, ap₂, arith, inl, inr, Bool, true, false, ◌&&◌, ◌||◌, none, some, List, [], ◌∷◌,
  ◌==◌, if◌then◌else◌, Bool-cases,
}
use emilib.Segment.{System}
use emilib.Segment.Names.{HasNames}

abbrev pub same_name : List ℕ → List ℕ → Bool
same_name [] [] = true
same_name [] (y ∷ ys) = false
same_name (x ∷ xs) [] = false
same_name (x ∷ xs) (y ∷ ys) = (x == y) && same_name xs ys

pub same_name_self : (xs : List ℕ) → same_name xs xs ≡ true
same_name_self [] = refl
same_name_self (x ∷ xs) = ground (arith, same_name_self xs)

pub same_name_sound : (xs ys : List ℕ) → same_name xs ys ≡ true → xs ≡ ys
same_name_sound [] [] e = refl
same_name_sound [] (y ∷ ys) e = cc
same_name_sound (x ∷ xs) [] e = cc
same_name_sound (x ∷ xs) (y ∷ ys) e =
    let head : x ≡ y = ground arith in
    let rest : same_name xs ys ≡ true = ground arith in
    ap₂ (λ z zs. z ∷ zs) head (same_name_sound xs ys rest)

-- the names that are in the system
abbrev pub NameSet : Type 0
NameSet = List ℕ → Bool

abbrev pub without : NameSet → List ℕ → NameSet
without f p q = if same_name p q then false else f q

abbrev pub with : NameSet → List ℕ → NameSet
with f p q = same_name p q || f q

abbrev pub names : System NameSet
names = record {
  shm_open = λ f p create. if create || f p then some (3, with f p) else none;
  ftruncate = λ f id size. (true, f);
  unlink = without;
  close = λ f id. f;
  mmap = λ f size id both. some (8192, f);
  munmap = λ f a n. f;
  page_size = 4096;
}

pub names-HasNames : HasNames NameSet names (λ f p. f p)
names-HasNames = record {
  unlink_self = λ f p. rw (same_name_self p) refl;
  unlink_other = λ f p q n. elim (Bool-cases (same_name p q)) [
    | inl e ↦ absurd (n (same_name_sound p q e))
    | inr e ↦ rw e refl
  ];
  close = λ f id q. refl;
  munmap = λ f a n q. refl;
}
