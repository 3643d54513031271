-- ===== src/Segment/Names.antt =====
-- Which name `emi_shm_destroy` of src/emi_shmem.c removes.
use emilib.Prelude.{
  ℕ, ◌+◌, ◌<◌, ◌≡◌, refl, ap, ◌∙◌, arith, Bool, true, false, some, List, ltb, length, lt→ltb,
}
use emilib.Segment.{
  System, Segment, posix, file, init_pathname, destroy_pathname, path_max, emi_shm_destroy,
}

-- the names of a file differ by a slash
names_differ : (name : List ℕ) → ¬ (destroy_pathname file name ≡ init_pathname file name)
names_differ name e = absurd (omega (arith, ap length e))

-- `unlink` removes one name, and `close` and `munmap` none
pub record HasNames (F : Type 0) (k : System F) (exists : F → List ℕ → Bool) : Type 0 where
  pub unlink_self : (f : F) (p : List ℕ) → exists (k.unlink f p) p ≡ false
  pub unlink_other : (f : F) (p q : List ℕ) → ¬ (p ≡ q) → exists (k.unlink f p) q ≡ exists f q
  pub close : (f : F) (id : ℕ) (q : List ℕ) → exists (k.close f id) q ≡ exists f q
  pub munmap : (f : F) (a n : ℕ) (q : List ℕ) → exists (k.munmap f a n) q ≡ exists f q

-- emi_shm_destroy removes the name that emi_shm_init opens, if the segment is an object of POSIX
-- shared memory; if it is a file, the file stays
pub emi_shm_destroy-names :
    (F : Type 0) (k : System F) (exists : F → List ℕ → Bool)
    → HasNames F k exists
    → (s : Segment F) (name : List ℕ) (id : ℕ) → length name + 5 < path_max
    → ((u : Segment F) × (emi_shm_destroy k posix s name id ≡ some u)
        × (exists u.system (init_pathname posix name) ≡ false))
      × ((u : Segment F) × (emi_shm_destroy k file s name id ≡ some u)
          × (exists u.system (init_pathname file name) ≡ exists s.system (init_pathname file name)))
unfolding emi_shm_destroy
emi_shm_destroy-names F k exists is s name id h =
    let short : ltb (length (destroy_pathname posix name)) path_max ≡ true =
      lt→ltb (length (destroy_pathname posix name)) path_max (omega arith) in
    let short' : ltb (length (destroy_pathname file name)) path_max ≡ true =
      lt→ltb (length (destroy_pathname file name)) path_max (omega arith) in
    (
      (
        record s { system = k.unlink (k.close s.system id) (destroy_pathname posix name) },
        rw (emi_shm_destroy, short) refl,
        is.unlink_self (k.close s.system id) (destroy_pathname posix name),
      ),
      (
        record s { system = k.unlink (k.close s.system id) (destroy_pathname file name) },
        rw (emi_shm_destroy, short') refl,
        is.unlink_other (k.close s.system id) (destroy_pathname file name) (init_pathname file name)
              (names_differ name)
            ∙ is.close s.system id (init_pathname file name),
      ),
    )
