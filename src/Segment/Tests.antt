-- ===== src/Segment/Tests.antt =====
-- A system of names, on which the segment of src/emi_shmem.c is made and removed.
use emilib.Prelude.{◌+◌, ◌<◌, ◌^◌, ℕ, ◌≡◌, refl, arith, true, false, Option, none, some, [], ◌∷◌}
use emilib.Segment.{Segment, Kind, posix, file, init_pathname, emi_shm_init, emi_shm_destroy}
use emilib.Shmem.{Sizes, get_shm_size}
use emilib.Segment.Sample.{NameSet, with, names, names-HasNames}
use emilib.Segment.Names.{emi_shm_destroy-names}

abbrev start : Segment NameSet
start = record { system = λ p. false; shmem_size = 0 }

abbrev made : Kind → Option (Option ℕ × Segment NameSet)
made kind = emi_shm_init names kind start (101 ∷ []) 5000 true

abbrev size_of : Option (Option ℕ × Segment NameSet) → Option (Option ℕ × ℕ)
size_of none = none
size_of (some (id, s)) = some (id, s.shmem_size)

-- 5000 bytes are two pages
made_size : size_of (made file) ≡ some (some 3, 8192)
unfolding emi_shm_init
made_size = refl

-- the file is there
abbrev there : Segment NameSet
there = record { system = with (λ p. false) (init_pathname file (101 ∷ [])); shmem_size = 8192 }

emi_shm_destroy-names_example :
    ((u : Segment NameSet) × (emi_shm_destroy names posix there (101 ∷ []) 3 ≡ some u)
      × (u.system (init_pathname posix (101 ∷ [])) ≡ false))
    × ((u : Segment NameSet) × (emi_shm_destroy names file there (101 ∷ []) 3 ≡ some u)
        × (u.system (init_pathname file (101 ∷ [])) ≡ true))
emi_shm_destroy-names_example =
    emi_shm_destroy-names NameSet names (λ f p. f p) names-HasNames there (101 ∷ []) 3 (omega arith)

abbrev sizes : Sizes
sizes = record { spinlock = 4; mutex = 40 }

small : get_shm_size sizes 300 + 4096 < 2 ^ 64
unfolding get_shm_size
small = omega arith
