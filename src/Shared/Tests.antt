-- ===== src/Shared/Tests.antt =====
-- The shared messages of src/emi_shbuf.c in a memory of two halves.
use emilib.Prelude.{◌+◌, ◌^◌, ◌<◌, ◌≡◌, refl, ap, some, none, true, Bool, arith}
use emilib.Buddy.Update.{untied}
use emilib.Message.{EmiMsg, get_offset}
use emilib.Shbuf.{Shm}
use emilib.Shbuf.Alloc.{block_addr}
use emilib.Shared.{zeroed, realloc_shared_msg, free_shared_msg}
use emilib.Shared.Realloc.{
  room, Reallocated, realloc_shared_msg-Reallocated, realloc_shared_msg_large,
}
use emilib.Shared.Release.{BothFreed, free_shared_msg_twice, free_shared_msg-BothFreed}
use emilib.Shared.Sample.{
  first_half, shm, shm-IsHeap, second_half, second_half-IsHeap, second_half-Owned, shm-Owned,
  first_half-Owned, message, bound, shm-IsMapped,
}

realloc_shared_msg-Reallocated_example :
    (r : Bool × EmiMsg × Shm) × (realloc_shared_msg 112 shm first_half.1 message ≡ some r)
    × Reallocated 112 shm first_half.1 9 first_half.0 message r
realloc_shared_msg-Reallocated_example =
    realloc_shared_msg-Reallocated 112 shm first_half.1 9 first_half.0 message shm-IsHeap
      shm-IsMapped shm-Owned refl refl (omega (arith, bound)) (omega arith) (omega arith)
      (omega arith)

-- a message of a sender who claims to send 2 ^ 31 bytes
abbrev large : EmiMsg
large = record zeroed { size = 2 ^ 31 }

realloc_shared_msg_large_example :
    (realloc_shared_msg 112 shm first_half.1 large ≡ some (true, large, shm))
    × (room 9 < 2 ^ 31 + 112)
realloc_shared_msg_large_example =
    realloc_shared_msg_large 112 shm first_half.1 9 first_half.0 shm-Owned large (omega arith)
      (omega arith)

-- a message of a sender who claims that there is return data
abbrev returned : EmiMsg
returned = record zeroed { retsize = 5 }

free_shared_msg_twice_example : free_shared_msg shm first_half.1 returned ≡ none
free_shared_msg_twice_example =
    free_shared_msg_twice shm first_half.1 9 first_half.0 returned shm-IsHeap shm-Owned
      (omega (arith, bound)) refl (omega arith) refl

-- a message in the first half with its data in the second one
abbrev split : EmiMsg
split = record zeroed { flag = 2 ^ 18; data_offset = get_offset first_half.1 second_half.1 }

differ : ¬ (first_half.0 ≡ second_half.0)
differ e =
    let (_, apart, _) = second_half.4.others 9 first_half.0 shm-Owned.used in
    omega (arith, apart, ap (block_addr shm 9) e)

free_shared_msg-BothFreed_example :
    (t : Shm) × (free_shared_msg second_half.2 first_half.1 split ≡ some t)
    × BothFreed second_half.2 9 first_half.0 9 second_half.0 t
unfolding untied
free_shared_msg-BothFreed_example =
    free_shared_msg-BothFreed second_half.2 first_half.1 9 first_half.0 second_half.1 9
      second_half.0 split second_half-IsHeap first_half-Owned second_half-Owned differ
      (omega (arith, bound))
      (omega (arith, second_half.4.holds, second_half.4.in_memory, shm-IsMapped)) refl refl refl
      (ground arith)
