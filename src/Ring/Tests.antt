-- ===== src/Ring/Tests.antt =====
-- The operations of include/list.h on a list of three nodes.
use emilib.Prelude.{refl, [], ◌∷◌, arith}
use emilib.Ring.{Rings, init_list_head, list_add, list_add_tail}
use emilib.Ring.Laws.{IsRing, init_list_head-IsRing, list_add-IsRing, list_add_tail-IsRing}

abbrev raw : Rings
raw = record { nexts = λ a. 9; prevs = λ a. 9 }

-- the nodes 1 and 2 of the head 0
abbrev two : Rings
two = list_add_tail (list_add (init_list_head raw 0) 1 0) 2 0

one-IsRing : IsRing (list_add (init_list_head raw 0) 1 0) 0 (1 ∷ [])
one-IsRing =
    list_add-IsRing (init_list_head raw 0) 0 1 [] (init_list_head-IsRing raw 0) (omega arith) refl

two-IsRing : IsRing two 0 (1 ∷ 2 ∷ [])
two-IsRing =
    list_add_tail-IsRing (list_add (init_list_head raw 0) 1 0) 0 2 (1 ∷ []) one-IsRing (omega arith)
      refl

list_add-IsRing_example : IsRing (list_add two 3 0) 0 (3 ∷ 1 ∷ 2 ∷ [])
list_add-IsRing_example = list_add-IsRing two 0 3 (1 ∷ 2 ∷ []) two-IsRing (omega arith) refl
