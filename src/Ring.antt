-- ===== src/Ring.antt =====
-- The circular lists of include/list.h, pointer by pointer. A node is known by its address.
-- `list_insert` is `__list_add`, and `list_unlink` is `__list_del`.
pub mod Segment
pub mod Laws
mod Tests
use emilib.Prelude.{ℕ, ◌≡◌, Bool, true, false, ◌&&◌, not, ◌==◌}
use emilib.Hlist.{update}

pub record Rings : Type 0 where
  pub nexts : ℕ → ℕ
  pub prevs : ℕ → ℕ

-- `a->next = b`
abbrev pub set_next : Rings → ℕ → ℕ → Rings
set_next t a b = record t { nexts = update t.nexts a b }

-- `a->prev = b`
abbrev pub set_prev : Rings → ℕ → ℕ → Rings
set_prev t a b = record t { prevs = update t.prevs a b }

unfoldable pub init_list_head : Rings → ℕ → Rings
init_list_head t list = set_prev (set_next t list list) list list

unfoldable pub list_insert : Rings → ℕ → ℕ → ℕ → Rings
list_insert t new_lst prev next =
    set_next (set_prev (set_next (set_prev t next new_lst) new_lst next) new_lst prev) prev new_lst

unfoldable pub list_add : Rings → ℕ → ℕ → Rings
list_add t new_lst head = list_insert t new_lst head (t.nexts head)

unfoldable pub list_add_tail : Rings → ℕ → ℕ → Rings
list_add_tail t new_lst head = list_insert t new_lst (t.prevs head) head

unfoldable pub list_unlink : Rings → ℕ → ℕ → Rings
list_unlink t prev next = set_next (set_prev t next prev) prev next

unfoldable pub list_del : Rings → ℕ → Rings
list_del t entry = list_unlink t (t.prevs entry) (t.nexts entry)

unfoldable pub list_del_first_entry : Rings → ℕ → Rings
list_del_first_entry t head = list_del t (t.nexts head)

unfoldable pub list_move : Rings → ℕ → ℕ → Rings
list_move t list head = list_add (list_unlink t (t.prevs list) (t.nexts list)) list head

unfoldable pub list_move_tail : Rings → ℕ → ℕ → Rings
list_move_tail t list head = list_add_tail (list_unlink t (t.prevs list) (t.nexts list)) list head

unfoldable pub list_empty : Rings → ℕ → Bool
list_empty t head = t.nexts head == head

unfoldable pub list_is_last : Rings → ℕ → ℕ → Bool
list_is_last t list head = t.nexts list == head

unfoldable pub list_is_singular : Rings → ℕ → Bool
list_is_singular t head = not (list_empty t head) && (t.nexts head == t.prevs head)
