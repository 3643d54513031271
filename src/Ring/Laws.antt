-- ===== src/Ring/Laws.antt =====
-- What the operations of include/list.h do to a circular list.
use emilib.Prelude.{
  ℕ, ◌≡◌, refl, sym, ap, ◌∙◌, inl, inr, true, false, List, [], ◌∷◌, ◌++◌, arith, ◌==◌, Bool-cases,
  eq-cases, length,
}
use emilib.Hlist.Chain.{has}
use emilib.Hlist.Del.{erase, has-erase}
use emilib.Ring.{
  Rings, init_list_head, list_insert, list_add, list_add_tail, list_del, list_move, list_move_tail,
  list_empty,
}
use emilib.Ring.Segment.{Segment, Distinct, Segment-frame, list_insert-Segment, list_del-Segment}

-- the circular list of the head `h` holds the distinct nodes `xs` in order, linked both ways
pub record IsRing (t : Rings) (h : ℕ) (xs : List ℕ) : Type 0 where
  pub segment : Segment t h xs h
  pub no_head : has h xs ≡ false
  pub distinct : Distinct xs

erase-Distinct : (x : ℕ) (xs : List ℕ) → Distinct xs → Distinct (erase x xs)
erase-Distinct x [] d = d
erase-Distinct x (y ∷ ys) (dy, d) = elim (Bool-cases (y == x)) [
  | inl e ↦ rw e d
  | inr e ↦ rw e (has-erase y x ys dy, erase-Distinct x ys d)
]

erased : (x : ℕ) (xs : List ℕ) → Distinct xs → has x (erase x xs) ≡ false
erased x [] d = refl
erased x (y ∷ ys) (dy, d) = elim (eq-cases y x) [
  | inl same ↦ ground (arith, ap (λ z. has z ys) (sym same) ∙ dy)
  | inr n ↦ ground (arith, erased x ys d)
]

append_has : (c x : ℕ) (xs : List ℕ) → has c xs ≡ false → ¬ (c ≡ x) → has c (xs ++ (x ∷ [])) ≡ false
append_has c x [] h n = ground arith
append_has c x (y ∷ ys) h n = ground (arith, append_has c x ys (ground arith) n)

append-Distinct : (x : ℕ) (xs : List ℕ) → has x xs ≡ false → Distinct xs → Distinct (xs ++ (x ∷ []))
append-Distinct x [] h d = (refl, tt)
append-Distinct x (y ∷ ys) h (dy, d) =
    (append_has y x ys dy (ground arith), append-Distinct x ys (ground arith) d)

-- INIT_LIST_HEAD makes an empty list, whatever the pointers were
pub init_list_head-IsRing : (t : Rings) (h : ℕ) → IsRing (init_list_head t h) h []
unfolding init_list_head
init_list_head-IsRing t h = record {
  segment = (ground arith, ground arith);
  no_head = refl;
  distinct = tt;
}

module _ (t : Rings) (h : ℕ) where
  add-Segment :
      (x : ℕ) (xs : List ℕ)
      → IsRing t h xs
      → ¬ (x ≡ h)
      → has x xs ≡ false
      → Segment (list_add t x h) h (x ∷ xs) h
  unfolding list_add list_insert
  add-Segment x [] r n o =
      let (e, f) = r.segment in (ground arith, ground arith, (ground arith, ground arith))
  add-Segment x (y ∷ ys) r n o =
      let (e, f, s) = r.segment in
      let (dy, d) = r.distinct in
      let out = r.no_head in
      (
        ground arith,
        ground arith,
        (
          ground arith,
          ground arith,
          Segment-frame t (list_add t x h) y ys h (λ c m. ground arith) (λ c m. ground arith) s,
        ),
      )

  -- list_add puts a new node before all others
  pub list_add-IsRing :
      (x : ℕ) (xs : List ℕ)
      → IsRing t h xs
      → ¬ (x ≡ h)
      → has x xs ≡ false
      → IsRing (list_add t x h) h (x ∷ xs)
  list_add-IsRing x xs r n o =
      let out = r.no_head in
      record {
        segment = add-Segment x xs r n o;
        no_head = ground arith;
        distinct = (o, r.distinct);
      }

  -- list_add_tail puts a new node behind all others
  pub list_add_tail-IsRing :
      (x : ℕ) (xs : List ℕ)
      → IsRing t h xs
      → ¬ (x ≡ h)
      → has x xs ≡ false
      → IsRing (list_add_tail t x h) h (xs ++ (x ∷ []))
  unfolding list_add_tail
  list_add_tail-IsRing x xs r n o = record {
    segment = list_insert-Segment t h xs h x r.distinct r.no_head r.no_head o n n r.segment;
    no_head = append_has h x xs r.no_head (λ e. n (sym e));
    distinct = append-Distinct x xs o r.distinct;
  }

  -- list_del takes a node out and leaves the others in order
  pub list_del-IsRing :
      (x : ℕ) (xs : List ℕ) → IsRing t h xs → has x xs ≡ true → IsRing (list_del t x) h (erase x xs)
  list_del-IsRing x xs r m = record {
    segment = list_del-Segment t h xs h x r.distinct r.no_head r.no_head m r.segment;
    no_head = has-erase h x xs r.no_head;
    distinct = erase-Distinct x xs r.distinct;
  }

  not_head : (x : ℕ) (xs : List ℕ) → IsRing t h xs → has x xs ≡ true → ¬ (x ≡ h)
  not_head x xs r m e = let q : true ≡ false = sym m ∙ ap (λ z. has z xs) e ∙ r.no_head in cc

  -- list_empty tells whether there are nodes
  pub list_empty_iff : (xs : List ℕ) → IsRing t h xs → list_empty t h ≡ (length xs == 0)
  unfolding list_empty
  list_empty_iff [] r = let (e, f) = r.segment in ground arith
  list_empty_iff (x ∷ xs) r = let (e, f, s) = r.segment in let out = r.no_head in ground arith

-- list_move takes a node of the list and puts it before all others
pub list_move-IsRing :
    (t : Rings) (h x : ℕ) (xs : List ℕ)
    → IsRing t h xs
    → has x xs ≡ true
    → IsRing (list_move t x h) h (x ∷ erase x xs)
unfolding list_move list_del
list_move-IsRing t h x xs r m =
    list_add-IsRing (list_del t x) h x (erase x xs) (list_del-IsRing t h x xs r m)
      (not_head t h x xs r m) (erased x xs r.distinct)

-- list_move_tail takes a node of the list and puts it behind all others
pub list_move_tail-IsRing :
    (t : Rings) (h x : ℕ) (xs : List ℕ)
    → IsRing t h xs
    → has x xs ≡ true
    → IsRing (list_move_tail t x h) h (erase x xs ++ (x ∷ []))
unfolding list_move_tail list_del
list_move_tail-IsRing t h x xs r m =
    list_add_tail-IsRing (list_del t x) h x (erase x xs) (list_del-IsRing t h x xs r m)
      (not_head t h x xs r m) (erased x xs r.distinct)
