-- ===== src/Support/CycleList.antt =====
-- lib/cycle_list.h and lib/cycle_list.cc: intrusive doubly linked lists. A pointer is a number, 0 is
-- NULL, and `Links` holds the two fields of the `cyclelist_elem` at each address. A `CycleList` at
-- `l` has its `head` at `l` and its `tail` 8 bytes on.
pub mod Linked
pub mod Refine
pub mod Walk
pub mod Frame
mod Tests
use shmily.Base.{
  ℕ, zero, suc, ◌+◌, ◌-◌, ◌≤◌, ◌<◌, Bool, true, false, Option, none, some, ◌==◌, ltb, leb,
  if◌then◌else◌, update,
}

pub record Links : Type 0 where
  pub prev : ℕ → ℕ
  pub next : ℕ → ℕ

abbrev pub head : ℕ → ℕ
head l = l

abbrev pub tail : ℕ → ℕ
tail l = l + 8

-- `p->prev = q` and `p->next = q`.
abbrev pub set_prev : ℕ → ℕ → Links → Links
set_prev p q m = record m { prev = update m.prev p q }

abbrev pub set_next : ℕ → ℕ → Links → Links
set_next p q m = record m { next = update m.next p q }

unfoldable pub initialize : ℕ → Links → Links
initialize l m =
    let m = set_prev (head l) 0 m in
    let m = set_next (tail l) 0 m in
    let m = set_next (head l) (tail l) m in set_prev (tail l) (head l) m

unfoldable pub append : ℕ → ℕ → Links → Links
append l elem m =
    let m = set_prev elem (m.prev (tail l)) m in
    let m = set_next elem (tail l) m in
    let m = set_next (m.prev (tail l)) elem m in set_prev (tail l) elem m

unfoldable pub push : ℕ → ℕ → Links → Links
push l elem m =
    let m = set_prev elem (head l) m in
    let m = set_next elem (m.next (head l)) m in
    let m = set_prev (m.next (head l)) elem m in set_next (head l) elem m

unfoldable pub remove : ℕ → Links → Links
remove elem m =
    let m = set_prev (m.next elem) (m.prev elem) m in set_next (m.prev elem) (m.next elem) m

unfoldable pub pop : ℕ → Links → ℕ × Links
unfolding remove
pop l m = let ret = m.next (head l) in (ret, remove ret m)

unfoldable pub is_empty : ℕ → Links → Bool
is_empty l m = m.next (head l) == tail l

-- The loop of `get_length`, from `elem` on; `none` when the rounds do not suffice.
unfoldable pub count_from : ℕ → ℕ → Links → ℕ → ℕ → Option ℕ
count_from zero l m elem i = none
count_from (suc k) l m elem i =
    let rest = count_from k l m (m.next elem) (i + 1) in if elem == tail l then some i else rest

unfoldable pub get_length : ℕ → ℕ → Links → Option ℕ
unfolding count_from
get_length fuel l m = count_from fuel l m (m.next (head l)) 0

-- `for (int i=0; i<idx; i++) ;` has no body: `elem` stays the first element.
unfoldable pub get_elem : ℕ → ℕ → ℕ → Links → Option ℕ
unfolding get_length
get_elem fuel l idx m = elim (get_length fuel l m) [
  | none ↦ none
  | some n ↦ some (if leb n idx then 0 else m.next (head l))
]

unfoldable pub next_elem : ℕ → ℕ → Links → ℕ
next_elem l cur_elem m = if m.next cur_elem == tail l then m.next (head l) else m.next cur_elem
