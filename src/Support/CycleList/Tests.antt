-- ===== src/Support/CycleList/Tests.antt =====
-- Tests of lib/cycle_list.cc: the list at 1000 holds the elements at 10 and 20.
use shmily.Base.{[], ◌∷◌, arith, All}
use shmily.Support.CycleList.{Links, initialize, append}
use shmily.Support.CycleList.Linked.{Apart}
use shmily.Support.CycleList.Refine.{IsList, initialize-IsList, append-IsList}

abbrev no_links : Links
no_links = record { prev = λ p. 0; next = λ p. 0 }

abbrev one : Links
one = append 1000 10 (initialize 1000 no_links)

abbrev two : Links
two = append 1000 20 one

one-IsList : IsList one 1000 (10 ∷ [])
one-IsList =
    append-IsList (initialize 1000 no_links) 1000 10 [] (initialize-IsList 1000 no_links)
      (λ e. absurd (omega arith), (λ e. absurd (omega arith), tt))

two-IsList : IsList two 1000 (10 ∷ 20 ∷ [])
two-IsList =
    append-IsList one 1000 20 (10 ∷ []) one-IsList
      (λ e. absurd (omega arith), (λ e. absurd (omega arith), (λ e. absurd (omega arith), tt)))

apart : All (Apart 30) (1000 ∷ 10 ∷ 20 ∷ 1008 ∷ [])
apart = (
  λ e. absurd (omega arith),
  (λ e. absurd (omega arith), (λ e. absurd (omega arith), (λ e. absurd (omega arith), tt))),
)

append-IsList_example : IsList (append 1000 30 two) 1000 (10 ∷ 20 ∷ 30 ∷ [])
append-IsList_example = append-IsList two 1000 30 (10 ∷ 20 ∷ []) two-IsList apart
