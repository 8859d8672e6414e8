-- ===== src/Net/ArpCache.antt =====
-- net/arp.cc, the class `ArpCacheTable`: which hardware address an IP address belongs to. The five
-- items are a list; an address is the list of its bytes, and -1 and NULL are `none`.
pub mod Lookup
pub mod Eviction
mod Tests
use shmily.Base.{
  ℕ, zero, suc, ◌+◌, ◌<◌, Bool, true, false, ◌&&◌, Option, none, some, List, [], ◌∷◌, ◌==◌, ltb,
  if◌then◌else◌, get_or, set, add32,
}

pub record Item : Type 0 where
  pub mac_addr : List ℕ
  pub ip_addr : List ℕ
  pub ref : ℕ

abbrev pub no_item : Item
no_item = record { mac_addr = 0 ∷ 0 ∷ 0 ∷ 0 ∷ 0 ∷ 0 ∷ []; ip_addr = 0 ∷ 0 ∷ 0 ∷ 0 ∷ []; ref = 0 }

abbrev pub new_table : List Item
new_table = no_item ∷ no_item ∷ no_item ∷ no_item ∷ no_item ∷ []

-- For addresses of the same kind, byte by byte.
unfoldable pub is_same_addr : List ℕ → List ℕ → Bool
is_same_addr [] b = true
is_same_addr (x ∷ a) [] = false
is_same_addr (x ∷ a) (y ∷ b) = (x == y) && is_same_addr a b

unfoldable pub is_zero : List ℕ → Bool
is_zero [] = true
is_zero (x ∷ a) = (0 == x) && is_zero a

-- The index of the first item that passes the test; the items start at index `i`.
unfoldable pub locate : (Item → Bool) → ℕ → List Item → Option ℕ
locate test i [] = none
locate test i (item ∷ items) =
    let rest = locate test (i + 1) items in if test item then some i else rest

unfoldable pub locate_ip_addr : List ℕ → List Item → Option ℕ
unfolding locate
locate_ip_addr ip items = locate (λ item. is_same_addr item.ip_addr ip) 0 items

unfoldable pub locate_mac_addr : List ℕ → List Item → Option ℕ
unfolding locate
locate_mac_addr mac items = locate (λ item. is_same_addr item.mac_addr mac) 0 items

unfoldable pub get_free_slot : List Item → Option ℕ
unfolding locate
get_free_slot items = locate (λ item. is_zero item.mac_addr) 0 items

-- `items[i].ref++`
abbrev pub referred : ℕ → List Item → List Item
referred i items =
    let item = get_or items i no_item in set items i (record item { ref = add32 item.ref 1 })

unfoldable pub get_ip_addr : List ℕ → List Item → Option (List ℕ) × List Item
unfolding locate_mac_addr
get_ip_addr mac items = elim (locate_mac_addr mac items) [
  | none ↦ (none, items)
  | some i ↦ (some (get_or items i no_item).ip_addr, referred i items)
]

unfoldable pub get_mac_addr : List ℕ → List Item → Option (List ℕ) × List Item
unfolding locate_ip_addr
get_mac_addr ip items = elim (locate_ip_addr ip items) [
  | none ↦ (none, items)
  | some i ↦ (some (get_or items i no_item).mac_addr, referred i items)
]

-- The counter of the item stays.
unfoldable pub set_item : ℕ → List ℕ → List ℕ → List Item → List Item
set_item slot mac ip items =
    set items slot (record (get_or items slot no_item) { mac_addr = mac; ip_addr = ip })

unfoldable pub delete_item : List ℕ → List Item → List Item
delete_item mac items = elim (locate_mac_addr mac items) [
  | none ↦ items
  | some i ↦ set_item i no_item.mac_addr no_item.ip_addr items
]

unfoldable pub is_exists : List ℕ → List ℕ → List Item → Bool × List Item
is_exists mac ip items =
    let (found, items') = get_ip_addr mac items in
    elim found [ none ↦ (false, items') | some ip' ↦ (is_same_addr ip ip', items') ]

-- The loop of `remove_less_use_item`, with `items` from index `i` on to go.
unfoldable pub less_use : ℕ → ℕ → ℕ → List Item → ℕ
less_use idx less_use_cnt i [] = idx
less_use idx less_use_cnt i (item ∷ items) =
    let this = less_use i item.ref (i + 1) items in
    let that = less_use idx less_use_cnt (i + 1) items in
    if ltb item.ref less_use_cnt then this else that

unfoldable pub remove_less_use_item : List Item → ℕ
unfolding less_use
remove_less_use_item [] = 0
remove_less_use_item (item ∷ items) = less_use 0 item.ref 1 items

unfoldable pub append : List ℕ → List ℕ → List Item → List Item
append mac ip items =
    let (exists, items') = is_exists mac ip items in
    let slot : ℕ = elim (get_free_slot items') [
      | none ↦ remove_less_use_item items'
      | some i ↦ i
    ] in
    if exists then items' else set_item slot mac ip items'
