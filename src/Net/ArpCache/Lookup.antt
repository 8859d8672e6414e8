-- ===== src/Net/ArpCache/Lookup.antt =====
-- What a lookup finds, before and after an item is added.
use shmily.Base.{
  ℕ, zero, suc, ◌+◌, ◌<◌, ◌≡◌, refl, ap, ◌∙◌, ◌≢◌, List, [], ◌∷◌, Bool, true, false, arith,
  if◌then◌else◌, Option, none, some, length, length-set, get_or, get_or-set_self, set, Bool-cases,
  inl, inr, Option-cases, ==_refl,
}
use shmily.Net.ArpCache.{
  Item, no_item, is_same_addr, is_zero, locate, locate_mac_addr, get_free_slot, get_ip_addr,
  set_item, is_exists, remove_less_use_item, append,
}
use shmily.Net.ArpCache.Eviction.{remove_less_use_item-LeastUsed}

is_same_addr_refl : (a : List ℕ) → is_same_addr a a ≡ true
unfolding is_same_addr
is_same_addr_refl [] = refl
is_same_addr_refl (x ∷ a) = rw (==_refl x) (is_same_addr_refl a)

module _ (test : Item → Bool) where
  locate-set :
      (i k : ℕ) (item : Item) (items : List Item)
      → locate test i items ≡ none
      → test item ≡ true
      → k < length items
      → locate test i (set items k item) ≡ some (i + k)
  unfolding locate
  locate-set i k item [] absent good lt = absurd (omega arith)
  locate-set i zero item (x ∷ items) absent good lt = rw good (ap some (omega arith))
  locate-set i (suc k) item (x ∷ items) absent good lt = elim (Bool-cases (test x)) [
    | inl hit ↦ let w : some i ≡ none = rw hit at absent in cc
    | inr miss ↦
        let rest : locate test (i + 1) items ≡ none = rw miss at absent in
        rw miss (locate-set (i + 1) k item items rest good (omega arith) ∙ ap some (omega arith))
  ]

  locate-lt : (i r : ℕ) (items : List Item) → locate test i items ≡ some r → r < i + length items
  unfolding locate
  locate-lt i r [] h = cc
  locate-lt i r (x ∷ items) h = elim (Bool-cases (test x)) [
    | inl hit ↦ let w : some i ≡ some r = rw hit at h in ground arith
    | inr miss ↦
        let rest : locate test (i + 1) items ≡ some r = rw miss at h in
        omega (arith, locate-lt (i + 1) r items rest)
  ]

-- The slot that `append` writes to.
abbrev slot_of : List Item → ℕ
slot_of items = elim (get_free_slot items) [ none ↦ remove_less_use_item items | some i ↦ i ]

slot_in_table : (items : List Item) → items ≢ [] → slot_of items < length items
unfolding get_free_slot
slot_in_table items ne = elim (Option-cases (locate (λ item. is_zero item.mac_addr) 0 items)) [
  | inl full ↦ rw (full, slot_of) (remove_less_use_item-LeastUsed items ne).0
  | inr (i, free) ↦
      rw (free, slot_of) (omega (arith, locate-lt (λ item. is_zero item.mac_addr) 0 i items free))
]

abbrev place : List ℕ → List ℕ → Bool × List Item → List Item
place mac ip (exists, items) = if exists then items else set_item (slot_of items) mac ip items

get_ip_none :
    (mac : List ℕ) (items : List Item)
    → locate_mac_addr mac items ≡ none
    → get_ip_addr mac items ≡ (none, items)
unfolding get_ip_addr
get_ip_none mac items absent = rw (absent, get_ip_addr) refl

abbrev matches : List ℕ → Option (List ℕ) × List Item → Bool × List Item
matches ip (found, items) = elim found [
  | none ↦ (false, items)
  | some ip' ↦ (is_same_addr ip ip', items)
]

not_exists :
    (mac ip : List ℕ) (items : List Item)
    → locate_mac_addr mac items ≡ none
    → is_exists mac ip items ≡ (false, items)
unfolding is_exists
not_exists mac ip items absent = ap (matches ip) (get_ip_none mac items absent)

append_new :
    (mac ip : List ℕ) (items : List Item)
    → locate_mac_addr mac items ≡ none
    → append mac ip items ≡ set_item (slot_of items) mac ip items
unfolding append
append_new mac ip items absent = ap (place mac ip) (not_exists mac ip items absent)

found_new :
    (mac ip : List ℕ) (items : List Item) (slot : ℕ)
    → locate_mac_addr mac items ≡ none
    → slot < length items
    → (get_ip_addr mac (set_item slot mac ip items)).0 ≡ some ip
unfolding get_ip_addr set_item locate_mac_addr
found_new mac ip items slot absent lt =
    let item : Item = record (get_or items slot no_item) { mac_addr = mac; ip_addr = ip } in
    let found =
      locate-set (λ x. is_same_addr x.mac_addr mac) 0 slot item items absent (is_same_addr_refl mac)
        lt in
    let at : 0 + slot ≡ slot = omega arith in
    rw (found, get_ip_addr, at, get_or-set_self items slot item no_item lt) refl

-- A host whose hardware address is not in the table is found once it has been appended, under the
-- IP address given, whether there was a free item or one had to go; the table keeps its size.
pub get_ip_addr-append :
    (mac ip : List ℕ) (items : List Item)
    → items ≢ []
    → locate_mac_addr mac items ≡ none
    → ((get_ip_addr mac (append mac ip items)).0 ≡ some ip)
      × (length (append mac ip items) ≡ length items)
unfolding set_item
get_ip_addr-append mac ip items ne absent = rw (append_new mac ip items absent) (
  found_new mac ip items (slot_of items) absent (slot_in_table items ne),
  length-set items (slot_of items) _,
)
