-- ===== src/Mm/DoublebitMap/Tests.antt =====
-- Tests of mm/doublebit_map.cc on a map of two bytes: slots 0 and 2 are in use.
use shmily.Base.{ℕ, ◌≡◌, refl, arith, ◌==◌, if◌then◌else◌}
use shmily.Mm.DoublebitMap.{DoublebitMap, field, get_slot_status, search, get_free_slots}
use shmily.Mm.DoublebitMap.Slots.{IsValid}
use shmily.Mm.DoublebitMap.Alloc.{HasSlots}
use shmily.Mm.DoublebitMap.Search.{Allocated, get_free_slots-Allocated}

abbrev map : DoublebitMap
map = record { bytes_len = 2; base = λ i. if i == 0 then 17 else 0 }

map-IsValid : IsValid map
map-IsValid i = ground arith

abbrev status : ℕ → ℕ
status j = get_slot_status j map

map-HasSlots : HasSlots map status
map-HasSlots = record { valid = map-IsValid; status = λ j hj. refl }

-- Two slots fit behind slot 2; eight slots per byte are searched, so that ten fit as well.
starts :
    ((get_free_slots 1 map).0 ≡ 1)
    × ((get_free_slots 2 map).0 ≡ 3)
    × ((get_free_slots 10 map).0 ≡ 3)
unfolding get_free_slots search get_slot_status field
starts = (refl, refl, refl)

get_free_slots-Allocated_example : Allocated 16 3 map status (get_free_slots 3 map)
get_free_slots-Allocated_example =
    get_free_slots-Allocated 3 map status map-HasSlots (omega arith) (omega arith) (omega arith)
