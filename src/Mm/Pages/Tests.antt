-- ===== src/Mm/Pages/Tests.antt =====
-- Tests of the pages: of 16 virtual pages 0 and 2 are in use, of 8 physical ones 0 and 1.
use shmily.Base.{ℕ, ◌<◌, ◌≡◌, ◌≢◌, ◌⊎◌, refl, some, arith, ◌==◌, if◌then◌else◌, true, false}
use shmily.Support.Bitmap.{Bitmap, IsValid, bitmap_verify_bit, bitmap_scan}
use shmily.Mm.DoublebitMap.{DoublebitMap, field, get_slot_status, search, get_free_slots}
use shmily.Mm.DoublebitMap.Alloc.{HasSlots}
use shmily.Mm.Pages.{
  MemoryManager, get_phy_page, free_phy_page, get_vir_page, free_vir_page, memory_manager,
}
use shmily.Mm.Pages.RoundTrip.{page_at, get_phy_page-free_phy_page, free_vir_page-get_vir_page}

abbrev slots : DoublebitMap
slots = record { bytes_len = 2; base = λ i. if i == 0 then 17 else 0 }

abbrev pages : Bitmap
pages = record { bytes_len = 1; base = λ i. if i == 0 then 3 else 0 }

abbrev manager : MemoryManager
manager = record {
  initproc_vir = record { vaddr_bmap = slots; vaddr_start = 0x200000 };
  phypool = record { phyaddr_bmap = pages; phyaddr_start = 0x200000; pool_size = 0x8000 };
}

abbrev statuses : ℕ → ℕ
statuses j = get_slot_status j slots

slots-HasSlots : HasSlots slots statuses
slots-HasSlots = record { valid = λ i. ground arith; status = λ j hj. refl }

pages-IsValid : IsValid pages
pages-IsValid = record { bytes = λ i. ground arith; small = omega arith }

third_page : (get_phy_page manager).0 ≡ 0x202000
unfolding get_phy_page bitmap_scan
third_page = refl

-- 16 MB, of which the first two are not handed out: 448 bytes of bit map.
first_map : (memory_manager (λ i. 0) 0x1000000 manager).phypool.phyaddr_bmap.bytes_len ≡ 448
unfolding memory_manager
first_map = refl

get_phy_page-free_phy_page_example :
    let used = bitmap_verify_bit pages in
    let (page, m') = get_phy_page manager in
    ((page ≡ 0) × (m' ≡ manager) × ((j : ℕ) → j < 8 → used j ≡ true))
    ⊎ ((i : ℕ) × (page ≡ page_at 0x200000 i)
        × (i < 8)
        × (page ≢ 0)
        × (used i ≡ false)
        × ((j : ℕ) → j < i → used j ≡ true)
        × ((k : ℕ)
            → bitmap_verify_bit m'.phypool.phyaddr_bmap k ≡ (if i == k then true else used k))
        × ((k : ℕ) → bitmap_verify_bit (free_phy_page m' page).phypool.phyaddr_bmap k ≡ used k))
get_phy_page-free_phy_page_example =
    get_phy_page-free_phy_page manager pages-IsValid (omega arith) (omega arith)

free_vir_page-get_vir_page_example :
    let (page, m1) = get_vir_page manager 3 in
    (m2 : MemoryManager) × (free_vir_page 4 m1 page ≡ some (3, m2))
    × HasSlots m2.initproc_vir.vaddr_bmap statuses
unfolding get_free_slots search get_slot_status field
free_vir_page-get_vir_page_example =
    free_vir_page-get_vir_page 4 3 manager statuses slots-HasSlots (omega arith) (omega arith)
      (omega arith) (omega arith) (omega arith) (λ e. absurd (omega arith))
