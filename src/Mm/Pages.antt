-- ===== src/Mm/Pages.antt =====
-- mm/memory.h and mm/memory.cc: the pages of the memory manager, physical ones on a bit map and
-- virtual ones on the map with two bits for each. An address 0 is NULL.
pub mod RoundTrip
mod Tests
use shmily.Base.{
  ℕ, ◌+◌, ◌/◌, ◌==◌, if◌then◌else◌, Option, none, some, add32, sub32, mul32, minus_one,
}
use shmily.Support.Bitmap.{Bitmap, init_bitmap, bitmap_set_bit, bitmap_scan}
use shmily.Mm.DoublebitMap.{DoublebitMap, initialize, get_free_slots, free_slots}

-- `struct viraddr_manage`
pub record ViraddrManage : Type 0 where
  pub vaddr_bmap : DoublebitMap
  pub vaddr_start : ℕ

-- `struct mem_pool`
pub record MemPool : Type 0 where
  pub phyaddr_bmap : Bitmap
  pub phyaddr_start : ℕ
  pub pool_size : ℕ

pub record MemoryManager : Type 0 where
  pub initproc_vir : ViraddrManage
  pub phypool : MemPool

abbrev pub page_size : ℕ
page_size = 4096

-- The constructor, with `mem` the bytes of the memory at each address, in which both maps lie, and
-- `fresh` what stood in the object before.
unfoldable pub memory_manager : (ℕ → ℕ) → ℕ → MemoryManager → MemoryManager
unfolding init_bitmap initialize
memory_manager mem mem_capacity fresh =
    let free_mem = sub32 mem_capacity 0x200000 in
    let bmap_length = free_mem / page_size / 8 in
    record {
      phypool = record {
        phyaddr_start = 0x200000;
        pool_size = free_mem;
        phyaddr_bmap =
            init_bitmap (record { bytes_len = bmap_length; base = λ i. mem (0x9000 + i) });
      };
      initproc_vir = record {
        vaddr_start = 0x200000;
        vaddr_bmap =
            initialize bmap_length (λ i. mem (0x9000 + bmap_length + i))
              fresh.initproc_vir.vaddr_bmap;
      };
    }

unfoldable pub get_vir_page : MemoryManager → ℕ → ℕ × MemoryManager
unfolding get_free_slots
get_vir_page m cnt =
    let (idx_start, map) = get_free_slots cnt m.initproc_vir.vaddr_bmap in
    (
      if minus_one == idx_start
          then 0
          else add32 m.initproc_vir.vaddr_start (mul32 idx_start page_size),
      record m { initproc_vir = record m.initproc_vir { vaddr_bmap = map } },
    )

unfoldable pub get_phy_page : MemoryManager → ℕ × MemoryManager
unfolding bitmap_scan bitmap_set_bit
get_phy_page m =
    let idx_free = bitmap_scan m.phypool.phyaddr_bmap 1 in
    if minus_one == idx_free then (0, m) else (
      add32 m.phypool.phyaddr_start (mul32 idx_free page_size),
      record m {
        phypool = record m.phypool {
          phyaddr_bmap = bitmap_set_bit m.phypool.phyaddr_bmap idx_free 1;
        };
      },
    )

unfoldable pub free_phy_page : MemoryManager → ℕ → MemoryManager
unfolding bitmap_set_bit
free_phy_page m phyaddr =
    let idx = sub32 phyaddr m.phypool.phyaddr_start / page_size in
    record m {
      phypool = record m.phypool { phyaddr_bmap = bitmap_set_bit m.phypool.phyaddr_bmap idx 0 };
    }

-- The number of pages that were freed; `none` when the rounds do not suffice.
unfoldable pub free_vir_page : ℕ → MemoryManager → ℕ → Option (ℕ × MemoryManager)
unfolding free_slots
free_vir_page fuel m viraddr =
    let idx = sub32 viraddr m.initproc_vir.vaddr_start / page_size in
    elim (free_slots fuel idx m.initproc_vir.vaddr_bmap) [
      | none ↦ none
      | some (cnt, map) ↦
          some (cnt, record m { initproc_vir = record m.initproc_vir { vaddr_bmap = map } })
    ]
