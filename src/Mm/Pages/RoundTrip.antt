-- ===== src/Mm/Pages/RoundTrip.antt =====
-- Pages that are taken and given back.
use shmily.Base.{
  ℕ, ◌+◌, ◌*◌, ◌/◌, ◌^◌, ◌<◌, ◌≤◌, ◌≡◌, ◌≢◌, ◌⊎◌, inl, inr, refl, sym, ◌∙◌, true, false, some, ◌==◌,
  if◌then◌else◌, arith, add32, sub32, mul32, minus_one, ==_refl, ==_ne, ℕ_discrete,
}
use shmily.Support.Bitmap.{Bitmap, IsValid, bitmap_verify_bit, bitmap_set_bit, bitmap_scan}
use shmily.Support.Bitmap.Scan.{scan_one-FirstFree}
use shmily.Support.Bitmap.Bits.{verify_bit-set_bit, set_bit-IsValid}
use shmily.Mm.DoublebitMap.{get_free_slots}
use shmily.Mm.DoublebitMap.Alloc.{HasSlots}
use shmily.Mm.DoublebitMap.Search.{get_free_slots-Allocated}
use shmily.Mm.DoublebitMap.Free.{free_slots-get_free_slots}
use shmily.Mm.Pages.{
  MemoryManager, page_size, get_phy_page, free_phy_page, get_vir_page, free_vir_page,
}

-- The index of a page is found again from its address.
index_back :
    (start idx : ℕ)
    → start + idx * 4096 < 2 ^ 32
    → sub32 (add32 start (mul32 idx 4096)) start / 4096 ≡ idx
index_back start idx fits = omega arith

-- The address of page `i` of those that begin at `start`.
abbrev pub page_at : ℕ → ℕ → ℕ
page_at start i = start + i * page_size

taken_back :
    (b : Bitmap) (i k : ℕ)
    → IsValid b
    → bitmap_verify_bit b i ≡ false
    → bitmap_verify_bit (bitmap_set_bit (bitmap_set_bit b i 1) i 0) k ≡ bitmap_verify_bit b k
taken_back b i k valid free = elim (ℕ_discrete i k) [
  | yes e ↦
      verify_bit-set_bit (bitmap_set_bit b i 1) i 0 k (set_bit-IsValid b i 1 valid)
      ∙ rw (← e) (rw ==_refl (sym free))
  | no ne ↦
      verify_bit-set_bit (bitmap_set_bit b i 1) i 0 k (set_bit-IsValid b i 1 valid)
      ∙ rw (==_ne i k ne) (verify_bit-set_bit b i 1 k valid ∙ rw (==_ne i k ne) refl)
]

-- With a pool that does not start at 0 and ends below 2 ^ 32: either every physical page is in use,
-- and `get_phy_page` gives NULL and changes nothing, or it gives the lowest page that is not in use,
-- which lies in the pool and is in use from then on, no other page changes, and after
-- `free_phy_page` of it every page is as it was before.
pub get_phy_page-free_phy_page :
    (m : MemoryManager)
    → IsValid m.phypool.phyaddr_bmap
    → 0 < m.phypool.phyaddr_start
    → page_at m.phypool.phyaddr_start (8 * m.phypool.phyaddr_bmap.bytes_len) < 2 ^ 32
    → let used = bitmap_verify_bit m.phypool.phyaddr_bmap in
      let (page, m') = get_phy_page m in
      ((page ≡ 0) × (m' ≡ m) × ((j : ℕ) → j < 8 * m.phypool.phyaddr_bmap.bytes_len → used j ≡ true))
      ⊎ ((i : ℕ) × (page ≡ page_at m.phypool.phyaddr_start i)
          × (i < 8 * m.phypool.phyaddr_bmap.bytes_len)
          × (page ≢ 0)
          × (used i ≡ false)
          × ((j : ℕ) → j < i → used j ≡ true)
          × ((k : ℕ)
              → bitmap_verify_bit m'.phypool.phyaddr_bmap k ≡ (if i == k then true else used k))
          × ((k : ℕ) → bitmap_verify_bit (free_phy_page m' page).phypool.phyaddr_bmap k ≡ used k))
unfolding get_phy_page free_phy_page
get_phy_page-free_phy_page m valid pos fits =
    let b = m.phypool.phyaddr_bmap in
    let i = bitmap_scan b 1 in
    elim (scan_one-FirstFree b valid) [
      | inl (none, full) ↦ inl (rw none (refl, refl, full))
      | inr (within, clear, before) ↦
          let found : (minus_one == i) ≡ false =
            ==_ne minus_one i (λ e. absurd (omega (arith, valid.small))) in
          inr (
            rw found (
              i,
              omega arith,
              within,
              (λ e. absurd (omega arith)),
              clear,
              before,
              (λ k. verify_bit-set_bit b i 1 k valid),
              (λ k.
                  rw (index_back m.phypool.phyaddr_start i (omega arith))
                    (taken_back b i k valid clear)),
            ))
    ]

-- With a virtual space that the map covers and that ends below 2 ^ 32: when `get_vir_page` finds
-- `cnt` pages in a row, `free_vir_page` of their address, with more rounds than pages, returns, it
-- returns their number, and every page has the status that it had before.
pub free_vir_page-get_vir_page :
    (fuel cnt : ℕ) (m : MemoryManager) (s : ℕ → ℕ)
    → HasSlots m.initproc_vir.vaddr_bmap s
    → m.initproc_vir.vaddr_bmap.bytes_len < 2 ^ 28
    → page_at m.initproc_vir.vaddr_start (8 * m.initproc_vir.vaddr_bmap.bytes_len) < 2 ^ 32
    → 1 ≤ cnt
    → cnt < 2 ^ 31
    → cnt < fuel
    → (get_free_slots cnt m.initproc_vir.vaddr_bmap).0 ≢ minus_one
    → let (page, m1) = get_vir_page m cnt in
      (m2 : MemoryManager) × (free_vir_page fuel m1 page ≡ some (cnt, m2))
      × HasSlots m2.initproc_vir.vaddr_bmap s
unfolding get_vir_page free_vir_page
free_vir_page-get_vir_page fuel cnt m s slots small fits pos short rounds found =
    let b = m.initproc_vir.vaddr_bmap in
    let (map, freed, same) =
      free_slots-get_free_slots fuel cnt b s slots small pos short rounds found in
    let given : (minus_one == (get_free_slots cnt b).0) ≡ false =
      ==_ne minus_one (get_free_slots cnt b).0 (λ e. found (sym e)) in
    elim (get_free_slots-Allocated cnt b s slots small pos short) [
      | inl failed ↦ absurd (found failed.0)
      | inr (inside, run, lowest, w) ↦ (
        record m { initproc_vir = record m.initproc_vir { vaddr_bmap = map } },
        rw
            (
              given,
              free_vir_page,
              index_back m.initproc_vir.vaddr_start (get_free_slots cnt b).0 (omega arith),
              freed,
            )
            refl,
        same,
      )
    ]
