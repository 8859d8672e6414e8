-- ===== src/Mm/SmallMemHeader/Install.antt =====
-- The free blocks of a page that is installed.
use native.Mathlib.Nat.{suc-mul, div-mul-le_self, le-div_iff_mul-le, lt-div-mul-add}
use mathlib.Core.List.{append_assoc, append-nil}
use shmily.Base.{
  ℕ, zero, suc, ◌+◌, ◌-◌, ◌*◌, ◌/◌, ◌%◌, ◌^◌, ◌<◌, ◌≤◌, ◌≡◌, refl, ap, ◌∙◌, List, [], ◌∷◌, ◌++◌,
  All, All-append, All-imp, length, arith, add32, ◌≢◌, update_ne, ==_refl,
}
use shmily.Support.CycleList.{Links, initialize, append, tail}
use shmily.Support.CycleList.Linked.{Apart}
use shmily.Support.CycleList.Refine.{IsList, nodes, initialize-IsList, append-IsList}
use shmily.Mm.Pages.{page_size}
use shmily.Mm.SmallMemHeader.{
  SmallMemHeaders, header_size, page_in_free_queue, append_blocks, install_mem_header,
}

-- `n` blocks of `size` bytes, the first at `start`.
abbrev pub blocks : ℕ → ℕ → ℕ → List ℕ
blocks zero start size = []
blocks (suc n) start size = start ∷ blocks n (start + size) size

length-blocks : (n start size : ℕ) → length (blocks n start size) ≡ n
length-blocks zero start size = refl
length-blocks (suc n) start size = ap suc (length-blocks n (start + size) size)

step : (n size : ℕ) → suc n * size ≡ size + n * size
step n size = suc-mul n size ∙ omega arith

-- Each of the addresses is 8 bytes or more below those behind it, so that the elements there, of 8
-- bytes each, do not overlap.
abbrev pub Spaced : List ℕ → Type 0
Spaced [] = Unit {0}
Spaced (x ∷ xs) = All (λ y. x + 8 ≤ y) xs × Spaced xs

blocks-above :
    (n start size from : ℕ) → from + 8 ≤ start → All (λ y. from + 8 ≤ y) (blocks n start size)
blocks-above zero start size from h = tt
blocks-above (suc n) start size from h = (h, blocks-above n (start + size) size from (omega arith))

blocks-Spaced : (n start size : ℕ) → 8 ≤ size → Spaced (blocks n start size)
blocks-Spaced zero start size h = tt
blocks-Spaced (suc n) start size h =
    (blocks-above n (start + size) size start (omega arith), blocks-Spaced n (start + size) size h)

-- Each block lies between the bounds.
blocks-inside :
    (n start size from to : ℕ)
    → from ≤ start
    → start + n * size ≤ to
    → All (λ b. (from ≤ b) × (b + size ≤ to)) (blocks n start size)
blocks-inside zero start size from to lo hi = tt
blocks-inside (suc n) start size from to lo hi =
    let s = step n size in
    ((lo, omega arith), blocks-inside n (start + size) size from to (omega arith) (omega arith))

Apart-nodes :
    (queue elem : ℕ) (xs : List ℕ)
    → queue + 8 < elem
    → All (λ y. y < elem) xs
    → All (Apart elem) (nodes queue xs)
Apart-nodes queue elem xs far below = (
  λ e. absurd (omega arith),
  All-append (Apart elem) xs (tail queue ∷ [])
      (All-imp (λ y. y < elem) (Apart elem) xs (λ y lt e. absurd (omega arith)) below)
      (λ e. absurd (omega arith), tt),
)

append_blocks-IsList :
    (n queue size elem : ℕ) (m : Links) (xs : List ℕ)
    → IsList m queue xs
    → queue + 8 < elem
    → All (λ y. y < elem) xs
    → 0 < size
    → elem + n * size < 2 ^ 32
    → IsList (append_blocks n queue size elem m) queue (xs ++ blocks n elem size)
unfolding append_blocks
append_blocks-IsList zero queue size elem m xs h far below pos fits = rw append-nil h
append_blocks-IsList (suc n) queue size elem m xs h far below pos fits =
    let s = step n size in
    let no_wrap : add32 elem size ≡ elem + size = omega arith in
    let more =
      append_blocks-IsList n queue size (elem + size) (append queue elem m) (xs ++ elem ∷ [])
        (append-IsList m queue elem xs h (Apart-nodes queue elem xs far below)) (omega arith)
        (All-append (λ y. y < elem + size) xs (elem ∷ [])
          (All-imp (λ y. y < elem) (λ y. y < elem + size) xs (λ y lt. omega arith) below)
          (omega arith, tt))
        pos (omega arith) in
    rw (no_wrap, ← append_assoc xs (elem ∷ []) (blocks n (elem + size) size)) more

-- A page that starts at a multiple of 4096, for blocks of 8 to 4064 bytes, is installed with as many
-- free blocks as fit behind its header: the list of the header is well-formed and holds them in the
-- order of their addresses, from the end of the header on and each a block's size behind the one
-- before, none of them reaches into the header or over the end of the page, no two elements of the
-- list overlap, its head and its tail included, and the number and the size of the blocks stand in
-- the header. The numbers in the header of any other page stay as they were.
pub install_mem_header-Blocks :
    (h : SmallMemHeaders) (page size : ℕ)
    → page % page_size ≡ 0
    → page + page_size < 2 ^ 32
    → 8 ≤ size
    → size ≤ page_size - header_size
    → let h' = install_mem_header h page size in
      let xs = blocks (h'.free_cnts page) (page + header_size) size in
      IsList h'.links (page_in_free_queue page) xs
      × All (λ b. (page + header_size ≤ b) × (b + size ≤ page + page_size)) xs
      × Spaced (page_in_free_queue page ∷ tail (page_in_free_queue page) ∷ xs)
      × (0 < h'.free_cnts page)
      × (page_size - header_size < h'.free_cnts page * size + size)
      × (h'.each_block_size page ≡ size)
      × ((p : ℕ)
          → p ≢ page
          → (h'.free_cnts p ≡ h.free_cnts p) × (h'.each_block_size p ≡ h.each_block_size p))
unfolding install_mem_header
install_mem_header-Blocks h page size aligned fits wide small =
    let pos : 0 < size = omega arith in
    let n = 4064 / size in
    let room = div-mul-le_self 4064 size in
    let q = page + 16 in
    let empty = initialize-IsList q h.links in
    rw (aligned, ==_refl)
      (
        append_blocks-IsList n q size (page + 32) (initialize q h.links) [] empty (omega arith) tt
            pos (omega arith),
        blocks-inside n (page + 32) size (page + 32) (page + 4096) (omega arith) (omega arith),
        (
          (omega arith, blocks-above n (page + 32) size (page + 16) (omega arith)),
          (
            blocks-above n (page + 32) size (page + 16 + 8) (omega arith),
            blocks-Spaced n (page + 32) size wide,
          ),
        ),
        (le-div_iff_mul-le pos).1 (omega arith),
        lt-div-mul-add pos,
        refl,
        λ p ne. (update_ne h.free_cnts page p n ne, update_ne h.each_block_size page p size ne),
      )
