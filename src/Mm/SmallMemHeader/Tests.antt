-- ===== src/Mm/SmallMemHeader/Tests.antt =====
-- Tests of the installation of a page for small blocks.
use shmily.Base.{ℕ, ◌+◌, ◌-◌, ◌*◌, ◌<◌, ◌≤◌, ◌≡◌, ◌≢◌, refl, All, ◌∷◌, arith}
use shmily.Support.CycleList.{tail}
use shmily.Support.CycleList.Refine.{IsList}
use shmily.Mm.Pages.{page_size}
use shmily.Mm.SmallMemHeader.{SmallMemHeaders, header_size, page_in_free_queue, install_mem_header}
use shmily.Mm.SmallMemHeader.Install.{blocks, Spaced, install_mem_header-Blocks}

abbrev nothing : SmallMemHeaders
nothing = record {
  links = record { prev = λ p. 0; next = λ p. 0 };
  each_block_size = λ p. 0;
  free_cnts = λ p. 0;
}

abbrev installed : SmallMemHeaders
installed = install_mem_header nothing 0x200000 1024

three_blocks : installed.free_cnts 0x200000 ≡ 3
unfolding install_mem_header
three_blocks = refl

-- A page that is not aligned is left alone.
not_aligned : install_mem_header nothing 0x200010 1024 ≡ nothing
unfolding install_mem_header
not_aligned = refl

install_mem_header-Blocks_example :
    let xs = blocks (installed.free_cnts 0x200000) (0x200000 + header_size) 1024 in
    IsList installed.links (page_in_free_queue 0x200000) xs
    × All (λ b. (0x200000 + header_size ≤ b) × (b + 1024 ≤ 0x200000 + page_size)) xs
    × Spaced (page_in_free_queue 0x200000 ∷ tail (page_in_free_queue 0x200000) ∷ xs)
    × (0 < installed.free_cnts 0x200000)
    × (page_size - header_size < installed.free_cnts 0x200000 * 1024 + 1024)
    × (installed.each_block_size 0x200000 ≡ 1024)
    × ((p : ℕ)
        → p ≢ 0x200000
        → (installed.free_cnts p ≡ nothing.free_cnts p)
          × (installed.each_block_size p ≡ nothing.each_block_size p))
install_mem_header-Blocks_example =
    install_mem_header-Blocks nothing 0x200000 1024 refl (omega arith) (omega arith) (omega arith)
