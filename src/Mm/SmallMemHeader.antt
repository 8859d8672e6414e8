-- ===== src/Mm/SmallMemHeader.antt =====
-- mm/small_mem_header.h and mm/small_mem_header.cc: a page for small blocks of memory. Its header has
-- 32 bytes: the page's own pointers, the size of a block, the number of free blocks and, 16 bytes on,
-- the list of them.
pub mod Install
mod Tests
use shmily.Base.{ℕ, zero, suc, ◌+◌, ◌-◌, ◌/◌, ◌%◌, ◌==◌, if◌then◌else◌, not, add32, update}
use shmily.Support.CycleList.{Links, initialize, append}
use shmily.Mm.Pages.{page_size}

-- The pointers at each address, and the two numbers in the header at each address. The two pointers
-- of an element are 8 bytes of memory, so that this is the memory as long as no two elements stand
-- closer than that: blocks have 8 bytes or more. The code asks for 16 bytes or more
-- (`2 << (desc_idx + 3)`).
pub record SmallMemHeaders : Type 0 where
  pub links : Links
  pub each_block_size : ℕ → ℕ
  pub free_cnts : ℕ → ℕ

abbrev pub header_size : ℕ
header_size = 32

abbrev pub page_in_free_queue : ℕ → ℕ
page_in_free_queue page = page + 16

-- The loop, with the rounds left.
unfoldable pub append_blocks : ℕ → ℕ → ℕ → ℕ → Links → Links
append_blocks zero queue size elem links = links
append_blocks (suc rounds) queue size elem links =
    append_blocks rounds queue size (add32 elem size) (append queue elem links)

unfoldable pub install_mem_header : SmallMemHeaders → ℕ → ℕ → SmallMemHeaders
unfolding append_blocks initialize
install_mem_header h page each_block_size =
    let free_cnts = (page_size - header_size) / each_block_size in
    let queue = page_in_free_queue page in
    if not (0 == page % page_size) then h else record {
      links =
          append_blocks free_cnts queue each_block_size (page + header_size)
            (initialize queue h.links);
      each_block_size = update h.each_block_size page each_block_size;
      free_cnts = update h.free_cnts page free_cnts;
    }
