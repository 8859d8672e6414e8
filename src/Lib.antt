-- ===== src/Lib.antt =====
-- Shmily is a small operating system in C++ for one 32-bit x86 processor: a kernel that schedules
-- processes and passes messages between them, and servers (memory, files, network, drivers,
-- terminal) that are processes and answer messages. This library models its logic and leaves ports,
-- descriptor tables and assembly code aside.
--
-- Files and code:
--   Base and its children: tests, lists, words of fixed width, memory, bytes and bits.
--   Support/Bitmap: lib/bitmap.cc (bitmap_scan, bitmap_set_bit, bitmap_verify_bit).
--   Support/RingBuffer: lib/ring_buffer.cc; Support/IndirectRingBuffer: lib/indirect_ring_buffer.cc.
--   Support/CycleList: lib/cycle_list.cc, the intrusive lists of the ready queues.
--   Support/Text: lib/string.cc; Support/Format: lib/stdio.cc; Support/Clock: lib/time.cc.
--   Kernel/State: the structures of kernel/process.h and kernel/ipc.h and the globals of
--     kernel/process.cc.
--   Kernel/Process: kernel/process.cc. `schedule` is the composition of `settle`, `pick`, `choose`
--     and `switch`, which are its parts in order.
--   Kernel/Ipc: kernel/ipc.cc. `send` and `receive` call `self_block` and `unblock_proc` of
--     Kernel/Process.
--   Kernel/Sync: kernel/sync.cc. `wait` is one round of the loop: the process blocks and tests the
--     value again when it is scheduled again.
--   Mm/DoublebitMap: mm/doublebit_map.cc, the map of the pages that the memory server hands out.
--   Mm/Pages: the two page maps of the class MemoryManager in mm/memory.cc, and its constructor.
--   Mm/SmallMemHeader: mm/small_mem_header.cc, a page of small blocks as a list of Support/CycleList.
--   Net/ByteOrder, Net/Frame, Net/Ip, Net/Udp, Net/Icmp, Net/Arp: the packets of net/byte_order.cc,
--     net/ethernet.cc, net/ip.cc, net/udp.cc, net/icmp.cc and net/arp.cc; a packed struct is a record
--     with the function that gives its bytes (frame_bytes, header_bytes, tcp_bytes).
--   Net/ArpCache: net/arp.cc, the class ArpCacheTable. Net/Interface: net/network_interface.cc and
--     net/route_table.cc.
--   Net/Tcp: net/tcp.h and TcpFactory::format_packet and send. Net/Tcp/Receive: resolve_packet, one
--     function for each case of its switch. Net/Tcp/Sockets: listen, connect, accept, send, recv and
--     close. The children prove: Diagram, Handshake, Transfer, OutOfOrder, Closing, Ports,
--     Header.
--   Net/ProtocolStack: net/protocol_stack.cc, which hands a frame to ARP, ICMP or TCP.
--   Fs/Volume: the structures of fs/inode.h, fs/file.h and fs/super_block.h. Fs/Inode: fs/inode.cc.
--   Fs/Protect: fs/protect.cc. Fs/Dir: fs/dir.cc, with paths in Fs/Dir/Path, entries in Fs/Dir/Entry
--     and the walk from the root and the directory calls in Fs/Dir/Tree.
--   Fs/File: fs/file.cc, descriptors and contents; Fs/File/Whole: the calls on whole files.
--   Dr/Keyboard: dr/keyboard.cc, the interrupt handler; Events says what scan codes mean.
--
-- The parts stand on each other as in the code: the allocation of blocks and inodes on Support/Bitmap,
-- the receive queues of TCP on Support/IndirectRingBuffer, arrivals on Net/ArpCache and Net/Tcp, file
-- calls on directories, inodes and permissions.
--
-- How state is modelled: an address is a number and 0 is NULL; what a pointer leads to is a function
-- of the address, so that aliasing is equality of addresses. `Links` is the store of list pointers,
-- and `Kernel` holds it with the process blocks, the messages, the process table and the globals.
-- The processor has interrupts off wherever the kernel changes this state, so an operation is one
-- step from a state to a state. `TcpFactory` holds the sockets by port, the memory of the receive
-- buffers, and what was sent and which processes were told of data, the latest first. `Volume` holds
-- the disk as the bytes of each sector, the bit maps, the open files and the user; memory for a
-- sector is always there, and a message that is only printed is left out. Words are natural numbers
-- with their wrap-around written out; an `int` is its 32-bit pattern.
--
-- Loops that walk through memory take a number of rounds and give `none` if it is too small; the
-- theorems that return a result ask for more rounds than the text, the list or the queue has items,
-- and say that there is a result; for the walk along a path that is the length of the path. The other
-- loops have their bound from the code.
--
-- Not modelled: boot code, assembly, descriptor tables, paging, the timer and ports; output; the
-- servers' message loops; mounting (fs/fs.cc), the name resolver (net/dns.cc), the page tables with malloc
-- and free (mm/memory.cc), the drivers of disk and network card, and the terminal.
pub mod Base
pub mod Support
pub mod Kernel
pub mod Mm
pub mod Net
pub mod Fs
pub mod Dr
