-- ===== src/Lib.antt =====
-- The file system of the Pintos kernel in cs439/proj4, from the bits of its free map up to the
-- bytes of its files; the kernel's strings, linked lists and random numbers; and its locks.
--
-- Parts, each with the file that models it:
-- - Bitmap (cs439/proj4/lib/kernel/bitmap.c): bits packed into 32-bit elements. Each bitmap_* call is
--   the definition of that name; its loop is a definition of its own (`set_loop`, `count_loop`,
--   `contains_loop`, `scan_loop`, `room_loop`) that recurs on the rounds left.
-- - Disk (cs439/proj4/devices/block.c): the device as an array of typed sectors. A read past sector
--   50000, where block_read leaves the buffer as it is, is a fault in the model.
-- - Inode (cs439/proj4/filesys/inode.c, inode.h): the block map of a file, `inode_read_at` and the
--   loop of `inode_write_at`.
-- - FileSys (cs439/proj4/filesys/free-map.c and inode.c): the device, the free map and the inode of
--   the map's file as one state. FileSys/Blocks has creation, extension and `inode_write_at` over
--   `allocate`, which stands for free_map_allocate; the calls of free-map.c take `bitmap_write` in
--   turn, which writes the map with `inode_write_at`. FileSys/Tied closes this circle: the write of
--   the map finds its blocks there, and a claim by that write is a fault.
-- - What creation and writing rely on from free_map_allocate is the record `IsAllocator` of
--   FileSys/Claims: a claim marks a free sector, and changes no sector of the device but those of the
--   map's own file (`own`). FileSys/Unopened fills it for a map whose file is not open, FileSys/Opened
--   for a map that is written to its file at every claim; FileSys/Release is the way back. FileSys/Reread has the
--   map read back from its file.
-- - FileSys/Stored says what a file is that is laid out (its inode, seven index blocks and its
--   blocks are in marked sectors of the device, each another one) and what a stored file is: the
--   sector of its inode holds the inode that is in memory.
-- - FileSys/OpenInodes (inode.c): the list of open inodes. A pointer is an address, `malloc` gives
--   one or none, and a dangling pointer is a fault. The release of the blocks of a removed file at
--   the last close is modelled as it is written.
-- - CString (cs439/proj4/lib/string.c): one flat memory of bytes, a function of the address; NULL is
--   0. Each function of the file is the definition of that name and gives its result with the new
--   memory. A loop that ends at a null byte takes the most rounds that it may make as fuel. Texts
--   says what a text in memory is; Move, Compare, Scan, Substring, Token and Copy have one family
--   of functions each, with the reference functions on lists that they are compared with.
-- - KernelList (cs439/proj4/lib/kernel/list.c): the fields `prev` and `next` of all elements as one
--   memory; an element, and a list, is an address. Chains and Nodes say which elements a well-formed
--   list holds; Splice has what the calls that move links share, Walk what the loops share, and
--   Insert, Move, Ends, Reverse, Ordered, Extremes, Sort and Unique have the calls. The comparison is a
--   parameter. Sort/Runs and Pairs are about sequences alone; Sort/Steps, Merge, Pass and Sorted follow the loops
--   of list_sort from the inner to the outer one.
-- - Locks (cs439/proj4/threads/synch.c, synch.h, and thread_unblock of thread.c): one lock and any
--   number of threads. Code with interrupts disabled is one section of a thread, a definition each;
--   `Section` says which one a thread runs next, and `Reachable` is the states that sections lead to.
--   The waiters are the sequence that a well-formed list of KernelList holds. Invariant has the
--   invariant, Preserve, Leave and Release the sections, Safety the states that they lead to, and
--   Progress the way of a blocked thread to the lock.
-- - Random (cs439/proj4/lib/random.c): the static variables as one state, and the bytes written as a
--   list. Random/Permutation says when a state is a permutation of the bytes. Random/Keystream
--   has RC4 written out from its definition, and what ties the calls to it.
-- - Prelude: shared names, C arrays as lists, faults, and the digits of words.
--
-- Results are values of `Option`: `none` is a kernel panic (a failed ASSERT, PANIC, or an access
-- outside an object). `size_t`, `unsigned long` and `block_sector_t` have 32 bits.
--
-- Bounds and fuel: the loops of reading and writing take as fuel the number of bytes asked for and
-- one more, which is enough since every round moves at least one byte; loops that count take the
-- number of their rounds; a loop of string.c takes one round more than the text has bytes, and a
-- loop along a list one more than it has elements. A file has at most 1011 blocks, 115 direct and
-- 7 times 128 indirect ones; byte_to_sector takes sectors up to 50000, so an allocator has at most
-- 50001.
--
-- Not modelled: interleavings of file system calls (one call runs by itself), failure of `malloc`
-- except where the code tests it, negative `off_t` values, the sectors of one type read at
-- another, open files, directories, and the threads of the kernel.
pub mod Prelude
pub mod Bitmap
pub mod Disk
pub mod Inode
pub mod FileSys
pub mod CString
pub mod KernelList
pub mod Locks
pub mod Random
