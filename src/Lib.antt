-- ===== src/Lib.antt =====
-- Verification of the Feng OS kernel and its servers.
--
-- The system is a small kernel with servers: the kernel (src/core, src/mm, src/boot) allocates pages,
-- runs processes and carries messages; the servers (src/srv) are processes that answer messages. A
-- server that receives calls the scheduler, and a message to a waiting process makes it runnable, so
-- Ipc stands on Sched.
--
-- Parts, and the code that they model:
--   Buddy  src/mm/buddy.c. The free lists `block[]` are sequences of page indices per order,
--          `activate` a sequence too. `block_insert`, `alloc_block` (`__alloc_pages`), `alloc_pages`,
--          `get_free_pages`, `free_block` (`__free_pages`), `free_pages` and `buddy_system_init`.
--   Sched  src/core/sched.c. A process is named by its pid; the run queue `proc_head` and the buckets
--          of the table by pid are sequences. `schedule` is the rotation of the queue (`put_prev`), the
--          search (`first_runnable`) and the switch (`switch_to`). `update_alarm`, `sys_sleep`,
--          `sys_pause`, `hash_proc`, `map_proc` and `unmap_proc`.
--   Ipc    src/core/ipc.c. `do_send` and `do_recv`, each cut where it calls `schedule`: what a call does
--          after it has the CPU again is a function of its own (`recv_all` once more, `take_intr`,
--          `take_from`).
--   Keyboard  src/srv/keyboard/keyboard.c. The ring buffer `kb_buf` (`put_char`, `read_char`), the scan codes
--          (`annlysis_scancode`, one function per branch) with `keymap`, and the answer to a read in
--          `main` (`serve_read`), which takes the codes that the interrupts bring as a sequence.
--   Heap   src/libc/malloc.c. The lists `m_free` and `m_busy` of blocks and the pool of nodes, `merge_free`,
--          `malloc` (its end is `hand_out`) and `free`, over `sbrk` of src/libc/syscall.c. The kernel's
--          answer to a move of the break is a parameter, of which nothing is supposed.
--   Vga    src/srv/video/vga.c. The cells of the video memory and the two cursor registers; `vga_write` is a
--          turn per character: `draw` is its `switch` and `settle` the rest, with the scroll. `cur` is
--          kept as the 32 bits of an `int`, since a backspace can make it negative.
--   Format  `number` of src/libc/vsprintf.c and src/core/printk.c, which are the same: the digits
--          (`number_digits`), the characters in the order in which `tmp` is filled (`number_tmp`), and
--          their place in the field (`layout`).
--   Vfs    src/srv/vfs/vfs.c. The dentries are a store by address, `__file_map` a sequence of tables per bucket.
--          A call gives its result and the state after it, `none` is a fault of the server. `walk` is a turn
--          of the loop of `vfs_lookup`, `install` the end of `vfs_open`; `handle` is one message of
--          `do_process`, and `mount_root` and `mount_dev` make the first dentries. What the servers behind
--          the files answer is a parameter (`Servers`), of which nothing is supposed.
--   Disk   src/srv/disk/disk.c. A sector and memory are functions to bytes. `do_request` is the sequence of
--          values that go to the ports; `transfer` sends them to the drive, which is a parameter (`Drive`) that
--          answers with events, and `read_loop` and `write_loop` are its loop over these, with `disk_read`
--          and `disk_write` as its turns; `disk_part` reads the table of partitions, and `bdev_transfer` and `bdev_part` are the messages of `main`.
--   Slab   src/mm/slab.c and kmalloc.c. The three lists of a cache are sequences of slabs, an array is a function. `geometry` is
--          the computation of `kmem_cache_create`, `take_object` is `____cache_alloc`, `walk_slabs` its loop
--          over a list, `cache_alloc` and `cache_free` are `__cache_alloc` and `__cache_free`. The pages come
--          as an argument, since alloc_pages of Buddy names them by their index. `kmalloc` chooses a cache.
--   Ext2   src/srv/ext2/main.c and cache.c. The disk is a function to bytes. `getinode` with the map of inodes,
--          `get_block_no` (its loops are `find_entry` and `descend`), `getblock`, `ext2_read` with its loop,
--          `ext2_lookup` (`scan` is its loop over a block), `setblock`, `alloc_block` and `alloc_inode`, whose
--          loops over groups, bytes and bits are `free_group`, `free_byte` and `free_bit`. Reads of the disk
--          succeed; whether the bitmap can be written is an argument.
--   Links  src/include/kernel/list.h: the circular lists that every other part sees as sequences. A node is an
--          address, and the store two functions to its fields. `insert_between` is `__list_add`, `join` is
--          `__list_del`, `for_each` the loop of `list_for_each`.
--   Page   src/mm/page.c. Memory is a function from a page and an index to a word of 64 bits, and the pages that
--          the allocator is going to answer are a list. `walk` is one level of `map_page`; `kmap`, and
--          `free_proc_mm`, whose four loops are `free_table` at four depths. The well-formed tables are in
--          Page/Tree: each page has one place, the path of indices to it.
--   Process  src/core/sys.c, fork.c and `send_signal` of ipc.c, over Page and Sched. `do_brk`; `do_exit`, cut at
--          its message to the file system (`exit_begin`, `exit_end`); `do_wait`, cut where it blocks
--          (`wait_end` is what it does after); `copy_mm`, whose three loops are `copy_ranges` over the
--          segments, the stack and the heap.
--   Shell  shell/main.c. `getline` over the sequence of characters that are typed, and `parse_cmd`, whose `argv`
--          are indices into the buffer; a store behind the 512 characters of the buffer or the 32 entries of
--          `argv` is a fault.
--   Prelude is what the parts share: tests on numbers, sequences, and lemmas of those.
--
-- Conventions: numbers are natural numbers, with the wrap-around of the C type written out where the
-- code can reach it. A NULL result and a failed assertion are `none`; the comment of a definition says
-- which. The circular lists of src/include/kernel/list.h are sequences; `list_add_tail` is an append and
-- `list_del` removes the entry, and Links has both on the linked nodes. There is one CPU, and a spin
-- lock makes its section one step.
--
-- Loops are structural recursion. The insertion of a block climbs at most `MAX_ORDER` orders, and the
-- initialisation is run on the number of pages as fuel: each turn takes at least one page. The loop
-- over the digits of a number has a fuel of 64: a number of 64 bits has no more digits in any base. The
-- loop over a path has a turn for each character, and each turn takes one at least. A read
-- of a file has a turn for each byte, and each turn reads one at least. The loop that copies a range of
-- pages has a turn for each page, and `list_for_each` a bound that its caller gives.
--
-- Not modelled: assembly, hardware tables and the set-up of the devices through their ports (src/boot,
-- src/include/boot), which have no meaning in the model; the wrappers of the system calls (src/libc);
-- input and output of the commands (bin). The set-up of the first page tables, the rest of do_fork,
-- exec, kfree, writes and new directories of ext2, FAT32, the format loop, and the search of a command
-- by the shell have no model here.
pub mod Prelude
pub mod Buddy
pub mod Sched
pub mod Ipc
pub mod Keyboard
pub mod Heap
pub mod Vga
pub mod Format
pub mod Vfs
pub mod Disk
pub mod Slab
pub mod Ext2
pub mod Links
pub mod Page
pub mod Process
pub mod Shell
