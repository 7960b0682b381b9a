-- ===== src/Lib.antt =====
-- LuckOS, a small 32-bit kernel for x86 in C: a heap, paging, threads, processes, locks, a file system and drivers. The
-- parts modelled here are its memory management below the page tables, the containers it stands on, the scheduler with the
-- locks over it, the path from the disk over the file system to a loaded program, and the output on the screen.
--
-- Common: what the files share: Boolean tests, lists by native numbers, bits of words, the signed results of
--   comparators.
-- Utils.LinkedList: src/utils/linked_list.c over a store of nodes. Chain and Distinct are about chains of fields,
--   Remove, Insert and Append compare the operations with lists of nodes.
-- Utils.HashTable: src/utils/hash_table.c. A bucket is a list of entries. Matching reads the entries of one key,
--   Expand, Update, Put and Remove compare the table with a map from keys to values.
-- Utils.Math: src/utils/math.c.
-- Stdlib: src/common/stdlib.c over a memory of bytes. Strings says what a string in memory is; Copy, Compare and
--   Numbers are about the copies, `strcmp` and `int2str`.
-- Sync: Yieldlock is src/sync/yieldlock.c; the values that other threads leave in the lock while this one yields are
--   an argument. CondVar and Spinlock are the files of these names in src/sync, over the scheduler: a wait is split at
--   its yields. Mutex has a step for each statement of src/sync/mutex.c; Effect says what a step does to the two locks,
--   and Exclusion has the step relation of the threads that share a mutex, with interrupts between the steps.
-- Task.Scheduler: the ready queue of src/task/scheduler.c and the time slice of src/interrupt/timer.c. The queue is a
--   list of thread nodes, as Utils.LinkedList shows it to be. Fair has the step relation of the kernel and the order
--   of the switches, Running the invariant of the current thread.
-- Driver.HardDisk: src/driver/hard_disk.c and disk_io.S; the disk is an argument. Read has the theorem.
-- Fs: src/fs/naive_fs.c and vfs.c. Find has the search by name, Mount the table of files, Read the calls.
-- Elf: src/elf/elf.c, and in Load the segments of a program.
-- Monitor: src/monitor/monitor.c. Print has the printers, Bounds the limits of the screen, Cursor the moves
--   of the cursor, Text and Decimal what is on the screen.
-- Bitmap: src/utils/bitmap.c, a set of numbers in an array of 32-bit words. `Bitmap.member` reads the set; Words,
--   Find, Update and Resize hold the words, the search, the single bits, and init, clear and expand.
-- IdPool: src/utils/id_pool.c over the bitmap and the lock. Spec has its invariant, Grow, Allocate and Free the
--   operations. The value that `expand` returns without a return statement is an argument.
-- OrderedArray: src/utils/ordered_array.c. Memory has its loops entry by entry, Insert, Sorted and Remove compare
--   the operations with lists.
-- Kheap: src/mem/kheap.c and kheap.h over the ordered array and the lock. Kheap.antt has the record and the
--   helpers on blocks, Alloc, Free and Calls the operations. Bytes is the memory as a function from addresses to
--   bytes, Blocks the reading of one block, Tiling of many, Index the count of an address in the index. Heap has the
--   invariant, and the other files the proofs: Merge, MergeLeft and Release for `free`, FirstFit, Take, Cut and
--   Allocate for a hole that fits, Grow and Extend for the growth, Create, Validate, and Locked for the entry points.
-- Driver.Keyboard: src/driver/keyboard.c. Fifo reads the ring buffer as a queue; Reader has the reader and the interrupt
--   handler over a decoder of scan codes, which is a parameter, and Read and Wake their theorems.
-- Mem.Gdt: src/mem/gdt.c, and in Fields what the processor reads in a descriptor.
-- Mem.Frames: the frames of src/mem/paging.c over the bitmap, and in Counts the reference counts over the hash table.
--
-- Functions of C are functions of the state before to the state after; a failed `ASSERT`, a `PANIC` and an access
-- outside an array are `none`. `kmalloc` inside the containers is an argument, the block that it returns. 32-bit
-- arithmetic is written out with its wrap-around where the code depends on it. The index of the heap is a list of
-- its own, so that no write to a block reaches it.
--
-- Loops over an index are recursion on the rounds that are left, as many as the bound of the loop leaves.
-- `validate_from` runs on fuel, `end_address + 1` rounds, and each block moves it on by more than 17 bytes.
-- `find_aligned` has a round for each page up to the end of the hole. `alloc` calls itself after the heap has grown,
-- with one unit of fuel for each call; without alignment two are enough, and `kmalloc_impl` gives it three. Loops over a
-- string run on fuel, one more than its bytes; those over the digits of an `int32` need eleven, and `int2str` sixteen.
-- The loop of `load_elf` needs one round more than there are program headers.
--
-- Not modelled: the page tables, processes and the making of threads, system calls, the random numbers,
-- src/utils/string.c, the maps of the scheduler and the user programs.
-- The decoder of scan codes in src/driver/keyhelp.c is a copy of another project's. Assembly other than the disk transfer,
-- port input and output, and the self tests are outside of the model: they have no state that the theorems speak of.
pub mod Bitmap
pub mod Common
pub mod Driver
pub mod Elf
pub mod Fs
pub mod IdPool
pub mod Kheap
pub mod Mem
pub mod Monitor
pub mod OrderedArray
pub mod Stdlib
pub mod Sync
pub mod Task
pub mod Utils
