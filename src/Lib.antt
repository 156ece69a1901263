-- ===== src/Lib.antt =====
-- A verification library for MiraiOS: a kernel for x86-64 (kernel/), its C library (phlibc/), and
-- small user programs.
--
-- The parts that are modelled, and how they interact:
-- - Prelude: the names that all files share, lists over the native numbers, the C type `int`.
-- - Cred: the user and group identities of a process, kernel/sched/pgrp.c (`sysSetId`,
--   `sysSetReuid`) over `struct ProcessCred` of kernel/include/sched/process.h. A call gives its
--   result, an error number or 0, and the credentials afterwards; Cred.Calls has sequences of calls.
-- - PhysPaging: the allocator of physical pages, kernel/mm/physpaging.c: four stacks of pages, whose
--   stack pages are linked through memory. `Holds` of PhysPaging.Chain is the list that a stack
--   stands for.
-- - LowMem: the bitmap of the pages in low memory, kernel/mm/lowmem.c.
-- - Thread: the scheduler's objects (kernel/include/sched/thread.h, kernel/include/sched/queue.h,
--   kernel/arch/x86_64/include/arch/cpu.h) on one store, a pointer being a number and NULL 0.
-- - ThreadQueue: the doubly linked queues of kernel/sched/queue.c on that store. `IsQueue` of
--   ThreadQueue.Links is the list of entries that a queue stands for.
-- - ReadyQueue: kernel/sched/readyqueue.c, the eight queues of each processor, the feedback rule for
--   priorities, and the balancing of load between processors; it calls ThreadQueue.
--   ReadyQueue.Ready has the lists that a processor's queues stand for.
-- - Semaphore: kernel/sched/lock.c, on ThreadQueue and ReadyQueue; `IsSemaphore` of Semaphore.Wait is
--   the count and the list of waiting entries.
-- - CString: phlibc/src/string.c over a memory of bytes.
-- - Printf: phlibc/src/printf.c, `vsnprintf` and the functions it calls, on lists of bytes; strings
--   in memory and `printFloat` are parameters.
-- - Heap: kernel/mm/heap.c, areas with a word before and behind them, over a memory of 64-bit words.
--   `IsAreas` of Heap.Areas is the list of areas that a heap stands for; Heap.Find to Heap.Joined are
--   about `heapAlloc` and `heapFree`, and Heap.Kernel has `kmalloc`, `kfree` and `krealloc`.
-- - RbTree: kernel/lib/rbtree.c on a store of nodes. `IsShape` of RbTree.Shape is the tree that the
--   nodes below a pointer stand for, and `in_order` the list of its nodes.
-- - Bufio: phlibc/src/bufio.c, the operations on one buffered stream, with `write` and `read` of
--   phlibc/src/basicio.c; the system calls and `malloc` are parameters.
-- - ProcTable: the hash table of processes of kernel/main/fork.c. `IsBucket` of ProcTable.Chain is
--   the list of processes in one of its 64 buckets.
-- - Pipe: kernel/fs/pipe.c, `pipeWrite` of one thread and `pipeRead` of another as single accesses to
--   the ring of PIPE_BUF bytes and its two semaphores, in any order; `Reach` are the states that
--   they reach. Pipe.Keep has the invariant, Pipe.Fifo what follows from it.
-- - Mmap: the memory map of a process, kernel/mm/mmap.c, on a store of its own. `IsMap` of
--   Mmap.Lists is the list of entries that a map stands for. Mmap.Create has `mmapCreateEntry` and
--   `sysMmap`, Mmap.Unmap `sysMunmap`, Mmap.Lookup and Mmap.Destroy are about the other functions.
-- - DirCache: kernel/fs/dircache.c, the array of entries of one directory; `names` of DirCache.Names is
--   the list of names that it stands for. DirCache.Lookup and DirCache.Change are about it.
-- - Link: kernel/fs/link.c, on a directory of DirCache and the inodes that it names; `IsCounted` of
--   Link.Counts says that the inodes count their links.
-- - Initrd: kernel/fs/initrd.c, `parseHex` and the loop of `parseInitrd` over the bytes of the archive;
--   the calls of `createDirs` are its result.
-- - Group: the process groups of kernel/sched/pgrp.c, `leaveGroup` and the functions that it calls, on
--   RbTree. `IsGroup` of Group.Chain is the list of processes of a group.
-- - Print: kernel/main/print.c, the texts that the kernel's `stdout` is called with.
--
-- Functions that the source writes in C keep their names in snake case: `threadQueuePop` is
-- `thread_queue_pop`. Where a function is split, the comment of each part says which part it is.
--
-- Bounds and fuel. Counters of 16, 32 and 64 bits wrap round, as `% 2 ^ 32` and so on. In Heap the size
-- of the heap, its end, the steps of the search and the sizes of areas that are joined wrap at 2^64;
-- the address of the other word of an area, which lies in the heap, does not. The loop of
-- `threadQueueRemove` recurs on fuel, one round for each entry of an interrupted wait and one to
-- end; the loops of string.c that run to a terminating byte recur on fuel, and one more than the
-- length of the string is enough. The loop of `deallocLowPhysPages` takes at most one round for each
-- page and one to end. In Printf the digits of a number take at most 20 rounds and one to end, the
-- filling of a buffer of n bytes at most n + 1, so that more fuel than 20 and n is enough for
-- `printDec`, and a format one for each of its bytes and one to end. The search of `heapAlloc` takes a round for each area and one to end; `kmalloc` adds at most one
-- area. `rbSearch` takes at most a round for each node and one to end, `bstInsert` one for each node.
-- The loop of `getProcFromPid` takes a round for each process of the bucket and one to end; a
-- negative pid is not modelled. The loop of `fwrite` takes at most a round for each byte and one to end.
-- The loops of mmap.c take at most a round for each entry and one to end, and the lookup of a
-- directory one for each byte of the name and one to end. The loop of `parseInitrd` takes at most one
-- for each 110 bytes and one to end.
-- The loops of `rbInsert` and `rbDelete` recur on fuel as well, with no bound shown.
-- The other loops have a fixed number of rounds.
--
-- A function that runs under spinlocks is one step, but in Pipe, whose functions take no lock, each
-- access to the pipe is one; a wait of theirs ends when the count is above 0. Not modelled: assembly,
-- boot and EFI code, ACPI and interrupt controllers, device drivers and the console, page tables, and
-- the user programs, which need hardware or firmware that the source does not describe; and joining
-- process groups, fork and exit, the rest of the file system, the descriptor table, programs and
-- signals, on which nothing here depends. The mapping of pages and the string instructions that the heap uses are
-- parameters; in Mmap what `kmalloc` returns is a list, and the calls that change pages are recorded.
pub mod Prelude
pub mod Cred
pub mod PhysPaging
pub mod Thread
pub mod ThreadQueue
pub mod ReadyQueue
pub mod CString
pub mod Printf
pub mod Semaphore
pub mod LowMem
pub mod Heap
pub mod RbTree
pub mod Bufio
pub mod ProcTable
pub mod Print
pub mod Pipe
pub mod Mmap
pub mod DirCache
pub mod Link
pub mod Initrd
pub mod Group
