-- ===== src/Lib.antt =====
-- SalernOS kernel: the timer queue, the memory routines, the ring buffer, the physical memory
-- manager and its page cache, the page tables and the mapping of ranges, the slab allocator, the
-- hash map, the radix tree, the strings, the io vector iterator, pipes, file descriptors,
-- terminals, the mutex, the reader-writer lock and signals.
--
-- The parts and how they interact. The physical memory manager (src/com/mm/pmm.c) hands out pages,
-- and keeps the free ones in a list of blocks. The page cache (src/com/mm/pmmcache.c) stands before
-- it. The radix tree (src/com/lib/radixtree.c) is made of such pages, the hash map
-- (src/com/lib/hashmap.c) of cells of the slab allocator. The ring buffer
-- (src/com/lib/ringbuffer.c) carries bytes between threads and waits on a condition; sockets and
-- terminals stand on it. The line discipline of the terminals (src/com/io/tty.c) edits a line from
-- the characters of the keyboard and hands it to such a ring. The file descriptors
-- (src/com/sys/proc.c) are how a process names its files. Pipes (src/com/fs/pipefs.c) have a buffer
-- of their own. The io vector iterator (src/com/lib/ioviter.c) walks the buffers of a system call.
-- All move bytes with the memory routines (src/com/lib/mem.c). The page tables
-- (src/platform/x86-64/mmu.c) are made of pages of the page cache, and vmm.c (src/com/mm/vmm.c)
-- maps and unmaps ranges in them. The mutex and the reader-writer lock (src/com/lib/mutex.c,
-- rwlock.c) wait on the waitlists of the scheduler (src/com/sys/sched.c), from which releases,
-- timeouts and signals (src/com/ipc/signal.c) wake a thread. The timer interrupt runs the callouts
-- (src/com/sys/callout.c): handlers at deadlines, and the end of a thread's time slice.
--
-- Files. Each file's comment says which code it is about; the names are those of the code, less the
-- prefix com_sys_callout_ or com_mm_pmm_ where it has one.
--   Prelude, Errno: shared names, words of 64 bits with their wrap, masks, and the error codes.
--   Callout: src/com/sys/callout.c. The store of callouts by address and the queue of addresses are
--     the state; enqueue_callout, reschedule_at, cancel, destroy and run are the operations.
--     Handlers are an argument, a function on the state. Callout/Order has the order of the queue,
--     Callout/Queue the operations on it, Callout/Fires the handlers to call, Callout/Run the
--     interrupt, Callout/Periodic a handler that reschedules its callout.
--   Mem: src/com/lib/mem.c, and the backward copy of include/kernel/platform/x86-64/arch/libhelp.h.
--     Memory is a byte at each address. Mem/Copy has copying and moving, Mem/Repeat kmemrepcpy,
--     Mem/Scan the searches.
--   RingBuffer: src/com/lib/ringbuffer.c. The indices, the buffer and the end-of-file flag are the
--     state. What the other threads do while this one waits is a list of steps, one for each wake.
--     RingBuffer/Index and RingBuffer/Queue relate the buffer to the bytes in it, RingBuffer/Write,
--     RingBuffer/Read and RingBuffer/Blocking have the operations.
--   Pmm: src/com/mm/pmm.c. Pmm/FreeList has the static functions on the free list, Pmm/Pages the
--     page table and the interface functions.
--   PmmCache: src/com/mm/pmmcache.c. The chain of pools is a list of runs of pages; the page
--     allocator is an argument.
--   Pipe: src/com/fs/pipefs.c, with what the others do in a wait as in RingBuffer. Pipe/Bytes has
--     the queue of bytes, by way of the ring of the same buffer, Pipe/Transfer short writes,
--     Pipe/Roundtrip writes and reads that need not wait, Pipe/Ends those of any length.
--   Fildes: the file descriptors of src/com/sys/proc.c, and the end of
--     src/com/sys/syscall/openat.c. Fildes/Hint has the search for a free one and the invariant,
--     Fildes/Open the opening, Fildes/Close closing and duplicating.
--   Tty: src/com/io/tty.c over RingBuffer. The function that echoes is an argument, which returns
--     and does not sleep; text_tty_echo is one. Tty/Process has com_io_tty_process_char, cut at its
--     labels, and com_io_tty_process_chars; Tty/Echo is about the echo, Tty/Steps and Tty/Canon
--     about the blocks, Tty/Room about the keys that need room in the line, Tty/Feed about a whole
--     call. Tty/Edit is the editing of a line that the code refines in Tty/Refine, Tty/Line lemmas
--     on lists, Tty/Session is about lines, Tty/Clean about the invariant, Tty/Overrun and
--     Tty/Faults about lines and keys that go wrong, Tty/Keyboard about the keyboard.
--   Mmu: src/platform/x86-64/mmu.c. The tables are an array at each address, and the pages to come
--     are a list. Mmu/Walk, Mmu/Link, Mmu/Path and Mmu/Leaf are about what one new table or entry
--     changes, Mmu/Mapping about the map from pages to entries, Mmu/Translate about the addresses
--     it gives. Vmm: src/com/mm/vmm.c over it, where Vmm/Range is about the loop that maps and
--     Vmm/Map about the whole function.
--   Waitlist: the queues of waiting threads of src/com/sys/sched.c.
--   RwLock, Mutex: src/com/lib/rwlock.c and src/com/lib/mutex.c. A function is cut where its thread
--     lets go of the spinlock. RwLock/System and Mutex/System have the threads and the steps they
--     make, in any order; Invariant what the steps keep, Safety what follows.
--   Signal: src/com/ipc/signal.c. A mask is a word. Signal/Mask sees masks as sets, Signal/Check is
--     about the next signal, Signal/Send about the threads of a process, Signal/Deliver about both.
--   Slab: src/com/mm/slab.c. The heads of the free lists and the words that link their cells.
--   HashMap: src/com/lib/hashmap.c. A table of lists of entries; whether the slab allocator
--     delivers is an argument. HashMap/Buckets is about one list, HashMap/Table about the table.
--   RadixTree: src/com/lib/radixtree.c. The type of a tree has its number of layers, so that a slot
--     is a page or data by its type. RadixTree/Index is about the path of an index,
--     RadixTree/Lookup about the operations.
--   Str: src/com/lib/str.c, over the memory of Mem.
--   IovIter: src/com/lib/ioviter.c, over the memory of Mem. IovIter/Position is about skipping and
--     seeking, IovIter/Transfer about how far reading, writing and filling get.
--
-- Numbers, fuel and failure. Machine words are numbers below 2 ^ 64, and each sum or difference
-- that the code can wrap is written with its remainder. Loops that the code bounds are recursion on
-- the rounds left. The others are on fuel, where `none` is fuel that ran out. What is enough: the
-- entries that are due, for the interrupt; a round for each vector and one more, for the iterator;
-- one more than the characters, for strings; 20 digits, for numbers of 64 bits; a round for each
-- page, for a new pool; a round for each byte, for a pipe and for an echo. A failed assertion,
-- which panics, is `none` too.
--
-- Not modelled. Spinlocks: the code under one is one step. Handlers of signals and their frames,
-- the copy and destruction of whole page tables, the TLB, the transfers between the iterator and a
-- ring buffer, com_mm_pmm_init, the fault handler and the contexts of vmm.c, the file systems, the
-- run queue, processes and groups, the system calls but the end of openat, sockets, and of
-- terminals the ioctl and poll functions, their registration and the master of a pseudo-terminal
-- are left out. The drivers, the other platform code and the console are input and output; the
-- printf, uACPI, flanterm, limine and queue sources are other projects', and the queues stand in
-- the model as lists.
pub mod Prelude
pub mod Errno
pub mod Callout
pub mod Mem
pub mod RingBuffer
pub mod Pmm
pub mod PmmCache
pub mod Slab
pub mod HashMap
pub mod RadixTree
pub mod Str
pub mod IovIter
pub mod Mmu
pub mod Waitlist
pub mod RwLock
pub mod Mutex
pub mod Signal
pub mod Pipe
pub mod Vmm
pub mod Fildes
pub mod Tty
