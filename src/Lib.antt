-- ===== src/Lib.antt =====
-- BrightS, an operating system kernel in C: a verification library for the parts of the kernel that
-- keep state of their own and promise something about it.
--
-- The parts and their files:
--
--   Ipc/Pipe        kernel/pipe.c, kernel/pipe.h. A static table of byte pipes over rings of 4096
--                   bytes. `create`, `get`, `write`, `read`, `close_read` and `close_write` are
--                   `brights_pipe_*`. Fifo takes one pipe for a queue of bytes, Table says what each
--                   call does to the table, Stream follows the bytes over histories of calls.
--   Signal          kernel/signal.c, kernel/signal.h. Pending and blocked masks and handlers of a
--                   process. `raise_proc`, `consume`, `block` and the others are
--                   `brights_signal_*`. Masks has the words, Refine the sets that they stand for.
--   Hook            kernel/syshook.c, kernel/syshook.h. Hooks through which processes watch system
--                   calls. Calls has the system calls `brights_sys_hook_*` and `notify`,
--                   `broadcast`, `cleanup_pid`; Ring takes a ring of events for the queue of the
--                   last 64, Isolation says what other processes can do to a hook, Wait follows the
--                   loop of `brights_sys_hook_wait`.
--   Fs/Text         the string helpers of kernel/kernel_util.h and of the files below.
--   Fs/Path         `normalize_path` and `path_parent` of kernel/fs/ramfs.c, `vfs_normalize` of
--                   kernel/fs/vfs2.c. Describe says what a path means by its components; Scan and
--                   Spec show that the code computes that.
--   Fs/Ramfs        kernel/fs/ramfs.c, kernel/fs/ramfs.h. Names has the operations that take a path,
--                   Access those that take a descriptor, Listing `brights_ramfs_get_dir_entries`.
--                   Tree, Children, Sound and History keep the tree of paths and the storage over
--                   histories of calls; Adding says when making an entry succeeds; View and Refine take the table for a map from paths to
--                   nodes; Data and Limits say what is read and written.
--   Fs/Vfs          kernel/fs/vfs2.c, kernel/fs/vfs2.h: mounts, the resolution of paths with its
--                   cache (Resolve, Stale), the pool of open files (Files, Pool) and the tables of
--                   descriptors (Files). The calls that go on to a filesystem are in Dispatch and
--                   Metadata; Opened and Open say what opening does, Opening what moving the
--                   position of a file does.
--   Proc            kernel/proc.c, kernel/proc.h, arch/x86_64/trap.h. Table has the calls that only
--                   use the table of processes, Life those that start and end one, with the other
--                   parts of the kernel as the interface `Parts`. Sound, Search, Calls and History
--                   keep the ids apart over histories of calls; Effects has fork; Exit fills the
--                   interface with the hooks and the pages; Paths has
--                   `brights_proc_resolve_path`.
--   Sched           kernel/sched.c, kernel/sched.h. Find has `find_next_runnable`, Switch the
--                   functions that choose a process. Full, Fair and Turns show that the slots take
--                   turns, Context what a switch does to the registers, Start and History what
--                   holds after calls, Remove what `brights_sched_remove_process` leaves.
--   Pmem            kernel/pmem.c, kernel/pmem.h: the bitmap of pages. Bits takes it for a set;
--                   Measure, Regions, Init, Used and Reserve follow the loops of
--                   `brights_pmem_init`, Boot what it leaves free; Scan, Single and Runs show what
--                   is given out, Release and Undo what is given back.
--   Base, Word      the numbers, lists, rings and words that these share.
--
-- How state is modelled. A static table of the C code is a list of records, or a record of such lists
-- and of the other static variables; a function takes it and returns it. A pointer into a table is an
-- index, and a null pointer `none`. A C string is the list of its bytes before the terminating zero.
-- The result -1 is `none`, `false` or the integer, as it is used. An unsigned word is a natural
-- number, and the wrap of its arithmetic is written out where the code can reach it.
--
-- Undefined behaviour. A shift by 64 in `find_next_runnable` has its value from a parameter
-- `overshift`; a write of `brights_proc_spawn_kernel` behind `pid_to_index`, for an id from 256 on,
-- has its effect from a parameter `stray`; the copy of `brights_ramfs_write` behind the storage of
-- a file, which a sum of offset and length past 2^64 leads to, from a parameter `overrun`; and what
-- a caller reads through the pointer that `brights_vfs2_resolve` leaves to its local array is a
-- parameter `dead_array`. Each may be any function.
--
-- `brights_proc_table_ptr` is never null. The compiler's `__builtin_ctzll` and the instruction
-- `bsf` are `lowest`, which counts the zeros below the lowest set bit.
--
-- Loops. Those over a table or a string are by recursion on it. `normalize_path` counts its rounds:
-- one more than the path has bytes is enough, as Fs/Path/Scan shows. `brights_sys_hook_wait` has fuel
-- for its rounds, a tenth of the timeout and two more being enough; without a timeout it need not end.
-- `reserve_from` has 256 rounds, the pages of a megabyte, and `free_from` as many as its region has
-- pages; both keep the code's own test as well.
--
-- How the parts meet. Processes reach the other parts through the interface `Parts`, which Proc/Exit
-- fills with those that are modelled: the end of a process releases its hooks and its kernel stack;
-- paging and the loader stay parameters. The scheduler reads and writes the table of processes,
-- which its functions take as an argument, and the trap frame and `CR3` with them. The hooks learn
-- the current process by an argument, the value of `brights_proc_current`, and what the rest of the
-- system does while a waiter sleeps is a function on the table. The second filesystem layer reaches
-- a filesystem through its superblock, whose functions are parameters; kernel/fs/ramfs_vfs.c, which
-- binds the RAM filesystem to them, is not modelled.
--
-- Not modelled: the heap, `brights_proc_exec_continue`, the address spaces, the page cache, the ELF
-- loader, the network stack, the shell, the drivers and the code of the architectures. The tree
-- sys/kernel is a second copy of the kernel's files with other include paths; the files under kernel
-- are those modelled. Interrupts and other processors do not run inside a function here.
pub mod Base
pub mod Word
pub mod Ipc
pub mod Signal
pub mod Fs
pub mod Hook
pub mod Proc
pub mod Sched
pub mod Pmem
