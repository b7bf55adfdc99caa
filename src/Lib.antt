-- ===== src/Lib.antt =====
-- SparrowOS, a small kernel for 32-bit x86: a model of its core in functions, and theorems on it.
--
-- The parts and how they interact. Bitmap (lib/kernel/bitmap.c) keeps one bit for each page, pid,
-- inode or block. KernelList (lib/kernel/list.c) are the doubly linked queues, on a heap of links,
-- and are shown to be sequences; the other parts use the sequences. Interrupt (kernel/interrupt.c)
-- is the interrupt flag. Thread (thread/thread.c and the handler of device/timer.c) is the
-- scheduler: tasks by the address of their PCB, the ready queue, and `schedule` with its callers.
-- Sync (thread/sync.c) has semaphores and locks, which block and wake tasks. IoQueue
-- (device/ioqueue.c) is the ring of bytes that the keyboard (Keyboard, device/keyboard.c) fills in
-- an interrupt and that a pipe (Pipe, shell/pipe.c) reads and writes. Paging and Memory
-- (kernel/memory.c) are the page tables, the pools of pages and addresses, and the allocation of
-- pages; Heap are the blocks in a page of the heap. Strings (lib/string.c), Stdio (lib/stdio.c),
-- Paths (fs/fs.c), Files (fs/file.c, fs/fs.c and shell/pipe.c) and Inode (fs/inode.c) model the
-- functions on strings, formatted output, paths, descriptors, and the place of inodes on the disk.
-- Shell (shell/shell.c and shell/buildin_cmd.c) splits command lines and removes the dots from
-- paths. Pids (thread/thread.c) gives out pids under a lock, and DiskMaps (fs/file.c) blocks and
-- inodes of a partition. OpenInodes and Blocks (fs/inode.c) are the inodes in memory, shared by all
-- who open them, and the blocks that an inode holds; Dir (fs/dir.c) are the entries of directories;
-- FileOps (fs/file.c and fs/fs.c) creates, opens and closes files, and FileData (fs/file.c) reads
-- and writes them. FileSystem (fs/fs.c) follows paths and removes files. Exit (userprog/wait_exit.c
-- and thread/thread.c) is the end of a process and the wait of its parent. Base has what they
-- share.
--
-- How the code is modelled. A function keeps the name that it has in the source, without the prefix
-- of its file: `bitmap_scan` is `Bitmap.scan`, `thread_block` is `Thread.block`. It takes the state
-- and returns the new one. A failed ASSERT or a PANIC stops the machine and is the result `panic`;
-- a result that may be -1 or NULL is an `Option`. A function that puts its caller to sleep is
-- modelled up to the switch and says whether it got that far; what the caller does when it runs
-- again is the next round of its loop; for `lock_acquire` that is `Sync.Defs.retry`. `switch_to`
-- makes the next task the current one. Numbers are natural numbers with the wrap-around of their
-- width written out where the code can reach it. A mask that selects a bit field is a quotient and
-- a remainder.
--
-- Fuel. The walks over a list and `path_depth_cnt` run on fuel; enough is the length of the list,
-- and two rounds more than the path has bytes. `itoa` has 32 rounds, which is enough for any 32-bit
-- value in a base of two or more. The loops of `file_read` and `file_write` have a round for each
-- byte, and a round moves at least one. `search_file` gives its loop two rounds more than the path
-- has bytes, and each takes at least one. `cmd_parse` and `wash_path` take their fuel from the
-- caller and return `none` without it; tests run them. All other loops are structural, in the
-- number of rounds that the code gives them.
--
-- What is not modelled: assembly code and the programming of devices, the disk driver, the console,
-- loading and forking of programs, mounting and formatting, and the system calls on paths but for
-- `sys_unlink`. The disk is its bytes, and an access of a sector does not fail. A buffer from
-- `sys_malloc` is zeros, and memory does not run out, but where a function says so. The one endless
-- loop of `delete_dir_entry` is `panic` too, behind a fuel that no loop of its kind would use up. A
-- write outside of a buffer or an array is `panic` where a definition says so. The processor's
-- translation of addresses is modelled, as `Paging.translate`, since the page tables are reached
-- through it; its cache of translations stands only in `Paging.Cpu`, for `page_table_pte_remove`,
-- and the allocation of pages is modelled without it. The result `strlen(str)` of `vsprintf` is not
-- modelled.
mod Base
pub mod Bitmap
pub mod Interrupt
pub mod KernelList
pub mod TaskStatus
pub mod Thread
pub mod Sync
pub mod Pids
pub mod IoQueue
pub mod Pipe
pub mod Keyboard
pub mod Paging
pub mod Memory
pub mod Heap
pub mod Strings
pub mod Paths
pub mod Stdio
pub mod Shell
pub mod Files
pub mod Inode
pub mod DiskMaps
pub mod OpenInodes
pub mod Blocks
pub mod Dir
pub mod FileOps
pub mod Exit
pub mod FileData
pub mod FileSystem
