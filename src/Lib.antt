-- ===== src/Lib.antt =====
-- A verification library for the whirliscope kernel, a small x86-64 kernel in C.
--
-- The program. src/memory/pmm.c hands out physical pages from a free list that it fills from the
-- boot loader's memory map; src/memory/vmm.c maps them; src/memory/heap.c is the kernel's heap
-- over both. src/userspace/process.c loads a program image that src/userspace/elf.c has checked
-- (with src/userspace/address_space.c) and moves the break of a process; src/userspace/scheduler.c
-- launches processes, runs one process for another that waits, and counts ticks.
-- src/drivers/timer.c makes the ticks. src/drivers/keyboard.c turns scan codes into events,
-- src/drivers/block.c checks the ranges of disk accesses, src/kernel/klog.c keeps the last
-- characters of the log, and src/libc/mem.c has the memory functions that they use,
-- src/libc/string.c those on strings. src/libc/stdio.c formats text into a buffer or a stream.
-- src/fs/ext2.c is the file system on an image in memory, and src/userspace/syscall.c serves the
-- programs, whose memory it checks and whose paths it resolves.
--
-- Files and code. Definitions keep the names of the functions and types of the source.
--   Prelude        shared names, Boolean tests, lists, machine words, integers, finite tables
--   Libc           src/libc/mem.c: Memory is a byte at each address; Block has the four functions,
--                  Block/Copy and Block/Compare what they do; Strings is src/libc/string.c, with
--                  Length and Copying
--   Kheap          src/memory/heap.c: Blocks is the doubly linked list of headers (with children
--                  for its layout and for each operation), Expand the growth by pages, Alloc the
--                  calls; Invariant says what a well-formed heap is, in terms of the list of its
--                  cells, Cells, Join and Joined are the lemmas on cells
--   Pmm            src/memory/pmm.c: FreeList and Init
--   AddressSpace   src/userspace/address_space.c
--   Elf            src/userspace/elf.c: Checks for one segment, Segments for the loop, Sound for
--                  the whole
--   Process        src/userspace/process.h and process.c: Pages has process_sbrk, Image the
--                  loader, Create the table of processes and new processes from files
--   Scheduler      src/userspace/scheduler.c: Frames are the three layouts of the registers, Stack
--                  is the invariant, Runs, Moves and Ends the calls on it, Steps the step relation
--   Syscall        src/userspace/syscall.c: the memory of a program and the paths it names;
--                  Resolve, Whole, Stepping and Resolved are about where a path leads, Ending about
--                  the end of its loop, UserMemory and Delivered about the copies; Files has the
--                  calls on files and on strings for the console, with Kept and Dispatch about the
--                  memory that they leave
--   Klog           src/kernel/klog.c: Ring and Tail
--   Keyboard       src/drivers/keyboard.c: Keys are the tables, Queue the ring, Irq the handler,
--                  Chars the letters
--   Ext2           src/fs/ext2.c over the bytes of the image: Bytes, Superblock, GroupDesc, Inode
--                  and Image are the layout, Bitmap, Blocks and Content the space and the bytes of
--                  files, Directory, Entries and Paths the names, Mount, Listing, Calls and Tree
--                  the calls
--   Stdio          src/libc/stdio.c: Emit and Parse are the emit_* functions and the reading of a
--                  conversion, Text and Field say what is emitted, Format and Loop are about
--                  vformat, Digits about format_unsigned, Buffered and Streamed about vsnprintf
--                  and vprintf; Shorter: parsing never goes back
--   Timer          src/drivers/timer.c: Divisor
--   BlockDevice    src/drivers/block.c: Registry and Access
-- The modules called Examples hold runs of the code and instances of the theorems.
--
-- State. The static variables of a file are a record, passed in and out of each function. Pointers
-- are addresses, 0 is NULL, and what they point at is a function from addresses. Machine words are
-- natural numbers with the wrap-around written out. A function that does not return, and a failed
-- assertion, are results of their own (Flow, Outcome).
--
-- Bounds. The loops over the heap's list have as many rounds as a heap of 64 MiB can have headers,
-- and one more (max_blocks): a header takes 32 bytes, and no header lies past the limit.
-- keyboard_read_char has a round for each place of the ring. The loops over pages have the number
-- of pages that their bounds give, and the string loops that only a zero byte ends take a number
-- of rounds (the format loop one more than the format has characters, which vformat_total shows to
-- be enough), of which one more than the string has characters is enough. The other loops run over
-- lists or counters.
--
-- Parameters. The heap takes the page managers as a record of functions (PageOps), the process
-- loader likewise (SpaceOps, with the page tables as part of their state), process creation the
-- calls on the file system and on the heap (FileOps), and the registry of block devices the
-- functions of a driver. Syscall takes the page tables as a function from virtual to physical
-- addresses, and the working directory of the current process; the image of the file system and
-- the static buffers of its calls are memory apart from that of programs. The text that
-- klog_vprintf writes is an argument, the byte read by the keyboard's interrupt handler too.
--
-- Not modelled: src/memory/vmm.c itself, src/fs/rootfs.c, the system calls other than those on
-- files and strings, the terminal and framebuffer, the shell, and the code that only sets up the
-- processor or writes to ports. Output lines to the log are left out.
pub mod Prelude
pub mod Libc
pub mod Kheap
pub mod Pmm
pub mod Scheduler
pub mod AddressSpace
pub mod Elf
pub mod Process
pub mod Timer
pub mod Klog
pub mod Keyboard
pub mod BlockDevice
pub mod Stdio
pub mod Ext2
pub mod Syscall
