-- ===== src/Lib.antt =====
-- Verification of n00b-os, a small i386 kernel in C with its C library. Each part of the program is a
-- module that stands for the C files that its first comment names:
--   * Libk/Memory: byte memory. Libk/Mem: libk/src/all/string/mem*.c. Libk/Strings: the str*.c beside
--     them, with the words that strtok_r cuts. Libk/Ctype: libk/src/all/ctype. Libk/Threads:
--     libk/src/all/threads. Libk/Printf: libk/src/all/stdio/printf.c. Libk/Stdio: the other files there,
--     streams over the kernel's file handles and keyboard.
--   * Libk/Malloc: libk/src/all/stdlib/malloc.c, malloc, free and realloc. It takes pages from the
--     interface of Kernel/Pages and is guarded by Kernel/Semaphore; Libk/Malloc/Bytes is memcpy on the
--     bytes of its words. Libk/Allocator is what the rest of the program sees of malloc, free and realloc:
--     an interface, since which blocks it hands out does not matter there.
--   * Ringbuffer: kernel/src/all/kernel/ringbuffer.c, which copies elements by memcpy; Ringbuffer/Queue is
--     the bounded queue that it promises, and Ringbuffer/Fifo a run of calls. Kernel/Keyboard:
--     kernel/src/all/kernel/input/keyboard.c, which puts characters into a ring buffer and takes them out.
--   * Kernel/Semaphore and Kernel/Mutex: kernel/src/arch/i386/sync, each as a function, for its callers, and
--     as a step relation between the instructions of all threads.
--   * Kernel/Sched: kernel/src/arch/i386/sched/scheduler.c; Kernel/Sched/Entry: the handlers of
--     interrupts.S, sleep.S and exit.S beside it, by which the tasks enter it. Kernel/Sched/Plan is what it
--     promises: who runs, who waits, who sleeps and until when. The part of it that makes tasks is
--     Kernel/NewTask, with the frame that kernel/src/arch/i386/sched/interrupts.S resumes. Kernel/Process:
--     process.c of kernel/src/all/kernel/sched and of kernel/src/arch/i386/sched. Kernel/ListHead:
--     kernel/src/all/kernel/list.c. Rings of nodes have their lemmas in Kernel/Links.
--   * Kernel/PageAllocator: kernel/src/arch/i386/mm/page_allocator.c. Kernel/Stack:
--     kernel/src/arch/i386/mm/stack.c, which takes pages from it and maps them.
--   * Kernel/Terminal: kernel/src/arch/i386/tty.c, the text screen that printf writes to; printf itself
--     is modelled as the characters that it puts there.
--   * Kernel/Vfs: kernel/src/all/kernel/vfs.c, and Kernel/Tarfs: kernel/src/all/kernel/vfs/tarfs.c, whose
--     operations the former calls through pointers: they are arguments there. Kernel/Tarfs/Nodes and
--     Kernel/Tarfs/Mount hold its nodes, and how an archive becomes such nodes.
--   * Kernel/Interrupts: the table of interrupt handlers of kernel/src/arch/i386/interrupt.c, and pit.c.
--     Kernel/Pic: pic.S beside it. Kernel/Ps2: kernel/src/arch/i386/input, the interrupt of the keyboard.
--   * Kernel/Shell: kernel/src/all/test/shell.c; Kernel/Shell/Turn is one round of it, from the keys that
--     are read to what is printed. Kernel/Start: the banner of
--     kernel/src/all/kernel/kernel.c, a file that is read by fgetc.
--   * Prelude: the names that all share.
-- A definition has the name of its C function. State is passed on explicitly: the variables of a file
-- are a record. A pointer is its address, and 0 is NULL. Memory is a function from addresses to bytes;
-- in Libk/Malloc and Kernel/PageAllocator, to 32-bit words; structures of one type are a function from
-- addresses to records. Numbers are natural numbers with the wrap of 32 bits written out where the code
-- relies on it or where it can happen.
-- Loops that have a bound run on it. The others run on fuel: `none` or `out_of_fuel` says that it did
-- not last. Where the length of what a loop walks over is known (the entries of a list, the sleeping
-- tasks, the characters of a string or of a file), one or two rounds more than that are enough. printf_u
-- gets 24 rounds: its loop ends before, by the panic or at the end of the number. Each theorem states how
-- much fuel it asks for.
-- Parameters: `max_align`, the alignment that the compiler fixes; the source of pages of malloc; the
-- allocator; the address of a local variable, of a function or of a literal where the code passes it on;
-- what sched_yield leaves in eax; what the ports of a device read.
-- Interrupts are off in the handlers that enter the scheduler, and the page allocator's mutex is held:
-- their operations are not interleaved. sched_new_thread puts a thread into the ring with interrupts
-- on; it is modelled without a tick in between, and Kernel/Sched/Entry, where ticks come at any time,
-- leaves it out. Where malloc or the stacks acquire a semaphore, it is seen by the thread that
-- acquires it.
-- What a C expression leaves undefined in printf is a result of its own.
-- Not modelled: the handlers of processor exceptions, which only panic, TLB and the switch of stacks
-- themselves; kernel_main, which calls the other parts in order; the tests; arithmetic.c and
-- multiboot.h, which are copies from other projects.
pub mod Prelude
pub mod Libk
pub mod Kernel
pub mod Ringbuffer
