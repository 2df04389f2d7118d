-- ===== src/Kernel.antt =====
-- The kernel's parts that stand under kernel/src.
pub mod Semaphore
pub mod Mutex
pub mod Pages
pub mod Links
pub mod ListHead
pub mod Sched
pub mod Process
pub mod NewTask
pub mod Shell
pub mod Interrupts
pub mod Pic
pub mod Ps2
pub mod Start
pub mod Terminal
pub mod Keyboard
pub mod PageAllocator
pub mod Stack
pub mod Vfs
pub mod Tarfs
