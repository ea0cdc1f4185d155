-- ===== src/Lib.antt =====
-- A verification library for xv6, a small Unix for x86 multiprocessors (xv6/*.c and *.h).
--
-- Base holds what the models share: tests and lists over the native numbers, signed integers, and
-- `Outcome`, a kernel routine's return or its `panic`. Each component is a module; its children
-- hold the lemmas and theorems, and its Tests the runs at concrete inputs.
--
-- Kalloc (xv6/kalloc.c): `free_loop` and `alloc_loop` are the loops of kfree and kalloc over the
--   list of free runs, `free_stores` and `alloc_stores` what they store into the headers of the
--   runs, and `kfree`, `kalloc` and `kinit` the functions around them. Kalloc/Linked has the list as
--   it stands in memory, and Kalloc/Linked/Uses the calls in any order.
-- Pipe (xv6/pipe.c): `write_turn` and `read_turn` are pipewrite and piperead from the moment they
--   hold the lock until they return or sleep, `pipeclose` closes an end; Pipe/Buffer reads the
--   circular buffer as a list, Pipe/System lets any number of processes take turns (with sleep,
--   wakeup and kill of xv6/proc.c), Pipe/Wakeup has the invariant of its steps.
-- Spinlock (xv6/spinlock.c): `pushcli` and `popcli` on a CPU's interrupt state; Spinlock/System
--   has acquire and release as steps of up to 8 CPUs (NCPU), one shared access each, and
--   Spinlock/Exclusion their invariant. A CPU is outside, in acquire, in the critical part or in
--   release: it starts acquire only outside and release only in the critical part, where its
--   interrupt state does not change.
-- Bio (xv6/bio.c, and xv6/ide.c for one request): the buffer cache as the list from most to least
--   recently used, `bget`, `bread`, `bwrite`, `brelse`, and the disk as a function. The driver
--   uses one bit of the device and 28 bits of the sector, the model all: devices are 0 and 1, and
--   sectors below 2 ^ 28.
-- Proc (xv6/proc.c, and sys_fork of xv6/sysproc.c): the table of 64 processes (NPROC), a process
--   pointer being an index; `allocproc`, `wakeup1`, `kill`, `exit`, `wait`, `copyproc` and the others
--   as functions on it, `growproc` in Proc/Grow. Proc/System lets running processes call them in any order, and
--   Proc/Invariant has the invariant of its steps; fork uses Kalloc and CString. fork is one step,
--   although copyproc holds the lock of the table in allocproc only, so that tables with an embryo
--   that has no parent yet are left out.
-- Fs (xv6/fs.c, xv6/fs.h, xv6/fsvar.h): the file system on one device, with the disk as a function
--   from blocks and offsets to bytes: bread gives the bytes of a block, and bwrite with brelse stores
--   them (see Bio). Fs/Disk has words and the layout, Fs/Bitmap balloc and bfree, Fs/Inode the
--   inode and iupdate, Fs/Map bmap, Fs/File readi and writei, Fs/Truncate itrunc, Fs/Icache the table
--   of inodes in use (iget, ilock, iput, ialloc), Fs/Dir directories, Fs/Path skipelem and _namei. A
--   disk in order (`Healthy`) has the blocks before the data in use, and zeros in every free block; a
--   file (`Maps`) has blocks of its own. The loops of balloc, readi, writei, dirlookup and _namei
--   take as many rounds as there are bitmap blocks, bytes, blocks or bytes of the path, and one more
--   where the last test needs it.
-- Files (xv6/file.c, pipealloc of xv6/pipe.c, the descriptors of xv6/sysfile.c): the table of 100
--   open files (NFILE) with reference counts, a file pointer being an index; Files/Refs counts the
--   references held, Files/Descriptors has dup and close.
-- Calls (xv6/sysfile.c, and filestat, fileread and filewrite of xv6/file.c): link, unlink, create,
--   open, mknod, mkdir and chdir on Fs and Files, behind the fetch of their arguments. A run is a chain
--   of routines that stops where ilock would sleep.
-- Syscall (xv6/syscall.c): how a system call fetches its arguments, in `uint` arithmetic.
-- CString (xv6/string.c): memset, memmove, strncmp and the others over a memory, which is a
--   function from addresses to bytes. Kalloc uses its memset.
-- Print (xv6/printf.c, xv6/ulib.c, and printint of xv6/console.c): numbers to text and back, and
--   printf, whose output is a list of characters. A number has at most 32 digits in any base, so
--   that the 32 rounds of `digits_loop` are enough.
-- Grep (xv6/grep.c): the pattern matcher, and in Grep/Regex what a pattern means.
--
-- A routine that holds a spin lock from its first access to its last is one step of its model; what
-- the lock gives is proved in Spinlock. A routine that sleeps ends there, and what wakes it is in
-- the model of the component. `strlen` takes fuel, and one round more than the length is enough.
--
-- Not modelled: the boot code, the drivers of the interrupt controllers, the console and the
-- keyboard, assembly, segments and trap frames, and the tests among the user programs, which are
-- hardware or I/O; iinit, the other system calls and the shell are left out. In Fs and Calls, a
-- run stops where ilock would sleep, since what other processes do meanwhile is not modelled.
pub mod Base
pub mod CString
pub mod Bio
pub mod Files
pub mod Calls
pub mod Fs
pub mod Grep
pub mod Kalloc
pub mod Pipe
pub mod Print
pub mod Proc
pub mod Spinlock
pub mod Syscall
