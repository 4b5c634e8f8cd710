-- ===== src/Lib.antt =====
-- The verification library of two xv6 kernels: `Offline 3/xv6`, which schedules by lottery, and
-- `Offline 4/xv6`, which swaps pages to a file. Most C files are the same in both.
--
-- The parts and their modules:
--
-- Log (Log.antt): the write-ahead log of `Offline 4/xv6/log.c`. `begin_op`, `end_op` and `log_write` are
-- the calls of the file system, each a section under `log.lock`; a call that goes to sleep or panics is a
-- result. Log/Reserve.antt runs them in any order. Log/Disk.antt has what `commit` and
-- `recover_from_log` do to the disk as a list of block writes, so that a crash is a first part of
-- that list.
--
-- Pipe (Pipe.antt): `Offline 4/xv6/pipe.c`. `write_from` and `read_from` are what `pipewrite` and
-- `piperead` do from one `sleep` to the next. Pipe/System.antt interleaves a writer and a reader, with
-- their sleeps, wakeups, kills and closings.
--
-- Kalloc (Kalloc.antt): the free list of `Offline 4/xv6/kalloc.c`, as links in the words of physical memory, in
-- which page tables are kept too.
--
-- Vm (Vm.antt): the address macros of `Offline 4/xv6/mmu.h` and the page tables of
-- `Offline 3/xv6/vm.c`: Vm/Map.antt maps pages, Vm/Free.antt frees them, and Vm/User.antt grows and
-- copies a process.
--
-- Paging (Paging.antt): the swapping of `Offline 4/xv6/vm.c`. Paging/Fifo.antt and Paging/Aging.antt
-- choose slots and victims, Paging/SwapFile.antt is `writeToSwapFile` of `Offline 4/xv6/fs.c` on the
-- contents of a file, and Paging/Swap.antt is `SwapPageOut`, `SwapPageIn` and what `allocuvm` records
-- of a new page. They use Kalloc for frames and Vm for entries.
--
-- Proc (Proc.antt): the process table of `Offline 3/xv6/proc.c`, one function for each hold of
-- `ptable.lock`. Proc/System.antt runs them in any order. Sched (Sched.antt): the lottery of `scheduler`
-- in the same file, with `rand` and `randUpTo` of `Offline 3/xv6/pseudorandom.h`; the word of the
-- generator is an argument. Sched uses the processes of Proc.
--
-- Bio (Bio.antt): the buffer cache of `Offline 4/xv6/bio.c`, as the list of its buffers in order of use.
-- Spinlock (Spinlock.antt): `Offline 4/xv6/spinlock.c`; Spinlock/Exclusion.antt runs `acquire` and
-- `release` on any number of processors.
--
-- Fs (Fs.antt): the file system of `Offline 4/xv6/fs.c` on the blocks of a disk, with the constants
-- and records of fs.h, file.h and stat.h. Fs.antt has the bitmap: `balloc`, `bfree` and `bzero`.
-- Fs/Inode.antt has the inode on disk and the blocks of a file: `iupdate`, the reading of `ilock`
-- (`load`), `bmap` and `itrunc`. Fs/Content.antt has `stati` and `readi`, and Fs/Content/Logged.antt
-- `writei`. They use each other as the code does: `writei` calls `bmap`, `bmap` calls `balloc`, and
-- `itrunc` calls `bfree`. `writei` also gives each block that it, `balloc`, `bmap` and `iupdate`
-- change (Fs/Inode/Logs.antt) to the `log_write` of Log, with its panics; the other functions of Fs
-- leave `log_write` out. `store` in Fs/Content.antt is `writei` without the log, and serves the
-- proofs. Icache (Icache.antt) is the cache of inodes of the same file: `iget`, `idup`, `ilock` and
-- `iput`, which uses `itrunc`, and `ialloc`; Icache/Steps.antt runs them in any order. Path
-- (Path.antt) has the directories as lists of entries, with `dirlookup` and `dirlink`, and the walk of
-- `namex` over them, with the panics of `iget` and `ilock`; it does not stand on Fs, and whether the
-- disk has room for a new entry is an argument of `dirlink`. Its cache of inodes is the count of
-- references to each and the number of slots in use. Files (Files.antt) is `Offline 4/xv6/file.c` with
-- the calls on descriptors of `Offline 4/xv6/sysfile.c` and the loops over descriptors of `fork` and
-- `exit` in `Offline 3/xv6/proc.c`; Files/Steps.antt runs them in any order.
--
-- Args (Args.antt): the arguments of system calls in `Offline 4/xv6/syscall.c`, with what `fetchint`, `fetchstr` and
-- `argptr` ask of an address before the kernel uses it.
--
-- Number (Number.antt): numbers as text, which are `itoa` of `Offline 4/xv6/fs.c` with the path of a swap file
-- that it is written for, `atoi` of `Offline 4/xv6/ulib.c` and `printint` of `Offline 4/xv6/printf.c`.
--
-- Shell (Shell.antt): the parser of `Offline 4/xv6/sh.c`, from a line to the command that it stands for. Its words end
-- where `nulterminate` ends them. Shell/Print.antt writes a command as a line again.
--
-- Strings (Strings.antt): `Offline 4/xv6/string.c`. Grep (Grep.antt): the matcher of
-- `Offline 4/xv6/grep.c`.
--
-- Numbers are natural numbers, and 32-bit wrap-around is written out. The backward search of
-- `GetUnusedMemorySlotFIFO` has fuel 15, one for each slot it may look at, and the forward search of
-- `UpdateStartIndexFIFO` takes its fuel as an argument, for which 15 is enough when some slot holds a
-- page in memory. `deallocuvm` has fuel for one round for each page of the old size and one more, since
-- each round goes on by a page at least. `strlen` takes its fuel as an argument. The parser
-- of the shell has four rounds for each character and four more, since at most four of its functions call each other
-- before one takes a character. `filewrite` of a page
-- is three chunks and a last test, so its fuel is 4. The loops of `readi` and `writei` have as many rounds as
-- there are bytes, since a round moves at least one; `balloc` has one for each block of the bitmap, and
-- `namex` one for each character of the path and one more. `atoi` and `printint` take their rounds as an
-- argument: eleven and ten are enough for an `int` in decimal. `itoa` is by well-founded recursion on
-- the number.
--
-- Not modelled: hardware, devices and start-up; the table of system calls and traps; sleep locks, and spin locks outside
-- Spinlock, each section being taken as one step; the bytes
-- of a directory, which is a list of entries; the superblock, which is an argument; what the last close of a file
-- does to its pipe or inode; `link`, `unlink`, `create` and `exec`; `itoa` at the least `int`, where C has no
-- answer; the allocator of the user programs and what the shell does with a command; the shell script of `Offline 1` and the C++
-- program of `Offline 2`, whose own part is input, output and calls of the system.
pub mod Args
pub mod Base
pub mod Bio
pub mod Files
pub mod Fs
pub mod Grep
pub mod Icache
pub mod Kalloc
pub mod Log
pub mod Number
pub mod Paging
pub mod Path
pub mod Pipe
pub mod Proc
pub mod Sched
pub mod Shell
pub mod Spinlock
pub mod Strings
pub mod Vm
