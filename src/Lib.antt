-- ===== src/Lib.antt =====
-- A verification of the kernel of this operating system: the resources it shares out (memory, the CPU,
-- semaphores), the routines by which processes use them, and the shell that the user types into.
--
-- The parts and how they interact. `Kernel/scheduler.c` gives the CPU to the processes of the table in
-- `Kernel/proc.c` in turn; `block_process` and `unblock_process` take a process out of the turn and put
-- it back; the semaphores of `Kernel/sem.c` block and unblock the processes in their queues, and the pipes of
-- `Kernel/pipes.c` are rings of bytes that three semaphores guard. The memory
-- managers under `Kernel/memory_management` and the string functions of `Kernel/libs/lib_str.c` stand
-- below all of them. The system calls of
-- `Kernel/syscall_handler.c` lead from a process's descriptors to the keyboard, the screen and the pipes,
-- and the shell, `Userland/userCodeModule/shell.c`, starts processes and joins them by pipes.
--
-- Files:
-- `Base`: names of the library, Boolean tests on numbers, lists and machine words.
-- `Text`: `Kernel/libs/lib_str.c`, with `reverse` and `itoa` in `Text/Digits`.
-- `Memory`: `Kernel/memory_management/memory_manager.c`. `Memory` is its statics; `alloc`, `free`,
--   `create_mm` and `status_count` are the functions of these names, and `search` and `first_used` the
--   two loops of `alloc`.
-- `System`: the statics of the kernel as one record `Kernel`, with `Pcb` from
--   `Kernel/include/proc.h`, `Semaphore` from `Kernel/include/sem.h` and `Pipe` from `Kernel/pipes.c`.
--   `System/Run` says what a routine does: it ends, faults, spins on a lock, or gives the CPU away
--   and goes on later from the state that it finds then.
-- `Table`: the lookups of `Kernel/proc.c`.
-- `Scheduler`: `scheduling`, `yield` and `last_wish` of `Kernel/scheduler.c`, and the timer stub of
--   `Kernel/asm/interrupts.asm` by what it does with the stack pointer.
-- `Blocking`: `block_process` and `unblock_process` of `Kernel/proc.c`.
-- `Nice`: the priorities and `be_nice` of `Kernel/scheduler.c`.
-- `Semaphore`: `Kernel/sem.c`.
-- `Pipes`: `Kernel/pipes.c`, `Pipes/Create` with the two ways to make a pipe and `Pipes/Transfer` with
--   `pipe_close`, `pipe_register`, `pipe_write` and `pipe_read`.
-- `Lifecycle`: `create_process` in `Lifecycle/Create`, `kill_process` in `Lifecycle/Kill`, `wait` in
--   `Lifecycle/Wait` and `get_proc_list` in `Lifecycle/ProcList`, of `Kernel/proc.c`. `Manager` is the
--   interface to the memory manager that the kernel is linked with.
-- `Keyboard`: `Kernel/keyboard.c`; its state stands beside the kernel's.
-- `Buddy`: `Kernel/libs/lib_bit.c` and `Kernel/libs/lib_buddy.c`, with
--   `Kernel/memory_management/buddy_memory_manager.c` in `Buddy/Manager`. The nodes of the free lists are a
--   memory of two pointers for each address.
-- `Syscalls`: `sys_read`, `sys_write` and `read_chars` of `Kernel/syscall_handler.c`, over a record `Machine`
--   of the keyboard, the kernel and what the video driver shows.
-- `Shell`: the words of a line, of `Userland/userCodeModule/shell.c`: `remove_extra_spaces`, `strchr` and
--   `parse_arguments`. `Shell/Words` says what the words of a text are.
-- `Launch`: `process_key`, `process_command`, `handle_pipe_command` and `find_command_rip` of that file. What
--   the shell calls is the record `Calls`.
-- `Screen`: `write_out`, `check_shift` and `shift` of that file, with the shell's copy of the screen.
-- `Userlib`: the numbers of `Userland/userCodeModule/userlib.c`, and `Userland/userCodeModule/rand.c`.
-- `Filters`: `wc_dummy`, `cat_dummy` and `filter_dummy` of `Userland/userCodeModule/userlib_so.c`. What their
--   reads get is an argument, and what they write is the result.
-- `Clock`: `formatTime`, `formatDate` and `calculateMonthLastDay` of `Kernel/time.c`, with the ticks and `sleep`
--   in `Clock/Ticks`.
-- `Bytes`: `memset` and `memcpy` of `Kernel/libs/lib_mem.c`.
--
-- Numbers. An `int` is its 32-bit pattern, so -1 is 2 ^ 32 - 1, and the wrap-around is written out. The
-- search of `alloc` has fuel for each block and one more, since its index grows in every round; the
-- search of the scheduler has the 64 rounds of its loop. A conversion of an `int` to digits has 32
-- rounds, enough in every base from 2 on. `kill_process` calls itself on the members of a group, and its
-- fuel is how many of these calls fit on the stack of the kernel. `write_out` has two rounds for each
-- character, since the last column of a line takes a round of its own. The loop of `read_chars` ignores reads of 0,
-- so its fuel counts every round; a line takes one for each character. `first_power` has 64 rounds, enough
-- where it ends at all. The largest size class of the buddy manager, 25 in the source, is a parameter. `sleep` has no fuel: it takes
-- the values of the counter one by one. Pointers are addresses, and a slot of the
-- process table holds its block itself.
--
-- Not modelled: devices and output, the descriptor tables, the boot of the kernel, the table of
-- system call numbers, the commands and tests that the shell starts other than the filters, and the tools.
-- The loop of `shell` reads a key and hands it to `process_key`. The spinlock of
-- `Kernel/asm/libasm.asm` is a flag. Whether the word before `process_table` is harmless to write
-- through is a fact of the linked image, and a field of `Kernel`, which no theorem assumes: where it matters,
-- the fault is one of the outcomes.
pub mod Base
pub mod Text
pub mod Memory
pub mod System
pub mod Table
pub mod Scheduler
pub mod Blocking
pub mod Nice
pub mod Semaphore
pub mod Pipes
pub mod Lifecycle
pub mod Clock
pub mod Keyboard
pub mod Shell
pub mod Launch
pub mod Screen
pub mod Userlib
pub mod Syscalls
pub mod Buddy
pub mod Filters
pub mod Bytes
