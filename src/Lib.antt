-- ===== src/Lib.antt =====
-- Verification of the core logic of the SaeOS kernel.
--
-- The program is a single-CPU x86-64 kernel. Its pure cores are modelled: the parts that keep the state
-- of a process's memory, of the tasks and of the sound buffer, and that plan what the hardware is told.
-- The system calls take the locks, call one operation of a core, and apply its answer to page tables,
-- the CPU or the card; those effects are not modelled.
--
-- * Mm/Vma models kernel/src/mm/vma.rs. `MemoryMap` is a record of its sorted vector of regions, a list,
--   and the three addresses; a method is a function in the state monad of Mm/Vma/Monad, where an error
--   keeps the state it was met in. Regions holds insert, remove and the loop of find_free; Ops holds
--   place, mmap, mmap_device, munmap, mprotect and set_brk (`choose`, `finish`, `protect`, `reinsert`,
--   `put_heap` are parts of those); Prot holds Protection::from_linux. View is the abstract map: the page
--   of an address, a partial function. Valid is the invariant: aligned regions in order, disjoint, none
--   empty. The modules Sorted, Gap, Spans, Choose, Place, Reinsert prove the steps; Calls, Protect, Brk
--   and Device the calls; Fresh treats a map that is built by insertions alone.
-- * Mm/Mapping models kernel/src/mm/mapping_model.rs with the memory map of kernel/src/boot/boot_info.rs:
--   Plan has the functions, Tiles, Cover and Check the proofs. The fixed array of chunks is a list with the
--   bound on its length.
-- * Mm/Holds models kernel/src/mm/holds.rs: Table has the operations, Count counts the ranges over a
--   frame, Punch and Release treat those operations, and History the sequences in which
--   kernel/src/mm/frame.rs calls them.
-- * Mm/Buddy models kernel/src/mm/buddy.rs: Lists has `BuddyLists` and the `FrameStore` it works on in one
--   record, with the node of each free block a value at its frame; Build has the loops that fill the lists.
--   Blocks and Flip treat aligned blocks and their buddies; Chain and Unchain the doubly linked lists under
--   push_node and unlink_node; Valid the invariant, with the lists' blocks as ghost state; Push, Unlink,
--   Steps, Merge and Marks how the operations keep it. Release, Find, Allocate, Serve and Owners treat the
--   calls, Heads and Isolate `isolate`, Carve, Largest, Rebuild and Restore the filling; Tags has is_free_head.
-- * Mm/Frame models `Allocator` of kernel/src/mm/frame.rs around these lists: Allocator has the operations,
--   Scan and Find treat allocate_scan before the lists are in use, Unreserve `unreserve` and Reserve the
--   loop of `reserve`. A panic is `none`.
-- * Exec models the program loader's checks: Elf/Plan is `plan` of kernel/src/exec/elf.rs, Elf/Segments
--   proves what an accepted plan is, Elf/Pages has page_contents, and Image is memory_map of
--   kernel/src/exec/mod.rs; Loads puts them together with Mm/Vma. Stack/Build is `build` of
--   kernel/src/exec/stack.rs, Stack/Layout and Stack/Start treat its words and Stack/Texts its pointers.
-- * Fs/Errno models kernel/src/fs/errno.rs, Fs/Results its `?`; Fs/Path treats `resolve` of
--   kernel/src/fs/path.rs, where a text is the list of its bytes: Resolve has it and Steps what it does;
--   Fs/File models the table of descriptors of kernel/src/fs/file.rs: Table has the methods, Slots the
--   lemmas on vectors of slots, Trimmed the invariant, Methods and RoundTrip what the methods do. An open
--   file is a value of any type.
-- * Task models kernel/src/task: Types (types.rs), Entity (entity.rs), Record (record.rs), WaitQueue
--   (wait_queue.rs), and Scheduler (scheduler.rs) with State (the store of tasks in slots, with the index
--   by id, a BTreeMap as its association list), Average (join, leave, charge), Pick (pick_next), Ops
--   (schedule, switch_to_next, stop_current, tick), Calls (spawn, preempt, yield, exit, reap and the calls
--   on one task) and Wait (sleeping, blocking, waking). Store and Slots prove that the store is a map from
--   ids to tasks; Keeps collects the steps that keep every task's state; Runs, Dispatch, Stop, Wake, Drain
--   and Lives treat the calls; Reach has the states that calls reach, History what holds
--   there, Earliest which task is picked; Views has what waiting tasks show, Sleepers treats their list, and
--   Expire which of them wake. A
--   panic (preempt with no task) is `none`; the refused transition that make_ready ignores is ignored.
-- * Sound/Ring models kernel/src/sound/ring.rs: Queue has the operations, Laws the proofs. The assertion
--   of commit is a failure; debug assertions are not made, so update clamps as the release build does.
-- * Drivers/Tty models the line discipline of kernel/src/drivers/tty.rs: Discipline has the operations,
--   Valid the invariant, Typing the way of a line from the keys to its reader, Kills the loops that erase.
--   The vectors that are pushed and popped at their end are lists with the end first.
-- * Klog models kernel/src/klog_ring.rs: Ring has the operations on the array, Contents the bytes of the
--   array after a write, Last the contents after many, and Search `contains`.
-- * Prelude has the shared names: lists, slots, options, words with their checked and saturating
--   operations, little-endian bytes, and the integers over native numbers.
--
-- Numbers. A u64 is a natural number; checked, saturating and wrapping operations are written out. Plain
-- additions that the source leaves unchecked are additions of natural numbers. Virtual time, an i128, is
-- an unbounded integer.
--
-- Fuel. walk_range has as fuel the bytes of its range and one, since each step advances; the loop of
-- wake_expired has the number of sleepers, since each round pops one; wake_all has the length of the
-- queue and one, since each round takes one entry or ends; the erasing loops of the line discipline have
-- the length of the line, and the one that ends by a failed erasure one more, since each round erases. Merging has MAX_ORDER - order rounds, since each raises the order, and the
-- loops that fill the buddy lists have the frames of their range, since each round goes on by one or more.
--
-- Not modelled: validate and the sums of the buddy lists, the bytes of the bitmap, the reference counts
-- and the set-up of the frame allocator, the kernel's heap, page tables, address spaces, collections, the file
-- systems behind paths and descriptors, the reading of a program's file, processes and system calls,
-- drivers but for the line discipline, time, locks, architecture and boot code, the tools and the
-- userspace. These are hardware effects, glue, or parts for which models remain to be written. Of a task,
-- the storage of its stack, its entry function, FPU registers and FS base are
-- left out, since the scheduler only hands them on; so are the capacities of vectors.
pub mod Prelude
pub mod Mm
pub mod Fs
pub mod Task
pub mod Sound
pub mod Exec
pub mod Klog
pub mod Drivers
