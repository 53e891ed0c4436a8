-- ===== src/Lib.antt =====
-- deravel-os is an operating system for RISC-V: a kernel with processes, capabilities and calls
-- between processes, a generator of interfaces, a library for programs, a windowing server and a file
-- system. This library models the parts listed here, and states what it proves of them at the end.
--
-- Prelude    shared names, Boolean tests on numbers, lists over the native numbers, and `Exec`, the
--            result of a computation that may panic. `add_usize`, `mul_u32` and their like are
--            arithmetic that panics on overflow, as in a debug build. `diverge` is the result of
--            running out of fuel.
--            Prelude.Int has the integers and the arithmetic of `i32`.
-- Memory     the constants of types/src/memory.rs, types/src/align.rs and types/src/lib.rs.
-- Heap       kernel/src/heap. Heap.Buddy is `Node` of buddy.rs: `new`, `alloc`, `dealloc`,
--            `reserve_range` and `stats`, named as there; Heap.Allocator is `BuddyAllocator` over it,
--            Heap.Bump is bump.rs, and Heap.Layout holds the roundings of the standard library and
--            `page_granular`. A tree has a depth below 64, so that the fuel 65 is enough. The memory
--            of the nodes is not modelled.
-- Capability types/src/capability/raw.rs, certificate.rs and pages.rs. A capability is the address of
--            a certificate, `Certificates` are the words in memory by page and index. `validate`
--            loops without a bound in the source, and on fuel here.
-- RingBuffer types/src/ring_buffer.rs, as one thread uses it. In RingBuffer.Interleave one producer and
--            one consumer run at the same time, and each access to memory is a step. The load of the
--            other side's counter gives any value that it has had.
-- Input      the events of input devices, from interfaces.drvli, and codes of types/src/input.rs.
-- Virtio     Virtio is kernel/src/virtio/queue.rs and Virtio.Input is input.rs there: the events of a
--            device on their way into a RingBuffer. The rings and the buffers that the device
--            writes are part of the state.
-- Kernel     Kernel.Process is the table of processes of kernel/src/process.rs, Kernel.Ipc the calls
--            between processes of kernel/src/syscall.rs, and Kernel.Schedule the scheduler, whose
--            rounds are on fuel. Kernel.Run has the runs of all of these from the start on.
--            Kernel.Grants hands out certificates, as kernel/src/capability.rs and
--            kernel-api/src/capability.rs do. `kill!` is `kill`, and locking a locked slot panics.
--            The objects that the kernel grants (drivers, spawners and shared memory) are the
--            parameter `Handlers`, and the decoder of the crate postcard is the parameter
--            `from_bytes`. User memory is taken to be readable. A process has its heap of
--            Heap.Allocator and its page table of Page.Table. The system calls for memory are not
--            modelled; in a run they may change both in any way.
-- Page       Page.Direct is kernel/src/page.rs, Page.Entry is entry.rs and Page.Table is table.rs of
--            kernel/src/page. A table is a tree of three levels; where its pages lie is left out.
--            Page.Table.Translate is how the hardware of the Sv39 scheme reads it.
-- Fat        filesystems/fat/src. Fat.Bpb is bpb.rs, Fat.Volume the arithmetic on sectors and the
--            reading of files of main.rs, Fat.Path the directories and paths there, and
--            Fat.Directory the names of directory.rs. The drive is a function from sectors to bytes;
--            fuel bounds the clusters of a file, whose chain may be a cycle.
-- Framebuffer kernel-api/src/framebuffer.rs, the pixels as one list.
-- Codegen    codegen/src. Codegen.Strings holds the functions of `str`, on texts of ASCII,
--            Codegen.Parse is parse.rs, and Codegen.Types is lib.rs. The parser of types recurses on
--            fuel: a type is at most as deep as its text is long. The loop over the lines of a
--            description takes a line in every round.
-- Apps       Apps.Windowing is apps/src/bin/windowing.rs: windows, cursor, buttons and shortcuts, with
--            the certificates of Kernel.Grants and the drawing of Framebuffer that they take. The
--            calls of other processes and the copying of windows are recorded as outputs.
-- Tests      the theorems at concrete inputs.
--
-- The parts meet as in the program: the calls of Kernel.Ipc validate capabilities with Capability,
-- the scheduler works on the table that the calls change, page tables round with the same functions as
-- the heaps, the drivers of Virtio.Input fill a RingBuffer, and Apps.Windowing handles the events of
-- Input and pushes them into the RingBuffers of its windows.
--
-- Not modelled: boot, traps, logging and the registers of devices, which are assembly and input and
-- output; locks, beyond their order in one thread; the drivers, spawners and shared memory behind the
-- kernel's objects; the loading of ELF files and what create_process maps; the system calls alloc,
-- alloc_shared, map_shared, free and log, and the allocations of a process; dispatch, the loop of a
-- program over its calls (kernel-api/src/dispatch.rs); the generated code, beyond names and types; the
-- other programs of apps/src/bin.
pub mod Prelude
pub mod Memory
pub mod Heap
pub mod Capability
pub mod Input
pub mod RingBuffer
pub mod Kernel
pub mod Page
pub mod Framebuffer
pub mod Fat
pub mod Virtio
pub mod Codegen
pub mod Apps
pub mod Tests
