-- ===== src/Lib.antt =====
-- The core of the AetherionOS kernel (kernel/src): memory management, the heap, processes, messages,
-- descriptor tables, the drivers for the keyboard, PCI, USB and software radio, and the inference code.
--
-- The parts and their files:
--
-- - Memory.Bitmap, kernel/src/memory/bitmap.rs: a bit for each frame. `new`, `set`, `clear`, `is_set`,
--   `find_first_clear`, `find_consecutive_clear`, `count_free` and `count_allocated` have their names.
--   The loops are functions of the rounds that are left (`scan_bytes`, `scan_byte`, `scan_run`,
--   `count_from`).
-- - Memory.FrameAllocator, kernel/src/memory/frame_allocator.rs: hands out frames of 4 KiB from that
--   bitmap. Every method has its name; the bodies of the two range loops are `set_range` and
--   `release_range`.
-- - Memory.Address, kernel/src/memory/mod.rs: physical and virtual addresses and the parts of a
--   virtual address.
-- - Memory.PageTable, kernel/src/memory/page_table.rs: entries, which are their u64, and tables. A
--   table is a function of the index, and the bounds check of `table[index]` is in `entry`.
--   `is_present` and its kin are `has` at a flag, `set_present` and `set_writable` are `put`.
-- - Memory.Paging, kernel/src/memory/paging.rs: the mapper. It takes its new tables from
--   Memory.FrameAllocator. Its state is `Machine`: the physical memory, as the page table that stands
--   at each address, the frame allocator, and the list of the pages that `invlpg` was executed for.
--   `map_page` is in two parts, the three calls of `get_or_create_table` and `map_entry`;
--   `next_table` is the test and the step down that `translate` and `unmap_page` write out four times.
-- - Heap.Bump, kernel/src/allocator/bump.rs, with the global allocator of kernel/src/allocator/mod.rs,
--   and Heap.LinkedList, kernel/src/allocator/linked_list.rs: the two heap allocators, over the
--   layouts of Heap.Layout. The free list is the sequence of its nodes, each with its address.
-- - Ipc, kernel/src/ipc/mod.rs: a bounded queue in each of 256 slots. The methods `send` and `receive` of
--   a queue are `push` and `pull`, the functions of the module have their names.
-- - Process, kernel/src/process/mod.rs: the process table, the identifiers and the scheduler, under
--   their names.
-- - Syscall, kernel/src/syscall/mod.rs: the numbers of the system calls and their dispatch.
-- - Gdt, kernel/src/gdt/mod.rs, and Interrupts, kernel/src/interrupts/idt.rs: descriptors and gates with
--   their fields as the source cuts them up. `new_table` is the `new` of a table; `load` gives the
--   descriptor that lgdt or lidt is executed with.
-- - Drivers.Keyboard, kernel/src/drivers/keyboard.rs: the ring of keys that were not yet read.
-- - Drivers.Pci, kernel/src/drivers/pci/mod.rs. Config: access to the configuration space. Device: the
--   device that `PciDevice::new` reads, its classes and its base address registers. Names: the table of
--   names. Scan: `scan_bus`, the searches, the switches of the command register, and `init`, whose
--   printed lines are `report`.
-- - Drivers.Usb, kernel/src/drivers/usb: Descriptor (descriptor.rs, mod.rs), Hid and Mouse (hid.rs) and
--   Xhci (xhci.rs). A radio, a keyboard and a mouse hold the `UsbDevice` of Descriptor.
-- - Drivers.Sdr.RtlSdr, kernel/src/drivers/sdr/rtlsdr.rs: the radio, with the control transfers it has
--   sent; Drivers.Sdr.Demodulator and Drivers.Sdr.Filter, kernel/src/drivers/sdr/demodulator.rs: the FM
--   and AM demodulators, which work on the samples of kernel/src/drivers/sdr/mod.rs, and the low-pass
--   filter and the decimator.
-- - Ai.Tensor, kernel/src/ai/tensor.rs; Ai.Inference, kernel/src/ai/inference.rs, whose layers work on
--   tensors; Ai.Whisper and Ai.AudioBuffer, kernel/src/ai/whisper.rs.
-- - Base: words, alignment and bit operations at every width, signed numbers, lists, code that can panic,
--   code with a state, and results with a message.
--
-- How the code is read. The kernel is built in release mode, so arithmetic on usize and u64 wraps, and
-- the models write the wrap out; an index out of range, a failed assertion and `expect` panic, and a
-- panic ends the run (`Run`). A vector that would be larger than half the address space panics too. A
-- pointer is its address, and null is 0. A spin lock makes the calls that it guards a sequence, so a
-- locked object is a state that is passed on.
--
-- What is outside of the source is a parameter: the port instructions (`PortIo`, with configuration
-- mechanism 1 as the laws of `Host`), the memory-mapped registers (`Mmio`, with `Steady` for ports whose
-- connection does not change), the arithmetic of f32 (`Float`, of which nothing is assumed) and the
-- functions of libm and casts (`Trig` and `Signal`; for FM, `IsCircle` has what the phases of `atan2f`
-- fulfil).
--
-- Two invariants carry the results on several calls. `Client` of each allocator has a step relation for
-- a client that gives back only what it was given and still holds. The tables of the mapper are a tree:
-- every table has a place, which is its depth and the indices that lead to it, an entry above the last
-- depth leads to the place below, and no table is a free frame. This rules out a table that is reached
-- on two ways, such as a recursive mapping.
--
-- Every loop is bounded by a number of rounds that the source fixes before it starts, or by a list, but
-- for the two waits of the XHCI driver and the two loops that bring the phase of the FM demodulator back
-- into its interval, which the source does not bound: `init` and `demodulate_fm` take a number of rounds
-- for each, and the results on them say how many are enough. The bound of `identity_map_pages`, whose loop
-- tests an address, is the number of pages between its two ends.
--
-- Not modelled: the screen, the disk, the file system and the network, which are stubs or only write to
-- hardware, and the start of the kernel with its
-- demonstrations. Instructions of the CPU (`invlpg`, loading CR3, `lgdt`, `lidt`) have no effect on the
-- state but the one named above. The 16 bits above the 48 of a virtual address are not checked by the
-- source, so two addresses that agree on the low 48 bits have one translation.
mod Base
pub mod Memory
pub mod Heap
pub mod Ipc
pub mod Process
pub mod Syscall
pub mod Gdt
pub mod Interrupts
pub mod Drivers
pub mod Ai
