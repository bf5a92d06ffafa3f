-- ===== src/Lib.antt =====
-- Verification of riscv-em, a RISC-V emulator: the interpreter of one hart, its traps and
-- interrupts, its decoder, its memory bus, seven of its devices, and the device tree for the guest.
--
-- The program. A hart (src/hart.cpp) runs cycles: it takes an interrupt if one is due, fetches a
-- word over the bus (src/mmio.cpp), decodes it and calls the function of the instruction
-- (src/sets). The bus sends an access to RAM (include/memory_map.hpp) or to a device. The serial
-- port (src/devices/uart.cpp) tells the interrupt controller (src/devices/plic.cpp) the level of
-- its line, and the controller sets the external interrupt bits of the harts; the timer device
-- (src/devices/clint.cpp) sets the software and timer bits.
--
-- The files.
--   Base: numbers, tests, lists, words, bits and bit fields that all parts share.
--   Traps: include/defines/traps.hpp and the modes of include/hart.hpp.
--   Hart: the state of include/hart.hpp. Hart/Csr is include/defines/csr.hpp; Hart/Trap is
--     `Hart::trap` and `exec_MRET`, `exec_SRET` of src/sets/priv.cpp; Hart/Access is
--     `Hart::csr_write` and `Hart::csr_read`; Hart/Interrupts is `Hart::check_ints` and
--     `Hart::int_local_pending`.
--   Devices/Plic: src/devices/plic.cpp. Claim has the operations that change what is pending, Bus
--     the registers; Select, Ones and Leads reason about the choice of a source.
--   Devices/Uart: src/devices/uart.cpp. Step has its operations; Inv, Bus, Queue and Wire reason
--     about them.
--   Devices/Clint: src/devices/clint.cpp with include/structs/timer_st.hpp and timecmp_st.hpp.
--   Devices/I2c: src/devices/i2c/i2c-core.cpp with include/devices/i2c. Inv and Completion reason
--     about it.
--   Devices/Hid: src/devices/hid/hid-over-i2c.cpp with its header, and in Keyboard hid_keyboard.cpp;
--     Queue reasons about the reports.
--   Devices/Virtio: src/devices/virtio_blk.cpp. Chain is the copies to and from guest memory and
--     `fetch_descriptor_chain`, Disk the requests, Queue `process_queue`, and Bus the registers;
--     Chain/Ram, Chain/Linked, Disk/Requests, Queue/Progress, Queue/Rounds and Bus/Registers reason
--     about them.
--   Devices/Syscon: src/devices/syscon.cpp.
--   Memory: include/memory_map.hpp, its copies in Memory/Copy, and in Memory/Mmio
--     src/mmio.cpp with include/device.hpp.
--   Isa: the fields of include/decode.hpp, and src/sets: rv64i.cpp in Integer, Branches and
--     Transfers, rv64m.cpp in Muldiv, rv64a.cpp in Atomic, rv64c.cpp in Compressed, zba.cpp and
--     zbs.cpp in Bitmanip/Address, zbb.cpp in Bitmanip/Logic, zbc.cpp in Bitmanip/Carryless,
--     zicsr.cpp in Zicsr, zicboz.cpp in CacheBlocks, the rest of priv.cpp in Privileged; Floats has
--     rv64f.cpp and rv64d.cpp, the arithmetic and the conversions in Floats/Host.
--   Decoder: src/decode.cpp and the decoder of include/decode.hpp. Table is `build_lut`; Subsets,
--     Rounds, Keys and Built reason about its loop. Patterns is about the mask and the match of a
--     pattern. Instructions lists what the files of src/sets register; Unique compares the entries
--     with each other. Cache is `decode_inst` and `exec_FENCE_I` of src/sets/zifencei.cpp.
--   Execution: `Hart::init`, `Hart::fetch` and `Hart::tick` for any decoder; Calls maps the registered
--     functions to their models, and Cached is `Hart::tick` with the decoder and its cache.
--   Fdt: src/libfdt.cpp with include/libfdt.hpp. Writer is `serialize`; Writer/Sizes, Writer/Bounds
--     and Props reason about them.
--
-- Conventions. A machine word is a natural number with the wrap-around written out. A function
-- that changes an object takes and returns its state. Where the code can throw, or leave what C++
-- defines, `Outcome` says so; in the PLIC `none` is an access past the end of a vector. An
-- operation of the serial port returns the level of its call of `PLIC::set_pending`, and the I2C
-- controller keeps a list of the levels it told. A device on the bus is a table of its two virtual
-- functions, which act on the hart that accesses, on guest memory and on the rest of the machine; no
-- theorem is about the table with the devices of this library in it. An instruction's function is
-- modelled without the JIT, and registers are functions of their index.
--
-- Bounds. The loop of the PLIC over the bits of a word runs on 32 rounds: each round clears a bit of
-- a 32-bit word, so 32 are enough. The loop of `build_lut` over the submasks of a 32-bit word has
-- 2 ^ 32 rounds: each round goes on to a larger submask, so they are enough. The loop of
-- `process_queue` has 2 ^ 16 rounds: each moves a 16-bit index one step towards another. All other
-- loops are recursions on their lists or counts. `_pext_u32`, an instruction of the host, the
-- host's floating-point operations and the C library's calls on the disk image are parameters.
--
-- Not modelled: the registration of the floating-point patterns, the framebuffer, the JIT, the
-- debugger stub, windows, ELF files, the phandles of the device tree, the machine's thread and the
-- command line.
pub mod Base
pub mod Traps
pub mod Hart
pub mod Devices
pub mod Memory
pub mod Isa
pub mod Decoder
pub mod Execution
pub mod Fdt
