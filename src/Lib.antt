-- ===== src/Lib.antt =====
-- RustSBI for the Allwinner D1: the loader that the boot ROM starts, the supervisor execution
-- environment (SEE) behind it, and the hardware and data they share.
--
-- A boot goes through these parts. The loader (spl) reads the table in the NAND flash, copies the device
-- tree, the SEE and the kernel to the DRAM, records their offsets in the meta data in SRAM and jumps. The
-- SEE (see) finds the kernel there, runs it in S mode and handles its traps. Both use common for the memory
-- map, the table and the meta data, and hal for the registers. On the host, xtask builds the stages and
-- writes them to the flash with the table that the loader reads, or to the RAM with the meta data that the
-- SEE reads.
--
-- Files and sources:
--   Common/Arrow       common/src/arrow.rs; a printed byte is an element of a list, Screen is the terminal
--   Common/Memory      common/src/memory.rs: Meta, dtb_offset
--   Common/FlashMeta   common/src/flash.rs: the table in the flash
--   Common/Dtb         common/src/memory.rs: parse_memory_size
--   Common/Payload     common/src/lib.rs: EgonHead, PayloadMeta
--   Hal/Clint          hal/src/clint.rs; a record of 32-bit registers
--   Hal/Gpio           hal/src/gpio.rs; a store of 32-bit words by address
--   Hal/Ccu            hal/src/ccu.rs, with Hal/Time (time.rs) and Hal/Plic (plic.rs)
--   Hal/Spi            hal/src/spi.rs: the clock dividers of Spi::new; Hal/Spi/New is the rest of it, and drop
--   Hal/Spin           hal/src/spi.rs: the loops that wait for a register
--   Hal/Transfer       hal/src/spi.rs: Spi::transfer; Bus says what is asked of the controller
--   See/Cpu            the instructions that the naked functions use
--   See/Switch         see/src/execute.rs: m_to_s and s_to_m
--   See/Riscv          what see uses of the crates riscv and rustsbi, as parameters
--   See/Execute        see/src/execute.rs: the trap loop and the start of the supervisor
--   See/Execute/Run    see/src/execute.rs: the loop as a step relation with what S and U mode may do
--   See/Pmp            see/src/main.rs: set_pmp; see/src/hart_csr_utils.rs: print_pmps
--   See/Board          see/src/main.rs: parse_board_info
--   See/Start          see/src/main.rs: rust_main
--   See/Extensions     see/src/extensions.rs
--   Spl/Flash          spl/src/flash.rs: SpiNand over a bus; Chip says what is asked of the flash chip,
--                      and Controller puts the driver on Hal/Transfer
--   Spl/Logging        spl/src/logging.rs: the operators of Out
--   Spl/Setup          spl/src/main.rs: the pins and the controller that main sets up
--   Spl/Boot           spl/src/main.rs: the rest of main; Misses is the case in which the tree's place wraps
--   Spl/Head           spl/src/main.rs: start and head_swap; spl/src/magic.rs: PARAM; the order of spl/build.rs
--   Xtask/World        xtask/src/xfel.rs and the types of xtask/src/main.rs: files, RAM and flash as the world
--   Xtask/Make         xtask/src/components.rs: Components::make
--   Xtask/Image        xtask/src/components.rs: the checked image of the loader
--   Xtask/Spinand      xtask/src/components.rs: Components::flash; Boots joins it with the loader
--   Xtask/Debug        xtask/src/components.rs: Components::debug; Start joins it with the SEE
--   Xtask/Asm          xtask/src/components.rs: Components::asm
--   Xtask/Xfel         xtask/src/xfel.rs: detect_xfel
--   Xtask/Main         xtask/src/main.rs: main
--   TestKernel         test-kernel/src/console.rs and main.rs
--   Spl/Boot/Chain     the loader, the SEE and the entry of the kernel, joined; Spl/Boot/Registers puts them on the
--                      registers of Hal/Transfer, and Xtask/Spinand/Chain puts the tool in front
--   Base               numbers, bit operations, lists and fields of words
--   Examples           models of the hardware and the theorems at concrete inputs
--
-- Numbers are natural numbers; a conversion to w bits is written out as a remainder by 2^w. State is
-- passed explicitly. A panic is `none` or an outcome of its own.
--
-- Bounds and fuel: a loop that polls a device has a number of polls, and the theorems ask for more polls
-- than the device's latency. The copy loop of Spl/Flash has one round per byte of the buffer, which is enough
-- since each round copies at least one byte. The loops of Spl/Head need 33 rounds, one more than the words
-- they move. The loops of the decimal printer have 21 rounds, one more than the digits of any 64-bit number. The divider search runs its 64 rounds.
--
-- Not modelled: code of other crates (d1-pac, riscv, rustsbi, embedded-hal, dtb-walker), which is a
-- parameter where it matters, as are the errors that the host's file system gives for the user's paths; the machine code in spl/src/magic.rs, which is a parameter of Spl/Head; the assembler at the start of see; the
-- text that boots print, but for the board that the SEE shows; the linker scripts. Of xtask the reading of the command line
-- is left out; the programs it starts are what Xtask/World says of them.
pub mod Base
pub mod Common
pub mod Hal
pub mod Spl
pub mod See
pub mod Xtask
pub mod TestKernel
pub mod Examples
