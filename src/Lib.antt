-- ===== src/Lib.antt =====
-- The baseband peripheral's software, as C code of this repository, with the theorems that make it
-- correct.
--
-- The program has six parts that are modelled here.
--   * The kernel driver, boot/baseband/baseband.c, in Driver. It owns the device's registers, a
--     mutex and DMA buffers, and serves read, write, mmap and ioctl.
--   * The transmitter library, sw/tx.c and sw/tx.h, in Tx. It turns a message into samples: header,
--     convolutional code, subcarriers, pilots, inverse transform, cyclic prefix.
--   * The user library of the device, sw/baseband.c, in User. Each function is one ioctl, or a loop
--     of them, and an error message.
--   * The message link, adi-sw/xcomm2ip.c and adi-sw/xcomm2ip_m.c, in Link. A sender turns lines of
--     input into messages of a queue; a node sends each over the transceiver until the other node
--     acknowledges it, and prints what it receives.
--   * The programs that drive the device, sw/tx_test.c, sw/baseband_test.c and sw/txtest.c, in
--     Programs.
--   * The capture of samples through libiio, sw/iiostream.c, in Streaming.
--
-- Driver. Driver/World is what the driver runs on. `Env` stands for the kernel and the device; it
-- is a parameter, and its clock, memory and registers are only ever assumed to do what is
-- documented of them, in records of named laws (`Clock`, `Drains`, `Memory`, `EnableRegisters`).
-- `World` is the driver's state: the mutex, the receiver flag, the buffers that are live, and a log
-- of all register writes. A command is a function from a world to a `Run`, which returns, blocks on
-- the mutex, dereferences NULL, or is out of polls. Driver/Regs has the register map and the
-- command numbers; Driver/Dma the arithmetic of lengths and times; Driver/Transfer the functions
-- `baseband_read`, `baseband_write` and `baseband_mmap`, cut into the pieces between their loops;
-- Driver/Ioctl one command for each case of `baseband_ioctl`; Driver/Probe `baseband_drv_probe`
-- and `baseband_drv_remove`; Driver/Deadlock what follows a read that timed out; Driver/Ends the
-- postconditions `Ends` and `Returns`.
-- The loops of read and write have no bound in the code, so they take a number of polls. Theorems
-- that end in `Any` say what holds if the polls suffice. Driver/Transfer/Timeout shows that for the
-- read they do: more than the nanoseconds of the time limit and more than the skid buffer's depth.
-- For the write no number is enough where the device never ends; where it does (`Finishes`),
-- Driver/Transfer/Finish shows how many are.
-- Words of `size_t`, `u32` and `unsigned long` have 32 bits, as on the ARM target.
--
-- Tx. Arrays are functions of the index, pointers are indices. A failed `assert` is `none`. Doubles
-- (Common/Double) and the Fourier transform `cdft` (`Fft`) are parameters, since neither is code of
-- this repository's own. Tx/Coder has `cc_encode_tb` and its helpers, Tx/Mapping `modulate` and
-- `add_pilots`, Tx/Samples the packing, the training fields and the cyclic prefix, Tx/Frame the
-- header and `encode`.
--
-- User. `System` stands for `ioctl`; replies are bit patterns of an `int`. A call is a command of
-- Common/Run on the state of the system, as the driver's commands are on its world. User/Device puts
-- the library on top of the driver: its `system` hands each `ioctl` to `baseband_ioctl`, turns the
-- kernel's reply into that of the C library, and `Placing` says where a struct of the program lies.
-- User/Session is a program that makes any calls of the library, one after the other.
--
-- Programs. `Files` stands for `open`, `read`, `write`, `close` and `malloc`. Each `main` is cut
-- where the code uses a pointer that may be NULL; giving memory back at the end is left out.
-- `configure`, `receive_samples` and `baseband_test` are sw/baseband_test.c, `txtest` and `switch` are
-- sw/txtest.c, the others sw/tx_test.c. Programs/Device runs sw/tx_test.c on the user library, the
-- transmitter and the driver together.
--
-- Streaming. Streaming/State has the state, the ways to end and `shutdown`, Streaming/Channels the
-- configuration, Streaming the loop and `main`. `Iio` stands for libiio, `fopen` and the signal. The
-- world has the static variables of the program and a log of what it did outside; a command returns,
-- exits, aborts, crashes, or has used up the rounds of the loop. `main` is cut at each `ASSERT` on a
-- handle, whose second clause is the call of `abort`. The loop takes a number of rounds, of which
-- two are enough, since its body stops it. Streaming/Laws has the postcondition of every command,
-- Streaming/Laws/Success the run in which every call succeeds.
--
-- Link. `Bus` stands for the mapped registers, the queue and the clock. Link has one round of the
-- node's loop in three parts (`receive`, `prepare`, `transmit`), Link/Stream what it prints of a
-- sequence of frames, Link/Sender the loops of the sender, over the characters of the input, and
-- Link/Main the two `main` around the loops. `run`
-- and `session` take a number of rounds, since the input and the link have no end of their own.
-- Link/Net sets two nodes against each other. Its `turn` is a round without the bus, which
-- Link/Net/Bridge compares with `round`. A step is a turn of a node, or the loss of a frame under
-- way; frames arrive in order with the words 3 to 31 of those that were sent. The counters have 32
-- bits and the sender's texts at most 20 characters: the steps are those in which no counter has
-- wrapped and a text fits its frame. Link/Way is the invariant of one direction, Link/Way/Moves how
-- each part of a turn keeps it, Link/Net/Safety the invariant of both, Link/Net/Progress what frames
-- that get through bring about.
--
-- Not modelled: printing, except the messages of sw/baseband.c, of the link and of the programs;
-- memory barriers; the registration of the driver's module; sw/test, a unit test with fixed inputs;
-- boot/baseband/rx_conf.c, which is unfinished; sw/third_party, a copy of another library; and the
-- hardware sources.
pub mod Common
pub mod Driver
pub mod Tx
pub mod User
pub mod Programs
pub mod Streaming
pub mod Link
