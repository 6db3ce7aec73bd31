-- ===== src/Lib.antt =====
-- A verification library of cvos, the C support library of an embedded device: message frames and queues,
-- a ring buffer, checksums, timers, sockets, a log and wrappers of the operating system. The parts stand
-- beside each other and meet in the calls listed here; a path is from the repository's root.
--
-- Prelude    shared names, C arrays as lists over the native numbers, the C `int` as a signed integer,
--            memory blocks whose accesses outside are faults, the laws of bitwise exclusive or.
-- Ringbuf    ringbuf.c and ringbuf.h: `ringbuf_enqueue`, `ringbuf_dequeue` and their blocking forms are
--            `enqueue`, `dequeue`, `try_enqueue_blocking` and `try_dequeue_blocking`. Ringbuf/Queue is the
--            specification, a bounded queue that drops its oldest item; Holds and Refine relate the two;
--            Calls is about sequences of calls; Threads is a step relation of threads on one ring.
-- Crc        `_SumCRC16` of msg.c, `CRC16_CRCCCITT` of vos.c, `utl_CalcCRC16` of utils.c. Register and Bytes
--            bring the first to a linear register, which Detect is about; Division has the first two against
--            a division by the polynomial, Modbus the register of the third.
-- Msg        msg.c: `pack_hex` and `unpack_hex` are `MSG_PackHex` and `MSG_UnPackHex`, which use the
--            checksum; Msg/Frame has `MSG_PackMsg` and `MSG_UnPackMsg`, whose frames Text and Roundtrip are
--            about; Msg/Ipc has the message queues, Handover is about what they give out and lose; Keeper has
--            `MSG_AppSendtoKeeper`.
-- Clock      the date strings: `osdigit2time`, `osRecGetTime` and `osSYS_GetTime` of vos.c, `_digit2time` of
--            timer.c, `utl_TimeGetStamp` of utils.c.
-- Timer      timer.c: the table of timers, whose absolute timers read a date through Clock.
-- Stream     the loops that move a block of bytes through a descriptor, shared by the next two.
-- Net        netsock.c.
-- Files      the FIFO functions and `utl_KillForced` of utils.c, file functions of vos.c; Pipe and Copy are about
--            what `FifoSend` and `osFileCopy` hand over, Kill about the process that `utl_KillForced` ends.
-- Shell      the functions of vos.c and utils.c that have the shell do something, over the calls of Files; Count
--            is about `utl_DoesExist`, Mount about `osNetMountNAS`.
-- Os         threads, semaphores and timers of vos.c; Leaks is about the blocks of memory that are held.
-- Md5        the MD5 of vos.c: Feed is a reference that takes a byte at a time, Stream is about `md5_update`,
--            Padding and Final about `md5_final`, Digest about the three calls together; Compress is an
--            independent compression function in 64 turns, Compress/Rounds compares `md5_transform` with it,
--            and Choose is about its first two Boolean functions.
-- Mac        the hardware address of a card, as vos.c and utils.c read and print it.
-- Ifaces     `utl_IfGetInfo` of utils.c, its first call in Once and the calls on a freed list in Freed;
--            Ip has `osNetGetIP` of vos.c.
-- Json       `JsonParseText` and `JsonCreateObjects` of utils.c over cJSON.
-- Reboot     reboot.c; Log is about the file of reset reasons.
-- Log        logfile.c.
-- Auth       auth.c; Card is about the address of the card, read through Mac.
-- Config     cfgfile.c: sections and definitions in memory, `cfg_find` as `find`. Read has the calls that read
--            one value, Write `cfg_write`, Text `_cfg_parse` and `_cfg_output`, File the configuration's file,
--            Api the calls that open a file, read or change one value, and close it. Lookup says what is
--            found; Update, Assign, Clear, Delete, Section, Plain and Pool are about changes; Parse, Line and
--            Roundtrip about the text; Items and Save about the whole way through a file. Listing has the lists
--            of sections and keys, Copy `cfg_copy`.
-- Utils      the helpers of utils.c that are no FIFO or checksum functions; Leftover is about the string that the
--            parts of an address are copied through, Pid about the process number kept through Config, Token has
--            `utl_TokenCreate`, which hashes through Md5.
-- Http       http.c over libghttp; Balance is about the requests that are made and destroyed.
-- Redis      RedisClt.c over hiredis; Instances is about the count of `REDIS_Init` and `REDIS_UnInit`.
--
-- The library calls, such as those on sockets, files, timers and mutexes, are parameters: either records of
-- functions on a state that the model does not look into, or their results, given to the operation. A
-- theorem that depends on what such a call does takes that as a hypothesis (Stream.Send.Sends,
-- Stream.Receive.Receives). Bytes are numbers below 256; unsigned arithmetic keeps its wrap-around;
-- pointers are indices, NULL is `none`. Lines that only print are left out.
--
-- The loops of Stream take the length of the block as fuel: each turn moves at least one byte, so that it is
-- enough. `rcv_poll` and `wait_killed` run as long as the system makes them, and take any fuel; for the
-- latter it is to be above the number of signals that break its wait. `copy_loop` takes a turn for each byte
-- left to read and one more, `count_keys` one for each byte of the text and one more, `update_blocks` one for
-- each byte that is left and one more. The ring's counter is a 64-bit one; the theorems about the ring ask
-- for a size that is below 2^64.
--
-- `find` takes a turn for each entry and one more, and `parse` one more than the file has bytes; that this is
-- enough is proved.
--
-- Not modelled: libjson.c, a copy of cJSON; the tasks that fork and sleep around the license checks; the
-- second copy of the configuration code in utils.c, which is not compiled; the examples and tests. MD5 is
-- modelled for a machine whose words are little-endian.
pub mod Prelude
pub mod Auth
pub mod Clock
pub mod Config
pub mod Crc
pub mod Files
pub mod Http
pub mod Ifaces
pub mod Json
pub mod Log
pub mod Mac
pub mod Md5
pub mod Msg
pub mod Net
pub mod Os
pub mod Reboot
pub mod Redis
pub mod Ringbuf
pub mod Shell
pub mod Stream
pub mod Timer
pub mod Utils
