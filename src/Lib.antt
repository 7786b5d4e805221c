-- ===== src/Lib.antt =====
-- Verification of capi4linux, the CAPI 2.0 subsystem for Linux.
--
-- A CAPI application exchanges messages with ISDN devices through the capicore
-- (linux/drivers/isdn/capi/core.c). Applications and devices register with it; it numbers them, keeps
-- for each application the set of devices that accepted it, with a reference to each, hands messages
-- to the drivers of the devices, and queues what the drivers send. The message converter
-- (linux/drivers/isdn/capi/capiutil.c) turns the structure `_cmsg`, which clients fill with the
-- functions of linux/include/linux/isdn/capiutil.h, into the bytes of a message and back.
--
-- Prelude: tests, lists and finite checks. Memory: a byte memory with little-endian words.
--
-- Cmsg: the converter. Cmsg/Table has `cdef`, `cpars` and `command_2_index`, Cmsg/Struct `_cmsg` and
-- `capi_cmsg_header`, Cmsg/Encode `jumpcstruct`, `pars_2_message` and `capi_cmsg2message`, Cmsg/Decode
-- `message_2_pars` and `capi_message2cmsg`, Cmsg/Fields and Cmsg/Fill the `capi_fill_*` functions,
-- with the messages that they stand for in Wires, and `capi_cmsg_answer`, Cmsg/Names `capi_cmd2str` and `capi_info2str`. Cmsg/Layout reads a parameter
-- string as a tree, Cmsg/Wire says what bytes a tree stands for, and Cmsg/Rows reads the rows of
-- `cpars` so. A parameter's number stands for the offset of its field. The loops of
-- both directions are recursion on fuel, a round for each byte of the parameter string and one for its
-- end; Cmsg/Encode/Total and Cmsg/Decode/Total are about this fuel. `cmsg_len` is how far the encoder
-- writes.
--
-- Core: the capicore. Core/State has its records, Core/Numbers the loops of `add_capi_appl` and
-- `add_capi_device`, Core/Registry the registration of applications and devices and their release,
-- Core/Messages `capi_put_message` with the queue of linux/include/linux/isdn/capiappl.h and the
-- drivers' side of linux/include/linux/isdn/capidevice.h, Core/Queries the getters. A device is named by
-- its slot of `capi_devs_table`, and its reference counter is a number. Core/Registry/Invariant ties
-- the counters, the bit sets, the device list and the tables together. The loop of `capi_release` runs
-- on fuel, a round for each slot and one for its end. Core/Registry
-- takes the drivers' answers, the result of the registration with sysfs, and the kernel's
-- `find_next_bit`, with the laws that the kernel documents for it, as parameters.
--
-- Ncci: the queues of message numbers that drivers keep for the data window of an NCCI,
-- linux/drivers/isdn/capi/capilib.c, with the pool as a store of nodes. Ncci/Queue ties the two chains
-- of the pool to lists. The loop of `mq_dequeue` has a round for each node of the pool, whose size is a
-- parameter. The other parts do not use it: drivers call it.
--
-- Capidrv: the driver that makes CAPI controllers known to ISDN4Linux,
-- linux/drivers/isdn/capi/capidrv.c. Capidrv/Tables has the three state machines, with the states and
-- events of linux/drivers/isdn/capi/capidrv.h, Capidrv/Card a controller with its channels and with
-- stores of PLCIs and NCCIs, Capidrv/Nodes `new_plci` to `capidrv_del_ack`, Capidrv/Change the changes
-- of state with `p0` and `n0`, which free nodes. Capidrv/Handlers has the handlers of messages, the
-- commands of ISDN4Linux and the data it sends, and Driver the loop of `capidrv_recv_message` with the
-- decoder and the dispatch. A pointer is a place in a store, and one that is NULL, freed or out of range, when it is followed,
-- gives no card. So do a message that is longer than the 180 bytes of `cmsg->buf` and an `alloc_skb`
-- that gives NULL, in `send_message`; a card carries the answers of `alloc_skb` for its messages, which
-- are open, and Capidrv/Buffer is about the lengths of its messages. Capidrv/Links says how channels,
-- PLCIs and NCCIs point at each other; its children are about the operations, and Capidrv/Safety about
-- the handlers. Capidrv/Trace is the ring
-- through which ISDN4Linux reads the D-channel trace. The driver sends with the
-- fillers and the encoder of Cmsg; the capicore takes the messages. ISDN4Linux is a parameter: its
-- sizes, its answer to a call, and the card as the commands that it issues meanwhile leave it; what it
-- does on other calls of `statcallb` comes as a later command. Parameters are also the kernel's
-- `skb_pull`, and what `1 << i` is in `decodeFVteln`, which C leaves open from 31 on.
--
-- Kernelcapi: the list of users of the legacy interface, linux/drivers/isdn/capi/kernelcapi.c, with its
-- pointers as a store. Kernelcapi/Users says who is told of a device. The loops have a round for each
-- user and one for the end of the list.
--
-- Examples: concrete inputs.
--
-- Numbers are unbounded, with wrap-around written out where the code relies on a width: the 16-bit
-- counter of `add_capi_appl` and the bytes and words of messages. An operation of the capicore is one
-- step: the semaphores that make it so are not part of the state, but for a device's `sem`. Not
-- modelled: the start and stop of the modules, procfs and sysfs output, capifs, the printing functions
-- of capiutil.c, capi.c, the application table of kernelcapi.c, and, of capidrv.c, the messages that
-- turn the trace on and bring it, and the removal of a controller. A received message is a memory
-- without an end: a read behind the bytes that came is not told from one of them.
mod Prelude
pub mod Memory
pub mod Cmsg
pub mod Core
pub mod Ncci
pub mod Capidrv
pub mod Kernelcapi
mod Examples
