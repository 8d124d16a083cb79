-- ===== src/Lib.antt =====
-- The networking library of the NA62 PC farm: it asks the detectors' read-out boards for the data of
-- accepted events, with MRP frames over raw Ethernet, and it receives and sends the farm's frames.
--
-- The parts and the files:
--   Memory: the blocks of `new char[n]` and `delete[]`, each with its bytes, and `DataContainer`, by
--     which frames are handed on. A read of what is not live and a double free are `none`.
--   Network (structs/Network.h): the packed headers as records and as their bytes on the wire
--     (`UDP_HDR`, `ARP_HDR` and the others), `setPayloadSize` and the fragmentation tests. `Packed`, here
--     and in Mrp, has the values that the fields hold; `Base.Layout` is how fields follow one another.
--   Ethernet (socket/EthernetUtils.h, socket/EthernetUtils.cpp): `Mac` is StringToMAC, `Multicast`
--     GenerateMulticastMac, `Ip` ipToString, `Iface` GetMacOfInterface and GetIPOfInterface, `Frames`
--     GenerateUDP and the ARP frames, `Checksum` the UDP checksums, `CheckData` CheckData.
--   Mrp (l1/MRP.h, and generateTriggerHDR of l1/L1DistributionHandler.cpp): the trigger element and
--     the MRP header in network order, as the defined macro `__USE_BIG_ENDIAN_FOR_MRP` selects; `Host`
--     is the other build, in the machine's order; `Receiver` reads a frame as a read-out board does.
--   NetworkHandler (socket/NetworkHandler.h): the send queue, the counters and this machine's
--     addresses. `PCap` (socket/PCapHandler.cpp) is the build over a raw socket, with its constructor in
--     `Startup`; `PFring` (socket/PFringHandler.cpp, and send_packet of socket/PFring.cpp) the one over
--     PF_RING, with its constructor in `Startup`, the PFring class (socket/PFring.h) in `Class`, and the
--     threads that share its queue in `System` and `Runs`.
--     `Outbox` is what the raw socket build promises of sending: a queue of frames, and what the
--     device was given. `Receiving` is a series of frames that are received.
--   L1Distribution (l1/L1DistributionHandler.h, l1/L1DistributionHandler.cpp): the request queue,
--     Initialize, Async_SendMRP (`Sending`) and the thread that calls it (`Thread`). The files `Received`
--     of both say what the receivers read, and `Thread.Program` begins at the constructors;
--     `Thread.Delivered` is how a run comes to its end, and `Thread.Sender` splits the call of a sender.
--   Dim (dim/DimListener.h, dim/DimListener.cpp): the registered callbacks, and infoHandler, which calls
--     them when a DIM service is updated; `History` is all that happens to a listener.
--   Zmq (socket/ZMQHandler.h, socket/ZMQHandler.cpp): the registry of the sockets, and the loop that
--     sends a message; `Inproc` has the in-process addresses and the wait of ConnectInproc, `Context`
--     Initialize and shutdown.
--   Ipc (monitoring/IPCHandler.h, monitoring/IPCHandler.cpp): the pipes to the process that starts the
--     farm, over sockets of Zmq: `Calls` sends, `Receives` receives, `ShutDown` is shutDown; `Run` mixes
--     the calls with those of other users of Zmq.
--
-- How they interact: Async_RequestL1DataMulticast puts a trigger into the request queue. The thread of
-- L1DistributionHandler pops triggers into its vector and calls Async_SendMRP, which makes one frame
-- for each header of Initialize and puts it into the send queue of NetworkHandler. Other threads call
-- DoSendQueuedFrames, which sends a frame and frees its buffer; the thread of NetworkHandler puts ARP
-- announcements into the same queue. `L1Distribution.Thread.System` has all of these, in the raw
-- socket build, as steps that may come in any order. A step of the thread is one test or pop of its
-- loops, or one batch: between the pushes of one batch the program sleeps, and senders, announcements
-- and requests may come there, which the model puts before or after the batch. A step of a sender is a
-- whole call of DoSendQueuedFrames; in `L1Distribution.Thread.Sender` the call of one sender is two steps,
-- the `try_pop` and the rest, with the other threads between, and `Whole` brings its runs back to those
-- of whole calls. What is said of the order of the frames is for one sender whose calls follow one
-- another: of two threads in DoSendQueuedFrames the later may give its frame to the device first.
-- `NetworkHandler.PCap.Senders` has any number of senders whose calls overlap, beside threads that queue one
-- frame at a time, as the pushes of a batch and of announcements are. In
-- the PF_RING build a whole call, its retries included, is one step. The concurrent queues are
-- linearizable, so each of their operations is one step.
--
-- How the code corresponds to the model: a function that changes static members takes and returns the
-- record of those members. `Option` is used for what C++ leaves undefined: an access past a block, a
-- null pointer, a double free. Texts are lists of character codes. A machine word wraps at its width
-- (`u8` to `u64`), and the machine is little-endian, as x86 is. What system calls and libraries outside
-- the repository answer is an argument: `Checksums` (DataContainer's sums), `Kernel` (ioctl),
-- `Resolver` (inet_addr, inet_pton), `flushBurst()`, and whether `sendto` works. GivesSaData says that
-- the kernel gives a hardware address as 14 bytes. IsInternetChecksum
-- is what the checksum theorems assume of the sums, as RFC 1071 has it, and `Ethernet.Reference` shows
-- that it can hold. All loops are structural recursion: the loop that retries a send and the wait for
-- a bound address read what happens in each round from a list, and have not ended if it runs out. The
-- loop over the queues of a device has a counter of one byte and takes fuel: one round more than
-- there are queues is enough, for up to 255 queues.
--
-- Not modelled: the subscriptions and the server that the DIM library starts; sleeps and log messages.
mod Base
pub mod Memory
pub mod Network
pub mod Ethernet
pub mod Mrp
pub mod NetworkHandler
pub mod L1Distribution
pub mod Dim
pub mod Zmq
pub mod Ipc
