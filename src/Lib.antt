-- ===== src/Lib.antt =====
-- Xen2MX / Open-MX: message passing over Ethernet, with a kernel driver and a user library.
--
-- The driver receives packets and tells the library of them by events. It writes events into two
-- queues per endpoint that are mapped into the process, and the library polls them; a process
-- that has nothing to do sleeps in the wait call of the driver. The library matches messages
-- with requests, whose buffers may be cut into memory segments.
--
-- The parts and their files:
-- - EventQueue (driver/linux/omx_event.c): the expected and the unexpected queue of an endpoint.
--   Endpoint has the fields of struct omx_endpoint that this code uses; each function of the
--   source is a function on it (notify_exp_event is omx_notify_exp_event, prepare_event is
--   omx_prepare_notify_unexp_event_with_recvq, and so on). EventQueue/Steps puts the functions
--   together as one step function, EventQueue/Invariant, Marks and Publish prove what they keep
--   and do, EventQueue/Window gives the queue as a list. EventQueue/Race splits a notification
--   into its accesses to the shared index, in any order of several contexts.
-- - EventQueue/Wait (driver/linux/omx_event.c, omx_ioctl_wait_event): the sleeping call, with what
--   others do meanwhile as an argument.
-- - EventQueue/Poll (libxen2mx/omx_lib.c, omx__progress): the loop that reads the unexpected queue.
--   Its fuel is the number of unseen events and one more, and is shown to be enough.
-- - SendqMap (libxen2mx/omx_lib.h, omx_endpoint.c): the free list of send-queue slots.
-- - Segments (libxen2mx/omx_segments.h): the copies from, to and between the segments of requests,
--   the copy of a fragment at an offset (Segments/Partial) and the checksum. An access outside a
--   segment is a result of its own, `none`. The copy between two requests has a round for each
--   segment of either side and one more as its fuel, which is shown to be enough where both sides
--   have the same shape.
-- - Seqnum (libxen2mx/omx_types.h): sequence numbers of 14 bits with a session of 2 bits.
-- - Ack (libxen2mx/omx_ack.c): acks and nacks of a partner and the requests they end. Requests
--   stand in a store, queues are lists of their numbers; completing a request is recorded, and the
--   error handler of the application is a parameter.
-- - ToAck (libxen2mx/omx_lib.h, omx_ack.c): the acks that the library owes its partners.
-- - Early (libxen2mx/omx_recv.c): the queue of packets that arrive before their turn.
--
-- - Pull (driver/linux/omx_pull.c): the pull of a large message. PullHandle is struct
--   omx_pull_handle; Pull has its creation, its blocks and the first requests, Pull/Reply a reply
--   up to the copy of its data, Pull/Steps the end of the copy and the timer. Pull/Window says
--   which counts and descriptors agree, Append, Done and Take what each change keeps, Runs what
--   any order of replies, copies and timers does, Complete and Timer when a pull ends and what is
--   requested again. A mask of frames is a word of 8 bits, as a list (Base/Bits). The loops over
--   descriptors run at most four rounds, which is shown to be enough. Pull/Slots, FreeSlots and Table
--   are the table by which the id in a packet finds its handle. The constants are those of the
--   wire-compatible build, whose lengths common/omx_wire.h fixes.
-- - UserRegion (driver/linux/omx_reg.c): the regions of memory of the driver. Memory is a function of
--   the address, a segment a function from page indices to pages. UserRegion has the segments and
--   the fill of pages, Store the bytes put and read one by one, Fill what a fill stores, Message
--   the fills of a message in any order; Pin, Pinned, Chunk, Continue and Translate are the pinning, with
--   get_user_pages as an argument, and Arrive what the process then sees; Cache, Copied and Send
--   are the copies out of a region. The loops over pages have a round for each byte and one more
--   as their fuel, which is shown to be enough.
-- - RegionTable (driver/linux/omx_reg.c): the table of regions and their references, with RCU
--   callbacks and several contexts in any order (RegionTable/Steps).
-- - Respond (driver/linux/omx_pull.c, omx_recv_pull_request): the replies to a pull request, and
--   with UserRegion/Message the way of a block from one process to another (Respond/Transfer).
-- - Receive (libxen2mx/omx_recv.c, omx__process_recv): the order in which the messages of a partner
--   are matched, with its early packets and its partial medium messages. The outcome of matching
--   a packet and whether a fragment completes its request are arguments.
-- - Large (libxen2mx/omx_large.c): the regions that the library registers for large messages and
--   its cache of them. Large/Clean has the cleaning and the exit, Large/Pool the invariant, Alloc,
--   Get, Serve, Put, Clear and Exit what each call keeps, Runs any calls in any order. The windows
--   open with the driver are a field of the state; the answer of the driver when one is created is
--   an argument, and one is destroyed without an error.
-- - Medium (libxen2mx/omx_recv.c, omx__process_recv_medium_frag): the fragments of a medium message
--   and the request that they fill. Medium/Marks has the mask of fragments and the bytes of a
--   buffer, Store the copy of a chunk, on top of Segments/Partial, Laws one fragment, and Runs
--   the fragments of a message in any order.
--
-- Indices and counters of 32 bits wrap around as in C (Base/Words), and so do the ints and the
-- unsigned longs of 64 bits that the pinning of a region computes with; the theorems on it are for
-- chunks of at most 2 ^ 18 pages (the default is 1024 at most) and lengths that fit. Locks, memory barriers, debug
-- code and log messages have no counterpart. An event queue has 1024 slots, as in the default build.
--
-- Not modelled: the choice of a posted request, tiny and small messages, the send path and the
-- connection of partners in the library, the requests of large messages; nacks,
-- DMA copies, pinning by several contexts, peers and packet paths of the driver; the Xen
-- frontend and backend, which carry copies of the driver; and libopen-mx, a copy of the library.
pub mod Base
pub mod EventQueue
pub mod SendqMap
pub mod Segments
pub mod Seqnum
pub mod Ack
pub mod ToAck
pub mod Early
pub mod Pull
pub mod Medium
pub mod Receive
pub mod Large
pub mod UserRegion
pub mod Respond
pub mod RegionTable
