-- ===== src/Lib.antt =====
-- Verification library of msg, a messenger: nodes exchange messages over connections that
-- survive broken sockets. A connection (src/async/AsyncConnection.cc) queues and numbers its
-- messages; after a fault two nodes negotiate which socket goes on and what is sent again; a
-- throttle limits what is taken in; the other parts are helpers.
--
-- - Prelude, StdMap: shared numbers, lists and tests, and std::map as a list of descending keys.
-- - Session: the queues and sequence numbers of one connection. Session/Link joins two of them
--   by a wire that can be cut: submit is send_message, transmit a round of the loop of
--   handle_write, deliver the receipt of a message, acknowledge handle_ack, break_off the
--   requeueing of fault, and resume the exchange of in_seq and discard_requeued_up_to.
--   Link.Reach is every order of these.
-- - Connection: the states, the policy and the fields of AsyncConnection; fault, _stop and
--   release_throttle. Connection/Backoff iterates fault.
-- - Negotiation: handle_connect_reply and connect_seq's part of STATE_CONNECTING_READY of the
--   side that connects, and the resolution of an existing connection; Negotiation/Accept has the
--   rest of handle_connect_msg: its checks, the hand-over and the opening; Negotiation/Replace
--   is do_replace. AsyncMessenger's table is what it holds at the one address in question; the
--   handler holds the locks of the messenger and of both connections until it has decided.
-- - Dispatch: src/FIFOQueue.h and src/DispatchQueue.cc with its header: a map of strict queues
--   and one plain queue, the arrivals, a round of entry, and discard_queue.
-- - ReadBuffer: read_bulk and read_until of AsyncConnection.cc, over a read(2) that is a
--   parameter; a count that read(2) or sendmsg(2) returns is below 2^31, as Linux has it.
-- - SendBuffer: do_sendmsg and _try_send, over a sendmsg(2) that is a parameter, and the part of
--   buffer::list::splice (src/buffer.cc) that _try_send uses.
-- - Frame: a message: Message::encode and decode_message (src/Message.cc), the packed header and
--   footer (include/msgr/msgr.h) and the bytes of write_message. The checksum, the factory and
--   the virtual methods of a message are the fields of Codec.
-- - Receiving: do_process while a connection is open. advance is its switch, one function per
--   state; Receiving/Loop is its loop, each round of which reads an item by ReadBuffer;
--   Receiving/Reads is the same on the bytes alone. taken_messages and taken_bytes count what
--   a connection has taken of the two throttlers of its policy, put_messages and put_bytes what
--   was put back.
-- - Writing: what an open connection hands to _try_send, in order, and handle_write; the answers
--   of _try_send are its argument, and so is a bound on the messages of one call.
-- - Throttle: src/Throttle.cc with include/msgr/Throttle.h. A blocking get is two calls, up to
--   the wait and from the wake-up on; what runs between them is free.
-- - Armor: src/armor.c. The destination is the room that is left and the bytes that were
--   written.
-- - Buffers: buffer::raw, ptr and list (src/buffer.cc, include/msgr/buffer.h). The raws are a heap
--   that lists share, and a result says which exception was thrown or whether a std::list was
--   read at its end. Buffers/Splice, Compare, Memory (the append of characters), Claim, Reading
--   (the iterator and copy) and Contiguous have their operations. What a new raw holds is a
--   parameter, and so is the checksum. append takes two rounds, which are enough.
-- - SafeIo: src/safe_io.cc, with SafeIo/Offsets and SafeIo/Files, over system calls that are
--   parameters. A loop takes its rounds: one for each byte and for each call without effect.
--
-- Numbers are natural numbers; uint32_t and uint64_t counters keep their wrap-around (inc32,
-- inc64, minus32), a uint32_t that is returned as an int is an error from 2^31 on (as_int), and a
-- theorem that excludes this says so. Addresses enter by the two comparisons that
-- the code makes. Negotiation/Converges counts messages: attempts takes the number that may be
-- sent, and three are enough. do_process in Receiving/Loop takes the number of its rounds, and
-- seven for each byte to come and seven more are enough; do_sendmsg and _try_send take theirs
-- too, and say so when it is used up, since the socket decides how often it takes nothing.
-- SendBuffer/Ends is about one that takes something. The outcome of the authorizer check, the
-- result of a send, random bytes and the configuration are arguments.
--
-- Not modelled: sockets, events, threads and locks (wrappers of system calls), so that a state
-- of do_process is one step and what other threads do while it has given up its lock is left
-- out; local delivery and the threads of the dispatch queue; the rest of src/buffer.cc (copy_in,
-- zero, rebuild_aligned, files, base64) and its reference counts; encode_message and
-- decode_message for files, checksums, times, names and addresses, string lists; SimpleThrottle; the
-- authorizers; logging and configuration; gtest, which is another project's code, and the tests.
pub mod Prelude
pub mod StdMap
pub mod Session
pub mod Throttle
pub mod Armor
pub mod Buffers
pub mod SafeIo
pub mod Connection
pub mod Negotiation
pub mod Dispatch
pub mod ReadBuffer
pub mod SendBuffer
pub mod Frame
pub mod Receiving
pub mod Writing
