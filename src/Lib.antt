-- ===== src/Lib.antt =====
-- Verification library for syfala, a real-time audio network in Rust: servers announce their audio
-- streams, clients connect to them over UDP, and both carry samples between sound systems and
-- packets through lock-free ring buffers.
--
-- The parts, and the files that model them:
--   * Proto: the crate syfala_proto. Proto.Format is syfala_proto/src/format.rs, Proto.Message is
--     syfala_proto/src/message.rs with the audio headers of syfala_proto/src/lib.rs.
--   * Utils: the crate syfala_utils. Utils.Counter and Utils.Queue are the counters, `shift_iter`,
--     `IndexedRx` and `IndexedTx` of syfala_utils/src/queue.rs, over the ring buffers of Utils.Ring;
--     Utils.Samples and Utils.Trait are sample_type.rs; Utils.Producer is byte_producer.rs, samples
--     to bytes; Utils.Consumer is byte_consumer.rs, bytes to samples.
--   * Network: the crate syfala_network. Network.Wire is the flat messages of
--     syfala_network/src/lib.rs; Network.Socket its sockets and errors; Network.Server the loop of
--     udp/server/mod.rs; Network.Client that of udp/client/mod.rs. `GenericClient` of
--     udp/client/generic/mod.rs is Network.IoState (`ServerIOState::on_msg`), Network.Expire and
--     Network.Poll (the two loops of `on_timeout`), and Network.Generic (the other methods);
--     Network.Context is the traits of udp/client/generic/state.rs.
--   * Jack: the crate syfala_jack. Jack.Interleaver is syfala_jack/src/interleaver.rs, Jack.Process
--     the process callback of syfala_jack/src/lib.rs, which joins the ports to the indexed queues.
--   * Coreaudio: the macOS driver, syfala_coreaudio/src/lib.rs. Coreaudio.Objects is its object tree;
--     Lifecycle the factory, the reference count and the device management; Io the clients that do IO
--     and the zero timestamps; Volume the conversions of volumes; State the statics. Properties has
--     `PropertyData` and its functions, with a module for the `match` of each kind of object, Find for
--     `find_property_data`, and Access for the entry points from `has_property` to
--     `set_property_data`. Coreaudio.Sessions is the whole driver under calls in any order.
--   * Common: shared names, lists over native numbers, and `Outcome`, the result of code that may
--     panic.
--
-- How the code is rendered. A method that takes `&mut self` returns the new value. A panic is
-- `panicked`, a value like any other: `strict_add`, `strict_sub`, `unwrap` and indexing are written
-- out. A `u64` is a number with its bound 2^64 tested, and `usize` has 64 bits. An iterator is a
-- record with a `next`, and what a caller pulls is a number of calls; `pad_fn` is the sequence of
-- its results. A float is its bit pattern, and in the driver a parameter. Addresses and instants are
-- numbers, instants and durations in nanoseconds; `last` is the last instant that the platform can
-- represent. What a socket answers, call after call, is a list, and the packets sent are a log.
-- Buffers for encoding have a size that is passed on as `room`.
--
-- Parameters. Code of other crates is a record of functions with the laws that their documentation
-- states: the ends of a ring buffer of `rtrb` (RingConsumer, RingProducer), `postcard` (Postcard),
-- `priority_queue` (DeadlineQueue), sockets (Sock, ServerSock), JACK (ProcessScope) and the
-- application (Context), the constants and struct sizes of the CoreAudio headers (Sys), `f32`
-- (Float32). Each has a concrete instance in Utils.Tests, Network.Tests, Jack.Tests or
-- Coreaudio.Tests. A `HashMap` is an association list.
--
-- Fuel. The loop over overdue deadlines runs on one more than the number of deadlines, and out of
-- fuel it would panic; that it does not is a part of the theorem on `on_timeout`. All other loops
-- are structural: on the packets received, on the servers, on the number of elements asked for.
--
-- Reading outside of a buffer, which is undefined behaviour in Rust, is a panic of the model.
--
-- A function with a C interface that panics aborts the process. A `match` on a selector is a list of
-- arms, of which the first that fits is taken. The atomics and the mutex of the driver are plain
-- state, since each entry point is modelled as one step.
--
-- Not modelled: logging, and the driver's table of function pointers; memory and threads of ring
-- buffers; the size of a datagram; the conversion to `f64` of the frame of a zero timestamp, which keeps
-- frames up to 2^53.
pub mod Common
pub mod Proto
pub mod Utils
pub mod Network
pub mod Jack
pub mod Coreaudio
