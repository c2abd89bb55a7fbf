-- ===== src/Lib.antt =====
-- The transport of AggDeliv (mpquic_trans), a multipath QUIC: verified models of its parts.
--
-- The parts and their files:
-- * Protocol models mpquic_trans/internal/protocol. Protocol.PacketNumber is packet_number.go:
--   infer_packet_number is InferPacketNumber, packet_number_length is GetPacketNumberLength.
--   Protocol.Version is version.go,
--   with the tags and the choice of a version.
-- * Wire models mpquic_trans/internal/wire and the byte orders of mpquic_trans/internal/utils. Wire.AckFrame
--   is the ACK frame in memory (ack_frame.go); Wire.Reader stands for bytes.Reader; Wire.ByteOrder has the
--   integer readers and writers of both byte orders; Wire.Control has a module for each control frame
--   with its parse, write and min_length; Wire.StreamFrame is the STREAM frame.
-- * Ack models mpquic_trans/ackhandler. Ack.History is received_packet_history.go, the
--   ranges of received packet numbers; Ack.Receiver is received_packet_handler.go, which decides when an
--   ACK is due and builds it from the history; Ack.StopWaiting is
--   stop_waiting_manager.go of the sender, Ack.Packet is packet.go and retransmittable.go.
-- * Ack.Sent is sent_packet_handler.go: State has the record, the timeouts and the queue; Detection the
--   loops that find acknowledged and lost packets; Handler, Calls and Timeout the methods. Congestion
--   control and the RTT statistics that it shares with the handler are the record Congestion, an argument
--   of the methods with any state and any functions; a clock reading is an argument, and two of them in
--   ReceivedAck are a Clock. Validity has the invariant and the calls that keep it, Acked and Removal what
--   the loops compute.
-- * Flow models mpquic_trans/internal/flowcontrol. Flow.Controller is flow_controller.go, one window;
--   Flow.Manager is flow_control_manager.go, the windows of all streams and of the connection.
-- * Sending has mpquic_trans/packet_number_generator.go and, of mpquic_trans/congestion, PrrSender
--   (prr_sender.go) and HybridSlowStart (hybrid_slow_start.go).
-- * Scheduler is mpquic_trans/scheduler.go: Select has the policies that choose a path (the one by bandwidth,
--   which selectPath uses, round robin and low latency), Retransmission has getRetransmission with what it
--   reaches of path.go, packet_packer.go, stream_framer.go and session.go. A map of paths is the list of
--   them in the order in which a loop visits it; getRetransmission, which visits it once in each round, takes
--   the order of every round as an argument, and Drawn and Drain have what it draws from the paths in
--   any orders. A float64 is a value of any type with a sum and a test.
-- * Streams is mpquic_trans/streams_map.go: the streams of a session, the identifiers that either side has
--   opened, and the calls that open, accept, remove and close them. A stream is a value of any type that
--   the function newStream makes from an identifier; a call that waits returns none.
-- * Sorter is mpquic_trans/stream_frame_sorter.go, the received frames of a stream and the gaps between
--   them: Finding, Ending and Filling have what the steps of Push compute, Validity, Taking, Putting and Pushing
--   the invariant, Progress and Reading what Pop returns, Parts and Bytes the bytes, Fin the FIN of a
--   frame that is cut. The map of frames is a function, the linked list of gaps is a list.
-- * Stream is mpquic_trans/stream.go, a stream over its sorter and the flow control manager: Read and Write
--   have the two calls that wait, round by round; Later, LaterRead and Flags what no call takes back, Reading,
--   InOrder and Delivery the bytes that Read returns, Writing those that are sent, ResetNil a Read that
--   Reset with a nil error wakes up. The error that a stream is closed with has any type, and may be nil.
-- * Framer is, of mpquic_trans/stream_framer.go, the frames that are sent again: maybeSplitOffFrame and
--   maybePopFramesForRetransmission.
-- * Common has the tests, lists, 64-bit arithmetic and bit laws that the parts share.
--
-- A received packet goes from the history to the handler, whose ACK frame Wire.AckFrame validates; packet
-- lengths of Protocol.PacketNumber decide the widths that Wire.Control.StopWaiting writes; the manager calls
-- the controllers of its streams and of the connection. The scheduler asks the sent packet handlers of all
-- paths whether they may send, takes their queued packets, and asks the flow control manager for windows.
--
-- Conventions: uint64 arithmetic is written with its wrap-around (Common.Word); pointers that a method
-- changes are passed in and returned; an error is a value beside the new state, since the code may
-- have changed state before it fails; a panic is a value of its own. Times are numbers and the clock is an
-- argument. Loops recur on the list or on the number of rounds; the outer loop of
-- getRetransmission has fuel, one round more than packets are queued, which is proved to be enough; the
-- loop of GetOrOpenStream has one round more than the identifier, each of which raises the next one by 2
-- (Streams.Validity); Read has two rounds more than the size of the buffer, each of which reads a byte or
-- is near the end (Stream.InOrder). Counters of packets since the last ACK are Go ints that are reset by
-- every ACK and do not wrap.
--
-- Not modelled: sockets, goroutines, timers, cryptography and handshake, congestion control with
-- floating point, the session that drives these parts, the policies of the scheduler that compute with
-- float64 alone, the sending of packets, HTTP, the live streaming proxy.
-- The multiplication by ConnectionFlowControlMultiplier in float64 is a parameter.
pub mod Common
pub mod Protocol
pub mod Scheduler
pub mod Streams
pub mod Sorter
pub mod Stream
pub mod Wire
pub mod Ack
pub mod Flow
pub mod Framer
pub mod Sending
