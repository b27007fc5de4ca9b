-- ===== src/Lib.antt =====
-- mymuxer receives MPEG transport streams, buffers the packets of one program, and sends them on at a
-- constant or variable bit rate with new tables and a new clock. This library models its core and
-- proves what makes it correct. Paths are from the repository's root.
--
-- The parts, and the files that model them:
-- * Packet (src/packet.rs): the fields of a packet of 188 bytes: PID, continuity counter, discontinuity
--   flag, clock (PCR) and PES time stamps. A packet is a list of bytes; an index out of range panics.
-- * Psi (src/psi/): Psi/Section.antt is SectionReassembler and SectionReassemblerMap, Psi/Pack.antt is
--   pack and pack_multi, Psi/Encode.antt and Psi/Text.antt the helpers of psi/mod.rs, and Psi/Pat.antt,
--   Psi/Pmt.antt (with Psi/Changes.antt) and Psi/Sdt.antt the tables of the same names. Psi/Eit.antt,
--   Psi/Tdt.antt and Psi/Tot.antt are the events and the time, with the dates of Psi/Time.antt.
-- * Mux (src/mux.rs): Mux/Timing.antt is the arithmetic on time stamps of 33 bits and on clocks,
--   Mux/Sync.antt is sync_buffer, Mux/Buffer.antt is TsPacket and OutBuffer, Mux/Restamper.antt is
--   PcrRestamper, Mux/Handler.antt is the choice between audio and video and process_packet of
--   PacketHandler, and Mux/Output.antt is flush_psi_packets, flush_packet_for_vbr and
--   flush_packet_for_cbr. The output side takes packets from two buffers, asks the restamper whether
--   they are due, stamps them, and puts tables and null packets between them. Mux/Input.antt is the
--   input side of PacketHandler: its state with new and buffers_clear, and below it Tables.antt is
--   process_pat, process_pmt and process_sdt, Media.antt the branch of process for audio and video,
--   Ready.antt its last part with buffer_adjust, and Receive.antt process and write. The input side
--   drops bytes until packets start, reads the tables, fills the two buffers, and starts the clock.
--   Mux/Proxy.antt is proxy_packet and flush_frame.
-- * Pes (src/pes/): Pes/Golomb.antt is BitReader, Pes/Es.antt the records of es.rs and pes.rs
--   (Pes/Names.antt the texts for them), Pes/Audio.antt, Pes/Nal.antt and Pes/Sps.antt
--   (with the steps of Pes/Reader.antt) the parsers of es_parsers.rs, and Pes/Parser.antt is PesReassembler, PesReassemblerMap and Parser.
-- * Rtp (src/proto/rtp.rs): pack and unpack of RtpState.
-- * Biss (src/biss.rs): keys and the descrambling of packets.
-- * Hls (src/hls_client.rs): the queue of hashes and the pass over a playlist's segments.
-- * HttpRouter (src/http_router.rs, src/database.rs, and what src/supervisor.rs does with them): the aliases
--   and keys of the HTTP routers, and the answer to a request. The tables of redb are the record Redb;
--   HttpRouter/Operations.antt has the supervisor's part.
-- * Config (src/config.rs, and is_forbidden of src/misc.rs): the configuration's records, its
--   validation, and the networks that may connect.
-- * Workers (src/workers/mod.rs, and wait_and_abort of src/misc.rs): a worker with its remote and its
--   outputs, the chunks it broadcasts, and in Workers/Status.antt its status and what reports it.
-- * Supervisor (src/supervisor.rs): the supervisor's state, with each operation as it runs alone.
--   Supervisor/Tasks.antt has the operations on workers as tasks that interleave: a task's step is what
--   it does between two points at which others may run, and the step relation lets any task go on.
-- * Epg (src/epg/epg.rs): the schedule and the choice of the events; Epg/Generator.antt is the round of
--   run that makes the packets of the tables and sends them.
-- Base holds what they share; Tests runs the theorems on concrete packets, handlers and supervisors.
--
-- Conventions. A function keeps its source's name, and a method takes and returns the state of its
-- object. Code that indexes or slices answers in Outcome, whose second case is the panic; only where a
-- test beside the access, the range of its loop or the size of a packet keeps it within the bytes, a read
-- may have a default.
-- Numbers are natural numbers; where the source's integers wrap, the remainder by a power of 2 is written out, as in
-- a release build, and where it saturates, subtraction stops at 0. Logging and statistics are left out.
--
-- Loops run on fuel where they are not over a list or a count. sync_buffer and the readers of tables get
-- one round more than there are bytes, and each round drops or reads one byte or more; pack_multi gets
-- two rounds more than there are bytes. buffer_adjust gets one round more than there are packets,
-- find_sps two more than bytes, refill eight, which fill a cache of 64 bits, and read_ue any number.
-- The chunks of a broadcast get one round for each byte, and the sending of a round's packets one more
-- than there are packets.
--
-- A map is a list of pairs, of which a key has one (Distinct), and a task is known by its handle: the
-- function it runs, whether it was cancelled, and whether it has finished.
--
-- Parameters stand for code outside the repository (Env for the input side): the CRC, the calendar, the
-- reading of JSON, of addresses and of networks, the random source and the clock of RTP, the cipher of
-- libdvbcsa, the decoders of character sets, the trimming of a key, the hash of a
-- segment's name, and what the source computes in floating point: the limits of the buffer's size and the
-- rate of a probe.
--
-- Parser takes the parser of H.264 as a parameter, because read_ue may not end; Pes/Sps.antt models it
-- under the fuel of read_ue, which has to exceed the zeros in front of a number.
--
-- Not modelled: the descriptions of video streams; the network and the pacing of the HLS
-- client; the sockets and processes of the workers' inputs and outputs; the HTTP server of the supervisor,
-- the client of the administration and the JSON sent to it; the files of the configuration.
pub mod Base
pub mod Packet
pub mod Psi
pub mod Mux
pub mod Rtp
pub mod Biss
pub mod Config
pub mod Workers
pub mod Supervisor
pub mod Epg
pub mod Hls
pub mod HttpRouter
pub mod Pes
mod Tests
