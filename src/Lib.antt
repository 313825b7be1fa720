-- ===== src/Lib.antt =====
-- ReacJack carries REAC audio, a stream of Ethernet frames with 12 audio frames of up to 40 channels
-- of 24-bit samples each, into audio servers. Paths are from the repository's root.
--
-- The parts and how they interact. src/reac_decode.c parses a frame and decodes its samples; all
-- receivers call it. src/shared_audio.c is a ring of frames in POSIX shared memory, with one writer
-- and one reader: the daemon src/reacjackd.c writes packets to it and publishes a clock beside them,
-- and the CoreAudio plug-in src/coreaudio/ReacJackDriver.c reads it in its IO cycles and follows that
-- clock; src/reacjackctl.c prints its header. src/reacjack-pw.c is a PipeWire client with a ring of
-- its own between its capture thread and its process callback. src/reacjack.c is a JACK client on
-- JACK's byte ring.
--
-- Which file models which part:
--   Common        C's tests, widths, bit operations and arrays. An array is a function from an index;
--                 a 64-bit operation is written with its modulus.
--   Decode        reac_parse_packet (parse_packet), reac_decode_samples_to_channels (decode_samples)
--                 and their helpers. A float of the decoder is the exact fraction. Parse, Value, Fill
--                 and Samples are proofs; Wire has the encoder of tests/test_reac_decode.c.
--   Ring          src/shared_audio.c: a Ring is the header and the samples of a mapping. write, read,
--                 read_interleaved, read_regulated and seek_to_fill are shared_audio_write and so on;
--                 Clock has publish_clock and get_clock, store by store and load by load; Handle has
--                 create, open_ring, close and unlink over a name space of objects. Valid says when
--                 positions make sense; History runs writes and reads in any order, call by call;
--                 Threads runs shared_audio_write in one thread and the interleaved read, the drop and
--                 the seek in another: every copy of a sample, and every load or store of a position
--                 that the other thread uses, is a step of its own, with which a thread's own position
--                 and counters go; the loop's step to the next channel accesses nothing shared;
--                 Published lets the clock's stores and loads interleave; Open is about what can be
--                 opened.
--   Counter       note_counter, the loss count of the 16-bit packet counter.
--   Lifetimes     what the clients acquire and give back, as a list of actions and a test of it.
--   Interfaces    chooseInterfaces of src/reacjack.c, which the PipeWire client has as its own copy.
--   Daemon        src/reacjackd.c: capture_round is a round of the loop of run_capture on what pcap
--                 gives, capture_loop the loop, ensure_ring, print_status, tone_loop and send_due
--                 the loops of run_tone, Arguments the command line, and Startup main with what
--                 it acquires. Ready is about the ring through the rounds of a capture.
--   Pipewire      src/reacjack-pw.c: audio_ring_write and audio_ring_read with their while loops, in
--                 Capture the capture thread (capture_step) and on_process, and in Startup the command
--                 line (parse_pw) and main (pw_main) with what they acquire.
--   Jack          src/reacjack.c: write_payload_to_ring, the capture thread (copy_step) and the
--                 process callback over the bytes of JACK's ring; Capture has the packet socket's ring
--                 (process_rx, process_rx_release), Backend capture_next of both back ends and the
--                 round of the capture thread on them (copy_round), Meter the metering of the
--                 process callback (measure), Display what is displayed, Callback all of the
--                 callback, Startup main (reac_main).
--   Driver        src/coreaudio/ReacJackDriver.c: Property, Data and Set are the property calls, Glue
--                 the COM object, Device the starts, stops and timestamps, Operation the IO. A call's
--                 outcome is what it wrote with status 0, or its error. Lifecycle runs the host's
--                 calls in any order with the daemon's writes between them.
--   Inspector     src/reacjackctl.c: its command line and what it prints.
--   Transport     the daemon and the plug-in on one ring, from a frame of the wire to the host; in
--                 Session the daemon's rounds and the host's calls in any order, over the name that
--                 ReacJack_StartIO opens and the daemon unlinks and creates; what an earlier writer
--                 left under it may be mapped until the next start of a first client.
-- Tests and Fixture modules hold the concrete inputs.
--
-- Bounds and fuel. The loops over channels and frames recurse on what is left. The while loops of
-- src/reacjack-pw.c run on as much fuel as frames, since a round copies at least one frame; send_due
-- takes fuel that its theorem asks to cover what is due, and tone_loop gives it as much. The 16
-- attempts of shared_audio_get_clock are its fuel. Products that index an allocated array are not
-- reduced, since such an array fits memory. Theorems on positions take the 64-bit positions not to
-- have wrapped, which 48 kHz does not do in practice, and say so. Loops that run until the program is
-- told to stop take the list of what they meet.
--
-- Parameters, since their code is not in the repository. Float64 in Driver/Float64 is a record of
-- operations; no law of them is assumed but RateBounds, that a positive nominal rate lies between its
-- bounds, and that the rate 48 kHz equals itself. The doubles of the metering are the record Double in
-- Jack/Meter, with laws of their order alone, and those of the display the record Decibels in
-- Jack/Display. The sizes and constants of the SDK are a record. The outcomes of pcap, poll, recv,
-- shm_open, ftruncate, mmap, the host clock and PipeWire's buffers are arguments of the steps. Threads
-- takes each copy, load and store to be atomic and their order to be that of the source, which
-- the release stores and acquire loads of the positions ask for; no weaker memory order is modelled.
--
-- Not modelled: the options and filters set on sockets and pcap handles, signals, JACK's and
-- PipeWire's own threads, usage texts and the wording of messages; the test programs.
pub mod Common
pub mod Decode
pub mod Ring
pub mod Counter
pub mod Lifetimes
pub mod Interfaces
pub mod Driver
pub mod Pipewire
pub mod Daemon
pub mod Jack
pub mod Inspector
pub mod Transport
