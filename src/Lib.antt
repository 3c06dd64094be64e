-- ===== src/Lib.antt =====
-- Peraviz receives Art-Net DMX from lighting consoles and shows the scene that it drives. This
-- library models the parts of its native code that stand between the network and the scene.
--
-- Dmx, for native/src/dmx:
--   Dmx.Parser        artnet_dmx_parser: the bytes of a datagram to a view of an ArtDmx frame.
--   Dmx.Sequence      artnet_sequence_tracker: order and source of the packets of a universe.
--   Dmx.Subscription  realtime_subscription: which slots of which universes the scene reads.
--   Dmx.Mailbox       realtime_universe_mailbox: the latest state of each such universe and the
--                     ring of tokens by which a consumer finds the changed ones. State has the
--                     records, `set_subscription` and `reset_session`; Publish has `publish`;
--                     Consume has `consume_dirty_frames` and the readers.
--   Dmx.Metadata      dmx_network_metadata_cache: what the network view shows of every universe.
--   Dmx.Cache         dmx_universe_cache: the payloads that the technical monitor shows.
--   Dmx.Monitor       monitor_capture_budget: how many of those are copied.
--   Dmx.Receiver      artnet_receiver: `run` on the datagrams of one wake, which calls all of the
--                     above in turn, and `start`, `stop` and the monitor switch.
--   Dmx.Binding       fixture_dmx_binding: the channels of a universe that control a fixture.
--   Dmx.Latency       latency_histogram: counts of latencies and their percentiles.
-- Runtime, for native/src/runtime:
--   Runtime.Coordinator  realtime_dmx_coordinator: what hands the frames of the mailbox to the
--                        visual runtime, which is a parameter (`VisualRuntime`).
--   Runtime.Pool         native_worker_pool: a batch of items, shared out to threads.
--   Runtime.Dirty        ordered_dirty_indices: the indices that an evaluation has to visit.
-- Gdtf, for native/src/gdtf_runtime:
--   Gdtf.Tokens       string_utils, and the conversions of the C library from texts to numbers.
--   Gdtf.Values       mode_master: DMX values of a GDTF file and their conversion between widths.
--   Gdtf.Conditions   mode_master: `resolve_mode_master_condition`.
--   Gdtf.Graph        mode_master: the check of the graph of channel functions, and which of them
--                     are active.
-- Presentation, for native/src/presentation:
--   Presentation.Pipeline  async_presentation_pipeline: the banks between the main thread and the
--                     coordinator. Pipeline has the main thread, Evaluation the coordinator, Steps
--                     the interleavings of both, and Channel what they implement.
-- Archive, for native/src/archive: zip_archive, the normal form of paths and the index of entries;
--   Archive.Handle has the ownership of libzip's handle, the reads and the writes.
-- Storage, for native/src/runtime_storage.cpp: the directories made under the runtime root, with
--   `lexically_normal` of the standard library as it works on POSIX paths.
-- Tables, for native/src/table_model/runtime_table.cpp: `RuntimeTable`, the rows by their UUID.
-- Xchange, for native/src/mvrxchange:
--   Xchange.Packet    mvr_xchange_packet: the TCP packages.
--   Xchange.Uuid      mvr_xchange_packet: the UUID texts.
--   Xchange.Service   mvr_xchange_service_name: the DNS-SD names of stations.
--
-- State is passed explicitly. Of the pipeline, a function is one access to an atomic variable with
-- what the thread does up to the next one, and an interleaving is a path of the relation `Step`. A
-- function of the mailbox is one critical section of its mutex, and an interleaving of threads is a
-- list of such calls (`Call` and `run` of Dmx.Mailbox.Calls). An array is a list, and an array of
-- pointers a list of options; the mailbox is modelled for any positive number of universes, of which
-- the source has 32768. A counter keeps its width by
-- `increment32` and `increment64` (Prelude.Words). An index outside the metadata table is the
-- result `none` of `observe`; the mailbox looks at its slots only for universes that the
-- subscription contains, which are below 32768. Of `consume_frame` a function is one access, and
-- Dmx.Cache.Accesses has what other threads do between them. `strtoul` and `strtoull` saturate at 64
-- bits; a platform whose `unsigned long` has 32 refuses the same texts, as the byte count is at most 4.
--
-- The loop of `consume_dirty_frames` runs as often as there were tokens at its start, as in the
-- source. `parse_from` has as fuel the number of bytes, and a round takes 28 of them at least.
-- `visit` of Gdtf.Graph has one more than the number of functions, and takes a new function each
-- time; `evaluate` counts down the depth that the source bounds; `mirror_bytes` has the number of
-- bytes to fill, and fills one at least. `read_from` has the size of the entry as fuel, and a round
-- reads a byte at least. The other loops are structural recursion.
--
-- Not modelled: sockets, threads and the clock, which are the arguments of the receiver; the JSON
-- texts of MVR-xchange, which go through std::regex; libzip, the file system and the extraction to
-- a file; the decoder of universes and the resolver of GDTF offsets, the scene compiler of the
-- GDTF runtime, the visual runtime and the states and groups of the presentation, which compute
-- with floats; the Godot bindings and the scripts.
pub mod Prelude
pub mod Archive
pub mod Dmx
pub mod Gdtf
pub mod Presentation
pub mod Runtime
pub mod Storage
pub mod Tables
pub mod Xchange
