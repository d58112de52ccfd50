-- ===== src/Lib.antt =====
-- IPTV-Sniffer-Web, verified: what the program takes from captures of a set-top box, what it keeps
-- while it plays and records, and how it restores its files.
--
-- The program (a Flask application, app.py) sniffs multicast streams and the traffic of an operator's
-- set-top box, and builds a channel table from it. A capture file goes through services/io_limits.py
-- (records), services/stb_discovery_service.py (frames, segments, streams, channels) and the parsers
-- under services/parsers; playing goes through services/media_task_service.py (capacity) and
-- services/rtsp_catchup_service.py (RTP), or through services/hls_service.py, which takes its capacity
-- from the same manager; services/export_service.py and services/subscription_service.py make playlists
-- of the table that services/storage_service.py keeps, by the ranks of utils.py;
-- services/backup_service.py restores files as a whole.
--
-- Which file models which part:
--   Base             Boolean tests, lists, bytes, association lists and numerals that all parts share
--   Pcap             services/io_limits.py: `iter_pcap_packets`; Pcap.Ng is `_iter_pcapng_packets`
--   Packet           services/stb_discovery_service.py: `_unwrap_ipv4_packet`, `_pppoe_ipv4_start`
--   Tcp              the same file: `iter_ipv4_packets`, `_tcp_segments`
--   Tcp.Reassembly   the same file: `_reassemble_tcp_streams`
--   Fcc              services/parsers/fcc.py: `parse_fcc_request`
--   Fcc.Merge        services/stb_discovery_service.py: `_merge_fcc_requests`
--   Media            services/media_task_service.py: `MediaLease`, `MediaTaskManager`
--   Backup           services/backup_service.py: `RestoreTransaction`
--   Rtp              services/rtsp_catchup_service.py: `_rtp_payload`, `_record_rtp_sequence`,
--                    `read_payload`
--   Dhcp             services/stb_discovery_service.py: `_parse_dhcp_options`, `_parse_dhcp_packet`,
--                    `_extract_dhcp_from_pcap`, `_capture_identity`
--   Http             services/stb_discovery_service.py: `_unchunk`
--   Hls              services/hls_service.py: `HlsService`, on the manager of Media;
--                    Hls.Sections is its threads and the manager's together, one locked section a step
--   Address          utils.py: `valid_ipv4_multicast`, `stream_filter_reason` and what they call
--   Ranking          utils.py: `channel_group_key`, `channel_primary_score` and the labels
--   Exports          services/export_service.py: rows, the best lines, URLs and path prefixes
--   Channels         services/storage_service.py: `ChannelStore`
--   Stores           the same file: `ChannelSnapshotStore`, `SubscriptionStore`,
--                    `OperatorChannelStore`
--   Records          the same file: `FccStore`, `DiscoveryStore`; utils.py: `valid_ip_or_host`
--   Tokens           the same file: `StbTokenStore`
--   Subscriptions    services/subscription_service.py: identifiers and the catalogue;
--                    Subscriptions.Names is `normalize_channel_name` of services/epg_service.py
--   Snapshot         services/snapshot_service.py: `SnapshotService`
--   Scheduler        services/catchup_scheduler.py: `CatchupScheduler`
--   Log              services/log_service.py: `AppLogger`
--   Tests            concrete inputs on which the theorems are applied
--
-- How the program is read: bytes and texts are lists of numbers, a dict is an association list in the
-- order of insertion, a set of ports a list without repetitions, an exception a value. An index into
-- a buffer is kept as the bytes from that index on. An operation on a shared object takes the object
-- and returns it; the locked sections of concurrent threads are the steps of a relation.
--
-- Bounds and fuel: numbers are those of the source, without a width, as in Python; numbers read from
-- the wire are as wide as their bytes. The loops over VLAN tags, capture records and capture blocks
-- run on fuel, as much as there are bytes, and each round takes bytes away; the loop over HTTP chunks
-- takes one round for each chunk; `read_payload` has the source's own hundred rounds.
--
-- What is taken as given: identifiers of leases are the caller's numbers; cleanups and callbacks are
-- numbers of the caller, of which a function says whether they raise; the operating system's refusals
-- during a restore are a record of faults. What is not modelled: processes (tcpdump, ffmpeg), sockets,
-- requests over HTTP, XML, DES, most regular expressions and Flask, which are libraries or the
-- operating system's, and the parts of the program that are little else.
pub mod Address
pub mod Backup
pub mod Base
pub mod Channels
pub mod Dhcp
pub mod Exports
pub mod Fcc
pub mod Hls
pub mod Http
pub mod Log
pub mod Media
pub mod Packet
pub mod Pcap
pub mod Ranking
pub mod Records
pub mod Rtp
pub mod Scheduler
pub mod Snapshot
pub mod Stores
pub mod Subscriptions
pub mod Tcp
pub mod Tests
pub mod Tokens
