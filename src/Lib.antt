-- ===== src/Lib.antt =====
-- EchonetGO reads ECHONET Lite devices of a home (air conditioners, meters, lights) over UDP, keeps what
-- they report in a cache, tells a broker (MQTT, with discovery for Home Assistant) about each change, and
-- carries out the commands that come from there.
--
-- Parts, and the files that model them (paths from the root of the repository):
--   internal/echonet/protocol.go: Protocol (Property, parse_frame, get_request, set_request,
--     build_infc_res, decode_property_map) with Protocol/Bytes, RoundTrip, Sound and PropertyMaps.
--   internal/echonet/encoder.go: Encoder (parse_edt_with_reason, encode_value_to_edt, parse_integer) with
--     Encoder/Integers and Encoder/RoundTrip.
--   internal/echonet/client.go: Client (get_props, send_set, split_epcs, merge_props) with Client/Splits,
--     Merge, Parts, Adaptive and Requests; Readings (parse_props_to_metrics) with Readings/Laws and
--     Values; Identity
--     (get_device_info, get_property_map, and the decoders of manufacturers.go) with Identity/Codes.
--   internal/echonet/transport.go: Transport (the waiters, the receiver and the late replies), with
--     Transport/Sessions (requests, datagrams and the notification handler as a step relation),
--     Transport/Answers, Bounds and Keys, and Transport/Sending (one request with its attempts and its
--     fallback) with Transport/Attempts and Writes.
--   internal/echonet/notification.go: Notification (handle_frame) with Notification/Acknowledge.
--   internal/specs/types.go: Specs, the specification of a device and its look-ups; loader.go and
--     superclass.go: Loader (parse_metric_spec) with Loader/Checks, Superclass (merge_super_class,
--     parse_climate_yaml, parse_light_yaml) with Superclass/Merging, and Superclass/Loading (load_specs)
--     with Superclass/Parsed and Superclass/Loaded.
--   internal/poller/cache.go: Cache (its state, settings and look-ups), Cache/Status (Get), Updates (the
--     operations that call the update callback), with Cache/Push, Cache/Lookup, Updates/History,
--     Updates/Scrape and Updates/Callback.
--   internal/poller/scheduler.go: Scheduler (resolve_eoj_instance) with Scheduler/Instances; Scraping
--     (schedule_device_scrapers, scrape_once) with Scraping/Groups, Polling and Asked; Bringup
--     (discover_device_state) with Bringup/Outcome and Records.
--   internal/poller/reconciler.go: Reconciler (reconcile_device, do_reconcile) with Reconciler/Safety
--     and Reconciler/Cooldown.
--   internal/mqtt/commander.go: Commander (what a command does, as a list of effects), Commander/Values (what
--     its words mean), Commander/Handlers and Commander/Routing (the handlers, and the way to them), and
--     Commander/Verify (the tasks that read a device back); Commander/Kept, Single, Several, Messages and
--     Safety, Commander/Stored, Outcome and Topics have the proofs.
--   internal/mqtt/publisher.go: Publisher (the messages), Publisher/States (the state of a device), and
--     Publisher/Queue (the pending states and their worker as a step relation) with Publisher/Coalescing and
--     Publisher/Wakeups.
--   internal/mqtt/discovery.go: Discovery, Discovery/Options, Discovery/Entities (the payloads) and
--     Discovery/Announce (ensure_discovery, publish_device_state), with Discovery/Commanded, Routes,
--     Attributes and Scenes.
--   internal/config/config.go: Config and Config/Loading (load) with Config/Sanitized.
--   internal/metrics/collector.go: Exporter (labels, and the names of states), Exporter/Descriptors
--     (new_collector, describe) and Exporter/Collecting (collect) with Exporter/Names and Exporter/Registered.
-- Base has the helpers, Tests the runs at concrete inputs.
--
-- How they interact: the scheduler brings a device up and then scrapes it through the client, which sends
-- frames by the transport; replies become metrics, and these go into the cache. Notifications go from the
-- transport's receiver through the handler into the cache too. The cache tells the callback, which puts the
-- state into the publisher's queue; the worker announces the device and publishes its state. Commands come
-- by the topics that discovery announced; the command handler checks them against the SETMAP in the cache,
-- sends them through the client, and reads the device back. The reconciler fills in what is missing.
--
-- How the code is represented: a byte is a number below 256, a text a list of bytes (of characters where
-- names are sanitized), a time or a duration a number of nanoseconds, with 0 for Go's zero time; 64-bit
-- integers are integers, with the wrap-around of parseInteger written out. A map is an association list. A
-- call that holds a lock is one step; the update callback runs behind the lock, with a state taken under
-- it. Errors are values of FrameError, EncodeError, ConfigError and SendError. A message to the broker
-- holds the value that is marshalled in place of its JSON text.
--
-- Arguments of the definitions, for what is outside the model: the floats (Floats.Float64, an interface
-- with the operations of float64 and package math), the transport as the client sees it (Client.Transport:
-- the next transaction number, and a send with its reply or error, over the state of the network), sockets
-- and what happens while a request waits (Transport.Sending.Network), the table of manufacturer names, the
-- parser of addresses and the label of an address (Identity.Lookups), time.ParseDuration, the catalog of
-- property names, the text of an error, the environment and the files with their parsers
-- (Config.Environment, Config.Files), the directory of specifications with its files, the printing of
-- floats and the title case (Publisher.Printer), the passing of a delay and what the other goroutines do
-- to the cache meanwhile (wait and others in Commander/Verify), and whether json.Marshal takes a state.
--
-- Bounds: a split read goes eight levels deep, as in the code, which is enough for 256 codes. A request has
-- two attempts, a verification three. Draining has as many rounds as there are entries, printing a number
-- as many as it may have digits, and the read loop of an own socket as many as datagrams come before its
-- deadline. All other loops follow a list.
--
-- Not modelled: the opening of sockets and the joining of the multicast group, the connection to the broker
-- with its subscriptions, the HTTP API, logging, the counting of requests in flight, and the goroutines and
-- timers that repeat the scrapes.
pub mod Base
pub mod Protocol
pub mod Floats
pub mod Specs
pub mod Encoder
pub mod Client
pub mod Readings
pub mod Identity
pub mod Cache
pub mod Updates
mod Tests
pub mod Notification
pub mod Scheduler
pub mod Scraping
pub mod Reconciler
pub mod Bringup
pub mod Loader
pub mod Superclass
pub mod Commander
pub mod Config
pub mod Publisher
pub mod Discovery
pub mod Transport
pub mod Exporter
