-- ===== src/Lib.antt =====
-- signalk-rs is a Signal K server in Rust: it collects the data of a vessel's instruments, keeps the
-- current values in a store, and hands the changes to its clients. A plugin or a connection sends
-- a delta (values by path, from a source, for a vessel); the notification manager gives every
-- notification in it an id and a status; the store arbitrates between the sources and broadcasts
-- what was applied; each WebSocket client gets the part that its subscriptions match. The AIS plugin
-- watches the deltas of other vessels and keeps track of which are still heard.
--
-- Prelude.antt: Booleans, lists, texts, parts of texts, maps (an association list per `HashMap`), signed
--   numbers.
-- Types.antt: crates/signalk-types/src. Json.antt is serde_json's `Value`; Delta.antt is delta.rs and
--   source.rs; Meta.antt meta.rs; Full.antt the values of full.rs; Notification.antt
--   notification.rs; Path.antt path.rs, with splitting in Path/Split and patterns in Path/Match;
--   Geo.antt is geo.rs, over the operations of `f64` in Float.antt.
-- Store.antt: crates/signalk-store/src/store.rs. `SignalKStore` is the struct; `apply_delta` is the
--   method of that name, made of `apply_updates` (the loop over the updates), `register_source`,
--   `apply_values` (the loop over the values), `apply_value` (its body) and `fan_out` (the broadcast:
--   the field `sent` is what was handed to the channel, the latest first). Store/Query.antt has the
--   queries and the full model. Proofs: Store/Value for one value, Store/Values/* for a delta,
--   Store/Registered, Store/Context and Store/Model.
-- Subscription.antt: crates/signalk-store/src/subscription.rs. `filter_delta` returns the changed
--   subscriptions and the delta that is sent. Proofs: Subscription/Filter and Subscription/Pace.
-- Notifications.antt: crates/signalk-server/src/notifications/manager.rs. `enrich` is the body of
--   `enrich_delta` for one parsed notification. Proofs: Notifications/Life, Ids and Shape.
-- Ais.antt and Ais/Tracker.antt: crates/plugins/ais-status/src/tracker.rs, and `classify_mmsi` of
--   crates/signalk-types/src/ais.rs. Proofs: Ais/Confirm, Tick, Keys, Runs and Own.
-- Server.antt: the registries of crates/signalk-server/src and the errors of
--   crates/signalk-plugin-api/src/error.rs. Server/DeltaFilter.antt is plugins/delta_filter.rs,
--   Server/Autopilot.antt autopilot/manager.rs, Server/Resources.antt resources/registry.rs, with proofs in
--   Resources/Routing, Polling and Merge. A provider of resources is a record of functions on a world
--   `W`, an autopilot a value of a type `P`; `keys` is the order in which serde_json iterates a map.
-- Server/Plugins.antt: plugins/host.rs and the plugin API; Server/Plugins/Manager is plugins/manager.rs
--   and Server/Plugins/Registry plugins/registry.rs. `PluginCode` is what a plugin's own code does
--   in a start and a stop; `ask` is a plugin that uses its context at any other time.
--   Proofs: Server/Plugins/Trace, Acts, Clean and Lost.
-- Course.antt: the course of crates/signalk-server/src/course/manager.rs on its route. Course/Resolve is
--   the resolution of references, Course/Emit the deltas, Course/Manager the manager's state and what it
--   persists, Course/Operations and Course/Queries its operations, Course/Events and Course/Requests the
--   runs of them. Proofs: Course/Follow (the route), Keeps, Sourced and Sources (who sets the course),
--   Restart and Failed (the file), Told and Stale (the store), Href and Arrival.
-- Autopilot.antt: crates/plugins/autopilot/src/pd.rs. Proofs: Autopilot/Bounds, Recovery, Feedback and
--   Angles. Autopilot/State.antt is state.rs, with the control loop's writes of lib.rs,
--   Autopilot/Filter.antt filter.rs, and Autopilot/Provider.antt provider.rs. Proofs:
--   Autopilot/Provider/Requests, Rest and Tacks. The experimental modes are not built by default and
--   left out.
-- Anchor.antt: the callback of crates/plugins/anchor-alarm/src/lib.rs. Proofs: Anchor/Alarm.
-- Tracks.antt: crates/plugins/tracks/src/simplify.rs. Proofs: Tracks/Ends and Kept.
-- Tests.antt: the code on concrete inputs.
--
-- A method on `&mut self` is a function to the new state. Times are numbers of nanoseconds, and
-- every reading of the clock is an argument. An f64 is its bit pattern. Counters wrap at their
-- width, as in a release build. Parameters stand for code outside the repository: `display` for the
-- printing of a JSON value, `value_ne` for the comparison of two, `as_f64` for the conversion to a
-- float, `parse` and `print` for serde on notifications, `uuid` for the drawn UUIDs, `Files` for the file
-- system, `Serde` for serde on the course, `FloatOps` for the operations of `f64`, `PluginCode` for
-- plugins. Loops run over lists, with two exceptions on fuel: `rdp_indices`, where the number of points
-- is enough, and the loops of `normalize_angle`, which have no bound (where a definition needs the
-- normal form of an angle, `normalize` stands for it). The order of a `HashMap`'s iteration is the
-- order of the association list, which is one of the orders that Rust allows.
--
-- Not modelled: I/O (HTTP, WebSocket, SQLite, CAN, sockets), the start-up and configuration, locks and
-- channels (an operation runs alone, but for the control loop, whose ticks requests may come into), the control loop of the autopilot but for what it writes, and the
-- plugins other than the AIS tracker, the autopilot, the anchor alarm and the simplification of tracks.
pub mod Prelude
pub mod Types
pub mod Store
pub mod Subscription
pub mod Notifications
pub mod Ais
pub mod Server
pub mod Course
pub mod Anchor
pub mod Autopilot
pub mod Tracks
pub mod Tests
