-- ===== src/Lib.antt =====
-- Verification of flow-cloud, the server of a collaborative editor and the library of its clients.
--
-- A client keeps the edits that the server has not acknowledged in a sink, a priority queue from
-- which it sends batches, and drops an edit when the acknowledgement arrives. Edits travel as messages
-- of lib/realtime-entity, whose payloads are messages of lib/realtime-protocol; the server decides by
-- policies of a user, an object and a role who may read and write, and remembers for each collab what
-- it has permitted. The realtime server keeps a group of subscribers for each open document and a
-- connection for each device; a storage keeps the documents in a database with a cache before it.
--
-- - Base: lists, Boolean tests, results, equality as an instance, association lists, integers, the
--   text of numbers, and `BinaryHeap` as a list (Base/Heap).
-- - Protocol: lib/realtime-protocol/src. `encode` and `decode` of each message are the functions of
--   these names; Protocol/Codec holds the crates yrs and bincode as a parameter. Protocol/Handlers
--   is protocol.rs with the server's lib/realtime/src/server/collaborate/sync_protocol.rs, over the
--   replicas of a document of Protocol/Replica, another parameter.
-- - Broadcast: lib/realtime/src/server/collaborate/group_broadcast.rs, the server's side: a client's
--   message is handled by `handle_client_collab_message`, which returns the acknowledgements.
-- - Dto: the roles and access levels of lib/database-entity/src/dto.rs.
-- - Entity: lib/realtime-entity/src. Entity/Payload holds the contents, Entity/Collab, Entity/Client
--   and Entity/Server the three message types with their methods, Entity/Convert the conversions,
--   Entity/Realtime the envelope. The crate collab is the parameter `CollabApi`.
-- - Sink: lib/client-api/src/collab_sync/sink.rs, with sink_queue.rs and sink_config.rs. `CollabSink`
--   has the fields of the struct; a method takes the sink and returns it. A method that holds its
--   locks is one step; `Locks` says what a `try_lock` finds, and `Sent` what became of a send.
--   Sink/Batch is `get_next_batch_item`, Sink/Merge the loop of `merge`, Sink/Steps the sequences of
--   calls. The interface between messages and the sink, `CollabSinkMessage`, is the record
--   `SinkMessage` of Sink/Queue, with the client's messages as an instance of it.
-- - SyncControl: lib/client-api/src/collab_sync/sync_control.rs, which turns the messages of the server
--   into calls of the sink and of the document's replica; SyncControl/CatchUp joins
--   it with Protocol/Handlers.
-- - Access: src/biz/casbin. Access/Casbin holds the crate casbin as a parameter with what is
--   documented of it; Access/Action, Access/Request and Access/Groups the texts of policies,
--   Access/Enforcer `AFEnforcer`, Access/Control `AccessControl` with the workspace's and the collab's
--   access control on top, Access/Cache the cache of permitted actions.
-- - Snowflake: lib/snowflake/src/lib.rs. The clock is the list of its readings; Base/Bits has the facts
--   on masks and shifts.
-- - WsQueue: lib/client-api/src/ws/msg_queue.rs, the queue in front of the client's WebSocket; the
--   task of `set_sender` is a sequence of ticks.
-- - Snapshot: src/biz/snapshot/queue.rs, and of snapshot_control.rs the task `SnapshotCommandRunner`.
--   `Answers` says what the cache and the database answer during a command, `Call` what the task asks
--   of them; `process_next_batch` is cut into `process_item`, `write_snapshot` and their outcomes.
-- - RtServer: lib/realtime/src/server/rt_server.rs with collaborate/group.rs, all_group.rs, group_cmd.rs
--   and group_sub.rs. RtServer/State is `RealtimeServer` with its shared maps, RtServer/Handlers the
--   actor's handlers `connect`, `disconnect`, `client_message` and `client_stream_message` with the
--   tick of `new`, RtServer/Commands the runner of a document, RtServer/Group `CollabGroup` and
--   `AllGroup`, RtServer/Channel the two tasks of `client_channel`. A runner is a number with the
--   queue of its commands, and a run of the server a list of events; `Moment` is the time and whether
--   a stream still has a receiver, `Answers` what the access control answers. Users are any type with
--   an equality, and documents are a parameter.
-- - Storage: src/biz/collab. Storage/Cache is `CollabCache` over mem_cache.rs, disk_cache.rs and the
--   statements of lib/database/src/collab/collab_db_ops.rs, Storage/Documents `CollabStorageImpl` of
--   storage.rs with the storage's access control, which is the interface `Enforcers`; Storage/Casbin
--   fills it with Access/Control, and Storage/Policies says what calls do to it. `Env` is what Redis, Postgres and the realtime server answer
--   during a call; a transaction is the database that it would commit. Storage/Batch reads many.
-- - Middleware: src/middleware/access_control_mw.rs with the controllers of src/biz/workspace and
--   src/biz/collab. `ServiceRequest` is what the middleware reads of a request, and the matching of
--   routes is a parameter.
-- - Persistence: lib/realtime/src/server/collaborate/plugin.rs, `CollabStoragePlugin`, with `init`
--   over the storage of Storage/Documents, and `CollabEditState`. Persistence/Saves has the sequences
--   of updates and the flush with its task.
-- - Stream: lib/collab-stream/src/model.rs, with what stream.rs and stream_group.rs make of an answer;
--   the crate redis is a parameter, and Stream/Answers says how Redis answers.
-- - Tests: runs of the theorems at concrete inputs, with small lawful crates (Tests/Data).
--
-- Fuel: the loops that pop a heap until it is empty run on the number of its entries, each round
-- taking one away; the loop that writes the digits of a number runs on the number, which a division
-- by 10 makes smaller; the loop over the messages of a payload runs on its number of bytes, since a
-- message has at least a byte, its tag; the retries of a query are the 2 that follow the first of
-- at most 3 attempts. The counter of message ids wraps at 2^64.
--
-- Of several greatest entries a heap yields the oldest, which `BinaryHeap` leaves open. Hash maps are
-- association lists. Not modelled: logging, metrics, HTTP and WebSocket transport, the other statements of the database, and
-- the asynchronous runtime, whose tasks are sequences of steps here.
pub mod Access
pub mod Base
pub mod Broadcast
pub mod Dto
pub mod Entity
pub mod Middleware
pub mod Persistence
pub mod Protocol
pub mod RtServer
pub mod Sink
pub mod Snapshot
pub mod Snowflake
pub mod Storage
pub mod Stream
pub mod SyncControl
pub mod Tests
pub mod WsQueue
