-- ===== src/Lib.antt =====
-- YapYap messenger: the message path of a peer-to-peer node, from the bytes of a stream to the
-- hand-over of a message to the application, with the tables that it keeps. Paths are from the
-- repository's root.
--
-- The parts and how they interact. A stream's bytes are cut into frames, and each frame's payload,
-- which msgpackr reads, becomes a message (src/core/protocols.ts). The router
-- (src/message/message-router.ts) takes a message from a peer through rate limits, peer scores,
-- timestamp and duplicate checks, ordering by sequence number, and the database's transaction, and
-- then acknowledges it and hands it to the application. What the node sends goes through the
-- database's queue, is encrypted and stamped with a vector clock, and is transmitted. The routing
-- module (src/routing/index.ts) keeps the peers that were met, in a table and in buckets by their
-- distance, and chooses the ones to ask. The route and sync protocols (src/protocols/route.ts,
-- src/protocols/sync.ts) answer peers from tables of their own, and the event bus
-- (src/events/event-bus.ts) tells listeners what happened. Handshakes (src/protocols/handshake.ts)
-- and end-to-end encryption (src/crypto/index.ts) stand on the primitives of node:crypto, and a
-- monitor (src/network/NetworkModule.ts) watches the connections. The database
-- (src/database/index.ts, over the tables of src/database/schema.ts) keeps the queue, the replicas
-- that other peers hold, the ids that were processed, the sequence numbers and the vector clocks.
--
-- Files:
--   Prelude, Map        what the parts share: tests, lists, integers, association lists with laws
--   Sort, Text          the first k of a stable sort; texts as codes, hexadecimal bytes
--   Framing             MessageFramer of src/core/protocols.ts
--     Header, Frames    one frame and streams of frames; Split: splitMessages
--   Message             the message types of src/message/message.ts
--   Database            the tables; a child for each group of operations of DatabaseManager:
--                       Pending, Replicas, Processed, Clocks, Cleanup, Routes, Sessions,
--                       Contacts, Keys; Whole: all tables together
--   Router              the state of MessageRouter, its context (`Env`) and the monad of its methods
--     Limits            token buckets, peer scores, backoff
--     Transport         classifyTransportError, transmit
--     Outgoing          encryption, applyOutgoingVectorClock, send, sendAck
--     Ordering          sequence numbers, the out-of-order buffer, the cache of processed ids
--     Acks              validateAck, handleAck, handleNak; Nak, Authority: what they do
--     Peers             the distance order of peers, selectReplicaPeers; Readable: where it
--                       does not throw
--     Incoming          receive and everything that it calls; Buffer, Flush: the loop that
--                       empties the out-of-order buffer
--     Retry             tryFallbackRelayRoutes and retry; Returns, Queue, Entry: what they do
--     Quiet             which methods leave the processed ids and the application alone
--     Delivery          what a run of the router guarantees of the hand-over
--   Routing             RoutingModule of src/routing/index.ts: its state, reputation, load, distance
--     Table, Choice     the table and its buckets; findClosestPeers, selectOptimalPeers
--     Valid, Keeps,     the invariant of table and buckets, and runs of the operations
--     Runs
--     Distance, Top,    buckets as common prefixes, the choices as top k, a peer that comes again
--     Refresh
--   Protocol            src/protocols/error-handler.ts
--   Route               src/protocols/route.ts: the table of announced routes and the handlers;
--                       Table: how its times move; Announce: announcements and queries
--   Sync                src/protocols/sync.ts: a node's state, metadata and deltas
--     Handler           handleSyncMessage and the factories; Exchange: two nodes
--     History, Closest  what is kept of the deltas; selectKClosestPeers
--   Events              src/events/event-bus.ts: the bus; Bus: its methods; Emit: whom emit calls;
--                       Bounded, Runs: runs of the methods; Scope: ListenerScope; Utilities: batches
--   Sessions            SessionManager of src/crypto/session-manager.ts, over the table of Database/
--                       Sessions; Backed, Runs: memory and table
--   Streams             how src/core/node.ts and src/network/NetworkModule.ts read frames from a stream
--     Prefix, Chunks,   cutting a stream anywhere; a stream in chunks; a frame that fails
--     Failure
--   Crypto              src/crypto/index.ts: results, and node:crypto as a record of parameters
--     Field, Inverse,   the field arithmetic, the algorithm of Euclid, the conversion of keys
--     Convert
--     Cipher, Exchange, AES-GCM, signatures and end-to-end messages; both sides of one; what a
--     Verified          signature is worth
--   Handshake           src/protocols/handshake.ts: messages and their answers
--     Hex, Answer,      hexadecimal texts; what an answer requires; a whole handshake
--     Complete
--     Noise, Keys       the Noise messages and sessions; the keys of both ends
--   Network             src/network/NetworkModule.ts: Health: ConnectionHealthMonitor;
--                       Healthy, Runs: what it keeps, and runs of its methods;
--                       Cache: the cached addresses of peers
--   Node                src/core/node.ts: the keys of peers, who waits for them, the handshake
--     Keys, Attempts    what a key brings to those who wait; the attempts of a handshake
--     Payload,          encrypted payloads and relay signatures; what the recipient decrypts
--     Decrypted
--
-- How the code is represented. A method of the router is a function from the router's state to a
-- result and the next state: `ok` is a return, `err` a throw, and the state at a throw is kept. A
-- call reads the clock once (`now`); cleanupExpired of a session manager reads it again and again.
-- The state has what the node put on the wire and handed to the application, in order. How an
-- attempt to dial and send ends is `Env.attempt`, and whether one that fails had sent before is
-- `Env.sent_before_failing`; keys, encryption, signatures and the application's callback are
-- functions of `Env` too, since their code is not this code. A table is an association list by its
-- primary key, in the order of insertion; foreign keys cascade, and ORDER BY is a stable sort. A
-- text of `message_data` is represented by the message that it spells. Bytes are numbers. Tokens
-- are counted in units of 1/intervalMs of a token, which makes the code's fractions whole.
-- Timestamps and sequence numbers are natural numbers; the counters of a vector clock are integers.
--
-- Fuel. The loops over a buffer have one round for each byte and one more, and each round takes at
-- least four bytes; the loop that empties the out-of-order buffer has one for each entry and one
-- more, and each round takes an entry; transmit has one for each permitted attempt. The algorithm of
-- Euclid has the modulus and one more, and its second number is smaller in each round.
--
-- Not modelled: libp2p and its streams, the primitives of node:crypto, timers, hang-ups,
-- discovery, what the node does to wire the parts together, the HTTP API, the command line and the
-- full-text search of contacts.
pub mod Prelude
pub mod Map
pub mod Sort
pub mod Text
pub mod Framing
pub mod Message
pub mod Database
pub mod Router
pub mod Routing
pub mod Protocol
pub mod Route
pub mod Sync
pub mod Events
pub mod Sessions
pub mod Streams
pub mod Crypto
pub mod Handshake
pub mod Network
pub mod Node
