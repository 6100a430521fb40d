-- ===== src/Router.antt =====
-- MessageRouter of src/message/message-router.ts: its state, its surroundings and the way in
-- which its methods run. A method takes the router's state and returns a result, which may be a
-- thrown error, and the state that it leaves: what was written before a throw stays written.
-- The state has three lists more, for what can be seen from outside: the messages that were put
-- on the wire, the messages handed to the application (`onMessage`), and the events.
-- Everything outside src/ that the router calls is a field of `Env`, and so are the node's
-- callbacks. One method call reads the clock once (`now`).
pub mod Limits
pub mod Transport
pub mod Outgoing
pub mod Ordering
pub mod Acks
pub mod Peers
pub mod Incoming
pub mod Retry
pub mod Quiet
pub mod Delivery
pub mod Tests
use yapyap.Prelude.{ℕ, String, List, [], ◌∷◌, ◌++◌, Option, none, some, Bool, ◌≡◌, refl}
use yapyap.Prelude.Int.{ℤ}
use yapyap.Message.{Message, Payload, RelayInfo}
use yapyap.Database.{Db}

-- Tokens are counted in units of 1 / intervalMs, so that a refill is a whole number of units.
pub record InboundBucket : Type 0 where
  pub tokens : ℕ
  pub last_refill_at : ℕ

pub record RateLimit : Type 0 where
  pub tokens_per_interval : ℕ
  pub interval_ms : ℕ
  pub burst : ℕ

-- The events of emitRouterEvent, with the fields that the router computes.
pub data RouterEvent : Type 0 where
  message_queued message_sent : String → String → RouterEvent
  message_failed : String → String → String → RouterEvent
  message_received : String → String → Bool → RouterEvent
  message_delivered : String → String → RouterEvent
  ack_received : String → String → RouterEvent
  nak_received : String → String → String → RouterEvent

pub record Router : Type 0 where
  pub db : Db
  pub processed_ids_cache : List (String × ℕ)
  pub out_of_order_buffer : List (String × List (ℕ × Message))
  pub inbound_buckets : List (String × InboundBucket)
  pub inbound_origin_buckets : List (String × InboundBucket)
  pub peer_scores : List (String × ℤ)
  pub pending_acks : List (String × ℕ)
  pub transmitted : List Message
  pub delivered : List Message
  pub events : List RouterEvent

-- NodeContext and MessageRouterOptions, the clock, and the network.
pub record Env : Type 0 where
  pub self : String
  pub now : ℕ
  -- `${Date.now()}`
  pub now_text : String
  -- getLibp2p() is there
  pub libp2p_ready : Bool
  -- how the attempt of this number to dial, send and close ends: `some e` is a throw
  pub attempt : Message → ℕ → Option String
  -- whether stream.send of a failed attempt had put the bytes on the wire before the throw
  pub sent_before_failing : Message → ℕ → Bool
  pub reconnect_attempts : ℕ
  -- fetchRecipientPublicKey, as it answers for the first, second and third time in one send
  pub fetch_key : ℕ → String → Option String
  pub should_refresh_key : String → Bool
  -- waitForPeerPublicKey, if there is one: whether it resolves
  pub wait_for_key : Option (String → Bool)
  pub has_key_pair : Bool
  -- encryptMessage: `none` is a throw
  pub encrypt : Payload → String → Option Payload
  -- onMessage, if there is one: `some e` is a throw
  pub on_message : Option (Message → Option String)
  pub throttle_key : String → Option String
  -- signRelayEnvelope: `none` is a throw, and `some none` no signature
  pub sign_relay : RelayInfo → Message → Option (Option (String × String))
  pub verify_relay : Option (RelayInfo → Message → String → String → Bool)
  -- SHA-256 of the JSON text
  pub hash : Message → String
  pub bootstrap_peer_ids : List String
  -- the bytes of a peer's id, where peerIdFromString reads it: `none` is a throw
  pub distance_bytes : String → Option (List ℕ)
  pub rate_limit : RateLimit
  pub origin_rate_limit : RateLimit

abbrev pub default_message_ttl_ms : ℕ
default_message_ttl_ms = 86400000

pub data Result (A : Type 0) : Type 0 where
  ok : A → Result A
  err : String → Result A

abbrev pub Exec : Type 0 → Type 0
Exec A = Router → Result A × Router

module _ {A : Type 0} where
  unfoldable pub pure : A → Exec A
  pure a s = (ok a, s)

  unfoldable pub throw : String → Exec A
  throw e s = (err e, s)

  unfoldable pub gets : (Router → A) → Exec A
  gets f s = (ok (f s), s)

unfoldable pub change : (Router → Router) → Exec (Unit {0})
change f s = (ok tt, f s)

module _ {A B : Type 0} where
  abbrev pub resume : (A → Exec B) → Result A → Exec B
  resume f (ok a) s = f a s
  resume f (err e) s = (err e, s)

  infixl 10 ◌>>=◌ ◌>>◌
  unfoldable pub ◌>>=◌ : Exec A → (A → Exec B) → Exec B
  unfolding pure throw gets change
  ◌>>=◌ m f s = resume f (m s).0 (m s).1

  abbrev pub ◌>>◌ : Exec A → Exec B → Exec B
  m >> n = m >>= λ _. n

module _ {A : Type 0} where
  abbrev pub recover : (String → Exec A) → Result A → Exec A
  recover f (ok a) s = (ok a, s)
  recover f (err e) s = f e s

  -- try { m } catch (e) { f(e) }
  unfoldable pub try_catch : Exec A → (String → Exec A) → Exec A
  try_catch m f s = recover f (m s).0 (m s).1

  -- for (const a of as) { f(a) }
  unfoldable pub for_each : (A → Exec (Unit {0})) → List A → Exec (Unit {0})
  unfolding pure
  for_each f [] = pure tt
  for_each f (a ∷ rest) = f a >>= λ _. for_each f rest

abbrev pub skip : Exec (Unit {0})
skip = pure tt

unfoldable pub on_db : (Db → Db) → Exec (Unit {0})
on_db f s = (ok tt, record s { db = f s.db })

-- emitRouterEvent: best effort, so that it cannot fail
unfoldable pub emit : RouterEvent → Exec (Unit {0})
emit e s = (ok tt, record s { events = s.events ++ e ∷ [] })

abbrev pub empty_router : Db → Router
empty_router db = record {
  db = db;
  processed_ids_cache = [];
  out_of_order_buffer = [];
  inbound_buckets = [];
  inbound_origin_buckets = [];
  peer_scores = [];
  pending_acks = [];
  transmitted = [];
  delivered = [];
  events = [];
}
