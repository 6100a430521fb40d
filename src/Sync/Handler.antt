-- ===== src/Sync/Handler.antt =====
-- handleSyncMessage of src/protocols/sync.ts and what it calls. The two callbacks are functions of
-- the surroundings, as is the hash of a value's JSON text; a handler reads the clock once.
use yapyap.Prelude.{
  ℕ, ◌++◌, String, List, [], ◌∷◌, Option, none, some, Bool, true, false, ◌&&◌, not, if◌then◌else◌,
  ◌==◌, string_keys,
}
use yapyap.Protocol.{Outcome, done, throws_error, throws_other, WithError, handle_protocol_error}
use yapyap.Sync.{
  Delta, Data, falsy, scalar, array, object, NodeState, set_state, get_deltas_since,
  get_recent_deltas,
}

pub data SyncType : Type 0 where
  state delta snapshot : SyncType

pub record SyncRequest : Type 0 where
  pub origin_peer_id : String
  pub timestamp : ℕ
  pub request_type : SyncType
  pub request_id : String
  pub last_sync_timestamp : Option ℕ
  pub target_state_hash : Option String
  pub metadata_key : Option String
  pub metadata_replication : Bool

pub record SyncResponse (V : Type 0) : Type 0 where
  pub origin_peer_id : String
  pub timestamp : ℕ
  pub request_id : String
  pub response_type : SyncType
  pub payload : Data V
  pub state_hash : Option String
  pub timestamp_received : Option ℕ
  pub metadata_key : Option String
  pub metadata_replication : Bool

pub data SyncMessage (V : Type 0) : Type 0 where
  sync_request : SyncRequest → SyncMessage V
  sync_response : SyncResponse V → SyncMessage V

-- `save_metadata` says how the call ends; `null_value` is null as a value
pub record SyncEnv (V : Type 0) : Type 0 where
  pub now : ℕ
  pub remote_peer_id : String
  pub hash_of : Data V → String
  pub null_value : V
  pub read_metadata : Option (String → String → Outcome (Data V))
  pub save_metadata : Option (String → String → Data V → Outcome (Unit {0}))

-- The node's state, what was saved of peers' metadata, and the requests whose answers were logged
-- as having another hash.
pub record SyncState (V : Type 0) : Type 0 where
  pub node : NodeState V
  pub saved : List (String × String × Data V)
  pub mismatches : List String

abbrev pub is_truthy : {V : Type 0} → Data V → Bool
is_truthy (falsy v) = false
is_truthy (scalar v) = true
is_truthy (array ds) = true
is_truthy (object fs) = true

-- an optional text that is there and not empty
abbrev pub given : Option String → Option String
given none = none
given (some s) = if s == "" then none else some s

-- the data of an answer, by the request's type
abbrev pub requested_data : {V : Type 0} → SyncRequest → NodeState V → Data V
requested_data m s = elim m.request_type [
  | state ↦ object s.state
  | delta ↦ array (elim m.last_sync_timestamp [
    | none ↦ get_recent_deltas s 10
    | some time ↦ get_deltas_since s time
  ])
  | snapshot ↦ object s.state
]

unfoldable pub handle_sync_request :
    {V : Type 0} → SyncEnv V → SyncRequest → NodeState V → SyncResponse V
handle_sync_request env m s = record {
  origin_peer_id = env.remote_peer_id;
  timestamp = env.now;
  request_id = m.request_id;
  response_type = m.request_type;
  payload = requested_data m s;
  state_hash = some (env.hash_of (requested_data m s));
  timestamp_received = some m.timestamp;
  metadata_key = none;
  metadata_replication = false;
}

-- the loop over the deltas of an answer
abbrev pub apply_each {ℓ} : {S : Type ℓ} {V : Type 0} → (Delta V → S → S) → List (Delta V) → S → S
apply_each f [] s = s
apply_each f (d ∷ ds) s = apply_each f ds (f d s)

-- the first if of handleSyncResponse
abbrev pub take_in :
    {V : Type 0}
    → Option (Delta V → NodeState V → NodeState V)
    → SyncType
    → Data V
    → NodeState V
    → NodeState V
take_in (some apply) delta (array ds) s = apply_each apply ds s
take_in apply state (object fs) s = set_state fs s
take_in apply type payload s = s

-- the hash check at the end of handleSyncResponse
abbrev pub check_hash : {V : Type 0} → SyncEnv V → SyncResponse V → List String → List String
check_hash env m log = elim (given m.state_hash) [
  | none ↦ log
  | some hash ↦
      if is_truthy m.payload && not (env.hash_of m.payload == hash)
      then log ++ m.request_id ∷ []
      else log
]

unfoldable pub handle_sync_response :
    {V : Type 0}
    → SyncEnv V
    → Option (Delta V → NodeState V → NodeState V)
    → SyncResponse V
    → SyncState V
    → SyncState V
handle_sync_response env apply m s = record s {
  node = take_in apply m.response_type m.payload s.node;
  mismatches = check_hash env m s.mismatches;
}

-- the key of a message about metadata
abbrev pub replicated_key : Bool → Option String → Option String
replicated_key replication key = if replication then given key else none

abbrev pub metadata_answer :
    {V : Type 0} → SyncEnv V → SyncRequest → String → Outcome (Data V) → Outcome (SyncResponse V)
metadata_answer env m key (throws_error e) = throws_error e
metadata_answer env m key throws_other = throws_other
metadata_answer env m key (done found) = done (
    some (record {
      origin_peer_id = env.remote_peer_id;
      timestamp = env.now;
      request_id = m.request_id;
      response_type = state;
      payload = elim found [ none ↦ falsy env.null_value | some value ↦ value ];
      state_hash = none;
      timestamp_received = none;
      metadata_key = some key;
      metadata_replication = true;
    }))

-- case "sync_request"
abbrev pub answer_request :
    {V : Type 0} → SyncEnv V → SyncRequest → SyncState V → Outcome (SyncResponse V)
answer_request env m s = elim (replicated_key m.metadata_replication m.metadata_key) [
  | none ↦ done (some (handle_sync_request env m s.node))
  | some key ↦ elim env.read_metadata [
    | none ↦ done (some (handle_sync_request env m s.node))
    | some read ↦ metadata_answer env m key (read env.remote_peer_id key)
  ]
]

abbrev pub exists : {V : Type 0} → Option (Data V) → Bool
exists none = false
exists (some value) = is_truthy value

-- the call of savePeerMetadata, by how it ends
abbrev pub after_save :
    {V : Type 0}
    → SyncEnv V
    → SyncResponse V
    → String
    → Outcome (Unit {0})
    → SyncState V
    → Outcome (SyncResponse V) × SyncState V
after_save env m key (throws_error e) s = (throws_error e, s)
after_save env m key throws_other s = (throws_other, s)
after_save env m key (done r) s = (
  done none,
  handle_sync_response env none m
      (record s { saved = s.saved ++ (env.remote_peer_id, key, m.payload) ∷ [] }),
)

-- the answer of getPeerMetadata, and what follows
abbrev pub after_read :
    {V : Type 0}
    → SyncEnv V
    → SyncResponse V
    → String
    → Outcome (Unit {0})
    → Outcome (Data V)
    → SyncState V
    → Outcome (SyncResponse V) × SyncState V
after_read env m key saving (throws_error e) s = (throws_error e, s)
after_read env m key saving throws_other s = (throws_other, s)
after_read env m key saving (done existing) s =
    if exists existing
    then (done none, handle_sync_response env none m s)
    else after_save env m key saving s

-- case "sync_response"
abbrev pub take_response :
    {V : Type 0} → SyncEnv V → SyncResponse V → SyncState V → Outcome (SyncResponse V) × SyncState V
take_response env m s = elim (replicated_key m.metadata_replication m.metadata_key) [
  | none ↦ (done none, handle_sync_response env none m s)
  | some key ↦ elim env.save_metadata [
    | none ↦ (done none, handle_sync_response env none m s)
    | some save ↦ elim env.read_metadata [
      | none ↦ (done none, handle_sync_response env none m s)
      | some read ↦
          after_read env m key (save env.remote_peer_id key m.payload) (read env.remote_peer_id key)
            s
    ]
  ]
]

abbrev pub sync_handler :
    {V : Type 0} → SyncEnv V → SyncMessage V → SyncState V → Outcome (SyncResponse V) × SyncState V
sync_handler env (sync_request m) s = (answer_request env m s, s)
sync_handler env (sync_response m) s = take_response env m s

unfoldable pub handle_sync_message :
    {V : Type 0}
    → SyncEnv V
    → SyncMessage V
    → WithError (SyncState V)
    → Option (SyncResponse V) × WithError (SyncState V)
handle_sync_message env message s = handle_protocol_error "sync" (sync_handler env message) s

unfoldable pub create_sync_request :
    {V : Type 0} → SyncEnv V → String → SyncType → String → Option ℕ → Option String → SyncRequest
create_sync_request env origin type id last hash = record {
  origin_peer_id = origin;
  timestamp = env.now;
  request_type = type;
  request_id = id;
  last_sync_timestamp = last;
  target_state_hash = hash;
  metadata_key = none;
  metadata_replication = false;
}

unfoldable pub create_sync_response :
    {V : Type 0} → SyncEnv V → String → String → SyncType → Data V → Option String → SyncResponse V
create_sync_response env origin id type payload hash = record {
  origin_peer_id = origin;
  timestamp = env.now;
  request_id = id;
  response_type = type;
  payload = payload;
  state_hash = hash;
  timestamp_received = none;
  metadata_key = none;
  metadata_replication = false;
}
