-- ===== src/Sync/Exchange.antt =====
-- Two nodes of src/protocols/sync.ts: a request that one of them answers for the other.
use yapyap.Prelude.{
  ℕ, ◌≡◌, refl, sym, ap, String, List, Option, none, some, arith, string_keys, ==_refl,
}
use yapyap.Protocol.{WithError}
use yapyap.Sync.{Data, set_state}
use yapyap.Sync.Handler.{
  SyncType, state, delta, snapshot, SyncEnv, SyncState, SyncResponse, sync_request, sync_response,
  handle_sync_request, handle_sync_response, handle_sync_message, create_sync_request, take_in,
  check_hash,
}

module _ {V : Type 0} where
  -- A hash that fits is not logged.
  check_hash_fits :
      (env : SyncEnv V) (m : SyncResponse V) (log : List String)
      → m.state_hash ≡ some (env.hash_of m.payload)
      → check_hash env m log ≡ log
  check_hash_fits env m log h = ground (arith, h, ==_refl (env.hash_of m.payload))

  handle_sync_response-fits :
      (env : SyncEnv V) (m : SyncResponse V) (s : SyncState V)
      → m.state_hash ≡ some (env.hash_of m.payload)
      → handle_sync_response env none m s
        ≡ record s { node = take_in none m.response_type m.payload s.node }
  unfolding handle_sync_response
  handle_sync_response-fits env m s h =
      ap
        (λ log. record s { node = take_in none m.response_type m.payload s.node; mismatches = log })
        (check_hash_fits env m s.mismatches h)

-- A node asks another for its state, its deltas or a snapshot, and takes in the answer, where both
-- hash the data alike. The answer to a request for the state makes the asking node's fields those of
-- the other one. The answers to the other two change nothing at the asking node. No mismatch of
-- hashes is logged, no error stays, and nothing changes at the node that answers.
pub handle_sync_message-exchange :
    {V : Type 0} (here there asking : SyncEnv V) (origin id : String) (type : SyncType)
    (last : Option ℕ) (hash : Option String) (answering waiting : WithError (SyncState V))
    → ((d : Data V) → there.hash_of d ≡ here.hash_of d)
    → (r : SyncResponse V) × (handle_sync_message here
          (sync_request (create_sync_request asking origin type id last hash))
          answering
        ≡ (some r, record { inner = answering.inner; last_protocol_error = none }))
      × (handle_sync_message there (sync_response r) waiting ≡ (
        none,
        record {
          inner = record (waiting.inner) {
            node = elim type [
              | state ↦ set_state answering.inner.node.state waiting.inner.node
              | delta ↦ waiting.inner.node
              | snapshot ↦ waiting.inner.node
            ];
          };
          last_protocol_error = none;
        },
      ))
unfolding handle_sync_message create_sync_request handle_sync_request handle_sync_response
handle_sync_message-exchange here there asking origin id state last hash answering waiting same =
    let r =
      handle_sync_request here (create_sync_request asking origin state id last hash)
        answering.inner.node in
    (
      r,
      refl,
      ap (λ s. (none, record { inner = s; last_protocol_error = none }))
          (handle_sync_response-fits there r waiting.inner (ap some (sym (same r.payload)))),
    )
handle_sync_message-exchange here there asking origin id delta last hash answering waiting same =
    let r =
      handle_sync_request here (create_sync_request asking origin delta id last hash)
        answering.inner.node in
    (
      r,
      refl,
      ap (λ s. (none, record { inner = s; last_protocol_error = none }))
          (handle_sync_response-fits there r waiting.inner (ap some (sym (same r.payload)))),
    )
handle_sync_message-exchange here there asking origin id snapshot last hash answering waiting same =
    let r =
      handle_sync_request here (create_sync_request asking origin snapshot id last hash)
        answering.inner.node in
    (
      r,
      refl,
      ap (λ s. (none, record { inner = s; last_protocol_error = none }))
          (handle_sync_response-fits there r waiting.inner (ap some (sym (same r.payload)))),
    )
