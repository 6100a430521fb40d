-- ===== src/Routing/Runs.antt =====
-- Runs of the operations of src/routing/index.ts.
use yapyap.Prelude.{ℕ, zero, suc, String, List, [], ◌∷◌, Option, Bool, string_keys}
use yapyap.Prelude.Int.{ℤ}
use yapyap.Routing.{
  RoutingModule, new_routing_module, increment_peer_load, decrement_peer_load, bump_reputation,
  set_reputation, penalize_peer, on_peer_discovery, record_lookup, on_peer_connect,
  on_peer_disconnect, on_inbound_connection, on_inbound_disconnect,
}
use yapyap.Routing.Table.{
  add_peer_to_routing_table, remove_peer_from_routing_table, update_routing_table_entry,
  cleanup_stale_entries, optimize_buckets,
}
use yapyap.Routing.Valid.{IsValid}
use yapyap.Routing.Keeps.{
  new_routing_module-IsValid, add-IsValid, update-IsValid, remove-IsValid, cleanup-IsValid,
  optimize-IsValid,
}

-- The operations that change a routing module, with the time at which they are called.
pub data Op : Type 0 where
  add update : ℕ → String → Bool → Op
  remove connect disconnect discover inbound inbound_gone load unload : String → Op
  clean : ℕ → ℕ → Op
  optimize : ℕ → Op
  bump reputed : String → ℤ → Op
  penalize : String → ℕ → Op
  looked_up : Bool → Op

module _ (xor : List ℕ → List ℕ → Option (List ℕ)) where
  unfoldable pub step : Op → RoutingModule → RoutingModule
  step (add now p b) r = add_peer_to_routing_table (record { now = now; xor = xor }) p b r
  step (update now p b) r = update_routing_table_entry (record { now = now; xor = xor }) p b r
  step (remove p) r = remove_peer_from_routing_table p r
  step (connect p) r = on_peer_connect p r
  step (disconnect p) r = on_peer_disconnect p r
  step (discover p) r = on_peer_discovery p r
  step (inbound p) r = on_inbound_connection p r
  step (inbound_gone p) r = on_inbound_disconnect p r
  step (load p) r = increment_peer_load p r
  step (unload p) r = decrement_peer_load p r
  step (clean now threshold) r =
      (cleanup_stale_entries (record { now = now; xor = xor }) threshold r).1
  step (optimize now) r = optimize_buckets (record { now = now; xor = xor }) r
  step (bump p d) r = bump_reputation p d r
  step (reputed p d) r = set_reputation p d r
  step (penalize p n) r = penalize_peer p n r
  step (looked_up b) r = record_lookup b r

  unfoldable pub run : List Op → RoutingModule → RoutingModule
  run [] r = r
  run (o ∷ ops) r = run ops (step o r)

  penalize-IsValid :
      (p : String) (n : ℕ) (r : RoutingModule) → IsValid xor r → IsValid xor (penalize_peer p n r)
  unfolding penalize_peer bump_reputation
  penalize-IsValid p zero r v = record { in_table = v.in_table; placed = v.placed }
  penalize-IsValid p (suc n) r v = record { in_table = v.in_table; placed = v.placed }

  step-IsValid : (o : Op) (r : RoutingModule) → IsValid xor r → IsValid xor (step o r)
  unfolding step on_peer_connect on_peer_disconnect on_peer_discovery on_inbound_connection
      on_inbound_disconnect increment_peer_load decrement_peer_load bump_reputation set_reputation
      record_lookup
  step-IsValid (add now p b) r v = add-IsValid xor now p b r v
  step-IsValid (update now p b) r v = update-IsValid xor now p b r v
  step-IsValid (remove p) r v = remove-IsValid xor p r v
  step-IsValid (connect p) r v = record { in_table = v.in_table; placed = v.placed }
  step-IsValid (disconnect p) r v = record { in_table = v.in_table; placed = v.placed }
  step-IsValid (discover p) r v = record { in_table = v.in_table; placed = v.placed }
  step-IsValid (inbound p) r v = record { in_table = v.in_table; placed = v.placed }
  step-IsValid (inbound_gone p) r v = record { in_table = v.in_table; placed = v.placed }
  step-IsValid (load p) r v = record { in_table = v.in_table; placed = v.placed }
  step-IsValid (unload p) r v = record { in_table = v.in_table; placed = v.placed }
  step-IsValid (clean now threshold) r v = cleanup-IsValid xor now threshold r v
  step-IsValid (optimize now) r v = optimize-IsValid xor now r v
  step-IsValid (bump p d) r v = record { in_table = v.in_table; placed = v.placed }
  step-IsValid (reputed p d) r v = record { in_table = v.in_table; placed = v.placed }
  step-IsValid (penalize p n) r v = penalize-IsValid p n r v
  step-IsValid (looked_up b) r v = record { in_table = v.in_table; placed = v.placed }

  run_from-IsValid : (ops : List Op) (r : RoutingModule) → IsValid xor r → IsValid xor (run ops r)
  unfolding run
  run_from-IsValid [] r v = v
  run_from-IsValid (o ∷ ops) r v = run_from-IsValid ops (step o r) (step-IsValid o r v)

-- After any run of operations on a new module, whatever the times at which they are called, every
-- peer in a bucket is in the table, and stands in the bucket of its distance: in one bucket only.
pub run-IsValid :
    (xor : List ℕ → List ℕ → Option (List ℕ)) (self : String) (ops : List Op)
    → IsValid xor (run xor ops (new_routing_module self))
run-IsValid xor self ops =
    run_from-IsValid xor ops (new_routing_module self) (new_routing_module-IsValid xor self)
