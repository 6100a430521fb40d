-- ===== src/Network/Tests.antt =====
-- Runs of the code of src/network/NetworkModule.ts.
use yapyap.Prelude.{ℕ, ◌≡◌, refl, List, [], ◌∷◌, some, true, false, arith}
use yapyap.Map.{get}
use yapyap.Network.Health.{HealthMonitor, HealthEnv, ConnectionHealthState, default_health_config}
use yapyap.Network.Healthy.{AreSettled, with_threshold}
use yapyap.Network.Runs.{HealthStep, checking, using, perform_all, InOrder, perform_all-threshold}

abbrev at_time : ℕ → HealthEnv
at_time now = record {
  now = now;
  connections = "a" ∷ "b" ∷ [];
  answers = λ peer. false;
  on_unhealthy_peer = some (λ peer. true);
  hang_up = λ peer. true;
}

abbrev no_connections : HealthMonitor
no_connections = record { connection_states = []; alerts = [] }

abbrev steps_4 : List (HealthEnv × HealthStep)
steps_4 =
    (at_time 1000, checking)
    ∷ (at_time 31000, using "a")
    ∷ (at_time 121001, checking)
    ∷ (at_time 151001, checking)
    ∷ []

-- The first failed ping of an idle connection is enough.
alerts_b : (perform_all default_health_config steps_4 no_connections).alerts ≡ "b" ∷ "a" ∷ "b" ∷ []
unfolding perform_all yapyap.Network.Health.check_all_connections
    yapyap.Network.Health.check_connections yapyap.Network.Health.check_state
    yapyap.Network.Health.update_activity get yapyap.Map.put
alerts_b = refl

settled_empty : AreSettled 120000 0 no_connections
unfolding get
settled_empty peer state e = cc

steps_4-InOrder : InOrder 0 steps_4
steps_4-InOrder = (omega arith, (omega arith, (omega arith, (omega arith, tt))))

perform_all-threshold_example :
    perform_all (with_threshold 9 default_health_config) steps_4 no_connections
    ≡ perform_all default_health_config steps_4 no_connections
perform_all-threshold_example =
    perform_all-threshold default_health_config 9 0 steps_4 no_connections steps_4-InOrder
      settled_empty
