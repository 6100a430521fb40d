-- ===== src/Network/Health.antt =====
-- ConnectionHealthMonitor of src/network/NetworkModule.ts. The timer that calls checkAllConnections
-- is not modelled, nor the race of a ping with its time limit: `answers` tells how it ends. A
-- check is one step: no other method runs while it waits for a ping.
use yapyap.Prelude.{
  ℕ, ◌+◌, ◌-◌, String, List, [], ◌∷◌, ◌++◌, Option, none, some, Bool, true, false, ◌||◌, not, leb,
  ltb, if◌then◌else◌, string_keys,
}
use yapyap.Map.{get, put, delete}

pub record ConnectionHealthConfig : Type 0 where
  pub connection_idle_timeout_ms : ℕ
  pub stalled_threshold_count : ℕ

pub record ConnectionHealthState : Type 0 where
  pub last_activity_ms : ℕ
  pub is_healthy : Bool
  pub stalled_count : ℕ
  pub last_check_ms : ℕ

-- The states, and the peers that onUnhealthyPeer was called for, in order.
pub record HealthMonitor : Type 0 where
  pub connection_states : List (String × ConnectionHealthState)
  pub alerts : List String

pub record HealthEnv : Type 0 where
  pub now : ℕ
  pub connections : List String
  pub answers : String → Bool
  -- onUnhealthyPeer, if there is one: whether it resolves
  pub on_unhealthy_peer : Option (String → Bool)
  -- hangUp: whether it resolves
  pub hang_up : String → Bool

abbrev pub default_health_config : ConnectionHealthConfig
default_health_config = record { connection_idle_timeout_ms = 120000; stalled_threshold_count = 2 }

abbrev pub stop : HealthMonitor → HealthMonitor
stop m = record m { connection_states = [] }

abbrev pub new_health_state : ℕ → ConnectionHealthState
new_health_state now = record {
  last_activity_ms = now;
  is_healthy = true;
  stalled_count = 0;
  last_check_ms = now;
}

abbrev pub made_active : ℕ → ConnectionHealthState → ConnectionHealthState
made_active now state = record state {
  last_activity_ms = now;
  is_healthy = true;
  stalled_count = 0;
}

abbrev pub stalled : ℕ → ConnectionHealthState → ConnectionHealthState
stalled now state = record state { stalled_count = state.stalled_count + 1; last_check_ms = now }

abbrev pub with_state : String → ConnectionHealthState → HealthMonitor → HealthMonitor
with_state peer state m = record m { connection_states = put m.connection_states peer state }

-- the callback for an unhealthy peer, and whether the loop goes on
abbrev pub alert : Option (String → Bool) → String → HealthMonitor → Bool × HealthMonitor
alert none peer m = (true, m)
alert (some callback) peer m = (callback peer, record m { alerts = m.alerts ++ peer ∷ [] })

module _ (config : ConnectionHealthConfig) (env : HealthEnv) where
  abbrev pub is_idle : ConnectionHealthState → Bool
  is_idle state = ltb config.connection_idle_timeout_ms (env.now - state.last_activity_ms)

  -- after a failed ping, for the state with its count raised
  abbrev pub after_failure :
      Bool → String → ConnectionHealthState → HealthMonitor → Bool × HealthMonitor
  after_failure idle peer state m =
      if leb config.stalled_threshold_count state.stalled_count || idle
      then alert env.on_unhealthy_peer peer
          (with_state peer (record state { is_healthy = false }) m)
      else (true, with_state peer state m)

  -- the body of the loop for a connection whose state is in the map
  unfoldable pub check_state : String → ConnectionHealthState → HealthMonitor → Bool × HealthMonitor
  check_state peer state m =
      if is_idle state || not state.is_healthy
      then if env.answers peer
        then (true, with_state peer (made_active env.now state) m)
        else after_failure (is_idle state) peer (stalled env.now state) m
      else (true, m)

  abbrev pub check_known :
      String → Option ConnectionHealthState → HealthMonitor → Bool × HealthMonitor
  check_known peer (some state) m = check_state peer state m
  check_known peer none m =
      check_state peer (new_health_state env.now) (with_state peer (new_health_state env.now) m)

  unfoldable pub check_connections : List String → HealthMonitor → HealthMonitor
  check_connections [] m = m
  check_connections (peer ∷ peers) m =
      let (goes_on, next) = check_known peer (get m.connection_states peer) m in
      let rest = check_connections peers next in if goes_on then rest else next

  -- checkAllConnections
  unfoldable pub check_all_connections : HealthMonitor → HealthMonitor
  check_all_connections m = check_connections env.connections m

  abbrev pub touched : String → Option ConnectionHealthState → HealthMonitor → HealthMonitor
  touched peer none m = m
  touched peer (some state) m = with_state peer (made_active env.now state) m

  unfoldable pub update_activity : String → HealthMonitor → HealthMonitor
  update_activity peer m = touched peer (get m.connection_states peer) m

  abbrev pub hung_up : String → Option ConnectionHealthState → HealthMonitor → Bool × HealthMonitor
  hung_up peer none m = (false, m)
  hung_up peer (some state) m =
      if state.is_healthy
      then (false, m)
      else if env.hang_up peer
      then (true, record m { connection_states = delete m.connection_states peer })
      else (false, m)

  unfoldable pub hang_up_unhealthy_peer : String → HealthMonitor → Bool × HealthMonitor
  hang_up_unhealthy_peer peer m = hung_up peer (get m.connection_states peer) m

abbrev pub healthy_of : Option ConnectionHealthState → Bool
healthy_of none = false
healthy_of (some state) = state.is_healthy

abbrev pub is_connection_healthy : String → HealthMonitor → Bool
is_connection_healthy peer m = healthy_of (get m.connection_states peer)
