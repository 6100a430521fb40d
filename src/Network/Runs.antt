-- ===== src/Network/Runs.antt =====
-- Runs of the health monitor of src/network/NetworkModule.ts.
use yapyap.Prelude.{
  ℕ, ◌≤◌, ◌≡◌, refl, ap, ◌∙◌, String, List, [], ◌∷◌, Option, none, some, arith, string_keys,
}
use yapyap.Map.{get, get-delete}
use yapyap.Network.Health.{
  ConnectionHealthConfig, ConnectionHealthState, HealthMonitor, HealthEnv, made_active,
  check_all_connections, touched, update_activity, hung_up, hang_up_unhealthy_peer,
}
use yapyap.Network.Healthy.{
  AreSettled, later-IsSettled, with_state-AreSettled, made_active-IsSettled,
  check_connections-AreSettled, check_connections-threshold, with_threshold,
}

pub data HealthStep : Type 0 where
  checking : HealthStep
  using : String → HealthStep
  hanging_up : String → HealthStep

abbrev pub perform : ConnectionHealthConfig → HealthEnv → HealthStep → HealthMonitor → HealthMonitor
perform config env checking m = check_all_connections config env m
perform config env (using peer) m = update_activity config env peer m
perform config env (hanging_up peer) m = (hang_up_unhealthy_peer config env peer m).1

unfoldable pub perform_all :
    ConnectionHealthConfig → List (HealthEnv × HealthStep) → HealthMonitor → HealthMonitor
perform_all config [] m = m
perform_all config ((env, step) ∷ steps) m = perform_all config steps (perform config env step m)

-- The clock does not go back, and this is what it says at the end.
abbrev pub InOrder : ℕ → List (HealthEnv × HealthStep) → Type 0
InOrder now [] = Unit {0}
InOrder now ((env, step) ∷ steps) = (now ≤ env.now) × InOrder env.now steps

abbrev pub last_time : ℕ → List (HealthEnv × HealthStep) → ℕ
last_time now [] = now
last_time now ((env, step) ∷ steps) = last_time env.now steps

module _ (config : ConnectionHealthConfig) (env : HealthEnv) where
  touched-AreSettled :
      (peer : String) (o : Option ConnectionHealthState) (m : HealthMonitor)
      → AreSettled config.connection_idle_timeout_ms env.now m
      → AreSettled config.connection_idle_timeout_ms env.now (touched config env peer o m)
  touched-AreSettled peer none m all = all
  touched-AreSettled peer (some state) m all =
      with_state-AreSettled config.connection_idle_timeout_ms env.now peer
        (made_active env.now state) m all
        (made_active-IsSettled config.connection_idle_timeout_ms env.now state)

  hung_up-states :
      (peer : String) (o : Option ConnectionHealthState) (m : HealthMonitor) (j : String)
      (state : ConnectionHealthState)
      → get (hung_up config env peer o m).1.connection_states j ≡ some state
      → get m.connection_states j ≡ some state
  hung_up-states peer none m j state e = e
  hung_up-states peer (some old) m j state e =
      ground (arith, get-delete m.connection_states peer j, e)

  perform-AreSettled :
      (step : HealthStep) (m : HealthMonitor)
      → AreSettled config.connection_idle_timeout_ms env.now m
      → AreSettled config.connection_idle_timeout_ms env.now (perform config env step m)
  unfolding check_all_connections update_activity hang_up_unhealthy_peer
  perform-AreSettled checking m all = check_connections-AreSettled config env env.connections m all
  perform-AreSettled (using peer) m all =
      touched-AreSettled peer (get m.connection_states peer) m all
  perform-AreSettled (hanging_up peer) m all =
      λ j state e. all j state (hung_up-states peer (get m.connection_states peer) m j state e)

  perform-threshold :
      (n : ℕ) (step : HealthStep) (m : HealthMonitor)
      → AreSettled config.connection_idle_timeout_ms env.now m
      → perform (with_threshold n config) env step m ≡ perform config env step m
  unfolding check_all_connections update_activity hang_up_unhealthy_peer
  perform-threshold n checking m all =
      check_connections-threshold config n env env.connections m all
  perform-threshold n (using peer) m all = by_state (get m.connection_states peer)
    where
      by_state :
          (o : Option ConnectionHealthState)
          → touched (with_threshold n config) env peer o m ≡ touched config env peer o m
      by_state none = refl
      by_state (some state) = refl
  perform-threshold n (hanging_up peer) m all = by_state (get m.connection_states peer)
    where
      by_state :
          (o : Option ConnectionHealthState)
          → (hung_up (with_threshold n config) env peer o m).1 ≡ (hung_up config env peer o m).1
      by_state none = refl
      by_state (some state) = refl

since-AreSettled :
    (timeout now since : ℕ) (m : HealthMonitor)
    → now ≤ since
    → AreSettled timeout now m
    → AreSettled timeout since m
since-AreSettled timeout now since m h all j state e =
    later-IsSettled timeout now since state h (all j state e)

-- While the clock does not go back, from a monitor that is settled, every run leaves it settled: a
-- connection that is healthy has no failed ping, and one that is not healthy has been idle for longer than the
-- time limit.
pub perform_all-AreSettled :
    (config : ConnectionHealthConfig) (now : ℕ) (steps : List (HealthEnv × HealthStep))
    (m : HealthMonitor)
    → InOrder now steps
    → AreSettled config.connection_idle_timeout_ms now m
    → AreSettled config.connection_idle_timeout_ms
        (last_time now steps)
        (perform_all config steps m)
unfolding perform_all
perform_all-AreSettled config now [] m order all = all
perform_all-AreSettled config now ((env, step) ∷ steps) m order all =
    perform_all-AreSettled config env.now steps (perform config env step m) order.1 (
      perform-AreSettled config env step m
        (since-AreSettled config.connection_idle_timeout_ms now env.now m order.0 all))

-- While the clock does not go back, and no other method runs while a check waits for a ping, the
-- threshold of failed pings has no influence: from a monitor that is settled, a run ends with the same states and the same alerts whatever it is.
pub perform_all-threshold :
    (config : ConnectionHealthConfig) (n now : ℕ) (steps : List (HealthEnv × HealthStep))
    (m : HealthMonitor)
    → InOrder now steps
    → AreSettled config.connection_idle_timeout_ms now m
    → perform_all (with_threshold n config) steps m ≡ perform_all config steps m
unfolding perform_all
perform_all-threshold config n now [] m order all = refl
perform_all-threshold config n now ((env, step) ∷ steps) m order all =
    let settled = since-AreSettled config.connection_idle_timeout_ms now env.now m order.0 all in
    ap (perform_all (with_threshold n config) steps) (perform-threshold config env n step m settled)
    ∙ perform_all-threshold config n env.now steps (perform config env step m) order.1
        (perform-AreSettled config env step m settled)
