-- ===== src/Network/Healthy.antt =====
-- What the health monitor of src/network/NetworkModule.ts keeps while it checks connections.
use yapyap.Prelude.{
  ℕ, ◌+◌, ◌≤◌, ◌<◌, ◌≡◌, refl, sym, ◌∙◌, subst, String, List, [], ◌∷◌, Option, none, some, Bool,
  true, false, arith, ◌||◌, not, if◌then◌else◌, ◌==◌, string_keys, Bool-cases, inl, inr,
  Option-cases,
}
use yapyap.Map.{get, get-put}
use yapyap.Network.Health.{
  ConnectionHealthConfig, ConnectionHealthState, HealthMonitor, HealthEnv, new_health_state,
  made_active, stalled, with_state, alert, is_idle, check_state, check_known, check_connections,
}

-- A healthy connection has no failed ping, and one that is not healthy is idle for too long.
pub record IsSettled (timeout now : ℕ) (state : ConnectionHealthState) : Type 0 where
  pub when_healthy : state.is_healthy ≡ true → state.stalled_count ≡ 0
  pub when_unhealthy : state.is_healthy ≡ false → state.last_activity_ms + timeout < now

abbrev pub AreSettled : ℕ → ℕ → HealthMonitor → Type 0
AreSettled timeout now m =
    (peer : String) (state : ConnectionHealthState)
    → get m.connection_states peer ≡ some state
    → IsSettled timeout now state

pub later-IsSettled :
    (timeout now since : ℕ) (state : ConnectionHealthState)
    → now ≤ since
    → IsSettled timeout now state
    → IsSettled timeout since state
later-IsSettled timeout now since state h s = record {
  when_healthy = s.when_healthy;
  when_unhealthy = λ e. omega (arith, h, s.when_unhealthy e);
}

pub with_state-AreSettled :
    (timeout now : ℕ) (peer : String) (state : ConnectionHealthState) (m : HealthMonitor)
    → AreSettled timeout now m
    → IsSettled timeout now state
    → AreSettled timeout now (with_state peer state m)
with_state-AreSettled timeout now peer state m all s j t e = elim (Bool-cases (peer == j)) [
  | inl same ↦
      let is : state ≡ t = ground (arith, get-put m.connection_states peer j state, same, e) in
      subst (IsSettled timeout now) is s
  | inr other ↦ all j t (ground (arith, get-put m.connection_states peer j state, other, e))
]

pub made_active-IsSettled :
    (timeout now : ℕ) (state : ConnectionHealthState)
    → IsSettled timeout now (made_active now state)
made_active-IsSettled timeout now state = record {
  when_healthy = λ e. refl;
  when_unhealthy = λ e. cc;
}

new-IsSettled : (timeout now : ℕ) → IsSettled timeout now (new_health_state now)
new-IsSettled timeout now = record { when_healthy = λ e. refl; when_unhealthy = λ e. cc }

module _ (config : ConnectionHealthConfig) (env : HealthEnv) where
  alert-AreSettled :
      (o : Option (String → Bool)) (peer : String) (m : HealthMonitor)
      → AreSettled config.connection_idle_timeout_ms env.now m
      → AreSettled config.connection_idle_timeout_ms env.now (alert o peer m).1
  alert-AreSettled none peer m all = all
  alert-AreSettled (some callback) peer m all = all

  -- Only a connection that is idle is pinged, so that one failed ping is enough.
  needs_ping-is_idle :
      (state : ConnectionHealthState)
      → IsSettled config.connection_idle_timeout_ms env.now state
      → (is_idle config env state || not state.is_healthy) ≡ is_idle config env state
  needs_ping-is_idle state s = elim (Bool-cases state.is_healthy) [
    | inl healthy ↦ ground (arith, healthy)
    | inr ill ↦ ground (arith, ill, s.when_unhealthy ill)
  ]

  abbrev pub failed : String → ConnectionHealthState → HealthMonitor → Bool × HealthMonitor
  failed peer state m =
      alert env.on_unhealthy_peer peer
        (with_state peer (record (stalled env.now state) { is_healthy = false }) m)

  check_state-settled :
      (peer : String) (state : ConnectionHealthState) (m : HealthMonitor)
      → IsSettled config.connection_idle_timeout_ms env.now state
      → check_state config env peer state m ≡ (
          if is_idle config env state
          then if env.answers peer
            then (true, with_state peer (made_active env.now state) m)
            else failed peer state m
          else (true, m))
  unfolding check_state
  check_state-settled peer state m s = ground (arith, needs_ping-is_idle state s)

  check_state-AreSettled :
      (peer : String) (state : ConnectionHealthState) (m : HealthMonitor)
      → IsSettled config.connection_idle_timeout_ms env.now state
      → AreSettled config.connection_idle_timeout_ms env.now m
      → AreSettled config.connection_idle_timeout_ms env.now (check_state config env peer state m).1
  check_state-AreSettled peer state m s all =
      let timeout = config.connection_idle_timeout_ms in
      rw (check_state-settled peer state m s) (elim (Bool-cases (is_idle config env state)) [
        | inr busy ↦ rw busy all
        | inl idle ↦ rw idle (elim (Bool-cases (env.answers peer)) [
          | inl answers ↦ rw answers (
              with_state-AreSettled timeout env.now peer (made_active env.now state) m all
                (made_active-IsSettled timeout env.now state))
          | inr silent ↦ rw silent (
              alert-AreSettled env.on_unhealthy_peer peer _ (
                with_state-AreSettled timeout env.now peer _ m all
                  (record { when_healthy = λ e. cc; when_unhealthy = λ e. ground (arith, idle) })))
        ])
      ])

  check_known-AreSettled :
      (peer : String) (m : HealthMonitor)
      → AreSettled config.connection_idle_timeout_ms env.now m
      → AreSettled config.connection_idle_timeout_ms env.now
          (check_known config env peer (get m.connection_states peer) m).1
  check_known-AreSettled peer m all = elim (Option-cases (get m.connection_states peer)) [
    | inl missing ↦ rw missing (
        check_state-AreSettled peer (new_health_state env.now)
          (with_state peer (new_health_state env.now) m)
          (new-IsSettled config.connection_idle_timeout_ms env.now)
          (with_state-AreSettled config.connection_idle_timeout_ms env.now peer
            (new_health_state env.now) m all
            (new-IsSettled config.connection_idle_timeout_ms env.now)))
    | inr (state, there) ↦ rw there (check_state-AreSettled peer state m (all peer state there) all)
  ]

  pub check_connections-AreSettled :
      (peers : List String) (m : HealthMonitor)
      → AreSettled config.connection_idle_timeout_ms env.now m
      → AreSettled config.connection_idle_timeout_ms env.now (check_connections config env peers m)
  unfolding check_connections
  check_connections-AreSettled [] m all = all
  check_connections-AreSettled (peer ∷ peers) m all =
      let next = check_known-AreSettled peer m all in
      elim (Bool-cases (check_known config env peer (get m.connection_states peer) m).0) [
        | inl on ↦ rw on (check_connections-AreSettled peers _ next)
        | inr off ↦ rw off next
      ]

-- The same monitor with another threshold.
abbrev pub with_threshold : ℕ → ConnectionHealthConfig → ConnectionHealthConfig
with_threshold n config = record config { stalled_threshold_count = n }

module _ (config : ConnectionHealthConfig) (n : ℕ) (env : HealthEnv) where
  check_state-threshold :
      (peer : String) (state : ConnectionHealthState) (m : HealthMonitor)
      → IsSettled config.connection_idle_timeout_ms env.now state
      → check_state (with_threshold n config) env peer state m ≡ check_state config env peer state m
  check_state-threshold peer state m s =
      check_state-settled (with_threshold n config) env peer state m s
      ∙ sym (check_state-settled config env peer state m s)

  check_known-threshold :
      (peer : String) (o : Option ConnectionHealthState) (m : HealthMonitor)
      → ((state : ConnectionHealthState)
          → o ≡ some state
          → IsSettled config.connection_idle_timeout_ms env.now state)
      → check_known (with_threshold n config) env peer o m ≡ check_known config env peer o m
  check_known-threshold peer none m s =
      check_state-threshold peer (new_health_state env.now)
        (with_state peer (new_health_state env.now) m)
        (new-IsSettled config.connection_idle_timeout_ms env.now)
  check_known-threshold peer (some state) m s = check_state-threshold peer state m (s state refl)

  pub check_connections-threshold :
      (peers : List String) (m : HealthMonitor)
      → AreSettled config.connection_idle_timeout_ms env.now m
      → check_connections (with_threshold n config) env peers m
        ≡ check_connections config env peers m
  unfolding check_connections
  check_connections-threshold [] m all = refl
  check_connections-threshold (peer ∷ peers) m all =
      rw (check_known-threshold peer (get m.connection_states peer) m (all peer)) (
        rw
          (check_connections-threshold peers
            (check_known config env peer (get m.connection_states peer) m).1
            (check_known-AreSettled config env peer m all))
          refl)
