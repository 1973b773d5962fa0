-- ===== src/Controller/Defaults/Filled.antt =====
-- Which defaults the operator fills in, as the API documents them.
use cloudnative_supabase.Prelude.{◌≡◌, ◌≢◌, Option, none, some, List, [], ◌∷◌, pos}
use cloudnative_supabase.Kube.Core.{
  HttpGetAction, Probe, ContainerPort, Container, ModedSource, Volume, PodSpec,
}

-- A missing value becomes the default, and a given one stays.
abbrev pub IsFilled : {A : Type 0} → A → A → A → A → Type 0
IsFilled missing fallback before after =
    (before ≡ missing → after ≡ fallback) × (before ≢ missing → after ≡ before)

-- The lists have the same length, and their elements are related in order.
abbrev pub Each : {A : Type 0} → (A → A → Type 0) → List A → List A → Type 0
Each R [] [] = Unit {0}
Each R [] (b ∷ bs) = ⊥
Each R (a ∷ as_) [] = ⊥
Each R (a ∷ as_) (b ∷ bs) = R a b × Each R as_ bs

-- Both are missing, or both are there and related.
abbrev pub Both : {A : Type 0} → (A → A → Type 0) → Option A → Option A → Type 0
Both R none none = Unit {0}
Both R none (some b) = ⊥
Both R (some a) none = ⊥
Both R (some a) (some b) = R a b

-- An HTTP probe asks for HTTP if it names no scheme.
pub record FilledAction (before after : HttpGetAction) : Type 0 where
  pub scheme : IsFilled "" "HTTP" before.scheme after.scheme
  pub others : after ≡ record before { scheme = after.scheme }

-- The defaults of a probe.
pub record FilledProbe (before after : Probe) : Type 0 where
  pub timeout_seconds : IsFilled (pos 0) (pos 1) before.timeout_seconds after.timeout_seconds
  pub period_seconds : IsFilled (pos 0) (pos 10) before.period_seconds after.period_seconds
  pub success_threshold : IsFilled (pos 0) (pos 1) before.success_threshold after.success_threshold
  pub failure_threshold : IsFilled (pos 0) (pos 3) before.failure_threshold after.failure_threshold
  pub http_get : Both FilledAction before.http_get after.http_get
  pub others : after ≡ record before {
    timeout_seconds = after.timeout_seconds;
    period_seconds = after.period_seconds;
    success_threshold = after.success_threshold;
    failure_threshold = after.failure_threshold;
    http_get = after.http_get;
  }

-- A port is a TCP port if it names no protocol.
pub record FilledPort (before after : ContainerPort) : Type 0 where
  pub protocol : IsFilled "" "TCP" before.protocol after.protocol
  pub others : after ≡ record before { protocol = after.protocol }

-- The defaults of a container.
pub record FilledContainer (before after : Container) : Type 0 where
  pub termination_message_path :
      IsFilled "" "/dev/termination-log" before.termination_message_path
        after.termination_message_path
  pub termination_message_policy :
      IsFilled "" "File" before.termination_message_policy after.termination_message_policy
  pub ports : Each FilledPort before.ports after.ports
  pub liveness_probe : Both FilledProbe before.liveness_probe after.liveness_probe
  pub readiness_probe : Both FilledProbe before.readiness_probe after.readiness_probe
  pub startup_probe : Both FilledProbe before.startup_probe after.startup_probe
  pub others : after ≡ record before {
    termination_message_path = after.termination_message_path;
    termination_message_policy = after.termination_message_policy;
    ports = after.ports;
    liveness_probe = after.liveness_probe;
    readiness_probe = after.readiness_probe;
    startup_probe = after.startup_probe;
  }

-- Files of a volume have the mode 0644 if none is given.
pub record FilledSource (before after : ModedSource) : Type 0 where
  pub default_mode : IsFilled none (some (pos 420)) before.default_mode after.default_mode
  pub others : after ≡ record before { default_mode = after.default_mode }

-- The defaults of a volume.
pub record FilledVolume (before after : Volume) : Type 0 where
  pub config_map : Both FilledSource before.config_map after.config_map
  pub secret : Both FilledSource before.secret after.secret
  pub downward_api : Both FilledSource before.downward_api after.downward_api
  pub projected : Both FilledSource before.projected after.projected
  pub others : after ≡ record before {
    config_map = after.config_map;
    secret = after.secret;
    downward_api = after.downward_api;
    projected = after.projected;
  }

-- The defaults of a pod.
pub record FilledPod (before after : PodSpec) : Type 0 where
  pub restart_policy : IsFilled "" "Always" before.restart_policy after.restart_policy
  pub termination_grace_period_seconds :
      IsFilled none
        (some (pos 30))
        before.termination_grace_period_seconds
        after.termination_grace_period_seconds
  pub dns_policy : IsFilled "" "ClusterFirst" before.dns_policy after.dns_policy
  pub security_context : IsFilled none (some "{}") before.security_context after.security_context
  pub scheduler_name : IsFilled "" "default-scheduler" before.scheduler_name after.scheduler_name
  pub volumes : Each FilledVolume before.volumes after.volumes
  pub init_containers : Each FilledContainer before.init_containers after.init_containers
  pub containers : Each FilledContainer before.containers after.containers
  pub others : after ≡ record before {
    restart_policy = after.restart_policy;
    termination_grace_period_seconds = after.termination_grace_period_seconds;
    dns_policy = after.dns_policy;
    security_context = after.security_context;
    scheduler_name = after.scheduler_name;
    volumes = after.volumes;
    init_containers = after.init_containers;
    containers = after.containers;
  }
