-- ===== src/Controller/Defaults.antt =====
-- internal/controller/supabaseproject_controller.go: the defaults that the API server would fill in.
pub mod Filled
use cloudnative_supabase.Prelude.{
  ◌≡◌, refl, ap, String, ◌==◌, eq_iff, Option, none, some, List, [], ◌∷◌, ℤ, pos, ◌=ℤ=◌, arith,
  if◌then◌else◌,
}
use cloudnative_supabase.Kube.Core.{
  HttpGetAction, Probe, ContainerPort, Container, ModedSource, Volume, PodSpec, PodTemplateSpec,
}

-- `if value == "" { value = fallback }`, and the same for 0 and for nil.
abbrev pub text_or : String → String → String
text_or fallback value = if value == "" then fallback else value

abbrev pub number_or : ℤ → ℤ → ℤ
number_or fallback value = if value =ℤ= pos 0 then fallback else value

abbrev pub set_or {ℓ} : {A : Type ℓ} → A → Option A → Option A
set_or fallback none = some fallback
set_or fallback (some value) = some value

-- A loop that sets every element.
abbrev pub each {ℓ} : {A : Type ℓ} → (A → A) → List A → List A
each f [] = []
each f (a ∷ as_) = f a ∷ each f as_

abbrev pub under {ℓ} : {A : Type ℓ} → (A → A) → Option A → Option A
under f none = none
under f (some a) = some (f a)

unfoldable pub http_get_defaults : HttpGetAction → HttpGetAction
http_get_defaults action = record action { scheme = text_or "HTTP" action.scheme }

unfoldable pub normalize_probe_defaults : Probe → Probe
unfolding http_get_defaults
normalize_probe_defaults probe = record probe {
  timeout_seconds = number_or (pos 1) probe.timeout_seconds;
  period_seconds = number_or (pos 10) probe.period_seconds;
  success_threshold = number_or (pos 1) probe.success_threshold;
  failure_threshold = number_or (pos 3) probe.failure_threshold;
  http_get = under http_get_defaults probe.http_get;
}

unfoldable pub port_defaults : ContainerPort → ContainerPort
port_defaults port = record port { protocol = text_or "TCP" port.protocol }

unfoldable pub normalize_container_defaults : Container → Container
unfolding port_defaults
normalize_container_defaults container = record container {
  termination_message_path = text_or "/dev/termination-log" container.termination_message_path;
  termination_message_policy = text_or "File" container.termination_message_policy;
  ports = each port_defaults container.ports;
  liveness_probe = under normalize_probe_defaults container.liveness_probe;
  readiness_probe = under normalize_probe_defaults container.readiness_probe;
  startup_probe = under normalize_probe_defaults container.startup_probe;
}

-- 0o644
unfoldable pub mode_default : ModedSource → ModedSource
mode_default source = record source { default_mode = set_or (pos 420) source.default_mode }

unfoldable pub normalize_volume_defaults : Volume → Volume
unfolding mode_default
normalize_volume_defaults volume = record volume {
  config_map = under mode_default volume.config_map;
  secret = under mode_default volume.secret;
  downward_api = under mode_default volume.downward_api;
  projected = under mode_default volume.projected;
}

unfoldable pub pod_defaults : PodSpec → PodSpec
pod_defaults spec = record spec {
  restart_policy = text_or "Always" spec.restart_policy;
  termination_grace_period_seconds = set_or (pos 30) spec.termination_grace_period_seconds;
  dns_policy = text_or "ClusterFirst" spec.dns_policy;
  security_context = set_or "{}" spec.security_context;
  scheduler_name = text_or "default-scheduler" spec.scheduler_name;
  volumes = each normalize_volume_defaults spec.volumes;
  init_containers = each normalize_container_defaults spec.init_containers;
  containers = each normalize_container_defaults spec.containers;
}

unfoldable pub normalize_pod_template_defaults : PodTemplateSpec → PodTemplateSpec
unfolding pod_defaults
normalize_pod_template_defaults template = record template { spec = pod_defaults template.spec }

text_or_again :
    (fallback value : String) → text_or fallback (text_or fallback value) ≡ text_or fallback value
text_or_again fallback value = ground (arith, eq_iff fallback "")

number_or_again :
    (fallback value : ℤ) → number_or fallback (number_or fallback value) ≡ number_or fallback value
number_or_again fallback value = ground arith

set_or_again {ℓ} :
    {A : Type ℓ} (fallback : A) (value : Option A)
    → set_or fallback (set_or fallback value) ≡ set_or fallback value
set_or_again fallback none = refl
set_or_again fallback (some value) = refl

each_again {ℓ} :
    {A : Type ℓ} (f : A → A)
    → ((a : A) → f (f a) ≡ f a)
    → (xs : List A) → each f (each f xs) ≡ each f xs
each_again f h [] = refl
each_again f h (x ∷ xs) = rw (h x, each_again f h xs) refl

under_again {ℓ} :
    {A : Type ℓ} (f : A → A)
    → ((a : A) → f (f a) ≡ f a)
    → (x : Option A) → under f (under f x) ≡ under f x
under_again f h none = refl
under_again f h (some x) = ap some (h x)

http_get_defaults_again :
    (a : HttpGetAction) → http_get_defaults (http_get_defaults a) ≡ http_get_defaults a
unfolding http_get_defaults
http_get_defaults_again a = rw (text_or_again "HTTP" a.scheme) refl

normalize_probe_defaults_again :
    (p : Probe) → normalize_probe_defaults (normalize_probe_defaults p) ≡ normalize_probe_defaults p
unfolding normalize_probe_defaults
normalize_probe_defaults_again p =
    rw
      (
        number_or_again (pos 1) p.timeout_seconds,
        number_or_again (pos 10) p.period_seconds,
        number_or_again (pos 1) p.success_threshold,
        number_or_again (pos 3) p.failure_threshold,
        under_again http_get_defaults http_get_defaults_again p.http_get,
      )
      refl

port_defaults_again : (p : ContainerPort) → port_defaults (port_defaults p) ≡ port_defaults p
unfolding port_defaults
port_defaults_again p = rw (text_or_again "TCP" p.protocol) refl

normalize_container_defaults_again :
    (c : Container)
    → normalize_container_defaults (normalize_container_defaults c) ≡ normalize_container_defaults c
unfolding normalize_container_defaults
normalize_container_defaults_again c =
    rw
      (
        text_or_again "/dev/termination-log" c.termination_message_path,
        text_or_again "File" c.termination_message_policy,
        each_again port_defaults port_defaults_again c.ports,
        under_again normalize_probe_defaults normalize_probe_defaults_again c.liveness_probe,
        under_again normalize_probe_defaults normalize_probe_defaults_again c.readiness_probe,
        under_again normalize_probe_defaults normalize_probe_defaults_again c.startup_probe,
      )
      refl

mode_default_again : (s : ModedSource) → mode_default (mode_default s) ≡ mode_default s
unfolding mode_default
mode_default_again s = rw (set_or_again (pos 420) s.default_mode) refl

normalize_volume_defaults_again :
    (v : Volume)
    → normalize_volume_defaults (normalize_volume_defaults v) ≡ normalize_volume_defaults v
unfolding normalize_volume_defaults
normalize_volume_defaults_again v =
    rw
      (
        under_again mode_default mode_default_again v.config_map,
        under_again mode_default mode_default_again v.secret,
        under_again mode_default mode_default_again v.downward_api,
        under_again mode_default mode_default_again v.projected,
      )
      refl

-- Filling in the defaults of a pod template, its volumes and its containers twice is the same as
-- once.
pub normalize_pod_template_defaults_again :
    (template : PodTemplateSpec)
    → normalize_pod_template_defaults (normalize_pod_template_defaults template)
      ≡ normalize_pod_template_defaults template
unfolding normalize_pod_template_defaults pod_defaults
normalize_pod_template_defaults_again template =
    let spec = template.spec in
    rw
      (
        text_or_again "Always" spec.restart_policy,
        set_or_again (pos 30) spec.termination_grace_period_seconds,
        text_or_again "ClusterFirst" spec.dns_policy,
        set_or_again "{}" spec.security_context,
        text_or_again "default-scheduler" spec.scheduler_name,
        each_again normalize_volume_defaults normalize_volume_defaults_again spec.volumes,
        each_again normalize_container_defaults normalize_container_defaults_again
            spec.init_containers,
        each_again normalize_container_defaults normalize_container_defaults_again spec.containers,
      )
      refl
