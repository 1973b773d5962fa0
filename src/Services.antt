-- ===== src/Services.antt =====
-- internal/resources/services/services.go
use cloudnative_supabase.Prelude.{String, ◌<>◌, List, [], ◌∷◌, ℤ, pos}
use cloudnative_supabase.Kube.Core.{Service, ServicePort}
use cloudnative_supabase.Api.Project.{SupabaseProject, selector_labels}
use cloudnative_supabase.Common.Names.{gateway_name}
use cloudnative_supabase.Cnpg.Cluster.{component_meta}

-- A TCP port that is passed on as it is.
abbrev tcp_port : String → ℤ → ServicePort
tcp_port name port = record { name = name; port = port; target_port = port; protocol = "TCP" }

-- A service of the type "ClusterIP" with the given ports.
abbrev service_with : SupabaseProject → String → String → List ServicePort → Service
service_with project name component ports = record {
  meta = component_meta project name component;
  type = "ClusterIP";
  ports = ports;
  selector = selector_labels project component;
  rest = "";
}

unfoldable pub build_service : SupabaseProject → String → String → ℤ → Service
build_service project name component port =
    service_with project name component (tcp_port "http" port ∷ [])

unfoldable pub build_auth_service : SupabaseProject → Service
unfolding build_service
build_auth_service project = build_service project (project.name <> "-auth") "auth" (pos 9999)

unfoldable pub build_rest_service : SupabaseProject → Service
unfolding build_service
build_rest_service project = build_service project (project.name <> "-rest") "rest" (pos 3000)

unfoldable pub build_studio_service : SupabaseProject → Service
unfolding build_service
build_studio_service project = build_service project (project.name <> "-studio") "studio" (pos 3000)

unfoldable pub build_meta_service : SupabaseProject → Service
unfolding build_service
build_meta_service project = build_service project (project.name <> "-meta") "meta" (pos 8080)

unfoldable pub build_powersync_api_service : SupabaseProject → Service
build_powersync_api_service project =
    service_with project (project.name <> "-powersync-api") "powersync-api"
      (tcp_port "http" (pos 8080) ∷ tcp_port "metrics" (pos 9464) ∷ [])

unfoldable pub build_gateway_service : SupabaseProject → Service
build_gateway_service project =
    service_with project (gateway_name project) "gateway" (tcp_port "http" (pos 8000) ∷ [])
