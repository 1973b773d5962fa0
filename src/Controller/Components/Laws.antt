-- ===== src/Controller/Components/Laws.antt =====
-- What the status of a component says of its Deployment on the server.
use cloudnative_supabase.Prelude.{◌≡◌, ok}
use cloudnative_supabase.Kube.Core.{Deployment}
use cloudnative_supabase.Controller.Readiness.Laws.{IsRolledOut}
use cloudnative_supabase.Controller.Effects.{Client, key_of}

-- The server has a Deployment of that name and namespace that is rolled out.
abbrev pub Serving : {W : Type 0} → Client W → Deployment → W → Type 0
Serving client desired world =
    (existing : Deployment) × (client.deployments.get (key_of desired.meta) world ≡ ok existing)
    × IsRolledOut existing
