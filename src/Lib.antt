-- ===== src/Lib.antt =====
-- The operator of cloudnative-supabase: a Kubernetes controller that turns a SupabaseProject into a
-- PostgreSQL cluster and the services of Supabase around it.
--
-- The program's parts, and the modules that model them (paths from the repository's root):
--   * Api: the resource, api/v1alpha1/supabaseproject_types.go, as records, and the validation of
--     publication schemas, api/v1alpha1/publication_schemas.go. Its labels are in
--     internal/resources/common/labels.go.
--   * Crypto: pkg/crypto/es256.go. Keys are parsed and checked (Jwk), role tokens are verified (Jwt),
--     and the public half of a key is projected (PublicKey). Base64, BigInt and Decimal hold the
--     encodings that the operator writes itself.
--     Random is pkg/crypto/password.go, over a random source.
--   * Secrets: internal/resources/secrets/secrets.go, the validation of the external credential
--     bundle, the generation and validation of the own Secrets of the operator (Generation,
--     Implementation), and the opaque keys of cmd/project-credentials-wizard/generator.go.
--   * Services: internal/resources/services/services.go.
--   * Common: names and URLs of internal/resources/common, and the names of other packages.
--   * Deployments: internal/resources/deployments. GoTrueEnv and AuthEnv are the environment of GoTrue,
--     Helpers is helpers.go, and Auth, Rest and Meta build the Deployments; Reach compares them with
--     the Services.
--   * Cnpg: internal/resources/cnpg, the cluster, its roles, its backups and its publication.
--   * Controller: internal/controller/supabaseproject_controller.go. Semantic, Storage, Plugins,
--     Fields, Recovery, Ownership, Readiness and Defaults are the decisions that the reconciler takes
--     on an existing and a desired object: a function that changes an object in place and reports
--     whether it did returns the new object and that flag; the early return of an error is a Result.
--     The others are its effects. Effects has the client of the API server, one Resource for each
--     kind, and State the project in memory beside the server; a step takes the state to a result
--     and the state after it, also after an error. Apply has the create-or-update steps,
--     and Apply.Stored what the server holds after them; Durable,
--     Backup, Database, Credentials, ProjectSecrets, Sources, Components, CoreServices, Publications
--     and Powersync have the phases with their error paths; Reconcile is the driver that orders them.
--     Builders is the interface to the packages that build the larger workloads. Keeps has what a
--     step leaves true of the project.
--   * Kube: the types of Kubernetes, CloudNativePG and Barman that the program fills in. Fields that
--     are only copied and compared are one opaque text each.
--   * Prelude: shared names, Go's maps as lists of pairs, results, byte strings and integers.
--   * Tests: runs on concrete objects.
-- A definition has the name of the source's function in snake case. The operator's parts meet where
-- it builds an object from the project (Cnpg, Deployments), with names from Common, and then compares
-- it with the existing one (Controller); the credentials that Secrets accepts reach GoTrue as
-- references in its environment.
--
-- Parameters: Go's JSON, base64 decoding, SHA-256 and P-256 (Crypto.Library), URL parsing, semantic
-- equality and quantities (Controller.Semantic, Controller.Storage, Controller.Effects), the client of
-- the API server, controller references, status conditions, the random source, YAML parsing and
-- group versions. What is
-- assumed of them is a hypothesis of the theorem that uses it. A text that Go handles as bytes is a
-- list of numbers; other texts are strings. Errors carry a text, without the values that some of the
-- source's messages quote. All loops are over lists, so there is no fuel; coordinates are written
-- with 32 digits to the base 256, and Go's fixed-width counters are integers that the operator only
-- compares and copies. The opaque key's bytes are taken as ASCII characters.
--
-- Apply.Stored takes the API server to fill in defaults when it stores a Deployment, and to store a
-- ConfigMap as it is written.
--
-- The server is read and written by one reconciliation at a time: a read leaves it as it is, and the
-- in-memory copy of an object is not refreshed by a write. The tokens of the bundle are verified at
-- two times that are given. Logs are left out.
--
-- Not modelled: the Deployments of Studio, of the gateway and of PowerSync, the CDC job, and the embedded
-- texts of the ConfigMaps (all builders enter the reconciler as Controller.Builders); the registration
-- of the watches, the wizard's dialogue, and generated code.
pub mod Prelude
pub mod Kube
pub mod Api
pub mod Crypto
pub mod Secrets
pub mod Services
pub mod Common
pub mod Cnpg
pub mod Controller
pub mod Deployments
pub mod Tests
