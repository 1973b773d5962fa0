-- ===== src/Cnpg/Parameters.antt =====
-- internal/resources/cnpg/cluster.go: the parameters of PostgreSQL.
use cloudnative_supabase.Prelude.{
  ◌≡◌, refl, ◌∙◌, String, ◌==◌, Option, none, some, [], ◌∷◌, Map, arith, if◌then◌else◌,
}
use cloudnative_supabase.Prelude.Maps.{lookup, insert, insert_all, lookup-insert}

unfoldable pub default_parameters : Map String
default_parameters =
    ("wal_level", "logical")
    ∷ ("max_replication_slots", "10")
    ∷ ("max_wal_senders", "10")
    ∷ ("wal_sender_timeout", "60s")
    ∷ ("wal_receiver_timeout", "60s")
    ∷ ("shared_buffers", "256MB")
    ∷ ("log_min_messages", "fatal")
    ∷ ("pgaudit.log", "function, ddl, role")
    ∷ ("pgaudit.log_catalog", "on")
    ∷ ("pgaudit.log_client", "off")
    ∷ ("pgaudit.log_level", "log")
    ∷ ("pgaudit.log_parameter", "off")
    ∷ ("pgaudit.log_relation", "off")
    ∷ ("pgaudit.log_rows", "off")
    ∷ ("pgaudit.log_statement", "on")
    ∷ ("pgaudit.log_statement_once", "off")
    ∷ ("auto_explain.log_min_duration", "1s")
    ∷ ("auto_explain.log_analyze", "on")
    ∷ ("auto_explain.log_buffers", "on")
    ∷ ("auto_explain.log_timing", "on")
    ∷ ("auto_explain.log_nested_statements", "on")
    ∷ []

unfoldable pub merge_parameters : Map String → Map String → Map String
unfolding insert_all
merge_parameters base custom = insert_all custom (insert_all base [])

abbrev pub first_of : Option String → Option String → Option String
first_of (some v) other = some v
first_of none other = other

-- The last binding of a key. A Go map has one at most.
abbrev pub last_value : String → Map String → Option String
last_value k [] = none
last_value k ((j, v) ∷ m) = first_of (last_value k m) (if j == k then some v else none)

lookup-insert_all :
    (k : String) (entries m : Map String)
    → lookup k (insert_all entries m) ≡ first_of (last_value k entries) (lookup k m)
unfolding insert_all
lookup-insert_all k [] m = refl
lookup-insert_all k ((j, v) ∷ entries) m =
    ground (arith, lookup-insert_all k entries (insert j v m), lookup-insert j k v m)

-- A parameter of the cluster is the user's where the user sets it, and the default otherwise.
pub lookup-merge_parameters :
    (k : String) (base custom : Map String)
    → lookup k (merge_parameters base custom) ≡ first_of (last_value k custom) (last_value k base)
unfolding merge_parameters lookup
lookup-merge_parameters k base custom =
    lookup-insert_all k custom (insert_all base [])
    ∙ rw (lookup-insert_all k base []) (ground arith)
