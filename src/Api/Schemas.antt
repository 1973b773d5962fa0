-- ===== src/Api/Schemas.antt =====
-- api/v1alpha1/publication_schemas.go. A schema name is its bytes.
pub mod Laws
use cloudnative_supabase.Prelude.{
  ℕ, suc, zero, Bool, true, false, ◌&&◌, ◌||◌, not, Option, none, some, List, [], ◌∷◌, String, leb,
  length, all, Result, ok, err, errorf, if◌then◌else◌, bytes_eq, codes,
}
use cloudnative_supabase.Kube.Meta.{Bytes}
use cloudnative_supabase.Api.Spec.{PowersyncSpec}
use cloudnative_supabase.Api.Project.{SupabaseProject}

-- `[a-z_]` and `[a-z0-9_]`
pub is_head : ℕ → Bool
is_head c = (leb b'a' c && leb c b'z') || leb b'_' c && leb c b'_'

pub is_rest : ℕ → Bool
unfolding is_head
is_rest c = is_head c || leb b'0' c && leb c b'9'

-- `publicationSchemaIdentifier.MatchString`: `^[a-z_][a-z0-9_]*$`
pub matches_identifier : Bytes → Bool
matches_identifier [] = false
matches_identifier (c ∷ cs) = is_head c && all is_rest cs

-- `seen[schema]`
pub seen_before : Bytes → List Bytes → Bool
seen_before schema [] = false
seen_before schema (s ∷ seen) = bytes_eq s schema || seen_before schema seen

-- The loop over the schemas; the position is only in the error's text.
pub check_schemas : List Bytes → List Bytes → Result (Unit {0})
check_schemas seen [] = ok tt
check_schemas seen (schema ∷ schemas) =
    let rest = check_schemas (schema ∷ seen) schemas in
    if not (leb (length schema) 63) || not (matches_identifier schema)
    then err (
        errorf
          "powersync.publicationSchemas must be a lowercase ASCII identifier of 1–63 characters")
    else if seen_before schema seen
    then err (errorf "powersync.publicationSchemas contains duplicate schema")
    else rest

validate_schemas : List Bytes → Result (List Bytes)
validate_schemas [] = err (errorf "powersync.publicationSchemas must contain at least one schema")
validate_schemas (s ∷ ss) = elim (check_schemas [] (s ∷ ss)) [ ok _ ↦ ok (s ∷ ss) | err e ↦ err e ]

effective_schemas : Option PowersyncSpec → Result (List Bytes)
effective_schemas none = ok (codes "public" ∷ [])
effective_schemas (some ps) = elim ps.publication_schemas [
  | none ↦ ok (codes "public" ∷ [])
  | some schemas ↦ validate_schemas schemas
]

unfoldable pub effective_publication_schemas : SupabaseProject → Result (List Bytes)
unfolding effective_schemas validate_schemas check_schemas
effective_publication_schemas project = effective_schemas project.spec.powersync
