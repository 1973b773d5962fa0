-- ===== src/Api/Schemas/Laws.antt =====
-- What `EffectivePublicationSchemas` accepts.
use cloudnative_supabase.Prelude.{
  ℕ, ◌≤◌, ◌≡◌, ◌≢◌, ◌⊎◌, ◌↔◌, true, false, ◌&&◌, none, some, List, [], ◌∷◌, arith, length, leb, all,
  All, ok, bytes_eq_iff, codes,
}
use cloudnative_supabase.Kube.Meta.{Bytes}
use cloudnative_supabase.Api.Spec.{PowersyncSpec}
use cloudnative_supabase.Api.Project.{SupabaseProject}
use cloudnative_supabase.Api.Schemas.{
  is_head, is_rest, matches_identifier, seen_before, check_schemas, effective_publication_schemas,
}

-- A lower-case letter or an underscore; also a digit after the first byte.
abbrev pub IsHead : ℕ → Type 0
IsHead c = ((b'a' ≤ c) × (c ≤ b'z')) ⊎ (c ≡ b'_')

abbrev pub IsRest : ℕ → Type 0
IsRest c = IsHead c ⊎ ((b'0' ≤ c) × (c ≤ b'9'))

abbrev pub IsIdentifier : Bytes → Type 0
IsIdentifier [] = ⊥
IsIdentifier (c ∷ cs) = (length (c ∷ cs) ≤ 63) × IsHead c × All IsRest cs

-- No schema is listed twice.
abbrev pub Distinct : List Bytes → Type 0
Distinct [] = Unit
Distinct (s ∷ ss) = All (λ t. s ≢ t) ss × Distinct ss

is_rest_iff : (c : ℕ) → (is_rest c ≡ true) ↔ IsRest c
unfolding is_rest
is_rest_iff c = ground arith

all-is_rest_iff : (cs : Bytes) → (all is_rest cs ≡ true) ↔ All IsRest cs
all-is_rest_iff [] = ground arith
all-is_rest_iff (c ∷ cs) = ground (arith, is_rest_iff c, all-is_rest_iff cs)

IsIdentifier-iff :
    (s : Bytes) → ((leb (length s) 63 && matches_identifier s) ≡ true) ↔ IsIdentifier s
unfolding matches_identifier is_head
IsIdentifier-iff [] = ground arith
IsIdentifier-iff (c ∷ cs) = ground (arith, all-is_rest_iff cs)

abbrev NotIn : Bytes → List Bytes → Type 0
NotIn s seen = All (λ t. t ≢ s) seen

seen_before_iff : (s : Bytes) (seen : List Bytes) → (seen_before s seen ≡ false) ↔ NotIn s seen
unfolding seen_before
seen_before_iff s [] = ground arith
seen_before_iff s (t ∷ seen) = ground (arith, bytes_eq_iff t s, seen_before_iff s seen)

All-cons_split :
    (s : Bytes) (seen ss : List Bytes)
    → All (λ t. NotIn t (s ∷ seen)) ss ↔ (All (λ t. s ≢ t) ss × All (λ t. NotIn t seen) ss)
All-cons_split s seen [] = ground arith
All-cons_split s seen (t ∷ ss) = ground (arith, All-cons_split s seen ss)

check_schemas_iff :
    (seen ss : List Bytes)
    → (check_schemas seen ss ≡ ok tt)
      ↔ (All IsIdentifier ss × All (λ t. NotIn t seen) ss × Distinct ss)
unfolding check_schemas
check_schemas_iff seen [] = ground arith
check_schemas_iff seen (s ∷ ss) = ground (
  arith,
  IsIdentifier-iff s,
  seen_before_iff s seen,
  All-cons_split s seen ss,
  check_schemas_iff (s ∷ seen) ss,
)

All-NotIn-nil : (ss : List Bytes) → All (λ t. NotIn t []) ss
All-NotIn-nil [] = tt
All-NotIn-nil (s ∷ ss) = (tt, All-NotIn-nil ss)

-- Where a project configures PowerSync with an explicit list of schemas, the list is returned as it
-- stands if it is not empty, all its members are identifiers of at most 63 bytes and no two are
-- equal; otherwise, and only then, an error is returned.
pub effective_publication_schemas_iff :
    (project : SupabaseProject) (ps : PowersyncSpec) (given out : List Bytes)
    → project.spec.powersync ≡ some ps
    → ps.publication_schemas ≡ some given
    → (effective_publication_schemas project ≡ ok out)
      ↔ ((out ≡ given) × (given ≢ []) × All IsIdentifier given × Distinct given)
unfolding effective_publication_schemas
effective_publication_schemas_iff project ps [] out e f = ground arith
effective_publication_schemas_iff project ps (s ∷ ss) out e f =
    ground (arith, check_schemas_iff [] (s ∷ ss), All-NotIn-nil (s ∷ ss))

-- Without PowerSync, or with a list that was never given, the result is the schema "public".
pub effective_publication_schemas_default :
    (project : SupabaseProject)
    → ((project.spec.powersync ≡ none)
        ⊎ ((ps : PowersyncSpec) × (project.spec.powersync ≡ some ps)
            × (ps.publication_schemas ≡ none)))
    → effective_publication_schemas project ≡ ok (codes "public" ∷ [])
unfolding effective_publication_schemas
effective_publication_schemas_default project h = ground arith
