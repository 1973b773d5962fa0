-- ===== src/Controller/Ownership/Laws.antt =====
-- Which owners are removed, and which labels a merge gives.
use cloudnative_supabase.Prelude.{
  ◌≡◌, ◌≢◌, refl, sym, ◌∙◌, subst, Bool-cases, inl, inr, String, ◌==◌, eq_iff, Bool, true, false,
  ◌&&◌, not, Option, some, none, ◌↔◌, ◌⊎◌, List, [], ◌∷◌, Map, arith, if◌then◌else◌,
}
use cloudnative_supabase.Kube.Meta.{OwnerReference}
use cloudnative_supabase.Controller.Ownership.{
  group_is, is_project_owner, filter_owners, remove_supabase_project_owner_reference,
}

false_ne_true : false ≢ true
false_ne_true h = ground arith

module _ (parse_group : String → Option String) (project_name : String) where
  -- A reference to the project: one of the operator's API group, in whatever version.
  abbrev pub Names : OwnerReference → Type 0
  Names owner =
      (parse_group owner.api_version ≡ some "supabase.guion.dev")
      × (owner.kind ≡ "SupabaseProject")
      × (owner.name ≡ project_name)

  -- The second list is the first one without the references to the project, in the same order.
  pub data Removed : List OwnerReference → List OwnerReference → Type 0 where
    finished : Removed [] []
    removed :
        (owner : OwnerReference) (owners left : List OwnerReference)
        → Names owner
        → Removed owners left
        → Removed (owner ∷ owners) left
    kept :
        (owner : OwnerReference) (owners left : List OwnerReference)
        → ¬ Names owner
        → Removed owners left
        → Removed (owner ∷ owners) (owner ∷ left)

  -- The project is among the owners.
  abbrev pub Owned : List OwnerReference → Type 0
  Owned [] = ⊥
  Owned (owner ∷ owners) = Names owner ⊎ Owned owners

  is_project_owner_iff :
      (owner : OwnerReference)
      → (is_project_owner parse_group project_name owner ≡ true) ↔ Names owner
  unfolding is_project_owner
  is_project_owner_iff owner = go (parse_group owner.api_version)
    where
      go :
          (group : Option String)
          → (group_is group && (owner.kind == "SupabaseProject" && owner.name == project_name)
              ≡ true)
            ↔ ((group ≡ some "supabase.guion.dev")
                × (owner.kind ≡ "SupabaseProject")
                × (owner.name ≡ project_name))
      go none = ground arith
      go (some group) = ground (
        arith,
        eq_iff group "supabase.guion.dev",
        eq_iff owner.kind "SupabaseProject",
        eq_iff owner.name project_name,
      )

  filter_owners-Removed :
      (owners : List OwnerReference)
      → Removed owners (filter_owners parse_group project_name owners).0
  unfolding filter_owners
  filter_owners-Removed [] = finished
  filter_owners-Removed (o ∷ os) = elim (Bool-cases (is_project_owner parse_group project_name o)) [
    | inl e ↦ rw e (removed o os _ ((is_project_owner_iff o).0 e) (filter_owners-Removed os))
    | inr e ↦ rw e (
        kept o os _ (λ n. false_ne_true (sym e ∙ (is_project_owner_iff o).1 n))
          (filter_owners-Removed os))
  ]

  filter_owners-Owned :
      (owners : List OwnerReference)
      → ((filter_owners parse_group project_name owners).1 ≡ true) ↔ Owned owners
  unfolding filter_owners
  filter_owners-Owned [] = ground arith
  filter_owners-Owned (o ∷ os) = ground (arith, filter_owners-Owned os, is_project_owner_iff o)

  filter_owners-id :
      (owners : List OwnerReference)
      → (filter_owners parse_group project_name owners).1 ≡ false
      → (filter_owners parse_group project_name owners).0 ≡ owners
  unfolding filter_owners
  filter_owners-id [] h = refl
  filter_owners-id (o ∷ os) h = ground (arith, filter_owners-id os)

  -- For a project that has a name: removing its owner reference leaves the other owners in their
  -- order and removes every reference to a "SupabaseProject" of that name in the operator's API
  -- group, and it reports a change exactly if there was such a reference.
  pub remove_supabase_project_owner_reference-Removed :
      (owners : List OwnerReference)
      → project_name ≢ ""
      → let result = remove_supabase_project_owner_reference parse_group owners project_name in
        Removed owners result.0 × ((result.1 ≡ true) ↔ Owned owners)
  unfolding remove_supabase_project_owner_reference
  remove_supabase_project_owner_reference-Removed owners h =
      elim (Bool-cases (project_name == "")) [
        | inl e ↦ absurd (h ((eq_iff project_name "").0 e))
        | inr e ↦ rw e (elim (Bool-cases (filter_owners parse_group project_name owners).1) [
          | inl f ↦ rw f (filter_owners-Removed owners, rw f at (filter_owners-Owned owners))
          | inr f ↦ rw f (
            subst (Removed owners) (filter_owners-id owners f) (filter_owners-Removed owners),
            rw f at (filter_owners-Owned owners),
          )
        ])
      ]

-- The keys of a map, each once.
abbrev pub absent : String → Map String → Bool
absent key [] = true
absent key ((k, v) ∷ m) = not (k == key) && absent key m

abbrev pub IsMap : Map String → Type 0
IsMap [] = Unit {0}
IsMap ((k, v) ∷ m) = (absent k m ≡ true) × IsMap m

-- The value of a key in a desired map, if it is there, and a given text otherwise.
abbrev pub wanted : String → Map String → String → String
wanted key [] other = other
wanted key ((k, v) ∷ m) other = if k == key then v else wanted key m other
