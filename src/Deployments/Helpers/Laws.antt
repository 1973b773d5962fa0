-- ===== src/Deployments/Helpers/Laws.antt =====
-- What the selectors of internal/resources/common/labels.go select.
use cloudnative_supabase.Prelude.{
  ◌≡◌, ◌↔◌, ◌⊎◌, refl, sym, ◌∙◌, String, eq_iff, inl, inr, Option, some, Map, arith,
}
use cloudnative_supabase.Prelude.Maps.{lookup, insert}
use cloudnative_supabase.Api.Project.{
  SupabaseProject, common_labels, component_labels, selector_labels, label_instance,
  label_component,
}

-- Labels that have all pairs of a selector.
abbrev pub Selects : Map String → Map String → Type 0
Selects selector labels =
    (key value : String) → lookup key selector ≡ some value → lookup key labels ≡ some value

component_labels_instance :
    (project : SupabaseProject) (component : String)
    → lookup label_instance (component_labels project component) ≡ some project.name
unfolding component_labels common_labels lookup insert
component_labels_instance project component = refl

component_labels_component :
    (project : SupabaseProject) (component : String)
    → lookup label_component (component_labels project component) ≡ some component
unfolding component_labels common_labels lookup insert
component_labels_component project component = refl

-- What a selector asks for.
selector_labels_cases :
    (project : SupabaseProject) (component key value : String)
    → lookup key (selector_labels project component) ≡ some value
    → ((key ≡ label_instance) × (value ≡ project.name))
      ⊎ ((key ≡ label_component) × (value ≡ component))
unfolding selector_labels lookup
selector_labels_cases project component key value h =
    ground (arith, eq_iff label_instance key, eq_iff label_component key)

pub some-injective : {A : Type 0} {a b : A} → Option.some a ≡ some b → a ≡ b
some-injective h = cc

-- The selector of a component of a project selects the labels that the operator gives to pods
-- exactly if these are the pods of the same component and of a project of the same name.
pub selector_labels_iff :
    (project other : SupabaseProject) (a b : String)
    → Selects (selector_labels project a) (component_labels other b)
      ↔ ((other.name ≡ project.name) × (b ≡ a))
unfolding selector_labels lookup
selector_labels_iff project other a b = (
  λ selects. (
    some-injective
        (sym (component_labels_instance other b) ∙ selects label_instance project.name refl),
    some-injective (sym (component_labels_component other b) ∙ selects label_component a refl),
  ),
  λ same key value h. elim (selector_labels_cases project a key value h) [
    | inl (k, v) ↦ rw (k, component_labels_instance other b, same.0, v) refl
    | inr (k, v) ↦ rw (k, component_labels_component other b, same.1, v) refl
  ],
)
