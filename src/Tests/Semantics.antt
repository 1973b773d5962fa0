-- ===== src/Tests/Semantics.antt =====
-- Stand-ins for semantic equality and quantities.
use cloudnative_supabase.Prelude.{
  ℕ, ◌≡◌, refl, String, ◌==◌, ==_refl, Bool, true, false, ◌&&◌, not, Option, none, some, is_some,
  List, [], ◌∷◌, ok, codes, length, ltb, arith,
}
use cloudnative_supabase.Controller.Semantic.{Semantic, IsSemantic}
use cloudnative_supabase.Controller.Storage.{Quantities}
use cloudnative_supabase.Controller.Storage.Laws.{Irreflexive}

abbrev pub flags : Bool → Bool → Bool
flags true b = b
flags false b = not b

abbrev pub option_eq : {A : Type 0} → (A → A → Bool) → Option A → Option A → Bool
option_eq equal none none = true
option_eq equal (some a) (some b) = equal a b
option_eq equal _ _ = false

abbrev pub list_eq : {A : Type 0} → (A → A → Bool) → List A → List A → Bool
list_eq equal [] [] = true
list_eq equal (a ∷ more) (b ∷ others_) = equal a b && list_eq equal more others_
list_eq equal _ _ = false

option_eq_refl :
    {A : Type 0} (equal : A → A → Bool)
    → ((a : A) → equal a a ≡ true)
    → (o : Option A) → option_eq equal o o ≡ true
option_eq_refl equal h none = refl
option_eq_refl equal h (some a) = h a

list_eq_refl :
    {A : Type 0} (equal : A → A → Bool)
    → ((a : A) → equal a a ≡ true)
    → (l : List A) → list_eq equal l l ≡ true
list_eq_refl equal h [] = refl
list_eq_refl equal h (a ∷ l) = rw (h a) (list_eq_refl equal h l)

flags_refl : (b : Bool) → flags b b ≡ true
flags_refl b = ground arith

abbrev pub pair_eq : String × String → String × String → Bool
pair_eq (k, v) (j, w) = k == j && v == w

pair_eq_refl : (p : String × String) → pair_eq p p ≡ true
pair_eq_refl (k, v) = rw (==_refl k, ==_refl v) refl

-- Two values of a type that agree in a name.
abbrev pub by_name : {A : Type 0} → (A → String) → A → A → Bool
by_name name a b = name a == name b

by_name_refl : {A : Type 0} (name : A → String) (a : A) → by_name name a a ≡ true
by_name_refl name a = ==_refl (name a)

abbrev pub test_semantic : Semantic
test_semantic = record {
  flag = option_eq flags;
  text = option_eq ◌==◌;
  texts = list_eq ◌==◌;
  parameters = list_eq pair_eq;
  resources = λ a b. flags (is_some a.requests) (is_some b.requests);
  roles = list_eq (by_name (λ role. role.name));
  plugin = λ a b. list_eq pair_eq a.parameters b.parameters;
  secret = option_eq (by_name (λ secret. secret.name));
  sql_refs =
      option_eq (λ a b. list_eq (by_name (λ ref. ref.name)) a.config_map_refs b.config_map_refs);
  recovery = by_name (λ recovery. recovery.source);
  identity = by_name (λ identity. identity.server_name);
}

pub test_semantic-IsSemantic : IsSemantic test_semantic
test_semantic-IsSemantic = record {
  flag-refl = option_eq_refl flags flags_refl;
  text-refl = option_eq_refl ◌==◌ ==_refl;
  texts-refl = list_eq_refl ◌==◌ ==_refl;
  parameters-refl = list_eq_refl pair_eq pair_eq_refl;
  resources-refl = λ a. flags_refl (is_some a.requests);
  roles-refl = list_eq_refl (by_name (λ role. role.name)) (by_name_refl (λ role. role.name));
  plugin-refl = λ a. list_eq_refl pair_eq pair_eq_refl a.parameters;
  secret-refl =
      option_eq_refl (by_name (λ secret. secret.name)) (by_name_refl (λ secret. secret.name));
  sql_refs-refl =
      option_eq_refl
        (λ a b. list_eq (by_name (λ ref. ref.name)) a.config_map_refs b.config_map_refs)
        (λ a.
          list_eq_refl (by_name (λ ref. ref.name)) (by_name_refl (λ ref. ref.name))
            a.config_map_refs);
  recovery-refl = by_name_refl (λ recovery. recovery.source);
  identity-refl = by_name_refl (λ identity. identity.server_name);
}

-- A quantity is a number of strokes.
abbrev pub test_quantities : Quantities ℕ
test_quantities = record { parse_quantity = λ size. ok (length (codes size)); is_less = ltb }

pub ltb-irreflexive : Irreflexive test_quantities
ltb-irreflexive q = ground arith
