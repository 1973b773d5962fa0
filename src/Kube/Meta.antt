-- ===== src/Kube/Meta.antt =====
-- Object metadata (k8s.io/apimachinery).
use cloudnative_supabase.Prelude.{String, Option, none, some, Bool, List, [], Map, ℤ, ℕ}

-- The bytes of a text or of a binary value.
abbrev pub Bytes : Type 0
Bytes = List ℕ

-- A missing key of a map of bytes reads as no bytes.
abbrev pub or_empty : Option Bytes → Bytes
or_empty none = []
or_empty (some value) = value

-- A value that the operator only compares and copies, in its serialised form.
abbrev pub Blob : Type 0
Blob = String

pub record NamespacedName : Type 0 where
  pub name : String
  pub namespace : String

pub record OwnerReference : Type 0 where
  pub api_version : String
  pub kind : String
  pub name : String
  pub uid : String
  pub controller : Option Bool
  pub block_owner_deletion : Option Bool

pub record ObjectMeta : Type 0 where
  pub name : String
  pub namespace : String
  pub labels : Map String
  pub annotations : Map Bytes
  pub owner_references : List OwnerReference
  pub uid : String
  pub generation : ℤ

-- `metav1.Condition`, less its transition time.
pub record Condition : Type 0 where
  pub type : String
  pub status : String
  pub observed_generation : ℤ
  pub reason : String
  pub message : String
