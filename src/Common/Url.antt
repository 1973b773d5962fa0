-- ===== src/Common/Url.antt =====
-- internal/resources/common/url.go. Go's URL parser and printer, and `strings.TrimSpace`, are
-- parameters.
use cloudnative_supabase.Prelude.{
  ℕ, ◌≡◌, Bool, true, false, ◌||◌, Option, none, some, [], ◌∷◌, ◌++◌, arith, ◌=ℕ=◌, has_suffix,
  has_suffix-append, codes, if◌then◌else◌,
}
use cloudnative_supabase.Kube.Meta.{Bytes}

-- `url.URL`, as far as it is changed here; `rest` is what the parser found besides.
pub record Url : Type 0 where
  pub scheme : Bytes
  pub host : Bytes
  pub path : Bytes
  pub raw_path : Bytes
  pub raw_query : Bytes
  pub fragment : Bytes
  pub rest : Bytes

-- `strings.TrimRight(s, "/")`
abbrev drop_slash : ℕ → Bytes → Bytes
drop_slash c [] = if c =ℕ= b'/' then [] else c ∷ []
drop_slash c (d ∷ cs) = c ∷ d ∷ cs

unfoldable pub trim_right_slashes : Bytes → Bytes
trim_right_slashes [] = []
trim_right_slashes (c ∷ cs) = drop_slash c (trim_right_slashes cs)

abbrev is_empty : Bytes → Bool
is_empty [] = true
is_empty (_ ∷ _) = false

abbrev pub auth_path : Bytes
auth_path = codes "/auth/v1"

module _ (trim_space : Bytes → Bytes) (parse : Bytes → Option Url) (print : Url → Bytes) where
  unparsed : Bytes → Bytes
  unparsed raw = trim_right_slashes (trim_space raw)

  canonical : Url → Bytes
  canonical u = trim_right_slashes (
      print (record u {
        path = trim_right_slashes u.path;
        raw_path = [];
        raw_query = [];
        fragment = [];
      }))

  unfoldable pub normalize_external_url : Bytes → Bytes
  unfolding unparsed canonical
  normalize_external_url raw = elim (parse (trim_space raw)) [
    | none ↦ unparsed raw
    | some u ↦ if is_empty u.scheme || is_empty u.host then unparsed raw else canonical u
  ]

  unfoldable pub auth_issuer_url : Bytes → Bytes
  auth_issuer_url external_url =
      let base = normalize_external_url external_url in
      if has_suffix base auth_path then base else base ++ auth_path

  unfoldable pub auth_jwks_url : Bytes → Bytes
  auth_jwks_url external_url = auth_issuer_url external_url ++ codes "/.well-known/jwks.json"

  -- The issuer ends in the path of Auth, whether or not the external URL ended in it.
  pub auth_issuer_url-has_suffix :
      (external_url : Bytes) → has_suffix (auth_issuer_url external_url) auth_path ≡ true
  unfolding auth_issuer_url
  auth_issuer_url-has_suffix external_url =
      ground (arith, has_suffix-append (normalize_external_url external_url) auth_path)
