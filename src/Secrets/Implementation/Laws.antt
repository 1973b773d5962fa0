-- ===== src/Secrets/Implementation/Laws.antt =====
-- Which of the operator's own Secrets are accepted.
use cloudnative_supabase.Prelude.{
  ◌≡◌, ◌↔◌, refl, true, Option, none, some, ◌++◌, ok, arith, length, has_prefix, has_prefix-split,
  Result-cases, inl, inr,
}
use cloudnative_supabase.Kube.Meta.{Bytes}
use cloudnative_supabase.Kube.Core.{Secret}
use cloudnative_supabase.Crypto.Library.{Library}
use cloudnative_supabase.Secrets.Credentials.{secret_value}
use cloudnative_supabase.Secrets.Implementation.{
  webhook_prefix, check_webhook, validate_email_hook_secret,
}

-- A Standard Webhooks value with a payload of 32 bytes.
abbrev pub IsWebhook : Library → Option Bytes → Type 0
IsWebhook lib value =
    (encoded : Bytes) × (payload : Bytes) × (value ≡ some (webhook_prefix ++ encoded))
    × (lib.std_decode encoded ≡ ok payload)
    × (length payload ≡ 32)

-- The tests behind the prefix.
decoded-IsWebhook :
    (lib : Library) (encoded : Bytes)
    → check_webhook lib (some (webhook_prefix ++ encoded)) ≡ ok tt
    → IsWebhook lib (some (webhook_prefix ++ encoded))
unfolding has_prefix
decoded-IsWebhook lib encoded h = elim (Result-cases (lib.std_decode encoded)) [
  | inl (payload, e) ↦ (encoded, payload, refl, e, ground arith)
  | inr (failure, e) ↦ absurd (ground arith)
]

check_webhook-IsWebhook :
    (lib : Library) (value : Option Bytes) → check_webhook lib value ≡ ok tt → IsWebhook lib value
check_webhook-IsWebhook lib none h = cc
check_webhook-IsWebhook lib (some value) h =
    let prefixed : has_prefix value webhook_prefix ≡ true = ground arith in
    let (encoded, e) = has_prefix-split value webhook_prefix prefixed in
    rw e (decoded-IsWebhook lib encoded (rw e at h))

IsWebhook-check_webhook :
    (lib : Library) (value : Option Bytes) → IsWebhook lib value → check_webhook lib value ≡ ok tt
unfolding has_prefix
IsWebhook-check_webhook lib value (encoded, payload, e, d, l) = rw (e, d, l) refl

-- The email-hook Secret is accepted exactly when its value is the prefix of Standard Webhooks and a
-- text that decodes to 32 bytes.
pub validate_email_hook_secret_iff :
    (lib : Library) (secret : Secret)
    → (validate_email_hook_secret lib (some secret) ≡ ok tt)
      ↔ IsWebhook lib (secret_value secret "secret")
unfolding validate_email_hook_secret
validate_email_hook_secret_iff lib secret = (
  check_webhook-IsWebhook lib (secret_value secret "secret"),
  IsWebhook-check_webhook lib (secret_value secret "secret"),
)
