-- ===== src/Secrets/Generation/Laws.antt =====
-- The Secrets that the operator generates, against its own validation: internal/resources/secrets.
use cloudnative_supabase.Prelude.{
  ℕ, ◌=ℕ=◌, ◌≡◌, refl, subst, String, [], ◌∷◌, ◌++◌, Result, ok, err, length, codes, some, wrap,
  has_prefix,
}
use cloudnative_supabase.Prelude.Effects.{
  Effect, lift, rescue, resume, wrap_error, bind_run, if_run, lift_run, error_run,
}
use cloudnative_supabase.Prelude.Maps.{lookup}
use cloudnative_supabase.Kube.Meta.{Bytes}
use cloudnative_supabase.Kube.Core.{Secret}
use cloudnative_supabase.Api.Project.{SupabaseProject}
use cloudnative_supabase.Common.Names.{email_hook_secret_name}
use cloudnative_supabase.Crypto.Library.{Library}
use cloudnative_supabase.Crypto.Random.{
  Read, RandomSource, read_bytes, generate_base64, generate_webhook_secret,
}
use cloudnative_supabase.Secrets.Implementation.{validate_email_hook_secret}
use cloudnative_supabase.Secrets.Credentials.{secret_value}
use cloudnative_supabase.Secrets.Generation.{Generated, opaque_secret, generate_email_hook_secret}

ok_injective : {A : Type 0} {a b : A} → Result.ok a ≡ ok b → a ≡ b
ok_injective h = cc

-- The Secret of the hook with the given value.
abbrev hook : SupabaseProject → Bytes → Secret
hook project value =
    opaque_secret project (email_hook_secret_name project) "email-hook" (("secret", value) ∷ []) []

wrapped_run :
    {W A : Type 0} (prefix : String) (outcome : Result A × W) {a : A} {after : W}
    → resume outcome (λ e. lift (err (wrap prefix e))) ≡ (ok a, after)
    → outcome ≡ (ok a, after)
unfolding lift
wrapped_run prefix (ok a, s) h = h
wrapped_run prefix (err e, s) h = cc

module _ {W : Type 0} (source : RandomSource W) where
  -- `rand.Read`: a count of `n` says that `n` bytes were written.
  abbrev pub Fills : Type 0
  Fills =
      (n : ℕ) (before after : W) (read : Read)
      → source.read n before ≡ (ok read, after)
      → length read.buffer ≡ n

  read_bytes_run :
      Fills
      → (n : ℕ) (before after : W) (bytes : Bytes) → read_bytes source n before ≡ (ok bytes, after)
      → length bytes ≡ n
  unfolding read_bytes
  read_bytes_run fills n before after bytes h = bind_run _ _ h λ read s f g.
      if_run (read.count =ℕ= n) _ _ g
        (λ t k.
          subst (λ b. length b ≡ n) (ok_injective ((lift_run _ k).0)) (fills n before s read f))
        (λ t k. error_run _ _ k)

  wrap_run :
      {A : Type 0} (prefix : String) (m : Effect W A) {a : A} {before after : W}
      → wrap_error prefix m before ≡ (ok a, after)
      → m before ≡ (ok a, after)
  unfolding rescue
  wrap_run prefix m {before} h = wrapped_run prefix (m before) h

  accepts :
      (lib : Library) (project : SupabaseProject) (bytes : Bytes)
      → lib.std_decode (source.std_encode bytes) ≡ ok bytes
      → length bytes ≡ 32
      → validate_email_hook_secret lib
          (some (hook project (codes "v1,whsec_" ++ source.std_encode bytes)))
        ≡ ok tt
  unfolding validate_email_hook_secret secret_value has_prefix lookup
  accepts lib project bytes e l = rw (e, l) refl

  -- The email-hook Secret that the operator generates, if the generation succeeds, has the name of the
  -- project's email-hook Secret and is accepted by the operator's validation, provided that the
  -- random source fills its buffers and that base64 decodes what it has encoded.
  pub generate-validate_email_hook_secret :
      (lib : Library)
      → Fills
      → ((bytes : Bytes) → lib.std_decode (source.std_encode bytes) ≡ ok bytes)
      → (project : SupabaseProject) (before after : W) (generated : Generated)
      → generate_email_hook_secret source project before ≡ (ok generated, after)
      → (generated.secret.meta.name ≡ email_hook_secret_name project)
        × (validate_email_hook_secret lib (some generated.secret) ≡ ok tt)
  unfolding generate_email_hook_secret generate_webhook_secret generate_base64
  generate-validate_email_hook_secret lib fills decodes project before after generated h =
      bind_run _ _ h λ value s1 e1 g1. bind_run _ _ (wrap_run _ _ e1) λ secret s2 e2 g2.
        bind_run _ _ e2 λ bytes s3 e3 g3.
          let encoded = ok_injective ((lift_run _ g3).0) in
          let prefixed = ok_injective ((lift_run _ g2).0) in
          subst
            (λ g.
              (g.secret.meta.name ≡ email_hook_secret_name project)
              × (validate_email_hook_secret lib (some g.secret) ≡ ok tt))
            (ok_injective ((lift_run _ g1).0))
            (
              refl,
              subst (λ v. validate_email_hook_secret lib (some (hook project v)) ≡ ok tt) prefixed
                  (subst
                    (λ v.
                      validate_email_hook_secret lib (some (hook project (codes "v1,whsec_" ++ v)))
                      ≡ ok tt)
                    encoded
                    (accepts lib project bytes (decodes bytes)
                      (read_bytes_run fills 32 _ _ bytes e3))),
            )
