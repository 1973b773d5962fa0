-- ===== src/Secrets/Credentials/Hash.antt =====
-- The text whose hash marks a pod template determines the credentials.
use cloudnative_supabase.Prelude.{
  ◌≡◌, ◌≢◌, refl, String, List, [], ◌∷◌, ◌++◌, arith, length, All, codes,
}
use cloudnative_supabase.Kube.Meta.{Bytes}
use cloudnative_supabase.Crypto.Decimal.{decimal, decimal-injective, decimal-All}
use cloudnative_supabase.Secrets.Credentials.{hash_input}

append_cancel : (xs ys zs : Bytes) → xs ++ ys ≡ xs ++ zs → ys ≡ zs
append_cancel [] ys zs h = h
append_cancel (x ∷ xs) ys zs h = append_cancel xs ys zs (ground arith)

-- Two texts that agree up to a colon, and behind it.
split_colon :
    (xs ys : Bytes) {r t : Bytes}
    → All (λ c. c ≢ b':') xs
    → All (λ c. c ≢ b':') ys
    → xs ++ b':' ∷ r ≡ ys ++ b':' ∷ t
    → (xs ≡ ys) × (r ≡ t)
split_colon [] [] _ _ h = (refl, ground arith)
split_colon [] (y ∷ ys) _ (n, _) h = absurd (ground arith)
split_colon (x ∷ xs) [] (n, _) _ h = absurd (ground arith)
split_colon (x ∷ xs) (y ∷ ys) {r} {t} (_, nx) (_, ny) h =
    let tails : xs ++ b':' ∷ r ≡ ys ++ b':' ∷ t = ground arith in
    let ih : (xs ≡ ys) × (r ≡ t) = split_colon xs ys nx ny tails in (ground arith, ih.1)

split_length :
    (xs ys : Bytes) {r t : Bytes} → length xs ≡ length ys → xs ++ r ≡ ys ++ t → (xs ≡ ys) × (r ≡ t)
split_length [] [] _ h = (refl, h)
split_length [] (y ∷ ys) l h = absurd (omega arith)
split_length (x ∷ xs) [] l h = absurd (omega arith)
split_length (x ∷ xs) (y ∷ ys) {r} {t} l h =
    let tails : xs ++ r ≡ ys ++ t = ground arith in
    let ih : (xs ≡ ys) × (r ≡ t) = split_length xs ys (omega arith) tails in (ground arith, ih.1)

-- The values of a bundle's keys, in order.
abbrev pub keys_of : List (String × Bytes) → List String
keys_of [] = []
keys_of ((key, _) ∷ entries) = key ∷ keys_of entries

-- Two lists of entries with the same keys in the same order write the same text only if they are
-- equal.
pub hash_input-injective :
    (entries others : List (String × Bytes))
    → keys_of entries ≡ keys_of others
    → hash_input entries ≡ hash_input others
    → entries ≡ others
unfolding hash_input
hash_input-injective [] [] _ _ = refl
hash_input-injective [] (_ ∷ _) k h = cc
hash_input-injective (_ ∷ _) [] k h = cc
hash_input-injective ((key, value) ∷ entries) ((key', value') ∷ others) k h =
    let same : key ≡ key' = ground arith in
    let h₁ = append_cancel (codes key) _ _ (rw (← same) at h) in
    let h₂ : decimal (length value) ++ b':' ∷ (value ++ hash_input entries)
        ≡ decimal (length value') ++ b':' ∷ (value' ++ hash_input others) =
      ground arith in
    let (l, h₃) = split_colon _ _ (decimal-All (length value)) (decimal-All (length value')) h₂ in
    let (v, h₄) = split_length value value' (decimal-injective _ _ l) h₃ in
    let rest = hash_input-injective entries others (ground arith) h₄ in cc
