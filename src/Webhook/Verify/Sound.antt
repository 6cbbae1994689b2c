-- ===== src/Webhook/Verify/Sound.antt =====
-- What Verify of api/internal/webhook/webhook.go accepts.
use vac.Webhook.Verify.{verify, Headers, verify_github, sha256_prefix, hex_decode}
use vac.Prelude.{
  Text, strip_prefix, ◌≡◌, some, true, Option-cases, ◌⊎◌, [], inl, arith, texts_eq, false, inr,
  Bool-cases, texts_eq_sound, subst, ◌∙◌, ap,
}

-- The signature header holds, in hexadecimal, the MAC of the body under the secret.
abbrev pub IsSigned : (Text → Text → Text) → (secret body sig : Text) → Type 0
IsSigned hmac secret body sig =
    (hex : Text) × (strip_prefix sha256_prefix sig ≡ some hex)
    × (hex_decode hex ≡ some (hmac secret body))

signed :
    (hmac : Text → Text → Text) (secret body sig : Text)
    → verify_github hmac secret body sig ≡ true
    → IsSigned hmac secret body sig
signed hmac secret body sig h = elim (Option-cases (strip_prefix sha256_prefix sig)) [
  | inl unprefixed ↦ absurd (ground arith)
  | inr (hex, prefixed) ↦ elim (Option-cases (hex_decode hex)) [
    | inl undecoded ↦ absurd (ground arith)
    | inr (want, decoded) ↦
        let same : want ≡ hmac secret body =
          texts_eq_sound want (hmac secret body) (ground arith) in
        (hex, prefixed, decoded ∙ ap some same)
  ]
]

-- An accepted delivery proves that the sender knows the secret: either it has a GitHub signature
-- header, which is then all that counts and is the MAC of the body; or it has none, and a token in
-- GitLab's or VAC's own header that is not empty and is the secret.
pub verify_sound :
    (hmac : Text → Text → Text) (secret body : Text) (h : Headers)
    → verify hmac secret body h ≡ true
    → IsSigned hmac secret body h.hub_signature
      ⊎ ((h.hub_signature ≡ [])
          × (texts_eq secret [] ≡ false)
          × ((h.gitlab_token ≡ secret) ⊎ ((h.gitlab_token ≡ []) × (h.vac_token ≡ secret))))
unfolding verify
verify_sound hmac secret body h v = elim (Bool-cases (texts_eq h.hub_signature [])) [
  | inr present ↦ inl (signed hmac secret body h.hub_signature (ground arith))
  | inl no_signature ↦ elim (Bool-cases (texts_eq h.gitlab_token [])) [
    | inr present ↦
        let same : h.gitlab_token ≡ secret = texts_eq_sound h.gitlab_token secret (ground arith) in
        inr (
          texts_eq_sound h.hub_signature [] no_signature,
          subst (λ t. texts_eq t [] ≡ false) same present,
          inl same,
        )
    | inl no_token ↦
        let same : h.vac_token ≡ secret = texts_eq_sound h.vac_token secret (ground arith) in
        let full : texts_eq h.vac_token [] ≡ false = ground arith in
        inr (
          texts_eq_sound h.hub_signature [] no_signature,
          subst (λ t. texts_eq t [] ≡ false) same full,
          inr (texts_eq_sound h.gitlab_token [] no_token, same),
        )
  ]
]
