-- ===== src/Webhook/Verify/Tests.antt =====
-- Signatures with a MAC that is the secret followed by the body.
use vac.Webhook.Verify.Sound.{IsSigned, verify_sound}
use vac.Prelude.{Text, ◌++◌, strip_prefix, ◌∷◌, [], ◌⊎◌, ◌≡◌, texts_eq, false, refl}
use vac.Webhook.Verify.{Headers, verify, sha256_prefix, hex_decode}

abbrev joined : Text → Text → Text
joined secret body = secret ++ body

-- The secret is the byte 0x1f, the body the byte 0xa0.
abbrev signature : Headers
signature = record {
  hub_signature = sha256_prefix ++ b'1' ∷ b'f' ∷ b'A' ∷ b'0' ∷ [];
  gitlab_token = [];
  vac_token = [];
}

verify_sound_example :
    IsSigned joined (31 ∷ []) (160 ∷ []) signature.hub_signature
    ⊎ ((signature.hub_signature ≡ [])
        × (texts_eq (31 ∷ []) [] ≡ false)
        × ((signature.gitlab_token ≡ 31 ∷ [])
            ⊎ ((signature.gitlab_token ≡ []) × (signature.vac_token ≡ 31 ∷ []))))
unfolding verify strip_prefix hex_decode
verify_sound_example = verify_sound joined (31 ∷ []) (160 ∷ []) signature refl
