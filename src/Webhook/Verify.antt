-- ===== src/Webhook/Verify.antt =====
-- Verify of api/internal/webhook/webhook.go, and the charset test gitRefRe of
-- api/internal/server/handler/apps.go. HMAC-SHA256 is the parameter `hmac`; a header that is absent is the
-- empty text.
pub mod Sound
mod Tests
use vac.Prelude.{
  Option, Text, ℕ, Bool, if◌then◌else◌, some, ◌∷◌, ◌*◌, [], false, leb, none, not, strip_prefix,
  ◌&&◌, ◌+◌, texts_eq, ◌-◌, any, ◌||◌, ◌==◌,
}

pub record Headers : Type 0 where
  pub hub_signature : Text
  pub gitlab_token : Text
  pub vac_token : Text

-- hex.DecodeString
abbrev hex_digit : ℕ → Option ℕ
hex_digit c =
    if leb b'0' c && leb c b'9'
    then some (c - b'0')
    else if leb b'a' c && leb c b'f'
    then some (c - b'a' + 10)
    else if leb b'A' c && leb c b'F'
    then some (c - b'A' + 10)
    else none

abbrev hex_byte : Option ℕ → Option ℕ → Option Text → Option Text
hex_byte (some h) (some l) (some rest) = some ((h * 16 + l) ∷ rest)
hex_byte _ _ _ = none

unfoldable pub hex_decode : Text → Option Text
hex_decode [] = some []
hex_decode (h ∷ []) = none
hex_decode (h ∷ l ∷ rest) = hex_byte (hex_digit h) (hex_digit l) (hex_decode rest)

abbrev pub sha256_prefix : Text
sha256_prefix = b's' ∷ b'h' ∷ b'a' ∷ b'2' ∷ b'5' ∷ b'6' ∷ b'=' ∷ []

-- gitRefRe: ^[A-Za-z0-9._/][A-Za-z0-9._/-]*$
abbrev pub ref_start : ℕ → Bool
ref_start c =
    (leb b'A' c && leb c b'Z')
    || (leb b'a' c && leb c b'z')
    || (leb b'0' c && leb c b'9')
    || c == b'.'
    || c == b'_'
    || c == b'/'

abbrev pub git_ref_ok : Text → Bool
git_ref_ok [] = false
git_ref_ok (c ∷ cs) = ref_start c && not (any (λ d. not (ref_start d || d == b'-')) cs)

module _ (hmac : Text → Text → Text) where
  abbrev pub mac_matches : Text → Text → Option Text → Bool
  mac_matches secret body none = false
  mac_matches secret body (some want) = texts_eq want (hmac secret body)

  -- verifyGitHub
  abbrev pub verify_github : (secret body sig : Text) → Bool
  verify_github secret body sig = elim (strip_prefix sha256_prefix sig) [
    | none ↦ false
    | some hex ↦ mac_matches secret body (hex_decode hex)
  ]

  unfoldable pub verify : (secret body : Text) → Headers → Bool
  verify secret body h =
      if not (texts_eq h.hub_signature [])
      then verify_github secret body h.hub_signature
      else if not (texts_eq h.gitlab_token [])
      then texts_eq h.gitlab_token secret
      else not (texts_eq h.vac_token []) && texts_eq h.vac_token secret
