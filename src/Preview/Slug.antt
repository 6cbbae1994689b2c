-- ===== src/Preview/Slug.antt =====
-- DeriveSlug and slugify of api/internal/preview/preview.go. A branch name is a text of ASCII bytes.
use vac.Compose.Strings.{to_lower, trim_right}
use vac.Compose.Preflight.{is_empty}
use vac.Prelude.{
  Text, ℕ, Bool, ◌∷◌, [], ◌++◌, ◌&&◌, ◌||◌, ◌-◌, if◌then◌else◌, leb, ltb, length, take, not, ◌==◌,
  true,
}

abbrev pub is_alnum : ℕ → Bool
is_alnum c = (leb b'a' c && leb c b'z') || (leb b'0' c && leb c b'9')

-- The loop, with its flag.
unfoldable pub slug_chars : (last_hyphen : Bool) → Text → Text
slug_chars last_hyphen [] = []
slug_chars last_hyphen (c ∷ cs) =
    let rest = slug_chars (not (is_alnum c)) cs in
    if is_alnum c then c ∷ rest else if last_hyphen then rest else b'-' ∷ rest

abbrev pub is_hyphen : ℕ → Bool
is_hyphen c = c == b'-'

unfoldable pub slugify : Text → Text
unfolding slug_chars trim_right
slugify name = trim_right is_hyphen (slug_chars true (to_lower name))

-- len(parentSlug) leaves this much, behind the hyphen; 0 is a budget that is not positive.
abbrev pub budget_of : Text → ℕ
budget_of parent_slug = 62 - length parent_slug

unfoldable pub fitted : (budget : ℕ) → Text → Text
unfolding trim_right
fitted budget bs = if ltb budget (length bs) then trim_right is_hyphen (take budget bs) else bs

abbrev pub joined : (parent_slug bs : Text) → Text
joined parent_slug bs = if is_empty bs then [] else parent_slug ++ b'-' ∷ bs

unfoldable pub derive_slug : (parent_slug branch : Text) → Text
unfolding slugify fitted
derive_slug parent_slug branch =
    if is_empty (slugify branch) || budget_of parent_slug == 0
    then []
    else joined parent_slug (fitted (budget_of parent_slug) (slugify branch))
