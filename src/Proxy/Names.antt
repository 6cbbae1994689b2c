-- ===== src/Proxy/Names.antt =====
-- api/internal/proxy/network.go, the names that VAC gives to routes and containers, and AutoSubdomain
-- of hostname.go.
use vac.Compose.Strings.{has_prefix}
use vac.Prelude.{Text, Bool, ascii, [], ◌∷◌, ◌++◌, ◌||◌, if◌then◌else◌}

unfoldable pub alias : (slug service : Text) → Text
alias slug service = slug ++ (ascii "--" ++ service)

unfoldable pub route_id : Text → Text
route_id domain_id = ascii "vac-route-" ++ domain_id

unfoldable pub auto_route_id : (app_id service : Text) → Text
auto_route_id app_id service = ascii "vac-auto-" ++ (app_id ++ (ascii "-" ++ service))

abbrev pub control_route_id : Text
control_route_id = ascii "vac-control-route"

unfoldable pub is_managed_route_id : Text → Bool
is_managed_route_id id = has_prefix id (ascii "vac-route-") || has_prefix id (ascii "vac-auto-")

unfoldable pub auto_subdomain : (slug service base : Text) → (multi : Bool) → Text
auto_subdomain slug service [] multi = []
auto_subdomain slug service (b ∷ bs) multi =
    if multi
    then service ++ (ascii "." ++ (slug ++ (ascii "." ++ (b ∷ bs))))
    else slug ++ (ascii "." ++ (b ∷ bs))
