-- ===== src/DomainStatus/Tests.antt =====
-- A host that points at the box and serves a trusted certificate.
use vac.Compose.Strings.{to_lower}
use vac.Prelude.{Text, ascii, some, [], ◌∷◌, ◌≡◌, none, true, ◌↔◌, refl}
use vac.DomainStatus.{
  Net, Engine, Status, refresh, push_error_of, reconcile, set_error, get_status, state_checking,
  state_active, state_error,
}
use vac.DomainStatus.Active.{refresh-Serves, Serves}

abbrev box : Text
box = ascii "203.0.113.7"

abbrev net : Net
net = record {
  lookup_host = λ h. some (box ∷ []);
  lookup_cname = λ h. none;
  etld1 = λ h. some (ascii "shop.example");
  cert_probe = some (λ h. some (record { not_after = 900; trusted = true }));
}

abbrev engine : Engine
engine = record {
  entries =
      (
        ascii "shop.example",
        record { state = state_checking; cert_not_after = none; last_checked = none },
      )
      ∷ [];
  push_err = [];
}

pushed :
    get_status (ascii "shop.example") (set_error (ascii "Shop.Example") (ascii "refused") engine)
    ≡ some (record { state = state_error; cert_not_after = none; last_checked = none })
unfolding get_status set_error
pushed = refl

reconciled :
    get_status
      (ascii "shop.example")
      (reconcile net box 30 300 60 (some (ascii "SHOP.example" ∷ [])) engine)
    ≡ some (record { state = state_active; cert_not_after = some 900; last_checked = some 60 })
unfolding get_status reconcile
reconciled = refl

evicted : get_status (ascii "shop.example") (reconcile net box 30 300 60 (some []) engine) ≡ none
unfolding get_status reconcile
evicted = refl

refresh-Serves_example :
    (answer : Status) × (((refresh net box 15 60 (ascii "Shop.example") engine).0 ≡ some answer)
      × ((answer.state ≡ state_active) ↔ (
          (push_error_of (to_lower (ascii "Shop.example")) engine ≡ [])
          × Serves net box 60 (to_lower (ascii "Shop.example")))))
refresh-Serves_example =
    refresh-Serves net box 15 60 (ascii "Shop.example") engine
      (record { state = state_checking; cert_not_after = none; last_checked = none }) refl refl
