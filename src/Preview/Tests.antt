-- ===== src/Preview/Tests.antt =====
-- A box with one app, and with one preview of it.
use vac.Deploy.Status.{queued}
use vac.Deploy.Table.{
  fresh, has_active_deployment, create_deployment, active_deployment_ids_for_app,
}
use vac.Compose.Strings.{trim_right, to_lower}
use vac.Deploy.Worker.{Worker, enqueue, cancel}
use vac.Prelude.{
  List, ascii, true, ℕ, ◌≡◌, ◌≤◌, [], arith, inr, none, some, ◌∷◌, refl, false, inl, ◌⊎◌, length,
  Text, ◌++◌, All,
}
use vac.Deploy.Schema.{Db, Deployment, insert_row, in_flight, holds_lane, ok}
use vac.Preview.{
  cap_reached, PreviewApp, Box, count_previews, get_app, route_reconcile, route_teardown,
  compose_down, get_preview_by_parent_and_branch, list_expired_previews, touch_preview_push,
  create_preview_app, delete_app,
}
use vac.Preview.Service.{
  done, Settings, ensure_preview, teardown, teardown_by_branch, sweep_once, enqueue_preview,
  queue_full,
}
use vac.Preview.Slug.{derive_slug, slugify, slug_chars, fitted}
use vac.Preview.Valid.{derive_slug_valid}
use vac.Preview.Calm.{IsSlug, IsAlnum, letter, last}
use vac.Preview.Runs.{Operation, ensure, remove, branch_deleted, tick, run_operations}
use vac.Preview.Cap.{run-count_previews}
use vac.Preview.Spared.{IsSpared, run-IsSpared}
use vac.Preview.Full.{ensure-strands, queued_only}

shop-IsSlug : IsSlug (ascii "shop")
shop-IsSlug = letter _ _ (inl (ground arith, ground arith)) (
    letter _ _ (inl (ground arith, ground arith))
      (letter _ _ (inl (ground arith, ground arith)) (last _ (inl (ground arith, ground arith)))))

derive_slug_feature :
    derive_slug (ascii "shop") (ascii "Feature/Login_Page!") ≡ ascii "shop-feature-login-page"
unfolding derive_slug slugify slug_chars fitted trim_right
derive_slug_feature = refl

derive_slug_valid_example :
    ((derive_slug (ascii "shop") (ascii "Fix/#7") ≡ [])
      × (All (λ c. ¬ IsAlnum c) (to_lower (ascii "Fix/#7")) ⊎ (62 ≤ length (ascii "shop"))))
    ⊎ ((rest : Text) × (derive_slug (ascii "shop") (ascii "Fix/#7") ≡ ascii "shop" ++ b'-' ∷ rest)
        × IsSlug (derive_slug (ascii "shop") (ascii "Fix/#7"))
        × (length (derive_slug (ascii "shop") (ascii "Fix/#7")) ≤ 63))
derive_slug_valid_example = derive_slug_valid (ascii "shop") (ascii "Fix/#7") shop-IsSlug

abbrev shop : PreviewApp
shop = record {
  id = 1;
  slug = ascii "shop";
  git_branch = ascii "main";
  parent_app_id = none;
  is_preview = false;
  last_preview_push_at = none;
}

abbrev login : PreviewApp
login = record {
  id = 2;
  slug = ascii "shop-login";
  git_branch = ascii "login";
  parent_app_id = some 1;
  is_preview = true;
  last_preview_push_at = some 10;
}

abbrev pool : (capacity : ℕ) → Worker
pool capacity = record {
  queue = [];
  capacity = capacity;
  concurrency = 1;
  busy = 0;
  inflight = [];
  published = 0;
}

abbrev box : (capacity : ℕ) → Box
box capacity = record {
  apps = login ∷ shop ∷ [];
  env = [];
  db = record {
    apps = (record { id = 1; deploy_window = [] }) ∷ (record { id = 2; deploy_window = [] }) ∷ [];
    rows = [];
  };
  worker = pool capacity;
  calls = [];
}

abbrev settings : Settings
settings = record {
  max_previews = 2;
  ttl = 60;
  has_canceller = true;
  has_controller = true;
  has_router = true;
  has_notifier = true;
}

abbrev day : List Operation
day =
    ensure 3 30 20 1 (ascii "Cart")
    ∷ ensure 4 40 30 1 (ascii "pay")
    ∷ branch_deleted 1 (ascii "Cart")
    ∷ remove 1
    ∷ tick 100
    ∷ []

-- The second branch of the day is over the cap, the app itself is no preview, and login expires.
day_calls :
    (run_operations settings day (box 4)).calls
    ≡ route_reconcile
      ∷ route_teardown 2
      ∷ compose_down (ascii "shop-login")
      ∷ route_reconcile
      ∷ route_teardown 3
      ∷ compose_down (ascii "shop-cart")
      ∷ cap_reached 1 (ascii "pay")
      ∷ []
unfolding run_operations ensure_preview enqueue_preview teardown teardown_by_branch sweep_once
    get_app get_preview_by_parent_and_branch count_previews list_expired_previews touch_preview_push
    create_preview_app delete_app derive_slug slugify slug_chars fitted trim_right
    has_active_deployment create_deployment insert_row enqueue active_deployment_ids_for_app cancel
    holds_lane
day_calls = refl

run-count_previews_example : count_previews (run_operations settings day (box 4)) ≤ 2
unfolding count_previews
run-count_previews_example = run-count_previews settings 2 day (box 4) (ground arith) (ground arith)

box-IsSpared : (capacity : ℕ) → IsSpared shop (box capacity)
box-IsSpared capacity = record {
  listed = inr (inl refl);
  rootless = refl;
  distinct = (λ y. (λ e. absurd cc, λ e. absurd cc), (λ y. absurd cc, tt));
  standing = tt;
}

run-IsSpared_example : IsSpared shop (run_operations settings day (box 4))
run-IsSpared_example = run-IsSpared settings shop day (box 4) (box-IsSpared 4)

abbrev new_row : Deployment
new_row = fresh 30 2 20 queued "preview" none

abbrev new_table : Db
new_table = record (box 0).db { rows = new_row ∷ [] }

ensure-strands_example :
    (ensure_preview settings 3 30 20 1 (ascii "login") (box 0)
      ≡ (queued_only 20 2 new_table (box 0), queue_full))
    × ((id' d' now' : ℕ)
        → ensure_preview settings id' d' now' 1 (ascii "login") (queued_only 20 2 new_table (box 0))
          ≡ (touch_preview_push now' 2 (queued_only 20 2 new_table (box 0)), done))
unfolding get_app get_preview_by_parent_and_branch has_active_deployment create_deployment
    insert_row enqueue in_flight holds_lane
ensure-strands_example =
    ensure-strands settings 3 30 20 1 (ascii "login") (box 0) shop login (new_row, new_table) refl
      refl refl refl refl

-- Deleting the app takes its preview along.
cascade_empty :
    delete_app 1 (box 4) ≡ ok (record (box 4) { apps = []; db = record { apps = []; rows = [] } })
unfolding delete_app
cascade_empty = refl
