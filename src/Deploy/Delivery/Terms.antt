-- ===== src/Deploy/Delivery/Terms.antt =====
-- What a delivery is asked for before it starts a deploy, apart from the handler: Webhook in api/internal/server/handler/webhooks.go.
use vac.Webhook.Trigger.{parse_ref, kind_push, kind_tag}
use mathlib.Core.Option.{some-injective}
use vac.Deploy.Status.{DeploymentStatus, queued, cloning, building, deploying, health_checking}
use vac.Deploy.Table.{has_active_deployment}
use vac.Webhook.Verify.{git_ref_ok, ref_start, Headers}
use vac.Deploy.Schema.{Db, in_flight, Deployment}
use vac.Webhook.Trigger.{DeployTrigger}
use mathlib.Core.Bool.{false≢true}
use vac.Webhook.Verify.Sound.{IsSigned}
use vac.Webhook.Trigger.First.{IsFirst}
use vac.Prelude.{
  List, ℕ, Option, Text, Bool, ◌≡◌, some, inr, ◌∷◌, [], true, arith, false, inl, ◌∙◌, &&-eq-true,
  All, any, ◌≤◌, In, not, not-eq-true, ◌⊎◌, none, sym, ◌||◌, refl, ◌==◌, any_intro, ◌&&◌, &&-true,
  is_some, ||-elim, ||-eq-false, texts_eq, ascii, strip_prefix, ◌++◌, ◌≢◌, ==_refl, Bool-cases, ap,
}

-- The sender knows the secret: a GitHub signature of the body, or where there is none, GitLab's or the own
-- token, neither empty.
abbrev pub IsAuthentic : (Text → Text → Text) → (secret body : Text) → Headers → Type 0
IsAuthentic hmac secret body h =
    IsSigned hmac secret body h.hub_signature
    ⊎ ((h.hub_signature ≡ [])
        × (texts_eq secret [] ≡ false)
        × ((h.gitlab_token ≡ secret) ⊎ ((h.gitlab_token ≡ []) × (h.vac_token ≡ secret))))

-- A letter, a digit, a dot, an underscore or a slash.
abbrev pub IsRefByte : ℕ → Type 0
IsRefByte c =
    ((b'A' ≤ c) × (c ≤ b'Z'))
    ⊎ (((b'a' ≤ c) × (c ≤ b'z'))
        ⊎ (((b'0' ≤ c) × (c ≤ b'9')) ⊎ ((c ≡ b'.') ⊎ ((c ≡ b'_') ⊎ (c ≡ b'/')))))

-- The accepted refs: such bytes, and hyphens behind the first.
abbrev pub IsRef : Text → Type 0
IsRef [] = ⊥
IsRef (c ∷ cs) = IsRefByte c × All (λ d. IsRefByte d ⊎ (d ≡ b'-')) cs

ref_byte : (c : ℕ) → ref_start c ≡ true → IsRefByte c
ref_byte c h = ground arith

ref_rest : (d : ℕ) → (ref_start d || d == b'-') ≡ true → IsRefByte d ⊎ (d ≡ b'-')
ref_rest d = ||-elim (ref_start d) (d == b'-') (λ y. inl (ref_byte d y)) (λ h. inr (ground arith))

pub undo_double : (b : Bool) → not b ≡ false → b ≡ true
undo_double true h = refl
undo_double false h = absurd cc

ref_bytes :
    (cs : Text)
    → any (λ d. not (ref_start d || d == b'-')) cs ≡ false
    → All (λ d. IsRefByte d ⊎ (d ≡ b'-')) cs
ref_bytes [] h = tt
ref_bytes (d ∷ ds) h =
    let both = ||-eq-false (not (ref_start d || d == b'-')) _ h in
    (ref_rest d (undo_double (ref_start d || d == b'-') both.0), ref_bytes ds both.1)

pub git_ref_ok_sound : (name : Text) → git_ref_ok name ≡ true → IsRef name
git_ref_ok_sound [] h = absurd cc
git_ref_ok_sound (c ∷ cs) h =
    let both = &&-eq-true (ref_start c) _ h in
    (ref_byte c both.0, ref_bytes cs (not-eq-true _ both.1))

-- A deployment that a worker has or is to get.
abbrev pub InFlight : DeploymentStatus → Type 0
InFlight queued = Unit {0}
InFlight cloning = Unit {0}
InFlight building = Unit {0}
InFlight deploying = Unit {0}
InFlight health_checking = Unit {0}
InFlight _ = ⊥

InFlight-in_flight : (status : DeploymentStatus) → InFlight status → in_flight status ≡ true
unfolding in_flight
InFlight-in_flight queued i = refl
InFlight-in_flight cloning i = refl
InFlight-in_flight building i = refl
InFlight-in_flight deploying i = refl
InFlight-in_flight health_checking i = refl
InFlight-in_flight status i = absurd i

pub idle_rows :
    (app_id : ℕ) (db : Db)
    → has_active_deployment app_id db ≡ false
    → (d : Deployment) → In d db.rows
    → d.app_id ≡ app_id
    → ¬ InFlight d.status
unfolding has_active_deployment
idle_rows app_id db h d i mine = λ flying. false≢true (
    sym h
    ∙ any_intro (λ e. e.app_id == app_id && in_flight e.status) db.rows i
        (&&-true (ground arith) (InFlight-in_flight d.status flying)))

-- The rule that counts is the first for the event, where one is for it.
pub IsFirst-rule :
    (ts : List DeployTrigger) (kind name : Text) (found : Option DeployTrigger)
    → IsFirst ts kind name found
    → is_some found ≡ true
    → elim found [ none ↦ false | some t ↦ t.require_approval ] ≡ false
    → (t : DeployTrigger) × (IsFirst ts kind name (some t) × (t.require_approval ≡ false))
IsFirst-rule ts kind name none first matched free = absurd cc
IsFirst-rule ts kind name (some t) first matched free = (t, (first, free))

-- What a ref stands for: a branch below refs/heads/, a tag below refs/tags/, and else a branch of its own name.
pub data IsEvent (ref : Text) : (kind name : Text) → Type 0 where
  branch : (name : Text) → ref ≡ ascii "refs/heads/" ++ name → IsEvent ref (ascii "push") name
  tag : (name : Text) → ref ≡ ascii "refs/tags/" ++ name → IsEvent ref (ascii "tag") name
  bare :
      ((name : Text) → ref ≢ ascii "refs/heads/" ++ name)
      → ((name : Text) → ref ≢ ascii "refs/tags/" ++ name)
      → IsEvent ref (ascii "push") ref

strip_prefix_sound : (p s rest : Text) → strip_prefix p s ≡ some rest → s ≡ p ++ rest
unfolding strip_prefix
strip_prefix_sound [] s rest h = some-injective s rest h
strip_prefix_sound (c ∷ cs) [] rest h = absurd cc
strip_prefix_sound (c ∷ cs) (d ∷ ds) rest h = elim (Bool-cases (d == c)) [
  | inl y ↦
      let later = strip_prefix_sound cs ds rest (rw y at h) in
      let here : d ≡ c = ground arith in rw (here, later) refl
  | inr n ↦ absurd (ground (arith, n, h))
]

strip_prefix-append : (p rest : Text) → strip_prefix p (p ++ rest) ≡ some rest
unfolding strip_prefix
strip_prefix-append [] rest = refl
strip_prefix-append (c ∷ cs) rest = rw (==_refl c) (strip_prefix-append cs rest)

nothing-absurd : (x : Text) → none ≡ some x → ⊥
nothing-absurd x h = cc

unprefixed : (p s : Text) → strip_prefix p s ≡ none → (rest : Text) → s ≢ p ++ rest
unprefixed p s h rest e =
    nothing-absurd rest (sym h ∙ (ap (strip_prefix p) e ∙ strip_prefix-append p rest))

abbrev parts : (ref : Text) → (head tail : Option Text) → Text × Text
parts ref head tail = elim head [
  | some name ↦ (kind_push, name)
  | none ↦ elim tail [ some name ↦ (kind_tag, name) | none ↦ (kind_push, ref) ]
]

parts-IsEvent :
    (ref : Text) (head tail : Option Text)
    → strip_prefix (ascii "refs/heads/") ref ≡ head
    → strip_prefix (ascii "refs/tags/") ref ≡ tail
    → IsEvent ref (parts ref head tail).0 (parts ref head tail).1
parts-IsEvent ref (some name) tail h t =
    branch name (strip_prefix_sound (ascii "refs/heads/") ref name h)
parts-IsEvent ref none (some name) h t =
    tag name (strip_prefix_sound (ascii "refs/tags/") ref name t)
parts-IsEvent ref none none h t =
    bare (unprefixed (ascii "refs/heads/") ref h) (unprefixed (ascii "refs/tags/") ref t)

pub parse_ref-IsEvent : (ref : Text) → IsEvent ref (parse_ref ref).0 (parse_ref ref).1
unfolding parse_ref
parse_ref-IsEvent ref =
    parts-IsEvent ref (strip_prefix (ascii "refs/heads/") ref)
      (strip_prefix (ascii "refs/tags/") ref) refl refl
