-- ===== src/Webhook/Trigger.antt =====
-- api/internal/webhook/webhook.go without the signatures: refs, trigger rules and branch deletes. A
-- text is its characters. globMatch compiles a regular expression; `glob_match` is what Go's regexp
-- package matches by it: `.` is any character but a newline, and ^ and $ hold at the ends only.
pub mod Glob
pub mod First
mod Tests
use vac.Prelude.{
  List, Text, ℕ, Bool, Option, strip_prefix, ◌∷◌, [], false, if◌then◌else◌, none, ◌||◌, some, not,
  true, ◌==◌, any, texts_eq, ◌&&◌,
}

-- store.DeployTrigger
pub record DeployTrigger : Type 0 where
  pub id : ℕ
  pub app_id : ℕ
  pub event : Text
  pub filter : Text
  pub require_approval : Bool
  pub created_at : ℕ

abbrev pub kind_push : Text
kind_push = b'p' ∷ b'u' ∷ b's' ∷ b'h' ∷ []

abbrev pub kind_tag : Text
kind_tag = b't' ∷ b'a' ∷ b'g' ∷ []

abbrev pub kind_preview : Text
kind_preview = b'p' ∷ b'r' ∷ b'e' ∷ b'v' ∷ b'i' ∷ b'e' ∷ b'w' ∷ []

abbrev pub heads : Text
heads = b'r' ∷ b'e' ∷ b'f' ∷ b's' ∷ b'/' ∷ b'h' ∷ b'e' ∷ b'a' ∷ b'd' ∷ b's' ∷ b'/' ∷ []

abbrev pub tags : Text
tags = b'r' ∷ b'e' ∷ b'f' ∷ b's' ∷ b'/' ∷ b't' ∷ b'a' ∷ b'g' ∷ b's' ∷ b'/' ∷ []

unfoldable pub parse_ref : Text → Text × Text
parse_ref ref = elim (strip_prefix heads ref) [
  | some name ↦ (kind_push, name)
  | none ↦ elim (strip_prefix tags ref) [ some name ↦ (kind_tag, name) | none ↦ (kind_push, ref) ]
]

-- `.*` in front of what the rest of the pattern matches.
abbrev pub star : (Text → Bool) → Text → Bool
star rest [] = rest []
star rest (c ∷ cs) = rest (c ∷ cs) || (not (c == 10) && star rest cs)

unfoldable pub glob_match : Text → Text → Bool
glob_match [] [] = true
glob_match [] (c ∷ cs) = false
glob_match (p ∷ ps) [] = p == b'*' && star (glob_match ps) []
glob_match (p ∷ ps) (c ∷ cs) =
    if p == b'*'
    then star (glob_match ps) (c ∷ cs)
    else if p == b'?'
    then not (c == 10) && glob_match ps cs
    else c == p && glob_match ps cs

-- The test of both loops: the rule's event is the kind and its filter matches the name.
abbrev pub fires : (kind name : Text) → DeployTrigger → Bool
fires kind name t =
    if not (texts_eq t.event kind) then false else texts_eq t.filter [] || glob_match t.filter name

unfoldable pub match_triggers : List DeployTrigger → (kind name : Text) → Bool
match_triggers [] kind name = false
match_triggers (t ∷ ts) kind name = if fires kind name t then true else match_triggers ts kind name

unfoldable pub matching_trigger : List DeployTrigger → (kind name : Text) → Option DeployTrigger
matching_trigger [] kind name = none
matching_trigger (t ∷ ts) kind name =
    if fires kind name t then some t else matching_trigger ts kind name

-- isAllZeroSHA
abbrev pub is_all_zero_sha : Text → Bool
is_all_zero_sha [] = false
is_all_zero_sha (c ∷ cs) = not (any (λ d. not (d == b'0')) (c ∷ cs))

-- IsBranchDelete, from what the JSON decoder makes of a body: its fields after and deleted.
unfoldable pub is_branch_delete : (List ℕ → Option (Text × Bool)) → List ℕ → Bool
is_branch_delete decode [] = false
is_branch_delete decode (c ∷ cs) = elim (decode (c ∷ cs)) [
  | none ↦ false
  | some (after, deleted) ↦ if deleted then true else is_all_zero_sha after
]

-- ExtractRef, from the ref field that the decoder finds in a body and the query parameter.
abbrev pub body_ref : (List ℕ → Text) → List ℕ → Text
body_ref decode [] = []
body_ref decode (c ∷ cs) = decode (c ∷ cs)

unfoldable pub extract_ref : (List ℕ → Text) → List ℕ → (query : Text) → Option Text
extract_ref decode body query =
    if not (texts_eq (body_ref decode body) [])
    then some (body_ref decode body)
    else if not (texts_eq query [])
    then some query
    else none
