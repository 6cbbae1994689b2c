-- ===== src/Webhook/Trigger/Tests.antt =====
-- A rule list with a filter that needs approval ahead of one that takes any branch.
use vac.Webhook.Trigger.Glob.{Matches, glob_match-Matches}
use vac.Webhook.Trigger.{
  glob_match, is_branch_delete, parse_ref, DeployTrigger, kind_push, matching_trigger, tags,
  match_triggers, kind_tag,
}
use vac.Prelude.{
  List, Text, some, strip_prefix, ◌∷◌, ◌≡◌, [], true, ◌++◌, false, ◌↔◌, refl, is_some,
}
use vac.Webhook.Trigger.First.{IsFirst, matching_trigger-IsFirst}

-- "release/*", "release/1/2" and "main"
abbrev release : Text
release = b'r' ∷ b'e' ∷ b'l' ∷ b'/' ∷ b'*' ∷ []

abbrev release_name : Text
release_name = b'r' ∷ b'e' ∷ b'l' ∷ b'/' ∷ b'1' ∷ b'/' ∷ b'2' ∷ []

abbrev main_name : Text
main_name = b'm' ∷ b'a' ∷ b'i' ∷ b'n' ∷ []

abbrev rules : List DeployTrigger
rules =
    record {
      id = 1;
      app_id = 1;
      event = kind_push;
      filter = release;
      require_approval = true;
      created_at = 1;
    }
    ∷ record {
      id = 2;
      app_id = 1;
      event = kind_push;
      filter = [];
      require_approval = false;
      created_at = 2;
    }
    ∷ []

glob_release : glob_match release release_name ≡ true
unfolding glob_match
glob_release = refl

parsed_tag : parse_ref (tags ++ main_name) ≡ (kind_tag, main_name)
unfolding parse_ref strip_prefix
parsed_tag = refl

deleted : is_branch_delete (λ body. some (b'0' ∷ b'0' ∷ [], false)) (1 ∷ []) ≡ true
unfolding is_branch_delete
deleted = refl

glob_match-Matches_example : (glob_match release release_name ≡ true) ↔ Matches release release_name
glob_match-Matches_example = glob_match-Matches release release_name

matching_trigger-IsFirst_example :
    IsFirst rules kind_push release_name (matching_trigger rules kind_push release_name)
    × (match_triggers rules kind_push release_name
        ≡ is_some (matching_trigger rules kind_push release_name))
matching_trigger-IsFirst_example = matching_trigger-IsFirst rules kind_push release_name
