-- ===== src/Rules/Samples.antt =====
-- Rules, events and a world that counts its calls, which the tests share
-- (platform-services/janitor-bot/src/rules).
use inf_k8s.Prelude.{
  ℕ, suc, ◌||◌, refl, String, true, false, List, [], ◌∷◌, none, some, str_eq, ◌==◌,
}
use inf_k8s.Prelude.Int.{pos}
use inf_k8s.Flags.Samples.{Num, numbers}
use inf_k8s.Expr.Lex.{Std, is_ascii_digit, is_ascii_letter}
use inf_k8s.Rules.Types.{LeafMatcher, Matcher, Combinator, Matchers}
use inf_k8s.Rules.Texts.{Library}
use inf_k8s.Rules.Event.{PrEvent, BotEvent, forgejo_pr}
use inf_k8s.Rules.Event.Vars.{Templating}
use inf_k8s.Rules.Schema.{Disabled, ActionDef, ActionGroup, RuleDef}
use inf_k8s.Rules.Clients.{opened, ApiPullRequest, Clients, Outside, new_cache, Session}

abbrev pub ascii_only : Std
unfolding is_ascii_digit is_ascii_letter
ascii_only = record {
  is_alphanumeric = λ c. is_ascii_digit c || is_ascii_letter c;
  parse_f64 = λ _. none;
  ascii = λ c _. refl;
}

abbrev library : Library
library = record {
  to_lowercase = λ s. s;
  glob = λ p. some (λ path. str_eq p path);
  empty_glob = λ path. str_eq "" path;
  glob-empty = refl;
}

abbrev pub templating : Templating Num
templating = record {
  metadata_capture = λ _. none;
  parse_object = λ _. none;
  json_text = λ _. "";
  object_text = λ _. "{}";
  from_u64 = λ n. Num.int (pos n);
  walk = λ vars. vars;
}

abbrev pub api_pr : ApiPullRequest
api_pr = record {
  number = some (pos 7);
  user_login = some "renovate";
  body = none;
  state = some opened;
  merged = some false;
  mergeable = some true;
  head_sha = some "abcdef0123";
  created_at = some (pos 5);
}

-- Each call counts; flags are on for the rule "first" only.
abbrev clients : Clients ℕ
clients = record {
  get_pr = λ _ _ _ n. (some api_pr, suc n);
  get_pr_changed_files = λ _ _ _ n. (some ("a.yaml" ∷ []), suc n);
  is_pr_approved_by_bot = λ _ _ _ n. (false, suc n);
  find_bot_comment = λ _ _ _ _ n. (none, suc n);
  get_combined_status_by_ref = λ _ _ _ n. (none, suc n);
  list_open_prs = λ _ _ n. (some [], suc n);
  get_raw_file = λ _ _ _ _ n. (none, suc n);
  committed_at = λ _ _ n. (none, suc n);
  check_app_changed_in_commit = λ _ _ _ n. (true, suc n);
  bool_flag = λ _ rule _ _ n. (str_eq rule "first", suc n);
}

abbrev pub outside : Outside ℕ Num ℕ
outside = record {
  clients = clients;
  library = library;
  templating = templating;
  numbers = numbers;
  chrono = record { with_timezone = λ _. none; parse_hm = λ _. none };
  std = ascii_only;
  is_whitespace = λ c. c == b' ';
  parse_kustomization = λ _. none;
}

abbrev pub pr : PrEvent
pr = record {
  action = "opened";
  author = "renovate";
  owner = "org";
  repo = "app";
  pr_number = 7;
  title = "bump";
  body = "";
  target_branch = "main";
  source_branch = "bump";
  labels = record { id = 1; name = "deps" } ∷ [];
  merged = false;
  merge_commit_sha = none;
}

abbrev pub pr_event : BotEvent
pr_event = forgejo_pr pr

abbrev pub by_author : Matcher
by_author = Matcher.leaf (LeafMatcher.author "renovate")

abbrev pub flagged : Matcher
flagged = Matcher.leaf (LeafMatcher.feature_flag "enabled" false [])

abbrev pub open_and_labelled : Matcher
open_and_labelled = Matcher.combinator (
    Combinator.all (
      Matchers.cons by_author (
        Matchers.cons
          (Matcher.combinator (Combinator.not (Matcher.leaf (LeafMatcher.has_label "wip"))))
          Matchers.nil)))

abbrev pub group : ActionGroup
group = record { when = none; serial = none; run = ActionDef.delete_branch ∷ [] }

abbrev pub rule : String → List String → Matcher → RuleDef
rule name depends_on when = record {
  name = name;
  disabled = Disabled.bool false;
  dry_run = false;
  priority = pos 0;
  depends_on = depends_on;
  checks = [];
  when = when;
  actions = group ∷ [];
}

abbrev pub start : Session ℕ
start = record { cache = new_cache; world = 0 }
