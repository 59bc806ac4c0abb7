-- ===== src/Rules/Clients.antt =====
-- What the rules ask of the world outside, and the state that an evaluation passes on.
-- A call of a client may change the world. The texts, the clock and the templates come from
-- platform-services/janitor-bot/src/clients.rs and the crates that it names.
pub mod Keeps
use inf_k8s.Prelude.{ℕ, String, Bool, List, [], Option, none, some}
use inf_k8s.Prelude.Int.{ℤ}
use inf_k8s.Prelude.Assoc.{Assoc}
use inf_k8s.Expr.Lex.{Std}
use inf_k8s.Rules.Types.{CommitStatusState, LeafMatcher}
use inf_k8s.Rules.Texts.{Library}
use inf_k8s.Rules.Event.{ArgoSyncEvent}
use inf_k8s.Rules.Event.Vars.{Templating}
use inf_k8s.Flags.Json.{Numbers}

-- `forgejo_api::structs::StateType`
pub data StateType : Type 0 where
  opened closed : StateType

-- The fields of `forgejo_api::structs::PullRequest` that the rules read; a time is a number.
pub record ApiPullRequest : Type 0 where
  pub number : Option ℤ
  pub user_login : Option String
  pub body : Option String
  pub state : Option StateType
  pub merged : Option Bool
  pub mergeable : Option Bool
  pub head_sha : Option String
  pub created_at : Option ℤ

-- platform-services/janitor-bot/src/forgejo/types.rs
pub record PrStatusEntry : Type 0 where
  pub context : String
  pub state : CommitStatusState
  pub description : String
  pub target_url : String

pub record PrCombinedStatus : Type 0 where
  pub state : CommitStatusState
  pub total_count : ℤ
  pub statuses : List PrStatusEntry

pub record KustomizeImage : Type 0 where
  pub name : String
  pub new_tag : Option String

-- `none` stands for an error, which is logged.
pub record Clients (W : Type 0) : Type 0 where
  pub get_pr : String → String → ℤ → W → Option ApiPullRequest × W
  pub get_pr_changed_files : String → String → ℤ → W → Option (List String) × W
  pub is_pr_approved_by_bot : String → String → ℤ → W → Bool × W
  -- The body of the bot's comment with a marker, where there is one.
  pub find_bot_comment : String → String → ℤ → String → W → Option (Option String) × W
  pub get_combined_status_by_ref : String → String → String → W → Option PrCombinedStatus × W
  pub list_open_prs : String → String → W → Option (List ApiPullRequest) × W
  pub get_raw_file : String → String → String → String → W → Option String × W
  pub committed_at : String → String → W → Option ℤ × W
  pub check_app_changed_in_commit : String → String → ArgoSyncEvent → W → Bool × W
  -- `bool_flag(name, rule, default, context)`
  pub bool_flag : String → String → Bool → Assoc String → W → Bool × W

-- `chrono::Weekday`
pub data Weekday : Type 0 where
  mon tue wed thu fri sat sun : Weekday

pub record LocalTime : Type 0 where
  pub weekday : Weekday
  pub time : ℕ

-- `chrono` and `chrono_tz`: the time in a zone that has that name, and a time written `%H:%M`.
pub record Chrono (Now : Type 0) : Type 0 where
  pub with_timezone : String → Option (Now → LocalTime)
  pub parse_hm : String → Option ℕ

-- All that the rules take from elsewhere.
pub record Outside (W N Now : Type 0) : Type 0 where
  pub clients : Clients W
  pub library : Library
  pub templating : Templating N
  pub numbers : Numbers N
  pub chrono : Chrono Now
  pub std : Std
  -- `char::is_whitespace`
  pub is_whitespace : ℕ → Bool
  -- `yaml_serde::from_str` into the images of a `Kustomization`.
  pub parse_kustomization : String → Option (List KustomizeImage)

-- A value of the cache, with its type: `Arc<dyn Any>`.
pub data Cached : Type 0 where
  pull_request : Option ApiPullRequest → Cached
  reviews : Bool → Cached
  changed_files : List String → Cached
  comment_body : Option String → Cached
  combined_status : Option PrCombinedStatus → Cached
  committed_at : Option ℤ → Cached
  open_prs : Option (List ApiPullRequest) → Cached

-- platform-services/janitor-bot/src/rules/matchers/cache.rs
pub record ResourceCache : Type 0 where
  pub matcher_results : List (LeafMatcher × Bool)
  pub values : Assoc Cached

abbrev pub new_cache : ResourceCache
new_cache = record { matcher_results = []; values = [] }

-- The caches and the world.
pub record Session (W : Type 0) : Type 0 where
  pub cache : ResourceCache
  pub world : W

-- A computation over a session; `none` is a panic.
abbrev pub Eval : Type 0 → Type 0 → Type 0
Eval W A = Session W → Option (A × Session W)

module _ {W : Type 0} where
  abbrev pub pure : {A : Type 0} → A → Eval W A
  pure a s = some (a, s)

  abbrev pub panic : {A : Type 0} → Eval W A
  panic s = none

  abbrev pub and_then :
      {A B : Type 0} → Option (A × Session W) → (A → Eval W B) → Option (B × Session W)
  and_then none next = none
  and_then (some (a, s)) next = next a s

  infixl 5 ◌>>=◌
  abbrev pub ◌>>=◌ : {A B : Type 0} → Eval W A → (A → Eval W B) → Eval W B
  (m >>= next) s = and_then (m s) next

  -- A call of a client.
  abbrev pub call : {A : Type 0} → (W → A × W) → Eval W A
  call f s = let (a, world) = f s.world in some (a, record s { world = world })

  -- A computation that gives a value or panics, whatever the session.
  abbrev pub lift : {A : Type 0} → Option A → Eval W A
  lift none s = none
  lift (some a) s = some (a, s)
