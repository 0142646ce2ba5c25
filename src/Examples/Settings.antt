-- ===== src/Examples/Settings.antt =====
-- The theorems on the configuration, the requests and the schedule, at concrete data.
use driftd.Prelude.{
  not, ◌↔◌, ℕ, pos, String, true, false, none, some, List, [], ◌∷◌, ◌==◌, ◌≡◌, refl, arith,
  if◌then◌else◌, ◌&&◌, ◌||◌, leb, elem, All, ok, trim_space, to_lower, has_prefix, split, clean,
  sort_by, split_at, text_length, insert_by, less,
}
use driftd.Config.{Config, ProjectConfig, MonorepoProjectConfig, get_project}
use driftd.Config.Projects.{
  expand_monorepos, expand_project, expand_project_projects, append_expanded_project,
  is_valid_project_name, normalize_project_path, validate_no_overlapping_project_paths,
}
use driftd.Config.Defaults.{
  apply_defaults, with_defaults, worker_defaults, worker_valid, workspace_defaults,
  webhook_defaults, webhook_valid, auth_defaults, auth_valid,
}
use driftd.Config.Bounds.{SaneConfig, apply_defaults-Sane}
use driftd.Config.Names.{expand_monorepos-found}
use driftd.Api.Requests.{Request, served, refused, passes}
use driftd.Api.Auth.{
  role_admin, rank, external_role, parse_external_default_role, role_matches_any, use_external_auth,
  external_role_middleware, external_role_from_request, parse_external_groups,
  api_write_auth_enabled, api_write_auth_middleware, api_auth_middleware, settings_write_route,
  subject,
}
use driftd.Api.Auth.Access.{
  external_role-reaches, api_write_auth-api_auth, is_admin, settings_write_route-admin,
}
use driftd.Api.Limits.{Limiters, get_rate_limiter, limiter_at, get_rate_limiter-kept}
use driftd.Api.Webhooks.{
  Digests, validate_webhook_request, record_webhook_delivery, webhook_replay_key, authentic,
  select_stacks_for_changes,
}
use driftd.Api.Webhooks.Replays.{deliver_all, validate_webhook_request-again}
use driftd.Api.Webhooks.Selection.{Changed, elem-select_stacks_for_changes}
use driftd.Scheduler.{Scheduler, on_project_updated}
use driftd.Scheduler.Jobs.{InStep, schedules_of, on_project_updated-jobs}
use driftd.Scheduler.Steps.{added, react, react-InStep}

-- A monorepo with two parts.
abbrev part : String → String → MonorepoProjectConfig
part name path = record { name = name; path = path; schedule = ""; ignore_paths = none }

abbrev monorepo : ProjectConfig
monorepo = record {
  name = "mono";
  url = "git@host:mono";
  branch = "main";
  ignore_paths = none;
  schedule = "@daily";
  cancel_inflight_on_new_trigger = none;
  git = none;
  projects = part "net" "live/net" ∷ part "app" "live/app/" ∷ [];
  root_path = "";
  clone_url = "";
}

abbrev expanded_part : String → String → ProjectConfig
expanded_part name path = record monorepo {
  name = name;
  projects = [];
  root_path = path;
  clone_url = "git@host:mono";
}

abbrev expanded : List ProjectConfig
expanded = expanded_part "net" "live/net" ∷ expanded_part "app" "live/app" ∷ []

expands : expand_monorepos (monorepo ∷ []) ≡ ok expanded
unfolding expand_monorepos expand_project expand_project_projects append_expanded_project
    is_valid_project_name normalize_project_path validate_no_overlapping_project_paths trim_space
    clean has_prefix sort_by split_at text_length insert_by less
expands = refl

expand_monorepos-found_example :
    All
      (λ q. (get_project q.name expanded ≡ some q) × (is_valid_project_name q.name ≡ true))
      expanded
expand_monorepos-found_example = expand_monorepos-found (monorepo ∷ []) expanded expands

-- A configuration with a webhook and an external proxy, else left to the defaults.
abbrev settings : Config
settings = record {
  data_dir = "";
  listen_addr = "";
  insecure_dev_mode = false;
  redis = record { addr = ""; password = ""; db = pos 0 };
  worker = record {
    concurrency = pos 0;
    lock_ttl = pos 0;
    retry_once = true;
    scan_max_age = pos 0;
    clone_depth = pos 0;
    renew_every = pos 0;
    stack_timeout = pos 0;
    block_external_data_source = true;
  };
  workspace = record { retention = pos 0; cleanup_after_plan = none };
  projects = monorepo ∷ [];
  webhook = record {
    enabled = false;
    github_secret = "";
    token = "t";
    token_header = "X-T";
    max_files = pos 0;
  };
  ui_auth = record { username = ""; password = "" };
  api_auth = record {
    username = "";
    password = "";
    token = "";
    token_header = "";
    write_token = "";
    write_token_header = "";
  };
  auth = record {
    mode = "External";
    external = record {
      user_header = "";
      email_header = "";
      groups_header = "";
      groups_delimiter = "";
      default_role = "viewer";
      viewers = [];
      operators = "ops" ∷ [];
      admins = "root" ∷ [];
    };
  };
  api = record { rate_limit_per_minute = pos 0; trust_proxy = false };
}

abbrev complete_settings : Config
complete_settings = record (with_defaults settings) { projects = expanded }

accepted : apply_defaults settings ≡ ok complete_settings
unfolding apply_defaults with_defaults worker_defaults worker_valid workspace_defaults
    webhook_defaults webhook_valid auth_defaults auth_valid expand_monorepos expand_project
    expand_project_projects append_expanded_project is_valid_project_name normalize_project_path
    validate_no_overlapping_project_paths trim_space to_lower clean has_prefix sort_by split_at
    text_length insert_by less
accepted = refl

apply_defaults-Sane_example : SaneConfig complete_settings
apply_defaults-Sane_example = apply_defaults-Sane settings complete_settings accepted

-- A request of a user in the group root.
abbrev headers : String → String
headers h =
    if h == "X-Auth-Request-User"
    then "ann"
    else if h == "X-Auth-Request-Groups"
    then "dev, Root"
    else if h == "X-T"
    then "t"
    else if h == "X-GitHub-Delivery"
    then "d1"
    else ""

abbrev request : Request
request = record {
  path = "/api/settings/projects";
  method = "POST";
  header = headers;
  basic_auth = none;
  tls = true;
  remote_addr = "10.0.0.1:4711";
  csrf_cookie = none;
  csrf_field = none;
}

external_role-reaches_example : leb 3 (rank (external_role settings ("root" ∷ []))) ≡ (
    leb 3 (rank (parse_external_default_role settings))
    || (role_matches_any ("root" ∷ []) [] && leb 3 1)
    || (role_matches_any ("root" ∷ []) ("ops" ∷ []) && leb 3 2)
    || (role_matches_any ("root" ∷ []) ("root" ∷ []) && leb 3 3))
external_role-reaches_example = external_role-reaches settings ("root" ∷ []) role_admin

external : use_external_auth settings ≡ true
unfolding use_external_auth trim_space to_lower
external = refl

settings_write_route-admin_example :
    passes (settings_write_route settings request)
    ≡ (not (subject settings request == "") && is_admin settings request)
settings_write_route-admin_example = settings_write_route-admin settings request external

protected : api_write_auth_enabled settings ≡ true
unfolding api_write_auth_enabled use_external_auth to_lower trim_space
protected = refl

may_write : passes (api_write_auth_middleware settings request) ≡ true
unfolding api_write_auth_middleware external_role_middleware use_external_auth to_lower trim_space
    external_role_from_request parse_external_groups split has_prefix text_length
may_write = refl

api_write_auth-api_auth_example : passes (api_auth_middleware settings request) ≡ true
api_write_auth-api_auth_example = api_write_auth-api_auth settings request protected may_write

-- The address 10.0.0.1 was seen at minute 7 of 10.
abbrev limiters : Limiters ℕ
limiters = ("10.0.0.1", (60, 7)) ∷ []

get_rate_limiter-kept_example :
    limiter_at "10.0.0.1" (get_rate_limiter (λ n. n) settings 5 10 11 "10.0.0.2" limiters).1
    ≡ some 60
get_rate_limiter-kept_example =
    get_rate_limiter-kept (λ n. n) settings 5 10 11 "10.0.0.2" "10.0.0.1" limiters 60 7 refl
      (omega arith)

abbrev digests : Digests
digests = record {
  hmac_sha256 = λ text key. 1 ∷ [];
  sha256 = λ text. 2 ∷ [];
  encode_hex = λ b. "02";
  decode_hex = λ s. some (1 ∷ []);
}

delivered : (validate_webhook_request digests settings.webhook 1000 request "{}" []).0 ≡ served
unfolding validate_webhook_request authentic record_webhook_delivery webhook_replay_key
delivered = refl

validate_webhook_request-again_example :
    (validate_webhook_request digests settings.webhook 1600 request "{}" (
      deliver_all
        ((1500, "delivery:d2") ∷ [])
        (validate_webhook_request digests settings.webhook 1000 request "{}" []).1)).0
    ≡ refused 202
validate_webhook_request-again_example =
    validate_webhook_request-again digests settings.webhook 1000 1600 request "{}"
      ((1500, "delivery:d2") ∷ []) [] delivered (omega arith, tt) (omega arith)

elem-select_stacks_for_changes_example :
    (elem "live/app"
        (select_stacks_for_changes ("live/app" ∷ "live/net" ∷ []) ("live/net/main.tf" ∷ []))
      ≡ true)
    ↔ ((elem "live/app" ("live/app" ∷ "live/net" ∷ []) ≡ true)
        × Changed "live/app" ("live/net/main.tf" ∷ []))
elem-select_stacks_for_changes_example =
    elem-select_stacks_for_changes "live/app" ("live/app" ∷ "live/net" ∷ [])
      ("live/net/main.tf" ∷ [])

abbrev no_jobs : Scheduler
no_jobs = record { jobs = []; next = 1; entries = [] }

no_jobs-InStep : InStep no_jobs
no_jobs-InStep = (tt, λ a b n h k. cc, λ a n h. cc)

react-InStep_example : InStep (react (λ s. true) (added "app" "@daily") no_jobs)
react-InStep_example = react-InStep (λ s. true) (added "app" "@daily") no_jobs no_jobs-InStep

on_project_updated-jobs_example :
    schedules_of "app"
      (on_project_updated
        (λ s. true)
        "app"
        "@hourly"
        (react (λ s. true) (added "app" "@daily") no_jobs)).jobs
    ≡ ("@hourly" ∷ [])
on_project_updated-jobs_example =
    on_project_updated-jobs (λ s. true) "app" "@hourly" "app"
      (react (λ s. true) (added "app" "@daily") no_jobs)
      (react-InStep (λ s. true) (added "app" "@daily") no_jobs no_jobs-InStep)
