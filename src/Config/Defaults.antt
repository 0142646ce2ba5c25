-- ===== src/Config/Defaults.antt =====
-- internal/config/config.go: applyDefaults, part by part. Every refusal is `rejected`, so which of several
-- comes first does not show.
use driftd.Prelude.{
  ◌*◌, ℕ, ℤ, pos, ltb_ℤ, leb_ℤ, eq_ℤ, quot_ℤ, String, Bool, true, none, some, List, ◌==◌, not, ◌&&◌,
  ◌||◌, if◌then◌else◌, Result, ok, err, rejected, to_lower, trim_space,
}
use driftd.Config.{
  Config, WorkerConfig, WorkspaceConfig, WebhookConfig, ApiAuthConfig, AuthConfig, ProjectConfig,
}
use driftd.Config.Projects.{expand_monorepos}

abbrev pub second : ℕ
second = 1_000_000_000

abbrev pub min_lock_ttl : ℕ
min_lock_ttl = 120 * second

abbrev pub min_renew_every : ℕ
min_renew_every = 10 * second

abbrev pub max_clone_depth : ℕ
max_clone_depth = 1000

abbrev text_or : String → String → String
text_or s default = if s == "" then default else s

abbrev zero_or : ℤ → ℤ → ℤ
zero_or n default = if eq_ℤ n (pos 0) then default else n

-- The worker's settings with their defaults.
unfoldable pub worker_defaults : WorkerConfig → WorkerConfig
worker_defaults w =
    let lock_ttl = zero_or w.lock_ttl (pos (1800 * second)) in
    record w {
      concurrency = if ltb_ℤ w.concurrency (pos 1) then pos 5 else w.concurrency;
      lock_ttl = lock_ttl;
      scan_max_age = zero_or w.scan_max_age (pos (21600 * second));
      clone_depth = zero_or w.clone_depth (pos 1);
      renew_every = zero_or w.renew_every (quot_ℤ lock_ttl 3);
      stack_timeout = zero_or w.stack_timeout (pos (1800 * second));
    }

-- The worker's settings that are accepted.
unfoldable pub worker_valid : WorkerConfig → Bool
worker_valid w =
    leb_ℤ (pos 1) w.clone_depth
    && leb_ℤ w.clone_depth (pos max_clone_depth)
    && leb_ℤ (pos second) w.stack_timeout
    && leb_ℤ (pos min_lock_ttl) w.lock_ttl
    && leb_ℤ (pos min_renew_every) w.renew_every
    && leb_ℤ w.renew_every (quot_ℤ w.lock_ttl 2)

unfoldable pub workspace_defaults : WorkspaceConfig → WorkspaceConfig
workspace_defaults w = record {
  retention = if leb_ℤ w.retention (pos 0) then pos 5 else w.retention;
  cleanup_after_plan = elim w.cleanup_after_plan [ none ↦ some true | some b ↦ some b ];
}

unfoldable pub webhook_defaults : WebhookConfig → WebhookConfig
webhook_defaults w = record w {
  enabled = w.enabled || not (w.github_secret == "") || not (w.token == "");
  token_header = text_or w.token_header "X-Webhook-Token";
  max_files = if leb_ℤ w.max_files (pos 0) then pos 300 else w.max_files;
}

unfoldable pub webhook_valid : WebhookConfig → Bool
webhook_valid w = not (w.enabled && w.github_secret == "" && w.token == "")

abbrev normal : String → String
normal s = to_lower (trim_space s)

unfoldable pub auth_defaults : AuthConfig → AuthConfig
auth_defaults a =
    let e = a.external in
    record {
      mode = normal (text_or a.mode "internal");
      external = record e {
        user_header = text_or e.user_header "X-Auth-Request-User";
        email_header = text_or e.email_header "X-Auth-Request-Email";
        groups_header = text_or e.groups_header "X-Auth-Request-Groups";
        groups_delimiter = text_or e.groups_delimiter ",";
        default_role = normal (text_or e.default_role "viewer");
      };
    }

unfoldable pub auth_valid : AuthConfig → Bool
auth_valid a =
    let role = a.external.default_role in
    (a.mode == "internal" || a.mode == "external")
    && (role == "none" || role == "viewer" || role == "operator" || role == "admin")

abbrev api_auth_defaults : ApiAuthConfig → ApiAuthConfig
api_auth_defaults a = record a {
  token_header = text_or a.token_header "X-API-Token";
  write_token_header = text_or a.write_token_header "X-API-Write-Token";
}

-- All settings but the projects, with their defaults.
unfoldable pub with_defaults : Config → Config
with_defaults c = record c {
  data_dir = text_or c.data_dir "./data";
  listen_addr = text_or c.listen_addr ":8080";
  redis = record (c.redis) { addr = text_or c.redis.addr "localhost:6379" };
  worker = worker_defaults c.worker;
  workspace = workspace_defaults c.workspace;
  webhook = webhook_defaults c.webhook;
  api_auth = api_auth_defaults c.api_auth;
  auth = auth_defaults c.auth;
  api = record (c.api) { rate_limit_per_minute = zero_or c.api.rate_limit_per_minute (pos 60) };
}

abbrev pub valid : Config → Bool
valid c = worker_valid c.worker && webhook_valid c.webhook && auth_valid c.auth

abbrev pub with_projects : Config → Result (List ProjectConfig) → Result Config
with_projects c (err e) = err e
with_projects c (ok projects) = ok (record c { projects = projects })

unfoldable pub apply_defaults : Config → Result Config
apply_defaults c =
    let d = with_defaults c in
    if valid d then with_projects d (expand_monorepos c.projects) else err rejected
