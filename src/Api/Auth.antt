-- ===== src/Api/Auth.antt =====
-- internal/api/middleware.go: roles, and the middlewares that let a request through. A comparison in
-- constant time is a comparison.
pub mod Access
use driftd.Prelude.{
  ℕ, String, Bool, true, false, Option, none, some, List, [], ◌∷◌, ◌==◌, ltb, not, ◌&&◌, ◌||◌, elem,
  if◌then◌else◌, has_prefix, to_lower, trim_space, split,
}
use driftd.Config.{Config}
use driftd.Api.Requests.{Request, Verdict, served, refused, then_serve}

pub data AuthRole : Type 0 where
  role_none role_viewer role_operator role_admin : AuthRole

-- The number of the role, by which roles are compared.
abbrev pub rank : AuthRole → ℕ
rank role_none = 0
rank role_viewer = 1
rank role_operator = 2
rank role_admin = 3

abbrev pub normal : String → String
normal s = to_lower (trim_space s)

unfoldable pub use_external_auth : Config → Bool
use_external_auth c = normal c.auth.mode == "external"

abbrev pub parse_external_default_role : Config → AuthRole
parse_external_default_role c =
    let role = normal c.auth.external.default_role in
    if role == "none"
    then role_none
    else if role == "operator"
    then role_operator
    else if role == "admin"
    then role_admin
    else role_viewer

abbrev collect_groups : List String → List String
collect_groups [] = []
collect_groups (part ∷ parts) =
    let rest = collect_groups parts in if normal part == "" then rest else normal part ∷ rest

-- The set of groups, as a list.
unfoldable pub parse_external_groups : Config → String → List String
parse_external_groups c raw =
    let delimiter =
      if c.auth.external.groups_delimiter == "" then "," else c.auth.external.groups_delimiter in
    collect_groups (split delimiter raw)

abbrev pub role_matches_any : List String → List String → Bool
role_matches_any groups [] = false
role_matches_any groups (candidate ∷ candidates) =
    let rest = role_matches_any groups candidates in
    if normal candidate == ""
    then rest
    else normal candidate == "*" || elem (normal candidate) groups || rest

abbrev pub max_role : AuthRole → AuthRole → AuthRole
max_role a b = if ltb (rank a) (rank b) then b else a

abbrev header_name : String → String → String
header_name configured default =
    if trim_space configured == "" then default else trim_space configured

abbrev pub subject : Config → Request → String
subject c r =
    let user =
      trim_space (r.header (header_name c.auth.external.user_header "X-Auth-Request-User")) in
    if user == ""
    then trim_space (r.header (header_name c.auth.external.email_header "X-Auth-Request-Email"))
    else user

abbrev pub groups_of : Config → Request → List String
groups_of c r =
    parse_external_groups c
      (r.header (header_name c.auth.external.groups_header "X-Auth-Request-Groups"))

abbrev raise_if : Bool → AuthRole → AuthRole → AuthRole
raise_if b role to = if b then max_role role to else role

abbrev pub external_role : Config → List String → AuthRole
external_role c groups =
    let role =
      raise_if (role_matches_any groups c.auth.external.viewers) (parse_external_default_role c)
        role_viewer in
    let role' = raise_if (role_matches_any groups c.auth.external.operators) role role_operator in
    raise_if (role_matches_any groups c.auth.external.admins) role' role_admin

-- The role, or `none` for a request without an identity.
unfoldable pub external_role_from_request : Config → Request → Option AuthRole
external_role_from_request c r =
    if subject c r == "" then none else some (external_role c (groups_of c r))

abbrev pub role_verdict : AuthRole → Option AuthRole → Verdict
role_verdict required none = refused 401
role_verdict required (some role) = if ltb (rank role) (rank required) then refused 403 else served

unfoldable pub external_role_middleware : Config → AuthRole → Request → Verdict
external_role_middleware c required r = role_verdict required (external_role_from_request c r)

abbrev basic_matches : Option (String × String) → String → String → Bool
basic_matches none username password = false
basic_matches (some (u, p)) username password = u == username && p == password

unfoldable pub ui_auth_middleware : Config → Request → Verdict
ui_auth_middleware c r =
    if use_external_auth c
    then external_role_middleware c role_viewer r
    else if basic_matches r.basic_auth c.ui_auth.username c.ui_auth.password
    then served
    else refused 401

unfoldable pub ui_write_auth_middleware : Config → Request → Verdict
ui_write_auth_middleware c r =
    if use_external_auth c then external_role_middleware c role_operator r else served

unfoldable pub ui_settings_auth_middleware : Config → Request → Verdict
ui_settings_auth_middleware c r =
    if use_external_auth c then external_role_middleware c role_admin r else served

unfoldable pub api_auth_enabled : Config → Bool
api_auth_enabled c =
    use_external_auth c
    || not (c.api_auth.token == "")
    || not (c.api_auth.write_token == "")
    || not (c.api_auth.username == "")
    || not (c.api_auth.password == "")

unfoldable pub api_basic_authorized : Config → Request → Bool
api_basic_authorized c r =
    if c.api_auth.username == "" && c.api_auth.password == ""
    then false
    else basic_matches r.basic_auth c.api_auth.username c.api_auth.password

unfoldable pub ui_basic_authorized : Config → Request → Bool
ui_basic_authorized c r =
    if c.ui_auth.username == "" && c.ui_auth.password == ""
    then false
    else basic_matches r.basic_auth c.ui_auth.username c.ui_auth.password

-- The header holds the token, which is not empty.
abbrev pub presents : Request → String → String → Bool
presents r name token = not (r.header name == "") && r.header name == token

unfoldable pub api_auth_middleware : Config → Request → Verdict
api_auth_middleware c r =
    if c.webhook.enabled && has_prefix "/api/webhooks/" r.path
    then served
    else if use_external_auth c
    then (if r.path == "/api/health" then served else external_role_middleware c role_viewer r)
    else if not (c.api_auth.token == "") && presents r c.api_auth.token_header c.api_auth.token
    then served
    else if not (c.api_auth.write_token == "")
        && presents r c.api_auth.write_token_header c.api_auth.write_token
    then served
    else if api_basic_authorized c r
    then served
    else refused 401

unfoldable pub settings_auth_middleware : Config → Request → Verdict
settings_auth_middleware c r =
    if use_external_auth c
    then external_role_middleware c role_admin r
    else if api_auth_enabled c
    then api_auth_middleware c r
    else if not (c.ui_auth.username == "") || not (c.ui_auth.password == "")
    then (if ui_basic_authorized c r then served else refused 401)
    else served

unfoldable pub api_write_auth_enabled : Config → Bool
api_write_auth_enabled c = use_external_auth c || not (c.api_auth.write_token == "")

unfoldable pub api_write_auth_middleware : Config → Request → Verdict
api_write_auth_middleware c r =
    if use_external_auth c
    then external_role_middleware c
        (if has_prefix "/api/settings/" r.path then role_admin else role_operator) r
    else if not (api_write_auth_enabled c)
    then served
    else if presents r c.api_auth.write_token_header c.api_auth.write_token
    then served
    else if api_basic_authorized c r
    then served
    else refused 401

-- The routes of Handler in server.go: what stands before their handlers, the rate limiter aside.
unfoldable pub api_route : Config → Request → Verdict
api_route c r = if api_auth_enabled c then api_auth_middleware c r else served

unfoldable pub api_write_route : Config → Request → Verdict
api_write_route c r = then_serve (api_route c r) (api_write_auth_middleware c r)

unfoldable pub settings_route : Config → Request → Verdict
settings_route c r = then_serve (api_route c r) (settings_auth_middleware c r)

unfoldable pub settings_write_route : Config → Request → Verdict
settings_write_route c r = then_serve (settings_route c r) (api_write_auth_middleware c r)
