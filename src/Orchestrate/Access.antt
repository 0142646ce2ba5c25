-- ===== src/Orchestrate/Access.antt =====
-- internal/gitauth/auth.go and resolveTargetRef of internal/orchestrate/orchestrate.go: with what a repository is
-- fetched, and which commit of it. The environment, the reading of keys, the tokens of GitHub and the
-- references of a repository are parameters.
use Prim.Native.String.{◌++◌}
use driftd.Prelude.{
  String, Bool, Option, none, some, List, [], ◌∷◌, ◌==◌, not, ◌&&◌, if◌then◌else◌, Result, ok, err,
  rejected,
}
use driftd.Config.{ProjectConfig, GitAuthConfig, GitHubAppConfig}

-- What go-git is given.
pub data Auth : Type 0 where
  no_auth : Auth
  -- the key file, its passphrase, and the file of known hosts, `none` to know every host
  public_keys : String → String → Option String → Auth
  -- the user and the token
  basic : String → String → Auth

pub record Outdoors : Type 0 where
  -- os.Getenv
  pub env : String → String
  -- gitssh.NewPublicKeysFromFile of a file and its passphrase, and knownhosts.New
  pub key_opens : String → String → Bool
  pub hosts_open : String → Bool
  -- GitHubAppToken
  pub app_token : GitHubAppConfig → Result String

-- The value, or what the variable holds if one is named.
abbrev or_env : Outdoors → String → String → String
or_env o value var = if value == "" && not (var == "") then o.env var else value

unfoldable pub https_auth_with_token : GitAuthConfig → String → Auth
https_auth_with_token g token =
    basic (if g.https_username == "" then "x-access-token" else g.https_username) token

unfoldable pub https_auth : Outdoors → GitAuthConfig → Result Auth
https_auth o g =
    let token = or_env o g.https_token g.https_token_env in
    if token == "" then err rejected else ok (https_auth_with_token g token)

unfoldable pub ssh_auth : Outdoors → GitAuthConfig → Result Auth
ssh_auth o g =
    let key = or_env o g.ssh_key_path g.ssh_key_env in
    let passphrase = or_env o "" g.ssh_key_passphrase_env in
    if key == ""
    then err rejected
    else if not (o.key_opens key passphrase)
    then err rejected
    else if g.ssh_insecure_ignore_host_key
    then ok (public_keys key passphrase none)
    else if g.ssh_known_hosts_path == ""
    then err rejected
    else if o.hosts_open g.ssh_known_hosts_path
    then ok (public_keys key passphrase (some g.ssh_known_hosts_path))
    else err rejected

abbrev with_token : GitAuthConfig → Result String → Result Auth
with_token g (err e) = err e
with_token g (ok token) = ok (https_auth_with_token g token)

abbrev app_or : Outdoors → GitAuthConfig → Option GitHubAppConfig → Result Auth
app_or o g none = err rejected
app_or o g (some a) = with_token g (o.app_token a)

unfoldable pub github_app_auth : Outdoors → GitAuthConfig → Result Auth
github_app_auth o g = app_or o g g.github_app

abbrev auth_of : Outdoors → Option GitAuthConfig → Result Auth
auth_of o none = ok no_auth
auth_of o (some g) =
    if g.kind == ""
    then ok no_auth
    else if g.kind == "ssh"
    then ssh_auth o g
    else if g.kind == "https"
    then https_auth o g
    else if g.kind == "github_app"
    then github_app_auth o g
    else err rejected

-- The project is not nil.
unfoldable pub auth_method : Outdoors → ProjectConfig → Result Auth
auth_method o p = auth_of o p.git

-- The first of the references that there is.
abbrev first_ref : (String → Option String) → List String → Option String
first_ref reference [] = none
first_ref reference (name ∷ names) = or_next (reference name) (first_ref reference names)
  where
    or_next : Option String → Option String → Option String
    or_next none later = later
    or_next (some hash) later = some hash

abbrev branch_refs : String → List String
branch_refs branch =
    if branch == "" then [] else ("refs/heads/" ++ branch) ∷ ("refs/remotes/origin/" ++ branch) ∷ []

abbrev default_refs : List String
default_refs =
    "HEAD" ∷ "refs/heads/main" ∷ "refs/heads/master" ∷ "refs/remotes/origin/HEAD"
    ∷ "refs/remotes/origin/main" ∷ "refs/remotes/origin/master" ∷ []

abbrev ref_or : Option String → Result String → Result String
ref_or none other = other
ref_or (some hash) other = ok hash

-- `head` is what the repository answers for its head.
unfoldable pub resolve_target_ref :
    (String → Option String) → Result String → String → Result String
resolve_target_ref reference head branch =
    ref_or (first_ref reference (branch_refs branch))
      (ref_or (first_ref reference default_refs) head)
