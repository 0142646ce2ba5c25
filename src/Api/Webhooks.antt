-- ===== src/Api/Webhooks.antt =====
-- internal/api/webhook.go: a push on GitHub, from the check of its sender to the stacks that are scanned. The
-- keyed hash, the plain hash and hex digits are parameters; a comparison in constant time is a comparison.
pub mod Replays
pub mod Selection
pub mod Handler
pub mod Handling
use driftd.Prelude.{
  ℕ, ℤ, pos, ltb_ℤ, leb_ℤ, String, Bool, true, false, Option, none, some, List, [], ◌∷◌, ◌++◌, ◌==◌,
  nat_eq, ◌+◌, ltb, leb, not, ◌&&◌, ◌||◌, elem, if◌then◌else◌, has_prefix, has_suffix, trim_prefix,
  trim_space, trim_char, split_at, base, sort_strings, length, Map, lookup, put,
}
use driftd.Config.{Config, WebhookConfig, ProjectConfig}
use driftd.Api.Requests.{Request, Verdict, served, refused}
use Prim.Native.String.{◌++◌ as text_append}

pub record Commit : Type 0 where
  pub added : List String
  pub modified : List String
  pub removed : List String

abbrev pub is_infra_file : String → Bool
is_infra_file path =
    let b = base path in
    has_suffix ".tf" b
    || has_suffix ".tfvars" b
    || b == "terragrunt.hcl"
    || has_suffix ".hcl" b
    || has_suffix ".tf.json" path
    || has_suffix ".tfvars.json" path

-- The paths of a push, in the order of the commits.
abbrev pub paths_of : List Commit → List String
paths_of [] = []
paths_of (c ∷ cs) = ((c.added ++ c.modified) ++ c.removed) ++ paths_of cs

-- The path is of interest and was not seen.
abbrev pub fresh : String → List String → Bool
fresh path seen = not (path == "") && is_infra_file path && not (elem path seen)

abbrev pub full : ℤ → List String → Bool
full max_files files = ltb_ℤ (pos 0) max_files && leb_ℤ max_files (pos (length files))

-- The files so far are the set of those that were seen.
abbrev pub collect_files : ℤ → List String → List String → List String
collect_files max_files files [] = files
collect_files max_files files (p ∷ ps) =
    let path = trim_prefix "/" p in
    let more = files ++ (path ∷ []) in
    elim (fresh path files) [
      | false ↦ collect_files max_files files ps
      | true ↦ elim (full max_files more) [ true ↦ more | false ↦ collect_files max_files more ps ]
    ]

unfoldable pub extract_changed_files : List Commit → ℤ → List String
extract_changed_files commits max_files = collect_files max_files [] (paths_of commits)

-- A stack is touched by a file below it; the root by every file.
abbrev pub touches : String → String → Bool
touches stack file = stack == "" || has_prefix (text_append stack "/") file

abbrev pub touched : List String → String → Bool
touched [] stack = false
touched (file ∷ files) stack = let rest = touched files stack in touches stack file || rest

-- The set of the touched stacks, each once.
abbrev pub select : List String → List String → List String
select files [] = []
select files (stack ∷ stacks) =
    let rest = select files stacks in
    if touched files stack && not (elem stack rest) then stack ∷ rest else rest

unfoldable pub select_stacks_for_changes : List String → List String → List String
select_stacks_for_changes stacks changed_files =
    if ltb 0 (length changed_files) then sort_strings (select changed_files stacks) else []

unfoldable pub project_matches_webhook_branch : ProjectConfig → String → String → Bool
project_matches_webhook_branch p branch default_branch =
    let target = if p.branch == "" then default_branch else p.branch in
    if target == "" then true else branch == target

abbrev normalized : String → String
normalized path = trim_char 47 (trim_space path)

abbrev file_below : String → List String → Bool
file_below root [] = false
file_below root (file ∷ files) =
    let rest = file_below root files in
    normalized file == root || has_prefix (text_append root "/") (normalized file) || rest

unfoldable pub project_path_matches_webhook_changes : ProjectConfig → List String → Bool
project_path_matches_webhook_changes p changed_files =
    let root = normalized p.root_path in if root == "" then true else file_below root changed_files

-- crypto/hmac, crypto/sha256 and encoding/hex
pub record Digests : Type 0 where
  pub hmac_sha256 : String → String → List ℕ
  pub sha256 : String → List ℕ
  pub encode_hex : List ℕ → String
  pub decode_hex : String → Option (List ℕ)

-- When a delivery was seen.
abbrev pub Seen : Type 0
Seen = Map ℕ

unfoldable pub webhook_replay_key : Digests → Request → String → String
webhook_replay_key d r body =
    let delivery = trim_space (r.header "X-GitHub-Delivery") in
    let sig = trim_space (r.header "X-Hub-Signature-256") in
    if not (delivery == "")
    then text_append "delivery:" delivery
    else if not (sig == "")
    then text_append "sig:" sig
    else text_append "body:" (d.encode_hex (d.sha256 body))

-- The entries that are not from before the cutoff, now - window; `seen + window < now` without a
-- difference that stops at 0.
abbrev pub expire : ℕ → ℕ → Seen → Seen
expire window now [] = []
expire window now ((k, t) ∷ m) =
    let rest = expire window now m in if ltb (t + window) now then rest else (k, t) ∷ rest

abbrev pub seen_recently : ℕ → ℕ → Option ℕ → Bool
seen_recently window now none = false
seen_recently window now (some t) = leb now (t + window)

-- The answer, and the deliveries that are remembered.
abbrev pub remembered : Bool → ℕ → String → Seen → Bool × Seen
remembered true now key kept = (false, kept)
remembered false now key kept = (true, put key now kept)

unfoldable pub record_webhook_delivery : ℕ → ℕ → String → Seen → Bool × Seen
record_webhook_delivery window now key m =
    let kept = expire window now m in
    remembered (seen_recently window now (lookup key kept)) now key kept

-- 15 minutes, in seconds.
abbrev pub webhook_replay_window : ℕ
webhook_replay_window = 900

abbrev eq_bytes : List ℕ → List ℕ → Bool
eq_bytes [] [] = true
eq_bytes (x ∷ xs) (y ∷ ys) = nat_eq x y && eq_bytes xs ys
eq_bytes xs ys = false

abbrev signed : Option (List ℕ) → List ℕ → Bool
signed none expected = false
signed (some provided) expected = eq_bytes expected provided

abbrev signature_verdict : Digests → String → String → List String → Bool
signature_verdict d secret body (algorithm ∷ digits ∷ []) =
    algorithm == "sha256" && signed (d.decode_hex digits) (d.hmac_sha256 body secret)
signature_verdict d secret body parts = false

-- The sender is who it has to be.
unfoldable pub authentic : Digests → WebhookConfig → Request → String → Bool
authentic d w r body =
    let sig = r.header "X-Hub-Signature-256" in
    let token = r.header w.token_header in
    if not (w.github_secret == "")
    then not (sig == "") && signature_verdict d w.github_secret body (split_at 61 sig)
    else if not (w.token == "")
    then not (token == "") && token == w.token
    else false

abbrev pub recorded : Bool × Seen → Verdict × Seen
recorded (true, m) = (served, m)
recorded (false, m) = (refused 202, m)

unfoldable pub validate_webhook_request :
    Digests → WebhookConfig → ℕ → Request → String → Seen → Verdict × Seen
validate_webhook_request d w now r body m =
    if authentic d w r body
    then recorded
        (record_webhook_delivery webhook_replay_window now (webhook_replay_key d r body) m)
    else (refused 401, m)
