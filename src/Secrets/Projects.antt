-- ===== src/Secrets/Projects.antt =====
-- internal/secrets/repostore.go: the projects that are added at run time, with their credentials
-- encrypted. The encryption of the credentials' JSON is a parameter here (Secrets/Encryption.antt
-- has the encryption itself); each call of it has its own random number.
pub mod Updates
use driftd.Prelude.{
  ℕ, String, Bool, Option, none, some, List, [], ◌∷◌, ◌==◌, Map, lookup, put, erase, has, Result,
  ok, err, Error, Action, project_not_found, project_already_exists, pure, raise, lift, examine,
  ◌>>=◌, ◌>>◌, cases, if◌then◌else◌,
}
use driftd.Secrets.Files.{Store, from_file, load, save, store}

pub record ProjectGitHubApp : Type 0 where
  pub app_id : ℕ
  pub installation_id : ℕ

pub record ProjectGitConfig : Type 0 where
  pub kind : String
  pub github_app : Option ProjectGitHubApp

pub record ProjectEntry : Type 0 where
  pub name : String
  pub url : String
  pub branch : String
  pub ignore_paths : List String
  pub integration_id : String
  pub git : ProjectGitConfig
  pub schedule : String
  pub cancel_inflight : Bool
  pub encrypted_credentials : String
  pub created_at : ℕ
  pub updated_at : ℕ

pub record ProjectCredentials : Type 0 where
  pub github_app_private_key : String
  pub ssh_private_key : String
  pub ssh_known_hosts : String
  pub https_token : String
  pub https_username : String

-- json.Marshal and Encrypt, Decrypt and json.Unmarshal.
pub record Cipher : Type 0 where
  pub seal : ℕ → ProjectCredentials → Result String
  pub unseal : String → Result ProjectCredentials

abbrev pub no_credentials : ProjectCredentials
no_credentials = record {
  github_app_private_key = "";
  ssh_private_key = "";
  ssh_known_hosts = "";
  https_token = "";
  https_username = "";
}

abbrev pub key_of : ProjectEntry → String
key_of e = e.name

abbrev pub without_credentials : ProjectEntry → ProjectEntry
without_credentials e = record e { encrypted_credentials = "" }

abbrev pub ProjectStore : Type 0
ProjectStore = Store ProjectEntry

-- The action on a state that it only reads.
abbrev reading : {A : Type 0} → (ProjectStore → Result A) → Action ProjectStore A
reading f s = (f s, s)

unfoldable pub list : ProjectStore → List ProjectEntry
list s = go s.entries
  where
    go : Map ProjectEntry → List ProjectEntry
    go [] = []
    go ((k, e) ∷ m) = without_credentials e ∷ go m

unfoldable pub get : String → ProjectStore → Result ProjectEntry
get name s = elim (lookup name s.entries) [
  | none ↦ err project_not_found
  | some e ↦ ok (without_credentials e)
]

abbrev pub credentials_of : Cipher → ProjectEntry → Result ProjectCredentials
credentials_of c e =
    if e.encrypted_credentials == "" then ok no_credentials else c.unseal e.encrypted_credentials

abbrev pub with_credentials :
    ProjectEntry → Result ProjectCredentials → Result (ProjectEntry × ProjectCredentials)
with_credentials e (ok creds) = ok (without_credentials e, creds)
with_credentials e (err x) = err x

abbrev pub with_lookup : Cipher → Option ProjectEntry → Result (ProjectEntry × ProjectCredentials)
with_lookup c none = err project_not_found
with_lookup c (some e) = with_credentials e (credentials_of c e)

unfoldable pub get_with_credentials :
    Cipher → String → ProjectStore → Result (ProjectEntry × ProjectCredentials)
get_with_credentials c name s = with_lookup c (lookup name s.entries)

unfoldable pub exists : String → ProjectStore → Bool
exists name s = has name s.entries

-- The encrypted blob of the entry: of the new credentials, or what it has without them.
abbrev pub sealed : Cipher → ℕ → Option ProjectCredentials → String → Result String
sealed c nonce none kept = ok kept
sealed c nonce (some creds) kept = c.seal nonce creds

-- Encrypting may fail; what it answers goes into the entry that is stored.
abbrev pub store_sealed : Result String → (String → Map ProjectEntry) → Action ProjectStore Unit
store_sealed (err x) entries s = (err x, s)
store_sealed (ok blob) entries s = store (entries blob) s

-- The entry that Add stores.
abbrev pub added : ProjectEntry → ℕ → String → ProjectEntry
added entry now blob = record entry {
  encrypted_credentials = blob;
  created_at = now;
  updated_at = now;
}

unfoldable pub add :
    Cipher → ℕ → ℕ → ProjectEntry → Option ProjectCredentials → Action ProjectStore Unit
add c nonce now entry creds s =
    if has entry.name s.entries
    then (err project_already_exists, s)
    else store_sealed (sealed c nonce creds entry.encrypted_credentials)
        (λ blob. put entry.name (added entry now blob) s.entries) s

-- The entry that Update stores.
abbrev pub updated : ProjectEntry → ProjectEntry → ℕ → String → ProjectEntry
updated existing entry now blob = record entry {
  encrypted_credentials = blob;
  created_at = existing.created_at;
  updated_at = now;
}

abbrev pub renamed : String → ProjectEntry → Map ProjectEntry → Map ProjectEntry
renamed name entry m = put entry.name entry (if name == entry.name then m else erase name m)

abbrev pub update_existing :
    Cipher
    → ℕ
    → ℕ
    → String
    → ProjectEntry
    → Option ProjectCredentials
    → Option ProjectEntry
    → Action ProjectStore Unit
update_existing c nonce now name entry creds none s = (err project_not_found, s)
update_existing c nonce now name entry creds (some existing) s =
    store_sealed (sealed c nonce creds existing.encrypted_credentials)
      (λ blob. renamed name (updated existing entry now blob) s.entries) s

unfoldable pub update :
    Cipher → ℕ → ℕ → String → ProjectEntry → Option ProjectCredentials → Action ProjectStore Unit
update c nonce now name entry creds s =
    update_existing c nonce now name entry creds (lookup name s.entries) s

unfoldable pub delete : String → Action ProjectStore Unit
delete name s =
    if has name s.entries then store (erase name s.entries) s else (err project_not_found, s)
