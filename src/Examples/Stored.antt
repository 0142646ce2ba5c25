-- ===== src/Examples/Stored.antt =====
-- The theorems on the stored projects and integrations, at concrete data.
use driftd.Prelude.{
  All, eq_false_of_ne, ℕ, zero, suc, ◌+◌, nat_eq, ap, ◌∙◌, String, true, false, none, some, [], ◌∷◌,
  ◌==◌, ◌≡◌, refl, if◌then◌else◌, lookup, ok, err, external, after, arith,
}
use driftd.Secrets.Projects.{
  list, ProjectStore, ProjectEntry, ProjectCredentials, Cipher, add, update, updated, added,
  get_with_credentials,
}
use driftd.Secrets.Projects.Updates.{update-lookup}
use driftd.Secrets.Encryption.{Bytes, Library, Lawful}
use Prim.Native.Char.{code}
use driftd.Secrets.Credentials.{Json, cipher_of, credentials-kept}
use driftd.Config.{ProjectConfig, get_project}
use driftd.Projects.Conversion.{plain_config, project_config_from_entry}
use driftd.Projects.Provider.{CombinedProvider, provider_get, provider_list, lookup_integration}
use driftd.Projects.Lookups.{provider_list-found}

-- A project with encrypted credentials.
abbrev project : String → ProjectEntry
project name = record {
  name = name;
  url = "git@host:r";
  branch = "";
  ignore_paths = [];
  integration_id = "";
  git = record { kind = "https"; github_app = none };
  schedule = "";
  cancel_inflight = true;
  encrypted_credentials = "blob";
  created_at = 3;
  updated_at = 3;
}

-- A store whose next write of the file fails.
abbrev failing : ProjectStore
failing = record {
  entries = ("a", project "a") ∷ [];
  file = some (project "a" ∷ []);
  writes = false ∷ [];
}

abbrev working : ProjectStore
working = record failing { writes = [] }

abbrev creds : ProjectCredentials
creds = record {
  github_app_private_key = "";
  ssh_private_key = "";
  ssh_known_hosts = "";
  https_token = "s3cret";
  https_username = "u";
}

abbrev cipher : Cipher
cipher = record { seal = λ n c. ok "sealed"; unseal = λ s. err external }

update-lookup_example :
    lookup "b" (after (update cipher 0 9 "a" (project "b") (some creds)) failing).entries
    ≡ some (updated (project "a") (project "b") 9 "sealed")
update-lookup_example =
    update-lookup cipher 0 9 "a" (project "b") (project "a") (some creds) "b" failing refl

-- A library that seals nothing, and writes a byte as so many letters a with a b behind them.
letters : ℕ → String → String
letters zero s = String.◌∷◌ "b" s
letters (suc n) s = String.◌∷◌ "a" (letters n s)

write_bytes : Bytes → String
write_bytes [] = ""
write_bytes (x ∷ xs) = letters x (write_bytes xs)

read_bytes : ℕ → String → Bytes
read_bytes n String.[] = []
read_bytes n (String.◌∷◌ c s) =
    if nat_eq (code c) 97 then read_bytes (suc n) s else n ∷ read_bytes 0 s

read_bytes-letters : (n x : ℕ) (s : String) → read_bytes n (letters x s) ≡ (n + x) ∷ read_bytes 0 s
unfolding letters read_bytes
read_bytes-letters n zero s = ap (λ m. m ∷ read_bytes 0 s) (omega arith)
read_bytes-letters n (suc x) s =
    read_bytes-letters (suc n) x s ∙ ap (λ m. m ∷ read_bytes 0 s) (omega arith)

read_bytes-write_bytes : (b : Bytes) → read_bytes 0 (write_bytes b) ≡ b
unfolding write_bytes read_bytes
read_bytes-write_bytes [] = refl
read_bytes-write_bytes (x ∷ xs) =
    read_bytes-letters 0 x (write_bytes xs)
    ∙ ap (λ m. m ∷ read_bytes 0 (write_bytes xs)) nothing_added
    ∙ ap (λ ys. x ∷ ys) (read_bytes-write_bytes xs)
  where
    nothing_added : 0 + x ≡ x
    nothing_added = omega arith

written : (x : ℕ) (b : Bytes) → (write_bytes (x ∷ b) == "") ≡ false
unfolding write_bytes letters
written zero b = eq_false_of_ne (String.◌∷◌ "b" (write_bytes b)) "" (λ e. cc)
written (suc x) b = eq_false_of_ne (String.◌∷◌ "a" (letters x (write_bytes b))) "" (λ e. cc)

abbrev library : Library
library = record {
  accepts = λ key. true;
  nonce_size = 2;
  seal = λ key nonce text. text;
  unseal = λ key nonce text. some text;
  encode = write_bytes;
  decode = λ s. some (read_bytes 0 s);
}

library-Lawful : Lawful library
library-Lawful = record {
  unseal-seal = λ key nonce text. refl;
  decode-encode = λ b. ap some (read_bytes-write_bytes b);
  encode-cons = written;
}

-- The credentials of a project over HTTPS.
abbrev json : Json
json = record { marshal = λ c. 7 ∷ []; unmarshal = λ b. some creds }

credentials-kept_example :
    get_with_credentials (cipher_of library json (λ n. some (n ∷ 5 ∷ [])) (1 ∷ [])) "b" (
      after
        (add
          (cipher_of library json (λ n. some (n ∷ 5 ∷ [])) (1 ∷ []))
          4
          9
          (project "b")
          (some creds))
        failing)
    ≡ ok (added (project "b") 9 "", creds)
credentials-kept_example =
    credentials-kept library json (λ n. some (n ∷ 5 ∷ [])) (1 ∷ []) (4 ∷ 5 ∷ []) 4 9 (project "b")
      creds failing library-Lawful refl refl refl (omega arith) refl

abbrev configured : ProjectConfig
configured = record (plain_config (project "c")) { schedule = "@daily" }

abbrev provider : CombinedProvider
provider = record {
  projects = configured ∷ [];
  store = some working;
  integrations = none;
  cipher = record cipher { unseal = λ s. ok creds };
  data_dir = "d";
  writable = λ f. true;
}

abbrev from_entry : ProjectConfig
from_entry = record (plain_config (project "a")) {
  git = some (record {
    kind = "https";
    ssh_key_path = "";
    ssh_key_env = "";
    ssh_key_passphrase_env = "";
    ssh_known_hosts_path = "";
    ssh_insecure_ignore_host_key = false;
    https_username = "u";
    https_token = "s3cret";
    https_token_env = "";
    github_app = none;
  });
}

all_listed : provider_list provider ≡ ok (configured ∷ from_entry ∷ [])
unfolding provider_list list get_project get_with_credentials lookup_integration
    project_config_from_entry
all_listed = refl

found_configured : get_project "c" (configured ∷ []) ≡ some configured
unfolding get_project
found_configured = refl

provider_list-found_example :
    All (λ q. provider_get provider q.name ≡ ok q) (configured ∷ from_entry ∷ [])
provider_list-found_example =
    provider_list-found provider working (configured ∷ from_entry ∷ []) refl (refl, refl, tt)
      (found_configured, tt) all_listed
