-- ===== src/Secrets/Integrations.antt =====
-- internal/secrets/integrationstore.go: the credentials that projects share, kept by id. Pointers to the parts
-- of an integration that may be missing are options.
use driftd.Prelude.{
  ℕ, String, Bool, true, false, Option, none, some, List, [], ◌∷◌, ◌==◌, ◌≡◌, refl, sym, Map,
  lookup, put, erase, has, lookup-put, lookup-erase, sort_by, Result, ok, err, Action, after,
  rejected, integration_not_found, integration_already_exists, if◌then◌else◌, arith, eq_iff,
  Bool-cases, inl, inr, ap, ◌∙◌,
}
use driftd.Secrets.Files.{Store, save, store, entries-store}

pub record IntegrationGitHubApp : Type 0 where
  pub app_id : ℕ
  pub installation_id : ℕ
  pub private_key_path : String
  pub private_key_env : String
  pub api_base_url : String

pub record IntegrationSsh : Type 0 where
  pub key_path : String
  pub key_env : String
  pub key_passphrase_env : String
  pub known_hosts_path : String
  pub insecure_ignore_host_key : Bool

pub record IntegrationHttps : Type 0 where
  pub username : String
  pub token_env : String

pub record IntegrationEntry : Type 0 where
  pub id : String
  pub name : String
  pub kind : String
  pub github_app : Option IntegrationGitHubApp
  pub ssh : Option IntegrationSsh
  pub https : Option IntegrationHttps
  pub created_at : ℕ
  pub updated_at : ℕ

abbrev pub IntegrationStore : Type 0
IntegrationStore = Store IntegrationEntry

abbrev pub id_of : IntegrationEntry → String
id_of e = e.id

unfoldable pub list : IntegrationStore → List IntegrationEntry
list s = sort_by (λ e. e.name) (go s.entries)
  where
    go : Map IntegrationEntry → List IntegrationEntry
    go [] = []
    go ((k, e) ∷ m) = e ∷ go m

abbrev pub found : Option IntegrationEntry → Result IntegrationEntry
found none = err integration_not_found
found (some e) = ok e

unfoldable pub get : String → IntegrationStore → Result IntegrationEntry
get id s = found (lookup id s.entries)

unfoldable pub exists : String → IntegrationStore → Bool
exists id s = has id s.entries

-- The entry is not nil.
unfoldable pub add : ℕ → IntegrationEntry → Action IntegrationStore Unit
add now entry s =
    if entry.id == ""
    then (err rejected, s)
    else if has entry.id s.entries
    then (err integration_already_exists, s)
    else store (put entry.id (record entry { created_at = now; updated_at = now }) s.entries) s

abbrev pub updated : ℕ → IntegrationEntry → IntegrationEntry → IntegrationEntry
updated now entry existing = record entry {
  id = existing.id;
  created_at = existing.created_at;
  updated_at = now;
}

abbrev pub update_existing :
    ℕ → String → IntegrationEntry → Option IntegrationEntry → Action IntegrationStore Unit
update_existing now id entry none s = (err integration_not_found, s)
update_existing now id entry (some existing) s =
    store (put id (updated now entry existing) s.entries) s

unfoldable pub update : ℕ → String → IntegrationEntry → Action IntegrationStore Unit
update now id entry s = update_existing now id entry (lookup id s.entries) s

unfoldable pub delete : String → Action IntegrationStore Unit
delete id s =
    if has id s.entries then store (erase id s.entries) s else (err integration_not_found, s)

-- What changes the store while the program runs.
pub data Op : Type 0 where
  adds : ℕ → IntegrationEntry → Op
  updates : ℕ → String → IntegrationEntry → Op
  deletes : String → Op
  saves : Op

abbrev pub perform : Op → Action IntegrationStore Unit
perform (adds now entry) = add now entry
perform (updates now id entry) = update now id entry
perform (deletes id) = delete id
perform saves = save

-- What identifies an integration for as long as it exists.
abbrev pub identity : Option IntegrationEntry → Option (String × ℕ)
identity none = none
identity (some e) = some (e.id, e.created_at)

abbrev pub deleted_by : String → Op → Bool
deleted_by j (deletes id) = id == j
deleted_by j o = false

stored :
    (m : Map IntegrationEntry) (j : String) (s : IntegrationStore)
    → lookup j (after (store m) s).entries ≡ lookup j m
stored m j s = ap (lookup j) (entries-store id_of m s)

without : {b : Bool} (x y : Option IntegrationEntry) → b ≡ false → (if b then x else y) ≡ y
without x y h = rw h refl

identity-if :
    (b : Bool) (e : IntegrationEntry)
    → identity (if b then none else some e) ≡ (if b then none else some (e.id, e.created_at))
identity-if true e = refl
identity-if false e = refl

update-identity :
    (now : ℕ) (id : String) (entry : IntegrationEntry) (j : String) (e : IntegrationEntry)
    (s : IntegrationStore) (o : Option IntegrationEntry)
    → lookup id s.entries ≡ o
    → lookup j s.entries ≡ some e
    → identity (lookup j (after (update_existing now id entry o) s).entries) ≡ identity (some e)
update-identity now id entry j e s none h k = ap identity k
update-identity now id entry j e s (some x) h k =
    ap identity (stored (put id (updated now entry x) s.entries) j s)
    ∙ ap identity (lookup-put id (updated now entry x) j s.entries)
    ∙ elim (Bool-cases (id == j)) [
      | inl b ↦
          let same : id ≡ j = (eq_iff id j).0 b in
          let it : some x ≡ some e = sym h ∙ ap (λ i. lookup i s.entries) same ∙ k in
          rw b (ap identity it)
      | inr b ↦ rw b (ap identity k)
    ]

-- An integration keeps its id and its creation time through every operation but its own Delete,
-- whether or not the file is written.
pub perform-identity :
    (o : Op) (j : String) (e : IntegrationEntry) (s : IntegrationStore)
    → lookup j s.entries ≡ some e
    → identity (lookup j (after (perform o) s).entries)
      ≡ (if deleted_by j o then none else some (e.id, e.created_at))
unfolding add update delete
perform-identity (adds now entry) j e s k = elim (Bool-cases (entry.id == "")) [
  | inl a ↦ rw (identity, a) (ap identity k)
  | inr a ↦ elim (Bool-cases (has entry.id s.entries)) [
    | inl b ↦ rw (identity, a, b) (ap identity k)
    | inr b ↦
        let x = record entry { created_at = now; updated_at = now } in
        let other : (entry.id == j) ≡ false = grind (arith, eq_iff entry.id j) in
        rw (identity, a, b)
          (ap identity (
            stored (put entry.id x s.entries) j s
            ∙ lookup-put entry.id x j s.entries
            ∙ without _ _ other
            ∙ k))
  ]
]
perform-identity (updates now id entry) j e s k =
    update-identity now id entry j e s (lookup id s.entries) refl k
perform-identity (deletes id) j e s k = elim (Bool-cases (has id s.entries)) [
  | inl h ↦
      rw (identity, h)
        (ap identity (stored (erase id s.entries) j s ∙ lookup-erase id j s.entries)
          ∙ ap (λ o. identity (if id == j then none else o)) k
          ∙ identity-if (id == j) e)
  | inr h ↦
      let other : (id == j) ≡ false = grind (arith, k, eq_iff id j) in
      rw (identity, h, other) (ap identity k)
]
perform-identity saves j e s k = ap identity (stored s.entries j s ∙ k)
