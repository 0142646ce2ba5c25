-- ===== src/Secrets/Projects/Updates.antt =====
-- What the operations of the project store keep and leave, whether or not the file is written.
use driftd.Prelude.{
  ℕ, String, Bool, true, false, Option, none, some, List, [], ◌==◌, ◌≡◌, refl, Map, lookup, put,
  erase, has, lookup-put, lookup-erase, Result, ok, err, Error, Action, after, result, ap, sym,
  subst, ◌∙◌, Bool-cases, inl, inr, arith, eq_iff, eq_refl, if◌then◌else◌, project_already_exists,
  project_not_found,
}
use driftd.Secrets.Files.{
  from_file, load, save, store, Keyed, Synced, put-Keyed, erase-Keyed, fill-Keyed, entries-store,
  store-Synced,
}
use driftd.Secrets.Projects.{
  ProjectStore, ProjectEntry, ProjectCredentials, Cipher, key_of, sealed, added, updated, renamed,
  store_sealed, update_existing, add, update, delete, get_with_credentials, with_lookup,
}

-- What changes the store.
pub data Op : Type 0 where
  adds : ℕ → ℕ → ProjectEntry → Option ProjectCredentials → Op
  updates : ℕ → ℕ → String → ProjectEntry → Option ProjectCredentials → Op
  deletes : String → Op
  loads saves : Op

abbrev pub perform : Cipher → Op → Action ProjectStore Unit
perform c (adds nonce now entry creds) = add c nonce now entry creds
perform c (updates nonce now name entry creds) = update c nonce now name entry creds
perform c (deletes name) = delete name
perform c loads = load key_of
perform c saves = save

abbrev Kept : ProjectStore → Type 0
Kept s = Keyed key_of s.entries

-- What a run leaves: the entries under their keys, and the file in step with them if it says so.
abbrev Good : Result {0} Unit × ProjectStore → Type 0
Good p = Kept p.1 × ((p.0 ≡ ok tt) → Synced key_of p.1)

failed : (e : Error) (s : ProjectStore) → Kept s → Good (err e, s)
failed e s k = (k, λ x. cc)

stored : (m : Map ProjectEntry) (s : ProjectStore) → Keyed key_of m → Good (store m s)
stored m s k = (subst (Keyed key_of) (sym (entries-store key_of m s)) k, store-Synced key_of m s k)

file-Keyed : (f : Option (List ProjectEntry)) → Keyed key_of (from_file key_of f)
file-Keyed none = tt
file-Keyed (some vs) = fill-Keyed key_of vs [] tt

renamed-Keyed :
    (name : String) (e : ProjectEntry) (m : Map ProjectEntry)
    → Keyed key_of m
    → Keyed key_of (renamed name e m)
renamed-Keyed name e m k = elim (Bool-cases (name == e.name)) [
  | inl h ↦ rw h (put-Keyed key_of e m k)
  | inr h ↦ rw h (put-Keyed key_of e (erase name m) (erase-Keyed key_of name m k))
]

store_sealed-Good :
    (x : Result String) (f : String → Map ProjectEntry) (s : ProjectStore)
    → Kept s
    → ((blob : String) → Keyed key_of (f blob))
    → Good (store_sealed x f s)
store_sealed-Good (err e) f s k g = failed e s k
store_sealed-Good (ok blob) f s k g = stored (f blob) s (g blob)

update_existing-Good :
    (c : Cipher) (nonce now : ℕ) (name : String) (entry : ProjectEntry)
    (creds : Option ProjectCredentials) (o : Option ProjectEntry) (s : ProjectStore)
    → Kept s
    → Good (update_existing c nonce now name entry creds o s)
update_existing-Good c nonce now name entry creds none s k = failed project_not_found s k
update_existing-Good c nonce now name entry creds (some existing) s k =
    store_sealed-Good (sealed c nonce creds existing.encrypted_credentials) _ s k
      (λ blob. renamed-Keyed name (updated existing entry now blob) s.entries k)

perform-Good : (c : Cipher) (o : Op) (s : ProjectStore) → Kept s → Good (perform c o s)
unfolding add update delete load
perform-Good c (adds nonce now entry creds) s k = elim (Bool-cases (has entry.name s.entries)) [
  | inl h ↦ rw h (failed project_already_exists s k)
  | inr h ↦ rw h (
      store_sealed-Good (sealed c nonce creds entry.encrypted_credentials) _ s k
        (λ blob. put-Keyed key_of (added entry now blob) s.entries k))
]
perform-Good c (updates nonce now name entry creds) s k =
    update_existing-Good c nonce now name entry creds (lookup name s.entries) s k
perform-Good c (deletes name) s k = elim (Bool-cases (has name s.entries)) [
  | inl h ↦ rw h (stored (erase name s.entries) s (erase-Keyed key_of name s.entries k))
  | inr h ↦ rw h (failed project_not_found s k)
]
perform-Good c loads s k = (file-Keyed s.file, λ e x. refl)
perform-Good c saves s k = stored s.entries s k

-- Every operation, whether its file is written or not, keeps each project under its name and no
-- name twice.
pub perform-Keyed :
    (c : Cipher) (o : Op) (s : ProjectStore)
    → Keyed key_of s.entries
    → Keyed key_of (after (perform c o) s).entries
perform-Keyed c o s k = (perform-Good c o s k).0

-- An operation that answers without an error, on a store whose entries stand under their names,
-- leaves a file that loads to what is in memory.
pub perform-Synced :
    (c : Cipher) (o : Op) (s : ProjectStore)
    → Keyed key_of s.entries
    → result (perform c o) s ≡ ok tt
    → Synced key_of (after (perform c o) s)
perform-Synced c o s k = (perform-Good c o s k).1

-- What the name `j` finds after an Update, by what became of the sealing of the credentials.
abbrev pub found_after :
    String
    → ProjectEntry
    → ProjectEntry
    → ℕ
    → String
    → ProjectStore
    → Result String
    → Option ProjectEntry
found_after name entry existing now j s (err e) = lookup j s.entries
found_after name entry existing now j s (ok blob) =
    if entry.name == j
    then some (record entry {
      encrypted_credentials = blob;
      created_at = existing.created_at;
      updated_at = now;
    })
    else if name == j
    then none
    else lookup j s.entries

-- The credentials that an entry is to have: the new ones as they are sealed, else the old ones.
abbrev pub blob_after : Cipher → ℕ → ProjectEntry → Option ProjectCredentials → Result String
blob_after c nonce existing none = ok existing.encrypted_credentials
blob_after c nonce existing (some creds) = c.seal nonce creds

sealed-blob_after :
    (c : Cipher) (nonce : ℕ) (existing : ProjectEntry) (creds : Option ProjectCredentials)
    → sealed c nonce creds existing.encrypted_credentials ≡ blob_after c nonce existing creds
sealed-blob_after c nonce existing none = refl
sealed-blob_after c nonce existing (some creds) = refl

-- After an Update of a stored project, under the same or another name, the entry stands under its
-- new name, with its first creation time and the new credentials as they were sealed, or without
-- new ones with those it had; another old name is gone, and the other projects are as they were.
-- This holds when the file is not written too. If the new credentials cannot be sealed, every name
-- finds what it found before.
pub update-lookup :
    (c : Cipher) (nonce now : ℕ) (name : String) (entry existing : ProjectEntry)
    (creds : Option ProjectCredentials) (j : String) (s : ProjectStore)
    → lookup name s.entries ≡ some existing
    → lookup j (after (update c nonce now name entry creds) s).entries
      ≡ found_after name entry existing now j s (blob_after c nonce existing creds)
unfolding update
update-lookup c nonce now name entry existing creds j s h =
    ap (λ o. lookup j (after (update_existing c nonce now name entry creds o) s).entries) h
    ∙ by_seal (sealed c nonce creds existing.encrypted_credentials)
    ∙ ap (found_after name entry existing now j s) (sealed-blob_after c nonce existing creds)
  where
    renamed_lem :
        (blob : String) (b : Bool)
        → (name == entry.name) ≡ b
        → (if entry.name == j
            then some (updated existing entry now blob)
            else lookup j (if b then s.entries else erase name s.entries))
          ≡ found_after name entry existing now j s (ok blob)
    renamed_lem blob true e =
        grind (arith, eq_iff name entry.name, eq_iff entry.name j, eq_iff name j)
    renamed_lem blob false e = rw (lookup-erase name j s.entries) refl

    by_seal :
        (x : Result String)
        → lookup j
            (after
              (store_sealed x (λ b. renamed name (updated existing entry now b) s.entries))
              s).entries
          ≡ found_after name entry existing now j s x
    by_seal (err e) = refl
    by_seal (ok blob) =
        let e = updated existing entry now blob in
        ap (lookup j) (entries-store key_of (renamed name e s.entries) s)
        ∙ rw
            (lookup-put entry.name e j
              (if name == entry.name then s.entries else erase name s.entries))
            (renamed_lem blob (name == entry.name) refl)

add_run :
    (c : Cipher) (nonce now : ℕ) (entry : ProjectEntry) (creds : ProjectCredentials) (blob : String)
    (s : ProjectStore)
    → has entry.name s.entries ≡ false
    → c.seal nonce creds ≡ ok blob
    → add c nonce now entry (some creds) s
      ≡ store (put entry.name (added entry now blob) s.entries) s
unfolding add
add_run c nonce now entry creds blob s h se =
    ap
      (λ b.
        (if b
          then (err project_already_exists, s)
          else store_sealed (c.seal nonce creds) (λ x. put entry.name (added entry now x) s.entries)
              s))
      h
    ∙ ap (λ x. store_sealed x (λ y. put entry.name (added entry now y) s.entries) s) se

-- What Add stores with its credentials is read back with them, for a cipher that opens what it
-- sealed, whether or not the file is written.
pub get_with_credentials-add :
    (c : Cipher) (nonce now : ℕ) (entry : ProjectEntry) (creds : ProjectCredentials) (blob : String)
    (s : ProjectStore)
    → has entry.name s.entries ≡ false
    → c.seal nonce creds ≡ ok blob
    → (blob == "") ≡ false
    → c.unseal blob ≡ ok creds
    → get_with_credentials c entry.name (after (add c nonce now entry (some creds)) s)
      ≡ ok (added entry now "", creds)
unfolding get_with_credentials
get_with_credentials-add c nonce now entry creds blob s h se ne un =
    let e = added entry now blob in
    let shown : lookup entry.name (after (add c nonce now entry (some creds)) s).entries ≡ some e =
      ap (λ p. lookup entry.name p.1.entries) (add_run c nonce now entry creds blob s h se)
      ∙ ap (lookup entry.name) (entries-store key_of (put entry.name e s.entries) s)
      ∙ rw (lookup-put entry.name e entry.name s.entries, eq_refl entry.name) refl in
    ap (with_lookup c) shown ∙ rw (ne, un) refl
