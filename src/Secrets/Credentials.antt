-- ===== src/Secrets/Credentials.antt =====
-- internal/secrets/repostore.go with internal/secrets/encryption.go: the cipher of the project store is the
-- JSON of the credentials, encrypted. The n-th nonce is what the source of random bytes answers then.
use driftd.Prelude.{
  ℕ, false, Option, none, some, [], ◌∷◌, ◌++◌, ◌≡◌, ◌<◌, refl, ap, ◌∙◌, length, arith, has, Result,
  ok, err, external, after,
}
use driftd.Secrets.Projects.{
  Cipher, ProjectCredentials, ProjectEntry, ProjectStore, add, added, get_with_credentials,
}
use driftd.Secrets.Projects.Updates.{get_with_credentials-add}
use driftd.Secrets.Encryption.{Bytes, Library, Lawful, encrypt, decrypt, decrypt-encrypt}

-- encoding/json on the credentials
pub record Json : Type 0 where
  pub marshal : ProjectCredentials → Bytes
  pub unmarshal : Bytes → Option ProjectCredentials

abbrev parsed : Option ProjectCredentials → Result ProjectCredentials
parsed none = err external
parsed (some c) = ok c

abbrev unsealed : Json → Result Bytes → Result ProjectCredentials
unsealed j (err e) = err e
unsealed j (ok text) = parsed (j.unmarshal text)

-- encryptCredentials and decryptCredentials
unfoldable pub cipher_of : Library → Json → (ℕ → Option Bytes) → Bytes → Cipher
cipher_of l j random key = record {
  seal = λ n c. encrypt l key (random n) (j.marshal c);
  unseal = λ blob. unsealed j (decrypt l key blob);
}

-- Credentials that Add stores under a fresh name are read back in the clear by
-- GetWithCredentials, whatever becomes of the file: for a library that opens what it seals and
-- parses what it writes, and a nonce of the cipher's size, which is not 0.
pub credentials-kept :
    (l : Library) (j : Json) (random : ℕ → Option Bytes) (key nonce : Bytes) (n now : ℕ)
    (entry : ProjectEntry) (creds : ProjectCredentials) (s : ProjectStore)
    → Lawful l
    → j.unmarshal (j.marshal creds) ≡ some creds
    → random n ≡ some nonce
    → length nonce ≡ l.nonce_size
    → 0 < l.nonce_size
    → has entry.name s.entries ≡ false
    → get_with_credentials
        (cipher_of l j random key)
        entry.name
        (after (add (cipher_of l j random key) n now entry (some creds)) s)
      ≡ ok (added entry now "", creds)
unfolding encrypt cipher_of
credentials-kept l j random key [] n now entry creds s laws reads r len pos h = absurd (omega arith)
credentials-kept l j random key (x ∷ xs) n now entry creds s laws reads r len pos h =
    let text = j.marshal creds in
    let blob = l.encode ((x ∷ xs) ++ l.seal key (x ∷ xs) text) in
    let sealed : encrypt l key (random n) text ≡ ok blob = ap (λ o. encrypt l key o text) r in
    let opened : decrypt l key blob ≡ ok text =
      decrypt-encrypt l key (x ∷ xs) text blob laws len refl in
    get_with_credentials-add (cipher_of l j random key) n now entry creds blob s h sealed
      (laws.encode-cons x _) (ap (unsealed j) opened ∙ ap parsed (reads))
