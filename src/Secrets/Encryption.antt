-- ===== src/Secrets/Encryption.antt =====
-- internal/secrets/encryption.go: text sealed under a key, with the random number in front. AES-GCM,
-- base64 and the source of random bytes are parameters; bytes are numbers.
use driftd.Prelude.{
  ℕ, String, Bool, false, Option, none, some, List, ◌∷◌, ◌++◌, ◌==◌, ◌≡◌, refl, sym, nat_eq, ltb,
  not, length, length-append, take, drop, take-append, drop-append, if◌then◌else◌, arith, Result,
  ok, err, external, invalid_key_size, invalid_ciphertext, decryption_failed, ap, sym, ◌∙◌,
}

abbrev pub Bytes : Type 0
Bytes = List ℕ

-- crypto/cipher and encoding/base64, with what Seal makes of a nonce and a text.
pub record Library : Type 0 where
  -- aes.NewCipher and cipher.NewGCM answer without an error
  pub accepts : Bytes → Bool
  pub nonce_size : ℕ
  pub seal : Bytes → Bytes → Bytes → Bytes
  pub unseal : Bytes → Bytes → Bytes → Option Bytes
  pub encode : Bytes → String
  pub decode : String → Option Bytes

-- What their documentation promises.
pub record Lawful (l : Library) : Type 0 where
  pub unseal-seal :
      (key nonce text : Bytes) → l.unseal key nonce (l.seal key nonce text) ≡ some text
  pub decode-encode : (b : Bytes) → l.decode (l.encode b) ≡ some b
  pub encode-cons : (x : ℕ) (b : Bytes) → (l.encode (x ∷ b) == "") ≡ false

abbrev pub key_size : ℕ
key_size = 32

-- The encryptor is the key that its block cipher was made from.
unfoldable pub new_encryptor : Library → Bytes → Result Bytes
new_encryptor l key =
    if not (nat_eq (length key) key_size)
    then err invalid_key_size
    else if l.accepts key
    then ok key
    else err external

-- `random` is what io.ReadFull reads for the nonce.
unfoldable pub encrypt : Library → Bytes → Option Bytes → Bytes → Result String
encrypt l key none text = err external
encrypt l key (some nonce) text = ok (l.encode (nonce ++ l.seal key nonce text))

abbrev opened : Option Bytes → Result Bytes
opened none = err decryption_failed
opened (some text) = ok text

abbrev decrypt_bytes : Library → Bytes → Option Bytes → Result Bytes
decrypt_bytes l key none = err external
decrypt_bytes l key (some b) =
    if ltb (length b) l.nonce_size
    then err invalid_ciphertext
    else opened (l.unseal key (take l.nonce_size b) (drop l.nonce_size b))

unfoldable pub decrypt : Library → Bytes → String → Result Bytes
decrypt l key encoded = decrypt_bytes l key (l.decode encoded)

unfoldable pub encode_key : Library → Bytes → String
encode_key l key = l.encode key

abbrev checked_key : Option Bytes → Result Bytes
checked_key none = err external
checked_key (some key) = if not (nat_eq (length key) key_size) then err invalid_key_size else ok key

unfoldable pub decode_key : Library → String → Result Bytes
decode_key l encoded = checked_key (l.decode encoded)

-- What was encrypted with a nonce of the cipher's size is decrypted to the same text.
pub decrypt-encrypt :
    (l : Library) (key nonce text : Bytes) (encoded : String)
    → Lawful l
    → length nonce ≡ l.nonce_size
    → encrypt l key (some nonce) text ≡ ok encoded
    → decrypt l key encoded ≡ ok text
unfolding encrypt decrypt
decrypt-encrypt l key nonce text encoded laws n e =
    let blob = nonce ++ l.seal key nonce text in
    let same : l.encode blob ≡ encoded = cc in
    let long : ltb (length blob) (length nonce) ≡ false =
      ground (arith, length-append nonce (l.seal key nonce text)) in
    ap (λ x. decrypt_bytes l key (l.decode x)) (sym same)
    ∙ ap (decrypt_bytes l key) (laws.decode-encode blob)
    ∙ rw
        (
          sym n,
          long,
          take-append nonce (l.seal key nonce text),
          drop-append nonce (l.seal key nonce text),
          laws.unseal-seal key nonce text,
        )
        refl

-- A key is stored as a text that is read back to it exactly if it has the size of a key.
pub decode_key-encode_key :
    (l : Library) (key : Bytes)
    → Lawful l
    → decode_key l (encode_key l key)
      ≡ (if nat_eq (length key) 32 then ok key else err invalid_key_size)
unfolding decode_key encode_key
decode_key-encode_key l key laws = rw (laws.decode-encode key) (ground arith)
