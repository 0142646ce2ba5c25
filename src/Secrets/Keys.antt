-- ===== src/Secrets/Keys.antt =====
-- internal/secrets/keystore.go: the encryption key, from the environment or from its file. The random bytes of a
-- new key and the outcome of the write are arguments; a file that cannot be read counts as none.
use Prim.Native.String.{◌++◌}
use driftd.Prelude.{
  String, Bool, true, false, Option, none, some, ◌==◌, ◌≡◌, refl, ap, ◌∙◌, length, not, ◌||◌,
  is_some, if◌then◌else◌, trim_space, Result, ok, err, external, Action,
}
use driftd.Secrets.Encryption.{
  Bytes, Library, Lawful, key_size, encode_key, decode_key, decode_key-encode_key,
}

-- What is in the key file, if it can be read.
abbrev pub KeyFile : Type 0
KeyFile = Option String

-- saveKey: the directory and the file are written, or not.
abbrev save_key : Library → Bool → Bytes → Action KeyFile Bytes
save_key l true key f = (ok key, some (encode_key l key ++ "\n"))
save_key l false key f = (err external, f)

abbrev generated : Library → Bool → Option Bytes → Action KeyFile Bytes
generated l writable none f = (err external, f)
generated l writable (some key) f = save_key l writable key f

abbrev from_key_file : Library → Bool → Option Bytes → KeyFile → Result Bytes × KeyFile
from_key_file l writable random (some content) = (decode_key l (trim_space content), some content)
from_key_file l writable random none = generated l writable random none

-- `env` is DRIFTD_ENCRYPTION_KEY, and `random` the key of GenerateKey, `none` if its bytes cannot be
-- read.
unfoldable pub load_or_generate : Library → String → Bool → Option Bytes → Action KeyFile Bytes
load_or_generate l env writable random f =
    if not (env == "")
    then (decode_key l (trim_space env), f)
    else from_key_file l writable random f

unfoldable pub key_exists : String → KeyFile → Bool
key_exists env f = not (env == "") || is_some f

-- A key that was generated and saved is the one that every later start loads, as long as the
-- environment has none, if the encoding of a key has no blanks at its ends.
pub load_or_generate-again :
    (l : Library) (writable : Bool) (random : Option Bytes) (key : Bytes)
    → Lawful l
    → length key ≡ key_size
    → trim_space (encode_key l key ++ "\n") ≡ encode_key l key
    → load_or_generate l "" writable random (load_or_generate l "" true (some key) none).1
      ≡ (ok key, some (encode_key l key ++ "\n"))
unfolding load_or_generate
load_or_generate-again l writable random key laws n t =
    ap (λ s. (decode_key l s, some (encode_key l key ++ "\n"))) t
    ∙ ap (λ r. (r, some (encode_key l key ++ "\n"))) (decode_key-encode_key l key laws ∙ rw n refl)
