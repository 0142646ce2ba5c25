-- ===== src/Prelude/Effects.antt =====
-- Go's `error` results as values, and actions on a state that may fail. What an action wrote
-- before it failed stays written, so the state comes back beside the error too.
use mathlib.Core.Path.{◌≡◌, refl, ap}
use mathlib.Core.Bool.{Bool, true, false}
use mathlib.Core.Option.{Option, none, some}

pub data Error : Type 0 where
  -- the call of Redis failed (the network, a timeout, a reply that is an error)
  redis_error : Error
  -- the sentinels of internal/queue
  project_locked stack_scan_not_found stack_scan_inflight scan_not_found : Error
  already_claimed clone_lock_not_owned : Error
  -- the value is not what the caller expects
  unexpected_reply : Error
  -- internal/orchestrate
  no_stacks_discovered no_stacks_enqueued : Error
  -- the sentinels of internal/secrets and internal/storage
  project_not_found project_already_exists : Error
  integration_not_found integration_already_exists : Error
  invalid_key_size invalid_ciphertext decryption_failed : Error
  invalid_project_name invalid_stack_path : Error
  -- what the program refuses with a text of its own
  rejected : Error
  -- an error of a component outside the model: git, the file system, the credentials
  external : Error

pub data Result {ℓ} (A : Type ℓ) : Type ℓ where
  ok : A → Result A
  err : Error → Result A

abbrev pub is_ok {ℓ} : {A : Type ℓ} → Result A → Bool
is_ok (ok a) = true
is_ok (err e) = false

abbrev pub Action {ℓ} : Type ℓ → Type ℓ → Type ℓ
Action S A = S → Result A × S

module _ {ℓ} {S A : Type ℓ} where
  unfoldable pub pure : A → Action S A
  pure a s = (ok a, s)

  unfoldable pub raise : Error → Action S A
  raise e s = (err e, s)

  unfoldable pub lift : Result A → Action S A
  lift r s = (r, s)

module _ {ℓ} {S A B : Type ℓ} where
  abbrev pub resume : Result A → (Error → Action S B) → (A → Action S B) → Action S B
  resume (ok a) g f s = f a s
  resume (err e) g f s = g e s

  -- `v, err := call(); if err != nil { g } else { f }`.
  -- Opening this opens `pure`, `raise` and `lift` too.
  unfoldable pub examine : Action S A → (Error → Action S B) → (A → Action S B) → Action S B
  unfolding pure raise lift
  examine m g f s = let (r, s') = m s in resume r g f s'

  infixl 10 ◌>>=◌ ◌>>◌
  -- `if err != nil { return err }`.
  unfoldable pub ◌>>=◌ : Action S A → (A → Action S B) → Action S B
  unfolding examine
  m >>= f = examine m raise f

  abbrev pub ◌>>◌ : Action S A → Action S B → Action S B
  m >> n = m >>= λ _. n

-- `_ = call()`: the error is dropped.
unfoldable pub ignore : {S A : Type 0} → Action S A → Action S Unit
unfolding examine
ignore m = examine m (λ _. pure tt) (λ _. pure tt)

-- A nil answer, or a value.
unfoldable pub cases : {S A B : Type 0} → Option A → Action S B → (A → Action S B) → Action S B
cases none g f = g
cases (some a) g f = f a

-- The state that an action leaves, and its result.
module _ {ℓ} {S A : Type ℓ} where
  abbrev pub after : Action S A → S → S
  after m s = (m s).1

  abbrev pub result : Action S A → S → Result A
  result m s = (m s).0

-- The parts of a run, put together.
module _ {ℓ} {S A B : Type ℓ} where
  pub examine-ok :
      (m : Action S A) (g : Error → Action S B) (f : A → Action S B) {s s' : S} {a : A}
      → m s ≡ (ok a, s')
      → examine m g f s ≡ f a s'
  unfolding examine
  examine-ok m g f e = ap (λ p. resume p.0 g f p.1) e

  pub examine-err :
      (m : Action S A) (g : Error → Action S B) (f : A → Action S B) {s s' : S} {x : Error}
      → m s ≡ (err x, s')
      → examine m g f s ≡ g x s'
  unfolding examine
  examine-err m g f e = ap (λ p. resume p.0 g f p.1) e

  pub >>=-ok :
      (m : Action S A) (f : A → Action S B) {s s' : S} {a : A}
      → m s ≡ (ok a, s')
      → (m >>= f) s ≡ f a s'
  unfolding ◌>>=◌
  >>=-ok m f e = examine-ok m raise f e

  pub >>=-err :
      (m : Action S A) (f : A → Action S B) {s s' : S} {x : Error}
      → m s ≡ (err x, s')
      → (m >>= f) s ≡ (err x, s')
  unfolding ◌>>=◌
  >>=-err m f e = examine-err m raise f e

ignore-result :
    {S A : Type 0} (x : Result A) (s : S)
    → resume {B = Unit {0}} x (λ _. pure tt) (λ _. pure tt) s ≡ (ok tt, s)
unfolding pure
ignore-result (ok a) s = refl
ignore-result (err e) s = refl

pub ignore_lem : {S A : Type 0} (m : Action S A) (s : S) → ignore m s ≡ (ok tt, after m s)
unfolding ignore
ignore_lem m s = let (x, s') = m s in ignore-result x s'
