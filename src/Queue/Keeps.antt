-- ===== src/Queue/Keeps.antt =====
-- Invariants of the queue's functions under every schedule of faults: one rule for each way in
-- which a function is put together.
use driftd.Prelude.{
  Bool, true, false, Option, none, some, List, [], ◌∷◌, Result, ok, err, Error, Action, after, pure,
  raise, lift, resume, examine, ◌>>=◌, ignore, cases, if◌then◌else◌,
}
use driftd.Redis.{Redis}
use driftd.Queue.Types.{StackScan}
use driftd.Queue.Store.{Db, Store, Script, Fault, served, refused, lost, send, call}

-- From a state where `I` holds the action comes to one where it holds, with an answer or an error.
pub record Keeps {S A : Type 0} (I : S → Type 0) (act : Action S A) : Type 0 where
  pub holds_after : (before : S) → I before → I (after act before)

module _ {S : Type 0} {I : S → Type 0} {A : Type 0} where
  pub Keeps-if :
      (test : Bool) (yes_act no_act : Action S A)
      → Keeps I yes_act
      → Keeps I no_act
      → Keeps I (if test then yes_act else no_act)
  Keeps-if true _ _ k _ = k
  Keeps-if false _ _ _ k = k

  -- What only answers leaves the state alone.
  pub Keeps-lift : (answer : Result A) → Keeps I (lift answer)
  unfolding lift
  Keeps-lift _ = record { holds_after = λ _ i. i }

  pub Keeps-raise : (e : Error) → Keeps I (raise {A = A} e)
  unfolding lift raise
  Keeps-raise e = Keeps-lift (err e)

  pub Keeps-pure : (value : A) → Keeps I (pure value)
  unfolding lift pure
  Keeps-pure value = Keeps-lift (ok value)

module _ {S A B : Type 0} {P : S → Type 0} where
  pub Keeps-examine :
      (m : Action S A) (g : Error → Action S B) (f : A → Action S B)
      → Keeps P m
      → ((e : Error) → Keeps P (g e))
      → ((a : A) → Keeps P (f a))
      → Keeps P (examine m g f)
  unfolding examine
  Keeps-examine m g f km kg kf = record {
    holds_after = λ s h. let (x, s') = m s in go x s' (km.holds_after s h);
  }
    where
      go : (x : Result A) (s : S) → P s → P (resume x g f s).1
      go (ok a) s h = (kf a).holds_after s h
      go (err e) s h = (kg e).holds_after s h

  pub Keeps-bind :
      (first : Action S A) (rest : A → Action S B)
      → Keeps P first
      → ((value : A) → Keeps P (rest value))
      → Keeps P (first >>= rest)
  unfolding ◌>>=◌
  Keeps-bind first rest k ks = Keeps-examine first raise rest k Keeps-raise ks

  pub Keeps-cases :
      (o : Option A) (g : Action S B) (f : A → Action S B)
      → Keeps P g
      → ((a : A) → Keeps P (f a))
      → Keeps P (cases o g f)
  unfolding cases
  Keeps-cases none g f kg kf = kg
  Keeps-cases (some a) g f kg kf = kf a

pub Keeps-ignore : {S A : Type 0} {P : S → Type 0} (m : Action S A) → Keeps P m → Keeps P (ignore m)
unfolding ignore
Keeps-ignore m km = Keeps-examine m _ _ km (λ _. Keeps-pure tt) (λ _. Keeps-pure tt)

-- A statement about the data, read of a store.
abbrev pub OfDb : {r : Redis StackScan} → (Db r → Type 0) → Store r → Type 0
OfDb P s = P s.db

module _ {r : Redis StackScan} {A : Type 0} (P : Db r → Type 0) where
  send-keeps :
      (fs : List Fault) (c : Script r A) (d : Db r) → P d → P (c d).1 → P (send fs c d).1.db
  send-keeps [] c d h k = k
  send-keeps (served ∷ fs) c d h k = k
  send-keeps (refused ∷ fs) c d h k = h
  send-keeps (lost ∷ fs) c d h k = k

module _ {r : Redis StackScan} {A : Type 0} {P : Db r → Type 0} where
  -- A round trip keeps what its script keeps, whether it is refused, served, or loses its reply.
  pub Keeps-call : (c : Script r A) → Keeps P c → Keeps (OfDb P) (call c)
  unfolding call
  Keeps-call c k = record {
    holds_after = λ s h. send-keeps P s.faults c s.db h (k.holds_after s.db h);
  }

pub ruleset keeps_rules = (
  Keeps-pure, Keeps-raise, Keeps-lift, Keeps-if, Keeps-examine, Keeps-bind, Keeps-cases,
  Keeps-ignore, Keeps-call,
)
