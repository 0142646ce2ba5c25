-- ===== src/Examples/Around.antt =====
-- The theorems on versions, stacks and the start of a scan, at concrete data.
use driftd.Prelude.{
  ◌↔◌, has_prefix, none, external, after, String, true, [], ◌∷◌, ◌≡◌, refl, inr, ok, err, elem,
  ◌==◌, if◌then◌else◌, result,
}
use driftd.Queue.Store.{online}
use driftd.Version.{detect, collect, collapse_if_single, drop_default}
use driftd.Version.Resolution.{version_for, detect-version_at}
use driftd.Stack.{has_child, filter_parent_stacks}
use driftd.Stack.Leaves.{Leaf, filter_parent_stacks-Leaf}
use driftd.Orchestrate.Cloning.{clone_locked-free}
use driftd.Orchestrate.{Outside, clone_locked, ProjectConfig, Clock}
use driftd.Examples.Data.{server, busy}

-- The stack a has its own version file, the others have none.
abbrev own : String → String
own s = if s == "a" then "1.5" else ""

detect-version_at_example : version_for (detect "1.3" own ("a" ∷ "b" ∷ [])) "a" ≡ "1.5"
detect-version_at_example =
    detect-version_at "1.3" own ("a" ∷ "b" ∷ []) "a" refl refl (inr (inr ("b", refl, refl, refl)))

-- All stacks have the same version, another one than the root's: it is lost.
lost_version : version_for (detect "1.3" own ("a" ∷ [])) "a" ≡ "1.3"
unfolding detect collect collapse_if_single drop_default
lost_version = refl

filter_parent_stacks-Leaf_example :
    (elem "a/b" (filter_parent_stacks ("a" ∷ "a/b" ∷ "c" ∷ [])) ≡ true)
    ↔ Leaf "a/b" ("a" ∷ "a/b" ∷ "c" ∷ [])
filter_parent_stacks-Leaf_example = filter_parent_stacks-Leaf ("a" ∷ "a/b" ∷ "c" ∷ []) "a/b"

filtered : filter_parent_stacks ("a" ∷ "a/b" ∷ "c" ∷ []) ≡ "a/b" ∷ "c" ∷ []
unfolding filter_parent_stacks has_child has_prefix
filtered = refl

abbrev config : ProjectConfig
config = record { name = "infra"; url = ""; cancel_inflight = true }

abbrev clock : Clock
clock = record { id_at = 5; started = 5; new_id_at = 6; superseded = 6; ended = 7 }

-- git fails; the lock is renewed twice before.
abbrev outside : Outside
outside = record {
  auth = ok tt;
  clone_url = "git";
  url_hash = "f00";
  git = err external;
  tries = 1;
  renewals = 2;
  discover = ok [];
  detect = err external;
  said = λ _. "failed";
}

clone_locked-free_example :
    (result (clone_locked outside "infra:1" 60_000) (online busy) ≡ err external)
    × (server.ids.get
          (after (clone_locked outside "infra:1" 60_000) (online busy)).db.clone_locks
          "f00"
        ≡ none)
clone_locked-free_example = clone_locked-free outside "infra:1" 60_000 0 busy refl refl
