-- ===== src/Queue/Transitions/Counts.antt =====
-- What the counters of a scan mean, apart from Redis: a number for each counter's name.
use driftd.Prelude.{
  ℕ, ℤ, pos, negsuc, ◌+◌, ◌-◌, suc, String, Bool, true, ◌||◌, List, [], ◌∷◌, ◌==◌, ◌≡◌, ◌↔◌,
  if◌then◌else◌, arith, nat_eq, leb,
}
use driftd.Queue.Transitions.{all_done}

abbrev pub Counts : Type 0
Counts = String → ℕ

-- A count moves by `z` and stops at 0.
abbrev pub shift : ℕ → ℤ → ℕ
shift n (pos k) = n + k
shift n (negsuc k) = n - suc k

abbrev pub bump : String → ℤ → Counts → Counts
bump f z c g = if f == g then shift (c g) z else c g

abbrev pub bump_all : List (String × ℤ) → Counts → Counts
bump_all [] c = c
bump_all ((f, z) ∷ l) c = bump_all l (bump f z c)

-- Every stack scan of the scan is counted in one place.
abbrev pub Balanced : Counts → Type 0
Balanced c = c "total" ≡ c "queued" + c "running" + c "completed" + c "failed"

-- Work is left.
abbrev pub Drained : Counts → Type 0
Drained c = (c "queued" ≡ 0) × (c "running" ≡ 0)

-- Whether the script's test passes at these counts.
unfoldable pub is_done : Counts → Bool
is_done c = nat_eq (c "total") 0 || leb (c "total") (c "completed" + c "failed")

pub all_done-is_done :
    (c : Counts) → all_done (pos (c "total")) (pos (c "completed")) (pos (c "failed")) ≡ is_done c
unfolding all_done is_done
all_done-is_done c = ground arith

-- At balanced counts the test passes exactly when nothing is queued and nothing runs.
pub is_done-Drained : (c : Counts) → Balanced c → (is_done c ≡ true) ↔ Drained c
unfolding is_done
is_done-Drained c b = ground arith
