-- ===== src/Queue/Keys.antt =====
-- Names built from names: scan ids (scan_store.go), stack scan ids and inflight keys
-- (stack_scan_queue.go). Go's `%d` prints at most 20 digits of a 64-bit number.
use Prim.Native.Char.{code}
use Prim.Native.String.{◌++◌}
use driftd.Prelude.{ℕ, zero, suc, ◌/◌, ◌%◌, String, nat_eq, ◌==◌, if◌then◌else◌, ltb}

abbrev digit : ℕ → String
digit zero = "0"
digit (suc zero) = "1"
digit (suc (suc zero)) = "2"
digit (suc (suc (suc zero))) = "3"
digit (suc (suc (suc (suc zero)))) = "4"
digit (suc (suc (suc (suc (suc zero))))) = "5"
digit (suc (suc (suc (suc (suc (suc zero)))))) = "6"
digit (suc (suc (suc (suc (suc (suc (suc zero))))))) = "7"
digit (suc (suc (suc (suc (suc (suc (suc (suc zero)))))))) = "8"
digit _ = "9"

print_digits : ℕ → ℕ → String → String
print_digits zero n s = s
print_digits (suc fuel) n s =
    let rest = print_digits fuel (n / 10) (digit (n % 10) ++ s) in
    if ltb n 10 then digit n ++ s else rest

-- Go's `%d` of a number below 2 ^ 64.
unfoldable pub decimal : ℕ → String
unfolding print_digits
decimal n = print_digits 20 n ""

-- fmt.Sprintf("%s:%d", projectName, time.Now().UnixNano())
unfoldable pub scan_id_of : String → ℕ → String
unfolding decimal
scan_id_of project nanos = project ++ (":" ++ decimal nanos)

-- fmt.Sprintf("%s:%s:%d:%d", project, stackPath, nanos, rand.Int31())
unfoldable pub stack_scan_id_of : String → String → ℕ → ℕ → String
unfolding decimal
stack_scan_id_of project path nanos salt =
    project ++ (":" ++ (path ++ (":" ++ (decimal nanos ++ (":" ++ decimal salt)))))

-- strings.ReplaceAll(stackPath, "/", "__")
unfoldable pub safe_stack_key : String → String
safe_stack_key String.[] = ""
safe_stack_key (String.◌∷◌ c s) =
    let rest = safe_stack_key s in if nat_eq (code c) b'/' then "__" ++ rest else String.◌∷◌ c rest

-- The name under the prefix driftd:stack_scan:inflight:.
unfoldable pub inflight_key : String → String → String
unfolding safe_stack_key
inflight_key project path = if path == "" then project else project ++ (":" ++ safe_stack_key path)
