-- ===== src/Storage.antt =====
-- internal/storage/storage.go with internal/pathutil: the result of a plan as two files, one with the counts and
-- one with the output, which may be encrypted. base64, JSON and the encryption are parameters. A disk is a
-- map from paths to contents; `fails` says of its next calls whether they fail, and afterwards
-- none does. A written file is there whole or, on a failure, as it was.
pub mod Results
use driftd.Prelude.{
  ℕ, suc, ltb, length, ℤ, String, Bool, true, false, Option, none, some, List, [], ◌∷◌, ◌==◌, not,
  ◌&&◌, ◌||◌, if◌then◌else◌, get_or, Map, lookup, put, Result, ok, err, Error, external,
  invalid_project_name, invalid_stack_path, Action, pure, raise, lift, examine, ◌>>=◌, ◌>>◌, clean,
  has_prefix, trim_prefix, after_prefix,
}
use driftd.Config.Projects.{is_valid_project_name}
use Prim.Native.String.{◌++◌}

pub record RunResult : Type 0 where
  pub drifted : Bool
  pub added : ℤ
  pub changed : ℤ
  pub destroyed : ℤ
  pub plan_output : String
  pub error : String
  pub run_at : ℕ

-- secrets.Encryptor
pub record PlanCipher : Type 0 where
  pub encrypt : String → Result String
  pub decrypt : String → Result String

-- planEncryptor and planEncryptorInitErr
pub data PlanEncryption : Type 0 where
  unavailable plain : PlanEncryption
  encrypted : PlanCipher → PlanEncryption

-- encoding/base64 without padding, and encoding/json, which leaves out the plan's output
pub record Codec : Type 0 where
  pub encode_path : String → String
  pub marshal : RunResult → String
  pub unmarshal : String → Option RunResult

pub record Disk : Type 0 where
  pub files : Map String
  pub fails : List Bool

-- A call that changes the disk, if it does not fail.
abbrev pub disk_call : (Map String → Map String) → Action Disk Unit
disk_call f s = elim s.fails [
  | [] ↦ (ok tt, record s { files = f s.files })
  | false ∷ rest ↦ (ok tt, record s { files = f s.files; fails = rest })
  | true ∷ rest ↦ (err external, record s { fails = rest })
]

-- os.MkdirAll; a directory is not a file
unfoldable pub make_dir : Action Disk Unit
make_dir = disk_call (λ m. m)

unfoldable pub write_file_atomic : String → String → Action Disk Unit
write_file_atomic path content = disk_call (put path content)

-- pathutil.IsSafeStackPath
unfoldable pub is_safe_stack_path : String → Bool
is_safe_stack_path path =
    path == ""
    || not (has_prefix "/" path) && not (clean path == "..") && not (has_prefix "../" (clean path))

-- stackDir below a base directory, and a file in it; the parts are names, which Join leaves as they are, for a
-- project other than `.` and `..`
abbrev pub file_of : Codec → String → String → String → String → String
file_of c base project stack name =
    base ++ ("/" ++ (project ++ ("/" ++ (c.encode_path stack ++ ("/" ++ name)))))

abbrev pub results_dir : String → String
results_dir data_dir = data_dir ++ "/results"

unfoldable pub encode_plan_output : PlanEncryption → String → Result String
encode_plan_output unavailable text = err external
encode_plan_output plain text = ok text
encode_plan_output (encrypted c) text = elim (c.encrypt text) [
  | ok sealed ↦ ok ("enc:v1:" ++ sealed)
  | err e ↦ err e
]

abbrev or_empty : Result String → String
or_empty (ok text) = text
or_empty (err e) = ""

abbrev pub opened : PlanEncryption → String → String
opened (encrypted c) text = or_empty (c.decrypt text)
opened unavailable text = ""
opened plain text = ""

-- What stands behind the prefix is decrypted; a text without it is the output.
abbrev pub decoded : PlanEncryption → String → Option String → String
decoded p raw none = raw
decoded p raw (some rest) = opened p rest

unfoldable pub decode_plan_output : PlanEncryption → String → String
decode_plan_output p raw = decoded p raw (after_prefix "enc:v1:" raw)

unfoldable pub validated : String → String → Result {0} Unit
validated project stack =
    if not (is_valid_project_name project)
    then err invalid_project_name
    else if not (is_safe_stack_path stack)
    then err invalid_stack_path
    else ok tt

abbrev pub write_result :
    Codec → PlanEncryption → String → String → String → RunResult → Action Disk Unit
write_result c p data_dir project stack r =
    make_dir
    >> write_file_atomic (file_of c (results_dir data_dir) project stack "status.json")
        (c.marshal r)
    >> (lift (encode_plan_output p r.plan_output)
        >>= write_file_atomic (file_of c (results_dir data_dir) project stack "plan.txt"))

unfoldable pub save_result :
    Codec → PlanEncryption → String → String → String → RunResult → Action Disk Unit
unfolding ◌>>=◌
save_result c p data_dir project stack r =
    lift (validated project stack) >> write_result c p data_dir project stack r

abbrev pub with_plan : PlanEncryption → RunResult → Option String → RunResult
with_plan p r none = r
with_plan p r (some raw) = record r { plan_output = decode_plan_output p raw }

abbrev pub parsed :
    Codec
    → PlanEncryption
    → String
    → String
    → String
    → Map String
    → Option String
    → Result RunResult
parsed c p base project stack files none = err external
parsed c p base project stack files (some text) = elim (c.unmarshal text) [
  | none ↦ err external
  | some r ↦ ok (with_plan p r (lookup (file_of c base project stack "plan.txt") files))
]

-- The new layout, and the old one if there is no status in the new.
abbrev pub read_result :
    Codec
    → PlanEncryption
    → String
    → String
    → String
    → Map String
    → Option String
    → Result RunResult
read_result c p data_dir project stack files (some text) =
    parsed c p (results_dir data_dir) project stack files (some text)
read_result c p data_dir project stack files none =
    parsed c p data_dir project stack files
      (lookup (file_of c data_dir project stack "status.json") files)

abbrev pub and_then : {A B : Type 0} → Result A → Result B → Result B
and_then (err e) r = err e
and_then (ok a) r = r

unfoldable pub get_result :
    Codec → PlanEncryption → String → String → String → Disk → Result RunResult
get_result c p data_dir project stack s = and_then (validated project stack) (
    read_result c p data_dir project stack s.files
      (lookup (file_of c (results_dir data_dir) project stack "status.json") s.files))

-- The status of a stack in a list of stacks.
pub record StackStatus : Type 0 where
  pub path : String
  pub drifted : Bool
  pub added : ℤ
  pub changed : ℤ
  pub destroyed : ℤ
  pub error : String
  pub run_at : ℕ

pub record ProjectStatus : Type 0 where
  pub name : String
  pub drifted : Bool
  pub stacks : ℕ
  pub drifted_stacks : ℕ

unfoldable pub is_reserved_project_dir : String → Bool
is_reserved_project_dir name = name == "workspaces" || name == "results"

abbrev drifted_count : List StackStatus → ℕ
drifted_count [] = 0
drifted_count (s ∷ ss) = let rest = drifted_count ss in if s.drifted then suc rest else rest

-- The status of one project in ListRepos.
unfoldable pub project_status : String → List StackStatus → ProjectStatus
project_status name stacks = record {
  name = name;
  drifted = ltb 0 (drifted_count stacks);
  stacks = length stacks;
  drifted_stacks = drifted_count stacks;
}

abbrev stack_status : String → RunResult → StackStatus
stack_status path r = record {
  path = path;
  drifted = r.drifted;
  added = r.added;
  changed = r.changed;
  destroyed = r.destroyed;
  error = r.error;
  run_at = r.run_at;
}

abbrev put_status : String → Result RunResult → Map StackStatus → Map StackStatus
put_status path (err e) m = m
put_status path (ok r) m = put path (stack_status path r) m

-- The stacks of the directories of one project, the old layout's first, with `decode` for decodeSafePath.
unfoldable pub merge_stacks :
    Codec
    → PlanEncryption
    → (String → String)
    → String
    → String
    → Disk
    → List String
    → Map StackStatus
    → Map StackStatus
merge_stacks c p decode data_dir project s [] m = m
merge_stacks c p decode data_dir project s (dir ∷ dirs) m =
    merge_stacks c p decode data_dir project s dirs (
      if is_safe_stack_path (decode dir)
      then put_status (decode dir) (get_result c p data_dir project (decode dir) s) m
      else m)
