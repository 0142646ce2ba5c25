-- ===== src/Storage/Results.antt =====
-- What GetResult reads after SaveResult (internal/storage/storage.go).
use driftd.Prelude.{
  Option, none, is_some, after_prefix, has_prefix, if◌then◌else◌, String, Bool, false, some, List,
  [], ◌==◌, ◌≡◌, ◌≢◌, refl, sym, ap, ◌∙◌, Map, lookup, put, lookup-put, ok, err, external, after,
  result, eq_refl, eq_false_of_ne, >>=-ok, >>=-err, lift, ◌>>=◌, ◌>>◌, arith, eq_iff,
}
use driftd.Storage.{
  RunResult, PlanEncryption, Codec, Disk, make_dir, write_file_atomic, file_of, results_dir,
  decoded, encode_plan_output, decode_plan_output, validated, write_result, save_result, parsed,
  read_result, get_result, unavailable,
}
use Prim.Native.String.{◌++◌}
use Prim.Native.String.append

tail_of : String → String
tail_of String.[] = ""
tail_of (String.◌∷◌ c s) = s

append-cancel : (s t u : String) → s ++ t ≡ s ++ u → t ≡ u
unfolding tail_of
append-cancel String.[] t u e = sym (append.nil t) ∙ e ∙ append.nil u
append-cancel (String.◌∷◌ c s) t u e =
    append-cancel s t u (ap tail_of (sym (append.cons c s t) ∙ e ∙ append.cons c s u))

abbrev name_plan : String
name_plan = "plan.txt"

-- The two files of a stack are different ones.
two_files :
    (c : Codec) (base project stack : String)
    → (file_of c base project stack "plan.txt" == file_of c base project stack "status.json")
      ≡ false
two_files c base project stack =
    eq_false_of_ne (file_of c base project stack "plan.txt")
      (file_of c base project stack "status.json") (λ e. different (names e))
  where
    different : name_plan ≢ "status.json"
    different e = cc

    names :
        file_of c base project stack name_plan ≡ file_of c base project stack "status.json"
        → name_plan ≡ "status.json"
    names e =
        let in_base = append-cancel base _ _ e in
        let in_project = append-cancel project _ _ (append-cancel "/" _ _ in_base) in
        let in_stack = append-cancel (c.encode_path stack) _ _ (append-cancel "/" _ _ in_project) in
        append-cancel "/" _ _ in_stack

module _ (c : Codec) (p : PlanEncryption) (data_dir project stack : String) (r : RunResult)
    (s : Disk) where
  abbrev status_file : String
  status_file = file_of c (results_dir data_dir) project stack "status.json"

  abbrev plan_file : String
  plan_file = file_of c (results_dir data_dir) project stack "plan.txt"

  -- The disk with the new counts.
  abbrev with_status : Disk
  with_status = record { files = put status_file (c.marshal r) s.files; fails = [] }

  -- What SaveResult does once the counts are written.
  save_run :
      validated project stack ≡ ok tt
      → s.fails ≡ []
      → save_result c p data_dir project stack r s
        ≡ (lift (encode_plan_output p r.plan_output) >>= write_file_atomic plan_file) with_status
  unfolding save_result lift make_dir write_file_atomic
  save_run v f =
      >>=-ok (lift (validated project stack)) (λ _. write_result c p data_dir project stack r)
        (ap (λ x. (x, s)) v)
      ∙ >>=-ok (make_dir >> write_file_atomic status_file (c.marshal r))
          (λ _. lift (encode_plan_output p r.plan_output) >>= write_file_atomic plan_file)
          (>>=-ok make_dir (λ _. write_file_atomic status_file (c.marshal r)) {s = s}
            {s' = record { files = s.files; fails = [] }} (rw f refl))

  -- What GetResult reads when both files are there.
  get_run :
      (fails : List Bool) (m : Map String) (raw : String)
      → validated project stack ≡ ok tt
      → c.unmarshal (c.marshal r) ≡ some (record r { plan_output = "" })
      → lookup status_file m ≡ some (c.marshal r)
      → lookup plan_file m ≡ some raw
      → get_result c p data_dir project stack (record { files = m; fails = fails })
        ≡ ok (record r { plan_output = decode_plan_output p raw })
  unfolding get_result
  get_run fails m raw v j st pl = rw (v, st, read_result, parsed, j, pl) refl

-- A result that SaveResult wrote without a failing call of the disk is what GetResult reads, with
-- its output as it was encoded and decoded, whether it is the first of its stack or a later one.
-- JSON is to give back what it was given, without the output.
pub get_result-save_result :
    (c : Codec) (p : PlanEncryption) (data_dir project stack raw : String) (r : RunResult)
    (s : Disk)
    → c.unmarshal (c.marshal r) ≡ some (record r { plan_output = "" })
    → validated project stack ≡ ok tt
    → encode_plan_output p r.plan_output ≡ ok raw
    → decode_plan_output p raw ≡ r.plan_output
    → s.fails ≡ []
    → (result (save_result c p data_dir project stack r) s ≡ ok tt)
      × (get_result c p data_dir project stack (after (save_result c p data_dir project stack r) s)
          ≡ ok r)
unfolding lift write_file_atomic
get_result-save_result c p data_dir project stack raw r s j v e d f =
    let status = status_file c p data_dir project stack r s in
    let plan = plan_file c p data_dir project stack r s in
    let m = put plan raw (with_status c p data_dir project stack r s).files in
    let written : save_result c p data_dir project stack r s
        ≡ (ok tt, record { files = m; fails = [] }) =
      save_run c p data_dir project stack r s v f
      ∙ >>=-ok (lift (encode_plan_output p r.plan_output)) (write_file_atomic plan)
          (ap (λ x. (x, with_status c p data_dir project stack r s)) e) in
    let counts : lookup status m ≡ some (c.marshal r) =
      lookup-put plan raw status (with_status c p data_dir project stack r s).files
      ∙ rw (two_files c (results_dir data_dir) project stack)
          (lookup-put status (c.marshal r) status s.files ∙ rw (eq_refl status) refl) in
    let output : lookup plan m ≡ some raw =
      lookup-put plan raw plan (with_status c p data_dir project stack r s).files
      ∙ rw (eq_refl plan) refl in
    (
      ap (λ x. x.0) written,
      ap (λ x. get_result c p data_dir project stack x.1) written
          ∙ get_run c p data_dir project stack r s [] m raw v j counts output
          ∙ ap (λ t. ok (record r { plan_output = t })) d,
    )

is_some-after_prefix : (p s : String) → is_some (after_prefix p s) ≡ has_prefix p s
unfolding after_prefix has_prefix
is_some-after_prefix String.[] s = refl
is_some-after_prefix (String.◌∷◌ c p) String.[] = refl
is_some-after_prefix (String.◌∷◌ c p) (String.◌∷◌ d s) = ground (arith, is_some-after_prefix p s)

decoded_without_key :
    (old : String)
    → decode_plan_output unavailable old ≡ (if has_prefix "enc:v1:" old then "" else old)
unfolding decode_plan_output
decoded_without_key old =
    go (after_prefix "enc:v1:" old)
    ∙ ap (λ b. if b then "" else old) (is_some-after_prefix "enc:v1:" old)
  where
    go : (o : Option String) → decoded unavailable old o ≡ (if is_some o then "" else old)
    go none = refl
    go (some rest) = refl

-- Without a usable key, under a valid name, on a disk that does not fail and with a plan stored
-- before, SaveResult fails but has replaced the counts: GetResult, without the key, then answers
-- the new counts with the output of the plan before, or with none if that was stored encrypted.
-- JSON is to give back what it was given, without the output.
pub get_result-torn :
    (c : Codec) (data_dir project stack old : String) (r : RunResult) (s : Disk)
    → c.unmarshal (c.marshal r) ≡ some (record r { plan_output = "" })
    → validated project stack ≡ ok tt
    → lookup (file_of c (results_dir data_dir) project stack "plan.txt") s.files ≡ some old
    → s.fails ≡ []
    → (result (save_result c unavailable data_dir project stack r) s ≡ err external)
      × (get_result c unavailable data_dir project stack
            (after (save_result c unavailable data_dir project stack r) s)
          ≡ ok (record r { plan_output = if has_prefix "enc:v1:" old then "" else old }))
unfolding lift encode_plan_output
get_result-torn c data_dir project stack old r s j v h f =
    let p = unavailable in
    let status = status_file c p data_dir project stack r s in
    let plan = plan_file c p data_dir project stack r s in
    let m = put status (c.marshal r) s.files in
    let written : save_result c p data_dir project stack r s
        ≡ (err external, record { files = m; fails = [] }) =
      save_run c p data_dir project stack r s v f
      ∙ >>=-err (lift (encode_plan_output p r.plan_output)) (write_file_atomic plan)
          {s = record { files = m; fails = [] }} refl in
    let counts : lookup status m ≡ some (c.marshal r) =
      lookup-put status (c.marshal r) status s.files ∙ rw (eq_refl status) refl in
    let other : (status == plan) ≡ false = grind (
      arith,
      two_files c (results_dir data_dir) project stack,
      eq_iff status plan,
      eq_iff plan status,
    ) in
    let output : lookup plan m ≡ some old =
      lookup-put status (c.marshal r) plan s.files ∙ rw other h in
    (
      ap (λ x. x.0) written,
      ap (λ x. get_result c p data_dir project stack x.1) written
          ∙ get_run c p data_dir project stack r s [] m old v j counts output
          ∙ ap (λ t. ok (record r { plan_output = t })) (decoded_without_key old),
    )
