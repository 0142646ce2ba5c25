-- ===== src/Api/Webhooks/Selection.antt =====
-- What a push selects (internal/api/webhook.go), as sets of files and of stacks.
use mathlib.Core.Bool.{false≢true}
use driftd.Prelude.{
  ◌↔◌, ◌⊎◌, Below, Below-iff, suc, ℤ, pos, pos_part, ltb_ℤ, String, Bool, true, false, List, [],
  ◌∷◌, ◌++◌, ◌==◌, ◌≡◌, ◌≤◌, ◌<◌, refl, sym, ap, ◌∙◌, ltb, not, ◌&&◌, ◌||◌, elem, elem-append,
  elem-sort_strings, sort_strings, if◌then◌else◌, length, length-append, Bool-cases, inl, inr,
  arith, eq_iff, trim_prefix,
}
use driftd.Api.Webhooks.{
  touches, Commit, is_infra_file, paths_of, fresh, full, collect_files, extract_changed_files,
  touched, select, select_stacks_for_changes,
}

elem-select :
    (s : String) (files stacks : List String)
    → elem s (select files stacks) ≡ (elem s stacks && touched files s)
elem-select s files [] = refl
elem-select s files (t ∷ ts) = elim (Bool-cases (t == s)) [
  | inl h ↦
      let same : t ≡ s = (eq_iff t s).0 h in
      let touches_same : touched files t ≡ touched files s = ap (touched files) same in
      let elem_same : elem t (select files ts) ≡ elem s (select files ts) =
        ap (λ x. elem x (select files ts)) same in
      ground (arith, elem-select s files ts)
  | inr h ↦ grind (arith, elem-select s files ts)
]

elem-select_changed :
    (s : String) (stacks files : List String)
    → elem s (select_stacks_for_changes stacks files) ≡ (elem s stacks && touched files s)
unfolding select_stacks_for_changes
elem-select_changed s stacks [] = ground arith
elem-select_changed s stacks (f ∷ fs) =
    ap (λ b. elem s (if b then sort_strings (select (f ∷ fs) stacks) else [])) some_file
    ∙ elem-sort_strings s (select (f ∷ fs) stacks)
    ∙ elem-select s (f ∷ fs) stacks
  where
    some_file : ltb 0 (length (f ∷ fs)) ≡ true
    some_file = ground arith

-- One of the files lies below the stack.
abbrev pub Changed : String → List String → Type 0
Changed s [] = ⊥
Changed s (f ∷ fs) = Below s f ⊎ Changed s fs

touched-Changed : (s : String) (files : List String) → (touched files s ≡ true) ↔ Changed s files
touched-Changed s [] = (λ h. absurd (false≢true h), λ c. absurd c)
touched-Changed s (f ∷ fs) = (
  λ h. elim (Bool-cases (touches s f)) [
    | inl t ↦ inl ((Below-iff s f).0 t)
    | inr t ↦ inr ((touched-Changed s fs).0 (ground arith))
  ],
  λ k. elim k [
    | inl b ↦ let t : touches s f ≡ true = (Below-iff s f).1 b in ground arith
    | inr c ↦ let t = (touched-Changed s fs).1 c in ground arith
  ],
)

-- A push selects a stack exactly if it is a discovered one and a changed file lies below it: its
-- path begins with the stack and a slash, or the stack is the root.
pub elem-select_stacks_for_changes :
    (s : String) (stacks files : List String)
    → (elem s (select_stacks_for_changes stacks files) ≡ true)
      ↔ ((elem s stacks ≡ true) × Changed s files)
elem-select_stacks_for_changes s stacks files =
    let e = elem-select_changed s stacks files in
    (
      λ h. (ground arith, (touched-Changed s files).0 (ground arith)),
      λ (found, c). let t = (touched-Changed s files).1 c in ground arith,
    )

-- The files in question, without the order and the limit.
abbrev trimmed : List String → List String
trimmed [] = []
trimmed (p ∷ ps) = trim_prefix "/" p ∷ trimmed ps

elem-collect_files :
    (max_files : ℤ) (x : String) (files ps : List String)
    → ltb_ℤ (pos 0) max_files ≡ false
    → elem x (collect_files max_files files ps)
      ≡ (elem x files || (not (x == "") && is_infra_file x) && elem x (trimmed ps))
elem-collect_files max_files x files [] n = ground arith
elem-collect_files max_files x files (p ∷ ps) n =
    let path = trim_prefix "/" p in
    let more = files ++ (path ∷ []) in
    let q = not (x == "") && is_infra_file x in
    let same : path == x ≡ true → fresh path files ≡ fresh x files =
      λ h. ap (λ y. fresh y files) ((eq_iff path x).0 h) in
    elim (Bool-cases (fresh path files)) [
      | inl h ↦
          let open_end : full max_files more ≡ false = ground arith in
          let rest = elem-collect_files max_files x more ps n in
          rw (collect_files, h, open_end)
            (rest
              ∙ ap (λ b. b || q && elem x (trimmed ps)) (elem-append x files (path ∷ []))
              ∙ kept (elem x files) q (path == x) (elem x (trimmed ps))
                  (λ e. left q (not (elem x files)) (sym (same e) ∙ h)))
      | inr h ↦
          rw (collect_files, h)
            (elem-collect_files max_files x files ps n
              ∙ dropped (elem x files) q (path == x) (elem x (trimmed ps)) (λ e. sym (same e) ∙ h))
    ]
  where
    left : (a b : Bool) → (a && b) ≡ true → a ≡ true
    left true b h = refl
    left false b h = h

    no : ¬ (true ≡ false)
    no e = cc

    kept :
        (f q e r : Bool)
        → (e ≡ true → q ≡ true)
        → ((f || (e || false)) || q && r) ≡ (f || q && (e || r))
    kept true q e r h = refl
    kept false q true r h = rw (h refl) refl
    kept false q false r h = refl

    dropped :
        (f q e r : Bool) → (e ≡ true → (q && not f) ≡ false) → (f || q && r) ≡ (f || q && (e || r))
    dropped true q e r h = refl
    dropped false q false r h = refl
    dropped false true true r h = absurd (no (h refl))
    dropped false false true r h = refl

length-collect_files :
    (max_files : ℤ) (files ps : List String)
    → ltb_ℤ (pos 0) max_files ≡ true
    → length files < pos_part max_files
    → length (collect_files max_files files ps) ≤ pos_part max_files
length-collect_files max_files files [] n h = omega (arith, h)
length-collect_files max_files files (p ∷ ps) n h =
    let more = files ++ (trim_prefix "/" p ∷ []) in
    let size : length more ≡ suc (length files) =
      omega (arith, length-append files (trim_prefix "/" p ∷ [])) in
    elim (Bool-cases (fresh (trim_prefix "/" p) files)) [
      | inl k ↦ elim (Bool-cases (full max_files more)) [
        | inl f ↦ rw (length, k, f) (omega arith)
        | inr f ↦ rw (length, k, f) (length-collect_files max_files more ps n (ground arith))
      ]
      | inr k ↦ rw (length, k) (length-collect_files max_files files ps n h)
    ]

-- The files that a push changes, without a limit, are the paths of its commits, each without a
-- slash in front, that are not empty and belong to Terraform or Terragrunt.
pub elem-extract_changed_files :
    (commits : List Commit) (max_files : ℤ) (x : String)
    → ltb_ℤ (pos 0) max_files ≡ false
    → elem x (extract_changed_files commits max_files)
      ≡ ((not (x == "") && is_infra_file x) && elem x (trimmed (paths_of commits)))
unfolding extract_changed_files
elem-extract_changed_files commits max_files x n =
    elem-collect_files max_files x [] (paths_of commits) n

-- With a limit there are at most so many of them.
pub length-extract_changed_files :
    (commits : List Commit) (max_files : ℤ)
    → ltb_ℤ (pos 0) max_files ≡ true
    → length (extract_changed_files commits max_files) ≤ pos_part max_files
unfolding extract_changed_files
length-extract_changed_files commits max_files n =
    length-collect_files max_files [] (paths_of commits) n (ground arith)
