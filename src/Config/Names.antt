-- ===== src/Config/Names.antt =====
-- The names of the projects of a configuration (internal/config/config.go), for the lookups by name.
use driftd.Prelude.{
  String, Bool, true, false, Option, none, some, List, [], ◌∷◌, ◌++◌, ◌==◌, ◌≡◌, refl, sym, ap,
  subst, ◌∙◌, ◌||◌, elem, ltb, if◌then◌else◌, Result, ok, err, All, Bool-cases, inl, inr, or_else,
  is_some, length, trim_space, arith, eq_refl,
}
use driftd.Config.{MonorepoProjectConfig, ProjectConfig, get_project}
use driftd.Config.Projects.{
  Expansion, is_valid_project_name, normalize_project_path, validate_no_overlapping_project_paths,
  cons_result, with_path, checked_part, checked_parts, paths_of, part_projects, if_disjoint,
  expand_parts, expand_project_projects, append_expanded_project, and_then, append_all,
  expand_project, expand_all, finished, expand_monorepos,
}

-- The project has a valid name.
abbrev Named : ProjectConfig → Type 0
Named p = is_valid_project_name p.name ≡ true

-- A result that, if it is one, has the property.
abbrev Holds {ℓ} : {A : Type 0} → (A → Type ℓ) → Result A → Type ℓ
Holds P (err e) = Unit
Holds P (ok a) = P a

abbrev PartNamed : MonorepoProjectConfig → Type 0
PartNamed p = is_valid_project_name p.name ≡ true

checked_part-Named : (p : MonorepoProjectConfig) → Holds PartNamed (checked_part p)
checked_part-Named p = elim (Bool-cases (is_valid_project_name p.name)) [
  | inl h ↦ rw h (go h (normalize_project_path p.path))
  | inr h ↦ rw h tt
]
  where
    go : PartNamed p → (x : Result String) → Holds PartNamed (with_path p x)
    go h (err e) = tt
    go h (ok path) = h

cons-Holds :
    {A : Type 0} (P : A → Type 0) (x : Result A) (xs : Result (List A))
    → Holds P x
    → Holds (All P) xs
    → Holds (All P) (cons_result x xs)
cons-Holds P (err e) xs h k = tt
cons-Holds P (ok x) (err e) h k = tt
cons-Holds P (ok x) (ok xs) h k = (h, k)

checked_parts-Named : (ps : List MonorepoProjectConfig) → Holds (All PartNamed) (checked_parts ps)
checked_parts-Named [] = tt
checked_parts-Named (p ∷ ps) =
    cons-Holds PartNamed (checked_part p) (checked_parts ps) (checked_part-Named p)
      (checked_parts-Named ps)

part_projects-Named :
    (parent : ProjectConfig) (ps : List MonorepoProjectConfig)
    → All PartNamed ps
    → All Named (part_projects parent ps)
part_projects-Named parent [] h = tt
part_projects-Named parent (p ∷ ps) (n, h) = (n, part_projects-Named parent ps h)

expand_parts-Named :
    (parent : ProjectConfig) (x : Result (List MonorepoProjectConfig))
    → Holds (All PartNamed) x
    → Holds (All Named) (expand_parts parent x)
expand_parts-Named parent (err e) h = tt
expand_parts-Named parent (ok ps) h = go (validate_no_overlapping_project_paths (paths_of ps))
  where
    go : (v : Result {0} Unit) → Holds (All Named) (if_disjoint parent ps v)
    go (err e) = tt
    go (ok tt) = part_projects-Named parent ps h

expand_project-Named : (p : ProjectConfig) → Holds (All Named) (expand_project p)
unfolding expand_project expand_project_projects
expand_project-Named p = elim (Bool-cases (is_valid_project_name p.name)) [
  | inr h ↦ rw h tt
  | inl h ↦ elim (Bool-cases (trim_space p.url == "")) [
    | inl u ↦ rw (h, u) tt
    | inr u ↦ elim (Bool-cases (ltb 0 (length p.projects))) [
      | inl l ↦
          rw (h, u, l)
            (expand_parts-Named p (checked_parts p.projects) (checked_parts-Named p.projects))
      | inr l ↦ rw (h, u, l) (h, tt)
    ]
  ]
]

get_project-append :
    (n : String) (xs : List ProjectConfig) (p : ProjectConfig)
    → get_project n (xs ++ (p ∷ []))
      ≡ or_else (get_project n xs) (if p.name == n then some p else none)
unfolding get_project
get_project-append n [] p = refl
get_project-append n (x ∷ xs) p = ground (arith, get_project-append n xs p)

-- The project is the one that its name finds, and the name is valid.
abbrev Found : List ProjectConfig → ProjectConfig → Type 0
Found ps p = (get_project p.name ps ≡ some p) × Named p

abbrev Tracked : Expansion → Type 0
Tracked x =
    All (Found x.expanded) x.expanded
    × ((n : String) → elem n x.seen ≡ is_some (get_project n x.expanded))

Found-append :
    (xs ys : List ProjectConfig) (p : ProjectConfig)
    → All (Found xs) ys
    → All (Found (xs ++ (p ∷ []))) ys
Found-append xs [] p h = tt
Found-append xs (y ∷ ys) p ((e, n), h) = (
  (
    get_project-append y.name xs p
        ∙ ap (λ o. or_else o (if p.name == y.name then some p else none)) e,
    n,
  ),
  Found-append xs ys p h,
)

All-snoc :
    {A : Type 0} (P : A → Type 0) (xs : List A) (y : A) → All P xs → P y → All P (xs ++ (y ∷ []))
All-snoc P [] y h k = (k, tt)
All-snoc P (x ∷ xs) y (a, h) k = (a, All-snoc P xs y h k)

append_expanded-Tracked :
    (p : ProjectConfig) (x : Expansion)
    → Named p
    → Tracked x
    → Holds Tracked (append_expanded_project p x)
unfolding append_expanded_project
append_expanded-Tracked p x n (f, s) = elim (Bool-cases (elem p.name x.seen)) [
  | inl h ↦ rw h tt
  | inr h ↦ rw h (all h, seen)
]
  where
    absent : elem p.name x.seen ≡ false → get_project p.name x.expanded ≡ none
    absent h = go (get_project p.name x.expanded) (sym (s p.name) ∙ h)
      where
        go : (o : Option ProjectConfig) → is_some o ≡ false → o ≡ none
        go none e = refl
        go (some q) e = cc

    all : elem p.name x.seen ≡ false → All (Found (x.expanded ++ (p ∷ []))) (x.expanded ++ (p ∷ []))
    all h =
        All-snoc (Found (x.expanded ++ (p ∷ []))) x.expanded p
          (Found-append x.expanded x.expanded p f)
          (get_project-append p.name x.expanded p ∙ rw (absent h, eq_refl p.name) refl, n)

    seen :
        (k : String)
        → (p.name == k || elem k x.seen) ≡ is_some (get_project k (x.expanded ++ (p ∷ [])))
    seen k =
        rw (get_project-append k x.expanded p, s k) (go (get_project k x.expanded) (p.name == k))
      where
        go :
            (o : Option ProjectConfig) (b : Bool)
            → (b || is_some o) ≡ is_some (or_else o (if b then some p else none))
        go none true = refl
        go none false = refl
        go (some q) true = refl
        go (some q) false = refl

then-Holds :
    {A B : Type 0} (P : A → Type 0) (Q : B → Type 0) (x : Result A) (f : A → Result B)
    → Holds P x
    → ((a : A) → P a → Holds Q (f a))
    → Holds Q (and_then x f)
then-Holds P Q (err e) f h g = tt
then-Holds P Q (ok a) f h g = g a h

append_all-Tracked :
    (ps : List ProjectConfig) (x : Expansion)
    → All Named ps
    → Tracked x
    → Holds Tracked (append_all ps x)
append_all-Tracked [] x n t = t
append_all-Tracked (p ∷ ps) x (a, n) t =
    then-Holds Tracked Tracked (append_expanded_project p x) (append_all ps)
      (append_expanded-Tracked p x a t) (λ y u. append_all-Tracked ps y n u)

expand_all-Tracked :
    (ps : List ProjectConfig) (x : Expansion) → Tracked x → Holds Tracked (expand_all ps x)
expand_all-Tracked [] x t = t
expand_all-Tracked (p ∷ ps) x t =
    then-Holds Tracked Tracked (and_then (expand_project p) (λ qs. append_all qs x)) (expand_all ps)
      (then-Holds (All Named) Tracked (expand_project p) (λ qs. append_all qs x)
        (expand_project-Named p) (λ qs n. append_all-Tracked qs x n t))
      (λ y u. expand_all-Tracked ps y u)

-- In an accepted configuration every project, also each part of a monorepo, has a valid name and
-- is the project that a lookup of its name finds.
pub expand_monorepos-found :
    (ps qs : List ProjectConfig)
    → expand_monorepos ps ≡ ok qs
    → All (λ q. (get_project q.name qs ≡ some q) × (is_valid_project_name q.name ≡ true)) qs
unfolding expand_monorepos get_project
expand_monorepos-found ps qs e =
    go (expand_all ps start) (expand_all-Tracked ps start (tt, λ n. refl)) e
  where
    start : Expansion
    start = record { expanded = []; seen = [] }

    go : (x : Result Expansion) → Holds Tracked x → finished x ≡ ok qs → All (Found qs) qs
    go (err x) h e = cc
    go (ok x) h e = let same : x.expanded ≡ qs = cc in subst (λ q. All (Found q) q) same h.0
