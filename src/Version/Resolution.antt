-- ===== src/Version/Resolution.antt =====
-- What a stack is planned with, after Detect and the lookup of the worker
-- (internal/worker/context_resolver.go).
use driftd.Prelude.{
  lookup, put, lookup-put, String, true, false, none, some, List, [], ◌∷◌, ◌==◌, ◌≡◌, ◌⊎◌, inl, inr,
  refl, arith, elem, eq_iff, eq_refl, Bool-cases, sym, if◌then◌else◌, get_or,
}
use driftd.Version.{
  Versions, add, version_at, collect, collapse_if_single, drop_default, prefer_root, detect,
}

-- if v, ok := scan.StackTFVersions[path]; ok { … } else { … scan.TerraformVersion }
abbrev pub version_for : String × Versions → String → String
version_for (def, m) stack = get_or (lookup stack m) def

elem-add : (v w : String) (s : List String) → elem w (add v s) ≡ (if v == w then true else elem w s)
elem-add v w s = grind (arith, eq_iff v w)

module _ (root : String) (at : String → String) where
  -- The entries of the map are what the files say.
  abbrev Entries : Versions → Type 0
  Entries [] = Unit
  Entries ((k, v) ∷ m) = (v ≡ version_at root at k) × Entries m

  -- The stack has its entry, and its version is in the set.
  abbrev Covers : String → Versions → List String → Type 0
  Covers k m s = (lookup k m ≡ some (version_at root at k)) × (elem (version_at root at k) s ≡ true)

  put-Entries : (k : String) (m : Versions) → Entries m → Entries (put k (version_at root at k) m)
  put-Entries k [] es = (refl, tt)
  put-Entries k ((j, w) ∷ m) (e, es) = elim (Bool-cases (j == k)) [
    | inl h ↦ rw h (refl, es)
    | inr h ↦ rw h (e, put-Entries k m es)
  ]

  step-Entries :
      (x : String) (m : Versions)
      → Entries m
      → Entries (if version_at root at x == "" then m else put x (version_at root at x) m)
  step-Entries x m es = elim (Bool-cases (version_at root at x == "")) [
    | inl h ↦ rw h es
    | inr h ↦ rw h (put-Entries x m es)
  ]

  collect-Entries :
      (stacks : List String) (m : Versions) (s : List String)
      → Entries m
      → Entries (collect root at stacks m s).0
  unfolding collect
  collect-Entries [] m s es = es
  collect-Entries (x ∷ stacks) m s es = collect-Entries stacks _ _ (step-Entries x m es)

  Covers-step :
      (k x : String) (m : Versions) (s : List String)
      → (version_at root at k == "") ≡ false
      → ((x == k) ≡ true) ⊎ Covers k m s
      → let v = version_at root at x in
        Covers k (if v == "" then m else put x v m) (if v == "" then s else add v s)
  Covers-step k x m s ne h =
      let v = version_at root at x in
      grind (
        arith,
        lookup-put x v k m,
        elem-add v (version_at root at k) s,
        eq_iff x k,
        eq_iff v (version_at root at k),
        eq_iff v "",
        eq_refl v,
      )

  collect-Covers :
      (k : String) (stacks : List String) (m : Versions) (s : List String)
      → (version_at root at k == "") ≡ false
      → (elem k stacks ≡ true) ⊎ Covers k m s
      → let (m', s') = collect root at stacks m s in Covers k m' s'
  unfolding collect
  collect-Covers k [] m s ne (inl e) = ground arith
  collect-Covers k [] m s ne (inr c) = c
  collect-Covers k (x ∷ stacks) m s ne (inr c) =
      collect-Covers k stacks _ _ ne (inr (Covers-step k x m s ne (inr c)))
  collect-Covers k (x ∷ stacks) m s ne (inl e) = elim (Bool-cases (x == k)) [
    | inl h ↦ collect-Covers k stacks _ _ ne (inr (Covers-step k x m s ne (inl h)))
    | inr h ↦ collect-Covers k stacks _ _ ne (inl (ground arith))
  ]

  lookup-drop_default :
      (k : String) (m : Versions)
      → Entries m
      → lookup k (drop_default root m) ≡ (if version_at root at k == root then none else lookup k m)
  unfolding drop_default
  lookup-drop_default k [] es = ground arith
  lookup-drop_default k ((j, v) ∷ m) (e, es) = grind (
    arith,
    lookup-drop_default k m es,
    eq_iff v root,
    eq_iff j k,
    eq_iff (version_at root at k) root,
  )

  -- Some other stack has another version.
  abbrev Differs : String → List String → Type 0
  Differs k stacks =
      (j : String) × (elem j stacks ≡ true)
      × ((version_at root at j == "") ≡ false)
      × ((version_at root at j == version_at root at k) ≡ false)

  version_for-single :
      (k v : String) → version_for (prefer_root root (v, [])) k ≡ (if root == "" then v else root)
  unfolding drop_default
  version_for-single k v = elim (Bool-cases (root == "")) [ inl h ↦ rw h refl | inr h ↦ rw h refl ]

  -- What has become of the map and the set is enough for the lookup.
  resolved :
      (k : String) (m : Versions) (s : List String)
      → Entries m
      → Covers k m s
      → (root ≡ "")
        ⊎ (version_at root at k ≡ root)
        ⊎ ((w : String) × (elem w s ≡ true) × ((w == version_at root at k) ≡ false))
      → version_for (prefer_root root (collapse_if_single s m)) k ≡ version_at root at k
  unfolding collapse_if_single
  resolved k m [] es (l, e) c = ground arith
  resolved k m (v ∷ []) es (l, e) (inl c) =
      grind (version_for-single k v, eq_iff root "", arith, eq_iff v (version_at root at k))
  resolved k m (v ∷ []) es (l, e) (inr (inl c)) =
      grind (version_for-single k v, eq_iff root "", arith, eq_iff v (version_at root at k))
  resolved k m (v ∷ []) es (l, e) (inr (inr (w, a, b))) = grind (
    version_for-single k v,
    eq_iff root "",
    arith,
    eq_iff v w,
    eq_iff v (version_at root at k),
    eq_iff w (version_at root at k),
  )
  resolved k m (v ∷ u ∷ s) es (l, e) c = elim (Bool-cases (root == "")) [
    | inl h ↦ rw (h, l) refl
    | inr h ↦ elim (Bool-cases (version_at root at k == root)) [
      | inl q ↦
          rw (h, lookup-drop_default k m es, q) (sym ((eq_iff (version_at root at k) root).0 q))
      | inr q ↦ rw (h, lookup-drop_default k m es, q, l) refl
    ]
  ]

-- A stack with a version of its own, or under a root version, is planned with that version,
-- provided there is no root version, or it is the root version, or the stacks do not all have one
-- version.
pub detect-version_at :
    (root : String) (at : String → String) (stacks : List String) (k : String)
    → elem k stacks ≡ true
    → (version_at root at k == "") ≡ false
    → (root ≡ "") ⊎ (version_at root at k ≡ root) ⊎ Differs root at k stacks
    → version_for (detect root at stacks) k ≡ version_at root at k
unfolding detect
detect-version_at root at stacks k h ne c =
    resolved root at k _ _ (collect-Entries root at stacks [] [] tt)
      (collect-Covers root at k stacks [] [] ne (inl h)) (in_set c)
  where
    in_set :
        (root ≡ "") ⊎ (version_at root at k ≡ root) ⊎ Differs root at k stacks
        → (root ≡ "")
          ⊎ (version_at root at k ≡ root)
          ⊎ ((w : String) × (elem w (collect root at stacks [] []).1 ≡ true)
              × ((w == version_at root at k) ≡ false))
    in_set (inl e) = inl e
    in_set (inr (inl e)) = inr (inl e)
    in_set (inr (inr (j, l, n, d))) =
        inr (inr (version_at root at j, (collect-Covers root at j stacks [] [] n (inl l)).1, d))
