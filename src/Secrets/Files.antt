-- ===== src/Secrets/Files.antt =====
-- What the two stores share: a map in memory, a file, and how saving ends.
use driftd.Prelude.{
  sym, ap, String, Bool, true, false, Option, none, some, List, [], ◌∷◌, ◌≡◌, refl, ◌==◌, Map,
  lookup, put, erase, lookup-put, lookup-erase, ◌∙◌, ok, err, external, Action, after, result,
  or_else, arith, eq_iff, subst, Bool-cases, inl, inr,
}

pub record Store (V : Type 0) : Type 0 where
  pub entries : Map V
  -- the file's list, `none` without a file
  pub file : Option (List V)
  pub writes : List Bool

abbrev values : {V : Type 0} → Map V → List V
values [] = []
values ((k, v) ∷ m) = v ∷ values m

module _ {V : Type 0} (key : V → String) where
  -- for _, project := range storeData.Projects { rs.projects[project.Name] = project }
  unfoldable pub fill : List V → Map V → Map V
  fill [] m = m
  fill (v ∷ vs) m = fill vs (put (key v) v m)

  abbrev pub from_file : Option (List V) → Map V
  from_file none = []
  from_file (some vs) = fill vs []

  -- Every entry stands under its own key, and no key twice.
  abbrev pub Keyed : Map V → Type 0
  Keyed [] = Unit
  Keyed ((k, v) ∷ m) = (key v ≡ k) × (lookup k m ≡ none) × Keyed m

  -- The file loads to what is in memory.
  abbrev pub Synced : Store V → Type 0
  Synced s = (k : String) → lookup k (from_file s.file) ≡ lookup k s.entries

  pub put-Keyed : (v : V) (m : Map V) → Keyed m → Keyed (put (key v) v m)
  put-Keyed v [] k = (refl, refl, tt)
  put-Keyed v ((j, w) ∷ m) (e, n, k) = elim (Bool-cases (j == key v)) [
    | inl h ↦ rw h (refl, subst (λ x. lookup x m ≡ none) ((eq_iff j (key v)).0 h) n, k)
    | inr h ↦ rw h (
      e,
      grind (arith, lookup-put (key v) v j m, eq_iff j (key v), eq_iff (key v) j),
      put-Keyed v m k,
    )
  ]

  pub erase-Keyed : (x : String) (m : Map V) → Keyed m → Keyed (erase x m)
  erase-Keyed x [] k = tt
  erase-Keyed x ((j, w) ∷ m) (e, n, k) = elim (Bool-cases (j == x)) [
    | inl h ↦ rw h (erase-Keyed x m k)
    | inr h ↦ rw h (e, grind (arith, lookup-erase x j m), erase-Keyed x m k)
  ]

  -- What is found under a key has it.
  pub Keyed-lookup : (m : Map V) (k : String) (v : V) → Keyed m → lookup k m ≡ some v → key v ≡ k
  Keyed-lookup [] k v t h = cc
  Keyed-lookup ((j, w) ∷ m) k v (e, n, t) h = elim (Bool-cases (j == k)) [
    | inl b ↦ sym (ap key (same (sym (rw b refl) ∙ h))) ∙ e ∙ (eq_iff j k).0 b
    | inr b ↦ Keyed-lookup m k v t (sym (rw b refl) ∙ h)
  ]
    where
      same : some w ≡ some v → w ≡ v
      same y = cc

  pub fill-Keyed : (vs : List V) (m : Map V) → Keyed m → Keyed (fill vs m)
  unfolding fill
  fill-Keyed [] m k = k
  fill-Keyed (v ∷ vs) m k = fill-Keyed vs (put (key v) v m) (put-Keyed v m k)

  lookup-fill :
      (m acc : Map V) (k : String)
      → Keyed m
      → lookup k (fill (values m) acc) ≡ or_else (lookup k m) (lookup k acc)
  unfolding fill
  lookup-fill [] acc k h = refl
  lookup-fill ((j, v) ∷ m) acc k (e, n, h) =
      grind (arith, lookup-fill m (put (key v) v acc) k h, lookup-put (key v) v k acc, eq_iff j k)

-- os.ReadFile and the parsing of Load; a file that cannot be read or parsed is not modelled.
unfoldable pub load : {V : Type 0} → (V → String) → Action (Store V) Unit
load key s = (ok tt, record s { entries = from_file key s.file })

-- saveLocked
unfoldable pub save : {V : Type 0} → Action (Store V) Unit
save s = elim s.writes [
  | [] ↦ (ok tt, record s { file = some (values s.entries) })
  | true ∷ ws ↦ (ok tt, record s { file = some (values s.entries); writes = ws })
  | false ∷ ws ↦ (err external, record s { writes = ws })
]

abbrev pub store : {V : Type 0} → Map V → Action (Store V) Unit
store m s = save (record s { entries = m })

module _ {V : Type 0} (key : V → String) where
  -- What is in memory is what was to be stored, whatever becomes of the file.
  pub entries-store : (m : Map V) (s : Store V) → (after (store m) s).entries ≡ m
  unfolding save
  entries-store m s = go s.writes
    where
      go : (ws : List Bool) → (after save (record s { entries = m; writes = ws })).entries ≡ m
      go [] = refl
      go (true ∷ ws) = refl
      go (false ∷ ws) = refl

  -- A save that answers without an error leaves a file that loads to what is in memory.
  pub store-Synced :
      (m : Map V) (s : Store V)
      → Keyed key m
      → result (store m) s ≡ ok tt
      → Synced key (after (store m) s)
  unfolding save
  store-Synced m s h e = go s.writes e
    where
      shown : (k : String) → lookup k (fill key (values m) []) ≡ lookup k m
      shown k = lookup-fill key m [] k h ∙ or_else-none (lookup k m)
        where
          or_else-none : (o : Option V) → or_else o none ≡ o
          or_else-none none = refl
          or_else-none (some v) = refl

      go :
          (ws : List Bool)
          → result save (record s { entries = m; writes = ws }) ≡ ok tt
          → Synced key (after save (record s { entries = m; writes = ws }))
      go [] e k = shown k
      go (true ∷ ws) e k = shown k
      go (false ∷ ws) e k = cc
