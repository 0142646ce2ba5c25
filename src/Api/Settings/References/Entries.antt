-- ===== src/Api/Settings/References/Entries.antt =====
-- What internal/secrets/integrationstore.go does to the integrations that projects refer to.
use driftd.Prelude.{
  ℕ, String, Bool, true, false, Option, none, some, [], ◌∷◌, ◌==◌, ◌≡◌, refl, sym, ◌∙◌, subst, Map,
  lookup, put, erase, has, lookup-put, lookup-erase, is_some, ◌||◌, if◌then◌else◌, Bool-cases, inl,
  inr, arith, eq_iff,
}
use driftd.Secrets.Files.{Keyed, Keyed-lookup, store, put-Keyed, erase-Keyed, entries-store}
use driftd.Secrets.Projects.{ProjectStore, ProjectEntry}
use driftd.Secrets.Projects as Projects
use driftd.Secrets.Integrations.{
  IntegrationEntry, IntegrationStore, id_of, updated, update_existing,
}
use driftd.Secrets.Integrations as Stored
use driftd.Api.Settings.Integrations.{is_referenced}
use driftd.Api.Settings.References.{Referring, more-Referring}

abbrev pub Fits : Map ProjectEntry → Map IntegrationEntry → Type 0
Fits ps ints = Keyed id_of ints × Referring ints ps

module _ (ps : Map ProjectEntry) where
  put-Fits : (i : IntegrationEntry) (m : Map IntegrationEntry) → Fits ps m → Fits ps (put i.id i m)
  put-Fits i m (k, r) = (
    put-Keyed id_of i m k,
    more-Referring m (put i.id i m) ps
        (λ e h.
          rw (lookup-put i.id i e.integration_id m)
            (at (i.id == e.integration_id) (lookup e.integration_id m) h))
        r,
  )
    where
      at :
          (b : Bool) (o : Option IntegrationEntry)
          → is_some o ≡ true
          → is_some (if b then some i else o) ≡ true
      at true o h = refl
      at false o h = h

  store-Fits :
      (m : Map IntegrationEntry) (s : IntegrationStore) → Fits ps m → Fits ps (store m s).1.entries
  store-Fits m s f = subst (Fits ps) (sym (entries-store id_of m s)) f

  pub add-Fits :
      (now : ℕ) (i : IntegrationEntry) (s : IntegrationStore)
      → Fits ps s.entries
      → Fits ps (Stored.add now i s).1.entries
  unfolding Stored.add
  add-Fits now i s f = elim (Bool-cases (i.id == "")) [
    | inl a ↦ rw a f
    | inr a ↦ elim (Bool-cases (has i.id s.entries)) [
      | inl b ↦ rw (a, b) f
      | inr b ↦
          rw (a, b)
            (store-Fits _ s
              (put-Fits (record i { created_at = now; updated_at = now }) s.entries f))
    ]
  ]

  update_existing-Fits :
      (now : ℕ) (id : String) (i : IntegrationEntry) (o : Option IntegrationEntry)
      (s : IntegrationStore)
      → lookup id s.entries ≡ o
      → Fits ps s.entries
      → Fits ps (update_existing now id i o s).1.entries
  update_existing-Fits now id i none s h f = f
  update_existing-Fits now id i (some x) s h f = store-Fits _ s (
      subst (λ k. Fits ps (put k (updated now i x) s.entries))
        (Keyed-lookup id_of s.entries id x f.0 h) (put-Fits (updated now i x) s.entries f))

  pub update-Fits :
      (now : ℕ) (id : String) (i : IntegrationEntry) (s : IntegrationStore)
      → Fits ps s.entries
      → Fits ps (Stored.update now id i s).1.entries
  unfolding Stored.update
  update-Fits now id i s f = update_existing-Fits now id i (lookup id s.entries) s refl f

-- A project that refers to an integration is among those that are listed.
unreferenced :
    (id : String) (m : Map ProjectEntry) (s : ProjectStore) (k : String) (e : ProjectEntry)
    → is_referenced id (Projects.list (record s { entries = m })) ≡ false
    → lookup k m ≡ some e
    → (e.integration_id == id) ≡ false
unfolding Projects.list
unreferenced id [] s k e h l = cc
unreferenced id ((j, x) ∷ m) s k e h l =
    let rest = is_referenced id (Projects.list (record s { entries = m })) in
    elim (Bool-cases (j == k)) [
      | inl b ↦
          subst (λ y. (y.integration_id == id) ≡ false) (same (sym (rw b refl) ∙ l))
            (left (x.integration_id == id) rest h)
      | inr b ↦
          unreferenced id m s k e (right (x.integration_id == id) rest h) (sym (rw b refl) ∙ l)
    ]
  where
    same : some x ≡ some e → x ≡ e
    same y = cc

    left : (a b : Bool) → (a || b) ≡ false → a ≡ false
    left a b h = ground arith

    right : (a b : Bool) → (a || b) ≡ false → b ≡ false
    right a b h = ground arith

erase-Fits :
    (id : String) (s : ProjectStore) (m : Map IntegrationEntry)
    → is_referenced id (Projects.list s) ≡ false
    → Fits s.entries m
    → Fits s.entries (erase id m)
erase-Fits id s m h (k, r) = (
  erase-Keyed id_of id m k,
  λ j e l.
      let other : (e.integration_id == id) ≡ false = unreferenced id s.entries s j e h l in
      let apart : (id == e.integration_id) ≡ false =
        grind (arith, eq_iff e.integration_id id, eq_iff id e.integration_id) in
      rw (lookup-erase id e.integration_id m, apart) (r j e l),
)

pub delete-Fits :
    (id : String) (s : ProjectStore) (t : IntegrationStore)
    → is_referenced id (Projects.list s) ≡ false
    → Fits s.entries t.entries
    → Fits s.entries (Stored.delete id t).1.entries
unfolding Stored.delete
delete-Fits id s t h f = elim (Bool-cases (has id t.entries)) [
  | inl b ↦ rw b (store-Fits s.entries (erase id t.entries) t (erase-Fits id s t.entries h f))
  | inr b ↦ rw b f
]
