-- ===== src/Queue/Transitions/Loop.antt =====
-- The loop of scanTransitionScript over the abstract counts.
use driftd.Prelude.{
  ◌||◌, ◌⊎◌, ◌∙◌, subst, ◌&&◌, ◌>>=◌, ℕ, ℤ, pos, negsuc, ◌+ℤ◌, String, Bool, true, false, List, [],
  ◌∷◌, ◌==◌, ◌≡◌, refl, ok, some, arith, eq_refl, eq_iff, ltb_ℤ, ap, Bool-cases, inl, inr,
}
use driftd.Redis.{Redis, num, counter}
use driftd.Queue.Types.{StackScan}
use driftd.Queue.Store.{Db}
use driftd.Queue.Transitions.{apply_delta, apply_deltas}
use driftd.Queue.Transitions.Counts.{Counts, shift, bump, bump_all}

abbrev pub is_counter : String → Bool
is_counter f =
    f == "total"
    || f == "queued"
    || f == "running"
    || f == "completed"
    || f == "failed"
    || f == "drifted"
    || f == "errored"

-- The script moves nothing but counters.
abbrev pub CountersOnly : List (String × ℤ) → Type 0
CountersOnly [] = Unit
CountersOnly ((f, z) ∷ l) = (is_counter f ≡ true) × CountersOnly l

-- How a sum compares with 0, and what the script leaves of it.
clipped :
    (n : ℕ) (z : ℤ)
    → ((ltb_ℤ (pos n +ℤ z) (pos 0) ≡ false) × (pos n +ℤ z ≡ pos (shift n z)))
      ⊎ ((ltb_ℤ (pos n +ℤ z) (pos 0) ≡ true) × (shift n z ≡ 0))
clipped n (pos k) = ground arith
clipped n (negsuc k) = ground arith

module _ {r : Redis StackScan} where
  -- The hash of the scan shows these counts.
  abbrev pub Shows : Db r → String → Counts → Type 0
  Shows d key c =
      (g : String) → is_counter g ≡ true → r.hashes.hget d.scans key g ≡ some (num (pos (c g)))

  -- One field of one hash has a new number, and nothing else of the hashes differs.
  pub record Moved (d d' : Db r) (key f : String) (z : ℤ) : Type 0 where
    pub moved : r.hashes.hget d'.scans key f ≡ some (num z)
    pub others :
        (j g : String)
        → (key == j && f == g) ≡ false
        → r.hashes.hget d'.scans j g ≡ r.hashes.hget d.scans j g

  abbrev with_num : Db r → String → String → ℤ → Db r
  with_num d key f z = record d { scans = r.hashes.hset d.scans key ((f, num z) ∷ []) }

  written : (d : Db r) (key f : String) (z : ℤ) → Moved d (with_num d key f z) key f z
  written d key f z = record {
    moved = rw (r.hashes.hget-hset d.scans key _ key f, eq_refl key, eq_refl f);
    others = λ j g e. ground (arith, r.hashes.hget-hset d.scans key ((f, num z) ∷ []) j g);
  }

  Moved-trans :
      {d e d' : Db r} {key f : String} {y z : ℤ}
      → Moved d e key f y
      → Moved e d' key f z
      → Moved d d' key f z
  Moved-trans p q = record { moved = q.moved; others = λ j g h. q.others j g h ∙ p.others j g h }

  -- One round leaves the count shifted, and stopped at 0.
  apply_delta_lem :
      (d : Db r) (key f : String) (z : ℤ) (n : ℕ)
      → r.hashes.hget d.scans key f ≡ some (num (pos n))
      → (h : r.hashes.Rep) × (apply_delta key f z d ≡ (ok tt, record d { scans = h }))
        × Moved d (record d { scans = h }) key f (pos (shift n z))
  unfolding apply_delta ◌>>=◌
  apply_delta_lem d key f z n e = elim (clipped n z) [
    | inl (up, sum) ↦ (
      (with_num d key f (pos n +ℤ z)).scans,
      rw (r.hashes.hincrby_ok d.scans key f z (pos n) (ap counter e)) (rw up refl),
      rw sum (written d key f (pos (shift n z))),
    )
    | inr (down, none_left) ↦ (
      (with_num (with_num d key f (pos n +ℤ z)) key f (pos 0)).scans,
      rw (r.hashes.hincrby_ok d.scans key f z (pos n) (ap counter e)) (rw down refl),
      rw none_left (
          Moved-trans (written d key f (pos n +ℤ z))
            (written (with_num d key f (pos n +ℤ z)) key f (pos 0))),
    )
  ]

  -- Everything but the counters of this scan is as before.
  abbrev pub Elsewhere : Db r → Db r → String → Type 0
  Elsewhere d d' key =
      (j g : String)
      → (key == j && is_counter g) ≡ false
      → r.hashes.hget d'.scans j g ≡ r.hashes.hget d.scans j g

  Shows-Moved :
      (d d' : Db r) (key f : String) (z : ℤ) (c : Counts)
      → Shows d key c
      → Moved d d' key f (pos (shift (c f) z))
      → Shows d' key (bump f z c)
  Shows-Moved d d' key f z c sh m g counts = elim (Bool-cases (f == g)) [
    | inl e ↦
        subst (λ x. r.hashes.hget d'.scans key x ≡ some (num (pos (bump f z c x))))
          ((eq_iff f g).0 e) (rw (eq_refl f) m.moved)
    | inr e ↦ rw e (m.others key g (rw (eq_refl key) e) ∙ sh g counts)
  ]

  Elsewhere-Moved :
      (d d' : Db r) (key f : String) (z : ℤ)
      → is_counter f ≡ true
      → Moved d d' key f z
      → Elsewhere d d' key
  Elsewhere-Moved d d' key f z counts m j g e = m.others j g (ground (arith, eq_iff f g))

  -- The whole loop, at a scan whose counters are numbers: it succeeds, moves the counters as the
  -- abstract counts move, and touches nothing else.
  pub apply_deltas_lem :
      (key : String) (l : List (String × ℤ)) (d : Db r) (c : Counts)
      → CountersOnly l
      → Shows d key c
      → (h : r.hashes.Rep) × (apply_deltas key l d ≡ (ok tt, record d { scans = h }))
        × Shows (record d { scans = h }) key (bump_all l c)
        × Elsewhere d (record d { scans = h }) key
  unfolding apply_deltas ◌>>=◌
  apply_deltas_lem key [] d c only sh = (d.scans, refl, sh, λ j g e. refl)
  apply_deltas_lem key ((f, z) ∷ l) d c (counts, only) sh =
      let (h, run, m) = apply_delta_lem d key f z (c f) (sh f counts) in
      let e : Db r = record d { scans = h } in
      let (h', run', sh', away) =
        apply_deltas_lem key l e (bump f z c) only (Shows-Moved d e key f z c sh m) in
      (h', rw run run', sh', λ j g q. away j g q ∙ Elsewhere-Moved d e key f _ counts m j g q)
