-- ===== src/Api/Streams/Progress.antt =====
-- The progress that internal/api/events_stream.go shows of a scan, against the counters of internal/queue.
use native.Mathlib.Nat.{div-le_of_le-mul, le-div_iff_mul-le}
use driftd.Prelude.{
  ℕ, ◌+◌, ◌*◌, ◌/◌, ◌≤◌, ◌<◌, ltb, pos, pos_part, leb_ℤ, ◌+ℤ◌, true, false, ◌≡◌, ◌↔◌, sym, ap, ◌∙◌,
  arith, if◌then◌else◌, Bool-cases, inl, inr,
}
use driftd.Queue.Types.{Scan}
use driftd.Api.Streams.{clamped, progress_of, build_scan_summary}

-- The share of a part that is at most the whole.
percent-bounds :
    (done t : ℕ) → 0 < t → done ≤ t → (done * 100 / t ≤ 100) × ((done * 100 / t ≡ 100) ↔ (done ≡ t))
percent-bounds done t z l = (
  div-le_of_le-mul t (omega arith),
  (
    (λ e.
        let low : 100 * t ≤ done * 100 = (le-div_iff_mul-le z).0 (omega (arith, e)) in omega arith),
    (λ e.
        let high : done * 100 / t ≤ 100 = div-le_of_le-mul t (omega arith) in
        let low : 100 ≤ done * 100 / t = (le-div_iff_mul-le z).1 (omega arith) in omega arith),
  ),
)

progress_run :
    (c f t : ℕ) → 0 < t → c + f ≤ t → progress_of (pos c) (pos f) (pos t) ≡ (c + f) * 100 / t
unfolding progress_of
progress_run c f t z l =
    let sum : pos c +ℤ pos f ≡ pos (c + f) = ground arith in
    let kept : clamped (pos (c + f)) (pos t) ≡ pos (c + f) = ground arith in
    let some_total : leb_ℤ (pos t) (pos 0) ≡ false = ground arith in
    ap (λ b. if b then 0 else pos_part (clamped (pos c +ℤ pos f) (pos t)) * 100 / t) some_total
    ∙ ap (λ d. pos_part (clamped d (pos t)) * 100 / t) sum
    ∙ ap (λ d. pos_part d * 100 / t) kept

no_progress : (c f t : ℕ) → t ≡ 0 → progress_of (pos c) (pos f) (pos t) ≡ 0
unfolding progress_of
no_progress c f t z =
    let none_total : leb_ℤ (pos t) (pos 0) ≡ true = ground arith in
    ap (λ b. if b then 0 else pos_part (clamped (pos c +ℤ pos f) (pos t)) * 100 / t) none_total

progress-bounds :
    (q r c f : ℕ)
    → (progress_of (pos c) (pos f) (pos (q + r + c + f)) ≤ 100)
      × ((progress_of (pos c) (pos f) (pos (q + r + c + f)) ≡ 100) ↔ ((0 < c + f) × (q + r ≡ 0)))
progress-bounds q r c f =
    let t = q + r + c + f in
    elim (Bool-cases (ltb 0 t)) [
      | inr b ↦
          let p = no_progress c f t (ground arith) in
          (
            omega (arith, p),
            ((λ e. absurd (omega (arith, p, e))), (λ (z, y). absurd (ground arith))),
          )
      | inl b ↦
          let z : 0 < t = ground arith in
          let p = progress_run c f t z (omega arith) in
          let (high, (there, back)) = percent-bounds (c + f) t z (omega arith) in
          (
            omega (arith, p, high),
            (
              (λ e.
                  let all : c + f ≡ t = there (sym p ∙ e) in
                  (omega (arith, all, z), omega (arith, all))),
              (λ (some_done, idle). p ∙ back (omega (arith, idle))),
            ),
          )
    ]

-- A scan whose counters add up shows at most 100 percent, and 100 exactly when it has stacks and
-- none of them is queued or running.
pub build_scan_summary-progress :
    (scan : Scan) (queued running completed failed : ℕ)
    → scan.completed ≡ pos completed
    → scan.failed ≡ pos failed
    → scan.total ≡ pos (queued + running + completed + failed)
    → ((build_scan_summary scan).progress_pct ≤ 100)
      × (((build_scan_summary scan).progress_pct ≡ 100)
          ↔ ((0 < completed + failed) × (queued + running ≡ 0)))
unfolding build_scan_summary
build_scan_summary-progress scan queued running completed failed hc hf ht =
    rw (hc, hf, ht) (progress-bounds queued running completed failed)
