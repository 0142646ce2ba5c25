-- ===== src/Api/Webhooks/Handling.antt =====
-- What a push makes of the scans that it starts, in internal/api/webhook.go.
use driftd.Prelude.{
  String, Bool, true, false, List, [], ◌∷◌, ◌≡◌, refl, sym, ◌∙◌, Result, ok, err, Error, pure,
  raise, examine, ignore, ◌>>=◌, Bool-cases, inl, inr, ◌&&◌, ap, subst, >>=-ok, >>=-err, some,
  has_prefix, ◌==◌, ignore_lem, examine-ok, examine-err,
}
use driftd.Config.{ProjectConfig}
use driftd.Queue.Types.{Scan}
use driftd.Orchestrate.Lifecycle.{Request, EnqueueStacksResult}
use driftd.Api.Scans.{Scanner, plain}
use driftd.Api.Scans.Traces.{Call, started, enqueued, Logged, log_start, log_call, logged, Settled}
use driftd.Api.Webhooks.{select_stacks_for_changes, extract_changed_files}
use driftd.Api.Webhooks.Handler.{
  GitHubPushPayload, Gathered, push_request, meant, push_targets, push_refused, push_matched,
  push_project, push_projects, push_unqueued, Lookups, nothing, push_answer, push_candidates,
  push_changed, candidates, handle_git_hub_webhook,
}

module _ {S : Type 0} (sc : Scanner S) (p : GitHubPushPayload) (changed : List String) where
  -- A project that is meant by the push, and the request of the push.
  abbrev pub Meant : ProjectConfig → Request → Type 0
  Meant cfg q = (meant p changed cfg ≡ true) × (q ≡ push_request p)

  abbrev pub Done : List Call → Type 0
  Done = Settled Meant (λ stacks. select_stacks_for_changes stacks changed)

  -- An error changes no more.
  unqueued-state :
      (scan : Scan) (g : Gathered) (e : Error) (x : Logged S)
      → (push_unqueued (logged sc) p changed scan g e x).1 ≡ x
  unfolding pure raise
  unqueued-state scan g driftd.Prelude.no_stacks_enqueued x = refl
  unqueued-state scan g _ x = refl

  refused-state :
      (g : Gathered) (e : Error) (x : Logged S) → (push_refused (logged sc) p changed g e x).1 ≡ x
  unfolding pure raise
  refused-state g driftd.Prelude.project_locked x = refl
  refused-state g _ x = refl

  targets-Done :
      (cfg : ProjectConfig) (g : Gathered) (scan : Scan) (stacks picked : List String) (s : S)
      (l : List Call)
      → meant p changed cfg ≡ true
      → select_stacks_for_changes stacks changed ≡ picked
      → Done l
      → Done
          (push_targets
            (logged sc)
            p
            changed
            cfg
            g
            scan
            picked
            (s, started cfg (push_request p) scan stacks ∷ l)).1.1
  unfolding pure
  targets-Done cfg g scan stacks [] s l m h d =
      subst (λ r. Done r.1.1)
        (sym (
          >>=-ok _ _ (
            ignore_lem
              ((logged sc).fail_scan scan.id cfg.name "no matching stacks for webhook changes")
              (s, started cfg (push_request p) scan stacks ∷ l))))
        (((m, refl), refl, refl, h), d)
  targets-Done cfg g scan stacks (x ∷ xs) s l m h d =
      go (sc.enqueue_stacks scan cfg (x ∷ xs) (push_request p) s) refl
    where
      log : List Call
      log =
          enqueued scan cfg (x ∷ xs) (push_request p) ∷ started cfg (push_request p) scan stacks ∷ l

      settled : Done log
      settled = (((m, refl), refl, refl, refl, sym h, λ e. cc), d)

      go :
          (r : Result EnqueueStacksResult × S)
          → sc.enqueue_stacks scan cfg (x ∷ xs) (push_request p) s ≡ r
          → Done
              (push_targets
                (logged sc)
                p
                changed
                cfg
                g
                scan
                (x ∷ xs)
                (s, started cfg (push_request p) scan stacks ∷ l)).1.1
      go (ok result, t) e =
          subst (λ r. Done r.1.1)
            (sym (
              examine-ok _ _ _ (
                ap
                  (log_call (enqueued scan cfg (x ∷ xs) (push_request p))
                    (started cfg (push_request p) scan stacks ∷ l))
                  e)))
            settled
      go (err y, t) e =
          subst (λ r. Done r.1.1)
            (sym (
              examine-err _ _ _ (
                ap
                  (log_call (enqueued scan cfg (x ∷ xs) (push_request p))
                    (started cfg (push_request p) scan stacks ∷ l))
                  e)))
            (subst (λ z. Done z.1) (sym (unqueued-state scan g y (t, log))) settled)

  matched-Done :
      (cfg : ProjectConfig) (g : Gathered) (s : S) (l : List Call)
      → meant p changed cfg ≡ true
      → Done l
      → Done (push_matched (logged sc) p changed cfg g (s, l)).1.1
  matched-Done cfg g s l m d = go (sc.start_scan cfg (push_request p) s) refl
    where
      go :
          (r : Result (Scan × List String) × S)
          → sc.start_scan cfg (push_request p) s ≡ r
          → Done (push_matched (logged sc) p changed cfg g (s, l)).1.1
      go (ok (scan, stacks), t) e =
          subst (λ r. Done r.1.1) (sym (examine-ok _ _ _ (ap (log_start cfg (push_request p) l) e)))
            (targets-Done cfg g scan stacks (select_stacks_for_changes stacks changed) t l m refl d)
      go (err x, t) e =
          subst (λ r. Done r.1.1)
            (sym (examine-err _ _ _ (ap (log_start cfg (push_request p) l) e)))
            (subst (λ z. Done z.1) (sym (refused-state g x (t, l))) d)

  project-Done :
      (cfg : ProjectConfig) (g : Gathered) (s : S) (l : List Call)
      → Done l
      → Done (push_project (logged sc) p changed cfg g (s, l)).1.1
  unfolding pure
  project-Done cfg g s l d = elim (Bool-cases (meant p changed cfg)) [
    | inl m ↦ rw m (matched-Done cfg (record g { matched = true }) s l m d)
    | inr m ↦ rw m d
  ]

  projects-Done :
      (cfgs : List ProjectConfig) (g : Gathered) (s : S) (l : List Call)
      → Done l
      → Done (push_projects (logged sc) p changed cfgs g (s, l)).1.1
  unfolding push_projects pure
  projects-Done [] g s l d = d
  projects-Done (cfg ∷ cfgs) g s l d =
      go (projects-Done cfgs) (push_project (logged sc) p changed cfg g (s, l)) refl
    where
      go :
          ((h : Gathered) (t : S) (k : List Call)
            → Done k
            → Done (push_projects (logged sc) p changed cfgs h (t, k)).1.1)
          → (r : Result Gathered × Logged S) → push_project (logged sc) p changed cfg g (s, l) ≡ r
          → Done
              ((push_project (logged sc) p changed cfg g
                  >>= push_projects (logged sc) p changed cfgs)
                (s, l)).1.1
      go rest (ok more, (t, k)) e =
          subst (λ r. Done r.1.1) (sym (>>=-ok _ _ e))
            (rest more t k (subst (λ r. Done r.1.1) e (project-Done cfg g s l d)))
      go rest (err x, (t, k)) e =
          subst (λ r. Done r.1.1) (sym (>>=-err _ _ e))
            (subst (λ r. Done r.1.1) e (project-Done cfg g s l d))

-- Whatever the orchestrator and the lookups answer, a push starts scans only of projects that are
-- meant by its branch and its files, each with the commit and the pusher of the push, and settles
-- each before the next: the scan fails if none of its stacks has a changed file, and goes on with
-- just those that have one otherwise.
pub handle_git_hub_webhook-Settled :
    {S : Type 0} (sc : Scanner S) (l : Lookups) (event : String) (p : GitHubPushPayload) (s : S)
    → Settled
        (Meant sc p (extract_changed_files p.commits l.max_files))
        (λ stacks. select_stacks_for_changes stacks (extract_changed_files p.commits l.max_files))
        (handle_git_hub_webhook (logged sc) l event (some p) (s, [])).1.1
unfolding handle_git_hub_webhook pure
handle_git_hub_webhook-Settled {S} sc l event p s = elim (Bool-cases (event == "push")) [
  | inr n ↦ rw n tt
  | inl y ↦ elim (Bool-cases (has_prefix "refs/heads/" p.ref)) [
    | inr n ↦ rw (y, n) tt
    | inl r ↦ rw (y, r) (files (extract_changed_files p.commits l.max_files))
  ]
]
  where
    examined :
        (changed : List String) (cfgs : List ProjectConfig)
        → Done sc p changed
            (examine
              (push_projects (logged sc) p changed cfgs nothing)
              (λ e. pure (plain 500))
              (λ g. pure (push_answer g))
              (s, [])).1.1
    examined changed cfgs = go (push_projects (logged sc) p changed cfgs nothing (s, [])) refl
      where
        go :
            (r : Result Gathered × Logged S)
            → push_projects (logged sc) p changed cfgs nothing (s, []) ≡ r
            → Done sc p changed
                (examine
                  (push_projects (logged sc) p changed cfgs nothing)
                  (λ e. pure (plain 500))
                  (λ g. pure (push_answer g))
                  (s, [])).1.1
        go (ok g, (t, k)) e =
            subst (λ r. Done sc p changed r.1.1) (sym (examine-ok _ _ _ e))
              (subst (λ r. Done sc p changed r.1.1) e
                (projects-Done sc p changed cfgs nothing s [] tt))
        go (err x, (t, k)) e =
            subst (λ r. Done sc p changed r.1.1) (sym (examine-err _ _ _ e))
              (subst (λ r. Done sc p changed r.1.1) e
                (projects-Done sc p changed cfgs nothing s [] tt))

    found :
        (changed : List String) (r : Result (List ProjectConfig))
        → Done sc p changed (push_candidates (logged sc) l p changed r (s, [])).1.1
    found changed (err e) = tt
    found changed (ok []) = tt
    found changed (ok (cfg ∷ cfgs)) = examined changed (cfg ∷ cfgs)

    files :
        (changed : List String)
        → Done sc p changed (push_changed (logged sc) l p changed (s, [])).1.1
    files [] = tt
    files (f ∷ fs) = found (f ∷ fs) (candidates l p)
