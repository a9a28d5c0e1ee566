-- ===== src/Retention/Experiments.antt =====
-- What `deleteOldExperiments` leaves of the experiments, and of the evaluations that refer to them.
pub mod Laws
use mathlib.Core.List.Memᴰ
use arcane_backend.Common.{
  ltb, length, ℕ, suc, ◌+◌, ◌<◌, ◌≤◌, String, Option, none, some, Bool, true, false, List, [], ◌∷◌,
  map, Result, ok, err, ◌≡◌, refl, sym, ap, ◌↔◌, ◌⊎◌, inl, inr, Memᴰ, ◌∙◌, ◌&&◌, ◌||◌, ◌==◌, eq_iff,
  and-eq-true, arith, includes, includes_iff, some_of_iff, mem_of_map, eq_false,
}
use arcane_backend.Retention.Batches.{each, next, delete_batches, Batches}
use arcane_backend.Retention.Loop.{Expires, Expires-iff, Ended, delete_batches-Ended}
use arcane_backend.Retention.Outcome.{
  each-Expires, OldFor, Turned, IsLogged, IsGrown, same-IsGrown, trans-IsGrown,
  record_deletion_if-IsLogged,
}
use arcane_backend.Retention.Policies.{
  Tables, is_old_experiment, default_experiment_days, or_default, delete_experiments_of,
  delete_old_experiments, experiments_deleted, record_deletion, record_deletion_if,
  is_experiment_scope, is_linked, is_evaluation_of, delete_evaluations_of_experiments,
  delete_found_evaluations, evaluations_left, is_limited,
}
use arcane_backend.Retention.Store.{
  AuditLog, Evaluation, Experiment, Project, RetentionStore, IsRetentionLawful, HasUniqueIds,
}

module _ (s : RetentionStore) where
  -- The evaluation is one of the project's experiment.
  abbrev pub IsOf : Tables s → Project → Evaluation s.Time → Experiment s.Time → Type 0
  IsOf t project e x =
      (is_experiment_scope e.evaluation_scope ≡ true)
      × (e.project_id ≡ project.id)
      × Memᴰ x t.experiments
      × (is_old_experiment s project x ≡ true)
      × Memᴰ (e.id, x.id) t.evaluation_experiments

  module _ (laws : IsRetentionLawful s) (project : Project) (t : Tables s) where
    abbrev ids_of : List (Experiment s.Time) → List String
    ids_of = map (λ (x : Experiment s.Time). x.id)

    abbrev old_experiments : List (Experiment s.Time)
    old_experiments = s.find (is_old_experiment s project) t.experiments

    is_linked_iff :
        (links : List (String × String)) (ids : List String) (id : String)
        → (is_linked links ids id ≡ true) ↔ ((x : String) × Memᴰ (id, x) links × Memᴰ x ids)
    unfolding is_linked
    is_linked_iff links ids id = (
      λ h. let (link, m, h') = (some_of_iff _ links).0 h in to link m h',
      λ (x, m, k).
          (some_of_iff _ links).1
            ((id, x), m, rw ((eq_iff id id).1 refl, (includes_iff ids x).1 k) refl),
    )
      where
        to :
            (link : String × String)
            → Memᴰ link links
            → (link.0 == id && includes ids link.1) ≡ true
            → (x : String) × Memᴰ (id, x) links × Memᴰ x ids
        to (a, x) m h =
            let (own, k) = and-eq-true _ _ h in
            (x, rw (← ((eq_iff a id).0 own)) m, (includes_iff ids x).0 k)

    is_evaluation_of_iff :
        (e : Evaluation s.Time)
        → (is_evaluation_of s t.evaluation_experiments project (ids_of old_experiments) e ≡ true)
          ↔ ((x : Experiment s.Time) × IsOf t project e x)
    unfolding is_evaluation_of
    is_evaluation_of_iff e = (
      λ h.
          let (scope, h') = and-eq-true _ _ h in
          let (own, linked) = and-eq-true _ _ h' in
          let (i, link, k) =
            (is_linked_iff t.evaluation_experiments (ids_of old_experiments) e.id).0 linked in
          let (x, m, same) = mem_of_map (λ (x : Experiment s.Time). x.id) old_experiments i k in
          let (n, old) = (laws.mem_find _ t.experiments x).0 m in
          (x, (scope, (eq_iff e.project_id project.id).0 own, n, old, rw same link)),
      λ (x, (scope, own, m, old, link)).
          let k =
            Memᴰ.map (λ (x : Experiment s.Time). x.id)
              ((laws.mem_find (is_old_experiment s project) t.experiments x).1 (m, old)) in
          rw
            (
              scope,
              (eq_iff e.project_id project.id).1 own,
              (is_linked_iff t.evaluation_experiments (ids_of old_experiments) e.id).1
                  (x.id, link, k),
            )
            refl,
    )

    abbrev found_evaluations : List (Evaluation s.Time)
    found_evaluations =
        s.find (is_evaluation_of s t.evaluation_experiments project (ids_of old_experiments))
          t.evaluations

    -- After the deletion: no evaluation is gone but of an old experiment, and, unless there was an
    -- exception, none of an old experiment is left.
    pub record IsCleared (r : Result ℕ) (left : List (Evaluation s.Time)) : Type 0 where
      pub fewer : (e : Evaluation s.Time) → Memᴰ e left → Memᴰ e t.evaluations
      pub spared :
          (e : Evaluation s.Time)
          → Memᴰ e t.evaluations
          → ¬ ((x : Experiment s.Time) × IsOf t project e x)
          → Memᴰ e left
      pub cleared :
          (n : ℕ) (e : Evaluation s.Time) (x : Experiment s.Time)
          → r ≡ ok n
          → Memᴰ e left
          → ¬ IsOf t project e x

    untouched-IsCleared :
        (r : Result ℕ)
        → ((n : ℕ) (e : Evaluation s.Time) (x : Experiment s.Time)
            → r ≡ ok n
            → Memᴰ e t.evaluations
            → ¬ IsOf t project e x)
        → IsCleared r t.evaluations
    untouched-IsCleared r clear = record { fewer = λ e m. m; spared = λ e m _. m; cleared = clear }

    -- An evaluation that an old experiment has is found.
    IsOf-found :
        (e : Evaluation s.Time) (x : Experiment s.Time)
        → Memᴰ e t.evaluations
        → IsOf t project e x
        → Memᴰ e found_evaluations
    IsOf-found e x m h = (laws.mem_find _ t.evaluations e).1 (m, (is_evaluation_of_iff e).1 (x, h))

    pub delete_evaluations_of_experiments-IsCleared :
        HasUniqueIds (λ (e : Evaluation s.Time). e.id) t.evaluations
        → (r : Result ℕ) × (left : List (Evaluation s.Time)) × (delete_evaluations_of_experiments s
              project t
            ≡ some (r, record t { evaluations = left }))
          × IsCleared r left
    unfolding delete_evaluations_of_experiments
    delete_evaluations_of_experiments-IsCleared unique = by_experiments old_experiments refl
      where
        Answer : Type 0
        Answer =
            (r : Result ℕ) × (left : List (Evaluation s.Time)) × (delete_evaluations_of_experiments
                s project t
              ≡ some (r, record t { evaluations = left }))
            × IsCleared r left

        ids_of_found : List (Evaluation s.Time) → Evaluation s.Time → Bool
        ids_of_found found y = includes (map (λ (z : Evaluation s.Time). z.id) found) y.id

        whole_path :
            (x : Experiment s.Time) (xs : List (Experiment s.Time)) (es : List (Evaluation s.Time))
            → old_experiments ≡ x ∷ xs
            → s.find
                (is_evaluation_of s t.evaluation_experiments project (ids_of (x ∷ xs)))
                t.evaluations
              ≡ es
            → found_evaluations ≡ es
        whole_path x xs es f g =
            ap
              (λ (ys : List (Experiment s.Time)).
                s.find (is_evaluation_of s t.evaluation_experiments project (ids_of ys))
                  t.evaluations)
              f
            ∙ g

        by_result :
            (x : Experiment s.Time) (xs : List (Experiment s.Time)) (e : Evaluation s.Time)
            (es : List (Evaluation s.Time))
            → old_experiments ≡ x ∷ xs
            → s.find
                (is_evaluation_of s t.evaluation_experiments project (ids_of (x ∷ xs)))
                t.evaluations
              ≡ e ∷ es
            → (q : Result (List (Evaluation s.Time)))
            → s.delete (ids_of_found (e ∷ es)) t.evaluations ≡ q
            → Answer
        by_result x xs e es f g (err c) d =
            (err c, t.evaluations, rw (f, g, d) refl, untouched-IsCleared (err c) (λ n y z h. cc))
        by_result x xs e es f g (ok left) d =
            let whole = whole_path x xs (e ∷ es) f g in
            let back = λ (y : Evaluation s.Time).
              laws.mem_delete (ids_of_found (e ∷ es)) t.evaluations y d in
            (
              ok (length (e ∷ es)),
              left,
              rw (f, g, d) refl,
              record {
                fewer = λ y m. ((back y).0 m).0;
                spared = λ y m free. (back y).1 (
                  m,
                  eq_false _ (λ h.
                      let (z, k, same) =
                        mem_of_map (λ (z : Evaluation s.Time). z.id) (e ∷ es) y.id
                          ((includes_iff _ y.id).0 h) in
                      let (n, old) =
                        (laws.mem_find _ t.evaluations z).0
                          (let k' : Memᴰ z found_evaluations = rw whole k in k') in
                      free (rw (← (unique z y n m same)) ((is_evaluation_of_iff z).0 old))),
                );
                cleared = λ _ y z _ m h.
                    let (n, gone) = (back y).0 m in
                    let k : Memᴰ y (e ∷ es) = rw whole at (IsOf-found y z n h) in
                    let there =
                      (includes_iff (map (λ (z : Evaluation s.Time). z.id) (e ∷ es)) y.id).1
                        (Memᴰ.map (λ (z : Evaluation s.Time). z.id) k) in
                    cc;
              },
            )

        by_evaluations :
            (x : Experiment s.Time) (xs : List (Experiment s.Time))
            → old_experiments ≡ x ∷ xs
            → (es : List (Evaluation s.Time))
            → s.find
                (is_evaluation_of s t.evaluation_experiments project (ids_of (x ∷ xs)))
                t.evaluations
              ≡ es
            → Answer
        by_evaluations x xs f [] g = (
          ok 0,
          t.evaluations,
          rw (f, g) refl,
          untouched-IsCleared (ok 0) (λ n y z _ m h.
              elim (let k : Memᴰ y [] = rw (whole_path x xs [] f g) at (IsOf-found y z m h) in
                k) [ ]),
        )
        by_evaluations x xs f (e ∷ es) g =
            by_result x xs e es f g (s.delete (ids_of_found (e ∷ es)) t.evaluations) refl

        by_experiments : (xs : List (Experiment s.Time)) → old_experiments ≡ xs → Answer
        by_experiments [] f = (
          ok 0,
          t.evaluations,
          rw f refl,
          untouched-IsCleared (ok 0) (λ n y x _ m (scope, own, k, old, link).
              elim (let h : Memᴰ x [] =
                  rw f at
                    ((laws.mem_find (is_old_experiment s project) t.experiments x).1 (k, old)) in
                h) [ ]),
        )
        by_experiments (x ∷ xs) f =
            by_evaluations x xs f
              (s.find (is_evaluation_of s t.evaluation_experiments project (ids_of (x ∷ xs)))
                t.evaluations)
              refl

  -- The experiment is one of the project, from before its retention period.
  abbrev pub IsPastRetention : Project → Experiment s.Time → Type 0
  IsPastRetention project x =
      (x.project_id ≡ project.id)
      × (s.is_before x.created_at (
            s.cutoff_date project.id
              (or_default default_experiment_days project.experiment_retention_days))
          ≡ true)

  pub is_old_experiment_iff :
      (project : Project) (x : Experiment s.Time)
      → (is_old_experiment s project x ≡ true) ↔ IsPastRetention project x
  unfolding is_old_experiment
  is_old_experiment_iff project x = (
    λ h. let (own, late) = and-eq-true _ _ h in ((eq_iff x.project_id project.id).0 own, late),
    λ (own, late). rw ((eq_iff x.project_id project.id).1 own, late) refl,
  )

  module _ (projects : List Project) where
    -- What may have gone with the experiments of the projects.
    pub record IsCleanUp (t u : Tables s) : Type 0 where
      -- Only these three tables have changed, and the audit log has grown.
      pub same : u ≡ record t {
        evaluations = u.evaluations;
        experiments = u.experiments;
        audit_logs = u.audit_logs;
      }
      pub logs : IsGrown s t.audit_logs u.audit_logs
      pub experiments : (x : Experiment s.Time) → Memᴰ x u.experiments → Memᴰ x t.experiments
      pub evaluations : (e : Evaluation s.Time) → Memᴰ e u.evaluations → Memᴰ e t.evaluations
      -- An evaluation that is not of an old experiment of a project is still there.
      pub spared :
          (e : Evaluation s.Time)
          → Memᴰ e t.evaluations
          → ¬ (
              (project : Project) × Memᴰ project projects
              × ((x : Experiment s.Time) × IsOf t project e x))
          → Memᴰ e u.evaluations
      -- The experiments of an evaluation that is still there are there too.
      pub together :
          (e : Evaluation s.Time) (x : Experiment s.Time)
          → Memᴰ e u.evaluations
          → Memᴰ x t.experiments
          → is_experiment_scope e.evaluation_scope ≡ true
          → e.project_id ≡ x.project_id
          → Memᴰ (e.id, x.id) t.evaluation_experiments
          → Memᴰ x u.experiments

    pub same-IsCleanUp : (t : Tables s) → IsCleanUp t t
    same-IsCleanUp t = record {
      same = refl;
      logs = same-IsGrown s t.audit_logs;
      experiments = λ x m. m;
      evaluations = λ e m. m;
      spared = λ e m _. m;
      together = λ e x _ m _ _ _. m;
    }

    pub trans-IsCleanUp : (t u v : Tables s) → IsCleanUp t u → IsCleanUp u v → IsCleanUp t v
    trans-IsCleanUp t u v h k = record {
      same =
          k.same
          ∙ ap
              (λ (w : Tables s). record w {
                evaluations = v.evaluations;
                experiments = v.experiments;
                audit_logs = v.audit_logs;
              })
              h.same;
      logs = trans-IsGrown s h.logs k.logs;
      experiments = λ x m. h.experiments x (k.experiments x m);
      evaluations = λ e m. h.evaluations e (k.evaluations e m);
      spared = λ e m free.
          k.spared e (h.spared e m free) (λ (project, n, (x, (scope, own, q, old, link))).
            free (project, n, (x, (scope, own, h.experiments x q, old, rw links at link))));
      together = λ e x m n scope own link.
          k.together e x m (h.together e x (k.evaluations e m) n scope own link) scope own
            (rw (← links) at link);
    }
      where
        links : u.evaluation_experiments ≡ t.evaluation_experiments
        links = ap (λ (w : Tables s). w.evaluation_experiments) h.same
