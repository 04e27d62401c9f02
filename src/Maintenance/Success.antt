-- ===== src/Maintenance/Success.antt =====
-- What `pruneAll` of MaintenanceOrchestrator promises.
use tauri_boilerplate.Base.{
  ◌≡◌, refl, sym, ap, ◌∙◌, ◌⊎◌, inl, inr, Bool, true, false, not, Option, List, [], ◌∷◌, all,
  length, ok, err, ◌>>◌, throw_if, Result-cases, Bool-cases, >>=-eq-ok, throw_if-ok, ok_injective,
  arith, Dict,
}
use tauri_boilerplate.Base.Int.{ℤ}
use tauri_boilerplate.Tasks.Table.{is_positive_safe}
use tauri_boilerplate.Maintenance.{
  MaintenanceError, batch_size_invalid, MaintenanceReport, Signal, Handler, Plan, is_clean, Pruned,
  cutoff_for_retention, get_retention_days, plan_all, prune_plans, report, prune_all,
}

report-success :
    {Db : Type 0} (sig : Signal) (skip : Bool) (vacuum : Db → Option Db) (p : Pruned Db)
    → (report sig skip vacuum p).0.success ≡ true
    → (p.broke_off ≡ false) × (all is_clean p.results ≡ true)
unfolding report
report-success sig skip vacuum p h = (ground arith, ground arith)

module _ {Days Date Db : Type 0} where
  plan_all-length :
      (is_positive : Days → Bool) (date_of : Days → Option Date) (overrides : Dict Days)
      (hs : List (Handler Days Date Db)) (ps : List (Plan Days Date Db))
      → plan_all is_positive date_of overrides hs ≡ ok ps
      → length ps ≡ length hs
  unfolding plan_all
  plan_all-length is_positive date_of overrides [] ps h = sym (ap length (ok_injective h))
  plan_all-length is_positive date_of overrides (x ∷ hs) ps h =
      let (c, cut, k) =
        >>=-eq-ok
          (cutoff_for_retention is_positive date_of
            (get_retention_days overrides x.id x.default_retention_days))
          _ h in
      let (rest, planned, last) = >>=-eq-ok (plan_all is_positive date_of overrides hs) _ k in
      sym (ap length (ok_injective last))
      ∙ omega (arith, plan_all-length is_positive date_of overrides hs rest planned)

  prune_plans-length :
      (sig : Signal) (batch : ℤ) (ps : List (Plan Days Date Db)) (db : Db)
      → (prune_plans sig batch ps db).broke_off ≡ false
      → length (prune_plans sig batch ps db).results ≡ length ps
  unfolding prune_plans
  prune_plans-length sig batch [] db h = refl
  prune_plans-length sig batch (p ∷ ps) db h = elim (Bool-cases (sig.aborted_before p.handler.id)) [
    | inl stop ↦ absurd (stopped (rw (stop, prune_plans) at h))
    | inr go ↦
        rw (go, prune_plans)
          (omega (
            arith,
            prune_plans-length sig batch ps (p.handler.prune p.cutoff_date batch db).1
                (rw (go, prune_plans) at h),
          ))
  ]
    where
      stopped : Path Bool true false → ⊥
      stopped h = cc

  -- Either `pruneAll` throws and has changed nothing, or it returns a report; a report of success has as many
  -- results as there are handlers, none of them with an error.
  pub prune_all-success :
      (is_positive : Days → Bool) (date_of : Days → Option Date) (sig : Signal) (batch : ℤ)
      (skip : Bool) (vacuum : Db → Option Db) (overrides : Dict Days)
      (hs : List (Handler Days Date Db)) (db : Db)
      → let out = prune_all is_positive date_of sig batch skip vacuum overrides hs db in
        ((e : MaintenanceError) × (out ≡ (err e, db)))
        ⊎ ((r : MaintenanceReport) × (out.0 ≡ ok r)
            × (r.success ≡ true → (length r.results ≡ length hs) × (all is_clean r.results ≡ true)))
  unfolding prune_all report
  prune_all-success is_positive date_of sig batch skip vacuum overrides hs db =
      let plans =
        throw_if (not (is_positive_safe batch)) batch_size_invalid
        >> plan_all is_positive date_of overrides hs in
      elim (Result-cases plans) [
        | inr (e, bad) ↦ inl (e, rw (bad, prune_all) refl)
        | inl (ps, planned) ↦
            let p = prune_plans sig batch ps db in
            let (valid, k) =
              throw_if-ok (not (is_positive_safe batch)) batch_size_invalid _ planned in
            inr (
              (report sig skip vacuum p).0,
              rw (planned, prune_all) refl,
              λ good.
                  let (went, clean) = report-success sig skip vacuum p good in
                  (
                    prune_plans-length sig batch ps db went
                        ∙ plan_all-length is_positive date_of overrides hs ps k,
                    clean,
                  ),
            )
      ]
