-- ===== src/Maintenance/Tests.antt =====
-- Two handlers of a database that counts its rows.
use tauri_boilerplate.Base.{
  ℕ, ◌≡◌, refl, true, false, String, none, some, List, [], ◌∷◌, all, length, ok, err, ◌⊎◌, Result,
  ltb,
}
use tauri_boilerplate.Base.Int.{pos}
use tauri_boilerplate.Maintenance.{
  MaintenanceError, retention_invalid, MaintenanceReport, Signal, Handler, is_clean, plan_all,
  prune_all,
}
use tauri_boilerplate.Maintenance.Success.{prune_all-success}

abbrev handler : String → ℕ → Handler ℕ ℕ ℕ
handler i days = record {
  id = i;
  display_name = i;
  default_retention_days = days;
  prune = λ cutoff batch db.
      (ok (record { handler_id = i; display_name = i; rows_pruned = db; error = none }), 0);
}

abbrev calm : Signal
calm = record { aborted_before = λ i. false; aborted_last = false }

abbrev prune : List (Handler ℕ ℕ ℕ) → Result MaintenanceError MaintenanceReport × ℕ
unfolding prune_all
prune hs = prune_all (ltb 0) (λ d. some d) calm (pos 500) false (λ db. some db) [] hs 7

-- A later handler without a valid retention keeps the earlier one from pruning.
nothing_pruned : prune (handler "a" 30 ∷ handler "b" 0 ∷ []) ≡ (err retention_invalid, 7)
unfolding prune plan_all
nothing_pruned = refl

prune_all-success_example :
    let out =
      prune_all
        (ltb 0)
        (λ d. some d)
        calm
        (pos 500)
        false
        (λ db. some db)
        []
        (handler "a" 30 ∷ handler "b" 30 ∷ [])
        7 in
    ((e : MaintenanceError) × (out ≡ (err e, 7)))
    ⊎ ((r : MaintenanceReport) × (out.0 ≡ ok r)
        × (r.success ≡ true → (length r.results ≡ 2) × (all is_clean r.results ≡ true)))
prune_all-success_example =
    prune_all-success (ltb 0) (λ d. some d) calm (pos 500) false (λ db. some db) []
      (handler "a" 30 ∷ handler "b" 30 ∷ []) 7
