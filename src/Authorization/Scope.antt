-- ===== src/Authorization/Scope.antt =====
-- ScopeEvaluator of packages/authorization/src/engine/ScopeEvaluator.ts. `same` is the strict
-- equality of the values of a scope.
use tauri_boilerplate.Base.{
  Bool, true, false, not, if◌then◌else◌, Option, none, some, [], ◌∷◌, Dict, get,
}

module _ {Value : Type 0} (same : Value → Value → Bool) where
  -- `requestedScope[key] === value`, where an absent key is no value
  abbrev pub is_value : Option Value → Value → Bool
  is_value none v = false
  is_value (some w) v = same w v

  -- The loop of `matches`.
  unfoldable pub all_match : Dict Value → Dict Value → Bool
  all_match [] scope = true
  all_match ((k, v) ∷ cs) scope =
      let rest = all_match cs scope in if not (is_value (get k scope) v) then false else rest

  abbrev matches_some : Dict Value → Option (Dict Value) → Bool
  matches_some cs none = false
  matches_some cs (some scope) = all_match cs scope

  -- matches(grantConstraints, requestedScope)
  unfoldable pub matches : Option (Dict Value) → Option (Dict Value) → Bool
  unfolding all_match
  matches none requested = true
  matches (some []) requested = true
  matches (some (c ∷ cs)) requested = matches_some (c ∷ cs) requested
