-- ===== src/Clock/Trace.antt =====
-- What the texts that HybridLogicalClock hands out tell a reader that compares them.
use Prim.Native.Nat.{Ordering}
use tauri_boilerplate.Base.{
  ℕ, ◌≤◌, ◌≡◌, refl, subst, sym, ◌⊎◌, inl, inr, arith, ok, err, Result, List, [], ◌∷◌, All,
  Result-cases,
}
use tauri_boilerplate.Base.Int.{ℤ, ◌≤ℤ◌, ◌<ℤ◌}
use tauri_boilerplate.Clock.Format.{Text}
use tauri_boilerplate.Clock.Hlc.{HybridLogicalClock, now, update, compare_stamps, compare}
use tauri_boilerplate.Clock.Parse.{HlcTimestamp, RangeError, parse}
use tauri_boilerplate.Clock.Monotone.{Before, merge-Advances-remote}
use tauri_boilerplate.Clock.Calls.{
  IsReady, IsTime, CallFacts, stamp, emit_later, now-CallFacts, update_of_parse, update_rejects,
  update-CallFacts,
}

-- A caller's use of the clock: it takes a stamp of its own, or it merges one that it received.
pub data Event : Type 0 where
  local : ℤ → Event
  receive : ℤ → Text → Event

abbrev pub IsTimely : Event → Type 0
IsTimely (local physical) = IsTime physical
IsTimely (receive physical remote) = IsTime physical

unfoldable pub step : Event → HybridLogicalClock → Result RangeError Text × HybridLogicalClock
step (local physical) c = now physical c
step (receive physical remote) c = update physical remote c

step-CallFacts :
    (e : Event) (c : HybridLogicalClock) → IsTimely e → IsReady c → CallFacts c (step e c)
unfolding step
step-CallFacts (local physical) c t h = now-CallFacts physical c t h
step-CallFacts (receive physical remote) c t h = update-CallFacts physical remote c t h

abbrev pub keep_text : Result RangeError Text → List Text → List Text
keep_text (ok t) ts = t ∷ ts
keep_text (err e) ts = ts

-- The texts that the calls return, in order; a call that throws returns none.
unfoldable pub run : List Event → HybridLogicalClock → List Text × HybridLogicalClock
unfolding step
run [] c = ([], c)
run (e ∷ es) c = let (r, c') = step e c in let (ts, c'') = run es c' in (keep_text r ts, c'')

-- The text `t` is a timestamp behind the time `p` and the counter `k`.
abbrev IsAfter : ℤ → ℕ → Text → Type 0
IsAfter p k t = (s : HlcTimestamp) × (parse t ≡ ok s) × Before p k s.physical_time s.counter

All-IsAfter :
    (p q : ℤ) (k l : ℕ) (ts : List Text)
    → p ≤ℤ q
    → (p <ℤ q) ⊎ (k ≤ l)
    → All (IsAfter q l) ts
    → All (IsAfter p k) ts
All-IsAfter p q k l [] le lex h = tt
All-IsAfter p q k l (t ∷ ts) le lex ((s, e, b), h) =
    ((s, e, ground arith), All-IsAfter p q k l ts le lex h)

module _ (locale_compare : Text → Text → Ordering) where
  -- Each text compares below every later one.
  abbrev pub IsIncreasing : List Text → Type 0
  IsIncreasing [] = Unit
  IsIncreasing (t ∷ ts) =
      All (λ u. compare locale_compare t u ≡ ok Ordering.lt) ts × IsIncreasing ts

  compare_of_Before :
      (t u : Text) (a b : HlcTimestamp)
      → parse t ≡ ok a
      → parse u ≡ ok b
      → Before a.physical_time a.counter b.physical_time b.counter
      → compare locale_compare t u ≡ ok Ordering.lt
  unfolding compare compare_stamps
  compare_of_Before t u a b p q h = rw (p, q) (ground arith)

  below-All :
      (t : Text) (a : HlcTimestamp) (us : List Text)
      → parse t ≡ ok a
      → All (IsAfter a.physical_time a.counter) us
      → All (λ u. compare locale_compare t u ≡ ok Ordering.lt) us
  below-All t a [] p h = tt
  below-All t a (u ∷ us) p ((b, q, before), h) =
      (compare_of_Before t u a b p q before, below-All t a us p h)

  -- The texts of a run lie behind the clock it starts from, and increase.
  abbrev RunFacts : HybridLogicalClock → List Text → Type 0
  RunFacts c ts = All (IsAfter c.latest_time c.counter) ts × IsIncreasing ts

  keep_text-RunFacts :
      (c : HybridLogicalClock) (s : Result RangeError Text × HybridLogicalClock) (ts : List Text)
      → CallFacts c s
      → RunFacts s.1 ts
      → RunFacts c (keep_text s.0 ts)
  keep_text-RunFacts c (ok t, c') ts f (after, up) =
      let (parsed, before) = f.later t refl in
      let rest =
        All-IsAfter c.latest_time c'.latest_time c.counter c'.counter ts f.not_back.0 f.not_back.1
          after in
      (((stamp c', parsed, before), rest), (below-All t (stamp c') ts parsed after, up))
  keep_text-RunFacts c (err e, c') ts f (after, up) = (
    All-IsAfter c.latest_time c'.latest_time c.counter c'.counter ts f.not_back.0 f.not_back.1
        after,
    up,
  )

  run-RunFacts :
      (es : List Event) (c : HybridLogicalClock)
      → All IsTimely es
      → IsReady c
      → RunFacts c (run es c).0
  unfolding run
  run-RunFacts [] c ts h = (tt, tt)
  run-RunFacts (e ∷ es) c (t, ts) h =
      let f = step-CallFacts e c t h in
      keep_text-RunFacts c (step e c) _ f (run-RunFacts es (step e c).1 ts f.ready)

  -- Whatever calls of `now` and `update` are made of one clock, in any order, with any wall clock
  -- readings between 1970 and the last safe integer (also ones that jump back) and any received
  -- texts (also malformed ones), and whichever of them throw: each text that a call returns
  -- compares below the text of every later call, whatever the collation of node names. The clock
  -- must start in safe integers with a node name of one line.
  pub run-IsIncreasing :
      (es : List Event) (c : HybridLogicalClock)
      → All IsTimely es
      → IsReady c
      → IsIncreasing (run es c).0
  run-IsIncreasing es c ts h = (run-RunFacts es c ts h).1

  update_later :
      (physical : ℤ) (remote u : Text) (s : HlcTimestamp) (c : HybridLogicalClock)
      → parse remote ≡ ok s
      → (update physical remote c).0 ≡ ok u
      → Before s.physical_time s.counter
          (update physical remote c).1.latest_time
          (update physical remote c).1.counter
  update_later physical remote u s c p h =
      subst (λ r. r.0 ≡ ok u → Before s.physical_time s.counter r.1.latest_time r.1.counter)
        (sym (update_of_parse physical remote c p))
        (emit_later s.physical_time s.counter u _ (merge-Advances-remote physical s c)) h

  -- The text that `update` returns compares above the received text that it was given, for a clock
  -- in safe integers with a node name of one line and a wall clock reading between 1970 and the
  -- last safe integer.
  pub update-above_remote :
      (physical : ℤ) (remote u : Text) (c : HybridLogicalClock)
      → IsTime physical
      → IsReady c
      → (update physical remote c).0 ≡ ok u
      → compare locale_compare remote u ≡ ok Ordering.lt
  update-above_remote physical remote u c t h e = elim (Result-cases (parse remote)) [
    | inl (s, p) ↦
        compare_of_Before remote u s (stamp (update physical remote c).1) p
          ((update-CallFacts physical remote c t h).later u e).0
          (update_later physical remote u s c p e)
    | inr (x, p) ↦ absurd (update_rejects physical remote c x u p e)
  ]
