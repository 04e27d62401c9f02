-- ===== src/Clock/Exhausted.antt =====
-- When HybridLogicalClock throws "HLC timestamp space exhausted", and what follows.
use tauri_boilerplate.Base.{
  ◌≡◌, refl, ◌↔◌, arith, ok, err, Result, Result-cases, List, [], ◌∷◌, inl, inr, All, true,
}
use tauri_boilerplate.Base.Int.{ℤ, pos}
use tauri_boilerplate.Clock.Format.{Text, format}
use tauri_boilerplate.Clock.Hlc.{HybridLogicalClock, increment, tick, merge, emit, now, update}
use tauri_boilerplate.Clock.Parse.{
  max_safe, HlcTimestamp, RangeError, space_exhausted, is_node, parse,
}
use tauri_boilerplate.Clock.Monotone.{IsSafe}
use tauri_boilerplate.Clock.RoundTrip.{parse-format}
use tauri_boilerplate.Clock.Safe.{SafeStamp, parse-SafeStamp}
use tauri_boilerplate.Clock.Calls.{IsTime}
use tauri_boilerplate.Clock.Trace.{IsTimely, Event, local, receive, step, run}

-- The largest time and the largest counter.
abbrev pub IsExhausted : HybridLogicalClock → Type 0
IsExhausted c = (c.latest_time ≡ pos max_safe) × (c.counter ≡ max_safe)

emit_error :
    (s : Result RangeError (Unit {0}) × HybridLogicalClock) (e : RangeError)
    → (emit s).0 ≡ err e
    → s.0 ≡ err e
unfolding emit
emit_error (ok _, c) e h = cc
emit_error (err x, c) e h = cc

increment_throws : (c : HybridLogicalClock) → IsExhausted c → increment c ≡ (err space_exhausted, c)
unfolding increment
increment_throws c h = ground arith

tick_throws :
    (p : ℤ) (c : HybridLogicalClock)
    → IsTime p
    → IsExhausted c
    → tick p c ≡ (err space_exhausted, c)
unfolding tick
tick_throws p c t h = ground (arith, increment_throws c h)

merge_throws :
    (p : ℤ) (s : HlcTimestamp) (c : HybridLogicalClock)
    → IsTime p
    → SafeStamp s
    → IsExhausted c
    → (merge p s c).0 ≡ err space_exhausted
unfolding merge increment
merge_throws p s c t safe h = ground arith

now_throws :
    (p : ℤ) (c : HybridLogicalClock) → IsTime p → IsExhausted c → now p c ≡ (err space_exhausted, c)
unfolding now emit
now_throws p c t h = rw (tick_throws p c t h)

-- No call on an exhausted clock returns, and it stays exhausted.
abbrev Fails : Result RangeError Text × HybridLogicalClock → Type 0
Fails (r, c') = ((e : RangeError) × (r ≡ err e)) × IsExhausted c'

emit-Fails :
    (s : Result RangeError (Unit {0}) × HybridLogicalClock)
    → s.0 ≡ err space_exhausted
    → IsExhausted s.1
    → Fails (emit s)
unfolding emit
emit-Fails (ok _, c) h x = cc
emit-Fails (err e, c) h x = ((e, refl), x)

increment-IsExhausted : (c : HybridLogicalClock) → IsExhausted c → IsExhausted (increment c).1
increment-IsExhausted c h = rw (increment_throws c h) h

merge-IsExhausted :
    (p : ℤ) (s : HlcTimestamp) (c : HybridLogicalClock)
    → IsTime p
    → SafeStamp s
    → IsExhausted c
    → IsExhausted (merge p s c).1
unfolding merge increment
merge-IsExhausted p s c t safe h = ground arith

step-Fails : (e : Event) (c : HybridLogicalClock) → IsTimely e → IsExhausted c → Fails (step e c)
unfolding step update
step-Fails (local p) c t h = rw (now_throws p c t h) ((space_exhausted, refl), h)
step-Fails (receive p remote) c t h = elim (Result-cases (parse remote)) [
  | inl (s, e) ↦
      let safe = parse-SafeStamp remote e in
      rw (e, update)
        (emit-Fails (merge p s c) (merge_throws p s c t safe h) (merge-IsExhausted p s c t safe h))
  | inr (x, e) ↦ rw (e, update) ((x, refl), h)
]

run_nothing :
    (es : List Event) (c : HybridLogicalClock) → All IsTimely es → IsExhausted c → (run es c).0 ≡ []
unfolding run
run_nothing [] c ts h = refl
run_nothing (e ∷ es) c (t, ts) h =
    let f = step-Fails e c t h in let rest = run_nothing es (step e c).1 ts f.1 in rw (f.0.1) rest

merge_poisoned :
    (p : ℤ) (node : Text) (c : HybridLogicalClock)
    → IsTime p
    → IsSafe c
    → let s =
        merge p (record { physical_time = pos max_safe; counter = max_safe; node_id = node }) c in
      (s.0 ≡ err space_exhausted) × IsExhausted s.1
unfolding merge increment
merge_poisoned p node c t h = ground arith

update_poisoned :
    (p : ℤ) (node : Text) (c : HybridLogicalClock)
    → IsTime p
    → IsSafe c
    → is_node node ≡ true
    → Fails (update p (format (pos max_safe) max_safe node) c)
unfolding update
update_poisoned p node c t h line =
    let q = merge_poisoned p node c t h in
    rw (parse-format max_safe max_safe node (omega arith) (omega arith) line, update)
      (emit-Fails _ q.0 q.1)

-- One received timestamp with the largest safe time and the largest safe counter, well formed and
-- of any node name of one line, makes `update` throw and stops the clock for good: whatever calls
-- follow, at wall clock readings between 1970 and the last safe integer, none of them returns a
-- text. The clock that receives it is any one in safe integers.
pub update_stops_clock :
    (p : ℤ) (node : Text) (c : HybridLogicalClock) (es : List Event)
    → IsTime p
    → IsSafe c
    → is_node node ≡ true
    → All IsTimely es
    → let s = update p (format (pos max_safe) max_safe node) c in
      ((e : RangeError) × (s.0 ≡ err e)) × ((run es s.1).0 ≡ [])
update_stops_clock p node c es t h line ts =
    let f = update_poisoned p node c t h line in (f.0, run_nothing es _ ts f.1)

now_returns :
    (p : ℤ) (c : HybridLogicalClock) (e : RangeError) → (now p c).0 ≡ err e → (tick p c).0 ≡ err e
unfolding now
now_returns p c e h = emit_error (tick p c) e h

tick_error :
    (p : ℤ) (c : HybridLogicalClock) (e : RangeError)
    → IsSafe c
    → (tick p c).0 ≡ err e
    → IsExhausted c
unfolding tick increment
tick_error p c e h f = ground arith

-- `now` throws exactly on a clock that holds the largest safe time and the largest safe counter,
-- for a clock in safe integers and a wall clock reading between 1970 and the last safe integer.
pub now-throws_iff :
    (p : ℤ) (c : HybridLogicalClock)
    → IsTime p
    → IsSafe c
    → ((now p c).0 ≡ err space_exhausted) ↔ IsExhausted c
now-throws_iff p c t h = (
  λ e. tick_error p c space_exhausted h (now_returns p c space_exhausted e),
  λ x. rw (now_throws p c t x),
)
