-- ===== src/Clock/Calls.antt =====
-- What one call of `now` or `update` of HybridLogicalClock does to the clock, and returns.
use tauri_boilerplate.Base.{
  ℕ, ◌≤◌, ◌≡◌, refl, ◌⊎◌, inl, inr, arith, ok, err, Result, true, Result-cases,
}
use tauri_boilerplate.Base.Int.{ℤ, pos, negsuc, ◌≤ℤ◌, ◌<ℤ◌}
use tauri_boilerplate.Clock.Format.{Text, format}
use tauri_boilerplate.Clock.Hlc.{HybridLogicalClock, tick, merge, emit, now, update}
use tauri_boilerplate.Clock.Parse.{max_safe, HlcTimestamp, RangeError, is_node, parse}
use tauri_boilerplate.Clock.Monotone.{
  Before, IsSafe, Advances, StepFacts, tick-StepFacts, merge-StepFacts,
}
use tauri_boilerplate.Clock.RoundTrip.{parse-format}
use tauri_boilerplate.Clock.Safe.{parse-SafeStamp}

-- Ready to stamp: the fields are safe, and the node name is one line.
pub record IsReady (c : HybridLogicalClock) : Type 0 where
  pub safe : IsSafe c
  pub one_line : is_node c.node_id ≡ true

-- The timestamp of the clock's fields.
abbrev pub stamp : HybridLogicalClock → HlcTimestamp
stamp c = record { physical_time = c.latest_time; counter = c.counter; node_id = c.node_id }

pub parse-format_clock :
    (c : HybridLogicalClock)
    → IsReady c
    → parse (format c.latest_time c.counter c.node_id) ≡ ok (stamp c)
parse-format_clock c h = go c.latest_time refl
  where
    go :
        (p : ℤ)
        → c.latest_time ≡ p
        → parse (format c.latest_time c.counter c.node_id) ≡ ok (stamp c)
    go (pos n) e =
        rw e (parse-format n c.counter c.node_id (ground arith) h.safe.counter_safe h.one_line)
    go (negsuc n) e = absurd (ground arith)

-- A call that returned or threw: the clock stays ready and is not set back, and a text that it
-- returned parses to the fields of the clock, which lie behind those before the call.
pub record CallFacts (c : HybridLogicalClock) (s : Result RangeError Text × HybridLogicalClock)
    : Type 0 where
  pub ready : IsReady s.1
  pub not_back :
      (c.latest_time ≤ℤ s.1.latest_time)
      × ((c.latest_time <ℤ s.1.latest_time) ⊎ (c.counter ≤ s.1.counter))
  pub later :
      (t : Text)
      → s.0 ≡ ok t
      → (parse t ≡ ok (stamp s.1)) × Before c.latest_time c.counter s.1.latest_time s.1.counter

emit-CallFacts :
    (c : HybridLogicalClock) (s : Result RangeError (Unit {0}) × HybridLogicalClock)
    → is_node c.node_id ≡ true
    → StepFacts c s
    → CallFacts c (emit s)
unfolding emit
emit-CallFacts c (ok _, c') line f =
    let ready : IsReady c' = record { safe = f.safe; one_line = rw (f.same_node) line } in
    record {
      ready = ready;
      not_back = f.keeps;
      later = λ t e. (cc (parse-format_clock c' ready), f.advances refl);
    }
emit-CallFacts c (err _, c') line f = record {
  ready = record { safe = f.safe; one_line = rw (f.same_node) line };
  not_back = f.keeps;
  later = λ t e. cc;
}

pub emit_later :
    (p : ℤ) (k : ℕ) (u : Text) (s : Result RangeError (Unit {0}) × HybridLogicalClock)
    → Advances p k s
    → (emit s).0 ≡ ok u
    → Before p k (emit s).1.latest_time (emit s).1.counter
unfolding emit
emit_later p k u (ok _, c') adv e = adv refl
emit_later p k u (err _, c') adv e = cc

-- A wall clock reading that JavaScript can represent, from 1970 on.
abbrev pub IsTime : ℤ → Type 0
IsTime p = (pos 0 ≤ℤ p) × (p ≤ℤ pos max_safe)

pub now-CallFacts :
    (physical : ℤ) (c : HybridLogicalClock)
    → IsTime physical
    → IsReady c
    → CallFacts c (now physical c)
unfolding now
now-CallFacts physical c (lo, hi) h =
    emit-CallFacts c (tick physical c) h.one_line (tick-StepFacts physical c lo hi h.safe)

module _ (physical : ℤ) (remote : Text) (c : HybridLogicalClock) where
  pub update_of_parse :
      {s : HlcTimestamp}
      → parse remote ≡ ok s
      → update physical remote c ≡ emit (merge physical s c)
  unfolding update
  update_of_parse p = rw (p, update)

  pub update_rejects :
      (x : RangeError) (u : Text) → parse remote ≡ err x → (update physical remote c).0 ≡ ok u → ⊥
  unfolding update
  update_rejects x u p e = ground arith

  pub update-CallFacts : IsTime physical → IsReady c → CallFacts c (update physical remote c)
  unfolding update
  update-CallFacts (lo, hi) h = elim (Result-cases (parse remote)) [
    | inl (s, e) ↦
        let safe = parse-SafeStamp remote e in
        rw (e, update)
          (emit-CallFacts c (merge physical s c) h.one_line
            (merge-StepFacts physical s c lo hi safe.0 safe.1 h.safe))
    | inr (x, e) ↦ rw (e, update) (record { ready = h; not_back = omega arith; later = λ t f. cc })
  ]
