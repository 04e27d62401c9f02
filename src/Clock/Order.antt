-- ===== src/Clock/Order.antt =====
-- `HybridLogicalClock.compare` is a total order on timestamps, up to the collation of node names.
use Prim.Native.Nat.{Ordering}
use tauri_boilerplate.Base.{◌≡◌, arith, ok, err, Result}
use tauri_boilerplate.Clock.Format.{Text}
use tauri_boilerplate.Clock.Hlc.{compare_stamps, compare_results, compare}
use tauri_boilerplate.Clock.Parse.{HlcTimestamp, RangeError, parse}

abbrev pub flip : Ordering → Ordering
flip Ordering.lt = Ordering.gt
flip Ordering.eq = Ordering.eq
flip Ordering.gt = Ordering.lt

-- What the language says of `localeCompare`: it is a consistent comparator.
pub record IsCollation (locale_compare : Text → Text → Ordering) : Type 0 where
  pub flips : (a b : Text) → locale_compare b a ≡ flip (locale_compare a b)
  pub lt_trans :
      (a b c : Text)
      → locale_compare a b ≡ Ordering.lt
      → locale_compare b c ≡ Ordering.lt
      → locale_compare a c ≡ Ordering.lt

module _ (locale_compare : Text → Text → Ordering) (laws : IsCollation locale_compare) where
  stamps_flip :
      (a b : HlcTimestamp)
      → compare_stamps locale_compare b a ≡ flip (compare_stamps locale_compare a b)
  unfolding compare_stamps
  stamps_flip a b = ground (arith, laws.flips a.node_id b.node_id)

  stamps_lt_trans :
      (a b c : HlcTimestamp)
      → compare_stamps locale_compare a b ≡ Ordering.lt
      → compare_stamps locale_compare b c ≡ Ordering.lt
      → compare_stamps locale_compare a c ≡ Ordering.lt
  unfolding compare_stamps
  stamps_lt_trans a b c h k = ground (arith, laws.lt_trans a.node_id b.node_id c.node_id)

  results_flip :
      (r s : Result RangeError HlcTimestamp) {o : Ordering}
      → compare_results locale_compare r s ≡ ok o
      → compare_results locale_compare s r ≡ ok (flip o)
  unfolding compare_results
  results_flip (ok a) (ok b) h = cc (stamps_flip a b)
  results_flip (ok a) (err e) h = cc
  results_flip (err e) s h = cc

  results_lt_trans :
      (r s t : Result RangeError HlcTimestamp)
      → compare_results locale_compare r s ≡ ok Ordering.lt
      → compare_results locale_compare s t ≡ ok Ordering.lt
      → compare_results locale_compare r t ≡ ok Ordering.lt
  unfolding compare_results
  results_lt_trans (ok a) (ok b) (ok c) h k = cc (stamps_lt_trans a b c (cc) (cc))
  results_lt_trans (ok a) (ok b) (err e) h k = cc
  results_lt_trans (ok a) (err e) t h k = cc
  results_lt_trans (err e) s t h k = cc

  -- Swapping the arguments of `compare` turns its answer round, and both orders return, where
  -- `localeCompare` is a consistent comparator and one of the two orders returns.
  pub compare-flip :
      (a b : Text) {o : Ordering}
      → compare locale_compare a b ≡ ok o
      → compare locale_compare b a ≡ ok (flip o)
  unfolding compare
  compare-flip a b h = results_flip (parse a) (parse b) h

  -- `compare` is transitive: a text below a second that is below a third is below the third, where
  -- `localeCompare` is a consistent comparator.
  pub compare-lt_trans :
      (a b c : Text)
      → compare locale_compare a b ≡ ok Ordering.lt
      → compare locale_compare b c ≡ ok Ordering.lt
      → compare locale_compare a c ≡ ok Ordering.lt
  unfolding compare
  compare-lt_trans a b c h k = results_lt_trans (parse a) (parse b) (parse c) h k
