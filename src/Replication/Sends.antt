-- ===== src/Replication/Sends.antt =====
-- How the marks of OutboxService change the rows of its table.
use tauri_boilerplate.Base.{
  ℕ, ◌≤◌, ◌≡◌, refl, sym, ◌∙◌, subst, ◌⊎◌, inl, inr, true, false, nat_eq, string_eq, eq_iff, if_ind,
  String, List, [], ◌∷◌, Result, arith, Pointwise, update_where-Pointwise,
}
use tauri_boilerplate.Base.Int.{ℤ}
use tauri_boilerplate.Replication.Outbox.{
  sent, OutboxRow, OutboxError, is_pending, is_open, sent_row, failed_row, mark_sent, mark_failed,
}

-- What becomes of a row, where `Took` says which envelopes were taken: it stays the same envelope, loses no
-- attempt, stays as it is once SENT or FAILED, and is not marked SENT unless its envelope was taken.
pub record Sends (Took : String → Type 0) (r s : OutboxRow) : Type 0 where
  pub same_envelope : s.envelope_id ≡ r.envelope_id
  pub same_json : s.envelope_json ≡ r.envelope_json
  pub attempts : r.attempt_count ≤ s.attempt_count
  pub frozen : is_pending r.status ≡ false → s ≡ r
  pub taken : s.status ≡ sent → (r.status ≡ sent) ⊎ Took r.envelope_id

module _ (Took : String → Type 0) where
  Sends-refl : (r : OutboxRow) → Sends Took r r
  Sends-refl r = record {
    same_envelope = refl;
    same_json = refl;
    attempts = omega arith;
    frozen = λ h. refl;
    taken = λ h. inl h;
  }

  taken_trans :
      (r s : OutboxRow)
      → Sends Took r s
      → (s.status ≡ sent) ⊎ Took s.envelope_id
      → (r.status ≡ sent) ⊎ Took r.envelope_id
  taken_trans r s p (inl h) = p.taken h
  taken_trans r s p (inr h) = inr (subst Took p.same_envelope h)

  Sends-trans : (r s u : OutboxRow) → Sends Took r s → Sends Took s u → Sends Took r u
  Sends-trans r s u p q = record {
    same_envelope = q.same_envelope ∙ p.same_envelope;
    same_json = q.same_json ∙ p.same_json;
    attempts = omega (arith, p.attempts, q.attempts);
    frozen = λ h.
        q.frozen (subst (λ (x : OutboxRow). is_pending x.status ≡ false) (sym (p.frozen h)) h)
        ∙ p.frozen h;
    taken = λ h. taken_trans r s p (q.taken h);
  }

  pub Sends-all_refl : (t : List OutboxRow) → Pointwise (Sends Took) t t
  Sends-all_refl [] = tt
  Sends-all_refl (r ∷ t) = (Sends-refl r, Sends-all_refl t)

  pub Sends-all_trans :
      (t u v : List OutboxRow)
      → Pointwise (Sends Took) t u
      → Pointwise (Sends Took) u v
      → Pointwise (Sends Took) t v
  Sends-all_trans [] [] v p q = q
  Sends-all_trans [] (s ∷ u) v p q = absurd p
  Sends-all_trans (r ∷ t) [] v p q = absurd p
  Sends-all_trans (r ∷ t) (s ∷ u) [] p q = absurd q
  Sends-all_trans (r ∷ t) (s ∷ u) (x ∷ v) (p, ps) (q, qs) =
      (Sends-trans r s x p q, Sends-all_trans t u v ps qs)

  sent_row-Sends :
      (e : String) (now : ℕ)
      → Took e
      → (r : OutboxRow) → is_open e r ≡ true
      → Sends Took r (sent_row now r)
  sent_row-Sends e now took r hit = record {
    same_envelope = refl;
    same_json = refl;
    attempts = omega arith;
    frozen = λ h. absurd (ground arith);
    taken = λ h. inr (subst Took (sym ((eq_iff r.envelope_id e).0 (ground arith))) took);
  }

  failed_row-Sends :
      (e : String) (max : ℤ) (now : ℕ) (r : OutboxRow)
      → is_open e r ≡ true
      → Sends Took r (failed_row max now r)
  failed_row-Sends e max now r hit = record {
    same_envelope = refl;
    same_json = refl;
    attempts = omega arith;
    frozen = λ h. absurd (ground arith);
    taken = λ h. absurd (ground arith);
  }

  pub mark_sent-Sends :
      (e : String) (now : ℕ) (t : List OutboxRow)
      → Took e
      → Pointwise (Sends Took) t (mark_sent e now t)
  unfolding mark_sent
  mark_sent-Sends e now t took =
      update_where-Pointwise (Sends Took) (is_open e) (sent_row now) (sent_row-Sends e now took)
        Sends-refl t

  pub mark_failed-Sends :
      (e : String) (max : ℤ) (now : ℕ) (t : List OutboxRow)
      → Pointwise (Sends Took) t (mark_failed e max now t).1
  unfolding mark_failed
  mark_failed-Sends e max now t =
      if_ind (λ (p : Result OutboxError (Unit {0}) × List OutboxRow). Pointwise (Sends Took) t p.1)
        _ (λ bad. Sends-all_refl t)
        (λ good.
          update_where-Pointwise (Sends Took) (is_open e) (failed_row max now)
            (failed_row-Sends e max now) Sends-refl t)
