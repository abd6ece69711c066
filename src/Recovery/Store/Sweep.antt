-- ===== src/Recovery/Store/Sweep.antt =====
-- The sweep over expired leases, RecoveryEngine.reap_stale_retries of src/inferrail/ap/engine.py: no
-- decision stays behind.
use inferrail.Common.{
  ℕ, ◌≡◌, refl, ◌∙◌, subst, sym, true, false, String, List, [], ◌∷◌, none, some, same_text,
  same_text_iff, arith, Bool-cases, ◌⊎◌, inl, inr,
}
use inferrail.Common.Membership.{any-filter}
use inferrail.Recovery.Store.{Decision, RecoveryStore, done, has_row}
use inferrail.Recovery.Store.Reaping.{
  is_stale_lease, Reaped, find_stale_retry_leases, reap_each, reap_stale_retries, Swept, ReapedRow,
  reaped_row, reap_then,
}
use inferrail.Recovery.Store.Stale.{id_of, stale_in, HasKey, KeepsIds, none_stale}
use inferrail.Recovery.Store.Passes.{IsKnown, IsSwept, reap-IsPassed}

-- The loop returns, and leaves no stale decision of the works it passes.
abbrev IsDone : ℕ → List Decision → RecoveryStore → Swept → Type 0
IsDone ts ds s x =
    (rows : List ReapedRow) × (t : RecoveryStore) × (x ≡ record { answer = inr rows; store = t })
    × ((v : String)
        → (has_row id_of v ds ≡ true) ⊎ (stale_in ts v s.decisions ≡ false)
        → stale_in ts v t.decisions ≡ false)

-- what the first pass shuts, and what the others still have to
due_after :
    (ts : ℕ) (d : Decision) (ds : List Decision) (s t : RecoveryStore)
    → IsSwept ts d.work_id s t
    → (v : String) → (has_row id_of v (d ∷ ds) ≡ true) ⊎ (stale_in ts v s.decisions ≡ false)
    → (has_row id_of v ds ≡ true) ⊎ (stale_in ts v t.decisions ≡ false)
due_after ts d ds s t (key, ids, shut, keeps) v (inr h) = inr (keeps v h)
due_after ts d ds s t (key, ids, shut, keeps) v (inl h) =
    elim (Bool-cases (same_text d.work_id v)) [
      | inl q ↦
          inr
            (subst (λ z. stale_in ts z t.decisions ≡ false) ((same_text_iff d.work_id v).0 q) shut)
      | inr q ↦ inl (ground (arith, h, q))
    ]

pass-IsDone :
    (ts at : ℕ) (d : Decision) (ds : List Decision) (s t : RecoveryStore) (r : Reaped)
    → (r ≡ none) ⊎ IsKnown d.work_id t
    → IsSwept ts d.work_id s t
    → IsDone ts ds t (reap_each ts at ds t)
    → IsDone ts (d ∷ ds) s (reap_then d (λ t. reap_each ts at ds t) s (done r t))
unfolding reaped_row
pass-IsDone ts at d ds s t none known swept (rows, u, e, clear) =
    (rows, u, e, (λ v h. clear v (due_after ts d ds s t swept v h)))
pass-IsDone ts at d ds s t (some q) (inl h) swept after = absurd (ground (arith, h))
pass-IsDone ts at d ds s t (some (a, kind)) (inr (now, g)) swept (rows, u, e, clear) = (
  record {
    work_id = d.work_id;
    decision_id = d.decision_id;
    reaped_attempt_id = a.attempt_id;
    kind = kind;
    status = now.status;
  }
      ∷ rows,
  u,
  rw (g, e) refl,
  (λ v h. clear v (due_after ts d ds s t swept v h)),
)

each-IsDone :
    (ts at : ℕ) (ds : List Decision) (s : RecoveryStore)
    → HasKey s
    → KeepsIds s
    → IsDone ts ds s (reap_each ts at ds s)
unfolding reap_each
each-IsDone ts at [] s key ids =
    ([], s, refl, (λ v h. elim h [ inl q ↦ absurd (ground (arith, q)) | inr q ↦ q ]))
each-IsDone ts at (d ∷ ds) s key ids =
    let p = reap-IsPassed d.work_id ts at s key ids in
    subst (λ z. IsDone ts (d ∷ ds) s (reap_then d (λ t. reap_each ts at ds t) s z)) (sym p.2)
      (pass-IsDone ts at d ds s p.1 p.0 p.3 p.4 (each-IsDone ts at ds p.1 p.4.0 p.4.1))

-- The sweep returns on tables whose decisions have their primary key and where the reaper's attempt
-- ids are on record for their own works only, and no lease that had run out at its time is left.
pub sweep_clears :
    (ts at : ℕ) (s : RecoveryStore)
    → HasKey s
    → KeepsIds s
    → (rows : List ReapedRow) × (t : RecoveryStore) × (reap_stale_retries ts at s
        ≡ record { answer = inr rows; store = t })
      × (find_stale_retry_leases ts t ≡ [])
unfolding reap_stale_retries find_stale_retry_leases
sweep_clears ts at s key ids =
    let p = each-IsDone ts at (find_stale_retry_leases ts s) s key ids in
    (
      p.0,
      p.1,
      p.2,
      none_stale ts p.1.decisions (λ v. p.3 v (elim (Bool-cases (stale_in ts v s.decisions)) [
        | inl q ↦ inl (
            any-filter (λ (d : Decision). same_text d.work_id v) (is_stale_lease ts) s.decisions
            ∙ q)
        | inr q ↦ inr q
      ])),
    )
