-- ===== src/Recovery/Engine/Decide.antt =====
-- A call of `decide` without interruption, and one after it: src/inferrail/ap/engine.py.
use inferrail.Common.{
  ℕ, zero, suc, ◌≤◌, ◌≡◌, refl, ap, ◌∙◌, sym, subst, Bool, true, false, String, List, [], ◌++◌, any,
  Option, none, some, arith, inl, inr, same_text_iff, ◌⊎◌,
}
use inferrail.Recovery.Models.{ExceptionCase, Recommendation}
use inferrail.Recovery.Policy.{recommend}
use inferrail.Recovery.Store.{
  Decision, RecoveryStore, has_decision, get_decision, get_retry_attempt, get_handoff,
  insert_decision, create_decision,
}
use inferrail.Recovery.Store.Rows.{find_row-none, find_row-some, has_row-insert_row}
use inferrail.Recovery.Engine.{
  Engine, Inputs, DecisionResult, Stage, looking, creating, finished, raised, EngineError,
}
use inferrail.Recovery.Engine.After.{Moved, when_found, when_created, new_decision}
use inferrail.Recovery.Engine.Closing.{replay}
use inferrail.Recovery.Engine.Stages.{advance}
use inferrail.Recovery.Engine.System.{System, Act, run}
use inferrail.Recovery.Engine.Once.{is_deletion_of}
use inferrail.Recovery.Engine.Calls.{decided}
use inferrail.Recovery.Engine.Keeping.{advance-Keeps, acts_keep}

-- Stages of one call with nothing in between; nine are enough, by `drive_ends`.
unfoldable pub run_stages : ℕ → Engine → Inputs → Stage → RecoveryStore → Moved
unfolding advance
run_stages zero e i stage s = record { stage = stage; store = s; effects = [] }
run_stages (suc n) e i stage s =
    let m = advance e i stage s in
    let rest = run_stages n e i m.stage m.store in
    record rest { effects = m.effects ++ rest.effects }

unfoldable pub decide : Engine → Inputs → ExceptionCase → RecoveryStore → Moved
unfolding run_stages
decide e i case s = run_stages 9 e i (looking case) s

run_keeps :
    (w : String) (n : ℕ) (e : Engine) (i : Inputs) (stage : Stage) (s : RecoveryStore)
    → decided w s ≤ decided w (run_stages n e i stage s).store
unfolding run_stages
run_keeps w zero e i stage s = omega arith
run_keeps w (suc n) e i stage s =
    let m = advance e i stage s in
    omega (arith, advance-Keeps w e i stage s, run_keeps w n e i m.stage m.store)

run_raised :
    (n : ℕ) (e : Engine) (i : Inputs) (x : EngineError) (s : RecoveryStore)
    → (run_stages n e i (raised x) s).stage ≡ raised x
unfolding run_stages advance
run_raised zero e i x s = refl
run_raised (suc n) e i x s = run_raised n e i x s

abbrev is_raised : Stage → Bool
is_raised (raised _) = true
is_raised _ = false

is_raised-run :
    (n : ℕ) (e : Engine) (i : Inputs) (stage : Stage) (s : RecoveryStore)
    → is_raised stage ≡ true
    → is_raised (run_stages n e i stage s).stage ≡ true
is_raised-run n e i (raised x) s h =
    subst (λ z. is_raised z ≡ true) (sym (run_raised n e i x s)) refl
is_raised-run n e i stage s h = absurd (ground (arith, h))

created_or_raised :
    (e : Engine) (i : Inputs) (case : ExceptionCase) (r : Recommendation) (s : RecoveryStore)
    (o : Option Decision)
    → get_decision case.work_id s ≡ o
    → let m = when_created e i case r s (insert_decision (new_decision e i case r) o s) in
      (1 ≤ decided case.work_id m.store) ⊎ (is_raised m.stage ≡ true)
unfolding when_created new_decision get_decision
created_or_raised e i case r s (some row) h =
    let there = find_row-some (λ (d : Decision). d.work_id) case.work_id row s.decisions h in
    ground (arith, there)
created_or_raised e i case r s none h = ground (
  arith,
  has_row-insert_row (λ (d : Decision). d.work_id) case.work_id (new_decision e i case r)
      s.decisions,
  same_text_iff case.work_id case.work_id,
)

found_or_created :
    (e : Engine) (i : Inputs) (case : ExceptionCase) (s : RecoveryStore) (o : Option Decision)
    → get_decision case.work_id s ≡ o
    → let m = run_stages 8 e i (when_found e i case o) s in
      (1 ≤ decided case.work_id m.store) ⊎ (is_raised m.stage ≡ true)
unfolding run_stages when_found advance create_decision get_decision
found_or_created e i case s (some row) h =
    let there = find_row-some (λ (d : Decision). d.work_id) case.work_id row s.decisions h in
    ground (arith, there)
found_or_created e i case s none h =
    let r = recommend case e.config i.now in
    let m = advance e i (creating case r) s in
    elim (created_or_raised e i case r s (get_decision case.work_id s) refl) [
      | inl d ↦ inl (omega (arith, d, run_keeps case.work_id 7 e i m.stage m.store))
      | inr x ↦ inr (is_raised-run 7 e i m.stage m.store x)
    ]

-- the decision on record, told again
abbrev pub Replayed : ExceptionCase → RecoveryStore → Moved → Type 0
Replayed case t m =
    (d : Decision) × (get_decision case.work_id t ≡ some d)
    × (m.stage ≡ finished (replay d (get_retry_attempt d.work_id t) (get_handoff d.work_id t)))
    × (m.store ≡ t)
    × (m.effects ≡ [])

found_replays :
    (e : Engine) (i : Inputs) (case : ExceptionCase) (t : RecoveryStore) (o : Option Decision)
    → get_decision case.work_id t ≡ o
    → has_decision case.work_id t ≡ true
    → Replayed case t (run_stages 8 e i (when_found e i case o) t)
unfolding run_stages when_found advance get_decision
found_replays e i case t (some d) h k = (d, h, refl, refl, refl)
found_replays e i case t none h k =
    absurd
      (ground (arith, k, find_row-none (λ (d : Decision). d.work_id) case.work_id t.decisions h))

replays :
    (e : Engine) (i : Inputs) (case : ExceptionCase) (t : RecoveryStore)
    → has_decision case.work_id t ≡ true
    → Replayed case t (decide e i case t)
unfolding decide run_stages advance
replays e i case t k = found_replays e i case t (get_decision case.work_id t) refl k

finished_decided :
    (e : Engine) (i : Inputs) (case : ExceptionCase) (s : RecoveryStore) (r : DecisionResult)
    → (decide e i case s).stage ≡ finished r
    → has_decision case.work_id (decide e i case s).store ≡ true
unfolding decide run_stages advance
finished_decided e i case s r h =
    elim (found_or_created e i case s (get_decision case.work_id s) refl) [
      | inl d ↦ ground (arith, d)
      | inr x ↦ absurd (ground (arith, h, x))
    ]

-- Once an uninterrupted call of `decide` has ended with a result, and whatever acts then follow that do not delete its
-- work, the stages of other calls and crashes among them: a further uninterrupted call for the work,
-- with any configuration, case and clock, changes no table, calls neither the adapter nor the
-- handoff, and answers with the decision, the attempt and the handoff then on record.
pub decide_replays :
    (e : Engine) (i : Inputs) (case : ExceptionCase) (s : RecoveryStore) (r : DecisionResult)
    → (decide e i case s).stage ≡ finished r
    → (y : System) → y.store ≡ (decide e i case s).store
    → (acts : List Act) → any (is_deletion_of case.work_id) acts ≡ false
    → (e' : Engine) (i' : Inputs) (again : ExceptionCase) → again.work_id ≡ case.work_id
    → let t = (run acts y).store in Replayed again t (decide e' i' again t)
decide_replays e i case s r h y after acts k e' i' again same =
    let t = (run acts y).store in
    let first : has_decision case.work_id y.store ≡ true =
      ap (λ z. has_decision case.work_id z) after ∙ finished_decided e i case s r h in
    let kept = acts_keep case.work_id acts y k in
    let there : has_decision case.work_id t ≡ true = ground (arith, first, kept) in
    replays e' i' again t (subst (λ w. has_decision w t ≡ true) (sym same) there)
