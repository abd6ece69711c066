-- ===== src/Authority/Revocation.antt =====
-- What `mark_revocation_started` of hosted/a2a_economic_authority/core.py stops.
use inferrail.Common.{
  ℕ, ◌≡◌, refl, ◌∙◌, String, Bool, true, false, Option, some, ◌⊎◌, inl, inr, arith, is_some,
  same_text, same_text_iff, Bool-cases, Option-cases,
}
use inferrail.Common.Int.{ℤ}
use inferrail.Common.Money.{Amount}
use inferrail.Authority.State.{DelegationState, Delegations, Ledger, find, update}
use inferrail.Authority.Tables.{Keeps, find-update}
use inferrail.Authority.Walks.{is_revocation_in_progress_in_lineage}
use inferrail.Authority.Walks.Lineage.{Above, self, up, IsRevoked, revoked_from_complete}
use inferrail.Authority.Events.{Result, ok, err}
use inferrail.Authority.Opening.{reserve_txn}
use inferrail.Authority.Spending.{grant_txn, consume_txn}
use inferrail.Authority.Closing.{mark_revocation_started, start_revocation}
use inferrail.Authority.Api.{with_valid, reserve, grant, consume}

module _ (now : ℕ) (event_id d : String) (st : Ledger)
    (blocked : is_revocation_in_progress_in_lineage st.delegations d ≡ true) where
  grant_txn-blocked : (x : ℤ) → (grant_txn now event_id d x st).1 ≡ st
  unfolding grant_txn
  grant_txn-blocked x = ground arith

  consume_txn-blocked : (x : Option ℤ) → (consume_txn now event_id d x st).1 ≡ st
  unfolding consume_txn
  consume_txn-blocked x = ground arith

  reserve_txn-blocked :
      (child agent : String) (x : ℤ) → (reserve_txn now event_id d child agent x st).1 ≡ st
  unfolding reserve_txn
  reserve_txn-blocked child agent x = ground arith

with_valid-blocked :
    {A B : Type 0} (valid : Bool) (amount : Result A) (body : A → Ledger → Result B × Ledger)
    (st : Ledger)
    → ((x : A) → (body x st).1 ≡ st)
    → (with_valid valid amount body st).1 ≡ st
unfolding with_valid
with_valid-blocked false amount body st h = refl
with_valid-blocked true (err e) body st h = refl
with_valid-blocked true (ok x) body st h = h x

module _ {a d : String} (st : Ledger) (marked : IsRevoked st.delegations a)
    (below : Above st.delegations a d) where
  blocked_below : is_revocation_in_progress_in_lineage st.delegations d ≡ true
  unfolding is_revocation_in_progress_in_lineage
  blocked_below = revoked_from_complete _ st.delegations below marked

  -- At or below a delegation that is marked, `grant`, `consume` and `reserve` change neither the
  -- delegations nor the events, whatever their arguments.
  pub revoked_is_frozen :
      (now : ℕ) (event_id child agent : String) (x : Amount) (spent : Option Amount)
      → ((grant now event_id d x st).1 ≡ st)
        × ((consume now event_id d spent st).1 ≡ st)
        × ((reserve now event_id d child agent x st).1 ≡ st)
  unfolding grant consume reserve
  revoked_is_frozen now event_id child agent x spent = (
    with_valid-blocked _ _ _ st (grant_txn-blocked now event_id d st blocked_below),
    with_valid-blocked _ _ _ st (consume_txn-blocked now event_id d st blocked_below),
    with_valid-blocked _ _ _ st (reserve_txn-blocked now event_id d st blocked_below child agent),
  )

Above-update :
    (a : String) (f : DelegationState → DelegationState) (rows : Delegations) {b d : String}
    → Keeps f
    → Above rows b d
    → Above (update a f rows) b d
Above-update a f rows k self = self
Above-update a f rows k (up {d = d} r e parent s) =
    let there = find-update a f d rows k in
    elim (Bool-cases (same_text a d)) [
      | inl hit ↦ up (f r) (ground (arith, there)) ((k r).1 ∙ parent) (Above-update a f rows k s)
      | inr miss ↦ up r (ground (arith, there)) parent (Above-update a f rows k s)
    ]

found_marked :
    (now : ℕ) (a : String) (r : DelegationState) (rows : Delegations)
    → find a rows ≡ some r
    → find a (update a (start_revocation now) rows) ≡ some (start_revocation now r)
found_marked now a r rows e =
    rw (
      find-update a (start_revocation now) a rows (λ _. (refl, refl)),
      e,
      (same_text_iff a a).1 refl,
    )

-- The two ways in which `mark_revocation_started` answers `True`.
marked_rows :
    (now : ℕ) (a : String) (st : Ledger)
    → (mark_revocation_started now a st).0 ≡ ok true
    → (r : DelegationState) × (find a st.delegations ≡ some r)
      × (((mark_revocation_started now a st).1 ≡ st) × (is_some r.revocation_started_at ≡ true)
          ⊎ ((mark_revocation_started now a st).1
              ≡ record st { delegations = update a (start_revocation now) st.delegations }))
unfolding mark_revocation_started
marked_rows now a st answer = elim (Option-cases (find a st.delegations)) [
  | inl missing ↦ absurd (ground arith)
  | inr (r, there) ↦ (r, there, ground arith)
]

-- In the ledger that `mark_revocation_started` leaves when it answers `True`, a grant to, a consumption
-- by and a reservation under the delegation or any below it change nothing.
pub revocation_stops :
    (now : ℕ) (a d : String) (st : Ledger)
    → (mark_revocation_started now a st).0 ≡ ok true
    → Above st.delegations a d
    → (later : ℕ) (event_id child agent : String) (x : Amount) (spent : Option Amount)
    → let st' = (mark_revocation_started now a st).1 in
      ((grant later event_id d x st').1 ≡ st')
      × ((consume later event_id d spent st').1 ≡ st')
      × ((reserve later event_id d child agent x st').1 ≡ st')
revocation_stops now a d st answer below later event_id child agent x spent =
    let (r, there, how) = marked_rows now a st answer in
    elim how [
      | inl (same, marked) ↦
          rw same (revoked_is_frozen st (r, there, marked) below later event_id child agent x spent)
      | inr written ↦ rw written (
          revoked_is_frozen
            (record st { delegations = update a (start_revocation now) st.delegations })
            (start_revocation now r, found_marked now a r st.delegations there, refl)
            (Above-update a (start_revocation now) st.delegations (λ _. (refl, refl)) below) later
            event_id child agent x spent)
    ]
