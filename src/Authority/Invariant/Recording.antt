-- ===== src/Authority/Invariant/Recording.antt =====
-- Branches that keep the ledger, and the branch that records an event.
use inferrail.Common.{ℕ, ◌≡◌, refl, String, Bool, true, false, Option, if◌then◌else◌}
use inferrail.Common.Int.{ℤ, pos, ◌+ℤ◌, int_laws}
use inferrail.Common.Sums.{total}
use inferrail.Authority.State.{Payload, Delegations, Ledger}
use inferrail.Authority.Events.{Result, ok, err, conclude, record_event}
use inferrail.Authority.Invariant.{counted_spend, spend_of, TableConserving, IsConserving}

pub if-cases {ℓ} :
    {A : Type 0} (P : Ledger → Type ℓ) (b : Bool) (u w : A × Ledger)
    → (b ≡ true → P u.1)
    → (b ≡ false → P w.1)
    → P (if b then u else w).1
if-cases P true u w hu hw = hu refl
if-cases P false u w hu hw = hw refl

module _ (now : ℕ) (event_id d status : String) (payload : Payload) (amount : Option ℤ)
    (rows : Delegations) (st : Ledger) (v : IsConserving st) (t : TableConserving rows)
    (spent : total counted_spend rows
      ≡ total counted_spend st.delegations +ℤ spend_of payload) where
  -- An event is recorded beside the statement that spends its amount.
  pub record_event-IsConserving :
      IsConserving (record_event now event_id d payload amount status rows st)
  unfolding record_event total
  record_event-IsConserving = record { table = t; audited = rw (spent, v.audited) (omega int_laws) }

  -- A new delegation spends nothing, so the ledger balances whether or not its event is recorded.
  pub conclude-IsConserving :
      {A : Type 0} (r : Result Bool) (answer : A)
      → spend_of payload ≡ pos 0
      → IsConserving
          (conclude r answer
            (record_event now event_id d payload amount status rows st)
            (record st { delegations = rows })
            st).1
  unfolding conclude
  conclude-IsConserving (err e) answer z = v
  conclude-IsConserving (ok false) answer z = record_event-IsConserving
  conclude-IsConserving (ok true) answer z = record {
    table = t;
    audited = rw (spent, z, v.audited) (omega int_laws);
  }
