-- ===== src/WorkEconomics/Breakdown.antt =====
-- The breakdowns of a result add up: compute_work_economics of hosted/work_economics/capability.py.
use inferrail.Common.{
  ℕ, ◌+◌, ◌≡◌, refl, ap, Bool, String, List, [], ◌∷◌, Option, none, some, if◌then◌else◌, length,
  is_some, any, ◌||◌, Option-cases, arith, ◌==◌,
}
use inferrail.Common.Dict.{Dict, lookup, put}
use inferrail.Common.Json.{Json}
use inferrail.Common.Sorting.{sum_of}
use inferrail.WorkEconomics.Capability.{
  EconomicEvent, Tally, no_tally, or_nothing, add_at, tally_cost, tally_event, tally_all, result_of,
  basis_value,
}

-- the values of a breakdown together
abbrev pub spread : Dict ℕ → ℕ
spread [] = 0
spread ((k, n) ∷ d) = n + spread d

spread-add_at : (k : String) (n : ℕ) (d : Dict ℕ) → spread (add_at k n d) ≡ spread d + n
unfolding add_at lookup put
spread-add_at k n [] = omega arith
spread-add_at k n ((j, m) ∷ d) = ground (arith, spread-add_at k n d)

abbrev pub cost_known : EconomicEvent → ℕ
cost_known v = or_nothing v.known_cost_usd

abbrev pub cost_missing : EconomicEvent → ℕ
cost_missing v = if is_some v.known_cost_usd then 0 else 1

-- What the loop has added to a tally.
abbrev Added : Tally → List EconomicEvent → Tally → Type 0
Added t vs u =
    (u.known_total ≡ t.known_total + sum_of cost_known vs)
    × (spread u.by_resource ≡ spread t.by_resource + sum_of cost_known vs)
    × (spread u.by_supplier ≡ spread t.by_supplier + sum_of cost_known vs)
    × (spread u.provenance ≡ spread t.provenance + length vs)
    × (u.unknown_count ≡ t.unknown_count + sum_of cost_missing vs)

cost_added :
    (v : EconomicEvent) (t : Tally) (o : Option ℕ)
    → let u = tally_cost v t o in
      (u.known_total ≡ t.known_total + or_nothing o)
      × (spread u.by_resource ≡ spread t.by_resource + or_nothing o)
      × (spread u.by_supplier ≡ spread t.by_supplier + or_nothing o)
      × (u.provenance ≡ t.provenance)
      × (u.unknown_count ≡ t.unknown_count + (if is_some o then 0 else 1))
unfolding tally_cost
cost_added v t none = ground arith
cost_added v t (some cost) = (
  refl,
  spread-add_at v.resource_class cost t.by_resource,
  spread-add_at v.supplier cost t.by_supplier,
  refl,
  omega arith,
)

all-Added : (t : Tally) (vs : List EconomicEvent) → Added t vs (tally_all t vs)
unfolding tally_all tally_event sum_of
all-Added t [] = ground arith
all-Added t (v ∷ vs) =
    let p = add_at (basis_value v.price_basis) 1 t.provenance in
    let (total, resource, supplier, basis, missing) =
      cost_added v (record t { provenance = p }) v.known_cost_usd in
    let rest = all-Added (tally_event t v) vs in
    (
      omega (arith, total, rest.0),
      omega (arith, resource, rest.1),
      omega (arith, supplier, rest.2),
      omega (
        arith,
        ap spread basis,
        spread-add_at (basis_value v.price_basis) 1 t.provenance,
        rest.3,
      ),
      omega (arith, missing, rest.4),
    )

abbrev pub is_known : EconomicEvent → Bool
is_known v = is_some v.known_cost_usd

any_known :
    (t : Tally) (vs : List EconomicEvent)
    → (tally_all t vs).have_any_known ≡ (t.have_any_known || any is_known vs)
unfolding tally_all tally_event tally_cost
any_known t [] = ground arith
any_known t (v ∷ vs) = ground (arith, any_known (tally_event t v) vs, Option-cases v.known_cost_usd)

-- A result adds up: the breakdowns by resource class and by supplier each add up to the known
-- total, which is the sum of the known costs, or absent if none is known; the provenance counts each
-- event once; the unknown count is that of the events without a cost, and the total is exact just
-- when there is none.
pub result_adds_up :
    (work_id : String) (vs : List EconomicEvent) (outcome : Json)
    → let r = result_of work_id vs outcome in
      (r.known_total_cost_usd ≡ (if any is_known vs then some (sum_of cost_known vs) else none))
      × (spread r.breakdown_by_resource_class ≡ sum_of cost_known vs)
      × (spread r.breakdown_by_supplier ≡ sum_of cost_known vs)
      × (spread r.price_provenance ≡ length vs)
      × (r.unknown_event_count ≡ sum_of cost_missing vs)
      × (r.exact_total_known ≡ (sum_of cost_missing vs == 0))
unfolding result_of
result_adds_up work_id vs outcome =
    let (total, resource, supplier, basis, missing) = all-Added no_tally vs in
    let total' : (tally_all no_tally vs).known_total ≡ sum_of cost_known vs =
      omega (arith, total) in
    let missing' : (tally_all no_tally vs).unknown_count ≡ sum_of cost_missing vs =
      omega (arith, missing) in
    (
      rw (any_known no_tally vs, total') refl,
      omega (arith, resource),
      omega (arith, supplier),
      omega (arith, basis),
      missing',
      rw missing' refl,
    )
