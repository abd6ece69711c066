-- ===== src/Gateway/Counts.antt =====
-- Token counts as a stream or a provider gives them: the raw values that the bookkeepers of
-- src/inferrail/gateway/execution.py and anthropic_execution.py keep.
use inferrail.Common.{ℕ, true, false, ◌≡◌, refl, Option, none, some, is_some}
use inferrail.Common.Int.{ℤ, pos}
use inferrail.Common.Json.{Json, null, boolean, integer}
use inferrail.Receipts.Schema.{InferenceReceipt, Status}
use inferrail.Pricing.Cost.{CacheTokens}
use inferrail.Gateway.Admission.{Stores}

-- `missing` is None, `whole` an int that is not negative, and `odd` any other value, kept as it is.
pub data Count : Type 0 where
  missing : Count
  whole : ℕ → Count
  odd : Json → Count

-- Python's True and False are the ints 1 and 0.
unfoldable pub count_of : Option Json → Count
count_of none = missing
count_of (some null) = missing
count_of (some (integer (pos n))) = whole n
count_of (some (boolean true)) = whole 1
count_of (some (boolean false)) = whole 0
count_of (some v) = odd v

unfoldable pub count_of_int : Option ℤ → Count
unfolding count_of
count_of_int none = missing
count_of_int (some z) = count_of (some (integer z))

-- the two counts, if neither is odd
unfoldable pub whole_counts : Count → Count → Option (Option ℕ × Option ℕ)
whole_counts missing missing = some (none, none)
whole_counts missing (whole m) = some (none, some m)
whole_counts (whole n) missing = some (some n, none)
whole_counts (whole n) (whole m) = some (some n, some m)
whole_counts _ _ = none

-- What the event, the overrun and the receipt make of two counts of which one is odd, given the attempt,
-- its status, the cache tokens and the stores: pydantic takes a negative int, a float without a
-- fraction and the text of an int, and raises a ValidationError for others, and the pricing may raise
-- too. `none` is such an exception.
abbrev pub OddReceipt : Type 0
OddReceipt = ℕ → Status → Count → Count → Option CacheTokens → Stores → Option InferenceReceipt

abbrev pub receipt_or :
    Option (Option ℕ × Option ℕ)
    → (Option ℕ → Option ℕ → InferenceReceipt)
    → Option InferenceReceipt
    → Option InferenceReceipt
receipt_or (some (p, c)) of_whole of_odd = some (of_whole p c)
receipt_or none of_whole of_odd = of_odd

-- Odd counts, if there are any, are taken.
abbrev pub IsTaken : OddReceipt → Count → Count → Type 0
IsTaken odd_receipt p c =
    whole_counts p c ≡ none
    → (n : ℕ) (status : Status) (cache : Option CacheTokens) (g : Stores)
    → is_some (odd_receipt n status p c cache g) ≡ true

pub receipt_or_there :
    (o : Option (Option ℕ × Option ℕ)) (of_whole : Option ℕ → Option ℕ → InferenceReceipt)
    (of_odd : Option InferenceReceipt)
    → (o ≡ none → is_some of_odd ≡ true)
    → is_some (receipt_or o of_whole of_odd) ≡ true
receipt_or_there (some (p, c)) of_whole of_odd h = refl
receipt_or_there none of_whole of_odd h = h refl
