-- ===== src/Common/Dict.antt =====
-- Python's `dict` with `str` keys, as an association list in insertion order.
use inferrail.Common.{
  String, ◌≡◌, Option, none, some, List, [], ◌∷◌, if◌then◌else◌, same_text, same_text_iff, arith,
}

abbrev pub Dict {ℓ} : Type ℓ → Type ℓ
Dict V = List (String × V)

-- the attributes of a request or a receipt
abbrev pub Attributes : Type 0
Attributes = Dict String

module _ {ℓ} {V : Type ℓ} where
  -- `d.get(k)`
  unfoldable pub lookup : String → Dict V → Option V
  lookup k [] = none
  lookup k ((j, v) ∷ d) = if same_text j k then some v else lookup k d

  -- `{**d, k: v}`
  unfoldable pub put : String → V → Dict V → Dict V
  put k v [] = (k, v) ∷ []
  put k v ((j, w) ∷ d) = if same_text j k then (j, v) ∷ d else (j, w) ∷ put k v d

  pub lookup-put :
      (k j : String) (v : V) (d : Dict V)
      → lookup j (put k v d) ≡ (if same_text k j then some v else lookup j d)
  unfolding lookup put
  lookup-put k j v [] = ground arith
  lookup-put k j v ((i, w) ∷ d) =
      ground (arith, same_text_iff k j, same_text_iff i k, same_text_iff i j, lookup-put k j v d)
