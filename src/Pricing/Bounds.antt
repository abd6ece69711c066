-- ===== src/Pricing/Bounds.antt =====
-- Rounding keeps the order of costs, and cache rates that are no higher than the input rate never
-- make a request dearer.
use inferrail.Common.{
  ℕ, zero, suc, ◌+◌, ◌-◌, ◌*◌, ◌/◌, ◌≤◌, ◌≡◌, refl, sym, inl, inr, true, false, Option, none, some,
  arith, ltb, Bool-cases, ◌==◌,
}
use inferrail.Common.Products.{mul_mono_r, mul_distrib}
use inferrail.Pricing.Price.{PriceEntry, for_input_tokens}
use inferrail.Pricing.Cost.{
  quantum, quantize, flat_cost, calculate_cost_usd, CacheTokens, cache_total, creation_split_known,
  split_sums_to, or_zero, charge, add?, charge_creation, quantize?, cost_of_cached,
  calculate_cost_with_cache_usd,
}

pub quantize_mono : (x y : ℕ) → x ≤ y → quantize x ≤ quantize y
unfolding quantize
quantize_mono x y h = omega arith

-- rounding moves a cost by at most half a quantum
pub quantize_near : (x : ℕ) → (quantize x ≤ x + quantum / 2) × (x ≤ quantize x + quantum / 2)
unfolding quantize
quantize_near x = (omega arith, omega arith)

abbrev pub RateAtMost : Option ℕ → ℕ → Type 0
RateAtMost none bound = Unit
RateAtMost (some rate) bound = rate ≤ bound

abbrev pub HasCheapCache : PriceEntry → Type 0
HasCheapCache p =
    RateAtMost p.cache_write_5m_usd_per_million p.input_usd_per_million
    × RateAtMost p.cache_write_1h_usd_per_million p.input_usd_per_million
    × RateAtMost p.cache_read_usd_per_million p.input_usd_per_million

charge_le :
    (n : ℕ) (rate : Option ℕ) (bound x : ℕ)
    → RateAtMost rate bound
    → charge n rate ≡ some x
    → x ≤ n * bound
unfolding charge
charge_le zero rate bound x h e = ground arith
charge_le (suc n) none bound x h e = absurd (ground arith)
charge_le (suc n) (some rate) bound x h e = ground (arith, mul_mono_r (suc n) rate bound h)

add?-some :
    (a b : Option ℕ) (x : ℕ)
    → add? a b ≡ some x
    → (y : ℕ) × (z : ℕ) × (a ≡ some y) × (b ≡ some z) × (y + z ≡ x)
add?-some none b x e = absurd (ground arith)
add?-some (some a) none x e = absurd (ground arith)
add?-some (some a) (some b) x e = (a, b, refl, refl, ground arith)

split_sum : (n : ℕ) (a b : Option ℕ) → split_sums_to n a b ≡ true → or_zero a + or_zero b ≡ n
split_sum n none b e = absurd (ground arith)
split_sum n (some a) none e = absurd (ground arith)
split_sum n (some a) (some b) e = ground arith

split_known_sum :
    (c : CacheTokens)
    → (c.creation == 0) ≡ false
    → creation_split_known c ≡ true
    → or_zero c.creation_5m + or_zero c.creation_1h ≡ c.creation
unfolding creation_split_known
split_known_sum c e k = split_sum c.creation c.creation_5m c.creation_1h (ground (arith, k))

charge_both_le :
    (a b n : ℕ) (p : PriceEntry) (x : ℕ)
    → HasCheapCache p
    → a + b ≡ n
    → add? (charge a p.cache_write_5m_usd_per_million) (charge b p.cache_write_1h_usd_per_million)
      ≡ some x
    → x ≤ n * p.input_usd_per_million
charge_both_le a b n p x h s e =
    let (y, z, ey, ez, sum) =
      add?-some (charge a p.cache_write_5m_usd_per_million)
        (charge b p.cache_write_1h_usd_per_million) x e in
    rw (sym s) (
      omega (
        arith,
        sum,
        mul_distrib a b p.input_usd_per_million,
        charge_le a p.cache_write_5m_usd_per_million p.input_usd_per_million y h.0 ey,
        charge_le b p.cache_write_1h_usd_per_million p.input_usd_per_million z h.1 ez,
      ))

charge_creation_le :
    (c : CacheTokens) (p : PriceEntry) (x : ℕ)
    → HasCheapCache p
    → charge_creation c p ≡ some x
    → x ≤ c.creation * p.input_usd_per_million
unfolding charge_creation
charge_creation_le c p x h e = elim (Bool-cases (c.creation == 0)) [
  | inl none_created ↦ ground (arith, e)
  | inr some_created ↦ elim (Bool-cases (creation_split_known c)) [
    | inl known ↦
        charge_both_le (or_zero c.creation_5m) (or_zero c.creation_1h) c.creation p x h
          (split_known_sum c some_created known) (ground (arith, e, known, some_created))
    | inr unknown ↦ absurd (ground (arith, e, unknown, some_created))
  ]
]

quantize?-some :
    (o : Option ℕ) (x : ℕ) → quantize? o ≡ some x → (y : ℕ) × (o ≡ some y) × (quantize y ≡ x)
unfolding quantize?
quantize?-some none x e = absurd (ground arith)
quantize?-some (some y) x e = (y, refl, ground (arith, e))

-- the cached part and the rest, each at most its tokens at the input rate
parts_le :
    (prompt rest creation read rate extra y z : ℕ)
    → prompt ≡ rest + creation + read
    → y ≤ read * rate
    → z ≤ creation * rate
    → rest * rate + extra + (y + z) ≤ prompt * rate + extra
parts_le prompt rest creation read rate extra y z whole hy hz =
    rw whole (
      omega
        (arith, hy, hz, mul_distrib (rest + creation) read rate, mul_distrib rest creation rate))

add_parts_le :
    (prompt completion : ℕ) (p : PriceEntry) (c : CacheTokens) (x : ℕ)
    → HasCheapCache p
    → cache_total c ≤ prompt
    → add?
        (some (flat_cost (prompt - cache_total c) completion p))
        (add? (charge c.read p.cache_read_usd_per_million) (charge_creation c p))
      ≡ some x
    → x ≤ flat_cost prompt completion p
add_parts_le prompt completion p c x h t e =
    let cached = add? (charge c.read p.cache_read_usd_per_million) (charge_creation c p) in
    let plain = flat_cost (prompt - cache_total c) completion p in
    let (a, b, ea, eb, sum) = add?-some (some plain) cached x e in
    let (y, z, ey, ez, both) =
      add?-some (charge c.read p.cache_read_usd_per_million) (charge_creation c p) b eb in
    let same : plain ≡ a = ground (arith, ea) in
    omega (
      arith,
      same,
      sum,
      both,
      parts_le prompt (prompt - cache_total c) c.creation c.read p.input_usd_per_million
          (completion * p.output_usd_per_million) y z (omega arith)
          (charge_le c.read p.cache_read_usd_per_million p.input_usd_per_million y h.2 ey)
          (charge_creation_le c p z h ez),
    )

-- At flat rates, pricing the cached tokens apart costs no more than pricing all at the input rate.
cost_of_cached_le :
    (prompt completion : ℕ) (p : PriceEntry) (c : CacheTokens) (x : ℕ)
    → HasCheapCache p
    → cost_of_cached prompt completion p c ≡ some x
    → x ≤ quantize (flat_cost prompt completion p)
unfolding cost_of_cached
cost_of_cached_le prompt completion p c x h e = elim (Bool-cases (ltb prompt (cache_total c))) [
  | inl over ↦ absurd (ground (arith, e))
  | inr within ↦
      let (y, raw, rounded) =
        quantize?-some
          (add? (some (flat_cost (prompt - cache_total c) completion p))
            (add? (charge c.read p.cache_read_usd_per_million) (charge_creation c p)))
          x (ground (arith, e, within)) in
      rw (sym rounded) (
        quantize_mono y (flat_cost prompt completion p)
          (add_parts_le prompt completion p c y h (ground (arith, within)) raw))
]

pub cost_le :
    (prompt completion : ℕ) (p : PriceEntry) (cache : Option CacheTokens) (x : ℕ)
    → HasCheapCache (for_input_tokens p prompt)
    → calculate_cost_with_cache_usd prompt completion p cache ≡ some x
    → x ≤ calculate_cost_usd prompt completion p
unfolding calculate_cost_with_cache_usd calculate_cost_usd
cost_le prompt completion p none x h e = ground (arith, e)
cost_le prompt completion p (some c) x h e = elim (Bool-cases (cache_total c == 0)) [
  | inl nothing ↦ ground (arith, e, nothing)
  | inr cached ↦
      cost_of_cached_le prompt completion (for_input_tokens p prompt) c x h
        (ground (arith, e, cached))
]
