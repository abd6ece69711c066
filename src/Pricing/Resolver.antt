-- ===== src/Pricing/Resolver.antt =====
-- Which price applies to a provider and a model: src/inferrail/pricing/resolver.py. The two built-in
-- catalogs, tables of vendor prices loaded once at import, are an argument.
use Prim.Native.String.{◌++◌}
use inferrail.Common.{
  [], ◌∷◌, String, Bool, true, false, Option, none, some, if◌then◌else◌, remove_prefix, is_some,
}
use inferrail.Common.Dict.{Dict, lookup, put}
use inferrail.Pricing.Price.{PriceEntry}

pub data ProviderType : Type 0 where
  openai : ProviderType
  openai_compatible : ProviderType
  anthropic : ProviderType
  anthropic_compatible : ProviderType

-- `Literal["openai", "anthropic"]`
pub data Vendor : Type 0 where
  openai_vendor : Vendor
  anthropic_vendor : Vendor

pub record ProviderConfig : Type 0 where
  pub kind : ProviderType
  pub api_key_env : String
  pub base_url : Option String
  pub price_as : Option Vendor
  pub request_stream_usage : Bool

unfoldable pub is_compatible : ProviderType → Bool
is_compatible openai_compatible = true
is_compatible anthropic_compatible = true
is_compatible _ = false

-- `_price_as_only_for_compatible`
unfoldable pub provider_is_valid : ProviderConfig → Bool
unfolding is_compatible
provider_is_valid c = if is_some c.price_as then is_compatible c.kind else true

pub record Catalogs : Type 0 where
  pub openai_prices : Dict PriceEntry
  pub anthropic_prices : Dict PriceEntry

-- `{**builtin, **snapshot}`
unfoldable pub overlay : Dict PriceEntry → Dict PriceEntry → Dict PriceEntry
overlay builtin [] = builtin
overlay builtin ((model, price) ∷ snapshot) = overlay (put model price builtin) snapshot

-- `_BUILTIN_CATALOGS.get(type)`
unfoldable pub catalog_of : Catalogs → ProviderType → Option (Dict PriceEntry)
catalog_of cs openai = some cs.openai_prices
catalog_of cs anthropic = some cs.anthropic_prices
catalog_of cs _ = none

abbrev pub vendor_catalog : Catalogs → Vendor → Dict PriceEntry
vendor_catalog cs openai_vendor = cs.openai_prices
vendor_catalog cs anthropic_vendor = cs.anthropic_prices

abbrev pub vendor_name : Vendor → String
vendor_name openai_vendor = "openai"
vendor_name anthropic_vendor = "anthropic"

pub record PricingResolver : Type 0 where
  pub providers : Dict ProviderConfig
  pub overrides : Dict (Dict PriceEntry)

unfoldable pub lookup_override : Dict (Dict PriceEntry) → String → String → Option PriceEntry
unfolding lookup
lookup_override overrides provider_name model = elim (lookup provider_name overrides) [
  | none ↦ none
  | some prices ↦ lookup model prices
]

-- A catalog price that the operator asserts for a compatible upstream says so in its source.
abbrev pub assert_source : String → Vendor → PriceEntry → PriceEntry
assert_source provider_name vendor entry = record entry {
  source =
      entry.source
      ++ " (price_as="
      ++ vendor_name vendor
      ++ " on provider '"
      ++ provider_name
      ++ "', operator-asserted)";
}

unfoldable pub model_for_vendor : Vendor → String → String
unfolding remove_prefix
model_for_vendor vendor model =
    remove_prefix (vendor_name vendor ++ ":") (remove_prefix (vendor_name vendor ++ "/") model)

abbrev pub asserted? : String → Vendor → Option PriceEntry → Option PriceEntry
asserted? provider_name vendor none = none
asserted? provider_name vendor (some entry) = some (assert_source provider_name vendor entry)

unfoldable pub resolve_asserted : Catalogs → String → String → Option Vendor → Option PriceEntry
unfolding lookup model_for_vendor
resolve_asserted cs provider_name model none = none
resolve_asserted cs provider_name model (some vendor) =
    asserted? provider_name vendor
      (lookup (model_for_vendor vendor model) (vendor_catalog cs vendor))

-- the vendor's own catalog decides alone where it applies
unfoldable pub in_catalog :
    Option (Dict PriceEntry) → String → Option PriceEntry → Option PriceEntry
unfolding lookup
in_catalog none model otherwise = otherwise
in_catalog (some catalog) model otherwise = lookup model catalog

unfoldable pub resolve_configured : Catalogs → String → String → ProviderConfig → Option PriceEntry
unfolding resolve_asserted catalog_of in_catalog
resolve_configured cs provider_name model c =
    let otherwise = resolve_asserted cs provider_name model c.price_as in
    if is_some c.base_url then otherwise else in_catalog (catalog_of cs c.kind) model otherwise

unfoldable pub or_configured :
    Catalogs → String → String → Option ProviderConfig → Option PriceEntry → Option PriceEntry
unfolding resolve_configured
or_configured cs provider_name model c (some override) = some override
or_configured cs provider_name model none none = none
or_configured cs provider_name model (some c) none = resolve_configured cs provider_name model c

unfoldable pub resolve : Catalogs → PricingResolver → String → String → Option PriceEntry
unfolding lookup lookup_override or_configured
resolve cs r provider_name model =
    or_configured cs provider_name model (lookup provider_name r.providers)
      (lookup_override r.overrides provider_name model)
