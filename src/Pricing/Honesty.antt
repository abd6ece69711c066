-- ===== src/Pricing/Honesty.antt =====
-- Where a price comes from when the operator gave no override.
use inferrail.Common.{
  String, true, false, Option, none, some, ◌≡◌, refl, sym, of_some, ◌⊎◌, inl, inr, if◌then◌else◌,
  is_some, arith,
}
use inferrail.Common.Dict.{Dict, lookup}
use inferrail.Pricing.Price.{PriceEntry}
use inferrail.Pricing.Resolver.{
  ProviderType, openai, openai_compatible, anthropic, anthropic_compatible, Vendor, ProviderConfig,
  is_compatible, provider_is_valid, Catalogs, catalog_of, vendor_catalog, PricingResolver,
  lookup_override, assert_source, model_for_vendor, asserted?, resolve_asserted, in_catalog,
  resolve_configured, or_configured, resolve,
}

-- the vendor's own endpoint: its catalog's entry, unchanged
abbrev pub IsVendorPrice : Catalogs → ProviderConfig → String → PriceEntry → Type 0
IsVendorPrice cs c model price =
    (c.base_url ≡ none)
    × (is_compatible c.kind ≡ false)
    × (catalog : Dict PriceEntry) × (catalog_of cs c.kind ≡ some catalog)
    × (lookup model catalog ≡ some price)

-- an entry that the operator asserted for a compatible endpoint, marked as such
abbrev pub IsAssertedPrice : Catalogs → String → ProviderConfig → String → PriceEntry → Type 0
IsAssertedPrice cs provider_name c model price =
    (is_compatible c.kind ≡ true)
    × (vendor : Vendor) × (entry : PriceEntry) × (c.price_as ≡ some vendor)
    × (lookup (model_for_vendor vendor model) (vendor_catalog cs vendor) ≡ some entry)
    × (price ≡ assert_source provider_name vendor entry)

asserted?-some :
    (name : String) (vendor : Vendor) (o : Option PriceEntry) (price : PriceEntry)
    → asserted? name vendor o ≡ some price
    → (entry : PriceEntry) × (o ≡ some entry) × (price ≡ assert_source name vendor entry)
asserted?-some name vendor none price h = absurd (ground (arith, h))
asserted?-some name vendor (some entry) price h =
    (entry, refl, sym (of_some (assert_source name vendor entry) price h))

price_of_assertion :
    (cs : Catalogs) (name model : String) (c : ProviderConfig) (o : Option Vendor)
    (price : PriceEntry)
    → provider_is_valid c ≡ true
    → c.price_as ≡ o
    → resolve_asserted cs name model o ≡ some price
    → IsAssertedPrice cs name c model price
unfolding resolve_asserted provider_is_valid
price_of_assertion cs name model c none price valid o h = absurd (ground (arith, h))
price_of_assertion cs name model c (some vendor) price valid o h =
    let (entry, found, marked) =
      asserted?-some name vendor (lookup (model_for_vendor vendor model) (vendor_catalog cs vendor))
        price h in
    let compatible : is_compatible c.kind ≡ true = ground (arith, valid, o) in
    (compatible, vendor, entry, o, found, marked)

catalog_is_vendor :
    (cs : Catalogs) (kind : ProviderType) (catalog : Dict PriceEntry)
    → catalog_of cs kind ≡ some catalog
    → is_compatible kind ≡ false
unfolding catalog_of is_compatible
catalog_is_vendor cs openai catalog h = refl
catalog_is_vendor cs openai_compatible catalog h = absurd (ground (arith, h))
catalog_is_vendor cs anthropic catalog h = refl
catalog_is_vendor cs anthropic_compatible catalog h = absurd (ground (arith, h))

price_of_endpoint :
    (cs : Catalogs) (name model : String) (c : ProviderConfig) (base : Option String)
    (catalog : Option (Dict PriceEntry)) (price : PriceEntry)
    → provider_is_valid c ≡ true
    → c.base_url ≡ base
    → catalog_of cs c.kind ≡ catalog
    → (if is_some base
        then resolve_asserted cs name model c.price_as
        else in_catalog catalog model (resolve_asserted cs name model c.price_as))
      ≡ some price
    → IsVendorPrice cs c model price ⊎ IsAssertedPrice cs name c model price
unfolding in_catalog
price_of_endpoint cs name model c (some url) catalog price valid b k h =
    inr (price_of_assertion cs name model c c.price_as price valid refl h)
price_of_endpoint cs name model c none none price valid b k h =
    inr (price_of_assertion cs name model c c.price_as price valid refl h)
price_of_endpoint cs name model c none (some catalog) price valid b k h =
    inl (b, catalog_is_vendor cs c.kind catalog k, catalog, k, h)

-- A price that is no operator override is the built-in catalog's own entry for the vendor's own
-- endpoint (a vendor type, no base_url), or an entry that the operator asserted by price_as for a
-- compatible endpoint and that says so in its source.
pub resolve_is_honest :
    (cs : Catalogs) (r : PricingResolver) (name model : String) (c : ProviderConfig)
    (price : PriceEntry)
    → lookup_override r.overrides name model ≡ none
    → lookup name r.providers ≡ some c
    → provider_is_valid c ≡ true
    → resolve cs r name model ≡ some price
    → IsVendorPrice cs c model price ⊎ IsAssertedPrice cs name c model price
unfolding resolve resolve_configured or_configured
resolve_is_honest cs r name model c price no_override found valid h =
    price_of_endpoint cs name model c c.base_url (catalog_of cs c.kind) price valid refl refl
      (ground (arith, h, no_override, found))
