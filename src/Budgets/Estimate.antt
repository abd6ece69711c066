-- ===== src/Budgets/Estimate.antt =====
-- The estimate of a request's cost before it is sent: src/inferrail/budgets/enforcement.py.
use inferrail.Common.{
  ℕ, ◌+◌, ◌-◌, ◌*◌, ◌/◌, String, Bool, false, Option, none, some, if◌then◌else◌, same_text,
  count_chars,
}
use inferrail.Common.Json.{Json, Items, Fields, get_field}
use inferrail.Pricing.Price.{PriceEntry, for_input_tokens}
use inferrail.Pricing.Cost.{flat_cost, quantize}
use inferrail.Pricing.Resolver.{Catalogs, PricingResolver, resolve}

abbrev pub chars_per_token : ℕ
chars_per_token = 3

abbrev pub default_max_completion_tokens : ℕ
default_max_completion_tokens = 4096

abbrev pub image_token_estimate : ℕ
image_token_estimate = 3000

unfoldable mutual
  unfolding count_chars

  pub approx_char_count : Json → ℕ
  approx_char_count (Json.text s) = count_chars s
  approx_char_count (Json.object fields) = approx_field_chars fields
  approx_char_count (Json.array items) = approx_item_chars items
  approx_char_count _ = 0

  pub approx_item_chars : Items → ℕ
  approx_item_chars Items.no_items = 0
  approx_item_chars (Items.item x xs) = approx_char_count x + approx_item_chars xs

  pub approx_field_chars : Fields → ℕ
  approx_field_chars Fields.no_fields = 0
  approx_field_chars (Fields.field k v rest) = approx_char_count v + approx_field_chars rest

-- `part.get("type") == "image_url"`
abbrev pub is_image_type : Option Json → Bool
is_image_type (some (Json.text kind)) = same_text kind "image_url"
is_image_type _ = false

unfoldable pub part_chars : Json → ℕ
unfolding get_field same_text approx_char_count
part_chars (Json.object fields) =
    if is_image_type (get_field "type" fields)
    then image_token_estimate * chars_per_token
    else approx_char_count (Json.object fields)
part_chars part = approx_char_count part

unfoldable pub parts_chars : Items → ℕ
unfolding part_chars
parts_chars Items.no_items = 0
parts_chars (Items.item x xs) = part_chars x + parts_chars xs

-- A missing `content` is None, which counts nothing.
unfoldable pub content_chars : Option Json → ℕ
unfolding parts_chars
content_chars none = 0
content_chars (some (Json.array items)) = parts_chars items
content_chars (some content) = approx_char_count content

-- the fields other than `content`
unfoldable pub without_content : Fields → Fields
unfolding same_text
without_content Fields.no_fields = Fields.no_fields
without_content (Fields.field k v rest) =
    let others = without_content rest in
    if same_text k "content" then others else Fields.field k v others

unfoldable pub message_chars : Fields → ℕ
unfolding without_content content_chars get_field approx_field_chars
message_chars message =
    approx_field_chars (without_content message) + content_chars (get_field "content" message)

-- ceiling division
unfoldable pub prompt_token_estimate : ℕ → ℕ
prompt_token_estimate prompt_chars = (prompt_chars + (chars_per_token - 1)) / chars_per_token

unfoldable pub estimate_at : ℕ → ℕ → Option PriceEntry → Option ℕ
unfolding prompt_token_estimate
estimate_at prompt_chars max_completion_tokens none = none
estimate_at prompt_chars max_completion_tokens (some price) =
    let tokens = prompt_token_estimate prompt_chars in
    some (quantize (flat_cost tokens max_completion_tokens (for_input_tokens price tokens)))

unfoldable pub estimate_upper_bound_usd :
    Catalogs → PricingResolver → String → String → ℕ → ℕ → Option ℕ
unfolding estimate_at
estimate_upper_bound_usd catalogs resolver provider model prompt_chars max_completion_tokens =
    estimate_at prompt_chars max_completion_tokens (resolve catalogs resolver provider model)
