-- ===== src/Budgets/Schema.antt =====
-- The budget entity: src/inferrail/budgets/schema.py. Limits are in units of 10⁻¹² dollars.
use Prim.Native.String.{◌++◌}
use inferrail.Common.{
  ℕ, String, Bool, true, false, not, ◌&&◌, Option, none, some, if◌then◌else◌, ltb, is_some,
  same_text, non_empty,
}

pub data Scope : Type 0 where
  global : Scope
  project : Scope
  work : Scope

pub data Window : Type 0 where
  per_work : Window
  daily : Window
  monthly : Window

pub data Mode : Type 0 where
  warn : Mode
  block : Mode

pub record Budget : Type 0 where
  pub budget_id : String
  pub scope : Scope
  pub scope_value : Option String
  pub window : Window
  pub mode : Mode
  pub limit_usd : ℕ
  pub created_at : ℕ

abbrev pub scope_name : Scope → String
scope_name global = "global"
scope_name project = "project"
scope_name work = "work_id"

abbrev pub window_name : Window → String
window_name per_work = "per_work"
window_name daily = "daily"
window_name monthly = "monthly"

-- the truth value of a `str | None`
unfoldable pub is_truthy : Option String → Bool
unfolding non_empty
is_truthy none = false
is_truthy (some s) = non_empty s

abbrev pub value_part : Option String → String
value_part none = "_"
value_part (some String.[]) = "_"
value_part (some (String.◌∷◌ c s)) = String.◌∷◌ c s

unfoldable pub new_budget_id : Scope → Option String → Window → String
new_budget_id scope value window =
    scope_name scope ++ ":" ++ value_part value ++ ":" ++ window_name window

abbrev pub is_global : Scope → Bool
is_global global = true
is_global _ = false

abbrev pub is_work : Scope → Bool
is_work work = true
is_work _ = false

abbrev pub is_per_work : Window → Bool
is_per_work per_work = true
is_per_work _ = false

-- whether a scope, its value and a window go together
unfoldable pub shape_is_valid : Scope → Option String → Window → Bool
unfolding is_truthy
shape_is_valid scope value window =
    (if is_global scope then not (is_some value) else is_truthy value)
    && not (is_per_work window && not (is_work scope))

-- Where this is false the constructor raises.
unfoldable pub budget_is_valid : Budget → Bool
unfolding shape_is_valid new_budget_id same_text
budget_is_valid b =
    ltb 0 b.limit_usd
    && shape_is_valid b.scope b.scope_value b.window
    && same_text b.budget_id (new_budget_id b.scope b.scope_value b.window)
