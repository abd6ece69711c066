-- ===== src/Receipts/Store.antt =====
-- The receipts table: src/inferrail/receipts/sqlite_store.py. Rows stand in the order of insertion,
-- and a query returns them by time. Every row reconstructs, since only `emit` writes rows.
use inferrail.Common.{
  ℕ, zero, suc, ltb, leb, String, Bool, true, false, ◌&&◌, any, filter, length, Option, none, some,
  List, [], ◌∷◌, if◌then◌else◌, same_text,
}
use inferrail.Common.Dict.{lookup}
use inferrail.Common.Sorting.{sort_by}
use inferrail.Receipts.Schema.{InferenceReceipt, Status, success, error, partial}

abbrev pub ReceiptsStore : Type 0
ReceiptsStore = List InferenceReceipt

abbrev pub append_row : InferenceReceipt → ReceiptsStore → ReceiptsStore
append_row r [] = r ∷ []
append_row r (x ∷ xs) = x ∷ append_row r xs

unfoldable pub has_id : String → InferenceReceipt → Bool
unfolding same_text
has_id receipt_id r = same_text r.receipt_id receipt_id

-- `INSERT OR IGNORE`
unfoldable pub emit : InferenceReceipt → ReceiptsStore → ReceiptsStore
unfolding has_id
emit r store = if any (has_id r.receipt_id) store then store else append_row r store

pub record Filters : Type 0 where
  pub work_id : Option String
  pub project : Option String
  pub model : Option String
  pub status : Option Status
  pub since : Option ℕ
  pub limit : Option ℕ
  pub offset : ℕ

abbrev pub no_filters : Filters
no_filters = record {
  work_id = none;
  project = none;
  model = none;
  status = none;
  since = none;
  limit = none;
  offset = 0;
}

abbrev pub same_status : Status → Status → Bool
same_status success success = true
same_status error error = true
same_status partial partial = true
same_status _ _ = false

-- `column = ?`, where the column of a missing attribute is NULL and equals nothing
unfoldable pub column_is : Option String → Option String → Bool
column_is value none = true
column_is none (some wanted) = false
column_is (some value) (some wanted) = same_text value wanted

abbrev pub status_is : Status → Option Status → Bool
status_is s none = true
status_is s (some wanted) = same_status s wanted

abbrev pub is_after : Option ℕ → ℕ → Bool
is_after none time = true
is_after (some bound) time = ltb bound time

unfoldable pub satisfies : Filters → InferenceReceipt → Bool
unfolding column_is lookup
satisfies f r =
    column_is (lookup "work_id" r.attributes) f.work_id
    && column_is (lookup "project" r.attributes) f.project
    && column_is (some r.model) f.model
    && status_is r.status f.status
    && is_after f.since r.timestamp

-- `LIMIT ? OFFSET ?`
abbrev pub skip : ℕ → List InferenceReceipt → List InferenceReceipt
skip zero rows = rows
skip (suc n) [] = []
skip (suc n) (_ ∷ rows) = skip n rows

abbrev pub first_rows : ℕ → List InferenceReceipt → List InferenceReceipt
first_rows zero rows = []
first_rows (suc n) [] = []
first_rows (suc n) (r ∷ rows) = r ∷ first_rows n rows

-- An offset without a limit is not used.
abbrev pub page : Option ℕ → ℕ → List InferenceReceipt → List InferenceReceipt
page none offset rows = rows
page (some limit) offset rows = first_rows limit (skip offset rows)

abbrev pub by_time : InferenceReceipt → InferenceReceipt → Bool
by_time a b = leb a.timestamp b.timestamp

unfoldable pub query : Filters → ReceiptsStore → List InferenceReceipt
unfolding satisfies sort_by
query f store = page f.limit f.offset (sort_by by_time (filter (satisfies f) store))

-- The count has no bound on the time and no page.
unfoldable pub count : Filters → ReceiptsStore → ℕ
unfolding satisfies
count f store = length (filter (satisfies record f { since = none }) store)

-- the receipts, and how many rows were skipped
unfoldable pub read_all : ReceiptsStore → List InferenceReceipt × ℕ
unfolding sort_by
read_all store = (sort_by by_time store, 0)

-- import_jsonl, on the receipts that the file's lines parse to
unfoldable pub import_all : List InferenceReceipt → ReceiptsStore → ReceiptsStore
unfolding emit
import_all [] store = store
import_all (r ∷ rs) store = import_all rs (emit r store)
