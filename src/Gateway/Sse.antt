-- ===== src/Gateway/Sse.antt =====
-- Reading the usage of a stream that is handed on: _SseBookkeeper of src/inferrail/gateway/execution.py,
-- with the usage fields of providers/openai.py. Bytes are numbers. `json.loads` is an argument.
mod Events
pub mod Chunks
use inferrail.Common.{
  String, ℕ, zero, suc, Bool, true, false, ◌&&◌, ◌||◌, not, List, [], ◌∷◌, ◌++◌, Option, none, some,
  if◌then◌else◌, ◌==◌, length,
}
use inferrail.Common.Json.{Json, object, Fields, get_field}
use inferrail.Pricing.Usage.{nonneg_int}
use inferrail.Gateway.Counts.{Count, missing, count_of}

abbrev pub Bytes : Type 0
Bytes = List ℕ

-- `json.loads`: a JSONDecodeError is `malformed`, and `undecodable` is the UnicodeDecodeError of bytes
-- that are no UTF-8.
pub data Loaded : Type 0 where
  value : Json → Loaded
  malformed : Loaded
  undecodable : Loaded

-- The two counts are kept raw; those of the cache are read as non-negative ints. `is_broken` is an
-- exception on its way out.
pub record StreamUsage : Type 0 where
  pub prompt_tokens : Count
  pub completion_tokens : Count
  pub cached_prompt_tokens : Option ℕ
  pub cache_write_prompt_tokens : Option ℕ
  pub is_broken : Bool

-- The bytes that are not read yet, and what has been read: the usage of a protocol.
pub record Bookkeeper (U : Type 0) : Type 0 where
  pub buffer : Bytes
  pub usage : U

abbrev pub new_bookkeeper : Bookkeeper StreamUsage
new_bookkeeper = record {
  buffer = [];
  usage = record {
    prompt_tokens = missing;
    completion_tokens = missing;
    cached_prompt_tokens = none;
    cache_write_prompt_tokens = none;
    is_broken = false;
  };
}

abbrev pub starts_newline : Bytes → Bool
starts_newline [] = false
starts_newline (b ∷ bs) = b == 10

-- `chunk.replace(b"\r\n", b"\n")`
unfoldable pub replace_crlf : Bytes → Bytes
replace_crlf [] = []
replace_crlf (b ∷ bs) =
    let rest = replace_crlf bs in if b == 13 && starts_newline bs then rest else b ∷ rest

abbrev pub drop_one : Bytes → Bytes
drop_one [] = []
drop_one (b ∷ bs) = bs

abbrev pub cons_event : ℕ → Option (Bytes × Bytes) → Option (Bytes × Bytes)
cons_event b none = none
cons_event b (some (event, rest)) = some (b ∷ event, rest)

-- `buffer.split(b"\n\n", 1)`, where the separator is in it
unfoldable pub split_event : Bytes → Option (Bytes × Bytes)
split_event [] = none
split_event (b ∷ bs) =
    let later = split_event bs in
    if b == 10 && starts_newline bs then some ([], drop_one bs) else cons_event b later

abbrev pub cons_line : ℕ → List Bytes → List Bytes
cons_line b [] = (b ∷ []) ∷ []
cons_line b (l ∷ ls) = (b ∷ l) ∷ ls

-- `event.split(b"\n")`
unfoldable pub lines : Bytes → List Bytes
lines [] = [] ∷ []
lines (b ∷ bs) = let rest = lines bs in if b == 10 then [] ∷ rest else cons_line b rest

abbrev is_space : ℕ → Bool
is_space b = b == 32 || b == 9 || b == 10 || b == 11 || b == 12 || b == 13

abbrev strip_left : Bytes → Bytes
strip_left [] = []
strip_left (b ∷ bs) = let rest = strip_left bs in if is_space b then rest else b ∷ bs

abbrev strip_right : Bytes → Bytes
strip_right [] = []
strip_right (b ∷ bs) = drop_if_empty (strip_right bs)
  where
    drop_if_empty : Bytes → Bytes
    drop_if_empty [] = if is_space b then [] else b ∷ []
    drop_if_empty (c ∷ cs) = b ∷ c ∷ cs

-- `.strip()`
unfoldable pub strip : Bytes → Bytes
strip bs = strip_right (strip_left bs)

-- the rest of a line after a prefix
unfoldable pub after_prefix : Bytes → Bytes → Option Bytes
after_prefix [] bs = some bs
after_prefix (p ∷ ps) [] = none
after_prefix (p ∷ ps) (b ∷ bs) = let rest = after_prefix ps bs in if p == b then rest else none

-- the prefix of a data line, and the mark that ends a stream
abbrev pub data_prefix : Bytes
data_prefix = 100 ∷ 97 ∷ 116 ∷ 97 ∷ 58 ∷ []

abbrev done_mark : Bytes
done_mark = 91 ∷ 68 ∷ 79 ∷ 78 ∷ 69 ∷ 93 ∷ []

unfoldable pub same_bytes : Bytes → Bytes → Bool
same_bytes [] [] = true
same_bytes (a ∷ as') (b ∷ bs) = a == b && same_bytes as' bs
same_bytes _ _ = false

abbrev pub in_details : String → Option Json → Option ℕ
in_details name (some (object details)) = nonneg_int (get_field name details)
in_details name _ = none

-- `openai_cached_prompt_tokens` and `openai_cache_write_prompt_tokens`, by the name of their field
unfoldable pub openai_tokens : String → Fields → Option ℕ
unfolding get_field nonneg_int
openai_tokens name usage = in_details name (get_field "prompt_tokens_details" usage)

unfoldable pub take_usage : StreamUsage → Option Json → StreamUsage
unfolding openai_tokens get_field count_of
take_usage k (some (object usage)) = record k {
  prompt_tokens = count_of (get_field "prompt_tokens" usage);
  completion_tokens = count_of (get_field "completion_tokens" usage);
  cached_prompt_tokens = openai_tokens "cached_tokens" usage;
  cache_write_prompt_tokens = openai_tokens "cache_write_tokens" usage;
}
take_usage k _ = k

unfoldable pub take_loaded : StreamUsage → Loaded → StreamUsage
unfolding take_usage get_field
take_loaded k (value (object obj)) = take_usage k (get_field "usage" obj)
take_loaded k (value _) = k
take_loaded k malformed = k
take_loaded k undecodable = record k { is_broken = true }

abbrev pub is_empty : Bytes → Bool
is_empty [] = true
is_empty (_ ∷ _) = false

module _ (loads : Bytes → Loaded) where
  abbrev pub take_data : StreamUsage → Option Bytes → StreamUsage
  take_data k none = k
  take_data k (some raw) =
      let payload = strip raw in
      if is_empty payload || same_bytes payload done_mark then k else take_loaded k (loads payload)

  -- Once an exception is on its way nothing more is read.
  unfoldable pub take_line : StreamUsage → Bytes → StreamUsage
  unfolding take_loaded after_prefix strip same_bytes
  take_line k line = if k.is_broken then k else take_data k (after_prefix data_prefix line)

  unfoldable pub take_lines : StreamUsage → List Bytes → StreamUsage
  unfolding take_line
  take_lines k [] = k
  take_lines k (l ∷ ls) = take_lines (take_line k l) ls

  unfoldable pub handle_event : StreamUsage → Bytes → StreamUsage
  unfolding take_lines lines
  handle_event k event = take_lines k (lines event)

module _ {U : Type 0} (handle : U → Bytes → U) where
  -- one pass, `loop` being the remaining ones
  abbrev pub handle_first : Option (Bytes × Bytes) → Bytes → U → (Bytes → U → Bytes × U) → Bytes × U
  handle_first none buffer u loop = (buffer, u)
  handle_first (some (event, rest)) buffer u loop = loop rest (handle u event)

  -- The `while` loop of `feed`, on fuel: each pass takes two bytes at least. After an exception the
  -- source stops here, and never reads the buffer again; the passes to come do not change the usage.
  unfoldable pub handle_events : ℕ → Bytes → U → Bytes × U
  unfolding split_event
  handle_events zero buffer u = (buffer, u)
  handle_events (suc fuel) buffer u =
      handle_first (split_event buffer) buffer u (λ rest v. handle_events fuel rest v)

  -- `feed`, which the bookkeepers of both protocols share but for the reading of an event
  unfoldable pub feed_by : Bookkeeper U → Bytes → Bookkeeper U
  unfolding handle_events replace_crlf
  feed_by k chunk =
      let buffer = k.buffer ++ replace_crlf chunk in
      let (rest, usage) = handle_events (suc (length buffer)) buffer k.usage in
      record { buffer = rest; usage = usage }

unfoldable pub feed : (Bytes → Loaded) → Bookkeeper StreamUsage → Bytes → Bookkeeper StreamUsage
unfolding feed_by handle_event
feed loads k chunk = feed_by (handle_event loads) k chunk
