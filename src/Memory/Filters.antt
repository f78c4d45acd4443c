-- ===== src/Memory/Filters.antt =====
-- The filters of session_memory.rs. serde_json is a record of functions on its values, of type `V`.
use b.Prelude.{
  ℕ, ◌+◌, Bool, true, false, ◌&&◌, ◌||◌, List, [], ◌∷◌, Option, none, some, ◌>>=◌, is_empty,
  if◌then◌else◌, Text, chars, same, contains, trim,
}

pub record Json (V : Type 0) : Type 0 where
  pub from_str : Text → Option V
  pub get : V → Text → Option V
  pub as_str : V → Option Text
  pub as_array : V → Option (List V)
  pub is_null : V → Bool
  pub print : V → Text
  pub empty_object : V

abbrev pub unwrap_or {ℓ} : {A : Type ℓ} → Option A → A → A
unwrap_or none d = d
unwrap_or (some a) d = a

-- A compaction marker.
unfoldable pub is_compaction : Text → Bool
is_compaction t = contains t (chars "Compacted") && contains t (chars "ctrl+o")

unfoldable pub should_skip_content : Text → Bool
should_skip_content t = contains t (chars "<task-notification>") || is_compaction t

-- Whether a line of the range is kept.
unfoldable pub keeps : (record_type line : Text) → Bool
keeps record_type line =
    if is_compaction line
    then true
    else if is_empty (trim line)
    then false
    else if contains line (chars "tool_use_id")
    then same record_type (chars "all")
    else true

-- The lines that are kept, each with its index from `i` on.
unfoldable pub filter_lines : (record_type : Text) (i : ℕ) → List Text → List (ℕ × Text)
filter_lines record_type i [] = []
filter_lines record_type i (l ∷ ls) =
    let rest = filter_lines record_type (i + 1) ls in
    if keeps record_type l then (i, l) ∷ rest else rest

module _ {V : Type 0} (x : Json V) where
  -- `get(key).and_then(as_str)`
  unfoldable pub get_str : V → Text → Option Text
  get_str v key = x.get v key >>= x.as_str

  -- `get_str(key) == Some(text)`
  unfoldable pub has_str : V → (key text : Text) → Bool
  has_str v key text = elim (get_str v key) [ none ↦ false | some t ↦ same t text ]

  unfoldable pub is_queue_operation : V → Bool
  is_queue_operation v =
      has_str v (chars "type") (chars "queue-operation")
      && has_str v (chars "operation") (chars "enqueue")

  unfoldable pub get_queue_content : V → Option Text
  get_queue_content v = get_str v (chars "content")

  unfoldable pub message_role : V → Option Text
  message_role v = x.get v (chars "message") >>= (λ m. get_str m (chars "role"))
