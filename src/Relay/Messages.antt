-- ===== src/Relay/Messages.antt =====
-- What the relay reads off a message without parsing it.
use b.Prelude.{
  ℕ, Bool, false, ◌||◌, List, [], ◌∷◌, ◌++◌, Option, none, some, ◌>>=◌, length, drop, ◌==◌,
  is_empty, if◌then◌else◌, Bytes, Text, chars, starts_with, contains, trim_start, is_utf8,
  from_utf8,
}
use b.Reliable.Frame.{Priority, best_effort, critical}

-- The field `"type"` with a value, in the two ways of spacing it.
unfoldable pub has_type : Text → Text → Bool
has_type text value =
    contains text (chars "\"type\":\"" ++ (value ++ chars "\""))
    || contains text (chars "\"type\": \"" ++ (value ++ chars "\""))

unfoldable pub classify_priority : Text → Priority
classify_priority json_text =
    if has_type json_text (chars "progress")
    then best_effort
    else if has_type json_text (chars "ping")
    then best_effort
    else critical

-- What follows the first occurrence of a key.
unfoldable pub after_key : (key text : Text) → Option Text
after_key key [] = if is_empty key then some [] else none
after_key key (c ∷ t) =
    let rest = after_key key t in
    if starts_with (c ∷ t) key then some (drop (length key) (c ∷ t)) else rest

-- `strip_prefix` of a character.
unfoldable pub strip : ℕ → Text → Option Text
strip c [] = none
strip c (d ∷ t) = if d == c then some t else none

-- What stands before the first occurrence of a character.
unfoldable pub before : ℕ → Text → Option Text
before c [] = none
before c (d ∷ t) =
    let rest = before c t in if d == c then some [] else (rest >>= (λ r. some (d ∷ r)))

-- The string behind a key: a colon, and a text in quotes.
unfoldable pub string_value : Text → Option Text
string_value after =
    strip 58 (trim_start after)
    >>= (λ colon. strip 34 (trim_start colon) >>= (λ quote. before 34 quote))

unfoldable pub extract_from : List Text → Text → Option Text
extract_from [] text = none
extract_from (key ∷ keys) text = elim (after_key key text) [
  | some after ↦ string_value after
  | none ↦ extract_from keys text
]

abbrev pub keys : List Text
keys = chars "\"job_id\"" ∷ chars "\"stream_id\"" ∷ chars "\"msg_id\"" ∷ []

unfoldable pub extract_msg_id : Bytes → Option Text
extract_msg_id payload = if is_utf8 payload then extract_from keys (from_utf8 payload) else none

unfoldable pub is_final_response : Bytes → Bool
is_final_response payload =
    let text = from_utf8 payload in
    if is_utf8 payload
    then has_type text (chars "done")
      || (has_type text (chars "error") || has_type text (chars "result"))
    else false
