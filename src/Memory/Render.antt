-- ===== src/Memory/Render.antt =====
-- What the loop of `handle_resurface` prints for a line. The map from the ids of tools to their names is
-- written and never read; it is left out.
use b.Prelude.{
  ℕ, ◌+◌, Bool, not, ◌&&◌, ◌||◌, List, [], ◌∷◌, ◌++◌, Option, none, some, ◌>>=◌, map, is_empty, ltb,
  leb, ◌==◌, if◌then◌else◌, Text, chars, same, trim, starts_with, contains, text_len, slice_to,
  to_string,
}
use b.Memory.Filters.{
  Json, unwrap_or, is_compaction, should_skip_content, get_str, is_queue_operation,
  get_queue_content, message_role,
}

pub record Request : Type 0 where
  pub include_timestamps : Bool
  pub record_type : Text
  pub tool_result_limit : ℕ
  pub agent_name : Text

-- `replace('\n', " ")`
unfoldable pub flat : Text → Text
flat t = map (λ c. if c == 10 then 32 else c) t

unfoldable pub label : ℕ → Text
label n = chars "L" ++ (to_string n ++ chars ": ")

-- A line of the output, for the line `n` of the file.
abbrev pub entry : (n : ℕ) (ts_prefix body : Text) → Text
entry n ts_prefix body = label n ++ (ts_prefix ++ body)

unfoldable pub is_one_of : Text → Text → Text → Bool
is_one_of t a b = same t a || same t b

-- `&content[..tool_result_limit]` and dots, where the content is longer
unfoldable pub limited_content : ℕ → Text → Option Text
limited_content limit content =
    if ltb 0 limit && ltb limit (text_len content)
    then (slice_to content limit >>= (λ t. some (t ++ chars "...")))
    else some content

unfoldable pub short_id : Text → Option Text
short_id id = if leb 8 (text_len id) then slice_to id 8 else some id

module _ {V : Type 0} (x : Json V) (q : Request) where
  -- `get(key).and_then(as_str).unwrap_or(d)`
  unfoldable pub str_or : V → (key d : Text) → Text
  str_or v key d = unwrap_or (get_str x v key) d

  unfoldable pub speaker : Text → Text
  speaker role = if same role (chars "user") then chars "User" else q.agent_name

  unfoldable pub ts_prefix : V → Text
  ts_prefix v =
      let timestamp = str_or v (chars "timestamp") [] in
      if q.include_timestamps && not (is_empty timestamp) then timestamp ++ chars " | " else []

  unfoldable pub input_str : V → Text
  input_str tool_input = if x.is_null tool_input then chars "{}" else x.print tool_input

  -- A command that the types `grep` and `find` look for.
  unfoldable pub runs : Text → (command : Text) → Bool
  runs program command =
      starts_with (trim command) (program ++ chars " ")
      || contains command (chars " " ++ (program ++ chars " "))

  unfoldable pub voice : (n : ℕ) (ts tool_name : Text) → V → List Text
  voice n ts tool_name tool_input =
      let voice_text = flat (str_or tool_input (chars "text") []) in
      if contains tool_name (chars "voice_say") && not (is_empty voice_text)
      then entry n ts (q.agent_name ++ (chars " [voice]: " ++ voice_text)) ∷ []
      else []

  unfoldable pub bash : (n : ℕ) (ts tool_name : Text) → V → List Text
  bash n ts tool_name tool_input =
      let command = str_or tool_input (chars "command") [] in
      let desc = str_or tool_input (chars "description") [] in
      let desc_suffix : Text = if not (is_empty desc) then chars " # " ++ desc else [] in
      if same tool_name (chars "Bash")
      then entry n ts (chars "$ " ++ (command ++ desc_suffix)) ∷ []
      else []

  -- The types `grep` and `find`, with the tool that each has beside the shell.
  unfoldable pub searches : (program tool : Text) (n : ℕ) (ts tool_name : Text) → V → List Text
  searches program tool n ts tool_name tool_input =
      let command = str_or tool_input (chars "command") [] in
      let pattern = str_or tool_input (chars "pattern") [] in
      let path = str_or tool_input (chars "path") (chars ".") in
      if same tool_name (chars "Bash")
      then (if runs program command then entry n ts (chars "$ " ++ command) ∷ [] else [])
      else if same tool_name tool
      then entry n ts (tool ++ (chars ": " ++ (pattern ++ (chars " in " ++ path)))) ∷ []
      else []

  -- The types `write` and `read`.
  unfoldable pub touches : (tool : Text) (n : ℕ) (ts tool_name : Text) → V → List Text
  touches tool n ts tool_name tool_input =
      if same tool_name tool
      then entry n ts (tool ++ (chars ": " ++ str_or tool_input (chars "file_path") [])) ∷ []
      else []

  unfoldable pub tool_use : (n : ℕ) (ts : Text) → V → List Text
  tool_use n ts item =
      let tool_name = str_or item (chars "name") [] in
      let tool_input = unwrap_or (x.get item (chars "input")) x.empty_object in
      let t = q.record_type in
      if same t (chars "conversation")
      then voice n ts tool_name tool_input
      else if is_one_of t (chars "tool_use") (chars "all")
      then entry n ts (tool_name ++ (chars ": " ++ input_str tool_input)) ∷ []
      else if same t (chars "bash")
      then bash n ts tool_name tool_input
      else if same t (chars "grep")
      then searches (chars "grep") (chars "Grep") n ts tool_name tool_input
      else if same t (chars "find")
      then searches (chars "find") (chars "Glob") n ts tool_name tool_input
      else if same t (chars "write")
      then touches (chars "Write") n ts tool_name tool_input
      else if same t (chars "read")
      then touches (chars "Read") n ts tool_name tool_input
      else []

  abbrev pub talks : Bool
  talks = is_one_of q.record_type (chars "conversation") (chars "all")

  unfoldable pub text_item : (n : ℕ) (ts role : Text) → V → List Text
  text_item n ts role item =
      let text_content = str_or item (chars "text") [] in
      if not talks
      then []
      else if is_empty text_content || is_empty (trim text_content)
      then []
      else if should_skip_content text_content
      then []
      else entry n ts (speaker role ++ (chars ": " ++ flat text_content))
        ∷ (if is_compaction text_content then entry n ts (chars "COMPACTION") ∷ [] else [])

  unfoldable pub tool_result : (n : ℕ) (ts : Text) → V → Option (List Text)
  tool_result n ts item =
      let id = str_or item (chars "tool_use_id") [] in
      let content = elim (x.get item (chars "content")) as (λ c. Text) [
        | none ↦ []
        | some v ↦ x.print v
      ] in
      if same q.record_type (chars "all")
      then (limited_content q.tool_result_limit content >>= (λ shown. short_id id >>= (λ short.
          some (entry n ts (chars "[result " ++ (short ++ (chars "]: " ++ shown))) ∷ []))))
      else some []

  unfoldable pub item_entries : (n : ℕ) (ts role : Text) → V → Option (List Text)
  item_entries n ts role item =
      let item_type = str_or item (chars "type") [] in
      if same item_type (chars "tool_use")
      then some (tool_use n ts item)
      else if same item_type (chars "text")
      then some (text_item n ts role item)
      else if same item_type (chars "tool_result")
      then tool_result n ts item
      else some []

  unfoldable pub items_entries : (n : ℕ) (ts role : Text) → List V → Option (List Text)
  items_entries n ts role [] = some []
  items_entries n ts role (i ∷ is) =
      item_entries n ts role i
      >>= (λ out. items_entries n ts role is >>= (λ rest. some (out ++ rest)))

  unfoldable pub queue_entries : (n : ℕ) → V → List Text
  queue_entries n v = elim (get_queue_content x v) [
    | none ↦ []
    | some content ↦
        if not (is_empty content) && (not (should_skip_content content) && talks)
        then entry n (ts_prefix v) (chars "User: " ++ content) ∷ []
        else []
  ]

  unfoldable pub content_entries : (n : ℕ) (ts role : Text) → V → Option (List Text)
  content_entries n ts role content = elim (x.as_str content) [
    | some text ↦ some (
        if not (should_skip_content text) && talks
        then entry n ts (speaker role ++ (chars ": " ++ flat text)) ∷ []
        else [])
    | none ↦ elim (x.as_array content) [
      | none ↦ some []
      | some items ↦ items_entries n ts role items
    ]
  ]

  unfoldable pub message_entries : (n : ℕ) → V → Option (List Text)
  message_entries n v = elim (message_role x v) [
    | none ↦ some []
    | some role ↦ elim (x.get v (chars "message") >>= (λ m. x.get m (chars "content"))) [
      | none ↦ some []
      | some content ↦ content_entries n (ts_prefix v) role content
    ]
  ]

  -- The entries of the line `n`; `none` is the panic of a slice inside a character.
  unfoldable pub line_entries : (n : ℕ) (line : Text) → Option (List Text)
  line_entries n line = if is_empty line then some [] else elim (x.from_str line) [
    | none ↦ some []
    | some v ↦ if is_queue_operation x v then some (queue_entries n v) else message_entries n v
  ]

  -- The entries of all lines, of which the first of the range has the number `abs_start`.
  unfoldable pub entries : (abs_start : ℕ) → List (ℕ × Text) → Option (List Text)
  entries abs_start [] = some []
  entries abs_start ((i, line) ∷ ls) =
      line_entries (abs_start + i) line
      >>= (λ out. entries abs_start ls >>= (λ rest. some (out ++ rest)))
