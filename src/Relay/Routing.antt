-- ===== src/Relay/Routing.antt =====
-- Which session gets a message of the worker, and what becomes of one of a browser.
use b.Prelude.{
  ℕ, List, [], ◌∷◌, Option, none, some, if◌then◌else◌, Bytes, Text, chars, same, starts_with,
  from_utf8,
}
use b.Reliable.Frame.{Priority, critical}
use b.Reliable.Sessions.Manager.{Manager, get}
use b.Relay.Messages.{
  has_type, classify_priority, extract_from, keys, extract_msg_id, is_final_response,
}

-- `HashMap<String, u64>`: its entries in the order in which it is iterated, whatever that is.
abbrev pub Requests : Type 0
Requests = List (Text × ℕ)

unfoldable pub lookup : Requests → Text → Option ℕ
lookup [] id = none
lookup ((k, s) ∷ ps) id = let rest = lookup ps id in if same k id then some s else rest

-- The first entry whose key the id begins with.
unfoldable pub prefix_match : Requests → Text → Option ℕ
prefix_match [] id = none
prefix_match ((k, s) ∷ ps) id =
    let rest = prefix_match ps id in if starts_with id k then some s else rest

unfoldable pub insert : Requests → Text → ℕ → Requests
insert [] id s = (id, s) ∷ []
insert ((k, t) ∷ ps) id s =
    let rest = insert ps id s in if same k id then (k, s) ∷ ps else (k, t) ∷ rest

unfoldable pub remove : Requests → Text → Requests
remove [] id = []
remove ((k, t) ∷ ps) id = let rest = remove ps id in if same k id then ps else (k, t) ∷ rest

-- `OutboundMessage`, with the queue that it goes to
pub record Outbound : Type 0 where
  pub queue : ℕ
  pub payload : Bytes
  pub priority : Priority

-- A message of a socket.
pub data Message : Type 0 where
  text : Bytes → Message
  binary : Bytes → Message
  close : Message
  other : Message

abbrev pub or_else : Option ℕ → Option ℕ → Option ℕ
or_else none o = o
or_else (some s) o = some s

unfoldable pub target : Requests → Option Text → Option ℕ
target ps none = none
target ps (some id) = or_else (lookup ps id) (prefix_match ps id)

-- The entry of a final response is removed.
unfoldable pub settled : Requests → Option Text → Bytes → Requests
settled ps none payload = ps
settled ps (some id) payload = if is_final_response payload then remove ps id else ps

unfoldable pub deliver : Manager → Option ℕ → Bytes → Priority → List Outbound
deliver m none payload priority = []
deliver m (some id) payload priority = elim (get m id) [
  | none ↦ []
  | some s ↦ record { queue = s.backend_tx; payload = payload; priority = priority } ∷ []
]

unfoldable pub route_response : Manager → Requests → Bytes → Priority → Requests × List Outbound
route_response m ps payload priority =
    let id = extract_msg_id payload in
    (settled ps id payload, deliver m (target ps id) payload priority)

-- A round of `gpu_ws_reader`; `none` ends the loop.
unfoldable pub read_gpu : Manager → Requests → Message → Option (Requests × List Outbound)
read_gpu m ps (text t) = some (route_response m ps t (classify_priority (from_utf8 t)))
read_gpu m ps (binary d) = some (route_response m ps d critical)
read_gpu m ps close = none
read_gpu m ps other = some (ps, [])

-- What is done with a text that a browser's frames deliver.
pub data Action : Type 0 where
  echo : Action
  discard : Action
  drop_rtc : Action
  forward : Action

abbrev pub tracked : Requests → Option Text → ℕ → Requests
tracked ps none client_id = ps
tracked ps (some id) client_id = insert ps id client_id

-- A framed message of the session `client_id`; the text is what `from_utf8_lossy` makes of the payload.
unfoldable pub read_framed : Requests → (client_id : ℕ) → Text → Requests × Action
read_framed ps client_id t =
    let more = tracked ps (extract_from keys t) client_id in
    if has_type t (chars "echo")
    then (ps, echo)
    else if has_type t (chars "pong")
    then (ps, discard)
    else if has_type t (chars "rtc_inactive")
    then (more, drop_rtc)
    else (more, forward)

-- A text without a frame is always forwarded.
unfoldable pub read_unframed : Requests → (client_id : ℕ) → Text → Requests × Action
read_unframed ps client_id t = (tracked ps (extract_from keys t) client_id, forward)
