-- ===== src/Webrtc/Assembler.antt =====
-- `ChunkAssembler` of crates/b3-webrtc/src/channel.rs.
use Prim.Native.String.{String}
use b.Prelude.{
  ℕ, ◌+◌, Bool, true, false, List, [], ◌∷◌, ◌++◌, ◌⊎◌, inl, inr, Option, none, some, get_or, set,
  replicate, ltb, leb, ◌==◌, if◌then◌else◌, Bytes, min,
}
use b.Webrtc.Message.{Message, json, binary, max_chunks, type_json, type_binary}

pub record Assembler : Type 0 where
  pub chunks : List (Option Bytes)
  pub original_type : ℕ
  pub total : ℕ
  pub received : ℕ

unfoldable pub new : ℕ → ℕ → Assembler
new total original_type =
    let capped = min total max_chunks in
    record {
      chunks = replicate capped none;
      original_type = original_type;
      total = capped;
      received = 0;
    }

abbrev pub is_none : Option Bytes → Bool
is_none none = true
is_none (some d) = false

-- the chunks that are there, one after the other
unfoldable pub reassembled : List (Option Bytes) → Bytes
reassembled [] = []
reassembled (none ∷ cs) = reassembled cs
reassembled (some d ∷ cs) = d ++ reassembled cs

-- The first half of `feed`, for an index in range: the slot and the counter.
unfoldable pub store : Assembler → ℕ → Bytes → Assembler
store a seq d = record a {
  received = if is_none (get_or a.chunks seq none) then a.received + 1 else a.received;
  chunks = set a.chunks seq (some d);
}

module _ {Value : Type 0} (from_slice : Bytes → Value ⊎ String) where
  -- The match at the end of `feed` on the original type.
  unfoldable pub assembled : ℕ → Bytes → Option (Message Value)
  assembled original_type payload =
      if original_type == type_json
      then elim (from_slice payload) [ inl v ↦ some (json v) | inr e ↦ none ]
      else if original_type == type_binary
      then some (binary payload)
      else none

  unfoldable pub feed : Assembler → ℕ → Bytes → Assembler × Option (Message Value)
  feed a seq d =
      if leb a.total seq
      then (a, none)
      else (let b = store a seq d in
          if ltb b.received b.total
          then (b, none)
          else (b, assembled b.original_type (reassembled b.chunks)))
