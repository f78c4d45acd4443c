-- ===== src/Hive/Pins.antt =====
-- `pin_public_key` of hive.rs: trust on first use. The directory of known keys is a list of files with
-- their texts; a text is the list of its characters, and a file that is not UTF-8 has none. The outcome of a
-- write is an argument. Files with other names are other files, so a name must not lead out of the directory.
use b.Prelude.{
  ℕ, Bool, true, false, List, [], ◌∷◌, ◌++◌, Option, none, some, ◌>>=◌, length, ◌==◌, if◌then◌else◌,
  Bytes, as_bytes, Result, ok, err, same, trim,
}
use b.Hive.Envelope.{Crates}

abbrev pub KeysDir : Type 0
KeysDir = List (Bytes × Option (List ℕ))

unfoldable pub key_file : Bytes → Bytes
key_file agent_name = agent_name ++ as_bytes ".pub"

-- `read_to_string`, without a file or of one that is not UTF-8: `none`
unfoldable pub read_to_string : KeysDir → Bytes → Option (List ℕ)
read_to_string [] f = none
read_to_string ((g, text) ∷ d) f = let rest = read_to_string d f in if same g f then text else rest

unfoldable pub write : KeysDir → Bytes → List ℕ → KeysDir
write [] f t = (f, some t) ∷ []
write ((g, text) ∷ d) f t =
    let rest = write d f t in if same g f then (g, some t) ∷ d else (g, text) ∷ rest

-- The outcome of `fs::write`, which the code ignores; a write that failed leaves the directory in any state.
pub data Written : Type 0 where
  complete : Written
  failed : KeysDir → Written

abbrev pub after_write : KeysDir → Bytes → List ℕ → Written → KeysDir
after_write dir f t complete = write dir f t
after_write dir f t (failed left) = left

module _ (x : Crates) where
  -- The key in a file's text, if it is one.
  unfoldable pub parsed : List ℕ → Option Bytes
  parsed text =
      x.base64_decode (trim text) >>= (λ bytes. if length bytes == 32 then some bytes else none)

  unfoldable pub cached : KeysDir → Bytes → Option Bytes
  cached dir agent_name = read_to_string dir (key_file agent_name) >>= parsed

  unfoldable pub pin_public_key :
      KeysDir → (agent_name public_key : Bytes) → Written → Result Bool Bytes × KeysDir
  pin_public_key dir agent_name public_key written = elim (cached dir agent_name) [
    | some cached_pub ↦
        if same cached_pub public_key then (ok false, dir) else (err cached_pub, dir)
    | none ↦ (ok true, after_write dir (key_file agent_name) (x.base64_encode public_key) written)
  ]
