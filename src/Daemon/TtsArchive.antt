-- ===== src/Daemon/TtsArchive.antt =====
-- `TtsArchive` of crates/b3-cli/src/daemon/tts_archive.rs, with its directory.
use Prim.Native.String.{String}
use text.Mathlib.Text.{◌==◌ as str_eq}
use text.Mathlib.TextEquality.{eq_iff}
use text.Mathlib.TextPositions.{eq_refl}
use b.Prelude.{
  ℕ, ◌≡◌, refl, ap, sym, Bool, true, false, ◌||◌, ◌&&◌, List, [], ◌∷◌, ◌++◌, Option, none, some,
  if◌then◌else◌, arith, subst, Bool-cases, inl, inr, some_inj, Bytes,
}
use b.Daemon.Eviction.{evict, evicted, evicted-append-evict}

abbrev pub max_entries : ℕ
max_entries = 50

-- The index; the WAV files, by message; the saved index.
pub record Archive (Entry : Type 0) : Type 0 where
  pub index : List Entry
  pub wavs : List (String × Bytes)
  pub saved : Option (List Entry)

abbrev pub has_wav : String → List (String × Bytes) → Bool
has_wav id [] = false
has_wav id ((name, w) ∷ ws) = str_eq name id || has_wav id ws

-- `tokio::fs::remove_file`
abbrev pub remove_wav : String → List (String × Bytes) → List (String × Bytes)
remove_wav id [] = []
remove_wav id ((name, w) ∷ ws) =
    let rest = remove_wav id ws in if str_eq name id then rest else (name, w) ∷ rest

-- `open`, from what the index file parses to, if it exists and can be read and parsed, and the WAV
-- files in the directory.
unfoldable pub open_dir :
    {Entry : Type 0} → Option (List Entry) → List (String × Bytes) → Archive Entry
open_dir none wavs = record { index = []; wavs = wavs; saved = none }
open_dir (some es) wavs = record { index = es; wavs = wavs; saved = some es }

abbrev pub newest_first : {Entry : Type 0} → List Entry → List Entry
newest_first [] = []
newest_first (e ∷ es) = newest_first es ++ (e ∷ [])

unfoldable pub list : {Entry : Type 0} → Archive Entry → List Entry
list a = newest_first a.index

-- `TtsEntry` is its message id and what else it holds.
module _ {Entry : Type 0} (msg_id : Entry → String) where
  abbrev pub indexed : String → List Entry → Bool
  indexed id [] = false
  indexed id (e ∷ es) = str_eq (msg_id e) id || indexed id es

  abbrev pub remove_wavs : List Entry → List (String × Bytes) → List (String × Bytes)
  remove_wavs [] ws = ws
  remove_wavs (e ∷ es) ws = remove_wavs es (remove_wav (msg_id e) ws)

  -- `tokio::fs::write`
  abbrev pub write_wav : Entry → Bytes → List (String × Bytes) → List (String × Bytes)
  write_wav e wav ws = (msg_id e, wav) ∷ remove_wav (msg_id e) ws

  -- `none` is the error of writing the WAV file. `saves` tells if the index can be saved.
  unfoldable pub store : Archive Entry → Bool → Bool → Entry → Bytes → Option (Archive Entry)
  store a false saves e wav = none
  store a true saves e wav =
      let index = evict max_entries a.index ++ (e ∷ []) in
      some (record {
        index = index;
        wavs = remove_wavs (evicted max_entries a.index) (write_wav e wav a.wavs);
        saved = if saves then some index else a.saved;
      })

  unfoldable pub contains : Archive Entry → String → Bool
  contains a id = indexed id a.index

  unfoldable pub audio_path : Archive Entry → String → Bool
  audio_path a id = indexed id a.index && has_wav id a.wavs

  indexed-append :
      (id : String) (xs ys : List Entry) → indexed id (xs ++ ys) ≡ indexed id xs || indexed id ys
  indexed-append id [] ys = refl
  indexed-append id (x ∷ xs) ys = ground (arith, indexed-append id xs ys)

  has_wav-remove_wav :
      (id other : String) (ws : List (String × Bytes))
      → str_eq other id ≡ false
      → has_wav id ws ≡ true
      → has_wav id (remove_wav other ws) ≡ true
  has_wav-remove_wav id other [] h has = has
  has_wav-remove_wav id other ((name, w) ∷ ws) h has = elim (Bool-cases (str_eq name other)) [
    | inl same ↦
        (let e : name ≡ other = ground (arith, eq_iff name other) in
          let differs : str_eq name id ≡ false = subst (λ n. str_eq n id ≡ false) (sym e) h in
          rw (same) (has_wav-remove_wav id other ws h (ground (arith, has, differs))))
    | inr kept ↦ rw (kept) (elim (Bool-cases (str_eq name id)) [
      | inl hit ↦ rw (hit) refl
      | inr miss ↦ rw (miss) (has_wav-remove_wav id other ws h (ground (arith, has, miss)))
    ])
  ]

  has_wav-remove_wavs :
      (id : String) (es : List Entry) (ws : List (String × Bytes))
      → indexed id es ≡ false
      → has_wav id ws ≡ true
      → has_wav id (remove_wavs es ws) ≡ true
  has_wav-remove_wavs id [] ws h has = has
  has_wav-remove_wavs id (e ∷ es) ws h has =
      has_wav-remove_wavs id es (remove_wav (msg_id e) ws) (ground (arith, h))
        (has_wav-remove_wav id (msg_id e) ws (ground (arith, h)) has)

  -- Storing a message whose id the archive does not contain, if its WAV file is written, makes the
  -- archive contain it and leaves its WAV file there, whatever is evicted and whether or not the
  -- index is saved.
  pub store-audio_path :
      (a : Archive Entry) (saves : Bool) (e : Entry) (wav : Bytes) (b : Archive Entry)
      → contains a (msg_id e) ≡ false
      → store a true saves e wav ≡ some b
      → (contains b (msg_id e) ≡ true) × (audio_path b (msg_id e) ≡ true)
  unfolding store contains audio_path
  store-audio_path a saves e wav b fresh h =
      let parts = evicted-append-evict max_entries a.index in
      let id = msg_id e in
      let index = evict max_entries a.index ++ (e ∷ []) in
      let c : indexed id index ≡ true =
        ground (arith, indexed-append id (evict max_entries a.index) (e ∷ []), eq_refl id) in
      let gone : indexed id (evicted max_entries a.index) ≡ false = ground (
        arith,
        indexed-append id (evicted max_entries a.index) (evict max_entries a.index),
        ap (indexed id) parts,
        fresh,
      ) in
      let w =
        has_wav-remove_wavs id (evicted max_entries a.index) (write_wav e wav a.wavs) gone
          (ground (arith, eq_refl id)) in
      subst (λ r. (indexed id r.index ≡ true) × ((indexed id r.index && has_wav id r.wavs) ≡ true))
        (some_inj h) (c, rw (c) w)
