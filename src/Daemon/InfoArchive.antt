-- ===== src/Daemon/InfoArchive.antt =====
-- `InfoArchive` of crates/b3-cli/src/daemon/info_archive.rs, with its one file.
use Prim.Native.String.{String}
use b.Prelude.{
  ℕ, ◌+◌, ◌≡◌, refl, ap, ◌∙◌, sym, Bool, true, List, [], ◌∷◌, ◌++◌, Option, none, some, map, length,
  get_elem?, if◌then◌else◌, append-nil, append_assoc,
}
use b.Daemon.Eviction.{evict, newest, evict-newest}

abbrev pub max_entries : ℕ
max_entries = 1000

-- `InfoEntry`
pub record Entry : Type 0 where
  pub ts : ℕ
  pub title : String
  pub html : String

-- `InfoEntrySummary`
pub record Summary : Type 0 where
  pub ts : ℕ
  pub title : String
  pub index : ℕ

-- The index, and what the index file holds, if it exists.
pub record Archive : Type 0 where
  pub index : List Entry
  pub file : Option String

abbrev pub parsed : Option (List Entry) → List Entry
parsed none = []
parsed (some es) = es

-- The entries newest first, each with its place counted from the oldest.
abbrev pub summaries : ℕ → List Entry → List Summary
summaries i [] = []
summaries i (e ∷ es) =
    summaries (i + 1) es ++ (record { ts = e.ts; title = e.title; index = i } ∷ [])

unfoldable pub list : Archive → List Summary
list a = summaries 0 a.index

unfoldable pub get : Archive → ℕ → Option Entry
get a idx = get_elem? a.index idx

abbrev pub last : List Entry → Option Entry
last [] = none
last (e ∷ []) = some e
last (e ∷ f ∷ es) = last (f ∷ es)

unfoldable pub latest : Archive → Option Entry
latest a = last a.index

unfoldable pub len : Archive → ℕ
len a = length a.index

-- serde_json, with the text of a list of entries and what a text parses to.
module _ (to_string : List Entry → String) (from_str : String → Option (List Entry)) where
  -- `content` is what the file holds, if it exists and can be read.
  unfoldable pub open_dir : Option String → Archive
  open_dir none = record { index = []; file = none }
  open_dir (some text) = record { index = parsed (from_str text); file = some text }

  -- `now` is the clock in milliseconds, and `writes` tells if the file can be written.
  unfoldable pub store : Archive → ℕ → Bool → String → String → Archive
  store a now writes title html =
      let entry : Entry = record { ts = now; title = title; html = html } in
      let index = evict max_entries a.index ++ (entry ∷ []) in
      record { index = index; file = if writes then some (to_string index) else a.file }

  -- Entries stored in a row; each comes with whether the file could be written.
  abbrev pub store_all : Archive → List (Entry × Bool) → Archive
  store_all a [] = a
  store_all a ((e, writes) ∷ es) = store_all (store a e.ts writes e.title e.html) es

  abbrev pub entries : List (Entry × Bool) → List Entry
  entries es = map (λ e. e.0) es

  store_all-index :
      (a : Archive) (past : List Entry) (es : List (Entry × Bool))
      → a.index ≡ newest max_entries past
      → (store_all a es).index ≡ newest max_entries (past ++ entries es)
  unfolding store
  store_all-index a past [] h = h ∙ ap (newest max_entries) (sym (append-nil past))
  store_all-index a past ((e, writes) ∷ es) h =
      let now = store a e.ts writes e.title e.html in
      let kept : now.index ≡ newest max_entries (past ++ (e ∷ [])) =
        ap (λ l. evict max_entries l ++ (e ∷ [])) h ∙ evict-newest 999 past e in
      store_all-index now (past ++ (e ∷ [])) es kept
      ∙ ap (newest max_entries) (append_assoc past (e ∷ []) (entries es))

  -- Whatever is stored in a new archive, the index then holds the newest 1000 entries in the order
  -- in which they came, also when the file could not be written.
  pub store_all-newest :
      (es : List (Entry × Bool))
      → (store_all (open_dir none) es).index ≡ newest max_entries (entries es)
  unfolding open_dir
  store_all-newest es = store_all-index (record { index = []; file = none }) [] es refl

  -- An archive that is opened again, after a store whose file was written, has the index that it
  -- had, if the entries that were printed are parsed back.
  pub open_dir-store :
      (a : Archive) (now : ℕ) (title html : String)
      → from_str (to_string (store a now true title html).index)
        ≡ some (store a now true title html).index
      → open_dir (store a now true title html).file ≡ store a now true title html
  unfolding open_dir store
  open_dir-store a now title html h =
      ap
        (λ o. record {
          index = parsed o;
          file = some (to_string (store a now true title html).index);
        })
        h
