-- ===== src/Daemon/Tests.antt =====
-- Tests of the archives.
use Prim.Native.String.{String}
use b.Prelude.{◌≡◌, refl, true, false, List, [], ◌∷◌, Option, none, some}
use b.Daemon.Eviction.{newest}
use b.Daemon.InfoArchive.{
  Entry, Archive, store, store_all, open_dir, store_all-newest, open_dir-store,
}
use b.Daemon.TtsArchive.{contains, audio_path, store-audio_path}
use b.Daemon.TtsArchive as Tts

abbrev entry : Entry
entry = record { ts = 3; title = "build"; html = "<p>done</p>" }

-- A printer and a parser that know one index.
abbrev to_string : List Entry → String
to_string es = "[build]"

abbrev from_str : String → Option (List Entry)
from_str text = some (entry ∷ [])

store_all-newest_example :
    (store_all to_string from_str
      (open_dir to_string from_str none)
      ((entry, true) ∷ (entry, false) ∷ [])).index
    ≡ newest 1000 (entry ∷ entry ∷ [])
store_all-newest_example = store_all-newest to_string from_str ((entry, true) ∷ (entry, false) ∷ [])

abbrev id_of : String → String
id_of id = id

abbrev empty : Tts.Archive String
empty = record { index = []; wavs = []; saved = none }

abbrev held : Tts.Archive String
held = record { index = "m1" ∷ []; wavs = ("m1", 1 ∷ 2 ∷ []) ∷ []; saved = none }

abbrev first : Archive
first = store to_string from_str (open_dir to_string from_str none) 3 true "build" "<p>done</p>"

open_dir-store_example : open_dir to_string from_str first.file ≡ first
unfolding open_dir store
open_dir-store_example =
    open_dir-store to_string from_str (open_dir to_string from_str none) 3 "build" "<p>done</p>"
      refl
