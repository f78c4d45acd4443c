-- ===== src/Memory/Labels.antt =====
-- What the entries of a line begin with.
use b.Prelude.{
  ℕ, ◌≡◌, refl, Bool, true, false, List, [], ◌∷◌, ◌++◌, Option, none, some, ◌>>=◌, if◌then◌else◌,
  Text, starts_with, starts_with-append, same, chars, not, ◌||◌, is_empty, trim, Option-cases, inl,
  inr,
}
use b.Memory.Filters.{
  unwrap_or, should_skip_content, is_compaction, Json, message_role, get_queue_content,
}
use b.Memory.Render.{
  Request, label, entry, voice, bash, searches, touches, tool_use, text_item, tool_result,
  item_entries, items_entries, queue_entries, content_entries, message_entries, line_entries,
  limited_content, short_id, str_or, speaker, flat, talks, ts_prefix,
}

-- What holds of all entries.
pub data Every (P : Text → Type 0) : List Text → Type 0 where
  nil : Every P []
  cons : {e : Text} {es : List Text} → P e → Every P es → Every P (e ∷ es)

-- What holds of all entries, where none is missing but for the reason `F`.
pub data OnSome (F : Type 0) (P : Text → Type 0) : Option (List Text) → Type 0 where
  failed : F → OnSome F P none
  result : {es : List Text} → Every P es → OnSome F P (some es)

pub OnSome-returns :
    {F : Type 0} {P : Text → Type 0} {o : Option (List Text)}
    → ¬ F
    → OnSome F P o
    → (es : List Text) × (o ≡ some es) × Every P es
OnSome-returns n (failed f) = absurd (n f)
OnSome-returns n (result {es} h) = (es, refl, h)

Every-if :
    {P : Text → Type 0} (b : Bool) {xs ys : List Text}
    → Every P xs
    → Every P ys
    → Every P (if b then xs else ys)
Every-if true hx hy = hx
Every-if false hx hy = hy

OnSome-if :
    {F : Type 0} {P : Text → Type 0} (b : Bool) {o r : Option (List Text)}
    → OnSome F P o
    → OnSome F P r
    → OnSome F P (if b then o else r)
OnSome-if true ho hr = ho
OnSome-if false ho hr = hr

OnSome-given :
    {F : Type 0} {P : Text → Type 0} (b : Bool) {o r : Option (List Text)}
    → (b ≡ true → OnSome F P o)
    → OnSome F P r
    → OnSome F P (if b then o else r)
OnSome-given true ho hr = ho refl
OnSome-given false ho hr = hr

Every-append :
    {P : Text → Type 0} {xs ys : List Text} → Every P xs → Every P ys → Every P (xs ++ ys)
Every-append nil hy = hy
Every-append (cons p hx) hy = cons p (Every-append hx hy)

pub OnSome-append :
    {F : Type 0} {P : Text → Type 0} {o r : Option (List Text)}
    → OnSome F P o
    → OnSome F P r
    → OnSome F P (o >>= (λ out. r >>= (λ rest. some (out ++ rest))))
OnSome-append (failed f) hr = failed f
OnSome-append (result h) (failed f) = failed f
OnSome-append (result h) (result g) = result (Every-append h g)

OnSome-bind {ℓ} :
    {A : Type ℓ} {F : Type 0} {P : Text → Type 0} (o : Option A) {f : A → Option (List Text)}
    → F
    → ((a : A) → OnSome F P (f a))
    → OnSome F P (o >>= f)
OnSome-bind none r h = failed r
OnSome-bind (some a) r h = h a

-- An entry is one of these.
pub data IsIn (e : Text) : List Text → Type 0 where
  here : {es : List Text} → IsIn e (e ∷ es)
  later : {d : Text} {es : List Text} → IsIn e es → IsIn e (d ∷ es)

-- An entry is among those that a line has.
abbrev pub IsOf : Option (List Text) → Text → Type 0
IsOf o e = (es : List Text) × (o ≡ some es) × IsIn e es

Every-IsIn : {P : Text → Type 0} {es : List Text} → Every P es → Every (λ e. P e × IsIn e es) es
Every-IsIn nil = nil
Every-IsIn (cons p h) = cons (p, here) (still_in (Every-IsIn h))
  where
    still_in :
        {P : Text → Type 0} {d : Text} {es fs : List Text}
        → Every (λ e. P e × IsIn e es) fs
        → Every (λ e. P e × IsIn e (d ∷ es)) fs
    still_in nil = nil
    still_in (cons (p, i) h) = cons (p, later i) (still_in h)

Every-IsOf :
    {P : Text → Type 0} {es fs : List Text} {o : Option (List Text)}
    → o ≡ some es
    → Every (λ e. P e × IsIn e es) fs
    → Every (λ e. P e × IsOf o e) fs
Every-IsOf same nil = nil
Every-IsOf {es = es} same (cons (p, i) h) = cons (p, (es, same, i)) (Every-IsOf same h)

-- Each entry is one of the entries.
pub OnSome-IsOf :
    {F : Type 0} {P : Text → Type 0} {o : Option (List Text)}
    → OnSome F P o
    → OnSome F (λ e. P e × IsOf o e) o
OnSome-IsOf (failed f) = failed f
OnSome-IsOf (result h) = result (Every-IsOf refl (Every-IsIn h))

abbrev pub HasLabel : ℕ → Text → Type 0
HasLabel n e = starts_with e (label n) ≡ true

module _ {V : Type 0} (x : Json V) (q : Request) (n : ℕ) where
  abbrev pub IsAll : Type 0
  IsAll = same q.record_type (chars "all") ≡ true

  one : (ts body : Text) → Every (HasLabel n) (entry n ts body ∷ [])
  one ts body = cons (starts_with-append (label n) (ts ++ body)) nil

  voice-HasLabel : (ts name : Text) (v : V) → Every (HasLabel n) (voice x q n ts name v)
  unfolding voice
  voice-HasLabel ts name v = Every-if _ (one ts _) nil

  bash-HasLabel : (ts name : Text) (v : V) → Every (HasLabel n) (bash x q n ts name v)
  unfolding bash
  bash-HasLabel ts name v = Every-if _ (one ts _) nil

  searches-HasLabel :
      (program tool ts name : Text) (v : V)
      → Every (HasLabel n) (searches x q program tool n ts name v)
  unfolding searches
  searches-HasLabel program tool ts name v =
      Every-if _ (Every-if _ (one ts _) nil) (Every-if _ (one ts _) nil)

  touches-HasLabel :
      (tool ts name : Text) (v : V) → Every (HasLabel n) (touches x q tool n ts name v)
  unfolding touches
  touches-HasLabel tool ts name v = Every-if _ (one ts _) nil

  tool_use-HasLabel : (ts : Text) (item : V) → Every (HasLabel n) (tool_use x q n ts item)
  unfolding tool_use
  tool_use-HasLabel ts item =
      let name = str_or x q item (chars "name") [] in
      let input = unwrap_or (x.get item (chars "input")) x.empty_object in
      let is = λ (t : Text). same q.record_type t in
      Every-if (is (chars "conversation")) (voice-HasLabel ts name input) (
        Every-if _ (one ts _) (
          Every-if (is (chars "bash")) (bash-HasLabel ts name input) (
            Every-if (is (chars "grep"))
              (searches-HasLabel (chars "grep") (chars "Grep") ts name input)
              (Every-if (is (chars "find"))
                (searches-HasLabel (chars "find") (chars "Glob") ts name input)
                (Every-if (is (chars "write")) (touches-HasLabel (chars "Write") ts name input) (
                  Every-if (is (chars "read")) (touches-HasLabel (chars "Read") ts name input)
                    nil))))))

  text_item-HasLabel :
      (ts role : Text) (item : V) → Every (HasLabel n) (text_item x q n ts role item)
  unfolding text_item
  text_item-HasLabel ts role item =
      let t = str_or x q item (chars "text") [] in
      let said = speaker x q role ++ (chars ": " ++ flat t) in
      Every-if (not (talks x q)) nil (
        Every-if (is_empty t || is_empty (trim t)) nil (
          Every-if (should_skip_content t) nil (
            cons (starts_with-append (label n) (ts ++ said))
              (Every-if (is_compaction t) (one ts (chars "COMPACTION")) nil))))

  tool_result-HasLabel :
      (ts : Text) (item : V) → OnSome IsAll (HasLabel n) (tool_result x q n ts item)
  unfolding tool_result
  tool_result-HasLabel ts item =
      OnSome-given (same q.record_type (chars "all"))
        (λ all.
          OnSome-bind (limited_content q.tool_result_limit _) all
            (λ shown. OnSome-bind (short_id _) all (λ short. result (one ts _))))
        (result nil)

  item_entries-HasLabel :
      (ts role : Text) (item : V) → OnSome IsAll (HasLabel n) (item_entries x q n ts role item)
  unfolding item_entries
  item_entries-HasLabel ts role item = OnSome-if _ (result (tool_use-HasLabel ts item)) (
      OnSome-if _ (result (text_item-HasLabel ts role item))
        (OnSome-if _ (tool_result-HasLabel ts item) (result nil)))

  items_entries-HasLabel :
      (ts role : Text) (items : List V)
      → OnSome IsAll (HasLabel n) (items_entries x q n ts role items)
  unfolding items_entries
  items_entries-HasLabel ts role [] = result nil
  items_entries-HasLabel ts role (i ∷ is) =
      OnSome-append (item_entries-HasLabel ts role i) (items_entries-HasLabel ts role is)

  queue_entries-HasLabel : (v : V) → Every (HasLabel n) (queue_entries x q n v)
  unfolding queue_entries
  queue_entries-HasLabel v = elim (Option-cases (get_queue_content x v)) [
    | inl e ↦ rw (e, queue_entries) nil
    | inr (content, e) ↦ rw (e, queue_entries) (Every-if _ (one (ts_prefix x q v) _) nil)
  ]

  content_entries-HasLabel :
      (ts role : Text) (content : V)
      → OnSome IsAll (HasLabel n) (content_entries x q n ts role content)
  unfolding content_entries
  content_entries-HasLabel ts role content = elim (Option-cases (x.as_str content)) [
    | inr (text, e) ↦ rw (e, content_entries) (result (Every-if _ (one ts _) nil))
    | inl e ↦ elim (Option-cases (x.as_array content)) [
      | inl n ↦ rw (e, n, content_entries) (result nil)
      | inr (items, f) ↦ rw (e, f, content_entries) (items_entries-HasLabel ts role items)
    ]
  ]

  message_entries-HasLabel : (v : V) → OnSome IsAll (HasLabel n) (message_entries x q n v)
  unfolding message_entries
  message_entries-HasLabel v = elim (Option-cases (message_role x v)) [
    | inl e ↦ rw (e, message_entries) (result nil)
    | inr (role, e) ↦
        elim (Option-cases (x.get v (chars "message") >>= (λ m. x.get m (chars "content")))) [
          | inl f ↦ rw (e, f, message_entries) (result nil)
          | inr (content, f) ↦
              rw (e, f, message_entries) (content_entries-HasLabel (ts_prefix x q v) role content)
        ]
  ]

  pub line_entries-HasLabel : (line : Text) → OnSome IsAll (HasLabel n) (line_entries x q n line)
  unfolding line_entries
  line_entries-HasLabel line = elim (Option-cases (x.from_str line)) [
    | inl e ↦ rw (e, line_entries) (OnSome-if _ (result nil) (result nil))
    | inr (v, e) ↦
        rw (e, line_entries)
          (OnSome-if _ (result nil)
            (OnSome-if _ (result (queue_entries-HasLabel v)) (message_entries-HasLabel v)))
  ]
