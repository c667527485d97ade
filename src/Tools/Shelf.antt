-- ===== src/Tools/Shelf.antt =====
-- projects/tools/src/shelf.rs: the temporary shelf, its items and the private texts it stores.
pub mod Items
pub mod Branches
pub mod Keeping
pub mod Ownership
pub mod Collected
pub mod Histories
mod Tests
use seele_shell.Prelude.{
  chars_key, Bool, Chars, List, Option, String, [], none, not, true, ℕ, any, chars_eq, count, false,
  if◌then◌else◌, ltb, retain, some, starts_with, take, ◌+◌, ◌||◌, ◌∷◌, leb, ◌%◌, ◌&&◌, ◌++◌, ◌==◌,
  length, remove, str_eq, text_len, ◌^◌, insert,
}
use seele_shell.Decimal.{parse_int}
use seele_shell.Json.{Value, as_array, as_str, as_bool, codes, index, digits_value}

abbrev pub max_items : ℕ
max_items = 64

abbrev pub max_text : ℕ
max_text = 65536

abbrev pub max_texts : ℕ
max_texts = 16

pub record Item : Type 0 where
  pub id : ℕ
  pub path : Chars
  pub text : Bool
  pub selected : Bool
  pub caption : Chars

-- `files` are the private files under `root` at their own names.
pub record Shelf : Type 0 where
  pub items : List Item
  pub serial : ℕ
  pub files : List (Chars × Chars)

abbrev pub new : Shelf
new = record { items = []; serial = 0; files = [] }

-- What `Url::parse` and the methods of its value answer.
pub record Url : Type 0 where
  pub scheme : Chars
  pub host_str : Option Chars
  pub file_path : Option Chars

-- What `wl-paste` ends with: whether it succeeded, and its output where that is UTF-8.
pub record Output : Type 0 where
  pub success : Bool
  pub stdout : Option Chars

-- How `atomic_write_new` ends: the file is there; it is not; or the call fails after the file was
-- linked to its name, as when its directory cannot be synced. Its temporary file is left out: the
-- private files are those that stand under the name of a text.
pub data Writing : Type 0 where
  written unwritten left_behind : Writing

-- The libraries and the file system, as one operation finds them.
pub record Host : Type 0 where
  pub parse_url : Chars → Option Url
  pub canonicalize : Chars → Option Chars
  pub is_utf8 : Chars → Bool
  pub is_file : Chars → Bool
  pub capture : Option Output
  pub text_path : ℕ → Chars
  pub writes : Chars → Chars → Writing
  pub removes : Chars → Bool

pub data Checked {ℓ} (A : Type ℓ) : Type ℓ where
  refused : String → Checked A
  passed : A → Checked A

unfoldable pub is_hidden : ℕ → Bool
is_hidden c =
    ltb c 32
    || (leb 127 c && leb c 159)
    || (leb 0x200b c && leb c 0x200f)
    || (leb 0x202a c && leb c 0x202e)
    || (leb 0x2066 c && leb c 0x2069)
    || c == 0xfeff

unfoldable pub label : Chars → Chars
label text = take 120 (retain (λ c. not (is_hidden c)) text)

abbrev pub starts_newline : Chars → Bool
starts_newline [] = false
starts_newline (c ∷ cs) = c == 10

-- `text.lines().next().unwrap_or("")`
unfoldable pub first_line : Chars → Chars
first_line [] = []
first_line (c ∷ cs) =
    let rest = first_line cs in if c == 10 || (c == 13 && starts_newline cs) then [] else c ∷ rest

abbrev pub is_absolute : Chars → Bool
is_absolute path = starts_with (b'/' ∷ []) path

abbrev pub is_foreign : Url → Bool
is_foreign url = not (chars_eq url.scheme (codes "file")) || elim url.host_str [
  | none ↦ false
  | some h ↦ not (chars_eq h []) && not (chars_eq h (codes "localhost"))
]

unfoldable pub local_path : Host → Chars → Checked Chars
local_path host text =
    if starts_with (codes "file:") text
    then elim (host.parse_url text) [
      | none ↦ refused "Use local files only"
      | some url ↦
          if is_foreign url
          then refused "Use local files only"
          else elim url.file_path [ none ↦ refused "Invalid local file" | some path ↦ passed path ]
    ]
    else passed text

unfoldable pub regular_file : Host → Chars → Checked Chars
regular_file host path =
    if not (is_absolute path)
    then refused "Use absolute local file paths"
    else (elim (host.canonicalize path) [
      | none ↦ refused "A collected file is unavailable"
      | some real ↦
          if not (host.is_utf8 real)
          then refused "Use UTF-8 local file paths"
          else (if not (host.is_file real)
              then refused "The shelf collects regular files only"
              else passed real)
    ])

unfoldable pub reference : Host → Value → Checked Chars
reference host value = elim (as_str value) [
  | none ↦ refused "Invalid file reference"
  | some s ↦
      if not (leb (text_len (codes s)) 4096)
      then refused "Invalid file reference"
      else (elim (local_path host (codes s)) [
        | refused e ↦ refused e
        | passed path ↦ regular_file host path
      ])
]

abbrev pub has_path : Chars → List Item → Bool
has_path path items = any (λ i. chars_eq i.path path) items

-- `if !incoming.contains(&path) { incoming.push(path) }`
abbrev pub push_new : Chars → List Chars → List Chars
push_new path incoming = if any (chars_eq path) incoming then incoming else incoming ++ path ∷ []

unfoldable pub gather : Host → List Value → List Chars → Checked (List Chars)
gather host [] incoming = passed incoming
gather host (v ∷ vs) incoming = elim (reference host v) [
  | refused e ↦ refused e
  | passed path ↦ gather host vs (push_new path incoming)
]

unfoldable pub additional : List Chars → List Item → ℕ
additional incoming items = count (λ path. not (has_path path items)) incoming

abbrev pub select_item : Item → Item
select_item i = record i { selected = true }

abbrev pub toggle_item : Item → Item
toggle_item i = record i { selected = not i.selected }

-- The first item that passes the test is changed.
abbrev pub change_first : (Item → Bool) → (Item → Item) → List Item → List Item
change_first p f [] = []
change_first p f (i ∷ is) = if p i then f i ∷ is else i ∷ change_first p f is

-- `self.serial += 1`
abbrev pub next_serial : Shelf → ℕ
next_serial s = (s.serial + 1) % 2 ^ 64

unfoldable pub add_file : Chars → Shelf → Shelf
add_file path s =
    if has_path path s.items
    then record s { items = change_first (λ i. chars_eq i.path path) select_item s.items }
    else record s {
      serial = next_serial s;
      items =
          s.items
          ++ record { id = next_serial s; path = path; text = false; selected = true; caption = [] }
            ∷ [];
    }

unfoldable pub add_files : List Chars → Shelf → Shelf
add_files [] s = s
add_files (p ∷ ps) s = add_files ps (add_file p s)

-- What an operation leaves, with the message of its error.
abbrev pub Ended : Type 0
Ended = Shelf × Option String

unfoldable pub collect_files : Host → Value → Shelf → Ended
collect_files host value s = elim (as_array (index value "paths")) [
  | none ↦ (s, some "Choose one to 64 files")
  | some values ↦
      if not (leb 1 (length values) && leb (length values) max_items)
      then (s, some "Choose one to 64 files")
      else (elim (gather host values []) [
        | refused e ↦ (s, some e)
        | passed incoming ↦
            if ltb max_items (length s.items + additional incoming s.items)
            then (s, some "The shelf holds up to 64 items")
            else (add_files incoming s, none)
      ])
]

unfoldable pub store_text : Host → Chars → Shelf → Shelf
store_text host text s = record {
  serial = next_serial s;
  files = insert (host.text_path (next_serial s)) text s.files;
  items =
      s.items
      ++ record {
        id = next_serial s;
        path = host.text_path (next_serial s);
        text = true;
        selected = true;
        caption = label (first_line text);
      }
        ∷ [];
}

-- A file that belongs to no item.
unfoldable pub leave_text : Host → Chars → Shelf → Shelf
leave_text host text s = record s {
  serial = next_serial s;
  files = insert (host.text_path (next_serial s)) text s.files;
}

-- The serial is used up even if the file is not written, and a failed write may leave the file.
unfoldable pub collect_text : Host → Chars → Shelf → Ended
collect_text host text s =
    if chars_eq text [] || ltb max_text (text_len text)
    then (s, some "Text must fit in 64 KiB")
    else (if leb max_items (length s.items) || leb max_texts (count (λ i. i.text) s.items)
        then (s, some "The shelf holds up to 16 text snippets and 64 items")
        else (elim (host.writes (host.text_path (next_serial s)) text) [
          | written ↦ (store_text host text s, none)
          | unwritten ↦ (record s { serial = next_serial s }, some "Could not collect text")
          | left_behind ↦ (leave_text host text s, some "Could not collect text")
        ]))

unfoldable pub collect_clipboard : Host → Shelf → Ended
collect_clipboard host s = elim host.capture [
  | none ↦ (s, some "Clipboard text is unavailable or too large")
  | some output ↦
      if not output.success
      then (s, some "Clipboard text is unavailable")
      else (elim output.stdout [
        | none ↦ (s, some "Clipboard is not text")
        | some text ↦ collect_text host text s
      ])
]

-- `text.parse::<u64>()`
abbrev pub parse_id : Chars → Option ℕ
parse_id text = parse_int (2 ^ 64) text

unfoldable pub select : Value → Shelf → Ended
select value s = elim (as_str (index value "id")) [
  | none ↦ (s, some "Invalid shelf item")
  | some text ↦ elim (parse_id (codes text)) [
    | none ↦ (s, some "Invalid shelf item")
    | some id ↦
        if any (λ i. i.id == id) s.items
        then (record s { items = change_first (λ i. i.id == id) toggle_item s.items }, none)
        else (s, some "Shelf item no longer exists")
  ]
]

-- The test of the value stands in the loop, so an empty shelf does not make it.
abbrev pub set_all : Option Bool → List Item → List Item × Option String
set_all selected [] = ([], none)
set_all none (i ∷ is) = (i ∷ is, some "Invalid selection")
set_all (some b) (i ∷ is) =
    let (rest, error) = set_all (some b) is in (record i { selected = b } ∷ rest, error)

unfoldable pub select_all : Value → Shelf → Ended
select_all value s =
    let (items, error) = set_all (as_bool (index value "selected")) s.items in
    (record s { items = items }, error)

abbrev pub drops : Bool → Item → Bool
drops clear i = clear || i.selected

unfoldable pub drop_file : Host → Item → List (Chars × Chars) → List (Chars × Chars)
drop_file host i files = if i.text && host.removes i.path then remove i.path files else files

unfoldable pub drop_files : Host → Bool → List Item → List (Chars × Chars) → List (Chars × Chars)
drop_files host clear [] files = files
drop_files host clear (i ∷ is) files =
    drop_files host clear is (if drops clear i then drop_file host i files else files)

unfoldable pub remove_items : Host → Bool → Shelf → Ended
remove_items host clear s = (
  record s {
    items = retain (λ i. not (drops clear i)) s.items;
    files = drop_files host clear s.items s.files;
  },
  none,
)

pub data Operation : Type 0 where
  status_op files_op text_op clipboard_op select_op all_op remove_op clear_op unknown_op : Operation

unfoldable pub parse_operation : Value → Operation
parse_operation value = elim (as_str (index value "op")) [
  | none ↦ unknown_op
  | some s ↦
      if str_eq s "status"
      then status_op
      else (if str_eq s "files"
          then files_op
          else (if str_eq s "text"
              then text_op
              else (if str_eq s "clipboard"
                  then clipboard_op
                  else (if str_eq s "select"
                      then select_op
                      else (if str_eq s "all"
                          then all_op
                          else (if str_eq s "remove"
                              then remove_op
                              else (if str_eq s "clear" then clear_op else unknown_op)))))))
]

unfoldable pub apply_operation : Operation → Host → Value → Shelf → Ended
apply_operation status_op host value s = (s, none)
apply_operation files_op host value s = collect_files host value s
apply_operation text_op host value s = elim (as_str (index value "text")) [
  | none ↦ (s, some "Text is required")
  | some t ↦ collect_text host (codes t) s
]
apply_operation clipboard_op host value s = collect_clipboard host s
apply_operation select_op host value s = select value s
apply_operation all_op host value s = select_all value s
apply_operation remove_op host value s = remove_items host false s
apply_operation clear_op host value s = remove_items host true s
apply_operation unknown_op host value s = (s, some "Unknown shelf action")

unfoldable pub apply : Host → Value → Shelf → Ended
apply host value s = apply_operation (parse_operation value) host value s
