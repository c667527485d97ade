-- ===== src/Tools/Shelf/Tests.antt =====
-- Examples for the shelf of projects/tools/src/shelf.rs: a file, a text, and a clearance.
use seele_shell.Prelude.{
  chars_key, All, List, String, ℕ, Chars, none, ◌*◌, ◌∷◌, ◌≡◌, [], length, some, refl, suc, true,
  arith, zero, text_len, utf8_width,
}
use seele_shell.Json.{Value, Fields, end, field, array, object, string, cons, nil}
use seele_shell.Tools.Shelf.{
  Host, apply, collect_files, parse_operation, apply_operation, gather, new, clear_op, reference,
  local_path, regular_file, additional, add_files, add_file, collect_text, store_text, leave_text,
  left_behind, written,
}
use seele_shell.Tools.Shelf.Ownership.{Owned}
use seele_shell.Tools.Shelf.Keeping.{Sound}
use seele_shell.Tools.Shelf.Histories.{
  run, history-Owned, refused_keeps, clear_empties, history-Sound, Cleans, KeepsFiles,
}
use seele_shell.Tools.Shelf.Collected.{Shelved, files-Shelved}

-- A desk with one directory; its texts are named by marks, one for each serial.
abbrev marks : ℕ → Chars
marks zero = []
marks (suc n) = b'I' ∷ marks n

abbrev desk : Host
desk = record {
  parse_url = λ _. none;
  canonicalize = λ path. some path;
  is_utf8 = λ _. true;
  is_file = λ _. true;
  capture = none;
  text_path = λ n. b'/' ∷ marks n;
  writes = λ _ _. written;
  removes = λ _. true;
}

abbrev op_of : String → Fields → Value
op_of name fields = object (field "op" (string name) fields)

abbrev files_message : Value
files_message =
    op_of "files" (field "paths" (array (cons (string "/a") (cons (string "/b") nil))) end)

abbrev text_message : Value
text_message = op_of "text" (field "text" (string "hello") end)

abbrev clear_message : Value
clear_message = op_of "clear" end

abbrev history : List (Host × Value)
history = (desk, files_message) ∷ (desk, text_message) ∷ []

three_items : length (run history new).items ≡ 3
unfolding run apply parse_operation apply_operation collect_files gather reference local_path
    regular_file additional add_files add_file collect_text store_text text_len utf8_width
three_items = refl

history-Sound_example : Sound (64 * length history) (run history new)
history-Sound_example = history-Sound history (omega arith)

desk-Cleans : Cleans desk
desk-Cleans = (λ _. refl, λ path text e. cc)

history-Owned_example : Owned (run history new)
history-Owned_example = history-Owned history (desk-Cleans, (desk-Cleans, tt))

clear_message-clears : parse_operation clear_message ≡ clear_op
unfolding parse_operation
clear_message-clears = refl

clear_empties_example :
    ((apply desk clear_message (run history new)).0.items ≡ [])
    × ((apply desk clear_message (run history new)).0.files ≡ [])
clear_empties_example =
    clear_empties history desk clear_message (desk-Cleans, (desk-Cleans, tt)) desk-Cleans
      clear_message-clears

-- A desk whose directory cannot be synced.
abbrev torn_desk : Host
torn_desk = record desk { writes = λ _ _. left_behind }

leaves_text : (apply torn_desk text_message new).1 ≡ some "Could not collect text"
unfolding apply parse_operation apply_operation collect_text leave_text text_len utf8_width
leaves_text = refl

refused_keeps_example :
    ((apply torn_desk text_message new).0.items ≡ new.items)
    × KeepsFiles torn_desk new (apply torn_desk text_message new).0
refused_keeps_example =
    refused_keeps torn_desk text_message new "Could not collect text" leaves_text

collects : (collect_files desk files_message new).1 ≡ none
unfolding collect_files gather reference local_path regular_file additional add_files add_file
    text_len utf8_width
collects = refl

files-Shelved_example :
    All
      (Shelved desk (collect_files desk files_message new).0.items)
      (string "/a" ∷ string "/b" ∷ [])
files-Shelved_example =
    files-Shelved desk files_message new (string "/a" ∷ string "/b" ∷ []) refl collects
