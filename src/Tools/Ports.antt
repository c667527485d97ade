-- ===== src/Tools/Ports.antt =====
-- projects/tools/src/ports/model.rs: what stopping a listener would act on, and the token of a review.
pub mod Tokens
pub mod Targets
pub mod Worker
pub mod Readings
pub mod Rows
pub mod Fitting
pub mod Stopping
pub mod Unlocking
pub mod Selection
mod Tests
use seele_shell.Prelude.{
  chars_key, Chars, List, Option, ℕ, Bool, [], chars_eq, first, if◌then◌else◌, ◌∷◌, false, leb,
  length, none, not, retain, some, suc, ◌^◌, ◌||◌, all, text_len, zero, ◌&&◌, ◌==◌,
}
use seele_shell.Decimal.{parse_int, show}
use seele_shell.Split.{join, split}
use seele_shell.Json.{codes}
use seele_shell.Prelude.Options.{◌>>=◌}

-- A listening socket of procfs.rs; `binding` and `id` are what its methods of that name write.
pub record Listener : Type 0 where
  pub binding : Chars
  pub id : Chars
  pub port : ℕ
  pub uid : ℕ
  pub inode : ℕ

-- The fields of a process that decide what is stopped.
pub record Process : Type 0 where
  pub pid : ℕ
  pub start : ℕ
  pub name : Chars
  pub uid : ℕ
  pub user : Chars
  pub scope : Chars
  pub service : Chars

pub record Row : Type 0 where
  pub listener : Listener
  pub owners : List Process

pub record Target : Type 0 where
  pub kind : Chars
  pub unit : Chars
  pub scope : Chars
  pub pid : ℕ
  pub start : ℕ
  pub uid : ℕ
  pub privileged : Bool
  pub name : Chars
  pub user : Chars
  pub reason : Chars

pub record Review : Type 0 where
  pub inode : ℕ
  pub binding : Chars
  pub port : ℕ
  pub target : Target

abbrev pub service_kind : Chars
service_kind = codes "service"

abbrev pub process_kind : Chars
process_kind = codes "process"

abbrev pub system_scope : Chars
system_scope = codes "system"

abbrev pub user_scope : Chars
user_scope = codes "user"

abbrev pub scope_of : Chars → Option Chars
scope_of value =
    if chars_eq value []
    then some []
    else (if chars_eq value system_scope
        then some system_scope
        else (if chars_eq value user_scope then some user_scope else none))

abbrev pub kind_of : Chars → Option Chars
kind_of value =
    if chars_eq value service_kind
    then some service_kind
    else (if chars_eq value process_kind then some process_kind else none)

abbrev pub is_alphanumeric : ℕ → Bool
is_alphanumeric c =
    (leb b'0' c && leb c b'9') || (leb b'A' c && leb c b'Z') || (leb b'a' c && leb c b'z')

abbrev pub is_unit_char : ℕ → Bool
is_unit_char c = is_alphanumeric c || c == b'@' || c == b'_' || c == b'.' || c == 0x5c || c == b'-'

unfoldable pub valid_unit : Chars → Bool
valid_unit [] = false
valid_unit (c ∷ cs) = leb (text_len (c ∷ cs)) 255 && is_alphanumeric c && all is_unit_char (c ∷ cs)

abbrev pub bar : ℕ
bar = b'|'

abbrev pub fields_of : Review → List Chars
fields_of r =
    codes "1"
    ∷ show r.inode
    ∷ r.binding
    ∷ show r.port
    ∷ r.target.kind
    ∷ r.target.unit
    ∷ r.target.scope
    ∷ show r.target.pid
    ∷ show r.target.start
    ∷ show r.target.uid
    ∷ []

unfoldable pub token : Review → Chars
token r = join bar (fields_of r)

-- `fields[n]`, of ten fields.
abbrev pub nth : ℕ → List Chars → Chars
nth n [] = []
nth zero (f ∷ fs) = f
nth (suc n) (f ∷ fs) = nth n fs

abbrev pub read_review : List Chars → Option Review
read_review fields = parse_int (2 ^ 64) (nth 1 fields) >>= λ inode.
    parse_int (2 ^ 16) (nth 3 fields) >>= λ port. kind_of (nth 4 fields) >>= λ kind.
    scope_of (nth 6 fields) >>= λ scope. parse_int (2 ^ 32) (nth 7 fields) >>= λ pid.
    parse_int (2 ^ 64) (nth 8 fields) >>= λ start. parse_int (2 ^ 32) (nth 9 fields) >>= λ uid.
    some (record {
      inode = inode;
      binding = nth 2 fields;
      port = port;
      target = record {
        kind = kind;
        unit = nth 5 fields;
        scope = scope;
        pid = pid;
        start = start;
        uid = uid;
        privileged = false;
        name = [];
        user = [];
        reason = [];
      };
    })

abbrev pub parse_list : List Chars → Option Review
parse_list fields =
    if not (length fields == 10) || not (chars_eq (nth 0 fields) (codes "1"))
    then none
    else (if not (chars_eq (nth 5 fields) []) && not (valid_unit (nth 5 fields))
        then none
        else read_review fields)

unfoldable pub parse : Chars → Option Review
parse text = parse_list (split bar text)

-- The owner that was selected, or the single one.
unfoldable pub owner : Row → ℕ → Option Process
owner row selected = elim (first (retain (λ o. o.pid == selected) row.owners)) [
  | some o ↦ some o
  | none ↦ if length row.owners == 1 then first row.owners else none
]

-- The service that all owners belong to, with its scope.
unfoldable pub service : Row → Option (Chars × Chars)
service row = elim (first row.owners) [
  | none ↦ none
  | some o ↦
      if chars_eq o.service []
      then none
      else (if all (λ p. chars_eq p.service o.service && chars_eq p.scope o.scope) row.owners
          then some (o.service, o.scope)
          else none)
]

-- `Target::default()` with a kind, a reason and a user id.
abbrev pub no_target : Chars → Chars → ℕ → Target
no_target kind reason uid = record {
  kind = kind;
  unit = [];
  scope = [];
  pid = 0;
  start = 0;
  uid = uid;
  privileged = false;
  name = [];
  user = [];
  reason = reason;
}

abbrev pub no_kind : Chars
no_kind = codes "none"

abbrev pub ambiguous : Chars
ambiguous = codes "ambiguous"

abbrev pub first_text : (Process → Chars) → Row → Chars
first_text f row = elim (first row.owners) [ none ↦ [] | some o ↦ f o ]

unfoldable pub service_target : Row → Chars → Chars → Target
service_target row unit scope = record {
  kind = service_kind;
  unit = unit;
  scope = scope;
  pid = 0;
  start = 0;
  uid = row.listener.uid;
  privileged = chars_eq scope system_scope;
  name = first_text (λ o. o.name) row;
  user = first_text (λ o. o.user) row;
  reason = [];
}

unfoldable pub process_target : Process → ℕ → Target
process_target o self_uid = record {
  kind = process_kind;
  unit = [];
  scope = [];
  pid = o.pid;
  start = o.start;
  uid = o.uid;
  privileged = not (o.uid == self_uid);
  name = o.name;
  user = o.user;
  reason = [];
}

unfoldable pub target : Row → ℕ → ℕ → Target
target row selected self_uid =
    if length row.owners == 0
    then no_target no_kind
        (if row.listener.uid == self_uid
          then codes "The owning process is no longer visible. Refresh to check again."
          else codes
              "Another user owns this listener. Identify its owner to see what stopping it would do.")
        row.listener.uid
    else (elim (service row) [
      | some (unit, scope) ↦ service_target row unit scope
      | none ↦ elim (owner row selected) [
        | none ↦
            no_target ambiguous
              (codes "Several processes share this socket. Choose the one to stop.")
              row.listener.uid
        | some o ↦ process_target o self_uid
      ]
    ])

unfoldable pub review : Row → ℕ → ℕ → Review
review row selected self_uid = record {
  inode = row.listener.inode;
  binding = row.listener.binding;
  port = row.listener.port;
  target = target row selected self_uid;
}
