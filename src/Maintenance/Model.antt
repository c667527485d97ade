-- ===== src/Maintenance/Model.antt =====
-- projects/maintenance/src/model.rs: the data of the inbox. Free text is its list of code points,
-- and a time is a natural number of seconds, where 0 stands for "never".
use seele_shell.Prelude.{
  Bool, List, String, ℕ, Option, if◌then◌else◌, insert, leb, not, str_eq, take, true, ◌*◌, ◌∷◌, [],
  false, length, ltb, retain, ◌&&◌, ◌==◌, ◌||◌, all, any, string_key,
}
use Prim.Native.String.{◌++◌ as str_append}
use seele_shell.Json.{Value, bool, codes, index}

pub data Failure : Type 0 where
  unregistered_source invalid_finding diagnostic_too_large capacity revision_limit : Failure
  stale_finding publisher_owned_condition invalid_duration invalid_operation : Failure
  state_capacity state_unavailable : Failure
  invalid_request closing busy check_failed invalid_publisher_result : Failure
  duplicate_publisher_key unregistered_action confirmation_required no_diagnostic : Failure
  operation_failed : Failure

pub data Result {ℓ} (A : Type ℓ) : Type ℓ where
  ok : A → Result A
  err : Failure → Result A

abbrev pub Text : Type 0
Text = List ℕ

abbrev pub week : ℕ
week = 7 * 86400

abbrev pub max_items : ℕ
max_items = 4096

abbrev pub sources : List String
sources = "systemd" ∷ "backups" ∷ "disk" ∷ "flake" ∷ "certificates" ∷ "inputs" ∷ "restart" ∷ []

pub data Urgency : Type 0 where
  now_ soon eventually informational : Urgency

-- The derived order.
abbrev pub urgency_rank : Urgency → ℕ
urgency_rank now_ = 0
urgency_rank soon = 1
urgency_rank eventually = 2
urgency_rank informational = 3

pub data Lifecycle : Type 0 where
  ongoing notice : Lifecycle

abbrev pub is_notice : Lifecycle → Bool
is_notice notice = true
is_notice ongoing = false

pub record Finding : Type 0 where
  pub key : String
  pub title : Text
  pub explanation : Text
  pub details : Text
  pub urgency : Urgency
  pub lifecycle : Lifecycle
  pub actions : List String
  pub diagnostic : Option Text

pub record Outcome : Type 0 where
  pub action : String
  pub at : ℕ
  pub result : Text
  pub revision : Option ℕ

pub record Row : Type 0 where
  pub id : String
  pub source : String
  pub key : String
  pub title : Text
  pub explanation : Text
  pub details : Text
  pub urgency : Urgency
  pub lifecycle : Lifecycle
  pub actions : List String
  pub first_seen : ℕ
  pub updated : ℕ
  pub revision : ℕ  -- u64
  pub recurrence : ℕ  -- u64
  pub snoozed_until : ℕ
  pub resolved : ℕ
  pub outcomes : List Outcome
  pub fingerprint : String
  pub busy : String

pub record Action : Type 0 where
  pub label : String
  pub disruptive : Bool

abbrev pub Registry : Type 0
Registry = List (String × Action)

abbrev is_log_source : String → Bool
is_log_source source = str_eq source "systemd" || str_eq source "backups"

-- The actions of a source.
unfoldable pub source_actions : String → Registry
source_actions source =
    let recheck = insert "recheck" (record { label = "Recheck"; disruptive = false }) [] in
    let logs =
      if is_log_source source
      then insert "open-logs" (record { label = "Open logs"; disruptive = false }) recheck
      else recheck in
    let retry =
      if str_eq source "backups"
      then insert "retry" (record { label = "Retry backup"; disruptive = true }) logs
      else logs in
    if str_eq source "restart"
    then insert "open-power" (record { label = "Open Power"; disruptive = false }) retry
    else retry

abbrev pub is_disabled : Value → Bool
is_disabled (bool false) = true
is_disabled _ = false

unfoldable pub collect : Value → List String → List (String × Registry)
collect config [] = []
collect config (source ∷ rest) =
    let others = collect config rest in
    if is_disabled (index (index config source) "enabled")
    then others
    else insert source (source_actions source) others

unfoldable pub registrations : Value → List (String × Registry)
registrations config = collect config sources

unfoldable pub is_key_char : ℕ → Bool
is_key_char c =
    (leb b'A' c && leb c b'Z')
    || (leb b'a' c && leb c b'z')
    || (leb b'0' c && leb c b'9')
    || any (λ d. c == d) (codes "_.:@/-")

-- The expression of `KEY`.
unfoldable pub valid_key : String → Bool
unfolding is_key_char
valid_key key = let cs = codes key in leb 1 (length cs) && leb (length cs) 200 && all is_key_char cs

-- `format!("{source}:{key}")`
unfoldable pub id_of : String → String → String
id_of source key = str_append source (str_append ":" key)

-- `seele_runtime::redact::visible`
unfoldable pub visible : ℕ → Bool
visible c = not (
    (c == 0x61c)
    || (leb 0x200b c && leb c 0x200f)
    || (leb 0x202a c && leb c 0x202e)
    || (leb 0x2060 c && leb c 0x206f)
    || (c == 0xfeff))

-- `!c.is_control() || c == '\n'`
unfoldable pub is_text : ℕ → Bool
is_text c = not (ltb c 0x20 || (leb 0x7f c && leb c 0x9f)) || c == 10

module _ (secrets : Text → Text) where
  unfoldable pub clean : ℕ → Text → Text
  clean limit value = take limit (retain (λ c. is_text c && visible c) (secrets value))
