-- ===== src/Tools/Battery.antt =====
-- projects/tools/src/battery_alert.rs: warnings about batteries that run low, one for a crossing.
use seele_shell.Prelude.{
  chars_key, Bool, Chars, List, Option, ℕ, String, [], false, if◌then◌else◌, leb, none, not, some,
  take, ◌||◌, ◌∷◌, insert, ltb, remove, retain, ◌&&◌, ◌++◌, ◌==◌, contains_key, chars_eq, get,
  length, str_eq, true, ◌*◌,
}
pub mod Cleaning
pub mod Memory
pub mod Warnings
mod Tests
use seele_shell.Decimal.{show}
use seele_shell.Json.{Value, as_str, index, as_u64, codes}

abbrev low : ℕ
low = 15

abbrev critical_percent : ℕ
critical_percent = 5

abbrev recovered : ℕ
recovered = 25

abbrev pub max_devices : ℕ
max_devices = 64

pub data Level : Type 0 where
  is_low is_critical : Level

-- The derived order, and `level as u8`.
abbrev pub level_rank : Level → ℕ
level_rank is_low = 1
level_rank is_critical = 2

pub record Alert : Type 0 where
  pub name : Chars
  pub percent : ℕ
  pub level : Level
  pub icon : Chars

abbrev pub alert_title : Level → Chars
alert_title is_low = codes "Battery low"
alert_title is_critical = codes "Battery almost empty"

abbrev pub urgency_name : Level → Chars
urgency_name is_low = codes "normal"
urgency_name is_critical = codes "critical"

-- The arguments of `notify-send`; 0xb7 is the dot between the name and the percentage.
unfoldable pub arguments : Alert → List Chars
arguments a =
    codes "--app-name=Battery"
    ∷ (codes "--icon=" ++ (if chars_eq a.icon [] then codes "battery-caution" else a.icon))
    ∷ (codes "--urgency=" ++ urgency_name a.level)
    ∷ codes "--"
    ∷ alert_title a.level
    ∷ (a.name ++ b' ' ∷ 0xb7 ∷ b' ' ∷ show a.percent ++ b'%' ∷ [])
    ∷ []

-- `char::is_control`, the bidirectional marks, and `char::is_whitespace`.
unfoldable pub is_shown : ℕ → Bool
is_shown c =
    not (ltb c 32 || (leb 127 c && leb c 159))
    && not ((leb 0x202a c && leb c 0x202e) || (leb 0x2066 c && leb c 0x2069))

unfoldable pub is_space : ℕ → Bool
is_space c =
    (leb 9 c && leb c 13)
    || c == 32
    || c == 0x85
    || c == 0xa0
    || c == 0x1680
    || (leb 0x2000 c && leb c 0x200a)
    || c == 0x2028
    || c == 0x2029
    || c == 0x202f
    || c == 0x205f
    || c == 0x3000

-- `trim` is `trim_end` after `trim_start`.
unfoldable pub trim_start : Chars → Chars
trim_start [] = []
trim_start (c ∷ cs) = let rest = trim_start cs in if is_space c then rest else c ∷ cs

abbrev pub push_front : ℕ → Chars → Chars
push_front c [] = if is_space c then [] else c ∷ []
push_front c (d ∷ ds) = c ∷ d ∷ ds

unfoldable pub trim_end : Chars → Chars
trim_end [] = []
trim_end (c ∷ cs) = push_front c (trim_end cs)

unfoldable pub clean : ℕ → Chars → Chars
clean limit cs = trim_end (trim_start (take limit (retain is_shown cs)))

-- `battery[key].as_str().unwrap_or("")`
unfoldable pub field_text : Value → String → Chars
field_text battery key = elim (as_str (index battery key)) [ none ↦ [] | some s ↦ codes s ]

abbrev pub Announced : Type 0
Announced = List (Chars × Level)

-- A reading that counts: its key, name, percentage, and whether the device charges.
pub record Reading : Type 0 where
  pub key : Chars
  pub name : Chars
  pub percent : ℕ
  pub charging : Bool

unfoldable pub read : Value → Option Reading
read battery =
    let name = clean 64 (field_text battery "name") in
    let status = as_str (index battery "status") in
    elim (as_u64 (index battery "percent")) [
      | none ↦ none
      | some percent ↦
          if not (leb 1 percent && leb percent 100) || chars_eq name []
          then none
          else some (record {
            key = clean 16 (field_text battery "kind") ++ b':' ∷ name;
            name = name;
            percent = percent;
            charging = elim status [
              | none ↦ false
              | some s ↦ str_eq s "Charging" || str_eq s "Full"
            ];
          })
    ]

abbrev pub has_recovered : Reading → Bool
has_recovered r = r.charging || leb recovered r.percent

unfoldable pub level_of : ℕ → Option Level
level_of percent =
    if leb percent critical_percent
    then some is_critical
    else (if leb percent low then some is_low else none)

abbrev pub rank_of : Option Level → ℕ
rank_of none = 0
rank_of (some l) = level_rank l

-- What one reading does: the memory, the alert, and whether the memory changed.
unfoldable pub note_reading : Value → Reading → Announced → (Announced × Option Alert) × Bool
note_reading battery r m =
    if has_recovered r
    then ((remove r.key m, none), contains_key r.key m)
    else (elim (level_of r.percent) [
      | none ↦ ((m, none), false)
      | some level ↦
          if leb (level_rank level) (rank_of (get r.key m))
            || (not (contains_key r.key m) && leb max_devices (length m))
          then ((m, none), false)
          else (
            (
              insert r.key level m,
              some (record {
                name = r.name;
                percent = r.percent;
                level = level;
                icon = clean 64 (field_text battery "icon");
              }),
            ),
            true,
          )
    ])

unfoldable pub observe_one : Value → Announced → (Announced × Option Alert) × Bool
observe_one battery m = elim (read battery) [
  | none ↦ ((m, none), false)
  | some r ↦ note_reading battery r m
]

abbrev pub alert_list : Option Alert → List Alert
alert_list none = []
alert_list (some a) = a ∷ []

unfoldable pub observe_all : List Value → Announced → (Announced × List Alert) × Bool
observe_all [] m = ((m, []), false)
observe_all (b ∷ bs) m =
    let ((next, alert), changed) = observe_one b m in
    let ((last, alerts), more) = observe_all bs next in
    ((last, alert_list alert ++ alerts), changed || more)

unfoldable pub observe : List Value → Announced → (Announced × List Alert) × Bool
observe batteries m = observe_all (take max_devices batteries) m

-- The stored object: each key with its number, `none` if it is none.
abbrev pub Entry : Type 0
Entry = Chars × Option ℕ

unfoldable pub level_number : Option ℕ → Option Level
level_number none = none
level_number (some n) = if n == 1 then some is_low else (if n == 2 then some is_critical else none)

unfoldable pub collect_levels : List Entry → Announced → Announced
collect_levels [] m = m
collect_levels ((key, number) ∷ es) m = elim (level_number number) [
  | none ↦ collect_levels es m
  | some level ↦ collect_levels es (insert (clean 160 key) level m)
]

abbrev pub state_limit : ℕ
state_limit = 16 * 1024

-- `Watch::load`, from the length of the file in bytes and the entries that it decodes to.
unfoldable pub load : ℕ → List Entry → Announced
load bytes entries =
    if ltb state_limit bytes then [] else collect_levels (take max_devices entries) []

-- `Watch::save`
unfoldable pub save : Announced → List Entry
save [] = []
save ((key, level) ∷ m) = (key, some (level_rank level)) ∷ save m
