-- ===== src/Tools/Battery/Warnings.antt =====
-- How often the watch of projects/tools/src/battery_alert.rs warns about one device.
use seele_shell.Prelude.{
  chars_key, Chars, Option, List, ℕ, ◌≤◌, All, Bool, ◌≡◌, arith, chars_eq, false, option_cases,
  some, take, ◌∷◌, All-append, if_cases, none, subst, ◌&&◌, ◌+◌, ◌↔◌, [], get, if◌then◌else◌,
  Option-cases, leb, length, get-remove, inl, inr, ◌||◌, not, contains_key, Bool-cases, get-insert,
  chars_eq_iff,
}
use seele_shell.Tools.Battery.{
  Alert, level_of, note_reading, observe, observe_all, observe_one, Level, Announced, Reading,
  rank_of, alert_list, is_critical, read, max_devices, has_recovered, is_low, level_rank,
}
use seele_shell.Tools.Battery.Memory.{OnSome, Proper, read-Proper}
use seele_shell.Json.{Value}
use seele_shell.Tools.Battery.Cleaning.{Good, All-take, clean-Good}

-- What a warning says: the level of its percentage, which is low, of a device with a name.
pub record Fair (a : Alert) : Type 0 where
  pub discharged : (1 ≤ a.percent) × (a.percent ≤ 15)
  pub graded : (a.level ≡ is_critical) ↔ (a.percent ≤ 5)
  pub titled : Good 64 a.name
  pub pictured : Good 64 a.icon

level_of-Fair : (p : ℕ) (l : Level) → level_of p ≡ some l → (p ≤ 15) × ((l ≡ is_critical) ↔ (p ≤ 5))
unfolding level_of
level_of-Fair p is_low e = ground arith
level_of-Fair p is_critical e = ground arith

note_reading-Fair :
    (battery : Value) (r : Reading) (m : Announced)
    → Proper r
    → OnSome Fair (note_reading battery r m).0.1
unfolding note_reading
note_reading-Fair battery r m p =
    let Says : (Announced × Option Alert) × Bool → Type 0 = λ x. OnSome Fair x.0.1 in
    if_cases Says (has_recovered r) _ _ (λ _. tt)
      λ _.
        option_cases Says (level_of r.percent) _ _ (λ _. tt)
          λ l e.
            if_cases Says
              (leb (level_rank l) (rank_of (get r.key m))
                || (not (contains_key r.key m) && leb max_devices (length m)))
              _ _ (λ _. tt)
              λ _.
                let (small, grade) = level_of-Fair r.percent l e in
                record {
                  discharged = (p.positive, small);
                  graded = grade;
                  titled = p.named;
                  pictured = clean-Good 64 _;
                }

observe_one-Fair : (battery : Value) (m : Announced) → OnSome Fair (observe_one battery m).0.1
unfolding observe_one
observe_one-Fair battery m =
    option_cases (λ (x : (Announced × Option Alert) × Bool). OnSome Fair x.0.1) (read battery) _ _
      (λ _. tt) λ r e. note_reading-Fair battery r m (subst (OnSome Proper) e (read-Proper battery))

All-alert_list : (o : Option Alert) → OnSome Fair o → All Fair (alert_list o)
All-alert_list none h = tt
All-alert_list (some a) h = (h, tt)

observe_all-Fair : (batteries : List Value) (m : Announced) → All Fair (observe_all batteries m).0.1
unfolding observe_all
observe_all-Fair [] m = tt
observe_all-Fair (b ∷ bs) m =
    All-append Fair (alert_list (observe_one b m).0.1) _ (All-alert_list _ (observe_one-Fair b m))
      (observe_all-Fair bs (observe_one b m).0.0)

-- Every warning of a pass is fair: its device was read at 1 to 15 percent, its level is critical
-- exactly at 5 percent or less, and its name and icon are cleaned texts of at most 64 characters.
pub observe-Fair : (batteries : List Value) (m : Announced) → All Fair (observe batteries m).0.1
unfolding observe
observe-Fair batteries m = observe_all-Fair (take max_devices batteries) m

-- Whether the battery is read as the device `k` and has recovered.
unfoldable pub rearms : Chars → Value → Bool
rearms k battery = elim (read battery) [
  | none ↦ false
  | some r ↦ chars_eq r.key k && has_recovered r
]

-- The warnings that one battery raises for the device `k`.
unfoldable pub raised : Chars → Value → Announced → ℕ
raised k battery m = elim (read battery) [
  | none ↦ 0
  | some r ↦ if chars_eq r.key k then length (alert_list (note_reading battery r m).0.1) else 0
]

unfoldable pub raised_all : Chars → List Value → Announced → ℕ
raised_all k [] m = 0
raised_all k (b ∷ bs) m = raised k b m + raised_all k bs (observe_one b m).0.0

-- The warnings for the device `k` in a history of passes.
unfoldable pub warnings : Chars → List (List Value) → Announced → ℕ
warnings k [] m = 0
warnings k (p ∷ ps) m = raised_all k (take max_devices p) m + warnings k ps (observe p m).0.0

note_reading-rise :
    (k : Chars) (battery : Value) (r : Reading) (m : Announced)
    → (chars_eq r.key k && has_recovered r) ≡ false
    → (if chars_eq r.key k then length (alert_list (note_reading battery r m).0.1) else 0)
        + rank_of (get k m)
      ≤ rank_of (get k (note_reading battery r m).0.0)
unfolding note_reading
note_reading-rise k battery r m h =
    let Rises : (Announced × Option Alert) × Bool → Type 0 = λ x.
      (if chars_eq r.key k then length (alert_list x.0.1) else 0) + rank_of (get k m)
      ≤ rank_of (get k x.0.0) in
    if_cases Rises (has_recovered r) _ _ (λ e. ground (arith, get-remove r.key k m))
      λ _.
        option_cases Rises (level_of r.percent) _ _ (λ _. ground arith)
          λ l _.
            if_cases Rises
              (leb (level_rank l) (rank_of (get r.key m))
                || (not (contains_key r.key m) && leb max_devices (length m)))
              _ _ (λ _. ground arith)
              λ e. elim (Bool-cases (chars_eq r.key k)) [
                | inl t ↦ rw t (
                    rw (get-insert r.key k l m) (
                      rw t (
                        subst (λ j. 1 + rank_of (get j m) ≤ level_rank l)
                          ((chars_eq_iff r.key k).0 t) (ground (arith, e)))))
                | inr t ↦ rw t (rw (get-insert r.key k l m) (rw t (omega arith)))
              ]

observe_one-rise :
    (k : Chars) (b : Value) (m : Announced)
    → rearms k b ≡ false
    → raised k b m + rank_of (get k m) ≤ rank_of (get k (observe_one b m).0.0)
unfolding observe_one raised rearms
observe_one-rise k b m h = elim (Option-cases (read b)) [
  | inl e ↦ rw (e, raised, observe_one, rank_of) (omega arith)
  | inr (r, e) ↦
      rw (e, raised, observe_one, rank_of) (note_reading-rise k b r m (rw (e, rearms) at h))
]

observe_all-rise :
    (k : Chars) (bs : List Value) (m : Announced)
    → All (λ b. rearms k b ≡ false) bs
    → raised_all k bs m + rank_of (get k m) ≤ rank_of (get k (observe_all bs m).0.0)
unfolding observe_all raised_all
observe_all-rise k [] m h = omega arith
observe_all-rise k (b ∷ bs) m h =
    omega (arith, observe_one-rise k b m h.0, observe_all-rise k bs (observe_one b m).0.0 h.1)

rank_bound : (o : Option Level) → rank_of o ≤ 2
rank_bound none = omega arith
rank_bound (some is_low) = omega arith
rank_bound (some is_critical) = omega arith

-- In any history of passes in which no battery is read as the device `k` recovered, the watch warns
-- about `k` at most twice, less the level it remembers for `k` at the start.
pub warnings_bound :
    (k : Chars) (passes : List (List Value)) (m : Announced)
    → All (All (λ b. rearms k b ≡ false)) passes
    → warnings k passes m + rank_of (get k m) ≤ 2
unfolding warnings observe
warnings_bound k [] m h = omega (arith, rank_bound (get k m))
warnings_bound k (p ∷ ps) m h = omega (
  arith,
  observe_all-rise k (take max_devices p) m (All-take _ max_devices p h.0),
  warnings_bound k ps (observe p m).0.0 h.1,
)
