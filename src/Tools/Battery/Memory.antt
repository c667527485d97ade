-- ===== src/Tools/Battery/Memory.antt =====
-- What the watch of projects/tools/src/battery_alert.rs remembers, and what of it survives on disk.
use seele_shell.Prelude.{
  chars_key, Chars, Option, ℕ, IsDistinct, List, get, length, remove, some, ◌≤◌, Entries, arith,
  insert, none, option_cases, remove-IsDistinct, take, ◌∷◌, ◌≡◌, Bool, [], ap, insert-IsDistinct,
  length-remove-le, subst, ◌+◌, Entries-insert, Entries-remove, get-insert, if_cases, length-take,
  refl, suc, chars_eq_iff, length-insert, contains_key-get, not, leb, ◌&&◌, ◌||◌, chars_eq,
  contains_key, if◌then◌else◌, ltb, ◌*◌, Bool-cases, inl, inr, true,
}
use seele_shell.Tools.Battery.{
  Announced, Reading, collect_levels, level_number, load, note_reading, observe, observe_all,
  observe_one, read, save, Level, Alert, Entry, level_rank, max_devices, is_low, clean, field_text,
  has_recovered, is_critical, level_of, rank_of, is_space, is_shown, state_limit,
}
use seele_shell.Tools.Battery.Cleaning.{Good, Good-clean, clean-Good, join-Good, take-length}
use seele_shell.Json.{Value, as_u64, index}

pub record Sound (m : Announced) : Type 0 where
  pub distinct : IsDistinct m
  pub few : length m ≤ max_devices
  pub keys : Entries (λ k _. Good 160 k) m

-- What is known of a reading that counts.
pub record Proper (r : Reading) : Type 0 where
  pub good : Good 81 r.key
  pub named : Good 64 r.name
  pub positive : 1 ≤ r.percent
  pub bounded : r.percent ≤ 100

abbrev pub OnSome {ℓ} : {A : Type ℓ} → (A → Type 0) → Option A → Type 0
OnSome P none = Unit
OnSome P (some a) = P a

pub read-Proper : (battery : Value) → OnSome Proper (read battery)
unfolding read is_space is_shown
read-Proper battery =
    option_cases (OnSome Proper) (as_u64 (index battery "percent")) _ _ (λ _. tt)
      λ percent _.
        let name = clean 64 (field_text battery "name") in
        if_cases (OnSome Proper) (not (leb 1 percent && leb percent 100) || chars_eq name []) _ _
          (λ _. tt)
          λ e. record {
            good =
                join-Good 16 64 b':' (clean 16 (field_text battery "kind")) name refl refl
                  (clean-Good 16 _) (clean-Good 64 _);
            named = clean-Good 64 _;
            positive = ground arith;
            bounded = ground arith;
          }

weaken-Good : (n m : ℕ) (cs : Chars) → n ≤ m → Good n cs → Good m cs
weaken-Good n m cs l h = record {
  shown = h.shown;
  short = omega (arith, h.short, l);
  plain = h.plain;
  ended = h.ended;
}

remove-Sound : (k : Chars) (m : Announced) → Sound m → Sound (remove k m)
remove-Sound k m h = record {
  distinct = remove-IsDistinct k m h.distinct;
  few = omega (arith, length-remove-le k m, h.few);
  keys = Entries-remove _ k m h.keys;
}

insert-Sound :
    (k : Chars) (l : Level) (m : Announced)
    → Good 160 k
    → length (insert k l m) ≤ max_devices
    → Sound m
    → Sound (insert k l m)
insert-Sound k l m g few h = record {
  distinct = insert-IsDistinct k l m h.distinct;
  few = few;
  keys = Entries-insert _ k l m g h.keys;
}

note_reading-Sound :
    (battery : Value) (r : Reading) (m : Announced)
    → Proper r
    → Sound m
    → Sound (note_reading battery r m).0.0
unfolding note_reading
note_reading-Sound battery r m p h =
    let Keeps : (Announced × Option Alert) × Bool → Type 0 = λ x. Sound x.0.0 in
    if_cases Keeps (has_recovered r) _ _ (λ _. remove-Sound r.key m h)
      λ _.
        option_cases Keeps (level_of r.percent) _ _ (λ _. h)
          λ l _.
            if_cases Keeps
              (leb (level_rank l) (rank_of (get r.key m))
                || (not (contains_key r.key m) && leb max_devices (length m)))
              _ _ (λ _. h)
              λ e.
                insert-Sound r.key l m (weaken-Good 81 160 r.key (omega arith) p.good)
                  (ground (arith, length-insert r.key l m, h.few, e)) h

observe_one-Sound : (battery : Value) (m : Announced) → Sound m → Sound (observe_one battery m).0.0
unfolding observe_one
observe_one-Sound battery m h =
    option_cases (λ (x : (Announced × Option Alert) × Bool). Sound x.0.0) (read battery) _ _
      (λ _. h)
      λ r e. note_reading-Sound battery r m (subst (OnSome Proper) e (read-Proper battery)) h

observe_all-Sound :
    (batteries : List Value) (m : Announced) → Sound m → Sound (observe_all batteries m).0.0
unfolding observe_all
observe_all-Sound [] m h = h
observe_all-Sound (b ∷ bs) m h =
    observe_all-Sound bs (observe_one b m).0.0 (observe_one-Sound b m h)

-- A pass over the batteries keeps the memory sound: distinct keys, at most 64 of them, and each as
-- `clean 160` leaves it.
pub observe-Sound :
    (batteries : List Value) (m : Announced) → Sound m → Sound (observe batteries m).0.0
unfolding observe
observe-Sound batteries m h = observe_all-Sound (take max_devices batteries) m h

collect_levels-Sound :
    (es : List Entry) (m : Announced)
    → length m + length es ≤ max_devices
    → Sound m
    → Sound (collect_levels es m)
unfolding collect_levels
collect_levels-Sound [] m n h = h
collect_levels-Sound ((key, number) ∷ es) m n h =
    option_cases Sound (level_number number) _ _
      (λ _. collect_levels-Sound es m (omega (arith, n)) h)
      λ l _.
        let len : length (insert (clean 160 key) l m) ≤ suc (length m) =
          ground (arith, length-insert (clean 160 key) l m) in
        collect_levels-Sound es (insert (clean 160 key) l m) (omega (arith, len, n))
          (insert-Sound (clean 160 key) l m (clean-Good 160 key) (omega (arith, len, n)) h)

-- Whatever entries the file decodes to, the memory loaded from them is sound.
pub load-Sound : (bytes : ℕ) (entries : List Entry) → Sound (load bytes entries)
unfolding load
load-Sound bytes entries =
    let none_said : Sound [] = record { distinct = tt; few = omega arith; keys = tt } in
    if_cases Sound (ltb state_limit bytes) _ _ (λ _. none_said)
      λ _.
        collect_levels-Sound (take max_devices entries) []
          (omega (arith, length-take max_devices entries)) none_said

level_number-rank : (l : Level) → level_number (some (level_rank l)) ≡ some l
unfolding level_number
level_number-rank is_low = refl
level_number-rank is_critical = refl

collect_levels_entry :
    (key : Chars) (l : Level) (es : List Entry) (m : Announced)
    → collect_levels ((key, some (level_rank l)) ∷ es) m
      ≡ collect_levels es (insert (clean 160 key) l m)
unfolding collect_levels level_number
collect_levels_entry key is_low es m = refl
collect_levels_entry key is_critical es m = refl

collect_levels-save :
    (k : Chars) (m acc : Announced)
    → IsDistinct m
    → Entries (λ j _. Good 160 j) m
    → get k (collect_levels (save m) acc) ≡ (elim (get k m) [ none ↦ get k acc | some l ↦ some l ])
unfolding collect_levels save
collect_levels-save k [] acc d g = refl
collect_levels-save k ((j, l) ∷ m) acc d g = rw (collect_levels_entry j l (save m) acc) (
    rw (Good-clean 160 j g.0) (
      rw (collect_levels-save k m (insert j l acc) d.1 g.1) (
        ground (
          arith,
          get-insert j k l acc,
          chars_eq_iff j k,
          contains_key-get j m,
          contains_key-get k m,
          d.0,
        ))))

length-save : (m : Announced) → length (save m) ≡ length m
unfolding save
length-save [] = refl
length-save ((j, l) ∷ m) = ap suc (length-save m)

-- What is saved of a sound memory loads back, if the file is not too long: every key has the level it
-- had. From a file that is too long nothing is loaded.
pub load-save :
    (k : Chars) (m : Announced) (bytes : ℕ)
    → Sound m
    → get k (load bytes (save m)) ≡ (if leb bytes state_limit then get k m else none)
unfolding load
load-save k m bytes h = elim (Bool-cases (ltb state_limit bytes)) [
  | inl e ↦ rw e (ground (arith, e))
  | inr e ↦
      let whole = take-length max_devices (save m) (omega (arith, length-save m, h.few)) in
      let fits : leb bytes state_limit ≡ true = ground (arith, e) in
      rw e (rw fits (rw whole (rw (collect_levels-save k m [] h.distinct h.keys) (ground arith))))
]

-- The memory after a history of passes.
unfoldable pub run : List (List Value) → Announced → Announced
run [] m = m
run (p ∷ ps) m = run ps (observe p m).0.0

run-Sound : (passes : List (List Value)) (m : Announced) → Sound m → Sound (run passes m)
unfolding run
run-Sound [] m h = h
run-Sound (p ∷ ps) m h = run-Sound ps (observe p m).0.0 (observe-Sound p m h)

-- However long the state file is and whatever entries it decodes to, the memory is sound after loading
-- it and any history of passes: its keys are distinct, there are at most 64, and `clean 160` leaves
-- each as it is.
pub watch-Sound :
    (bytes : ℕ) (entries : List Entry) (passes : List (List Value))
    → Sound (run passes (load bytes entries))
watch-Sound bytes entries passes = run-Sound passes (load bytes entries) (load-Sound bytes entries)

-- After loading any file and any history of passes, what `save` writes loads back if its JSON text,
-- whose length in bytes `json_len` gives, is not above 16 KiB: every key has the level that it had, and
-- a key that was absent is absent. From a longer text nothing is loaded.
pub saved_memory :
    (json_len : List Entry → ℕ) (bytes : ℕ) (entries : List Entry) (passes : List (List Value))
    (k : Chars)
    → get k (
        load
          (json_len (save (run passes (load bytes entries))))
          (save (run passes (load bytes entries))))
      ≡ (if leb (json_len (save (run passes (load bytes entries)))) (16 * 1024)
          then get k (run passes (load bytes entries))
          else none)
saved_memory json_len bytes entries passes k =
    load-save k (run passes (load bytes entries)) _ (watch-Sound bytes entries passes)
