-- ===== src/Tools/Battery/Tests.antt =====
-- Examples for the watch of projects/tools/src/battery_alert.rs: a mouse that runs down.
use seele_shell.Prelude.{
  chars_key, All, Chars, List, String, get, [], some, ◌+◌, ◌∷◌, ◌≡◌, ◌≤◌, false, insert, refl,
  if◌then◌else◌, ℕ, leb, ◌*◌, length, none,
}
use seele_shell.Json.{Value, codes, object, field, null, string, number, end}
use seele_shell.Tools.Battery.Memory.{Sound, run, watch-Sound, saved_memory}
use seele_shell.Tools.Battery.Warnings.{
  rearms, warnings, Fair, raised_all, raised, observe-Fair, warnings_bound,
}
use seele_shell.Tools.Battery.{
  Entry, load, read, clean, observe, save, field_text, observe_all, rank_of, is_space, observe_one,
  is_shown, note_reading, trim_start, trim_end, level_of,
}

abbrev mouse : String → Value
mouse percent = object (
    field "kind" (string "mouse") (
      field "name" (string "MX")
        (field "percent" (number percent) (field "status" (string "Discharging") end))))

abbrev mouse_key : Chars
mouse_key = codes "mouse:MX"

abbrev stored : List Entry
stored = (codes "system:BAT0", some 2) ∷ (codes "odd", some 7) ∷ []

abbrev passes : List (List Value)
passes = (mouse "12" ∷ []) ∷ (mouse "14" ∷ []) ∷ (mouse "4" ∷ null ∷ []) ∷ []

warned_twice : warnings mouse_key passes [] ≡ 2
unfolding warnings raised_all raised observe observe_all observe_one read note_reading clean
    field_text is_space is_shown trim_start trim_end level_of insert
warned_twice = refl

watch-Sound_example : Sound (run passes (load 30 stored))
watch-Sound_example = watch-Sound 30 stored passes

-- A file of twenty bytes for each entry.
abbrev twenty_each : List Entry → ℕ
twenty_each entries = 20 * length entries

saved_memory_example :
    get mouse_key
      (load (twenty_each (save (run passes (load 30 stored)))) (save (run passes (load 30 stored))))
    ≡ (if leb (twenty_each (save (run passes (load 30 stored)))) (16 * 1024)
        then get mouse_key (run passes (load 30 stored))
        else none)
saved_memory_example = saved_memory twenty_each 30 stored passes mouse_key

observe-Fair_example : All Fair (observe (mouse "12" ∷ null ∷ []) []).0.1
observe-Fair_example = observe-Fair (mouse "12" ∷ null ∷ []) []

never_rearmed : All (All (λ b. rearms mouse_key b ≡ false)) passes
unfolding rearms read clean field_text is_space is_shown trim_start trim_end
never_rearmed = ((refl, tt), ((refl, tt), ((refl, (refl, tt)), tt)))

warnings_bound_example : warnings mouse_key passes [] + rank_of (get mouse_key []) ≤ 2
warnings_bound_example = warnings_bound mouse_key passes [] never_rearmed
