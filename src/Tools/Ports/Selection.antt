-- ===== src/Tools/Ports/Selection.antt =====
-- projects/tools/src/ports/worker.rs: the owners that were selected, through scans and closings.
use seele_shell.Prelude.{
  chars_key, Chars, Entries, List, [], arith, ℕ, if◌then◌else◌, length-retain-le, ◌∷◌, ◌≡◌, Bool,
  if_cases, retain, true, ◌&&◌, Bool-cases, any, length, ltb, none, option_cases, some,
  Entries-insert, chars_eq, false, inl, insert, ◌≤◌, inr, length-insert, ◌==◌, Entries-remove, refl,
  remove, length-remove-le,
}
use seele_shell.Tools.Ports.{Row}
use seele_shell.Tools.Ports.Worker.{find_row}

abbrev pub max_selections : ℕ
max_selections = 256

pub record Panel : Type 0 where
  pub rows : List Row
  pub selection : List (Chars × ℕ)

abbrev pub fresh_panel : Panel
fresh_panel = record { rows = []; selection = [] }

abbrev pub is_live : List Row → Chars → Bool
is_live rows id = any (λ r. chars_eq r.listener.id id) rows

-- From the rows that the new scan has.
unfoldable pub rescan : List Row → Panel → Panel
rescan rows p = record { rows = rows; selection = retain (λ e. is_live rows e.0) p.selection }

abbrev pub is_known : Chars → ℕ → List Row → Bool
is_known id pid rows = elim (find_row rows id) [
  | none ↦ false
  | some row ↦ any (λ o. o.pid == pid) row.owners
]

unfoldable pub select : Chars → ℕ → Panel → Panel
select id pid p =
    if is_known id pid p.rows && ltb (length p.selection) max_selections
    then record p { selection = insert id pid p.selection }
    else (if pid == 0 then record p { selection = remove id p.selection } else p)

-- What touches the rows and the selection: a scan, a selection, and the closing of the panel.
pub data Event : Type 0 where
  scans : List Row → Event
  selects : Chars → ℕ → Event
  closes : Event

unfoldable pub handle : Event → Panel → Panel
handle (scans rows) p = rescan rows p
handle (selects id pid) p = select id pid p
handle closes p = fresh_panel

unfoldable pub handle_all : List Event → Panel → Panel
handle_all [] p = p
handle_all (e ∷ es) p = handle_all es (handle e p)

-- Every selected row is in the last scan, and there are at most 256.
pub record Live (p : Panel) : Type 0 where
  pub listed : Entries (λ id _. is_live p.rows id ≡ true) p.selection
  pub few : length p.selection ≤ max_selections

retain-Live :
    (rows : List Row) (m : List (Chars × ℕ))
    → Entries (λ id _. is_live rows id ≡ true) (retain (λ e. is_live rows e.0) m)
retain-Live rows [] = tt
retain-Live rows ((id, pid) ∷ m) = elim (Bool-cases (is_live rows id)) [
  | inl e ↦ rw e (e, retain-Live rows m)
  | inr e ↦ rw e (retain-Live rows m)
]

found-live :
    (id : Chars) (rows : List Row) (row : Row)
    → find_row rows id ≡ some row
    → is_live rows id ≡ true
found-live id [] row e = cc
found-live id (r ∷ rows) row e = elim (Bool-cases (chars_eq r.listener.id id)) [
  | inl t ↦ rw t refl
  | inr t ↦ rw t (found-live id rows row (rw t at e))
]

known-live :
    (id : Chars) (pid : ℕ) (rows : List Row) → is_known id pid rows ≡ true → is_live rows id ≡ true
known-live id pid rows =
    option_cases (λ b. b ≡ true → is_live rows id ≡ true) (find_row rows id) _ _ (λ _ n. cc)
      λ row e _. found-live id rows row e

handle-Live : (e : Event) (p : Panel) → Live p → Live (handle e p)
unfolding handle rescan select
handle-Live (scans rows) p h = record {
  listed = retain-Live rows p.selection;
  few = omega (arith, h.few, length-retain-le (λ e. is_live rows e.0) p.selection);
}
handle-Live (selects id pid) p h =
    if_cases Live (is_known id pid p.rows && ltb (length p.selection) max_selections) _ _
      (λ e. record {
        listed =
            Entries-insert _ id pid p.selection (known-live id pid p.rows (ground (arith, e)))
              h.listed;
        few = ground (arith, e, length-insert id pid p.selection);
      })
      λ _.
        if_cases Live (pid == 0) _ _
          (λ _. record {
            listed = Entries-remove _ id p.selection h.listed;
            few = omega (arith, h.few, length-remove-le id p.selection);
          })
          (λ _. h)
handle-Live closes p h = record { listed = tt; few = omega arith }

handle_all-Live : (es : List Event) (p : Panel) → Live p → Live (handle_all es p)
unfolding handle_all
handle_all-Live [] p h = h
handle_all-Live (e ∷ es) p h = handle_all-Live es (handle e p) (handle-Live e p h)

-- After any scans, selections and closings, every selected row is in the last scan, so that no later
-- socket inherits a selection from one that vanished before a scan, and at most 256 are selected.
pub panel-Live : (es : List Event) → Live (handle_all es fresh_panel)
panel-Live es = handle_all-Live es fresh_panel (record { listed = tt; few = omega arith })
