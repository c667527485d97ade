-- ===== src/Maintenance/Kept.antt =====
-- Publishing keeps the inbox well formed.
use seele_shell.Prelude.{
  List, String, Option, ◌≡◌, Entries, get, some, Bool, adjust, length, true, Entries-imp, ℕ, ◌≤◌,
  Option-cases, insert, string_key, Entries-remove_other, inl, arith, none, get-insert, inr,
  Entries-insert, ◌<◌, eq_iff, ◌^◌, refl, contains_key-get, subst, All, sym, get-adjust,
  contains_key, ◌⊎◌, length-insert, insert-IsDistinct,
}
use seele_shell.Maintenance.Model.{Text, Row, Finding, Registry, id_of, max_items}
use seele_shell.Maintenance.Inbox.{Inbox}
use seele_shell.Maintenance.Publish.{put_diagnostic, Signed, cleaned, renew, refusal, signed}
use seele_shell.Maintenance.Invariant.{is_open, IsFiled, is_action, WellFormed}
use seele_shell.Maintenance.Keeps.{IsBase, length-clean, refusal-known, known_actions, old-IsBase}
use seele_shell.Maintenance.Publishing.{IsOld, done}

unfoldable pub Described : List (String × Row) → String → Text → Type 0
Described items id d = (is_open (get id items) ≡ true) × (length d ≤ 16384)

put_diagnostic-Described :
    (id : String) (row : Row) (d : Option Text) (items : List (String × Row))
    (m : List (String × Text))
    → row.resolved ≡ 0
    → ((t : Text) → d ≡ some t → length t ≤ 16384)
    → Entries (Described items) m
    → Entries (Described (insert id row items)) (put_diagnostic id d m)
unfolding put_diagnostic Described
put_diagnostic-Described id row none items m open_ small h =
    Entries-remove_other (Described items) (Described (insert id row items)) id m
      (λ k t ne g. (ground (arith, get-insert id k row items, g.0), g.1)) h
put_diagnostic-Described id row (some d) items m open_ small h =
    Entries-insert (Described (insert id row items)) id d m
      (ground (arith, get-insert id id row items, eq_iff id id), small d refl)
      (Entries-imp (Described items) (Described (insert id row items))
        (λ k t g. (ground (arith, get-insert id k row items, g.0), g.1)) m h)

pub adjusted_open :
    (id k : String) (f : Row → Row) (items : List (String × Row))
    → ((row : Row) → (f row).resolved ≡ row.resolved)
    → is_open (get k items) ≡ true
    → is_open (get k (adjust id f items)) ≡ true
adjusted_open id k f items same o = elim (Option-cases (get k items)) [
  | inl n ↦ absurd (ground (arith, n))
  | inr (row, at) ↦ ground (arith, at, get-adjust id k f items, same row)
]

pub adjust-Described :
    (id : String) (f : Row → Row) (items : List (String × Row)) (m : List (String × Text))
    → ((row : Row) → (f row).resolved ≡ row.resolved)
    → Entries (Described items) m
    → Entries (Described (adjust id f items)) m
unfolding Described
adjust-Described id f items m same h =
    Entries-imp _ _ (λ k t g. (adjusted_open id k f items same g.0, g.1)) m h

inserted_bounded :
    (id : String) (row : Row) (items : List (String × Row))
    → length items ≤ max_items
    → (contains_key id items ≡ true) ⊎ (length items < max_items)
    → length (insert id row items) ≤ max_items
inserted_bounded id row items h k = ground (arith, length-insert id row items)

module _ (secrets : Text → Text) (digest : Signed → String) where
  cleaned-diagnostic :
      (f : Finding) (t : Text) → (cleaned secrets digest f).diagnostic ≡ some t → length t ≤ 16384
  unfolding cleaned
  cleaned-diagnostic f t e = elim (Option-cases f.diagnostic) [
    | inl n ↦ absurd (ground (arith, n))
    | inr (d, at) ↦ ground (arith, at, length-clean secrets 16384 d)
  ]

  renew-IsFiled :
      (source : String) (registry : Registry) (finding : Finding) (changed : Bool) (n r now : ℕ)
      (old : Row) (s : Inbox)
      → get source s.registrations ≡ some registry
      → refusal registry finding ≡ none
      → IsBase s.registrations source finding.key old
      → n < 2 ^ 64
      → r < 2 ^ 64
      → IsFiled s.registrations (id_of source finding.key) (
          renew
            (cleaned secrets digest finding)
            (digest (signed (cleaned secrets digest finding)))
            changed
            n
            r
            now
            old)
  unfolding renew cleaned
  renew-IsFiled source registry finding changed n r now old s at accepted base fn fr =
      let (valid, known) = refusal-known registry finding accepted in
      record {
        named = base.named;
        spelled = ground (arith, base.source_kept, base.key_kept);
        key_valid = ground (arith, base.key_kept, valid);
        registered = ground (arith, base.source_kept, contains_key-get source s.registrations, at);
        actions_known =
            subst (λ x. All (λ a. is_action s.registrations x a ≡ true) finding.actions)
              (sym base.source_kept)
              (known_actions s.registrations source registry finding.actions at known);
        title_bounded = length-clean secrets 160 finding.title;
        explanation_bounded = length-clean secrets 500 finding.explanation;
        details_bounded = length-clean secrets 2000 finding.details;
        outcomes_bounded = base.outcomes_bounded;
        revision_bounded = fr;
        recurrence_bounded = fn;
      }

  old_room :
      (source : String) (f : Finding) (now : ℕ) (s : Inbox) (old : Row) (changed : Bool)
      → IsOld secrets digest source f now s old changed
      → (contains_key (id_of source f.key) s.items ≡ true) ⊎ (length s.items < max_items)
  old_room source f now s old changed (inl (at, _)) =
      inl (ground (arith, contains_key-get (id_of source f.key) s.items, at))
  old_room source f now s old changed (inr (_, room, _, _)) = inr room

  pub done-WellFormed :
      (source : String) (registry : Registry) (finding : Finding) (changed : Bool) (n r now : ℕ)
      (old : Row) (s : Inbox)
      → WellFormed s
      → get source s.registrations ≡ some registry
      → refusal registry finding ≡ none
      → IsOld secrets digest source (cleaned secrets digest finding) now s old changed
      → n < 2 ^ 64
      → r < 2 ^ 64
      → WellFormed
          (done secrets digest source (cleaned secrets digest finding) now s old changed n r).0
  unfolding cleaned renew Described
  done-WellFormed source registry finding changed n r now old s h at accepted from fn fr =
      let f = cleaned secrets digest finding in
      let id = id_of source f.key in
      let row = renew f (digest (signed f)) changed n r now old in
      let known : contains_key source s.registrations ≡ true =
        ground (arith, contains_key-get source s.registrations, at) in
      let base = old-IsBase secrets digest source f now s old changed h known from in
      record {
        plain = h.plain;
        filed =
            Entries-insert (IsFiled s.registrations) id row s.items
              (renew-IsFiled source registry finding changed n r now old s at accepted base fn fr)
              h.filed;
        distinct = insert-IsDistinct id row s.items h.distinct;
        bounded =
            inserted_bounded id row s.items h.bounded (old_room source f now s old changed from);
        described =
            put_diagnostic-Described id row f.diagnostic s.items s.diagnostics refl
              (cleaned-diagnostic finding) h.described;
      }

  -- The counters of the row that is renewed.
  pub old_bounded :
      {registry : Registry} (source : String) (f : Finding) (now : ℕ) (s : Inbox) (old : Row)
      (changed : Bool)
      → WellFormed s
      → get source s.registrations ≡ some registry
      → IsOld secrets digest source (cleaned secrets digest f) now s old changed
      → (old.recurrence < 2 ^ 64) × (old.revision < 2 ^ 64)
  old_bounded source f now s old changed h at from =
      let base =
        old-IsBase secrets digest source (cleaned secrets digest f) now s old changed h
          (ground (arith, contains_key-get source s.registrations, at)) from in
      (base.recurrence_bounded, base.revision_bounded)
