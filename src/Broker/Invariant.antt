-- ===== src/Broker/Invariant.antt =====
-- What holds of every job and of the shared state between two critical sections.
use seele_shell.Prelude.{
  pair_key, ℕ, ◌≤◌, ◌<◌, ◌≡◌, String, Bool, true, false, ◌&&◌, Option, none, some, List, ◌==◌,
  if◌then◌else◌, get, max, Entries, IsDistinct, string_key, adjust, adjust-IsDistinct,
  Entries-adjust,
}
use seele_shell.Json.{Value}
use seele_shell.Broker.Validation.{Request, bounded_instance}
use seele_shell.Broker.Job.{
  Job, Phase, superseded, Config, is_terminal, is_succeeded, is_failed, is_running, is_retrying,
  item_key,
}

abbrev pub is_present {ℓ} : {A : Type ℓ} → Option A → Bool
is_present none = false
is_present (some a) = true

abbrev pub is_superseded : Phase → Bool
is_superseded superseded = true
is_superseded _ = false

-- A result has passed the checks of its own request.
abbrev pub is_checked : Request → Option Value → Bool
is_checked r none = true
is_checked r (some v) = bounded_instance v && r.validator v

abbrev pub Revisions : Type 0
Revisions = List ((String × String) × ℕ)

abbrev pub is_watermark : ℕ → Option ℕ → Bool
is_watermark revision none = false
is_watermark revision (some r) = r == revision

-- A job that was not superseded carries the newest revision of its item.
unfoldable pub is_current : Revisions → Job → Bool
is_current revisions j = if is_superseded j.phase then true else elim (item_key j.request) [
  | none ↦ true
  | some (key, revision) ↦ is_watermark revision (get key revisions)
]

pub record IsSound (config : Config) (k : String) (j : Job) : Type 0 where
  pub keyed : j.id ≡ k
  pub stops : j.stopped ≡ is_terminal j.phase
  pub resulted : is_present j.result ≡ is_succeeded j.phase
  pub explained : is_present j.error ≡ is_failed j.phase
  pub checked : is_checked j.request j.result ≡ true
  pub promotion : j.promoted ≡ true → (is_running j.phase ≡ false) × (is_retrying j.phase ≡ false)
  pub transient_bounded : is_terminal j.phase ≡ false → j.transient ≤ 2
  pub invalid_bounded :
      is_terminal j.phase ≡ false → j.invalid_outputs < max 1 config.schema_attempts

-- Every job of the state is sound.
abbrev pub Jobs : Config → List (String × Job) → Type 0
Jobs config = Entries (IsSound config)

pub record Store (config : Config) (m : List (String × Job)) : Type 0 where
  pub distinct : IsDistinct m
  pub sound : Jobs config m

pub adjust-Store :
    (config : Config) (id : String) (f : Job → Job) (m : List (String × Job))
    → ((j : Job) → get id m ≡ some j → IsSound config id j → IsSound config id (f j))
    → Store config m
    → Store config (adjust id f m)
adjust-Store config id f m g h = record {
  distinct = adjust-IsDistinct id f m h.distinct;
  sound = Entries-adjust (IsSound config) id f m g h.sound;
}
