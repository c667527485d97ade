-- ===== src/Tools/Ports/Stopping.antt =====
-- What a stop of projects/tools/src/ports/worker.rs may do.
use seele_shell.Prelude.{
  chars_key, Chars, List, ℕ, ◌≡◌, All, Bool, [], arith, some, ◌∷◌, inl, some-injective, subst,
  if_cases, inr, sym, chars_eq, ◌∙◌, ap, chars_eq_iff, refl, Option, ◌&&◌, false, none, not,
  option_cases,
}
use seele_shell.Tools.Ports.{Row, review, Review, target, parse, token, Listener}
use seele_shell.Tools.Ports.Worker.{
  perform, Scene, Act, Performed, Stopped, conclude, has_token, revalidate, stop, find_listener,
  find_row, is_reviewed,
}
use seele_shell.Tools.Ports.Tokens.{decision, parse-token}
use seele_shell.Prelude.Options.{◌>>=◌}
use seele_shell.Tools.Ports.Rows.{PlausibleRow, IsStoppable, review-Reviewable}
use seele_shell.Tools.Ports.Fitting.{IsFit, perform-IsFit, IsFit-IsStoppable}
use seele_shell.Tools.Ports.Readings.{IsIn, found-IsIn, Same, reviewed-Same}

-- The token of a row that can be stopped parses to the decision of the review of that row.
pub parse-token_of_row :
    (row : Row) (selected self_uid : ℕ)
    → PlausibleRow row
    → IsStoppable (target row selected self_uid)
    → parse (token (review row selected self_uid)) ≡ some (decision (review row selected self_uid))
parse-token_of_row row selected self_uid h k =
    parse-token (review row selected self_uid) (review-Reviewable row selected self_uid h k)

-- Two rows that can be stopped have one token only if they have one decision: the same socket, and
-- the same service or process of the same user.
pub token_decides :
    (row other : Row) (selected another self_uid : ℕ)
    → PlausibleRow row
    → PlausibleRow other
    → IsStoppable (target row selected self_uid)
    → IsStoppable (target other another self_uid)
    → token (review row selected self_uid) ≡ token (review other another self_uid)
    → decision (review row selected self_uid) ≡ decision (review other another self_uid)
token_decides row other selected another self_uid h g k l e = some-injective _ _ (
    sym (parse-token_of_row row selected self_uid h k)
    ∙ ap parse e
    ∙ parse-token_of_row other another self_uid g l)

bind_some {ℓ κ} :
    {A : Type ℓ} {B : Type κ} (o : Option A) (f : A → Option B) (b : B)
    → (o >>= f) ≡ some b
    → (a : A) × (o ≡ some a) × (f a ≡ some b)
bind_some none f b e = cc
bind_some (some a) f b e = (a, refl, e)

-- A review that the fresh scan supports: the reviewed socket is among the listeners, and the review is
-- that of the row with the id of this listener.
pub record Fresh (scene : Scene) (reviewed current : Review) : Type 0 where
  pub listener : Listener
  pub seen : IsIn listener (scene.listeners 0)
  pub same : Same reviewed listener
  pub row : Row
  pub listed : IsIn row scene.rows
  pub named : row.listener.id ≡ listener.id
  pub is_current : current ≡ review row (scene.selected listener.id) scene.self_uid

pub revalidate-Fresh :
    (scene : Scene) (r current : Review) → revalidate scene r ≡ some current → Fresh scene r current
unfolding revalidate
revalidate-Fresh scene r current e =
    let (l, found, rest) = bind_some (find_listener (scene.listeners 0) r) _ current e in
    let (row, listed, same) = bind_some (find_row scene.rows l.id) _ current rest in
    let is_l = found-IsIn (is_reviewed r) l (scene.listeners 0) found in
    let is_row = found-IsIn (λ x. chars_eq x.listener.id l.id) row scene.rows listed in
    record {
      listener = l;
      seen = is_l.0;
      same = reviewed-Same r l is_l.1;
      row = row;
      listed = is_row.0;
      named = (chars_eq_iff row.listener.id l.id).0 is_row.1;
      is_current = sym (some-injective _ _ same);
    }

All-IsIn : {A : Type 0} (P : A → Type 0) (a : A) (xs : List A) → IsIn a xs → All P xs → P a
All-IsIn P a [] i h = absurd i
All-IsIn P a (x ∷ xs) (inl e) h = subst P e h.0
All-IsIn P a (x ∷ xs) (inr i) h = All-IsIn P a xs i h.1

Fresh-parse :
    (scene : Scene) (r current : Review)
    → All PlausibleRow scene.rows
    → Fresh scene r current
    → IsStoppable current.target
    → parse (token current) ≡ some (decision current)
unfolding review
Fresh-parse scene r current rows f k =
    subst (λ c. parse (token c) ≡ some (decision c)) (sym f.is_current)
      (parse-token_of_row f.row (scene.selected f.listener.id) scene.self_uid
        (All-IsIn PlausibleRow f.row scene.rows f.listed rows)
        (subst (λ (c : Review). IsStoppable c.target) f.is_current k))

-- The act of a stop with the token `text`: the review that the token parses to is the decision of a
-- review that the fresh scan supports, which has this token; the act is what `perform` asks for the
-- fresh target and fits it; a forced stop was unlocked.
pub record Confirmed (scene : Scene) (text : Chars) (force : Bool) (es : List Chars) (act : Act)
    : Type 0 where
  pub reviewed : Review
  pub parsed : parse text ≡ some reviewed
  pub current : Review
  pub fresh : Fresh scene reviewed current
  pub same : token current ≡ text
  pub agreed : decision current ≡ reviewed
  pub unlocked : (force && not (has_token text es)) ≡ false
  pub asked_for : (perform scene reviewed current.target force).0 ≡ some act
  pub fit : IsFit scene reviewed current.target act

act-conclude :
    (scene : Scene) (r : Review) (text : Chars) (force : Bool) (es : List Chars) (p : Performed)
    → (conclude scene r text force es p).1.act ≡ p.0
unfolding conclude
act-conclude scene r text force es (act, none) = refl
act-conclude scene r text force es (act, some e) = refl

confirm :
    (scene : Scene) (text : Chars) (force : Bool) (es : List Chars) (act : Act)
    → All PlausibleRow scene.rows
    → (r : Review) → parse text ≡ some r
    → (current : Review) → Fresh scene r current
    → (force && not (has_token text es)) ≡ false
    → token current ≡ text
    → (perform scene r current.target force).0 ≡ some act
    → Confirmed scene text force es act
confirm scene text force es act rows r parsed current fresh unlocked same asks =
    let fit = perform-IsFit scene r current.target force act asks in
    let again =
      Fresh-parse scene r current rows fresh (IsFit-IsStoppable scene r current.target act fit) in
    record {
      reviewed = r;
      parsed = parsed;
      current = current;
      fresh = fresh;
      same = same;
      agreed = some-injective _ _ (sym again ∙ ap parse same ∙ parsed);
      unlocked = unlocked;
      asked_for = asks;
      fit = fit;
    }

-- If a stop asks the system for an act, the token parses to a review whose socket is still bound; the
-- row that the fresh scan has for this socket gives the same token and the same decision; the act is
-- the one for the fresh target, with the privilege that this target needs; a signal goes only to
-- the process that still has the start time, the user and the socket; and a stop is forced only if
-- its token was unlocked before. The rows are as the reading of /proc gives them.
pub stop-Confirmed :
    (scene : Scene) (text : Chars) (force : Bool) (es : List Chars) (act : Act)
    → All PlausibleRow scene.rows
    → (stop scene text force es).1.act ≡ some act
    → Confirmed scene text force es act
unfolding stop
stop-Confirmed scene text force es act rows =
    let Does : List Chars × Stopped → Type 0 =
      λ x. x.1.act ≡ some act → Confirmed scene text force es act in
    option_cases Does (parse text) _ _ (λ _ n. cc)
      λ r parsed.
        if_cases Does (force && not (has_token text es)) _ _ (λ _ n. cc)
          λ unlocked.
            option_cases Does (revalidate scene r) _ _ (λ _ n. cc)
              λ current e.
                if_cases Does (not (chars_eq (token current) text)) _ _ (λ _ n. cc)
                  λ same acts.
                    let asks =
                      sym
                        (act-conclude scene r text force es (perform scene r current.target force))
                      ∙ acts in
                    confirm scene text force es act rows r parsed current
                      (revalidate-Fresh scene r current e) unlocked
                      ((chars_eq_iff (token current) text).0 (ground (arith, same))) asks
