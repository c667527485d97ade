-- ===== src/Tools/Ports/Rows.antt =====
-- What is known of the rows of projects/tools/src/ports/procfs.rs, and of the reviews made of them.
use seele_shell.Prelude.{
  chars_key, Chars, List, ℕ, ◌<◌, ◌≡◌, ◌^◌, All, [], ◌≤◌, ◌⊎◌, arith, length, ◌∷◌, inl, subst, inr,
  true, refl,
}
use seele_shell.Split.{Without}
use seele_shell.Tools.Ports.{
  Process, Row, Target, process_target, review, service_target, service_kind, target, bar,
  process_kind, system_scope, user_scope, valid_unit,
}
use seele_shell.Tools.Ports.Tokens.{Reviewable}
use seele_shell.Tools.Ports.Targets.{
  Decided, IsOwner, nobody, target-Decided, one_service, one_process, several,
}

-- What the types of the fields and the reading of /proc give of a process and of a row.
pub record Plausible (o : Process) : Type 0 where
  pub pid_fits : o.pid < 2 ^ 32
  pub start_fits : o.start < 2 ^ 64
  pub uid_fits : o.uid < 2 ^ 32
  pub scope_known : (o.scope ≡ []) ⊎ ((o.scope ≡ system_scope) ⊎ (o.scope ≡ user_scope))
  pub service_valid : (o.service ≡ []) ⊎ (valid_unit o.service ≡ true)

pub record PlausibleRow (row : Row) : Type 0 where
  pub inode_fits : row.listener.inode < 2 ^ 64
  pub port_fits : row.listener.port < 2 ^ 16
  pub uid_fits : row.listener.uid < 2 ^ 32
  pub binding_plain : Without bar row.listener.binding
  pub owners : All Plausible row.owners

-- A target that can be stopped.
abbrev pub IsStoppable : Target → Type 0
IsStoppable t = (t.kind ≡ service_kind) ⊎ (t.kind ≡ process_kind)

owner-Plausible : (o : Process) (ps : List Process) → IsOwner o ps → All Plausible ps → Plausible o
owner-Plausible o [] is h = absurd is
owner-Plausible o (p ∷ ps) (inl e) h = subst Plausible e h.0
owner-Plausible o (p ∷ ps) (inr is) h = owner-Plausible o ps is h.1

-- What a token needs of a target.
record Sound (t : Target) : Type 0 where
  pid_fits : t.pid < 2 ^ 32
  start_fits : t.start < 2 ^ 64
  uid_fits : t.uid < 2 ^ 32
  scope_known : (t.scope ≡ []) ⊎ ((t.scope ≡ system_scope) ⊎ (t.scope ≡ user_scope))
  unit_valid : (t.unit ≡ []) ⊎ (valid_unit t.unit ≡ true)

shared-Sound :
    (row : Row) (unit scope : Chars) (ps : List Process)
    → row.listener.uid < 2 ^ 32
    → 1 ≤ length ps
    → All (λ o. (o.service ≡ unit) × (o.scope ≡ scope)) ps
    → All Plausible ps
    → Sound (service_target row unit scope)
unfolding service_target
shared-Sound row unit scope [] u l same h = absurd (ground (arith, l))
shared-Sound row unit scope (p ∷ ps) u l same h = record {
  pid_fits = omega arith;
  start_fits = omega arith;
  uid_fits = u;
  scope_known =
      subst (λ s. (s ≡ []) ⊎ ((s ≡ system_scope) ⊎ (s ≡ user_scope))) same.0.1 h.0.scope_known;
  unit_valid = subst (λ s. (s ≡ []) ⊎ (valid_unit s ≡ true)) same.0.0 h.0.service_valid;
}

Decided-Sound :
    (row : Row) (selected self_uid : ℕ) {t : Target}
    → PlausibleRow row
    → Decided row selected self_uid t
    → Sound t
unfolding process_target
Decided-Sound row selected self_uid h (nobody reason e) = record {
  pid_fits = omega arith;
  start_fits = omega arith;
  uid_fits = h.uid_fits;
  scope_known = inl refl;
  unit_valid = inl refl;
}
Decided-Sound row selected self_uid h (one_service unit scope n same l) =
    shared-Sound row unit scope row.owners h.uid_fits l same h.owners
Decided-Sound row selected self_uid h (one_process o u is how) =
    let p = owner-Plausible o row.owners is h.owners in
    record {
      pid_fits = p.pid_fits;
      start_fits = p.start_fits;
      uid_fits = p.uid_fits;
      scope_known = inl refl;
      unit_valid = inl refl;
    }
Decided-Sound row selected self_uid h (several reason u l other) = record {
  pid_fits = omega arith;
  start_fits = omega arith;
  uid_fits = h.uid_fits;
  scope_known = inl refl;
  unit_valid = inl refl;
}

pub review-Reviewable :
    (row : Row) (selected self_uid : ℕ)
    → PlausibleRow row
    → IsStoppable (target row selected self_uid)
    → Reviewable (review row selected self_uid)
unfolding review
review-Reviewable row selected self_uid h k =
    let s = Decided-Sound row selected self_uid h (target-Decided row selected self_uid) in
    record {
      inode_fits = h.inode_fits;
      port_fits = h.port_fits;
      pid_fits = s.pid_fits;
      start_fits = s.start_fits;
      uid_fits = s.uid_fits;
      binding_plain = h.binding_plain;
      kind_known = k;
      scope_known = s.scope_known;
      unit_valid = s.unit_valid;
    }
