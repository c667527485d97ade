-- ===== src/Tools/Ports/Fitting.antt =====
-- What `perform` of projects/tools/src/ports/worker.rs asks for, and of which target.
use seele_shell.Prelude.{
  chars_key, ℕ, ◌≡◌, Bool, arith, some, inl, some-injective, subst, if_cases, inr, chars_eq, true,
  ap, chars_eq_iff, refl, Option, ◌&&◌, false, none, ==_iff,
}
use seele_shell.Tools.Ports.{Target, Review, service_kind, process_kind, user_scope}
use seele_shell.Tools.Ports.Worker.{
  perform, Scene, Act, Performed, is_number, still_current, systemctl, elevate, signal,
}
use seele_shell.Tools.Ports.Rows.{IsStoppable}

-- What an act must agree with: a service without privilege goes through `systemctl`, what needs
-- privilege through the helper, and a signal goes to the process of the target, which still has its
-- start time, its user and the reviewed socket.
abbrev pub IsFit : Scene → Review → Target → Act → Type 0
IsFit scene r t (systemctl is_user arguments) =
    (t.privileged ≡ false) × (t.kind ≡ service_kind) × (is_user ≡ chars_eq t.scope user_scope)
IsFit scene r t (elevate arguments) = (t.privileged ≡ true) × IsStoppable t
IsFit scene r t (signal pid force) =
    (t.privileged ≡ false)
    × (t.kind ≡ process_kind)
    × (pid ≡ t.pid)
    × (scene.start_time pid ≡ some t.start)
    × (scene.process_uid pid ≡ some t.uid)
    × (scene.holds_socket pid r.inode ≡ true)

is_number-some : (o : Option ℕ) (n : ℕ) → is_number o n ≡ true → o ≡ some n
is_number-some none n e = cc
is_number-some (some m) n e = ap some ((==_iff m n).0 e)

IsFit-some :
    (scene : Scene) (r : Review) (t : Target) (a act : Act)
    → IsFit scene r t a
    → some a ≡ some act
    → IsFit scene r t act
IsFit-some scene r t a act h e = subst (IsFit scene r t) (some-injective a act e) h

pub perform-IsFit :
    (scene : Scene) (r : Review) (t : Target) (force : Bool) (act : Act)
    → (perform scene r t force).0 ≡ some act
    → IsFit scene r t act
unfolding perform still_current
perform-IsFit scene r t force act =
    let Asks : Performed → Type 0 = λ x. x.0 ≡ some act → IsFit scene r t act in
    if_cases Asks (chars_eq t.kind service_kind) _ _
      (λ e.
        let is = (chars_eq_iff t.kind service_kind).0 e in
        if_cases Asks t.privileged _ _ (λ p. IsFit-some scene r t (elevate _) act (p, inl is))
          (λ p. IsFit-some scene r t (systemctl _ _) act (p, is, refl)))
      λ _.
        if_cases Asks (chars_eq t.kind process_kind) _ _
          (λ e.
            let is = (chars_eq_iff t.kind process_kind).0 e in
            if_cases Asks t.privileged _ _ (λ p. IsFit-some scene r t (elevate _) act (p, inr is))
              (λ p.
                if_cases Asks
                  (is_number (scene.start_time t.pid) t.start
                    && is_number (scene.process_uid t.pid) t.uid
                    && scene.holds_socket t.pid r.inode)
                  _ _
                  (λ c. IsFit-some scene r t (signal t.pid force) act (
                    p,
                    is,
                    refl,
                    is_number-some (scene.start_time t.pid) t.start (ground (arith, c)),
                    is_number-some (scene.process_uid t.pid) t.uid (ground (arith, c)),
                    ground (arith, c),
                  ))
                  (λ _ n. cc)))
          λ _ n. cc

pub IsFit-IsStoppable :
    (scene : Scene) (r : Review) (t : Target) (act : Act) → IsFit scene r t act → IsStoppable t
IsFit-IsStoppable scene r t (systemctl is_user arguments) h = inl h.1
IsFit-IsStoppable scene r t (elevate arguments) h = h.1
IsFit-IsStoppable scene r t (signal pid force) h = inr h.1
