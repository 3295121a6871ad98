-- ===== src/Host/Lifecycle.antt =====
-- `HostHookLifecycle` (include/structor/host_lifecycle.hpp).
use ida_structor.Prelude.{
  ℕ, ◌+◌, ◌≤◌, ◌≡◌, refl, Bool, true, false, not, arith, List, [], ◌∷◌, if◌then◌else◌, Bool-cases,
  inl, inr,
}

-- `hooked_` and `shutdown_`.
pub record HostHookLifecycle : Type 0 where
  pub hooked : Bool
  pub shutdown : Bool

abbrev pub new_lifecycle : HostHookLifecycle
new_lifecycle = record { hooked = false; shutdown = false }

abbrev pub can_install : HostHookLifecycle → Bool
can_install l = not l.shutdown

abbrev pub is_hooked : HostHookLifecycle → Bool
is_hooked l = l.hooked

abbrev pub is_shutdown : HostHookLifecycle → Bool
is_shutdown l = l.shutdown

pub mark_installed : HostHookLifecycle → Bool × HostHookLifecycle
mark_installed l = if l.shutdown then (false, l) else (true, record l { hooked = true })

pub mark_uninstalled : HostHookLifecycle → HostHookLifecycle
mark_uninstalled l = record l { hooked = false }

pub begin_shutdown : HostHookLifecycle → Bool × HostHookLifecycle
begin_shutdown l = if l.shutdown then (false, l) else (true, record l { shutdown = true })

-- The calls that change the state.
pub data Call : Type 0 where
  install uninstall terminate : Call

pub step : HostHookLifecycle → Call → Bool × HostHookLifecycle
unfolding mark_installed mark_uninstalled begin_shutdown
step l install = mark_installed l
step l uninstall = (true, mark_uninstalled l)
step l terminate = begin_shutdown l

pub run : HostHookLifecycle → List Call → HostHookLifecycle
unfolding step
run l [] = l
run l (c ∷ cs) = run ((step l c).1) cs

abbrev accepted : Call → Bool → ℕ
accepted terminate true = 1
accepted _ _ = 0

-- How many of the calls are a shutdown that was answered with true.
pub shutdowns : HostHookLifecycle → List Call → ℕ
unfolding step
shutdowns l [] = 0
shutdowns l (c ∷ cs) = accepted c ((step l c).0) + shutdowns ((step l c).1) cs

step_terminal :
    (l : HostHookLifecycle) (c : Call) → l.shutdown ≡ true → ((step l c).1).shutdown ≡ true
unfolding step mark_installed mark_uninstalled begin_shutdown
step_terminal l install h = ground arith
step_terminal l uninstall h = h
step_terminal l terminate h = ground arith

step_unhooked :
    (l : HostHookLifecycle) (c : Call)
    → l.shutdown ≡ true
    → l.hooked ≡ false
    → ((step l c).1).hooked ≡ false
unfolding step mark_installed mark_uninstalled begin_shutdown
step_unhooked l install h k = ground arith
step_unhooked l uninstall h k = refl
step_unhooked l terminate h k = ground arith

none_accepted :
    (l : HostHookLifecycle) (c : Call) → l.shutdown ≡ true → accepted c ((step l c).0) ≡ 0
unfolding step begin_shutdown
none_accepted l install h = refl
none_accepted l uninstall h = refl
none_accepted l terminate h = ground arith

accepted_or :
    (l : HostHookLifecycle) (c : Call)
    → ((step l c).1).shutdown ≡ false
    → accepted c ((step l c).0) ≡ 0
unfolding step begin_shutdown
accepted_or l install h = refl
accepted_or l uninstall h = refl
accepted_or l terminate h = ground arith

accepted_le : (c : Call) (b : Bool) → accepted c b ≤ 1
accepted_le install b = omega arith
accepted_le uninstall b = omega arith
accepted_le terminate true = omega arith
accepted_le terminate false = omega arith

no_shutdowns : (l : HostHookLifecycle) (cs : List Call) → l.shutdown ≡ true → shutdowns l cs ≡ 0
unfolding shutdowns
no_shutdowns l [] h = refl
no_shutdowns l (c ∷ cs) h =
    let a = none_accepted l c h in
    let b = no_shutdowns ((step l c).1) cs (step_terminal l c h) in omega arith

-- Over any sequence of calls `begin_shutdown` answers true at most once.
pub shutdowns_at_most_once : (l : HostHookLifecycle) (cs : List Call) → shutdowns l cs ≤ 1
unfolding shutdowns
shutdowns_at_most_once l [] = omega arith
shutdowns_at_most_once l (c ∷ cs) = elim (Bool-cases ((step l c).1).shutdown) [
  | inl e ↦
      let a = no_shutdowns ((step l c).1) cs e in
      let b = accepted_le c ((step l c).0) in omega arith
  | inr e ↦
      let a = accepted_or l c e in let b = shutdowns_at_most_once ((step l c).1) cs in omega arith
]

mark_installed_refused : (l : HostHookLifecycle) → l.shutdown ≡ true → (mark_installed l).0 ≡ false
unfolding mark_installed
mark_installed_refused l h = ground arith

-- Once shutdown has begun and the registration is gone, no sequence of calls makes it live again:
-- the state stays shut down and unhooked, and an installation is refused.
pub shutdown_terminal :
    (l : HostHookLifecycle) (cs : List Call)
    → l.shutdown ≡ true
    → l.hooked ≡ false
    → (is_shutdown (run l cs) ≡ true)
      × (is_hooked (run l cs) ≡ false)
      × ((mark_installed (run l cs)).0 ≡ false)
unfolding run
shutdown_terminal l [] h k = (h, k, mark_installed_refused l h)
shutdown_terminal l (c ∷ cs) h k =
    shutdown_terminal ((step l c).1) cs (step_terminal l c h) (step_unhooked l c h k)
