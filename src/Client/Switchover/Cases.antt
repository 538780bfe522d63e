-- ===== src/Client/Switchover/Cases.antt =====
-- What holds of every run of a switchover: the ends before anything is done, and the rest.
use repmgr.Base.{◌≡◌, refl, ℕ, Bool, true, false, ◌&&◌, Option, none, some, [], if◌then◌else◌}
use repmgr.Client.Promote.Checks.{is_none}
use repmgr.Client.Switchover.World.{SwitchoverOptions, SwitchoverWorld, Switchover, ends}
use repmgr.Client.Switchover.Checks.{check_nodes}
use repmgr.Client.Switchover.Run.{
  or_exit, siblings, slots, switch_over, check_capacity, do_standby_switchover,
}

pub ends_if-cases {ℓ} :
    (P : Switchover → Type ℓ) (b : Bool) (code : ℕ) (s : Switchover)
    → P (ends code [])
    → P s
    → P (if b then ends code [] else s)
ends_if-cases P true code s ended h = ended
ends_if-cases P false code s ended h = h

pub if-cases {ℓ} :
    (P : Switchover → Type ℓ) (b : Bool) (s t : Switchover)
    → P s
    → (b ≡ false → P t)
    → P (if b then s else t)
if-cases P true s t h k = h
if-cases P false s t h k = k refl

pub or_exit-cases {ℓ} :
    (P : Switchover → Type ℓ)
    → ((code : ℕ) → P (ends code []))
    → (e : Option ℕ) (s : Switchover) → P s
    → P (or_exit e s)
or_exit-cases P ended none s h = h
or_exit-cases P ended (some code) s h = ended code

pub do_standby_switchover-cases {ℓ} :
    (P : Switchover → Type ℓ)
    → ((code : ℕ) → P (ends code []))
    → (o : SwitchoverOptions) (w : SwitchoverWorld)
    → P (switch_over o w (siblings o w).sibling_nodes (slots o w).dry_run_success)
    → P (do_standby_switchover o w)
unfolding do_standby_switchover
do_standby_switchover-cases P ended o w h =
    or_exit-cases P ended (check_nodes o w (check_capacity o w)) _ h

pub or_exit-eq :
    (f : Switchover → Bool)
    → ((code : ℕ) → f (ends code []) ≡ false)
    → (e : Option ℕ) (s : Switchover) → f (or_exit e s) ≡ (is_none e && f s)
or_exit-eq f ended none s = refl
or_exit-eq f ended (some code) s = ended code
