-- ===== src/Failover/Safety.antt =====
-- What holds of the actions of every `do_primary_failover`, whatever its surroundings answer.
use repmgr.Base.{◌≤◌, ◌≡◌, ℤ, Bool, true, false, List, ◌++◌, count}
use repmgr.Failover.World.{Action}
use repmgr.Failover.Actions.{receiver_enabled, announces, Unearned, earned, promotes}

-- The actions of a whole failover from the primary `lost`.
pub record Ordered (lost : ℤ) (a : List Action) : Type 0 where
  pub announced : announces lost false a ≡ true
  pub promoted_once : count promotes a ≤ 1
  pub counted : earned false a ≡ true
  pub receiver : receiver_enabled true a ≡ true

-- The actions before the election leave the WAL receiver enabled, and do nothing else.
record Lead (lost : ℤ) (b : List Action) : Type 0 where
  announced : (l : List Action) → announces lost false (b ++ l) ≡ announces lost false l
  promoted : (l : List Action) → count promotes (b ++ l) ≡ count promotes l
  counted : (l : List Action) → earned false (b ++ l) ≡ earned false l
  receiver : (l : List Action) → receiver_enabled true (b ++ l) ≡ receiver_enabled true l

-- The actions at the end only notify.
record Tail (lost : ℤ) (promoted : Bool) (t : List Action) : Type 0 where
  announced : announces lost promoted t ≡ true
  none_promoted : count promotes t ≡ 0
  unearned : Unearned t
  receiver : (on : Bool) → receiver_enabled on t ≡ on
