-- ===== src/Reconnect/Plain.antt =====
-- The two ways to reconnect, `try_primary_reconnect` and `try_reconnect`, compared.
use repmgr.Base.{ℕ, zero, suc, ◌+◌, ◌≡◌, refl, ap, ◌∙◌, inl, inr, true, arith, Bool-cases}
use repmgr.Nodes.{NodeStatus}
use repmgr.Reconnect.{
  Attempts, listen, reachable, try_from, try_primary_reconnect, retry_from, try_reconnect,
}
use repmgr.Reconnect.Outcome.{quiet, listen-quiet, try_from-reached, try_from-silent}

module _ (attempts : Attempts) (reconnect_interval : ℕ) (initial : NodeStatus) where
  try_from-retry_from :
      (left i slept : ℕ)
      → ((k : ℕ) → quiet (attempts.notification k) reconnect_interval 0 ≡ true)
      → try_from attempts reconnect_interval initial left i slept
        ≡ retry_from attempts reconnect_interval initial left i slept
  unfolding try_from retry_from
  try_from-retry_from zero i slept silent = refl
  try_from-retry_from (suc zero) i slept silent = refl
  try_from-retry_from (suc (suc left)) i slept silent =
      let heard = listen-quiet (attempts.notification i) reconnect_interval 0 (silent i) in
      let seconds : slept + (listen (attempts.notification i) reconnect_interval 0).1
          ≡ slept + reconnect_interval =
        omega (arith, ap (λ p. p.1) heard) in
      elim (Bool-cases (reachable attempts reconnect_interval initial i)) [
        | inl reached ↦
            try_from-reached attempts reconnect_interval initial left i slept reached
            ∙ rw (reached, retry_from) refl
        | inr down ↦
            try_from-silent attempts reconnect_interval initial left i slept down
              (ap (λ p. p.0) heard)
            ∙ try_from-retry_from (suc left) (i + 1) _ silent
            ∙ ap (retry_from attempts reconnect_interval initial (suc left) (i + 1)) seconds
            ∙ rw (down, retry_from) refl
      ]

  -- While no node is notified of a new primary, the attempts to reconnect to a primary have the
  -- result, and take the time, of those to reconnect to any other node.
  pub try_primary_reconnect-try_reconnect :
      (reconnect_attempts : ℕ)
      → ((k : ℕ) → quiet (attempts.notification k) reconnect_interval 0 ≡ true)
      → try_primary_reconnect attempts reconnect_interval initial reconnect_attempts
        ≡ try_reconnect attempts reconnect_interval initial reconnect_attempts
  unfolding try_primary_reconnect try_reconnect
  try_primary_reconnect-try_reconnect reconnect_attempts silent =
      try_from-retry_from reconnect_attempts 0 0 silent
