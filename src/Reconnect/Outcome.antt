-- ===== src/Reconnect/Outcome.antt =====
-- When `try_primary_reconnect` takes the primary for lost, and how long it may take.
use repmgr.Base.{
  ℕ, zero, suc, ◌+◌, ◌-◌, ◌*◌, ◌≤◌, ◌≡◌, refl, ap, ◌∙◌, ◌≢◌, inl, inr, ℤ, ◌==ℤ◌, Bool, true, false,
  not, ◌&&◌, Option, none, some, arith, Bool-cases, Option-cases,
}
use native.Mathlib.Nat.{suc-mul}
use repmgr.Nodes.{NodeStatus, node_status_down, unknown_node_id}
use repmgr.Failover.World.{QueryResult}
use repmgr.Failover.Steps.{get_new_primary}
use repmgr.Reconnect.{
  Attempts, Reconnection, listen, reachable, gave_up, reconnected, notified, try_from,
  try_primary_reconnect,
}

abbrev pub is_down : NodeStatus → Bool
is_down node_status_down = true
is_down _ = false

-- No answer of `rounds` seconds from second `j` on names a node.
abbrev pub quiet : (ℕ → QueryResult) → ℕ → ℕ → Bool
quiet answers zero j = true
quiet answers (suc rounds) j = not (get_new_primary (answers j)).0 && quiet answers rounds (j + 1)

get_new_primary-known :
    (answer : QueryResult)
    → ((get_new_primary answer).0 && not ((get_new_primary answer).1 ==ℤ unknown_node_id))
      ≡ (get_new_primary answer).0
unfolding get_new_primary
get_new_primary-known answer = ground arith

pub listen-quiet :
    (answers : ℕ → QueryResult) (rounds j : ℕ)
    → quiet answers rounds j ≡ true
    → listen answers rounds j ≡ (none, j + rounds)
unfolding listen
listen-quiet answers zero j h = ground arith
listen-quiet answers (suc rounds) j h =
    ground (arith, get_new_primary-known (answers j), listen-quiet answers rounds (j + 1))

listen-none :
    (answers : ℕ → QueryResult) (rounds j : ℕ)
    → quiet answers rounds j ≡ false
    → (listen answers rounds j).0 ≢ none
unfolding listen
listen-none answers zero j h e = ground arith
listen-none answers (suc rounds) j h e =
    ground (arith, get_new_primary-known (answers j), listen-none answers rounds (j + 1))

listen-le : (answers : ℕ → QueryResult) (rounds j : ℕ) → (listen answers rounds j).1 ≤ j + rounds
unfolding listen
listen-le answers zero j = ground arith
listen-le answers (suc rounds) j =
    ground (arith, get_new_primary-known (answers j), listen-le answers rounds (j + 1))

one_more :
    (left interval : ℕ) → (suc (suc left) - 1) * interval ≡ (suc left - 1) * interval + interval
one_more left interval =
    let next : suc (suc left) - 1 ≡ suc (suc left - 1) = omega arith in
    ap (λ n. n * interval) next ∙ suc-mul (suc left - 1) interval

all_three : (a b c : Bool) → (not a && b && c) ≡ true → (a ≡ false) × (b ≡ true) × (c ≡ true)
all_three a b c h = ground arith

last_fails : (a b c : Bool) → a ≡ false → b ≡ true → (not a && b && c) ≡ false → c ≡ false
last_fails a b c down silent h = ground arith

module _ (attempts : Attempts) (reconnect_interval : ℕ) (initial : NodeStatus) where
  -- No attempt reaches the server, and no answer between two attempts names a node.
  abbrev pub lost : ℕ → ℕ → Bool
  lost zero i = true
  lost (suc zero) i = not (reachable attempts reconnect_interval initial i)
  lost (suc (suc left)) i =
      not (reachable attempts reconnect_interval initial i)
      && quiet (attempts.notification i) reconnect_interval 0
      && lost (suc left) (i + 1)

  abbrev go : ℕ → ℕ → ℕ → Reconnection
  go = try_from attempts reconnect_interval initial

  abbrev heard : ℕ → Option ℤ × ℕ
  heard i = listen (attempts.notification i) reconnect_interval 0

  pub try_from-reached :
      (left i slept : ℕ)
      → reachable attempts reconnect_interval initial i ≡ true
      → go (suc (suc left)) i slept ≡ reconnected attempts reconnect_interval initial i slept
  unfolding try_from
  try_from-reached left i slept h = rw (h, try_from) refl

  pub try_from-notified :
      (left i slept : ℕ) (id : ℤ)
      → reachable attempts reconnect_interval initial i ≡ false
      → (heard i).0 ≡ some id
      → go (suc (suc left)) i slept
        ≡ notified attempts reconnect_interval initial id (slept + (heard i).1)
  unfolding try_from
  try_from-notified left i slept id h e = rw (h, e, try_from) refl

  pub try_from-silent :
      (left i slept : ℕ)
      → reachable attempts reconnect_interval initial i ≡ false
      → (heard i).0 ≡ none
      → go (suc (suc left)) i slept ≡ go (suc left) (i + 1) (slept + (heard i).1)
  unfolding try_from
  try_from-silent left i slept h e = rw (h, e, try_from) refl

  try_from-lost :
      (left i slept : ℕ)
      → lost left i ≡ true
      → go left i slept
        ≡ gave_up attempts reconnect_interval initial (slept + (left - 1) * reconnect_interval)
  unfolding try_from
  try_from-lost zero i slept h = ground arith
  try_from-lost (suc zero) i slept h = ground arith
  try_from-lost (suc (suc left)) i slept h =
      let (down, silent, lost') = all_three _ _ _ h in
      let heard-eq = listen-quiet (attempts.notification i) reconnect_interval 0 silent in
      try_from-silent left i slept down (ap (λ p. p.0) heard-eq)
      ∙ try_from-lost (suc left) (i + 1) (slept + (heard i).1) lost'
      ∙ ap (gave_up attempts reconnect_interval initial)
          (omega (arith, ap (λ p. p.1) heard-eq, one_more left reconnect_interval))

  try_from-kept :
      (left i slept : ℕ)
      → is_down initial ≡ false
      → lost left i ≡ false
      → is_down (go left i slept).node_status ≡ false
  unfolding try_from
  try_from-kept zero i slept up h = ground arith
  try_from-kept (suc zero) i slept up h = ground arith
  try_from-kept (suc (suc left)) i slept up h =
      elim (Bool-cases (reachable attempts reconnect_interval initial i)) [
        | inl reached ↦ rw (try_from-reached left i slept reached) refl
        | inr down ↦ elim (Option-cases (heard i).0) [
          | inl none_heard ↦
              elim (Bool-cases (quiet (attempts.notification i) reconnect_interval 0)) [
                | inl silent ↦ rw (try_from-silent left i slept down none_heard) (
                    try_from-kept (suc left) (i + 1) (slept + (heard i).1) up
                      (last_fails _ _ _ down silent h))
                | inr named ↦
                    absurd
                      (listen-none (attempts.notification i) reconnect_interval 0 named none_heard)
              ]
          | inr (id, some_heard) ↦ rw (try_from-notified left i slept id down some_heard) up
        ]
      ]

  try_from-slept :
      (left i slept : ℕ) → (go left i slept).seconds_slept ≤ slept + (left - 1) * reconnect_interval
  unfolding try_from
  try_from-slept zero i slept = ground arith
  try_from-slept (suc zero) i slept = ground arith
  try_from-slept (suc (suc left)) i slept =
      let bound = listen-le (attempts.notification i) reconnect_interval 0 in
      let more = one_more left reconnect_interval in
      elim (Bool-cases (reachable attempts reconnect_interval initial i)) [
        | inl reached ↦ rw (try_from-reached left i slept reached) (omega arith)
        | inr down ↦ elim (Option-cases (heard i).0) [
          | inl none_heard ↦
              rw (try_from-silent left i slept down none_heard) (
                omega (arith, bound, more, try_from-slept (suc left) (i + 1) (slept + (heard i).1)))
          | inr (id, some_heard) ↦
              rw (try_from-notified left i slept id down some_heard) (omega (arith, bound, more))
        ]
      ]

  -- A primary that was not down before is taken for lost exactly when no attempt reaches it and no
  -- answer between two attempts names a new primary.
  pub try_primary_reconnect-down :
      (reconnect_attempts : ℕ)
      → is_down initial ≡ false
      → is_down
          (try_primary_reconnect attempts reconnect_interval initial reconnect_attempts).node_status
        ≡ lost reconnect_attempts 0
  unfolding try_primary_reconnect
  try_primary_reconnect-down reconnect_attempts up = elim (Bool-cases (lost reconnect_attempts 0)) [
    | inl gone ↦ rw (gone, try_from-lost reconnect_attempts 0 0 gone) refl
    | inr kept ↦ rw kept (try_from-kept reconnect_attempts 0 0 up kept)
  ]

  -- While it tries to reconnect, repmgrd sleeps for at most one interval less than there are
  -- attempts.
  pub try_primary_reconnect-slept :
      (reconnect_attempts : ℕ)
      → (try_primary_reconnect attempts reconnect_interval initial reconnect_attempts).seconds_slept
        ≤ (reconnect_attempts - 1) * reconnect_interval
  unfolding try_primary_reconnect
  try_primary_reconnect-slept reconnect_attempts =
      omega (arith, try_from-slept reconnect_attempts 0 0)
