-- ===== src/Client/Join/Attached.antt =====
-- When the wait for a node to attach ends with success.
use repmgr.Base.{
  ◌≡◌, ◌↔◌, sym, ap, ℕ, zero, suc, ◌+◌, ◌<◌, ◌≤◌, true, false, inl, inr, Bool-cases, ◌==◌, ==_iff,
  ltb, arith,
}
use mathlib.Core.Path.{subst}
use repmgr.Client.Join.{
  JoinWorld, is_attached, await_attached, check_standby_join_from, check_standby_join, joined,
}

-- The server is tried without an answer from round `i` on, and answers in round `j`.
abbrev pub AnswersFirst : JoinWorld → ℕ → ℕ → Type 0
AnswersFirst w i j =
    (w.server_available j ≡ true) × ((k : ℕ) → i ≤ k → k < j → w.server_available k ≡ false)

-- From round `j` on the upstream has the node attached in some round before the timeout.
abbrev pub AttachesFrom : JoinWorld → ℕ → Type 0
AttachesFrom w j =
    (k : ℕ) × (j ≤ k) × (k < w.node_rejoin_timeout) × (is_attached (w.downstream_attached k) ≡ true)

module _ (w : JoinWorld) where
  await_attached-AttachesFrom :
      (fuel i : ℕ) → joined (await_attached w fuel i) ≡ true → AttachesFrom w i
  unfolding await_attached
  await_attached-AttachesFrom zero i h = cc h
  await_attached-AttachesFrom (suc fuel) i h = elim (Bool-cases (ltb i w.node_rejoin_timeout)) [
    | inl early ↦ elim (Bool-cases (is_attached (w.downstream_attached i))) [
      | inl now ↦ (i, omega arith, ground (arith, early), now)
      | inr not_now ↦
          let (k, low, high, e) =
            await_attached-AttachesFrom fuel (suc i) (ground (arith, h, early, not_now)) in
          (k, omega (arith, low), high, e)
    ]
    | inr late ↦ ground (arith, h, late)
  ]

  AttachesFrom-await_attached :
      (fuel i : ℕ)
      → w.node_rejoin_timeout ≤ fuel + i
      → AttachesFrom w i
      → joined (await_attached w fuel i) ≡ true
  unfolding await_attached
  AttachesFrom-await_attached zero i enough (k, low, high, e) =
      absurd (omega (arith, enough, low, high))
  AttachesFrom-await_attached (suc fuel) i enough (k, low, high, e) =
      elim (Bool-cases (is_attached (w.downstream_attached i))) [
        | inl now ↦ ground (arith, low, high, now)
        | inr not_now ↦ elim (Bool-cases (i == k)) [
          | inl same ↦
              cc (not_now, e, ap (λ j. is_attached (w.downstream_attached j)) ((==_iff i k).0 same))
          | inr other ↦ ground (
            arith,
            low,
            high,
            not_now,
            AttachesFrom-await_attached fuel (suc i) (omega (arith, enough))
                (k, ground (arith, low, other), high, e),
          )
        ]
      ]

  -- The rounds of the first loop from `i` on, and those of the second after an answer.
  abbrev pub Joins : ℕ → Type 0
  Joins i =
      (j : ℕ) × (i ≤ j) × (j < w.standby_reconnect_timeout) × AnswersFirst w i j × AttachesFrom w j

  later_answer :
      (i j : ℕ) → w.server_available i ≡ false → AnswersFirst w (suc i) j → AnswersFirst w i j
  later_answer i j silent (answers, before) = (
    answers,
    λ k low high. elim (Bool-cases (i == k)) [
      | inl same ↦ cc (silent, ap w.server_available ((==_iff i k).0 same))
      | inr other ↦ before k (ground (arith, low, other)) high
    ],
  )

  earlier_answer : (i j : ℕ) → AnswersFirst w i j → AnswersFirst w (suc i) j
  earlier_answer i j (answers, before) = (answers, λ k low high. before k (omega (arith, low)) high)

  check_standby_join_from-Joins :
      (fuel i : ℕ) → joined (check_standby_join_from w fuel i) ≡ true → Joins i
  unfolding check_standby_join_from
  check_standby_join_from-Joins zero i h = cc h
  check_standby_join_from-Joins (suc fuel) i h =
      elim (Bool-cases (ltb i w.standby_reconnect_timeout)) [
        | inl early ↦ elim (Bool-cases (w.server_available i)) [
          | inl answers ↦ (
            i,
            omega arith,
            ground (arith, early),
            (answers, λ k low high. absurd (omega (arith, low, high))),
            await_attached-AttachesFrom w.node_rejoin_timeout i (ground (arith, h, early, answers)),
          )
          | inr silent ↦
              let (j, low, high, first, attaches) =
                check_standby_join_from-Joins fuel (suc i) (ground (arith, h, early, silent)) in
              (j, omega (arith, low), high, later_answer i j silent first, attaches)
        ]
        | inr late ↦ ground (arith, h, late)
      ]

  Joins-check_standby_join_from :
      (fuel i : ℕ)
      → w.standby_reconnect_timeout ≤ fuel + i
      → Joins i
      → joined (check_standby_join_from w fuel i) ≡ true
  unfolding check_standby_join_from
  Joins-check_standby_join_from zero i enough (j, low, high, first, attaches) =
      absurd (omega (arith, enough, low, high))
  Joins-check_standby_join_from (suc fuel) i enough (j, low, high, first, attaches) =
      elim (Bool-cases (i == j)) [
        | inl same ↦
            let e = (==_iff i j).0 same in
            ground (
              arith,
              low,
              high,
              ap w.server_available e,
              first.0,
              AttachesFrom-await_attached w.node_rejoin_timeout i (omega arith)
                  (subst (AttachesFrom w) (sym e) attaches),
            )
        | inr other ↦
            let before : i < j = ground (arith, low, other) in
            ground (
              arith,
              low,
              high,
              first.1 i (omega arith) before,
              Joins-check_standby_join_from fuel (suc i) (omega (arith, enough))
                  (j, omega (arith, before), high, earlier_answer i j first, attaches),
            )
      ]

  -- The wait ends with success exactly when the server answers in a round of the first loop, and
  -- from the first such round on the upstream has the node attached in a round before
  -- "node_rejoin_timeout"; the second loop does not start to count again, so after a late answer
  -- it has no round, and the wait fails however the node is attached.
  pub check_standby_join-success_iff : (joined (check_standby_join w) ≡ true) ↔ Joins 0
  unfolding check_standby_join
  check_standby_join-success_iff = (
    check_standby_join_from-Joins w.standby_reconnect_timeout 0,
    Joins-check_standby_join_from w.standby_reconnect_timeout 0 (omega arith),
  )
