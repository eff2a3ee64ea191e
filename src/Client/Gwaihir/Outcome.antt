-- ===== src/Client/Gwaihir/Outcome.antt =====
-- What a caller of SendWoL can rely on, whatever the network does.
use smaug.Prelude.{
  ℕ, zero, suc, ◌+◌, ◌≤◌, ◌<◌, pos_part, Str, is_empty, Bool-cases, [], Option, none, some, ◌≡◌,
  ◌⊎◌, inl, inr, refl, arith,
}
use smaug.Client.Gwaihir.{
  WolError, Round, Sent, RetryConfig, handle_wol_response, give_up, retry_loop, send_with_retry,
  send_wol,
}
use smaug.Client.Gwaihir.Retry.{status_of, body_of, failure_of, loop_cases}

abbrev pub IsSuccess : ℕ → Type 0
IsSuccess status = (200 ≤ status) × (status < 300)

module _ (unmarshal : Str → Option Str) (env : ℕ → Round) where
  loop_requests-le :
      (left n : ℕ) (last : Option WolError) (status : ℕ) (body : Str)
      → 1 ≤ n
      → (retry_loop unmarshal env left n last status body).requests ≤ left
  loop_requests-le zero n last status body first = unfold retry_loop in omega arith
  loop_requests-le (suc left) n last status body first =
      let w = (env n).wire in
      let rest = loop_requests-le left (n + 1) (some (failure_of w)) (status_of w) (body_of w) in
      ground (arith, loop_cases unmarshal env left n last status body first, rest)

  handle-IsSuccess :
      (status : ℕ) (body : Str)
      → handle_wol_response unmarshal status body ≡ none
      → IsSuccess status
  unfolding handle_wol_response
  handle-IsSuccess status body h = ground arith

  give_up-IsSuccess :
      (last : Option WolError) (status : ℕ) (body : Str)
      → give_up unmarshal last status body ≡ none
      → IsSuccess status
  unfolding give_up
  give_up-IsSuccess none status body h = handle-IsSuccess status body h
  give_up-IsSuccess (some e) status body h = ground (arith, handle-IsSuccess status body)

  -- The status that the loop carries is that of the round before, once there is one.
  abbrev Carries : ℕ → ℕ → Type 0
  Carries n status =
      (status ≡ 0) ⊎ ((m : ℕ) × (n ≡ suc m) × (1 ≤ m) × (status ≡ status_of (env m).wire))

  -- A nil error after `k` requests, the last of them in round `m`.
  abbrev SucceededIn : ℕ → Sent → Type 0
  SucceededIn n s =
      (m : ℕ) × (s.requests + n ≡ suc m) × (1 ≤ m) × IsSuccess (status_of (env m).wire)

  loop_success :
      (left n : ℕ) (last : Option WolError) (status : ℕ) (body : Str)
      → 1 ≤ n
      → Carries n status
      → (retry_loop unmarshal env left n last status body).result ≡ none
      → SucceededIn n (retry_loop unmarshal env left n last status body)
  loop_success zero n last status body first c h =
      unfold retry_loop in
      elim c [
        | inl z ↦ absurd (ground (arith, give_up-IsSuccess last status body h))
        | inr (m, e, p, s) ↦ (m, omega arith, p, rw s at (give_up-IsSuccess last status body h))
      ]
  loop_success (suc left) n last status body first c h =
      let w = (env n).wire in
      let rest =
        loop_success left (n + 1) (some (failure_of w)) (status_of w) (body_of w) (omega arith)
          (inr (n, omega arith, first, refl)) in
      elim (loop_cases unmarshal env left n last status body first) [
        | inl (d, e) ↦
            (n, ground arith, first, handle-IsSuccess (status_of w) (body_of w) (ground arith))
        | inr (inl e) ↦ let (m, total, p, s) = rest (ground arith) in (m, ground arith, p, s)
        | inr (inr e) ↦ absurd (ground arith)
      ]

module _ (unmarshal : Str → Option Str) (r : RetryConfig) (env : ℕ → Round) (machine_id : Str) where
  -- SendWoL makes no more requests than the configured attempts, and none for an empty machine ID.
  pub send_wol-requests :
      ((send_wol unmarshal r env machine_id).requests ≤ pos_part r.max_attempts)
      × ((send_wol unmarshal r env []).requests ≡ 0)
  unfolding send_wol send_with_retry
  send_wol-requests = (
    ground
        (arith, loop_requests-le unmarshal env (pos_part r.max_attempts) 1 none 0 [] (omega arith)),
    refl,
  )

  -- SendWoL returns nil only if the last request that it made met a 2xx status.
  pub send_wol-IsSuccess :
      (send_wol unmarshal r env machine_id).result ≡ none
      → (m : ℕ) × ((send_wol unmarshal r env machine_id).requests ≡ m)
        × (1 ≤ m)
        × IsSuccess (status_of (env m).wire)
  unfolding send_wol send_with_retry
  send_wol-IsSuccess h =
      let sent =
        loop_success unmarshal env (pos_part r.max_attempts) 1 none 0 [] (omega arith) (inl refl) in
      elim (Bool-cases (is_empty machine_id)) [
        | inl e ↦ absurd (ground arith)
        | inr e ↦ let (m, total, p, ok) = sent (ground arith) in (m, ground arith, p, ok)
      ]
