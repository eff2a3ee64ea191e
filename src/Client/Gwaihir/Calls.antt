-- ===== src/Client/Gwaihir/Calls.antt =====
-- internal/client/gwaihir/client.go: the request that each attempt posts, the wait before it, what
-- SendWoL records, and what it logs of a body. encoding/json and net/url are arguments.
use smaug.Prelude.{
  ℕ, zero, suc, ap, ◌+◌, ◌≤◌, Str, str, is_empty, leb, Bool, true, false, Bool-cases, [], ◌∷◌, ◌++◌,
  Option, none, some, ◌≡◌, ◌⊎◌, Option-cases, inl, inr, refl, length, take, arith, length-append,
  length-take, if◌then◌else◌,
}
use smaug.Prelude.Map.{Map, insert}
use smaug.Infrastructure.Metrics.{Prometheus, record_api_call}
use smaug.Client.Gwaihir.{WolError, Wire, Round, RetryConfig, send_with_retry, send_wol}
use smaug.Client.Gwaihir.Outcome.{IsSuccess, send_wol-IsSuccess}
use smaug.Client.Gwaihir.Retry.{status_of}

pub record Client : Type 0 where
  pub base_url : Str
  pub api_key : Str
  pub retry_config : RetryConfig
  pub metrics : Bool  -- whether a registry is set

unfoldable pub set_metrics : Client → Bool → Client
set_metrics c reg = record c { metrics = reg }

pub record Post : Type 0 where
  pub url : Str
  pub header : Map Str
  pub body : Str

-- The client's Do and io.ReadAll: no response, a body that cannot be read, or a response.
pub data Reply : Type 0 where
  no_response : Reply
  broken_body : ℕ → Reply
  complete : ℕ → Str → Reply

-- url.Parse with ResolveReference of "/wol" and String.
unfoldable pub build_wol_url : (Str → Option Str) → Str → Str
build_wol_url resolve base_url = elim (resolve base_url) [
  | none ↦ base_url ++ str "/wol"
  | some url ↦ url
]

unfoldable pub set_request_headers : Client → Map Str → Map Str
set_request_headers c h =
    insert (str "X-API-Key") c.api_key (insert (str "Content-Type") (str "application/json") h)

unfoldable pub read_reply : Reply → Wire
read_reply Reply.no_response = Wire.unanswered
read_reply (Reply.broken_body status) = Wire.unread status
read_reply (Reply.complete status body) = Wire.answered status body

-- How the select of sleepWithContext ends: the timer fires, or the context is done.
pub data SleepEnd : Type 0 where
  timer_fired ctx_done : SleepEnd

unfoldable pub sleep_with_context : SleepEnd → Bool
sleep_with_context SleepEnd.timer_fired = true
sleep_with_context SleepEnd.ctx_done = false

abbrev pub max_log_body_size : ℕ
max_log_body_size = 200

-- A horizontal ellipsis in UTF-8 comes first.
abbrev pub truncation_mark : Str
truncation_mark = 226 ∷ 128 ∷ 166 ∷ str " [truncated]"

unfoldable pub truncate_body : Str → Str
truncate_body body =
    if leb (length body) max_log_body_size
    then body
    else take max_log_body_size body ++ truncation_mark

take-take-append : (n : ℕ) (xs ys : Str) → n ≤ length xs → take n (take n xs ++ ys) ≡ take n xs
take-take-append zero xs ys h = refl
take-take-append (suc n) [] ys h = absurd (omega arith)
take-take-append (suc n) (x ∷ xs) ys h = ap (◌∷◌ x) (take-take-append n xs ys (omega arith))

cut-bounds :
    (n : ℕ) (xs mark : Str)
    → (length (if leb (length xs) n then xs else take n xs ++ mark) ≤ n + length mark)
      × (take n (if leb (length xs) n then xs else take n xs ++ mark) ≡ take n xs)
cut-bounds n xs mark = elim (Bool-cases (leb (length xs) n)) [
  | inl short ↦ (ground arith, ground arith)
  | inr long ↦
      let cut = length-take n xs (ground arith) in
      let total = length-append (take n xs) mark in
      let prefix = take-take-append n xs mark (ground arith) in (ground arith, ground arith)
]

-- What is logged of a body is at most 200 bytes and the mark, and starts as the body does.
truncate_body-bounds :
    (body : Str)
    → (length (truncate_body body) ≤ max_log_body_size + length truncation_mark)
      × (take max_log_body_size (truncate_body body) ≡ take max_log_body_size body)
unfolding truncate_body
truncate_body-bounds body = cut-bounds max_log_body_size body truncation_mark

module _ (marshal : Str → Option Str) (resolve : Str → Option Str) (new_request : Str → Str → Bool)
    (send : ℕ → Post → Reply) where
  -- The steps of executeWoLRequest in attempt number `attempt`.
  unfoldable pub attempt_wire : Client → Str → ℕ → Wire
  unfolding build_wol_url set_request_headers read_reply
  attempt_wire c machine_id attempt = elim (marshal machine_id) [
    | none ↦ Wire.unmarshalled
    | some body ↦
        let url = build_wol_url resolve c.base_url in
        if new_request url body
        then read_reply
            (send attempt (record { url = url; header = set_request_headers c []; body = body }))
        else Wire.uncreated
  ]

  -- The rounds that sendWithRetry meets; `waits` tells how the wait before each ends.
  unfoldable pub rounds : Client → Str → (ℕ → SleepEnd) → ℕ → Round
  unfolding attempt_wire sleep_with_context
  rounds c machine_id waits attempt = record {
    slept = sleep_with_context (waits attempt);
    wire = attempt_wire c machine_id attempt;
  }

  module _ {S : Type 0} (p : Prometheus S) (unmarshal : Str → Option Str) where
    -- SendWoL, with the metric of its call.
    unfoldable pub send_wol_recorded : Client → Str → (ℕ → SleepEnd) → S → Option WolError × S
    unfolding rounds
    send_wol_recorded c machine_id waits s =
        if is_empty machine_id
        then (some WolError.invalid_input, s)
        else let err =
            (send_with_retry unmarshal c.retry_config (rounds c machine_id waits)).result in
          (
            err,
            if c.metrics
                then record_api_call p true (str "send_wol")
                    (elim err [ none ↦ true | some e ↦ false ]) s
                else s,
          )

    -- With a registry, a call of SendWoL for a machine is counted once: as a success if it returns
    -- nil, and then the last of the requests that it made met a 2xx status, and as a failure if it
    -- returns an error.
    pub send_wol_recorded-counts :
        (c : Client) (machine_id : Str) (waits : ℕ → SleepEnd) (s : S)
        → is_empty machine_id ≡ false
        → c.metrics ≡ true
        → (let (result, t) = send_wol_recorded c machine_id waits s in
            ((result ≡ none)
              × (t ≡ record_api_call p true (str "send_wol") true s)
              × (m : ℕ) × (1 ≤ m)
              × ((send_with_retry unmarshal c.retry_config (rounds c machine_id waits)).requests
                  ≡ m)
              × IsSuccess (status_of (attempt_wire c machine_id m)))
            ⊎ ((e : WolError) × (result ≡ some e)
                × (t ≡ record_api_call p true (str "send_wol") false s)))
    unfolding send_wol_recorded rounds send_wol
    send_wol_recorded-counts c machine_id waits s named counted =
        let env = rounds c machine_id waits in
        let sent = send_with_retry unmarshal c.retry_config env in
        elim (Option-cases sent.result) [
          | inl ok ↦
              let (m, total, first, success) =
                send_wol-IsSuccess unmarshal c.retry_config env machine_id (ground arith) in
              inl (ground arith, ground arith, m, first, ground arith, success)
          | inr (e, failed) ↦ inr (e, ground arith, ground arith)
        ]
