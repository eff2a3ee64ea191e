-- ===== src/Middleware/Answers.antt =====
-- The middlewares around a handler: what the client gets and what is recorded.
use smaug.Prelude.{
  Str, str, true, false, [], ◌∷◌, Option, none, some, ◌≡◌, ◌⊎◌, inl, inr, sym, length, refl, ap,
  ◌∙◌, arith,
}
use smaug.Prelude.Map.{insert}
use smaug.Middleware.Response.{
  Entry, Request, Response, Handler, serve, change_headers, noting, final_status, status_ok,
}
use smaug.Middleware.Logging.{IsPlain, Agrees, response_entry, logged-serve}
use smaug.Middleware.Response.Sizes.{serve-written}
use smaug.Middleware.Recovery.{answered, recovered-serve}
use smaug.Middleware.Chain.{
  Middleware, extract_client_ip, new_logging_middleware, new_recovery_middleware, chain, chain-cons,
  chain-nil,
}

-- Nothing is sent yet.
abbrev pub IsNew : Response → Type 0
IsNew r = (r.status ≡ none) × (r.body ≡ []) × (r.written ≡ 0)

module _ (id : Str) where
  -- What the handler behind the logging middleware is given.
  abbrev pub with_id : Request → Request
  with_id req = record req { request_id = some id }

  abbrev pub identified : Response → Response
  identified r = change_headers (insert (str "X-Request-ID") id) r

identified-kept :
    (id : Str) (r : Response)
    → IsNew r
    → ((identified id r).head ≡ r.head)
      × (length (identified id r).body ≡ (identified id r).written)
unfolding change_headers
identified-kept id r fresh = (ground arith, ground arith)

module _ (trim_space : Str → Str) (split_host_port : Str → Option Str) (id : Str) where
  -- The chain that initRouteManager (cmd/smaug/main.go) gives to the routes.
  unfoldable pub route_middleware : Middleware
  route_middleware =
      chain (new_recovery_middleware ∷ new_logging_middleware trim_space split_host_port id ∷ [])

  identified-Agrees :
      (r : Response)
      → IsNew r
      → Agrees
          (record { status_code = status_ok; bytes_written = 0; header_written = false })
          (identified id r)
  unfolding change_headers
  identified-Agrees r v = record { status = ground arith; unsent = λ h. refl; bytes = ground arith }

  pub new_logging_middleware-serve :
      (h : Handler) (req : Request) (r : Response)
      → IsPlain false (h (with_id id req))
      → IsNew r
      → (serve (new_logging_middleware trim_space split_host_port id h req) r
          ≡ noting
              (Entry.request id req.method req.path
                (extract_client_ip trim_space split_host_port req))
              (
                (serve (h (with_id id req)) (identified id r)).0,
                response_entry (Entry.response id) (serve (h (with_id id req)) (identified id r)),
                (serve (h (with_id id req)) (identified id r)).2,
              ))
        × ((r.head ≡ true)
            ⊎ (length (serve (h (with_id id req)) (identified id r)).0.body
                ≡ (serve (h (with_id id req)) (identified id r)).0.written))
  unfolding new_logging_middleware serve
  new_logging_middleware-serve h req r plain fresh = (
    ap (noting _) (
        logged-serve (Entry.response id) (h (with_id id req)) _ (identified id r) plain
          (identified-Agrees r fresh)),
    elim (serve-written (h (with_id id req)) (identified id r) (identified-kept id r fresh).1) [
      | inl head ↦ inl (sym (identified-kept id r fresh).0 ∙ head)
      | inr same ↦ inr same
    ],
  )

  -- Behind the middlewares of the routes every request is answered, provided that its handler sends
  -- no informational header and does not flush before its response has begun: with the status that
  -- the handler sends, or else with 200 if it returns and with 500 if it panics.
  pub route_middleware-serve :
      (h : Handler) (req : Request) (r : Response)
      → IsPlain false (h (with_id id req))
      → IsNew r
      → ((serve (route_middleware h req) r).2 ≡ true)
        × (final_status (serve (route_middleware h req) r).0
            ≡ answered (serve (h (with_id id req)) (identified id r)))
  unfolding route_middleware new_recovery_middleware
  route_middleware-serve h req r plain fresh =
      let unrolled : route_middleware h
          ≡ new_recovery_middleware (new_logging_middleware trim_space split_host_port id h) =
        chain-cons _ _ h
        ∙ ap new_recovery_middleware (
            chain-cons _ _ h
            ∙ ap (new_logging_middleware trim_space split_host_port id) (chain-nil h)) in
      let (ends, status) =
        recovered-serve (Entry.panic_recovered req.method req.path)
          (new_logging_middleware trim_space split_host_port id h req) r in
      rw unrolled (ends, status ∙ ap answered (new_logging_middleware-serve h req r plain fresh).0)
