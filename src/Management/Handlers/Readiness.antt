-- ===== src/Management/Handlers/Readiness.antt =====
-- The readiness endpoint and the routes.
use smaug.Prelude.{
  ℕ, ◌==◌, Str, str, str_eq, Bool, Bool-cases, true, false, List, [], ◌∷◌, none, ◌≡◌, refl, ◌↔◌,
  arith, if◌then◌else◌, In, count_if, inl, inr,
}
use smaug.Prelude.Map.{Map, insert}
use smaug.Middleware.Response.{
  Request, Response, serve, send_header, send_body, start_body, change_headers, final_status,
  is_informational, status_ok,
}
use smaug.Management.Handlers.{
  Answer, VersionInfo, new_ready_handler, health_mux, service_unavailable,
}
use smaug.Proxy.RouteManager.Listeners.{ListenerState, RouteManager}
use smaug.Proxy.RouteManager.Status.{get_active_route_count, is_running}

-- A listener in the list of routes serves.
abbrev pub HasRunning : RouteManager → Type 0
HasRunning m = (i : ℕ) × In i m.routes × ((m.listeners i).state ≡ ListenerState.running)

is_running_iff : (s : ListenerState) → (is_running s ≡ true) ↔ (s ≡ ListenerState.running)
is_running_iff s = ground arith

count-HasRunning :
    (m : RouteManager) (is : List ℕ)
    → ((count_if (λ i. is_running (m.listeners i).state) is == 0) ≡ false)
      ↔ ((i : ℕ) × In i is × ((m.listeners i).state ≡ ListenerState.running))
unfolding count_if
count-HasRunning m [] = (λ h. ground arith, λ (i, nowhere, e). absurd nowhere)
count-HasRunning m (i ∷ is) =
    let (found, counted) = count-HasRunning m is in
    (
      λ h. elim (Bool-cases (is_running (m.listeners i).state)) [
        | inl here ↦ (i, inl refl, (is_running_iff (m.listeners i).state).0 here)
        | inr not_here ↦ let (j, at, e) = found (ground arith) in (j, inr at, e)
      ],
      λ (j, at, e). elim at [
        | inl same ↦
            let here : is_running (m.listeners i).state ≡ true =
              (is_running_iff (m.listeners i).state).1 (rw (← same) e) in
            ground arith
        | inr rest ↦ let more = counted (j, rest, e) in ground arith
      ],
    )

by_status :
    (P : Type 0) (idle : Bool) (status : ℕ)
    → status ≡ (if idle then service_unavailable else status_ok)
    → (idle ≡ false) ↔ P
    → ((status ≡ status_ok) ↔ P) × ((status ≡ service_unavailable) ↔ (¬ P))
by_status P true status e (to, from) = (
  (λ h. ground arith, λ p. let never = from p in ground arith),
  (λ h p. let never = from p in ground arith, λ no_route. e),
)
by_status P false status e (to, from) =
    ((λ h. to refl, λ p. e), (λ h. ground arith, λ no_route. absurd (no_route (to refl))))

module _ (encode : Answer → Str) where
  sent-status :
      (code : ℕ) (f : Map Str → Map Str) (b : Str) (r : Response)
      → r.status ≡ none
      → is_informational code ≡ false
      → final_status (send_body b (send_header code (change_headers f r))) ≡ code
  unfolding final_status send_body start_body send_header change_headers
  sent-status code f b r fresh final = ground arith

  ready-status :
      (active : ℕ) (req : Request) (r : Response)
      → req.method ≡ str "GET"
      → r.status ≡ none
      → final_status (serve (new_ready_handler encode active req) r).0
        ≡ (if active == 0 then service_unavailable else status_ok)
  unfolding new_ready_handler serve str_eq
  ready-status active req r get fresh =
      let code = if active == 0 then service_unavailable else status_ok in
      let final : is_informational code ≡ false = unfold is_informational in ground arith in
      let json = insert (str "Content-Type") (str "application/json") in
      simp (new_ready_handler, get) (sent-status code json (encode _) r fresh final)

  -- A GET of /ready is answered with 200 exactly if the listener of some route is running, and else
  -- with 503.
  pub ready_iff :
      (m : RouteManager) (info : VersionInfo) (uptime : Str) (req : Request) (r : Response)
      → req.method ≡ str "GET"
      → req.path ≡ str "/ready"
      → r.status ≡ none
      → ((final_status (serve (health_mux encode (get_active_route_count m) info uptime req) r).0
            ≡ status_ok)
          ↔ HasRunning m)
        × ((final_status (serve (health_mux encode (get_active_route_count m) info uptime req) r).0
              ≡ service_unavailable)
            ↔ (¬ HasRunning m))
  unfolding health_mux get_active_route_count str_eq
  ready_iff m info uptime req r get path fresh =
      let status = ready-status (get_active_route_count m) req r get fresh in
      let counted = count-HasRunning m m.routes in
      simp (health_mux, path) (by_status (HasRunning m) _ _ status counted)
