-- ===== src/Proxy/Handler/Serving.antt =====
-- Which targets are proxied, and what headers the backend sees.
use smaug.Prelude.{
  Str, str, str_eq, str_eq_iff, is_empty, Bool, false, Bool-cases, Option, some, Option-cases, ◌≡◌,
  ◌↔◌, ◌⊎◌, inl, inr, refl, arith, if◌then◌else◌,
}
use smaug.Prelude.Map.{lookup-insert}
use smaug.Proxy.Handler.{
  Target, Handler, Headers, new_proxy_handler, header, set_unless, add_forwarded_headers,
  x_forwarded_proto, x_forwarded_host,
}

module _ (parse : Str → Option Target) (url : Str) where
  -- A target is proxied exactly if its URL parses with the scheme http or https and a host.
  pub new_proxy_handler_iff :
      (target : Target)
      → (new_proxy_handler parse url ≡ Handler.reverse_proxy target) ↔ (
          (parse url ≡ some target)
          × (target.scheme ≡ str "http" ⊎ target.scheme ≡ str "https")
          × (is_empty target.host ≡ false))
  unfolding new_proxy_handler
  new_proxy_handler_iff target = elim (Option-cases (parse url)) [
    | inl fails ↦ ground arith
    | inr (u, parses) ↦
        ground (arith, str_eq_iff u.scheme (str "http"), str_eq_iff u.scheme (str "https"))
  ]

set_unless-header :
    (n v : Str) (h : Headers) (name : Str)
    → header (set_unless n v h) name
      ≡ (if str_eq n name then (if is_empty (header h n) then v else header h n) else header h name)
unfolding set_unless header
set_unless-header n v h name = elim (Bool-cases (is_empty (header h n))) [
  | inl absent ↦ rw absent (ground (arith, lookup-insert n name v h))
  | inr present ↦ rw present (ground (arith, str_eq_iff n name))
]

-- The backend sees the client's scheme and host in the two headers, unless they came with the
-- request, and the other headers as they came.
pub add_forwarded_headers-header :
    (tls : Bool) (host : Str) (h : Headers) (name : Str)
    → header (add_forwarded_headers tls host h) name ≡ (
        if str_eq x_forwarded_host name
        then (if is_empty (header h x_forwarded_host) then host else header h x_forwarded_host)
        else if str_eq x_forwarded_proto name
        then (if is_empty (header h x_forwarded_proto)
            then (if tls then str "https" else str "http")
            else header h x_forwarded_proto)
        else header h name)
unfolding add_forwarded_headers header str_eq
add_forwarded_headers-header tls host h name =
    let scheme : Str = if tls then str "https" else str "http" in
    let h' = set_unless x_forwarded_proto scheme h in
    let at_host : header h' x_forwarded_host ≡ header h x_forwarded_host =
      set_unless-header x_forwarded_proto scheme h x_forwarded_host in
    rw
      (
        set_unless-header x_forwarded_host host h' name,
        at_host,
        set_unless-header x_forwarded_proto scheme h name,
      )
      refl
