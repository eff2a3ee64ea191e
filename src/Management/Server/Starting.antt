-- ===== src/Management/Server/Starting.antt =====
-- When Start returns, and what.
use smaug.Prelude.{Str, false, Option, none, some, ◌≡◌, ◌≢◌, arith}
use smaug.Management.Server.{
  Server, ServerError, Step, Reach, Goes, start_begins, start_returns, sleeper_wakes, listen_begins,
  listen_ends, watcher_looks, watcher_ends, stop,
}

abbrev Failed : Server → Type 0
Failed s = s.start_err ≢ none

Step-Failed : (s t : Server) → Step s t → Failed s → Failed t
unfolding start_returns sleeper_wakes listen_begins listen_ends watcher_looks watcher_ends stop
Step-Failed s _ (Step.returning t e r) f = ground arith
Step-Failed s _ (Step.waking w) f = ground arith
Step-Failed s _ (Step.launching w) f = f
Step-Failed s _ (Step.listened w none) f = f
Step-Failed s _ (Step.listened w (some e)) f = ground arith
Step-Failed s _ (Step.cancelled w) f = ground arith
Step-Failed s _ (Step.shut_down w) f = f
Step-Failed s _ (Step.stopping how) f = ground arith

start_begins-Failed : (s : Server) → Failed s → Failed (start_begins s).0
unfolding start_begins
start_begins-Failed s f = ground arith

Reach-Failed : (s t : Server) → Failed s → Reach s t → Failed t
Reach-Failed s _ f Reach.here = f
Reach-Failed s _ f (Reach.next {t = t} {u = u} r step) = Step-Failed t u step (Reach-Failed s t f r)
Reach-Failed s _ f (Reach.restarted {t = t} r) = start_begins-Failed t (Reach-Failed s t f r)

-- Once a server has failed to listen, no call of Start returns nil any more, though a later call
-- may well listen.
pub failure_is_kept :
    (s t u : Server) (e : Str) (result : Option ServerError)
    → Reach (listen_ends (some e) s) t
    → start_returns t ≡ some (u, result)
    → result ≢ none
unfolding listen_ends start_returns
failure_is_kept s t u e result r returned =
    let kept : Failed t = Reach-Failed (listen_ends (some e) s) t (λ h. ground arith) r in
    ground arith

-- The server does not run, and no goroutine is left that would set that or close `started`; those
-- that sleep for 100 ms may still be there.
abbrev IsStuck : Server → Type 0
IsStuck s = (s.started ≡ false) × (s.running ≡ false) × (s.launching ≡ 0) × (s.listening ≡ 0)

Step-IsStuck : (s t : Server) → Step s t → IsStuck s → IsStuck t
unfolding start_returns sleeper_wakes listen_begins listen_ends watcher_looks watcher_ends stop
Step-IsStuck s _ (Step.returning t e r) v = ground arith
Step-IsStuck s _ (Step.waking w) v = ground arith
Step-IsStuck s _ (Step.launching w) v = ground arith
Step-IsStuck s _ (Step.listened w e) v = ground arith
Step-IsStuck s _ (Step.cancelled w) v = ground arith
Step-IsStuck s _ (Step.shut_down w) v = ground arith
Step-IsStuck s _ (Step.stopping how) v = ground arith

Goes-IsStuck : (s t : Server) → IsStuck s → Goes s t → IsStuck t
Goes-IsStuck s _ v Goes.here = v
Goes-IsStuck s _ v (Goes.next {t = t} {u = u} g step) = Step-IsStuck t u step (Goes-IsStuck s t v g)

pub early_cancel_hangs :
    (s t : Server)
    → s.running ≡ false
    → s.started ≡ false
    → (s.launching ≡ 0) × (s.listening ≡ 0)
    → Goes (watcher_ends (listen_ends none (watcher_looks (listen_begins (start_begins s).0)))) t
    → start_returns t ≡ none
unfolding start_begins listen_begins watcher_looks watcher_ends listen_ends start_returns
early_cancel_hangs s t idle unstarted none_left g =
    let at_end : IsStuck
        (watcher_ends (listen_ends none (watcher_looks (listen_begins (start_begins s).0)))) =
      ground arith in
    let stuck : IsStuck t = Goes-IsStuck _ t at_end g in ground arith
