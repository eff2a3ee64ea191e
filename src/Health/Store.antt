-- ===== src/Health/Store.antt =====
-- internal/store/health_store.go and the status of internal/health/types.go: what is known of each
-- server's health, under the server's identifier.
use smaug.Prelude.{ℕ, Str, Bool, [], ◌∷◌, Option, Time}
use smaug.Prelude.Map.{Map, lookup, insert}

-- The sentinel errors of internal/health/health.go, and the one that a passed deadline gives.
pub data Sentinel : Type 0 where
  deadline_exceeded health_check_network_error health_check_failed : Sentinel
  health_check_url_missing health_check_too_many_redirects : Sentinel

-- The errors of a check, with the values that their texts show.
pub data HealthError : Type 0 where
  url_missing : HealthError
  network_error : Str → HealthError
  unhealthy_status : Str → ℕ → HealthError

pub record ServerHealthStatus : Type 0 where
  pub server_id : Str
  pub healthy : Bool
  pub last_checked_at : Time
  pub last_error : Option HealthError  -- its text is kept, "" for none

abbrev pub InMemoryHealthStore : Type 0
InMemoryHealthStore = Map ServerHealthStatus

abbrev pub new_in_memory_health_store : InMemoryHealthStore
new_in_memory_health_store = []

unfoldable pub get : InMemoryHealthStore → Str → Option ServerHealthStatus
get s server_id = lookup server_id s

unfoldable pub update : InMemoryHealthStore → Str → ServerHealthStatus → InMemoryHealthStore
update s server_id status = insert server_id status s

-- The copying loop of GetAll, over the entries in the order of `range`.
unfoldable pub copy_all : InMemoryHealthStore → InMemoryHealthStore → InMemoryHealthStore
copy_all [] result = result
copy_all ((k, v) ∷ es) result = copy_all es (insert k v result)

unfoldable pub get_all :
    (InMemoryHealthStore → InMemoryHealthStore) → InMemoryHealthStore → InMemoryHealthStore
get_all range s = copy_all (range s) []
