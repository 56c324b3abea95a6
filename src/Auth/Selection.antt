-- ===== src/Auth/Selection.antt =====
-- The attempts with the candidates: `CameraAuthenticator` of src/okam_native/auth.py. The lock of a
-- camera is held from the first attempt to the last, so a call is one sequence of steps; the log
-- lines are left out.
use okam_ha_proxy.Prelude.{
  ℕ, ◌+◌, Bool, true, false, not, ◌&&◌, List, [], ◌∷◌, ◌++◌, map, Option, none, some, Text, equal,
  ◌==◌, if◌then◌else◌,
}
use okam_ha_proxy.Auth.Candidates.{
  Source, manual_password, account_device_password, empty_password, fallback_888888, Candidate,
}
use okam_ha_proxy.Auth.Cache.{Entry, Cache, get, invalidate, set_source}

-- `AuthenticationResult` of src/okam_native/p2p.py, as far as it is read here; a login result is
-- its absolute value, since the code asks only whether it is 0.
pub record LoginResult : Type 0 where
  pub connected : Bool
  pub login_sent : Bool
  pub login_response_received : Bool
  pub authenticated : Bool
  pub login_result : Option ℕ

abbrev pub source_number : Source → ℕ
source_number manual_password = 0
source_number account_device_password = 1
source_number empty_password = 2
source_number fallback_888888 = 3

abbrev pub same_uid : Option Text → Option Text → Bool
same_uid none known = true
same_uid (some uid) none = false
same_uid (some uid) (some known) = equal known uid

-- `_matches_cached`
abbrev pub matches_cached : Option Entry → Candidate → Bool
matches_cached none candidate = false
matches_cached (some entry) candidate =
    (source_number candidate.source == source_number entry.source)
    && same_uid entry.source_uid candidate.source_uid

abbrev pub tried_first :
    Option (Candidate × List Candidate) → Candidate → Option (Candidate × List Candidate)
tried_first none candidate = none
tried_first (some (cached, others)) candidate = some (cached, candidate ∷ others)

-- The first candidate that matches, and the others; the candidates are different objects.
unfoldable pub pick : Option Entry → List Candidate → Option (Candidate × List Candidate)
pick entry [] = none
pick entry (candidate ∷ candidates) =
    let rest = pick entry candidates in
    if matches_cached entry candidate
    then some (candidate, candidates)
    else tried_first rest candidate

abbrev pub order_from :
    List Candidate → Option (Candidate × List Candidate) → List (Candidate × Bool)
order_from available none = map (λ c. (c, false)) available
order_from available (some (cached, others)) = (cached, true) ∷ map (λ c. (c, false)) others

-- `ordered`
unfoldable pub order : Option Entry → List Candidate → List (Candidate × Bool)
unfolding pick
order entry available = order_from available (pick entry available)

abbrev pub is_refusal : Option ℕ → Bool
is_refusal none = false
is_refusal (some code) = not (code == 0)

-- `explicit_rejection`
unfoldable pub explicit_rejection : LoginResult → Bool
explicit_rejection r =
    r.connected
    && r.login_sent
    && r.login_response_received
    && not r.authenticated
    && is_refusal r.login_result

-- How a call ends: with a candidate, with `AuthenticationRejected`, with
-- `AuthenticationTransportError`, or with the P2PError of the attempt itself.
pub data Outcome : Type 0 where
  selected : Candidate → LoginResult → Outcome
  rejected : List (Option ℕ) → Outcome
  transport_error attempt_failed : Outcome

-- `if candidate.source != MANUAL_SOURCE: self.cache.set(...)`
abbrev pub persist : Text → Candidate → Cache → Cache
persist uid candidate cache =
    if source_number candidate.source == 0
    then cache
    else set_source uid (record { source = candidate.source; source_uid = candidate.source_uid })
        cache

-- What a call leaves behind: how it ends, the candidates it has tried, and the cache.
abbrev pub After : Type 0
After = Outcome × List Candidate × Cache

abbrev pub tried : Candidate → After → After
tried candidate after = (after.0, candidate ∷ after.1, after.2)

-- `attempt` may answer each time differently; `none` is a P2PError that it raises.
abbrev pub Attempt : Type 0
Attempt = ℕ → Candidate → Option LoginResult

module _ (attempt : Attempt) (uid : Text) where
  -- What is done about an answer; `rest` goes on with the next candidate.
  abbrev pub conclude :
      Candidate → Bool → Cache → Option LoginResult → (Option ℕ → Cache → After) → After
  conclude candidate cached cache none rest = (attempt_failed, [], cache)
  conclude candidate cached cache (some result) rest =
      if result.authenticated
      then (selected candidate result, [], persist uid candidate cache)
      else if explicit_rejection result
      then rest result.login_result (if cached then invalidate uid cache else cache)
      else (transport_error, [], cache)

  -- The loop over `ordered`, at attempt `number`.
  unfoldable pub attempt_each : ℕ → List (Candidate × Bool) → List (Option ℕ) → Cache → After
  attempt_each number [] results cache = (rejected results, [], cache)
  attempt_each number ((candidate, cached) ∷ others) results cache = tried candidate (
      conclude candidate cached cache (attempt number candidate)
        λ code cache'. attempt_each (number + 1) others (results ++ code ∷ []) cache')

  -- `authenticate`
  unfoldable pub authenticate : List Candidate → Cache → After
  unfolding attempt_each order
  authenticate available cache = attempt_each 1 (order (get uid cache) available) [] cache

-- What a call of `authenticate_resource` does with the sessions that attempts have opened.
pub data Event {ℓ} (Resource : Type ℓ) : Type ℓ where
  attempted : Candidate → Event Resource
  discarded : Resource → Event Resource

pub data ResourceOutcome {ℓ} (Resource : Type ℓ) : Type ℓ where
  kept : Candidate → LoginResult → Option Resource → ResourceOutcome Resource
  ended : Outcome → ResourceOutcome Resource

module _ {Resource : Type 0} (attempt : ℕ → Candidate → Option (LoginResult × Option Resource))
    (uid : Text) where
  abbrev pub AfterResource : Type 0
  AfterResource = ResourceOutcome Resource × List (Event Resource) × Cache

  abbrev pub with_events : List (Event Resource) → AfterResource → AfterResource
  with_events events after = (after.0, events ++ after.1, after.2)

  -- `if resource is not None and discard is not None: discard(resource)`
  abbrev pub discard_events : Option Resource → List (Event Resource)
  discard_events none = []
  discard_events (some resource) = discarded resource ∷ []

  abbrev pub conclude_resource :
      Candidate
      → Bool
      → Cache
      → Option (LoginResult × Option Resource)
      → (Option ℕ → Cache → AfterResource)
      → AfterResource
  conclude_resource candidate cached cache none rest = (ended attempt_failed, [], cache)
  conclude_resource candidate cached cache (some (result, resource)) rest =
      if result.authenticated
      then (kept candidate result resource, [], persist uid candidate cache)
      else with_events (discard_events resource) (
          if explicit_rejection result
          then rest result.login_result (if cached then invalidate uid cache else cache)
          else (ended transport_error, [], cache))

  -- The loop, with a `discard` given.
  unfoldable pub attempts_resource :
      ℕ → List (Candidate × Bool) → List (Option ℕ) → Cache → AfterResource
  attempts_resource number [] results cache = (ended (rejected results), [], cache)
  attempts_resource number ((candidate, cached) ∷ others) results cache =
      with_events (attempted candidate ∷ []) (
        conclude_resource candidate cached cache (attempt number candidate)
          λ code cache'. attempts_resource (number + 1) others (results ++ code ∷ []) cache')

  -- `authenticate_resource`
  unfoldable pub authenticate_resource : List Candidate → Cache → AfterResource
  unfolding attempts_resource order
  authenticate_resource available cache =
      attempts_resource 1 (order (get uid cache) available) [] cache
