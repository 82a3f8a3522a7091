-- ===== src/Throttle/Wrapper.antt =====
-- oauth/throttle.py, `Throttled` and `source_of`. A request is what the wrapper reads of it, and
-- `app` is the wrapped application: the status that it answers.
use nextcloud_mcp_connector.Base.{
  ℕ, String, Bool, true, false, not, Option, none, some, ◌==◌, leb, if◌then◌else◌,
}
use nextcloud_mcp_connector.Base.Dict.{Dict}
use nextcloud_mcp_connector.Base.Text.{is_empty, strip}
use nextcloud_mcp_connector.Throttle.Counters.{
  Counter, Throttle, retry_after, record_attempt, forgive,
}

-- `first_of` is `header.split(",")[0]`.
unfoldable pub source_of :
    (first_of : String → String) (forwarded peer : Option String) (trust_forwarded : Bool) → String
unfolding strip
source_of first_of forwarded peer trust_forwarded =
    let host : String = elim peer [ none ↦ "" | some host ↦ host ] in
    let header : String = elim forwarded [ none ↦ "" | some text ↦ text ] in
    let first = strip (first_of header) in
    if not trust_forwarded then host else if is_empty first then host else first

-- What one route is wrapped with. `identity` and `applies` are functions of the request.
pub record Route (Request : Type 0) : Type 0 where
  pub path_class : String
  pub machine : Bool
  pub count_all : Bool
  pub limit : Option ℕ
  pub identity : Option (Request → String)
  pub applies : Option (Request → Bool)
  pub source : Request → String

-- The application's answer is passed on, or the wrapper writes its own 429: as JSON for a machine,
-- as a page for a person, with the same number of seconds.
pub data Response : Type 0 where
  passed : ℕ → Response
  refused_json : ℕ → Response
  refused_page : ℕ → Response

unfoldable pub refuse : (machine : Bool) → ℕ → Response
refuse true wait = refused_json wait
refuse false wait = refused_page wait

abbrev pub passes_by : {Request : Type 0} → Route Request → Request → Bool
passes_by route request = elim route.applies [ none ↦ false | some test ↦ not (test request) ]

module _ {Request : Type 0} (digest : String → String) (t : Throttle) (route : Route Request) where
  -- The application ran without a 429: what its answer does to the counters.
  unfoldable pub settle :
      (source : String) (shared : Bool) (status now : ℕ) → Dict Counter → Dict Counter
  settle source shared status now counters =
      if leb 400 status
      then record_attempt digest t route.path_class source shared now counters
      else forgive digest route.path_class source counters

  -- A request whose source is known. The clock is read at the question and, where the status is
  -- counted, once more after the answer. `others` is what the requests that are served while the
  -- application works do to the counters.
  unfoldable pub serve :
      (source : String) (shared : Bool) (status now later : ℕ)
      (others : Dict Counter → Dict Counter)
      → Dict Counter
      → Dict Counter × Response
  unfolding settle refuse
  serve source shared status now later others counters =
      let wait = retry_after digest t route.path_class source route.limit shared now counters in
      if not (wait == 0)
      then (counters, refuse route.machine wait)
      else if route.count_all
      then (
        others (record_attempt digest t route.path_class source shared now counters),
        passed status,
      )
      else (settle source shared status later (others counters), passed status)

  unfoldable pub handle :
      (app : Request → ℕ) (request : Request) (now later : ℕ) (others : Dict Counter → Dict Counter)
      → Dict Counter
      → Dict Counter × Response
  unfolding serve
  handle app request now later others counters =
      if passes_by route request
      then (others counters, passed (app request))
      else elim route.identity [
        | some account_of ↦
            if is_empty (account_of request)
            then (others counters, passed (app request))
            else serve (account_of request) false (app request) now later others counters
        | none ↦ serve (route.source request) true (app request) now later others counters
      ]
