-- ===== src/Throttle/Serving.antt =====
-- What a throttled route does with a request (oauth/throttle.py, `Throttled.__call__`).
use nextcloud_mcp_connector.Base.{
  ℕ, ◌<◌, String, ◌≡◌, ◌≢◌, refl, Bool, true, false, Option, none, some, arith, str_eq, eq_iff, leb,
  ◌==◌, length, if◌then◌else◌, Bool-cases, Option-cases, inl, inr,
}
use nextcloud_mcp_connector.Base.Dict.{Dict, get}
use nextcloud_mcp_connector.Base.Text.{is_empty}
use nextcloud_mcp_connector.Throttle.Counters.{Counter, Throttle, source_limit, key_of, retry_after}
use nextcloud_mcp_connector.Throttle.Counting.{get-record_other, get-forgive_other}
use nextcloud_mcp_connector.Throttle.Wrapper.{Route, passed, settle, serve, passes_by, handle}

-- Where two states agree on one counter, they agree on the wait of an unshared question for it.
retry_after-alone :
    (digest : String → String) (t : Throttle) (path_class source : String) (limit : Option ℕ)
    (now : ℕ) (d d' : Dict Counter)
    → get d (key_of digest path_class source) ≡ get d' (key_of digest path_class source)
    → retry_after digest t path_class source limit false now d
      ≡ retry_after digest t path_class source limit false now d'
unfolding retry_after
retry_after-alone digest t path_class source limit now d d' same = ground (arith, same)

module _ {Request : Type 0} (digest : String → String) (t : Throttle) (route : Route Request) where
  -- The four ways a request takes.
  module _ (app : Request → ℕ) (request : Request) (now later : ℕ)
      (others : Dict Counter → Dict Counter) (counters : Dict Counter) where
    handle-past :
        passes_by route request ≡ true
        → handle digest t route app request now later others counters
          ≡ (others counters, passed (app request))
    unfolding handle
    handle-past past = ground (arith, past)

    handle-anyone :
        passes_by route request ≡ false
        → route.identity ≡ none
        → handle digest t route app request now later others counters
          ≡ serve digest t route (route.source request) true (app request) now later others counters
    unfolding handle
    handle-anyone bound anyone = ground (arith, bound, anyone)

    handle-account :
        (account_of : Request → String)
        → passes_by route request ≡ false
        → route.identity ≡ some account_of
        → handle digest t route app request now later others counters ≡ (
            if is_empty (account_of request)
            then (others counters, passed (app request))
            else serve digest t route
                (account_of request)
                false
                (app request)
                now
                later
                others
                counters)
    unfolding handle
    handle-account account_of bound named = ground (arith, bound, named)

  -- Where every request is counted, the status does not decide.
  serve-count_all :
      (source : String) (shared : Bool) (status status' now later : ℕ)
      (others : Dict Counter → Dict Counter) (counters : Dict Counter)
      → route.count_all ≡ true
      → (serve digest t route source shared status now later others counters).0
        ≡ (serve digest t route source shared status' now later others counters).0
  unfolding serve
  serve-count_all source shared status status' now later others counters all =
      elim (Bool-cases
        (retry_after digest t route.path_class source route.limit shared now counters == 0)) [
          | inl free ↦ rw (free, all) refl
          | inr held ↦ rw held refl
        ]

  -- On a route that counts every request the answer of the application does not reach the counters:
  -- no status, whichever it is, pays an attempt back or counts one more.
  handle-count_all :
      (app app' : Request → ℕ) (request : Request) (now later : ℕ)
      (others : Dict Counter → Dict Counter) (counters : Dict Counter)
      → route.count_all ≡ true
      → (handle digest t route app request now later others counters).0
        ≡ (handle digest t route app' request now later others counters).0
  handle-count_all app app' request now later others counters all =
      elim (Bool-cases (passes_by route request)) [
        | inl past ↦
            rw
              (
                handle-past app request now later others counters past,
                handle-past app' request now later others counters past,
              )
              refl
        | inr bound ↦ elim (Option-cases route.identity) [
          | inl anyone ↦
              rw
                (
                  handle-anyone app request now later others counters bound anyone,
                  handle-anyone app' request now later others counters bound anyone,
                )
                (serve-count_all (route.source request) true (app request) (app' request) now later
                  others counters all)
          | inr (account_of, named) ↦
              rw
                (
                  handle-account app request now later others counters account_of bound named,
                  handle-account app' request now later others counters account_of bound named,
                )
                (elim (Bool-cases (is_empty (account_of request))) [
                  | inl nobody ↦ rw nobody refl
                  | inr somebody ↦ rw somebody (
                      serve-count_all (account_of request) false (app request) (app' request) now
                        later others counters all)
                ])
        ]
      ]

  get-serve_other :
      (source j : String) (status now later : ℕ) (counters : Dict Counter)
      → length counters < source_limit
      → str_eq (key_of digest route.path_class source) j ≡ false
      → get ((serve digest t route source false status now later (λ d. d) counters).0) j
        ≡ get counters j
  unfolding serve settle
  get-serve_other source j status now later counters few apart =
      let recorded =
        λ (at : ℕ). get-record_other digest route.path_class source j counters apart t at few in
      let forgiven = get-forgive_other digest route.path_class source j counters apart in
      elim (Bool-cases
        (retry_after digest t route.path_class source route.limit false now counters == 0)) [
          | inr held ↦ rw held refl
          | inl free ↦ elim (Bool-cases route.count_all) [
            | inl all ↦ rw (free, all) (recorded now)
            | inr refusals ↦ elim (Bool-cases (leb 400 status)) [
              | inl failed ↦ rw (free, refusals, failed) (recorded later)
              | inr fine ↦ rw (free, refusals, fine) forgiven
            ]
          ]
        ]

  -- Where the source is a signed account, no request of one account changes what another account is
  -- told to wait, as long as the two keys differ and the sweep has no reason to run.
  pub handle-other_account :
      (account_of : Request → String) (app : Request → ℕ) (request : Request) (other : String)
      (now later at : ℕ) (counters : Dict Counter)
      → route.identity ≡ some account_of
      → length counters < source_limit
      → key_of digest route.path_class (account_of request) ≢ key_of digest route.path_class other
      → retry_after digest t route.path_class other route.limit false at
          ((handle digest t route app request now later (λ d. d) counters).0)
        ≡ retry_after digest t route.path_class other route.limit false at counters
  handle-other_account account_of app request other now later at counters named few apart =
      elim (Bool-cases (passes_by route request)) [
        | inl past ↦ rw (handle-past app request now later (λ d. d) counters past) refl
        | inr bound ↦
            rw (handle-account app request now later (λ d. d) counters account_of bound named)
              (elim (Bool-cases (is_empty (account_of request))) [
                | inl nobody ↦ rw nobody refl
                | inr somebody ↦ rw somebody (
                    retry_after-alone digest t route.path_class other route.limit at _ counters (
                      get-serve_other (account_of request) (key_of digest route.path_class other)
                        (app request) now later counters few
                        (ground (
                          arith,
                          eq_iff (key_of digest route.path_class (account_of request))
                              (key_of digest route.path_class other),
                        ))))
              ])
      ]
