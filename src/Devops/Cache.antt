-- ===== src/Devops/Cache.antt =====
-- The cache of pool identifiers.
use azdo_kube_operator.Base.{
  ltb→lt, ◌⊎◌, ◌≤◌, ap, sym, ◌∙◌, ℕ, zero, suc, ◌<◌, ◌+◌, ◌≡◌, refl, Bool, true, false, Bool-cases,
  String, none, some, Option-cases, inl, inr, ℤ, lookup, insert, lookup-insert, ltb, lt→ltb, arith,
  ◌∷◌, List, [],
}
use azdo_kube_operator.World.{
  wrapped, finally, http_get, pools_named, pure, ◌>>=◌, ◌>>◌, Env, State, PoolCacheEntry, Call,
  Request, Response, HttpReply, response, transport_failure, ok, Action, AgentPool,
}
use azdo_kube_operator.World.Inversion.{bind-eq-ok}
use azdo_kube_operator.World.Caches.{
  KeepsCache, KeepsCache-pure, KeepsCache-bind, KeepsCache-wrapped, cache_rules,
}
use azdo_kube_operator.Devops.{
  AzureDevOpsClient, request_of, new_request, jittered, retry_delay, pause, close, read_all,
  rate_limited, after_reply, try_once, Last, got, failed, nothing_yet, again, done, Round, follow,
  conclude, send, do_request_with_backoff, fresh, remember, first_pool, read_pool_id, fetch_pool_id,
  get_pool_id_by_name, cache_expiration,
}

module _ (env : Env) where
  pause-KeepsCache : (d : ℤ) → KeepsCache (pause env d)
  unfolding pause
  pause-KeepsCache d = search cache_rules

  retry_delay-KeepsCache : (n : ℕ) (h : String) → KeepsCache (retry_delay env n h)
  unfolding retry_delay
  retry_delay-KeepsCache n h = search cache_rules

  rate_limited-KeepsCache : (n : ℕ) (r : Response) → KeepsCache (rate_limited env n r)
  unfolding rate_limited close
  rate_limited-KeepsCache n r = search (cache_rules, pause-KeepsCache, retry_delay-KeepsCache)

  jittered-KeepsCache : (n : ℕ) → KeepsCache (jittered env n)
  unfolding jittered
  jittered-KeepsCache n = search cache_rules

  after_reply-KeepsCache : (n : ℕ) (h : HttpReply) → KeepsCache (after_reply env n h)
  unfolding after_reply
  after_reply-KeepsCache n (transport_failure e) =
      search (cache_rules, pause-KeepsCache, jittered-KeepsCache) depth 8
  after_reply-KeepsCache n (response r) = search (cache_rules, rate_limited-KeepsCache)

  try_once-KeepsCache : (n : ℕ) (r : Request) → KeepsCache (try_once env n r)
  unfolding try_once
  try_once-KeepsCache n r = search (cache_rules, after_reply-KeepsCache)

  follow-KeepsCache :
      (round : Round) (f : Last → Action Response)
      → ((l : Last) → KeepsCache (f l))
      → KeepsCache (follow round f)
  follow-KeepsCache (again l) f k = k l
  follow-KeepsCache (done r) f k = KeepsCache-pure r

  send-KeepsCache : (n attempt : ℕ) (r : Request) (l : Last) → KeepsCache (send env n attempt r l)
  unfolding send conclude
  send-KeepsCache zero attempt r nothing_yet = record { at = λ s. refl }
  send-KeepsCache zero attempt r (got x) = record { at = λ s. refl }
  send-KeepsCache zero attempt r (failed e) = record { at = λ s. refl }
  send-KeepsCache (suc n) attempt r l =
      KeepsCache-bind _ _ (try_once-KeepsCache attempt r)
        (λ round. follow-KeepsCache round _ (send-KeepsCache n (suc attempt) r))

  do_request_with_backoff-KeepsCache : (r : Request) → KeepsCache (do_request_with_backoff env r)
  unfolding do_request_with_backoff
  do_request_with_backoff-KeepsCache r = search (cache_rules, send-KeepsCache)

  entry_for : ℤ → ℕ → PoolCacheEntry
  entry_for id now = record { id = id; expires_at = now + cache_expiration }

  -- The last step: the identifier is stored, and is the result.
  remembered :
      (name : String) (b : Bool) (ps : List AgentPool) (s : State) {id : ℤ}
      → ((first_pool name b ps >>= λ x. remember env name x >> pure x) s).0 ≡ ok id
      → ((first_pool name b ps >>= λ x. remember env name x >> pure x) s).1.pool_id_cache
        ≡ insert name (entry_for id (env.clock s.log)) s.pool_id_cache
  unfolding first_pool remember entry_for
  remembered name b [] s h = ground arith
  remembered name true (p ∷ ps) s h = ground arith
  remembered name false (p ∷ ps) s h = ground arith

  read_pool_id-stores :
      (name : String) (r : Response) (s : State) {id : ℤ}
      → (read_pool_id env name r s).0 ≡ ok id
      → (read_pool_id env name r s).1.pool_id_cache
        ≡ insert name (entry_for id (env.clock (Call.read_body r.body ∷ s.log))) s.pool_id_cache
  unfolding read_pool_id read_all
  read_pool_id-stores name r s h = grind (arith, remembered)

  module _ (client : AzureDevOpsClient) (name : String) where
    -- The request of `fetch_pool_id` and what follows it.
    asked : Action ℤ
    asked = do
      resp ←
          wrapped "failed to execute request"
            (do_request_with_backoff env (request_of client http_get (pools_named name) none))
      finally (close resp.body) (read_pool_id env name resp)

    asked-stores :
        (s : State) {id : ℤ}
        → (asked s).0 ≡ ok id
        → (t : ℕ) × ((asked s).1.pool_id_cache ≡ insert name (entry_for id t) s.pool_id_cache)
    unfolding asked close
    asked-stores s {id = id} h =
        let req : Request = request_of client http_get (pools_named name) none in
        let m : Action Response =
          wrapped "failed to execute request" (do_request_with_backoff env req) in
        let f : Response → Action ℤ =
          λ resp. finally (close resp.body) (read_pool_id env name resp) in
        let (resp, e, k) = bind-eq-ok m f s h in
        let kept =
          (KeepsCache-wrapped "failed to execute request" _
              (do_request_with_backoff-KeepsCache req)).at
            s in
        (
          env.clock (Call.read_body resp.body ∷ (m s).1.log),
          ap (λ x. x.1.pool_id_cache) k
              ∙ read_pool_id-stores name resp (m s).1 (ap (λ x. x.0) (sym k) ∙ h)
              ∙ ap (insert name (entry_for id (env.clock (Call.read_body resp.body ∷ (m s).1.log))))
                  kept,
        )

    fetch_pool_id-stores :
        (s : State) {id : ℤ}
        → (fetch_pool_id env client name s).0 ≡ ok id
        → (t : ℕ) × ((fetch_pool_id env client name s).1.pool_id_cache
            ≡ insert name (entry_for id t) s.pool_id_cache)
    unfolding fetch_pool_id new_request asked
    fetch_pool_id-stores s h =
        elim (Bool-cases (env.url_parses client.org_url (pools_named name))) [
          | inl e ↦ rw e (asked-stores s (rw e at h))
          | inr e ↦ ground arith
        ]

    -- A fresh entry answers without a request: nothing is done but to read the clock.
    pub get_pool_id_by_name_hit :
        (s : State) (entry : PoolCacheEntry)
        → lookup name s.pool_id_cache ≡ some entry
        → env.clock s.log < entry.expires_at
        → get_pool_id_by_name env client name s
          ≡ (ok entry.id, record s { log = Call.clock ∷ s.log })
    unfolding get_pool_id_by_name fresh
    get_pool_id_by_name_hit s entry e fits = rw (e, lt→ltb _ _ fits)

    -- That the cache holds `id` for the name.
    Holds : ℤ → State → Type 0
    Holds id s =
        (entry : PoolCacheEntry) × (lookup name s.pool_id_cache ≡ some entry) × (entry.id ≡ id)

    fetch_pool_id-Holds :
        (s : State) {id : ℤ}
        → (fetch_pool_id env client name s).0 ≡ ok id
        → Holds id (fetch_pool_id env client name s).1
    unfolding Holds entry_for
    fetch_pool_id-Holds s {id = id} h =
        let (t, e) = fetch_pool_id-stores s h in
        (
          entry_for id t,
          ap (lookup name) e ∙ lookup-insert name (entry_for id t) s.pool_id_cache,
          refl,
        )

    get_pool_id_by_name-Holds :
        (s : State) {id : ℤ}
        → (get_pool_id_by_name env client name s).0 ≡ ok id
        → Holds id (get_pool_id_by_name env client name s).1
    unfolding get_pool_id_by_name fresh Holds
    get_pool_id_by_name-Holds s {id = id} h = elim (Option-cases (lookup name s.pool_id_cache)) [
      | inl e ↦ rw e (fetch_pool_id-Holds s (rw e at h))
      | inr (entry, e) ↦ elim (Bool-cases (ltb (env.clock s.log) entry.expires_at)) [
        | inl f ↦ rw (e, f) (entry, e, ground arith)
        | inr f ↦
            rw (e, f) (fetch_pool_id-Holds (record s { log = Call.clock ∷ s.log }) (rw (e, f) at h))
      ]
    ]

    -- Once an identifier was found for a name, the cache holds an entry for it, and unless that
    -- entry has expired by the clock the same question is answered alike, with no request.
    pub get_pool_id_by_name_again :
        (s : State) (id : ℤ)
        → (get_pool_id_by_name env client name s).0 ≡ ok id
        → let s' = (get_pool_id_by_name env client name s).1 in
          (entry : PoolCacheEntry) × (lookup name s'.pool_id_cache ≡ some entry)
          × ((entry.expires_at ≤ env.clock s'.log)
              ⊎ (get_pool_id_by_name env client name s'
                  ≡ (ok id, record s' { log = Call.clock ∷ s'.log })))
    unfolding Holds
    get_pool_id_by_name_again s id h =
        let s' = (get_pool_id_by_name env client name s).1 in
        let (entry, e, same) = get_pool_id_by_name-Holds s h in
        (
          entry,
          e,
          elim (Bool-cases (ltb (env.clock s'.log) entry.expires_at)) [
            | inl fits ↦ inr (
                get_pool_id_by_name_hit s' entry e (ltb→lt _ _ fits)
                ∙ ap (λ (x : ℤ). (ok x, record s' { log = Call.clock ∷ s'.log })) same)
            | inr f ↦ inl (ground arith)
          ],
        )
