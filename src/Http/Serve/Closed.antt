-- ===== src/Http/Serve/Closed.antt =====
-- How a request ends: what closing it does to the owner's row, and the whole of handleChat.
use subport.Prelude.{
  ℕ, ◌<◌, String, ◌≡◌, refl, ap, ◌∙◌, none, some, [], ◌∷◌, ◌++◌, arith, if◌then◌else◌,
}
use mathlib.Core.Path.{subst}
use subport.Prelude.Int.{ℤ, pos}
use subport.Pricing.{TokenCounts, BilledRate, cost}
use subport.Gateway.Errors.{GoError, is_broken_relay, message}
use subport.Gateway.Relay.{RelayResult, Outcome, served, broken, gave_up}
use subport.Store.Table.{find_row}
use subport.Store.Rows.{User, ApiKey, UsageLog, Db}
use subport.Store.Sql.{Result, ok, err, Conn, healthy, Sql, ignoring, continue, pure, ◌>>◌}
use subport.Store.Quota.{user_of, usage_key, drop_hold, settle_usage}
use subport.Store.Quota.Settlement.{stamped, close_out, settlement, settle_healthy}
use subport.Store.Quota.Outcomes.{settle_ok}
use subport.Store.Keys.{touch_key}
use subport.Store.Billing.{price_call}
use subport.Store.Billing.Charged.{price_call-IsPriced, IsPriced}
use subport.Store.Compensation.{compensate_broken_streams}
use subport.Store.Kept.{
  Keeps, compensate_broken_streams-Keeps, if-Keeps, bind-Keeps, ignoring-Keeps, pure-Keeps,
}
use subport.Http.Admission.{ChatRequest}
use subport.Http.Serve.{
  Site, Reply, failed_log, success_log, settle_failed, settle_served, settle_outcome, close_request,
  counts_of, tokens_of, text_of, streamed, completed, bad_gateway, unavailable,
}

-- With no fault, pricing only reads.
price_call_reads :
    (user name : String) (counts : TokenCounts) (db : Db)
    → (price_call user name counts (healthy db)).1 ≡ healthy db
unfolding price_call
price_call_reads user name counts db = ground arith

-- The id of the new row is not in the log yet.
abbrev pub IsFresh : String → Db → Type 0
IsFresh id db = find_row usage_key id db.usage ≡ none

settle_succeeds :
    (id : String) (now : ℕ) (l : UsageLog) (held : ℤ) (db : Db)
    → IsFresh id db
    → (settle_usage id now l held (healthy db)).0 ≡ ok tt
settle_succeeds id now l held db fresh =
    ap (λ x. x.0) (settle_healthy id now l held db) ∙ rw (settlement, fresh) refl

-- The log gains the row.
settle_appends :
    (id : String) (now : ℕ) (l : UsageLog) (held : ℤ) (db : Db)
    → IsFresh id db
    → (settle_usage id now l held (healthy db)).1.db.usage ≡ db.usage ++ stamped id now l ∷ []
settle_appends id now l held db fresh =
    ap (λ x. x.1.usage) (settle_healthy id now l held db) ∙ rw (settlement, fresh) refl

settle_charges :
    (id : String) (now : ℕ) (l : UsageLog) (held : ℤ) (u : User) (db : Db)
    → IsFresh id db
    → user_of db l.user_id ≡ some u
    → user_of (settle_usage id now l held (healthy db)).1.db l.user_id
      ≡ some (close_out l.cost held u)
settle_charges id now l held u db fresh row =
    settle_ok id now l held u (healthy db) row (settle_succeeds id now l held db fresh)

-- The hold of a request that held `held` is gone from the row.
abbrev pub IsReleased : ℕ → User → Db → String → Type 0
IsReleased held u db id =
    (v : User) × (user_of db id ≡ some v)
    × (v.quota_reserved ≡ (drop_hold (pos held) u).quota_reserved)

close_out_reserved :
    (cost : ℤ) (held : ℕ) (u : User)
    → 0 < held
    → (close_out cost (pos held) u).quota_reserved ≡ (drop_hold (pos held) u).quota_reserved
unfolding drop_hold
close_out_reserved cost held u p = ground arith

then-Keeps :
    {A : Type 0} (m : Sql A) (held : ℕ) (u : User) (c : Conn) (id : String)
    → Keeps (λ v. v.quota_reserved) m
    → IsReleased held u c.db id
    → IsReleased held u (m c).1.db id
then-Keeps m held u c id keeps (v, row, same) =
    let (w, row', same') = keeps.at id c v row in (w, row', same' ∙ same)

module _ (site : Site) (owner : User) (key : ApiKey) (req : ChatRequest) (held : ℕ) where
  -- The charge of the whole quote, the end of the hold, the row of the log.
  abbrev pub IsBilled : RelayResult → User → Db → Db → Type 0
  IsBilled r u db db' =
      (amount : ℤ) × (rate : BilledRate) × IsPriced db owner.id req.model
        (counts_of (tokens_of req r)) (ok (amount, rate), healthy db)
      × (user_of db' owner.id ≡ some (close_out amount (pos held) u))
      × (db'.usage
          ≡ db.usage
            ++ stamped site.log_id site.log_time (success_log owner key req r amount rate) ∷ [])

  module _ (r : RelayResult) (u : User) (db : Db) (fresh : IsFresh site.log_id db)
      (row : user_of db owner.id ≡ some u) where
    abbrev settle_quoted : Result (ℤ × BilledRate) × Conn → Result Reply × Conn
    settle_quoted q =
        continue q.0
          (λ priced. do
            ignoring (
                settle_usage site.log_id site.log_time
                  (success_log owner key req r priced.0 priced.1) (pos held))
            pure (
                if req.stream
                then streamed
                else completed req.model (text_of req r) (tokens_of req r)))
          q.1

    quoted-IsBilled :
        (q : Result (ℤ × BilledRate) × Conn)
        → IsPriced db owner.id req.model (counts_of (tokens_of req r)) q
        → q.1 ≡ healthy db
        → IsBilled r u db (settle_quoted q).1.db
    quoted-IsBilled (ok (amount, rate), c) quote reads =
        let l = success_log owner key req r amount rate in
        rw reads (
          amount,
          rate,
          subst
              (λ d.
                IsPriced db owner.id req.model (counts_of (tokens_of req r)) (ok (amount, rate), d))
              reads quote,
          settle_charges site.log_id site.log_time l (pos held) u db fresh row,
          settle_appends site.log_id site.log_time l (pos held) db fresh,
        )
    quoted-IsBilled (err e, c) (p, q, card, ratio, same) reads = cc

    settle_served-IsBilled :
        IsBilled r u db (settle_served site owner key req held r (healthy db)).1.db
    settle_served-IsBilled =
        quoted-IsBilled (price_call owner.id req.model (counts_of (tokens_of req r)) (healthy db))
          (price_call-IsPriced owner.id req.model (counts_of (tokens_of req r)) db)
          (price_call_reads owner.id req.model (counts_of (tokens_of req r)) db)

  -- What settleFailed does after the log row.
  abbrev after_failure : GoError → Sql Reply
  after_failure e =
      if is_broken_relay e
      then (do
        ignoring (compensate_broken_streams site.format_time owner.id site.comp_cfg)
        pure (if req.stream then streamed else bad_gateway (message e)))
      else pure unavailable

  after_failure-Keeps : (e : GoError) → Keeps (λ v. v.quota_reserved) (after_failure e)
  after_failure-Keeps e =
      if-Keeps _ _ _ _
        (bind-Keeps _ _ _
          (ignoring-Keeps _ _ (
            compensate_broken_streams-Keeps _ (λ v credit. refl) site.format_time owner.id
              site.comp_cfg))
          (λ _. pure-Keeps _ (if req.stream then streamed else bad_gateway (message e))))
        (pure-Keeps _ unavailable)

  module _ (p : 0 < held) (u : User) (db : Db) (fresh : IsFresh site.log_id db)
      (row : user_of db owner.id ≡ some u) where
    settle_failed-IsReleased :
        (account : String) (attempts : ℕ) (e : GoError)
        → IsReleased held u
            (settle_failed site owner key req held account attempts e (healthy db)).1.db
            owner.id
    settle_failed-IsReleased account attempts e =
        let l = failed_log owner key req account attempts (is_broken_relay e) in
        let c = (settle_usage site.log_id site.log_time l (pos held) (healthy db)).1 in
        let settled : IsReleased held u c.db owner.id = (
          close_out l.cost (pos held) u,
          settle_charges site.log_id site.log_time l (pos held) u db fresh row,
          close_out_reserved l.cost held u p,
        ) in
        then-Keeps (after_failure e) held u c owner.id (after_failure-Keeps e) settled

    settle_outcome-IsReleased :
        (o : Outcome)
        → IsReleased held u (settle_outcome site owner key req held o (healthy db)).1.db owner.id
    settle_outcome-IsReleased (served r) =
        let (amount, rate, _, row', _) = settle_served-IsBilled r u db fresh row in
        (close_out amount (pos held) u, row', close_out_reserved amount held u p)
    settle_outcome-IsReleased (broken a n e) = settle_failed-IsReleased a.id n e
    settle_outcome-IsReleased (gave_up e) = settle_failed-IsReleased "" 0 e

-- The store after the key is touched.
abbrev pub touched : Site → ApiKey → Db → Db
touched site key db = (touch_key key.id site.used_at (healthy db)).1.db

close_request_lem :
    (site : Site) (owner : User) (key : ApiKey) (req : ChatRequest) (held : ℕ) (o : Outcome)
    (db : Db)
    → close_request site owner key req held o (healthy db)
      ≡ settle_outcome site owner key req held o (healthy (touched site key db))
unfolding close_request touch_key
close_request_lem site owner key req held o db = refl

-- However the relay ends (an answer, a stream that broke, no account left), closing the request with
-- no fault and a new log id ends its hold: the owner's reserved quota is lower by exactly what the
-- request held, and 0 where that was more than what was reserved.
pub close_request-IsReleased :
    (site : Site) (owner : User) (key : ApiKey) (req : ChatRequest) (held : ℕ) (o : Outcome)
    (u : User) (db : Db)
    → 0 < held
    → IsFresh site.log_id db
    → user_of db owner.id ≡ some u
    → IsReleased held u (close_request site owner key req held o (healthy db)).1.db owner.id
unfolding touch_key
close_request-IsReleased site owner key req held o u db p fresh row =
    rw (close_request_lem site owner key req held o db)
      (settle_outcome-IsReleased site owner key req held p u (touched site key db) fresh row o)

-- A request that was answered is billed once and in full: with no fault and a new log id, the owner's
-- row ends with the price of the counted tokens added to what is used and the hold taken off what is
-- reserved, and the log gains exactly one row, which says so. The price is the cost at the model's own
-- rate card, or at the flat list price where it has none, and at the ratio of the owner: the positive
-- override, else the positive ratio of the group, else 1.
pub close_request-IsBilled :
    (site : Site) (owner : User) (key : ApiKey) (req : ChatRequest) (held : ℕ) (r : RelayResult)
    (u : User) (db : Db)
    → IsFresh site.log_id db
    → user_of db owner.id ≡ some u
    → IsBilled site owner key req held r u
        (touched site key db)
        (close_request site owner key req held (served r) (healthy db)).1.db
unfolding touch_key
close_request-IsBilled site owner key req held r u db fresh row =
    rw (close_request_lem site owner key req held (served r) db)
      (settle_served-IsBilled site owner key req held r u (touched site key db) fresh row)
