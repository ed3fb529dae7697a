-- ===== src/Http/Serve/Balanced.antt =====
-- The whole of handleChat over a store that nothing else changes and no fault strikes.
use subport.Prelude.{
  ℕ, ◌<◌, String, ◌≡◌, refl, ◌∙◌, inl, inr, true, false, Option, some, arith, Bool-cases,
}
use subport.Prelude.Int.{ℤ, pos, ◌+ℤ◌, ◌-ℤ◌}
use subport.Gateway.Health.{Scheduler}
use subport.Gateway.Relay.{Walk}
use subport.Store.Rows.{User, ApiKey, Db}
use subport.Store.Sql.{quota_exhausted, Result, ok, err, Conn, healthy}
use subport.Store.Quota.{user_of, update_user, hold, drop_hold, admits, reserve_quota}
use subport.Store.Quota.Outcomes.{user_of-update_user}
use subport.Store.Keys.{key_by_secret}
use subport.Http.Admission.{ChatRequest, admit, amount_for, amount_for_bounds}
use subport.Http.Messages.{with_default_model}
use subport.Http.Serve.{
  Site, Reply, handle_chat, replied, after_relay, admitted, authenticated, relay_request,
}
use subport.Http.Serve.Closed.{IsFresh, close_request-IsReleased}

-- With no fault, looking the key up only reads.
key_by_secret_reads :
    (hash : String → String) (secret : String) (db : Db)
    → (key_by_secret hash secret (healthy db)).1 ≡ healthy db
unfolding key_by_secret
key_by_secret_reads hash secret db = ground arith

admit_fits :
    (cap : Option ℤ) (req : ChatRequest) (u : User) (id : String) (db : Db)
    → user_of db id ≡ some u
    → admits u (pos (amount_for cap req)) ≡ true
    → admit cap id req (healthy db)
      ≡ (ok (amount_for cap req), healthy (update_user id (hold (pos (amount_for cap req))) db))
unfolding admit reserve_quota
admit_fits cap req u id db row fits = ground (arith, amount_for_bounds cap req)

admit_full :
    (cap : Option ℤ) (req : ChatRequest) (u : User) (id : String) (db : Db)
    → user_of db id ≡ some u
    → admits u (pos (amount_for cap req)) ≡ false
    → admit cap id req (healthy db) ≡ (err quota_exhausted, healthy db)
unfolding admit reserve_quota
admit_full cap req u id db row full = ground (arith, amount_for_bounds cap req)

replied_store : (walk : Walk) (x : Result Reply × Conn) → (replied walk x).1 ≡ x.1
replied_store walk (ok reply, c) = refl
replied_store walk (err e, c) = refl

drop_hold-hold :
    (amount n : ℕ) (u : User)
    → u.quota_reserved ≡ pos n
    → (drop_hold (pos amount) (hold (pos amount) u)).quota_reserved ≡ pos n
unfolding drop_hold ◌+ℤ◌ ◌-ℤ◌
drop_hold-hold amount n u h = rw h (ground arith)

-- The row of a user holds `n` units.
abbrev pub Holds : ℕ → String → Db → Type 0
Holds n id db = (v : User) × (user_of db id ≡ some v) × (v.quota_reserved ≡ pos n)

module _ (site : Site) (quiet : (db : Db) → site.elsewhere (healthy db) ≡ healthy db) (owner : User)
    (key : ApiKey) (req : ChatRequest) where
  module _ (sched : Scheduler) (n : ℕ) (u : User) (db : Db) (fresh : IsFresh site.log_id db)
      (row : user_of db owner.id ≡ some u) (before : u.quota_reserved ≡ pos n) where
    relayed-Holds :
        (held : ℕ)
        → 0 < held
        → Holds n owner.id
            (after_relay site owner key req held
              (healthy (update_user owner.id (hold (pos held)) db))
              (relay_request site req sched)).1.db
    unfolding update_user
    relayed-Holds held p =
        let (o, walk) = relay_request site req sched in
        let db' = update_user owner.id (hold (pos held)) db in
        let (v, row', same) =
          close_request-IsReleased site owner key req held o (hold (pos held) u) db' p fresh
            (user_of-update_user owner.id (hold (pos held)) u db (λ v. refl) row) in
        rw (replied_store walk _, quiet db') (v, row', same ∙ drop_hold-hold held n u before)

    admitted-Holds : Holds n owner.id (admitted site owner key req sched (healthy db)).1.db
    admitted-Holds = elim (Bool-cases (admits u (pos (amount_for site.cap req)))) [
      | inl fits ↦
          rw (admit_fits site.cap req u owner.id db row fits)
            (relayed-Holds (amount_for site.cap req) (amount_for_bounds site.cap req).0)
      | inr full ↦ rw (admit_full site.cap req u owner.id db row full) (u, row, before)
    ]

    opened-Holds :
        (x : Result (ApiKey × User) × Conn)
        → x.0 ≡ ok (key, owner)
        → x.1 ≡ healthy db
        → Holds n owner.id
            (authenticated site (λ opened. admitted site opened.1 opened.0 req sched) x).1.db
    opened-Holds x h reads = rw (h, reads) admitted-Holds

-- A hold never outlives its request: with no fault, nothing else at work on the store and a new log
-- id, the owner of the key that opens handleChat has as much quota reserved after the request as
-- before it, whether it was refused for its quota, answered, broken off, or left with no account.
pub handle_chat-Holds :
    (site : Site) (secret : String) (req : ChatRequest) (sched : Scheduler) (n : ℕ) (key : ApiKey)
    (owner u : User) (db : Db)
    → ((db' : Db) → site.elsewhere (healthy db') ≡ healthy db')
    → IsFresh site.log_id db
    → (key_by_secret site.hash secret (healthy db)).0 ≡ ok (key, owner)
    → user_of db owner.id ≡ some u
    → u.quota_reserved ≡ pos n
    → Holds n owner.id (handle_chat site secret req sched (healthy db)).1.db
unfolding handle_chat
handle_chat-Holds site secret req sched n key owner u db quiet fresh opened row before =
    opened-Holds site quiet owner key (with_default_model req) sched n u db fresh row before
      (key_by_secret site.hash secret (healthy db)) opened (key_by_secret_reads site.hash secret db)
