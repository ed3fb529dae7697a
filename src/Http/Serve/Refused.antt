-- ===== src/Http/Serve/Refused.antt =====
-- What the handlers do before the relay: no call reaches an upstream without an enabled key and a
-- hold, whatever the driver refuses.
use subport.Prelude.{
  ℕ, String, ◌≡◌, refl, sym, ap, ◌∙◌, ◌⊎◌, inl, inr, Option, none, some, List, [], ◌∷◌, arith,
  if_rule,
}
use subport.Prelude.Int.{ℤ, pos}
use mathlib.Core.Option
use mathlib.Core.Path.{subst}
use subport.Gateway.Health.{Scheduler}
use subport.Store.Rows.{User, ApiKey, Db}
use subport.Store.Sql.{Result, ok, err, Conn}
use subport.Store.Sql.Faults.{FailsClean}
use subport.Store.Quota.Admission.{reserve_quota-FailsClean}
use subport.Store.Keys.{key_by_secret}
use subport.Store.Keys.Presented.{key_by_secret-IsOpen, Opens, IsOpen}
use subport.Http.Admission.{Message, ChatRequest, amount_for, admit, is_quota_exhausted}
use subport.Http.Messages.{
  ResponsesInput, MessagesInput, responses_request, messages_request, with_default_model,
}
use subport.Http.Serve.{
  Site, unauthorized, bad_request, payment_required, internal_error, Served, handle_chat,
  handle_responses, handle_messages, replied, relay_request, close_request, after_admission,
  admitted, authenticated, decoded,
}

-- A request that was turned away, with the database as it was.
abbrev pub IsRefused : Db → Served → Type 0
IsRefused db s =
    (s.2 ≡ none)
    × (s.1.db ≡ db)
    × ((s.0 ≡ unauthorized)
        ⊎ (s.0 ≡ bad_request)
        ⊎ (s.0 ≡ payment_required)
        ⊎ (s.0 ≡ internal_error))

-- A request that was relayed: its secret opens with an enabled key, its hold was admitted, and from
-- the store with that hold in it the reply is what closing the relay's outcome gives, whose walk it
-- reports.
abbrev pub IsAllowed : Site → String → Option ChatRequest → Scheduler → Conn → Served → Type 0
IsAllowed site secret body sched c s =
    (key : ApiKey) × (owner : User) × (req : ChatRequest) × (held : ℕ) × (c' : Conn) × (c2 : Conn)
    × (body ≡ some req)
    × Opens site.hash secret c.db (key, owner)
    × (c'.db ≡ c.db)
    × (admit site.cap owner.id req c' ≡ (ok held, c2))
    × (let (outcome, walk) = relay_request site req sched in
        s ≡ replied walk (close_request site owner key req held outcome (site.elsewhere c2)))

abbrev pub IsGuarded : Site → String → Option ChatRequest → Scheduler → Conn → Served → Type 0
IsGuarded site secret body sched c s = IsRefused c.db s ⊎ IsAllowed site secret body sched c s

admit-FailsClean :
    (setting : Option ℤ) (owner : String) (req : ChatRequest) → FailsClean (admit setting owner req)
unfolding admit
admit-FailsClean setting owner req = record {
  at = λ c e h.
      ground (arith, (reserve_quota-FailsClean owner (pos (amount_for setting req))).at c e);
}

module _ (site : Site) (secret : String) (c : Conn) where
  module _ (key : ApiKey) (owner : User) (c' : Conn)
      (opens : Opens site.hash secret c.db (key, owner)) (same : c'.db ≡ c.db) where
    after_admission-IsGuarded :
        (req : ChatRequest) (sched : Scheduler) (m : Result ℕ × Conn)
        → m ≡ admit site.cap owner.id req c'
        → IsGuarded site secret (some req) sched c (after_admission site owner key req sched m)
    after_admission-IsGuarded req sched (ok held, c2) e =
        inr (key, owner, req, held, c', c2, refl, opens, same, sym e, refl)
    after_admission-IsGuarded req sched (err x, c2) e = inl (
      refl,
      ap (λ y. y.1.db) e
          ∙ (admit-FailsClean site.cap owner.id req).at c' x (ap (λ y. y.0) (sym e))
          ∙ same,
      if_rule
          (λ r.
            (r ≡ unauthorized) ⊎ (r ≡ bad_request) ⊎ (r ≡ payment_required) ⊎ (r ≡ internal_error))
          (is_quota_exhausted x) _ _ (λ _. inr (inr (inl refl))) (λ _. inr (inr (inr refl))),
    )

    admitted-IsGuarded :
        (req : ChatRequest) (sched : Scheduler)
        → IsGuarded site secret (some req) sched c (admitted site owner key req sched c')
    admitted-IsGuarded req sched =
        after_admission-IsGuarded req sched (admit site.cap owner.id req c') refl

    messages-IsGuarded :
        (req : ChatRequest) (sched : Scheduler) (l : List Message)
        → IsGuarded site secret
            (some req)
            sched
            c
            (elim l [ [] ↦ (bad_request, c', none) | _ ∷ _ ↦ admitted site owner key req sched c' ])
    messages-IsGuarded req sched [] = inl (refl, same, inr (inl refl))
    messages-IsGuarded req sched (m ∷ l) = admitted-IsGuarded req sched

    decoded-IsGuarded :
        (body : Option ChatRequest) (sched : Scheduler)
        → IsGuarded site secret body sched c (decoded site body owner key sched c')
    decoded-IsGuarded none sched = inl (refl, same, inr (inl refl))
    decoded-IsGuarded (some req) sched = messages-IsGuarded req sched req.messages

  authenticated-IsGuarded :
      (body : Option ChatRequest) (sched : Scheduler) (serve : ApiKey × User → Conn → Served)
      → ((key : ApiKey) (owner : User) (c' : Conn)
          → Opens site.hash secret c.db (key, owner)
          → c'.db ≡ c.db
          → IsGuarded site secret body sched c (serve (key, owner) c'))
      → (m : Result (ApiKey × User) × Conn) → IsOpen (Opens site.hash secret c.db) c.db m
      → IsGuarded site secret body sched c (authenticated site serve m)
  authenticated-IsGuarded body sched serve h (err e, c') opened = inl (refl, opened.0, inl refl)
  authenticated-IsGuarded body sched serve h (ok (key, owner), c') (same, inl gone) = cc
  authenticated-IsGuarded body sched serve h (ok (key, owner), c') (same, inr (x, is_ok, opens)) =
      let e : x ≡ (key, owner) = cc in
      h key owner c' (subst (Opens site.hash secret c.db) e opens) same

-- The three handlers that relay, with the body of each.
pub data Call : Type 0 where
  chat : ChatRequest → Call
  responses : Option ResponsesInput → Call
  messages : Option MessagesInput → Call

abbrev pub serve_call : Site → String → Call → Scheduler → Conn → Served
serve_call site secret (chat req) = handle_chat site secret req
serve_call site secret (responses body) = handle_responses site secret body
serve_call site secret (messages body) = handle_messages site secret body

-- The request that a body stands for, or none where it does not decode.
abbrev pub request_of : Call → Option ChatRequest
request_of (chat req) = some (with_default_model req)
request_of (responses body) = Option.map responses_request body
request_of (messages body) = Option.map messages_request body

-- Whichever handler, whatever its body and whatever statement the driver refuses: a request is
-- answered 401, 400, 402 or 500 with no account asked and the database as it was; or its secret has
-- opened with an enabled key of a stored user, a hold for the request that its body stands for was
-- admitted, and the request was relayed and closed with that hold on the store that the admission left.
pub serve_call-IsGuarded :
    (site : Site) (secret : String) (call : Call) (sched : Scheduler) (c : Conn)
    → IsGuarded site secret (request_of call) sched c (serve_call site secret call sched c)
unfolding handle_chat handle_responses handle_messages
serve_call-IsGuarded site secret (chat req) sched c =
    authenticated-IsGuarded site secret c (some (with_default_model req)) sched _
      (λ key owner c' opens same.
        admitted-IsGuarded site secret c key owner c' opens same (with_default_model req) sched)
      (key_by_secret site.hash secret c) (key_by_secret-IsOpen site.hash secret c)
serve_call-IsGuarded site secret (responses body) sched c =
    authenticated-IsGuarded site secret c (Option.map responses_request body) sched _
      (λ key owner c' opens same.
        decoded-IsGuarded site secret c key owner c' opens same (Option.map responses_request body)
          sched)
      (key_by_secret site.hash secret c) (key_by_secret-IsOpen site.hash secret c)
serve_call-IsGuarded site secret (messages body) sched c =
    authenticated-IsGuarded site secret c (Option.map messages_request body) sched _
      (λ key owner c' opens same.
        decoded-IsGuarded site secret c key owner c' opens same (Option.map messages_request body)
          sched)
      (key_by_secret site.hash secret c) (key_by_secret-IsOpen site.hash secret c)
