-- ===== src/Gateway/Relay/Bounds.antt =====
-- How many calls one request makes, and to which accounts.
use subport.Prelude.{
  ℕ, zero, suc, ◌+◌, ◌*◌, ◌≤◌, ◌≡◌, refl, Bool, true, Option, none, some, List, [], ◌∷◌, arith,
  if_rule, length, All,
}
use subport.Prelude.Text.{Text}
use subport.Gateway.Account.{Account}
use subport.Gateway.Errors.{GoError, is_retryable_upstream_status}
use subport.Gateway.Health.{Scheduler}
use subport.Gateway.Routing.{account_eligible_for_model}
use subport.Gateway.Scheduler.{pick}
use subport.Gateway.Scheduler.Picked.{pick-IsReachable}
use subport.Gateway.Alias.{model_attempt_chain, max_extra}
use subport.Gateway.Alias.Chain.{model_attempt_chain-AllFresh}
use subport.Gateway.Relay.{
  Answer, reply, failed, World, Setting, Call, Walk, Outcome, Progress, returned, exhausted,
  call_upstream, on_progress, on_pick, on_answer, after_call, relay_attempts, relay_models,
  relay_with, start, max_attempts,
}

module _ (set : Setting) (w : World) (breaks : GoError → Bool) where
  -- The routing table of the call's own moment allows its provider for its model.
  abbrev pub IsEligibleCall : Call → Type 0
  IsEligibleCall c =
      account_eligible_for_model set.matches c.routes c.account.provider c.model ≡ true

  pub record IsWithin (n : ℕ) (k : Walk) : Type 0 where
    pub eligible : All IsEligibleCall k.calls
    pub within : length k.calls ≤ n

  abbrev walk_of : Progress → Walk
  walk_of (returned o k) = k
  walk_of (exhausted k) = k

  weaken : (m n : ℕ) (k : Walk) → m ≤ n → IsWithin m k → IsWithin n k
  weaken m n k le h = record { eligible = h.eligible; within = omega arith }

  on_answer-IsWithin :
      (n : ℕ) (model : Text) (a : Account) (sched : Scheduler) (ans : Answer) (k : Walk)
      (next : Walk → Progress) (m : ℕ)
      → IsWithin n k
      → account_eligible_for_model set.matches sched.routes a.provider model ≡ true
      → n + 1 ≤ m
      → ((k' : Walk) → IsWithin (n + 1) k' → IsWithin m (walk_of (next k')))
      → IsWithin m (walk_of (on_answer set w breaks model a sched ans k next))
  on_answer-IsWithin n model a sched (reply text tokens) k next m h el le ih = record {
    eligible = (el, h.eligible);
    within = omega (arith, h.within);
  }
  on_answer-IsWithin n model a sched (failed e) k next m h el le ih =
      let one_more : IsWithin (n + 1) (after_call set w model a sched (some e) (failed e) k) =
        record { eligible = (el, h.eligible); within = omega (arith, h.within) } in
      if_rule (λ p. IsWithin m (walk_of p)) (breaks e) _ _ (λ _. weaken (n + 1) m _ le one_more)
        (λ _. ih _ one_more)

  on_pick-IsWithin :
      (n : ℕ) (model : Text) (sched : Scheduler) (picked : Option Account) (k : Walk)
      (next : Walk → Progress) (m : ℕ)
      → IsWithin n k
      → ((a : Account)
          → picked ≡ some a
          → account_eligible_for_model set.matches sched.routes a.provider model ≡ true)
      → n + 1 ≤ m
      → ((k' : Walk) → IsWithin (n + 1) k' → IsWithin m (walk_of (next k')))
      → IsWithin m (walk_of (on_pick set w breaks model sched picked k next))
  on_pick-IsWithin n model sched none k next m h el le ih =
      ih _ (record { eligible = h.eligible; within = omega (arith, h.within) })
  on_pick-IsWithin n model sched (some a) k next m h el le ih =
      on_answer-IsWithin n model a sched (call_upstream set w k.picks a model) k next m h
        (el a refl) le ih

  relay_attempts-IsWithin :
      (left attempt : ℕ) (model : Text) (n : ℕ) (k : Walk)
      → IsWithin n k
      → IsWithin (left + n) (walk_of (relay_attempts set w breaks left attempt model k))
  unfolding relay_attempts
  relay_attempts-IsWithin zero attempt model n k h = weaken n (zero + n) k (omega arith) h
  relay_attempts-IsWithin (suc left) attempt model n k h =
      let sched = w.meanwhile k.picks k.sched in
      on_pick-IsWithin n model sched (pick set.matches attempt model (w.clock k.picks) sched) k
        (relay_attempts set w breaks left (attempt + 1) model) (suc left + n) h
        (λ a e. (pick-IsReachable set.matches attempt model (w.clock k.picks) sched e).0)
        (omega arith)
        (λ k' h'.
          weaken (left + (n + 1)) (suc left + n) _ (omega arith)
            (relay_attempts-IsWithin left (attempt + 1) model (n + 1) k' h'))

  relay_models-IsWithin :
      (models : List Text) (n : ℕ) (k : Walk)
      → IsWithin n k
      → IsWithin (max_attempts * length models + n) (relay_models set w breaks models k).1
  unfolding relay_models
  relay_models-IsWithin [] n k h = weaken n _ k (omega arith) h
  relay_models-IsWithin (model ∷ rest) n k h =
      go (relay_attempts set w breaks max_attempts 0 model k)
        (relay_attempts-IsWithin max_attempts 0 model n k h)
        (λ k' h'. relay_models-IsWithin rest (max_attempts + n) k' h')
    where
      go :
          (p : Progress)
          → IsWithin (max_attempts + n) (walk_of p)
          → ((k' : Walk)
              → IsWithin (max_attempts + n) k'
              → IsWithin
                  (max_attempts * length rest + (max_attempts + n))
                  (relay_models set w breaks rest k').1)
          → IsWithin
              (max_attempts * suc (length rest) + n)
              (on_progress set w breaks p (relay_models set w breaks rest)).1
      go (returned o k') g ih = weaken (max_attempts + n) _ k' (omega arith) g
      go (exhausted k') g ih =
          if_rule (λ (r : Outcome × Walk). IsWithin (max_attempts * suc (length rest) + n) r.1)
            (is_retryable_upstream_status set.reader k'.last_err (w.clock k'.picks)) _ _
            (λ _.
              weaken (max_attempts * length rest + (max_attempts + n)) _ _ (omega arith) (ih k' g))
            (λ _. weaken (max_attempts + n) _ k' (omega arith) g)

  -- In every world, whichever errors count as breaks, a request makes at most three times as many
  -- calls as its chain has models, which is at most 3 * (1 + the fallback limit), and each call goes
  -- to an account whose provider the routing table allowed for that model when it was picked.
  pub relay_with-IsWithin :
      (requested : Text) (s : Scheduler)
      → IsWithin
          (3 * length (model_attempt_chain set.aliases requested))
          (relay_with set w breaks requested s).1
        × (3 * length (model_attempt_chain set.aliases requested) ≤ 3 * (1 + max_extra set.aliases))
  unfolding relay_with
  relay_with-IsWithin requested s =
      let chain = model_attempt_chain set.aliases requested in
      (
        weaken (max_attempts * length chain + 0) _ _ (omega arith) (
            relay_models-IsWithin chain 0 (start set w breaks s)
              (record { eligible = tt; within = omega arith })),
        omega (arith, (model_attempt_chain-AllFresh set.aliases requested).1),
      )
