-- ===== src/Gateway/Scheduler.antt =====
-- `Scheduler` of internal/gateway/gateway.go: the account list and Pick.
pub mod Order
pub mod Picked
use subport.Prelude.{
  ℕ, zero, suc, ◌+◌, ◌-◌, ◌*◌, ◌/◌, ◌%◌, ◌^◌, ◌≤◌, ◌<◌, String, ◌≡◌, refl, sym, ap, ◌∙◌, ◌≢◌, ◌↔◌,
  ◌⊎◌, inl, inr, Bool, true, false, ◌&&◌, ◌||◌, not, Option, none, some, List, [], ◌∷◌, ◌++◌, map,
  arith, str_eq, eq_iff, eq_refl, ltb, leb, ◌==◌, if◌then◌else◌, Bool-cases, Option-cases, ltb→lt,
  lt→ltb, leb→le, ==_iff, tests, length, get_elem?, length-append, All, All-append, get_elem?-All,
  keep,
}
use subport.Prelude.Int.{
  ℤ, pos, negsuc, pos_part, neg_part, sub_ℕ, ◌+ℤ◌, ◌-ℤ◌, ◌*ℤ◌, ◌≤ℤ◌, ltb_ℤ, +ℤ_parts, -ℤ_parts,
  eq_of_parts, int_laws,
}
use subport.Prelude.Sorting.{sort_by}
use subport.Prelude.Text.{Text}
use subport.Store.Table.{update_row}
use subport.Gateway.Account.{
  Account, account_key, Stamp, absent, blank, at, padded, garbled, second,
}
use subport.Gateway.Health.{Scheduler, ModelRoute, account_schedulable}
use subport.Gateway.Routing.{account_eligible_for_model}

unfoldable pub new_scheduler : List Account → Scheduler
new_scheduler accounts = record {
  accounts = accounts;
  routes = [];
  has_health_store = false;
  health_writes = [];
}

unfoldable pub set_model_routes : List ModelRoute → Scheduler → Scheduler
set_model_routes routes s = record s { routes = routes }

unfoldable pub replace_accounts : List Account → Scheduler → Scheduler
replace_accounts accounts s = record s { accounts = accounts }

-- The body of the loop of SetAccountHealth.
abbrev pub set_health : Bool → Account → Account
set_health healthy a = record a {
  healthy = healthy;
  cooldown_until = if healthy then absent else a.cooldown_until;
}

unfoldable pub set_account_health : String → Bool → Scheduler → Scheduler
set_account_health id healthy s = record s {
  accounts = update_row account_key id (set_health healthy) s.accounts;
}

-- map[int][]model.Account: its keys in some order, and the list at each.
pub record Tiers : Type 0 where
  pub keys : List ℕ
  pub at_key : ℕ → List Account

abbrev pub no_tiers : Tiers
no_tiers = record { keys = []; at_key = λ _. [] }

abbrev pub mem_nat : ℕ → List ℕ → Bool
mem_nat n [] = false
mem_nat n (m ∷ ms) = m == n || mem_nat n ms

-- tiers[a.Priority] = append(tiers[a.Priority], a)
unfoldable pub add_tier : Account → Tiers → Tiers
add_tier a t = record {
  keys = if mem_nat a.priority t.keys then t.keys else t.keys ++ a.priority ∷ [];
  at_key = λ p. if a.priority == p then t.at_key p ++ a ∷ [] else t.at_key p;
}

abbrev pub is_absent : Stamp → Bool
is_absent absent = true
is_absent blank = true
is_absent _ = false

-- Eligible but not schedulable, and worth a try when nothing else is left.
unfoldable pub is_cooling : Account → Bool
is_cooling a = a.healthy || not (is_absent a.cooldown_until)

-- time.Unix(1<<62, 0)
abbrev pub far_future : ℕ
far_future = 2 ^ 62 * second

unfoldable pub cooldown_expiry : Account → ℕ
cooldown_expiry a = elim a.cooldown_until [
  | absent ↦ far_future
  | blank ↦ far_future
  | at t ↦ t
  | padded t ↦ t
  | garbled ↦ far_future
]

abbrev pub flat_map {ℓ κ} : {A : Type ℓ} {B : Type κ} → (A → List B) → List A → List B
flat_map f [] = []
flat_map f (x ∷ xs) = f x ++ flat_map f xs

-- The accounts in the order in which the attempts walk them: sorted keys, then each tier.
unfoldable pub walk : Tiers → List Account
unfolding sort_by
walk t = flat_map t.at_key (sort_by (λ p. p) t.keys)

abbrev pub pick_at : ℕ → List Account → List Account → Option Account
pick_at attempt [] cooling = get_elem? (sort_by cooldown_expiry cooling) attempt
pick_at attempt (a ∷ live) cooling = get_elem? (a ∷ live) attempt

module _ (matches : Text → Text → Option Bool) where
  -- The loop over the accounts, with what it has gathered.
  unfoldable pub gather :
      List ModelRoute → Text → ℕ → List Account → Tiers → List Account → Tiers × List Account
  unfolding account_eligible_for_model account_schedulable add_tier is_cooling
  gather routes name now [] tiers cooling = (tiers, cooling)
  gather routes name now (a ∷ rest) tiers cooling =
      gather routes name now rest
        (if account_eligible_for_model matches routes a.provider name && account_schedulable a now
          then add_tier a tiers
          else tiers)
        (if account_eligible_for_model matches routes a.provider name
            && not (account_schedulable a now)
            && is_cooling a
          then cooling ++ a ∷ []
          else cooling)

  -- An attempt counts from 0; `now` is the clock at the call.
  unfoldable pub pick : ℕ → Text → ℕ → Scheduler → Option Account
  unfolding gather walk sort_by cooldown_expiry
  pick attempt name now s =
      let (tiers, cooling) = gather s.routes name now s.accounts no_tiers [] in
      pick_at attempt (walk tiers) cooling
