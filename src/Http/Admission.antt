-- ===== src/Http/Admission.antt =====
-- internal/httpapi/quota.go: how much a request holds.
use subport.Prelude.{
  ℕ, ◌+◌, ◌*◌, ◌/◌, ◌≤◌, ◌<◌, String, ◌≡◌, ◌⊎◌, Bool, true, false, Option, none, some, List, [],
  ◌∷◌, arith, ltb, if◌then◌else◌, length,
}
use subport.Prelude.Int.{ℤ, pos, pos_part}
use subport.Prelude.Text.{Text}
use subport.Prelude.Int64.{is_positive}
use subport.Store.Sql.{Error, quota_exhausted, Sql, pure, ◌>>◌}
use subport.Store.Quota.{reserve_quota}

-- One entry of ChatRequest.Messages.
pub record Message : Type 0 where
  pub role : Text
  pub content : Text

-- The model is a name of the price list.
pub record ChatRequest : Type 0 where
  pub model : String
  pub stream : Bool
  pub messages : List Message

abbrev pub default_reservation : ℕ
default_reservation = 4000

unfoldable pub count_chars : List Message → ℕ
count_chars [] = 0
count_chars (m ∷ rest) = length m.content + count_chars rest

unfoldable pub reservation_for : ChatRequest → ℕ
unfolding count_chars
reservation_for req =
    let est : ℕ = count_chars req.messages / 4 * 2 in
    if ltb est default_reservation then default_reservation else est

-- `setting` is what strconv.ParseInt reads in SUBPORT_MAX_RESERVATION, none where it is unset or no
-- number.
unfoldable pub max_reservation : Option ℤ → ℕ
max_reservation none = 200000
max_reservation (some n) = if is_positive n then pos_part n else 200000

-- The amount after the cap.
unfoldable pub amount_for : Option ℤ → ChatRequest → ℕ
unfolding reservation_for max_reservation
amount_for setting req =
    if ltb (max_reservation setting) (reservation_for req)
    then max_reservation setting
    else reservation_for req

unfoldable pub admit : Option ℤ → String → ChatRequest → Sql ℕ
unfolding amount_for
admit setting owner req =
    reserve_quota owner (pos (amount_for setting req)) >> pure (amount_for setting req)

abbrev pub is_quota_exhausted : Error → Bool
is_quota_exhausted quota_exhausted = true
is_quota_exhausted _ = false

-- A hold is at least one unit, at most the cap, and the estimate of the prompt between them: never
-- below 4000 units unless the cap is.
pub amount_for_bounds :
    (setting : Option ℤ) (req : ChatRequest)
    → (0 < amount_for setting req)
      × (amount_for setting req ≤ max_reservation setting)
      × ((amount_for setting req ≡ max_reservation setting)
          ⊎ ((default_reservation ≤ amount_for setting req)
              × (count_chars req.messages / 4 * 2 ≤ amount_for setting req)))
unfolding amount_for
amount_for_bounds setting req = (ground arith, ground arith, ground arith)
