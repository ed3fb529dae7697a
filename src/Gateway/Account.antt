-- ===== src/Gateway/Account.antt =====
-- `Account` of internal/model/model.go, and what the gateway reads from its cooldown_until text.
-- Instants are nanoseconds since 1970.
use subport.Prelude.{ℕ, ◌*◌, ◌/◌, String, Bool}
use subport.Prelude.Text.{Text}

-- The readings of a stored timestamp that the code tells apart: "", white space alone, a timestamp
-- that time.Parse accepts, one with white space around it, and any other text.
pub data Stamp : Type 0 where
  absent : Stamp
  blank : Stamp
  at : ℕ → Stamp
  padded : ℕ → Stamp
  garbled : Stamp

abbrev pub second : ℕ
second = 1000000000

abbrev pub minute : ℕ
minute = 60 * second

-- t.Format(time.RFC3339) drops the fraction of a second.
unfoldable pub format : ℕ → Stamp
format t = at (t / second * second)

pub record Account : Type 0 where
  pub id : String
  pub name : String
  pub provider : Text
  pub base_url : Text
  pub priority : ℕ
  pub healthy : Bool
  pub cooldown_until : Stamp
  pub last_error : Text
  pub consecutive_timeouts : ℕ
  pub consecutive_403 : ℕ
  pub consecutive_429 : ℕ

abbrev pub account_key : Account → String
account_key a = a.id
