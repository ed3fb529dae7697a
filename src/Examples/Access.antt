-- ===== src/Examples/Access.antt =====
-- Keys and prices: internal/store/store.go.
use subport.Prelude.{String, ◌≡◌, refl, true, false, [], ◌∷◌}
use subport.Prelude.Int.{pos}
use subport.Pricing.{ModelPrice}
use subport.Pricing.Rounding.{total_only}
use subport.Store.Table.{find_row}
use subport.Store.Rows.{User, ApiKey, Db, empty_db}
use subport.Store.Sql.{ok, Conn, healthy}
use subport.Store.Keys.{is_owned, set_key_enabled, delete_key, key_by_secret}
use subport.Store.Keys.Owned.{IsScoped, keys-IsScoped}
use subport.Store.Keys.Presented.{IsOpen, Opens, key_by_secret-IsOpen, revoke, revoked_key}
use subport.Store.Billing.{price_call}
use subport.Store.Billing.Charged.{IsPriced, price_call-IsPriced}

abbrev pub carol : User
carol = record {
  id = "carol";
  username = [];
  password_hash = "";
  salt = "";
  role = "user";
  quota_total = pos 0;
  quota_used = pos 0;
  quota_reserved = pos 0;
  created_at = 0;
  billing_group = "team";
  ratio_override = pos 0;
}

abbrev pub key : String → String → ApiKey
key id sum = record {
  id = id;
  user_id = "carol";
  name = id;
  prefix = "";
  secret_sha = sum;
  enabled = true;
  created_at = 0;
  last_used = "never";
}

abbrev pub house : Db
house = record empty_db {
  users = carol ∷ [];
  keys = key "k1" "s1" ∷ key "k2" "s2" ∷ [];
  groups = record { name = "team"; ratio = pos 8000 } ∷ [];
}

-- A stand-in for the digest.
abbrev pub digest : String → String
digest secret = secret

key_by_secret-IsOpen_example :
    IsOpen (Opens digest "s2" house) house (key_by_secret digest "s2" (healthy house))
key_by_secret-IsOpen_example = key_by_secret-IsOpen digest "s2" (healthy house)

revoked_done : (revoke false "carol" "k1" (healthy house)).0 ≡ ok tt
unfolding set_key_enabled
revoked_done = refl

other_opens :
    (key_by_secret digest "s2"
      (record { db = (revoke false "carol" "k1" (healthy house)).1.db; faults = false ∷ [] })).0
    ≡ ok (key "k2" "s2", carol)
unfolding set_key_enabled key_by_secret find_row
other_opens = refl

revoked_key_example : is_owned "carol" "k1" (key "k2" "s2") ≡ false
revoked_key_example =
    revoked_key digest "s2" "carol" "k1" false (healthy house) (false ∷ []) (key "k2" "s2") carol
      revoked_done other_opens

keys-IsScoped_example :
    let (r, c') = set_key_enabled "dave" "k1" false (healthy house) in
    let (s, c'') = delete_key "dave" "k1" (healthy house) in
    IsScoped "dave" house (r, c'.db) × IsScoped "dave" house (s, c''.db)
keys-IsScoped_example = keys-IsScoped "dave" "k1" false (healthy house)

-- The statement that reads the card is refused.
abbrev flaky : Conn
flaky = record { db = house; faults = true ∷ [] }

price_call-IsPriced_example :
    IsPriced house "carol" "gpt"
      (total_only 10)
      (price_call "carol" "gpt" (total_only 10) (healthy house))
price_call-IsPriced_example = price_call-IsPriced "carol" "gpt" (total_only 10) house

abbrev card : ModelPrice
card = record {
  model = "gpt";
  input = pos 3000000;
  output = pos 15000000;
  cache_read = pos 300000;
  cache_write = pos 3750000;
}
