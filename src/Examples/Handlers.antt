-- ===== src/Examples/Handlers.antt =====
-- One request over HTTP: internal/httpapi.
use subport.Prelude.{◌≡◌, refl, true, false, some, [], ◌∷◌, arith}
use subport.Prelude.Int.{pos}
use subport.Prelude.Text.{codes}
use subport.Gateway.Relay.{RelayResult, served, broken}
use subport.Store.Table.{find_row}
use subport.Store.Rows.{User, Db}
use subport.Store.Sql.{ok, Conn, healthy}
use subport.Store.Quota.{user_of}
use subport.Store.Keys.{key_by_secret}
use subport.Http.Admission.{ChatRequest}
use subport.Http.Serve.{Site, close_request, handle_chat}
use subport.Http.Serve.Closed.{
  IsFresh, IsReleased, IsBilled, touched, close_request-IsReleased, close_request-IsBilled,
}
use subport.Http.Serve.Balanced.{Holds, handle_chat-Holds}
use subport.Http.Serve.Refused.{IsGuarded, request_of, chat, serve_call, serve_call-IsGuarded}
use subport.Examples.Access.{carol, key, house, digest}
use subport.Examples.Requests.{account, setting, world, pool, cut_off}

abbrev greeting : ChatRequest
greeting = record {
  model = "gpt-5";
  stream = true;
  messages = record { role = codes "user"; content = codes "hello" } ∷ [];
}

abbrev site : Site
site = record {
  hash = digest;
  setting = setting;
  world = world;
  comp_cfg = record { threshold_part = 1; threshold_whole = 5; window_size = 10; min_broken = 3 };
  format_time = λ n. n ∷ [];
  cap = some (pos 1000);
  log_id = "l1";
  log_time = 7;
  used_at = "now";
  elsewhere = λ c. c;
}

abbrev answered : RelayResult
answered = record { account = account "a"; text = codes "hi"; tokens = pos 12; attempts = 1 }

-- The row of a user who holds 1200 units.
abbrev busy : User
busy = record carol { quota_reserved = pos 1200 }

abbrev office : Db
office = record house { users = busy ∷ [] }

busy_row : user_of office "carol" ≡ some busy
unfolding find_row
busy_row = refl

new_id : IsFresh "l1" office
unfolding find_row
new_id = refl

close_request-IsReleased_example :
    IsReleased 1000 busy
      (close_request site carol
        (key "k1" "s1")
        greeting
        1000
        (broken (account "a") 2 cut_off)
        (healthy office)).1.db
      "carol"
close_request-IsReleased_example =
    close_request-IsReleased site carol (key "k1" "s1") greeting 1000
      (broken (account "a") 2 cut_off) busy office (omega arith) new_id busy_row

close_request-IsBilled_example :
    IsBilled site carol
      (key "k1" "s1")
      greeting
      1000
      answered
      busy
      (touched site (key "k1" "s1") office)
      (close_request site carol
        (key "k1" "s1")
        greeting
        1000
        (served answered)
        (healthy office)).1.db
close_request-IsBilled_example =
    close_request-IsBilled site carol (key "k1" "s1") greeting 1000 answered busy office new_id
      busy_row

presented : (key_by_secret digest "s1" (healthy office)).0 ≡ ok (key "k1" "s1", busy)
unfolding key_by_secret find_row
presented = refl

handle_chat-Holds_example :
    Holds 1200 "carol" (handle_chat site "s1" greeting pool (healthy office)).1.db
handle_chat-Holds_example =
    handle_chat-Holds site "s1" greeting pool 1200 (key "k1" "s1") busy busy office (λ db. refl)
      new_id presented busy_row refl

-- The driver refuses the second statement.
abbrev faulty : Conn
faulty = record { db = office; faults = false ∷ true ∷ [] }

serve_call-IsGuarded_example :
    IsGuarded site "s1"
      (request_of (chat greeting))
      pool
      faulty
      (serve_call site "s1" (chat greeting) pool faulty)
serve_call-IsGuarded_example = serve_call-IsGuarded site "s1" (chat greeting) pool faulty
