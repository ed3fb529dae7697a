-- ===== src/Gateway/Errors.antt =====
-- The errors of a call: RelayError of internal/gateway/gateway.go, ClassifyUpstreamError of
-- internal/gateway/health.go, and internal/gateway/upstream_errors.go.
use subport.Prelude.{
  ℕ, zero, suc, ◌+◌, ◌-◌, ◌*◌, String, Bool, true, false, ◌&&◌, ◌||◌, Option, none, some, List, [],
  ◌∷◌, ◌++◌, ltb, leb, ◌==◌, if◌then◌else◌, length,
}
use subport.Prelude.Text.{Text, codes, to_lower, contains, has_prefix}
use subport.Gateway.Account.{second}

-- Go's error values as the gateway takes them apart: a text, a net.Error that has timed out, a
-- RelayError with its FirstByteSent, and fmt.Errorf with a prefix and %w.
pub data GoError : Type 0 where
  plain : Text → GoError
  timed_out : Text → GoError
  relay : GoError → Bool → GoError
  wrapped : Text → GoError → GoError

unfoldable pub message : GoError → Text
message (plain s) = s
message (timed_out s) = s
message (relay e sent) = message e
message (wrapped prefix e) = prefix ++ message e

-- errors.As(err, &netErr) && netErr.Timeout()
unfoldable pub is_timeout : GoError → Bool
is_timeout (plain s) = false
is_timeout (timed_out s) = true
is_timeout (relay e sent) = is_timeout e
is_timeout (wrapped prefix e) = is_timeout e

-- errors.As(err, &relayErr) && relayErr.FirstByteSent: the outermost RelayError of the chain.
unfoldable pub first_byte_sent : GoError → Bool
first_byte_sent (plain s) = false
first_byte_sent (timed_out s) = false
first_byte_sent (relay e sent) = sent
first_byte_sent (wrapped prefix e) = first_byte_sent e

-- re, ok := err.(RelayError); ok && re.FirstByteSent: the error itself, not its chain.
unfoldable pub is_broken_relay : GoError → Bool
is_broken_relay (relay e sent) = sent
is_broken_relay (plain s) = false
is_broken_relay (timed_out s) = false
is_broken_relay (wrapped prefix e) = false

pub data FailureClass : Type 0 where
  failure_none failure_timeout failure_forbidden failure_rate_limit failure_other : FailureClass

unfoldable pub contains_any : Text → List String → Bool
unfolding contains
contains_any msg [] = false
contains_any msg (s ∷ ss) = contains msg (codes s) || contains_any msg ss

unfoldable pub classify_upstream_error : Option GoError → FailureClass
unfolding message is_timeout contains_any to_lower
classify_upstream_error none = failure_none
classify_upstream_error (some e) =
    let msg = to_lower (message e) in
    if is_timeout e
    then failure_timeout
    else if contains_any msg ("timeout" ∷ "deadline exceeded" ∷ "i/o timeout" ∷ [])
    then failure_timeout
    else if contains_any msg (
        "status 429" ∷ "rate limit" ∷ "rate_limit" ∷ "too many requests" ∷ "exceeded_limit"
        ∷ "out_of_credits" ∷ [])
    then failure_rate_limit
    else if contains_any msg ("status 403" ∷ "forbidden" ∷ [])
    then failure_forbidden
    else failure_other

pub data UpstreamQuotaKind : Type 0 where
  kind_none kind_rate_limit kind_exceeded_limit kind_out_of_credits : UpstreamQuotaKind

unfoldable pub classify_quota_error : Text → UpstreamQuotaKind
unfolding contains_any to_lower
classify_quota_error msg =
    let low = to_lower msg in
    if contains_any low
      ("out_of_credits" ∷ "out of credits" ∷ "insufficient credits" ∷ "credit balance" ∷ [])
    then kind_out_of_credits
    else if contains_any low (
        "exceeded_limit" ∷ "limit exceeded" ∷ "usage limit" ∷ "quota exceeded" ∷ "extra usage"
        ∷ "overloaded_error" ∷ [])
    then kind_exceeded_limit
    else if contains_any low ("rate_limit" ∷ "rate limit" ∷ "too many requests" ∷ "status 429" ∷ [])
    then kind_rate_limit
    else kind_none

-- The regular expression (?i)(?:status|http)\s*(\d{3}), leftmost match.
abbrev is_re_space : ℕ → Bool
is_re_space c = c == 32 || c == 9 || c == 10 || c == 12 || c == 13

abbrev is_digit : ℕ → Bool
is_digit c = leb 48 c && leb c 57

three_digits : Text → Option ℕ
three_digits (a ∷ b ∷ c ∷ _) =
    if is_digit a && is_digit b && is_digit c
    then some ((a - 48) * 100 + (b - 48) * 10 + (c - 48))
    else none
three_digits _ = none

spaces_then_digits : Text → Option ℕ
unfolding three_digits
spaces_then_digits [] = none
spaces_then_digits (c ∷ s) =
    let rest = spaces_then_digits s in if is_re_space c then rest else three_digits (c ∷ s)

abbrev drop_bytes : ℕ → Text → Text
drop_bytes zero s = s
drop_bytes (suc n) [] = []
drop_bytes (suc n) (c ∷ s) = drop_bytes n s

abbrev pub take_bytes : ℕ → Text → Text
take_bytes zero s = []
take_bytes (suc n) [] = []
take_bytes (suc n) (c ∷ s) = c ∷ take_bytes n s

status_here : Text → Option ℕ
unfolding spaces_then_digits has_prefix
status_here s =
    if has_prefix s (codes "status")
    then spaces_then_digits (drop_bytes 6 s)
    else if has_prefix s (codes "http")
    then spaces_then_digits (drop_bytes 4 s)
    else none

status_in : Text → Option ℕ
unfolding status_here
status_in [] = none
status_in (c ∷ s) =
    let rest = status_in s in elim (status_here (c ∷ s)) [ some n ↦ some n | none ↦ rest ]

-- The HTTP status that a message names, 0 if none.
unfoldable pub http_status_of : Text → ℕ
unfolding status_in to_lower
http_status_of s = elim (status_in (to_lower s)) [ some n ↦ n | none ↦ 0 ]

-- Which pair of client texts MapUpstreamError chooses; `snippet` holds the redacted original.
pub data Notice : Type 0 where
  request_failed rate_limited limit_exceeded no_credits unavailable unauthorized : Notice
  snippet : Text → Notice

pub record UpstreamErrorInfo : Type 0 where
  pub kind : UpstreamQuotaKind
  pub http_status : ℕ
  pub resets_at : Option ℕ
  pub notice : Notice
  pub retryable : Bool

-- What this file leaves to others: redactSecrets, and ParseResetsAt (JSON and regular expressions).
pub record ErrorReader : Type 0 where
  pub redact_secrets : Text → Text
  pub parse_resets_at : Text → ℕ → Option ℕ

abbrev pub is_none : UpstreamQuotaKind → Bool
is_none kind_none = true
is_none _ = false

-- The kind, with the status as a second witness of a rate limit.
unfoldable pub quota_kind : Text → UpstreamQuotaKind
unfolding classify_quota_error http_status_of
quota_kind raw =
    let kind = classify_quota_error raw in
    if is_none kind && http_status_of raw == 429 then kind_rate_limit else kind

abbrev pub shorten : ℕ → Text → Text → Text
shorten n ending s = if ltb n (length s) then take_bytes n s ++ ending else s

-- The final switch: the texts and the Retryable flag.
unfoldable pub notice_for : UpstreamQuotaKind → ℕ → Text → Notice × Bool
notice_for kind_rate_limit status raw = (rate_limited, true)
notice_for kind_exceeded_limit status raw = (limit_exceeded, true)
notice_for kind_out_of_credits status raw = (no_credits, false)
notice_for kind_none status raw =
    if leb 500 status
    then (unavailable, true)
    else if status == 401 || status == 403
    then (unauthorized, false)
    else (snippet (shorten 160 (0xe2 ∷ 0x80 ∷ 0xa6 ∷ []) raw), false)

abbrev pub is_limit : UpstreamQuotaKind → Bool
is_limit kind_rate_limit = true
is_limit kind_exceeded_limit = true
is_limit _ = false

abbrev pub default_cooldown : ℕ
default_cooldown = 60 * second

-- With no usable reset time: by the kind of the message.
unfoldable pub cooldown_by_kind : Text → ℕ
unfolding classify_quota_error to_lower contains
cooldown_by_kind raw =
    if is_limit (classify_quota_error raw)
    then default_cooldown
    else if contains (to_lower raw) (codes "status 429")
    then default_cooldown
    else 0

-- `now` and the reset time are instants, the result is a duration.
module _ (reader : ErrorReader) where
  unfoldable pub map_upstream_error : Option GoError → ℕ → UpstreamErrorInfo
  unfolding message quota_kind notice_for
  map_upstream_error none now = record {
    kind = kind_none;
    http_status = 0;
    resets_at = none;
    notice = request_failed;
    retryable = false;
  }
  map_upstream_error (some e) now =
      let raw = shorten 800 [] (reader.redact_secrets (message e)) in
      let kind = quota_kind raw in
      let status = http_status_of raw in
      record {
        kind = kind;
        http_status = status;
        resets_at = reader.parse_resets_at raw now;
        notice = (notice_for kind status raw).0;
        retryable = (notice_for kind status raw).1;
      }

  unfoldable pub is_retryable_upstream_status : Option GoError → ℕ → Bool
  unfolding map_upstream_error
  is_retryable_upstream_status none now = false
  is_retryable_upstream_status (some e) now =
      let info = map_upstream_error (some e) now in
      if info.http_status == 429 || leb 500 info.http_status then true else is_limit info.kind

  unfoldable pub cooldown_duration_for_error : Option GoError → ℕ → ℕ
  unfolding message cooldown_by_kind
  cooldown_duration_for_error none now = 0
  cooldown_duration_for_error (some e) now = elim (reader.parse_resets_at (message e) now) [
    | none ↦ cooldown_by_kind (message e)
    | some t ↦
        if ltb second (t - now) && ltb (t - now) (24 * 60 * 60 * second)
        then t - now
        else cooldown_by_kind (message e)
  ]
