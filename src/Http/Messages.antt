-- ===== src/Http/Messages.antt =====
-- The decoding of internal/httpapi/protocols.go: Responses and Messages requests as chat requests.
-- What json.Decode has read is the argument.
use subport.Prelude.{
  String, Bool, true, false, Option, some, List, [], ◌∷◌, ◌++◌, map, str_eq, if◌then◌else◌,
}
use subport.Prelude.Text.{Text, codes, trim_space, is_empty}
use subport.Prelude.Json.{Json, Items, null, str, arr, obj, nil, cons, member, text_of}
use subport.Http.Admission.{Message, ChatRequest}

abbrev pub is_blank : Text → Bool
is_blank s = is_empty (trim_space s)

abbrev pub message : Text → Text → Message
message role content = record { role = role; content = content }

-- The texts of the parts that are objects with a text.
unfoldable pub part_texts : Items → List Text
unfolding member
part_texts nil = []
part_texts (cons (obj fs) rest) =
    let more = part_texts rest in elim (member "text" (obj fs)) [ str s ↦ s ∷ more | _ ↦ more ]
part_texts (cons _ rest) = part_texts rest

-- strings.Join
unfoldable pub join : Text → List Text → Text
join sep [] = []
join sep (s ∷ []) = s
join sep (s ∷ t ∷ rest) = s ++ (sep ++ join sep (t ∷ rest))

unfoldable pub content_of : Json → Text
unfolding part_texts join
content_of (str s) = s
content_of (arr parts) = join [] (part_texts parts)
content_of _ = []

unfoldable pub anthropic_system_to_string : Json → Text
unfolding part_texts join
anthropic_system_to_string (str s) = s
anthropic_system_to_string (arr parts) = join (10 ∷ 10 ∷ []) (part_texts parts)
anthropic_system_to_string _ = []

unfoldable pub anthropic_content_to_string : Json → Text
unfolding content_of
anthropic_content_to_string v = content_of v

-- Whether json.Unmarshal takes the items for []map[string]any.
unfoldable pub all_objects : Items → Bool
all_objects nil = true
all_objects (cons (obj fs) rest) = all_objects rest
all_objects (cons null rest) = all_objects rest
all_objects (cons _ rest) = false

abbrev or_user : Text → Text
or_user role = if is_empty role then codes "user" else role

unfoldable pub input_messages : Items → List Message
unfolding member content_of is_empty trim_space
input_messages nil = []
input_messages (cons it rest) =
    let more = input_messages rest in
    let content = content_of (member "content" it) in
    if is_blank content then more else message (or_user (text_of (member "role" it))) content ∷ more

-- none: the field is missing.
unfoldable pub parse_responses_input : Option Json → List Message
unfolding input_messages all_objects
parse_responses_input (some (str s)) = if is_blank s then [] else message (codes "user") s ∷ []
parse_responses_input (some (arr items)) = if all_objects items then input_messages items else []
parse_responses_input _ = []

pub record ResponsesInput : Type 0 where
  pub model : String
  pub instructions : Text
  pub input : Option Json
  pub stream : Bool

abbrev or_model : String → String → String
or_model default model = if str_eq model "" then default else model

unfoldable pub responses_request : ResponsesInput → ChatRequest
unfolding parse_responses_input
responses_request i = record {
  model = or_model "gpt-4o-mini" i.model;
  stream = i.stream;
  messages =
      (if is_blank i.instructions then [] else message (codes "system") i.instructions ∷ [])
      ++ parse_responses_input i.input;
}

-- Each message with its role and content.
pub record MessagesInput : Type 0 where
  pub model : String
  pub system : Json
  pub stream : Bool
  pub messages : List (Text × Json)

unfoldable pub messages_request : MessagesInput → ChatRequest
unfolding anthropic_system_to_string anthropic_content_to_string
messages_request i =
    let system = anthropic_system_to_string i.system in
    record {
      model = or_model "claude-sonnet-4-5" i.model;
      stream = i.stream;
      messages =
          (if is_empty system then [] else message (codes "system") system ∷ [])
          ++ map (λ (m : Text × Json). message m.0 (anthropic_content_to_string m.1)) i.messages;
    }

abbrev pub with_default_model : ChatRequest → ChatRequest
with_default_model req = record req { model = or_model "gpt-4o-mini" req.model }
