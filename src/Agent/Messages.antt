-- ===== src/Agent/Messages.antt =====
-- src/aurora_agent/messages.py and the values of src/aurora_agent/contracts.py. The arguments of a
-- call are JSON, which only an external validator reads: a type parameter.
use aurora_bot.Prelude.{
  String, Bool, true, false, not, ◌&&◌, ◌||◌, Option, none, some, List, [], ◌∷◌, map, string_eq,
  ◌==◌, contains, keep, add, is_empty, dedup, length, nat_beq, is_blank, Result, ok, err, ◌>>=◌,
  ◌>>◌, refuse_if, if◌then◌else◌,
}

pub data Role : Type 0 where
  system message assistant tool : Role

pub record ToolCall (J : Type 0) : Type 0 where
  pub call_id : String
  pub name : String
  pub arguments : J

pub record ChatMessage (J : Type 0) : Type 0 where
  pub role : Role
  pub content : String
  pub tool_calls : List (ToolCall J)
  pub tool_call_id : Option String
  pub is_error : Bool

pub data HistoryError : Type 0 where
  invalid_message unexpected_role unpaired_result pending_calls repeated_call : HistoryError

abbrev pub is_given : Option String → Bool
is_given none = false
is_given (some s) = true

-- not tool_call_id
abbrev pub lacks_id : Option String → Bool
lacks_id none = true
lacks_id (some s) = s == ""

abbrev pub same_length : List String → Bool
same_length ids = nat_beq (length ids) (length (dedup ids))

-- ToolCall.__post_init__
unfoldable pub check_call : {J : Type 0} → ToolCall J → Result HistoryError (ToolCall J)
check_call c = do refuse_if (is_blank c.call_id || is_blank c.name) invalid_message; ok c

-- ChatMessage.__post_init__, one clause for each role
invalid_for : {J : Type 0} → Role → ChatMessage J → Bool
invalid_for system m =
    is_blank m.content || not (is_empty m.tool_calls) || is_given m.tool_call_id || m.is_error
invalid_for message m =
    is_blank m.content || not (is_empty m.tool_calls) || is_given m.tool_call_id || m.is_error
invalid_for assistant m =
    is_blank m.content && is_empty m.tool_calls
    || is_given m.tool_call_id
    || m.is_error
    || not (same_length (map (λ c. c.call_id) m.tool_calls))
invalid_for tool m = lacks_id m.tool_call_id || not (is_empty m.tool_calls)

unfoldable pub check_message : {J : Type 0} → ChatMessage J → Result HistoryError (ChatMessage J)
unfolding invalid_for
check_message m = do refuse_if (invalid_for m.role m) invalid_message; ok m

abbrev pub system_message : {J : Type 0} → String → ChatMessage J
system_message content = record {
  role = system;
  content = content;
  tool_calls = [];
  tool_call_id = none;
  is_error = false;
}

abbrev pub input_message : {J : Type 0} → String → ChatMessage J
input_message content = record {
  role = message;
  content = content;
  tool_calls = [];
  tool_call_id = none;
  is_error = false;
}

abbrev pub tool_message : {J : Type 0} → String → String → Bool → ChatMessage J
tool_message call_id content is_error = record {
  role = tool;
  content = content;
  tool_calls = [];
  tool_call_id = some call_id;
  is_error = is_error;
}

-- The two sets of `validate_history`.
pub record Pairing : Type 0 where
  pub seen : List String
  pub pending : List String

-- for call in message.tool_calls
unfoldable pub propose_calls :
    {J : Type 0} → Pairing → List (ToolCall J) → Result HistoryError Pairing
propose_calls p [] = ok p
propose_calls p (c ∷ calls) =
    if contains p.seen c.call_id
    then err repeated_call
    else propose_calls (record { seen = add c.call_id p.seen; pending = add c.call_id p.pending })
        calls

-- The answer to a call, where it is pending.
unfoldable pub answer_call : Pairing → Option String → Result HistoryError Pairing
answer_call p none = err unpaired_result
answer_call p (some id) =
    if contains p.pending id
    then ok (record p { pending = keep (λ x. not (x == id)) p.pending })
    else err unpaired_result

-- one round of the loop
unfoldable pub pair_message :
    {J : Type 0} → Pairing → Role → ChatMessage J → Result HistoryError Pairing
unfolding answer_call propose_calls
pair_message p system m = err unexpected_role
pair_message p tool m = answer_call p m.tool_call_id
pair_message p message m =
    if is_empty p.pending then propose_calls p m.tool_calls else err pending_calls
pair_message p assistant m =
    if is_empty p.pending then propose_calls p m.tool_calls else err pending_calls

unfoldable pub pair_messages :
    {J : Type 0} → Pairing → List (ChatMessage J) → Result HistoryError Pairing
pair_messages p [] = ok p
pair_messages p (m ∷ rest) = do p' ← pair_message p m.role m; pair_messages p' rest

abbrev pub no_calls : Pairing
no_calls = record { seen = []; pending = [] }

unfoldable pub validate_history :
    {J : Type 0} → Bool → List (ChatMessage J) → Result HistoryError (Unit {0})
unfolding pair_messages pair_message
validate_history allow_pending messages = do
  p ← pair_messages no_calls messages
  refuse_if (not (is_empty p.pending) && not allow_pending) pending_calls
