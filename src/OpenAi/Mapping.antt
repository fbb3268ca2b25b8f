-- ===== src/OpenAi/Mapping.antt =====
-- `toInput` and `fromOutput` of packages/openai/src/mapping.ts: the history as input items of OpenAI's
-- Responses API, and its output items as content blocks.
use haikit.Prelude.{
  Bool, true, false, Option, none, some, List, [], ◌∷◌, ◌++◌, if◌then◌else◌, Text, lit, ◌=t=◌,
  Result, ok, err, fail, error,
}
use haikit.Core.Json.{Json, null, obj, end}
use haikit.Core.Cap.{join_lines}
use haikit.Core.Types.{Role, user, assistant}

-- A `tool_result`'s content.
pub data ResultBlock : Type 0 where
  text : Text → ResultBlock
  other : Text → ResultBlock

pub data ResultContent : Type 0 where
  missing : ResultContent
  string : Text → ResultContent
  array : List ResultBlock → ResultContent
  odd : ResultContent

-- A content block, and one of another type by its name.
pub data Block : Type 0 where
  text : Text → Block
  tool_use : Text → Text → Json → Block
  tool_result : Text → ResultContent → Block
  reasoning : Text → Json → Text → Block
  other : Text → Block

pub data MessageContent : Type 0 where
  string : Text → MessageContent
  array : List Block → MessageContent
  odd : MessageContent

pub record HistoryMessage : Type 0 where
  pub role : Role
  pub content : MessageContent

pub data InputItem : Type 0 where
  message : Role → Text → InputItem
  user_texts : List Text → InputItem
  function_call : Text → Text → Text → InputItem
  function_call_output : Text → Text → InputItem
  reasoning : Text → Json → Text → InputItem

pub data Part : Type 0 where
  output_text : Text → Part
  refusal : Text → Part
  other : Part

-- An item of the model's output; a reasoning item that has no encrypted content has the empty one.
pub data OutputItem : Type 0 where
  message : List Part → OutputItem
  function_call : Text → Text → Text → OutputItem
  reasoning : Text → Json → Text → OutputItem
  other : OutputItem

pub data Status : Type 0 where
  completed : Status
  incomplete : Option Text → Status
  failed : Text → Option Text → Status

pub record Response : Type 0 where
  pub status : Status
  pub output : List OutputItem

pub record Translated : Type 0 where
  pub content : List Block
  pub stop_reason : Text

unfoldable pub refuse : {A : Type 0} → Text → Result A
refuse what = fail error (lit "[haikit] openai: cannot send " ++ what ++ lit " to OpenAI")

-- What one block or item gives, before what the rest gives.
abbrev pub both : {A : Type 0} → Result (List A) → Result (List A) → Result (List A)
both (Result.err e) r = err e
both (Result.ok xs) (Result.err e) = err e
both (Result.ok xs) (Result.ok ys) = ok (xs ++ ys)

abbrev and_then : {A B : Type 0} → Result A → (A → Result B) → Result B
and_then (Result.ok a) f = f a
and_then (Result.err e) f = err e

-- The texts of a result's blocks.
unfoldable pub result_lines : List ResultBlock → Result (List Text)
unfolding refuse
result_lines [] = ok []
result_lines (ResultBlock.text t ∷ bs) = both (ok (t ∷ [])) (result_lines bs)
result_lines (ResultBlock.other type ∷ bs) =
    refuse (lit "a \"" ++ type ++ lit "\" block in a tool_result")

unfoldable pub result_text : ResultContent → Result Text
unfolding result_lines join_lines refuse
result_text ResultContent.missing = ok []
result_text (ResultContent.string t) = ok t
result_text (ResultContent.array bs) = and_then (result_lines bs) λ ls. ok (join_lines ls)
result_text ResultContent.odd =
    refuse (lit "a tool_result whose content is not a string or an array")

unfoldable pub user_block : Block → Result (List InputItem)
unfolding result_text refuse
user_block (Block.tool_result id content) =
    and_then (result_text content) λ t. ok (InputItem.function_call_output id t ∷ [])
user_block (Block.text t) = ok []
user_block (Block.tool_use id name input) = refuse (lit "a \"tool_use\" block in a user message")
user_block (Block.reasoning id summary encrypted) =
    refuse (lit "a \"openai_reasoning\" block in a user message")
user_block (Block.other type) = refuse (lit "a \"" ++ type ++ lit "\" block in a user message")

unfoldable pub user_results : List Block → Result (List InputItem)
unfolding user_block
user_results [] = ok []
user_results (b ∷ bs) = both (user_block b) (user_results bs)

unfoldable pub texts_of : List Block → List Text
texts_of [] = []
texts_of (Block.text t ∷ bs) = t ∷ texts_of bs
texts_of (_ ∷ bs) = texts_of bs

abbrev text_item : List Text → List InputItem
text_item [] = []
text_item (t ∷ ts) = InputItem.user_texts (t ∷ ts) ∷ []

abbrev pub is_object : Json → Bool
is_object (obj fs) = true
is_object _ = false

-- `block.input ?? {}`.
abbrev pub or_empty : Json → Json
or_empty null = obj end
or_empty v = v

-- `JSON.stringify`, and `JSON.parse`, which gives none where it throws.
module _ (stringify : Json → Text) (parse : Text → Option Json) where
  unfoldable pub assistant_block : Block → Result (List InputItem)
  unfolding refuse
  assistant_block (Block.text []) = ok []
  assistant_block (Block.text (x ∷ xs)) = ok (InputItem.message assistant (x ∷ xs) ∷ [])
  assistant_block (Block.tool_use id name input) =
      ok (InputItem.function_call id name (stringify (or_empty input)) ∷ [])
  assistant_block (Block.reasoning id summary encrypted) =
      ok (InputItem.reasoning id summary encrypted ∷ [])
  assistant_block (Block.tool_result id content) =
      refuse (lit "a \"tool_result\" block in an assistant message")
  assistant_block (Block.other type) =
      refuse (lit "a \"" ++ type ++ lit "\" block in an assistant message")

  unfoldable pub assistant_items : List Block → Result (List InputItem)
  unfolding assistant_block
  assistant_items [] = ok []
  assistant_items (b ∷ bs) = both (assistant_block b) (assistant_items bs)

  abbrev role_name : Role → Text
  role_name user = lit "user"
  role_name assistant = lit "assistant"

  -- The results of a user message go before its texts.
  unfoldable pub message_items : HistoryMessage → Result (List InputItem)
  unfolding user_results texts_of assistant_items refuse
  message_items m = elim m.content [
    | MessageContent.string t ↦ ok (InputItem.message m.role t ∷ [])
    | MessageContent.odd ↦
        refuse
          (lit "a " ++ role_name m.role ++ lit " message whose content is not a string or an array")
    | MessageContent.array bs ↦ elim m.role [
      | user ↦ both (user_results bs) (ok (text_item (texts_of bs)))
      | assistant ↦ assistant_items bs
    ]
  ]

  unfoldable pub to_input : List HistoryMessage → Result (List InputItem)
  unfolding message_items
  to_input [] = ok []
  to_input (m ∷ ms) = both (message_items m) (to_input ms)

  -- A call's arguments, where they are a JSON object.
  unfoldable pub parse_arguments : Text → Option Json
  parse_arguments t = elim (parse t) [ none ↦ none | some v ↦ if is_object v then some v else none ]

  unfoldable pub part_blocks : List Part → List Block
  part_blocks [] = []
  part_blocks (Part.output_text t ∷ ps) = Block.text t ∷ part_blocks ps
  part_blocks (Part.refusal t ∷ ps) = Block.text t ∷ part_blocks ps
  part_blocks (Part.other ∷ ps) = part_blocks ps

  -- The call of a reply that was cut off is never run, and stands with `{}`.
  unfoldable pub call_block : Bool → Text → Text → Option Json → Result (List Block)
  call_block cut_off id name (some v) = ok (Block.tool_use id name v ∷ [])
  call_block true id name none = ok (Block.tool_use id name (obj end) ∷ [])
  call_block false id name none = fail error (
      lit "[haikit] openai: the model called "
      ++ name
      ++ lit " with arguments that aren't a JSON object")

  unfoldable pub output_blocks : Bool → OutputItem → Result (List Block)
  unfolding parse_arguments part_blocks call_block
  output_blocks cut_off (OutputItem.message ps) = ok (part_blocks ps)
  output_blocks cut_off (OutputItem.function_call id name arguments) =
      call_block cut_off id name (parse_arguments arguments)
  output_blocks cut_off (OutputItem.reasoning id summary []) = ok []
  output_blocks cut_off (OutputItem.reasoning id summary (x ∷ xs)) =
      ok (Block.reasoning id summary (x ∷ xs) ∷ [])
  output_blocks cut_off OutputItem.other = ok []

  unfoldable pub output_content : Bool → List OutputItem → Result (List Block)
  unfolding output_blocks
  output_content cut_off [] = ok []
  output_content cut_off (i ∷ is) = both (output_blocks cut_off i) (output_content cut_off is)

  abbrev calls_tool : List Block → Bool
  calls_tool [] = false
  calls_tool (Block.tool_use id name input ∷ bs) = true
  calls_tool (_ ∷ bs) = calls_tool bs

  unfoldable pub stop_reason : Status → List Block → Text
  stop_reason (Status.incomplete none) content = lit "incomplete"
  stop_reason (Status.incomplete (some reason)) content =
      if reason =t= lit "max_output_tokens"
      then lit "max_tokens"
      else if reason =t= lit "content_filter"
      then lit "refusal"
      else reason
  stop_reason _ content = if calls_tool content then lit "tool_use" else lit "end_turn"

  abbrev why : Option Text → Text
  why none = []
  why (some []) = []
  why (some (x ∷ xs)) = lit ": " ++ x ∷ xs

  unfoldable pub translated : Status → Result (List Block) → Result Translated
  unfolding stop_reason
  translated s (Result.err e) = err e
  translated s (Result.ok content) =
      ok (record { content = content; stop_reason = stop_reason s content })

  unfoldable pub from_output : Response → Result Translated
  unfolding output_content translated
  from_output r = elim r.status [
    | Status.failed status cause ↦
        fail error (lit "[haikit] openai: the response " ++ status ++ why cause)
    | Status.completed ↦ translated r.status (output_content false r.output)
    | Status.incomplete _ ↦ translated r.status (output_content true r.output)
  ]
