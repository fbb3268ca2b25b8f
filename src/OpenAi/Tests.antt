-- ===== src/OpenAi/Tests.antt =====
-- A reply with reasoning, a text and a call, under a parser that reads every text as `{}`.
use haikit.Prelude.{◌≡◌, refl, Option, some, [], ◌∷◌, Text, lit, ok}
use haikit.Core.Json.{Json, obj, end}
use haikit.Core.Types.{assistant}
use haikit.OpenAi.Mapping.{
  Block, OutputItem, Part, Response, Status, Translated, array, from_output, to_input,
}
use haikit.OpenAi.Replies.{all_sent_back, to_input-from_output}

abbrev braces : Json → Text
braces j = lit "{}"

abbrev reads_empty : Text → Option Json
reads_empty t = some (obj end)

abbrev answered : Response
answered = record {
  status = Status.completed;
  output =
      OutputItem.reasoning (lit "r1") (obj end) (lit "key")
      ∷ OutputItem.message (Part.output_text (lit "Let me look.") ∷ [])
      ∷ OutputItem.function_call (lit "c1") (lit "search") (lit "{}")
      ∷ [];
}

abbrev reply : Translated
reply = record {
  content =
      Block.reasoning (lit "r1") (obj end) (lit "key")
      ∷ Block.text (lit "Let me look.")
      ∷ Block.tool_use (lit "c1") (lit "search") (obj end)
      ∷ [];
  stop_reason = lit "tool_use";
}

answered-reply : from_output braces reads_empty answered ≡ ok reply
unfolding from_output
answered-reply = refl

to_input-from_output_example :
    to_input braces reads_empty (record { role = assistant; content = array (reply.content) } ∷ [])
    ≡ ok (all_sent_back braces reads_empty answered.output)
to_input-from_output_example = to_input-from_output braces reads_empty answered reply answered-reply
