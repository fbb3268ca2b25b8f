-- ===== src/OpenAi/Replies.antt =====
-- A reply that goes back to the model: `fromOutput` and then `toInput` of packages/openai/src/mapping.ts.
use haikit.Prelude.{
  ◌≡◌, refl, sym, ap, subst, ◌∙◌, Bool, true, false, Option, none, some, List, [], ◌∷◌, ◌++◌,
  append-nil, append_assoc, if◌then◌else◌, Text, Result, ok, arith,
}
use haikit.Core.Json.{Json, null, bool, num, str, arr, obj, end}
use haikit.Core.Types.{assistant}
use haikit.OpenAi.Mapping.{
  Block, InputItem, OutputItem, Part, Response, Status, Translated, both, array, or_empty,
  is_object, assistant_block, assistant_items, message_items, to_input, parse_arguments,
  part_blocks, call_block, output_blocks, output_content, translated, from_output,
}

module _ (stringify : Json → Text) (parse : Text → Option Json) where
  abbrev arguments_or_empty : Option Json → Json
  arguments_or_empty none = obj end
  arguments_or_empty (some v) = v

  unfoldable pub sent_parts : List Part → List InputItem
  sent_parts [] = []
  sent_parts (Part.output_text [] ∷ ps) = sent_parts ps
  sent_parts (Part.output_text (x ∷ xs) ∷ ps) = InputItem.message assistant (x ∷ xs) ∷ sent_parts ps
  sent_parts (Part.refusal [] ∷ ps) = sent_parts ps
  sent_parts (Part.refusal (x ∷ xs) ∷ ps) = InputItem.message assistant (x ∷ xs) ∷ sent_parts ps
  sent_parts (Part.other ∷ ps) = sent_parts ps

  -- What goes back of an output item: its texts that are not empty, the call with its arguments as
  -- they were read, and the reasoning that can be sent back.
  unfoldable pub sent_back : OutputItem → List InputItem
  unfolding sent_parts
  sent_back (OutputItem.message ps) = sent_parts ps
  sent_back (OutputItem.function_call id name arguments) =
      InputItem.function_call id name
        (stringify (arguments_or_empty (parse_arguments stringify parse arguments)))
      ∷ []
  sent_back (OutputItem.reasoning id summary []) = []
  sent_back (OutputItem.reasoning id summary (x ∷ xs)) =
      InputItem.reasoning id summary (x ∷ xs) ∷ []
  sent_back OutputItem.other = []

  unfoldable pub all_sent_back : List OutputItem → List InputItem
  unfolding sent_back
  all_sent_back [] = []
  all_sent_back (i ∷ is) = sent_back i ++ all_sent_back is

  both-both : {A : Type 0} (a b c : Result (List A)) → both (both a b) c ≡ both a (both b c)
  both-both (Result.err e) b c = refl
  both-both (Result.ok xs) (Result.err e) c = refl
  both-both (Result.ok xs) (Result.ok ys) (Result.err e) = refl
  both-both (Result.ok xs) (Result.ok ys) (Result.ok zs) = ap (λ l. ok l) (append_assoc xs ys zs)

  both-empty : {A : Type 0} (r : Result (List A)) → r ≡ both (ok []) r
  both-empty (Result.err e) = refl
  both-empty (Result.ok xs) = refl

  assistant_items-append :
      (xs ys : List Block)
      → assistant_items stringify parse (xs ++ ys)
        ≡ both (assistant_items stringify parse xs) (assistant_items stringify parse ys)
  unfolding assistant_items
  assistant_items-append [] ys = both-empty (assistant_items stringify parse ys)
  assistant_items-append (x ∷ xs) ys =
      ap (both (assistant_block stringify parse x)) (assistant_items-append xs ys)
      ∙ sym (
          both-both (assistant_block stringify parse x) (assistant_items stringify parse xs)
            (assistant_items stringify parse ys))

  -- Content that came through becomes just these items.
  Sent : Result (List Block) → List InputItem → Type 0
  Sent (Result.err e) items = Unit
  Sent (Result.ok content) items = assistant_items stringify parse content ≡ ok items

  both-Sent :
      (a b : Result (List Block)) (xs ys : List InputItem)
      → Sent a xs
      → Sent b ys
      → Sent (both a b) (xs ++ ys)
  unfolding Sent
  both-Sent (Result.err e) b xs ys s t = tt
  both-Sent (Result.ok cs) (Result.err e) xs ys s t = tt
  both-Sent (Result.ok cs) (Result.ok bs) xs ys s t = rw (assistant_items-append cs bs, s, t) refl

  parts-Sent :
      (ps : List Part)
      → assistant_items stringify parse (part_blocks stringify parse ps) ≡ ok (sent_parts ps)
  unfolding part_blocks sent_parts assistant_items assistant_block
  parts-Sent [] = refl
  parts-Sent (Part.output_text [] ∷ ps) = rw (parts-Sent ps) refl
  parts-Sent (Part.output_text (x ∷ xs) ∷ ps) = rw (parts-Sent ps) refl
  parts-Sent (Part.refusal [] ∷ ps) = rw (parts-Sent ps) refl
  parts-Sent (Part.refusal (x ∷ xs) ∷ ps) = rw (parts-Sent ps) refl
  parts-Sent (Part.other ∷ ps) = parts-Sent ps

  -- Arguments that were read are an object, and go back as they are.
  object_kept :
      (read : Option Json) (v : Json)
      → elim read [ none ↦ none | some j ↦ if is_object j then some j else none ] ≡ some v
      → or_empty v ≡ v
  object_kept none v e = ground (arith, e)
  object_kept (some null) v e = ground (arith, e)
  object_kept (some (bool b)) v e = ground (arith, e)
  object_kept (some (num t)) v e = ground (arith, e)
  object_kept (some (str t)) v e = ground (arith, e)
  object_kept (some (arr is)) v e = ground (arith, e)
  object_kept (some (obj fs)) v e =
      let same : obj fs ≡ v = cc e in subst (λ j. or_empty j ≡ j) same refl

  call-Sent :
      (cut_off : Bool) (id name : Text) (read : Option Json)
      → ((v : Json) → read ≡ some v → or_empty v ≡ v)
      → Sent
          (call_block stringify parse cut_off id name read)
          (InputItem.function_call id name (stringify (arguments_or_empty read)) ∷ [])
  unfolding call_block Sent assistant_items assistant_block
  call-Sent true id name none k = refl
  call-Sent false id name none k = tt
  call-Sent cut_off id name (some v) k =
      ap (λ j. ok (InputItem.function_call id name (stringify j) ∷ [])) (k v refl)

  output-Sent :
      (cut_off : Bool) (i : OutputItem)
      → Sent (output_blocks stringify parse cut_off i) (sent_back i)
  unfolding output_blocks sent_back Sent parse_arguments assistant_items assistant_block
  output-Sent cut_off (OutputItem.message ps) = parts-Sent ps
  output-Sent cut_off (OutputItem.function_call id name arguments) =
      call-Sent cut_off id name _ (object_kept (parse arguments))
  output-Sent cut_off (OutputItem.reasoning id summary []) = refl
  output-Sent cut_off (OutputItem.reasoning id summary (x ∷ xs)) = refl
  output-Sent cut_off OutputItem.other = refl

  content-Sent :
      (cut_off : Bool) (items : List OutputItem)
      → Sent (output_content stringify parse cut_off items) (all_sent_back items)
  unfolding output_content all_sent_back Sent assistant_items
  content-Sent cut_off [] = refl
  content-Sent cut_off (i ∷ is) =
      both-Sent (output_blocks stringify parse cut_off i)
        (output_content stringify parse cut_off is) (sent_back i) (all_sent_back is)
        (output-Sent cut_off i) (content-Sent cut_off is)

  content_of : Result Translated → List Block
  content_of (Result.err e) = []
  content_of (Result.ok t) = t.content

  translated-Sent :
      (status : Status) (r : Result (List Block)) (items : List InputItem) (reply : Translated)
      → Sent r items
      → translated stringify parse status r ≡ ok reply
      → assistant_items stringify parse reply.content ≡ ok items
  unfolding Sent translated content_of
  translated-Sent status (Result.err e) items reply s q = ground (arith, q)
  translated-Sent status (Result.ok content) items reply s q =
      let same : content ≡ reply.content = ap content_of q in
      subst (λ c. assistant_items stringify parse c ≡ ok items) same s

  response-Sent :
      (status : Status) (items : List OutputItem) (reply : Translated)
      → from_output stringify parse (record { status = status; output = items }) ≡ ok reply
      → assistant_items stringify parse reply.content ≡ ok (all_sent_back items)
  unfolding from_output
  response-Sent Status.completed items reply q =
      translated-Sent Status.completed _ _ reply (content-Sent false items) q
  response-Sent (Status.incomplete reason) items reply q =
      translated-Sent (Status.incomplete reason) _ _ reply (content-Sent true items) q
  response-Sent (Status.failed status cause) items reply q = ground (arith, q)

-- A reply that comes through goes back to OpenAI without refusal, whatever `JSON` does: in its order,
-- the texts that are not empty, the calls under their own numbers and names with the arguments that
-- were read, and the reasoning that has encrypted content.
pub to_input-from_output :
    (stringify : Json → Text) (parse : Text → Option Json) (r : Response) (reply : Translated)
    → from_output stringify parse r ≡ ok reply
    → to_input stringify parse (record { role = assistant; content = array (reply.content) } ∷ [])
      ≡ ok (all_sent_back stringify parse r.output)
unfolding to_input message_items
to_input-from_output stringify parse r reply q =
    let sent = response-Sent stringify parse r.status r.output reply q in
    rw sent (ap (λ l. ok l) (append-nil (all_sent_back stringify parse r.output)))
