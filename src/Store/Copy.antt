-- ===== src/Store/Copy.antt =====
-- `copy` of packages/server/src/store.ts: the JSON round trip, on each stored record.
use haikit.Prelude.{[], ◌∷◌, map, Text, Map, set}
use mathlib.Core.Option
use haikit.Core.Types.{
  ContentBlock, text, tool_use, tool_result, other, Content, plain, blocks, Message, Pending,
  NoticeBody, NoticeRecord, Conversation, PayloadRecord,
}
use haikit.Store.Storable.{storable, copy_json}

copy_block : ContentBlock → ContentBlock
copy_block (text t) = text (storable t)
copy_block (tool_use i n v) = tool_use (storable i) (storable n) (copy_json v)
copy_block (tool_result i t) = tool_result (storable i) (storable t)
copy_block (other v) = other (copy_json v)

copy_content : Content → Content
copy_content (plain t) = plain (storable t)
copy_content (blocks bs) = blocks (map copy_block bs)

copy_message : Message → Message
copy_message m = record m { content = copy_content m.content }

copy_pending : Pending → Pending
copy_pending p = record {
  tool_use_id = storable p.tool_use_id;
  handle = storable p.handle;
  digest = storable p.digest;
  results = map copy_block p.results;
}

unfoldable pub copy_notice_body : NoticeBody → NoticeBody
copy_notice_body n = record {
  conversation_id = storable n.conversation_id;
  name = storable n.name;
  version = n.version;
  wake = n.wake;
  payload = copy_json n.payload;
  model = Option.map storable n.model;
  handle = Option.map storable n.handle;
  replaces = Option.map storable n.replaces;
}

unfoldable pub copy_notice : NoticeRecord → NoticeRecord
unfolding copy_notice_body
copy_notice n = record n { body = copy_notice_body n.body }

-- The entries of `superseded`; those copied so far come first.
copy_entries : Map Text → Map Text → Map Text
copy_entries done [] = done
copy_entries done ((k, v) ∷ m) = copy_entries (set (storable k) (storable v) done) m

unfoldable pub copy_conversation : Conversation → Conversation
unfolding copy_message copy_content copy_block copy_pending copy_notice_body copy_entries
copy_conversation c = record {
  id = storable c.id;
  status = c.status;
  messages = map copy_message c.messages;
  handles = map storable c.handles;
  frozen = map storable c.frozen;
  superseded = copy_entries [] c.superseded;
  pending = Option.map copy_pending c.pending;
  lease_until = c.lease_until;
  lease_token = Option.map storable c.lease_token;
  noticed_through = c.noticed_through;
  wakes = c.wakes;
  woke_through = c.woke_through;
  wake_turns = c.wake_turns;
  announcing = Option.map copy_notice_body c.announcing;
}

unfoldable pub copy_payload : PayloadRecord → PayloadRecord
copy_payload p = record {
  body = record {
    conversation_id = storable p.conversation_id;
    component = storable p.component;
    version = p.version;
    props = copy_json p.props;
    mode = p.mode;
    stale_after_ms = p.stale_after_ms;
  };
  handle = storable p.handle;
  created_at = p.created_at;
}
