-- ===== src/Mcp/Text.antt =====
-- An MCP result as text: packages/mcp/src/text.ts.
use haikit.Prelude.{
  ℕ, ◌-◌, ◌*◌, ◌/◌, Bool, Option, none, some, List, [], ◌∷◌, ◌++◌, map, if◌then◌else◌, leb, length,
  drop, take, Text, lit, decimal, ◌=t=◌, Result, ok, fail, range_error,
}
use haikit.Core.Json.{Json}
use haikit.Core.Cap.{join_lines}

pub data Embedded : Type 0 where
  as_text as_blob : Text → Embedded
  neither : Embedded

-- A content block; what a later revision of the protocol adds, by its type.
pub data Content : Type 0 where
  text : Text → Content
  media : Text → Text → Text → Content
  resource_link : Text → Text → Content
  resource : Text → Option Text → Embedded → Content
  later : Text → Content

-- `maxChars`: any other value by what `String` makes of it.
pub data MaxChars : Type 0 where
  unset : MaxChars
  chars : ℕ → MaxChars
  refused : Text → MaxChars

unfoldable pub ends_with : Text → Text → Bool
ends_with suffix t = drop (length t - length suffix) t =t= suffix

unfoldable pub padding : Text → ℕ
unfolding ends_with
padding data' = if ends_with (lit "==") data' then 2 else if ends_with (lit "=") data' then 1 else 0

-- The size of what base64 text encodes.
unfoldable pub bytes : Text → ℕ
unfolding padding
bytes data' = length data' * 3 / 4 - padding data'

abbrev mime_of : Option Text → Text
mime_of none = []
mime_of (some []) = []
mime_of (some (x ∷ xs)) = lit ", " ++ x ∷ xs

abbrev blob_of : Embedded → Text
blob_of (as_blob b) = b
blob_of e = []

unfoldable pub block_text : Content → Text
unfolding bytes
block_text (text t) = t
block_text (media kind mime data') =
    lit "["
    ++ kind
    ++ lit ": "
    ++ mime
    ++ lit ", "
    ++ decimal (bytes data')
    ++ lit " bytes, not included]"
block_text (resource_link name uri) = lit "[resource link: " ++ name ++ lit " " ++ uri ++ lit "]"
block_text (resource uri mime (as_text t)) = t
block_text (resource uri mime e) =
    lit "[resource: "
    ++ uri
    ++ mime_of mime
    ++ lit ", "
    ++ decimal (bytes (blob_of e))
    ++ lit " bytes, not included]"
block_text (later kind) = lit "[" ++ kind ++ lit " content, not included]"

unfoldable pub max_chars_of : MaxChars → Result ℕ
max_chars_of unset = ok 8000
max_chars_of (chars n) = ok n
max_chars_of (refused t) =
    fail range_error
      (lit "maxChars must be a whole number of characters, 0 or more (got " ++ t ++ lit ")")

unfoldable pub cut : ℕ → Text → Text
cut max t =
    if leb (length t) max
    then t
    else take max t
      ++ lit "\n[Cut at "
      ++ decimal max
      ++ lit " of "
      ++ decimal (length t)
      ++ lit " characters.]"

-- `JSON.stringify` of the structured result is given.
module _ (stringify : Json → Text) where
  unfoldable pub whole_text : List Content → Option Json → Text
  unfolding block_text
  whole_text [] none = []
  whole_text [] (some v) = stringify v
  whole_text (b ∷ bs) structured = join_lines (map block_text (b ∷ bs))

  unfoldable pub text_of : List Content → Option Json → MaxChars → Result Text
  unfolding max_chars_of cut whole_text
  text_of content structured max = elim (max_chars_of max) [
    | Result.err e ↦ Result.err e
    | Result.ok n ↦ ok (cut n (whole_text content structured))
  ]
