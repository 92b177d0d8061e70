-- ===== src/Broker/Message.antt =====
-- The messages of serdes-ai-a2a/src/schema.rs. `J` is the type of JSON values.
use serdes_ai.Prelude.{String, Option, none, some, List, [], ◌∷◌, filter_map}
use Prim.Native.String as Str

pub data MessageRole : Type 0 where
  user agent : MessageRole

-- The two parts: a text, or data with its MIME type.
pub data Part (J : Type 0) : Type 0 where
  text : String → Part J
  data_part : J → (mime_type : Option String) → Part J

pub record Message (J : Type 0) : Type 0 where
  pub role : MessageRole
  pub parts : List (Part J)
  pub metadata : Option J

-- `join("")`
concat : List String → String
concat [] = ""
concat (s ∷ ss) = Str.◌++◌ s (concat ss)

module _ {J : Type 0} where
  abbrev pub user_message : String → Message J
  user_message content = record { role = user; parts = text content ∷ []; metadata = none }

  abbrev pub agent_message : String → Message J
  agent_message content = record { role = agent; parts = text content ∷ []; metadata = none }

  text_of : Part J → Option String
  text_of (text content) = some content
  text_of (data_part value mime_type) = none

  pub text_content : Message J → String
  unfolding text_of concat
  text_content m = concat (filter_map text_of m.parts)
