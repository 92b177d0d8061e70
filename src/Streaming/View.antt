-- ===== src/Streaming/View.antt =====
-- What a consumer of the events sees, and when a manager's own indices are in range.
use serdes_ai.Prelude.{
  ℕ, ◌<◌, ◌≡◌, ◌∙◌, Option, none, some, List, [], ◌∷◌, ◌++◌, length, get_elem?, get_elem?-set,
  get_elem?-some, length-set, nat_beq, if◌then◌else◌, arith,
}
use serdes_ai.Prelude.Map
use serdes_ai.Prelude.Result.{ok}
use serdes_ai.Streaming.Part.{
  Json, ManagedPart, ModelResponsePart, Event, part_start, part_delta, text_delta, thinking_delta,
}
use serdes_ai.Streaming.Text.{Text}
use serdes_ai.Streaming.Manager.{VendorId, Manager, Step, vendor_key, set_part}

abbrev pub append_to : Option Text → Text → Option Text
append_to none d = none
append_to (some s) d = some (s ++ d)

module _ {j : Json} where
  -- The content of a text or thinking part.
  abbrev pub content_of : ManagedPart j → Option Text
  content_of (ManagedPart.text p) = some p.content
  content_of (ManagedPart.thinking p) = some p.content
  content_of _ = none

  abbrev pub content_of_part : Option (ManagedPart j) → Option Text
  content_of_part none = none
  content_of_part (some p) = content_of p

  abbrev pub content_at : Manager j → ℕ → Option Text
  content_at m k = content_of_part (get_elem? m.parts k)

  abbrev pub response_content : ModelResponsePart j → Option Text
  response_content (ModelResponsePart.text p) = some p.content
  response_content (ModelResponsePart.thinking p) = some p.content
  response_content _ = none

  -- A consumer keeps one text for each index: a start event sets it, and a delta appends to it.
  abbrev pub receive : Event j → (ℕ → Option Text) → ℕ → Option Text
  receive (part_start i part) seen k = if nat_beq i k then response_content part else seen k
  receive (part_delta i (text_delta d)) seen k =
      if nat_beq i k then append_to (seen k) d else seen k
  receive (part_delta i (thinking_delta d)) seen k =
      if nat_beq i k then append_to (seen k) d else seen k
  receive (part_delta i _) seen k = seen k

  abbrev pub receive_all : List (Event j) → (ℕ → Option Text) → ℕ → Option Text
  receive_all [] seen = seen
  receive_all (e ∷ es) seen = receive_all es (receive e seen)

  -- Every index that is registered for a vendor ID is one of a part.
  pub record IsValid (m : Manager j) : Type 0 where
    pub in_range :
        (vid : VendorId) (i : ℕ) → Map.get vid m.vendor_id_to_index ≡ some i → i < length m.parts

  -- A consumer that saw the contents of `m` sees those of `m'` after the events.
  abbrev pub Tracks : Manager j → Manager j → List (Event j) → Type 0
  Tracks m m' es =
      (seen : ℕ → Option Text)
      → ((k : ℕ) → seen k ≡ content_at m k)
      → (k : ℕ) → receive_all es seen k ≡ content_at m' k

  pub record IsGood (m m' : Manager j) (es : List (Event j)) : Type 0 where
    pub valid : IsValid m'
    pub tracks : Tracks m m' es

  -- A method returns, and what it returns meets `P`.
  pub data Succeeds (P : Manager j → List (Event j) → Type 0) : Step j → Type 0 where
    succeeds : {m : Manager j} {es : List (Event j)} → P m es → Succeeds P (ok (m, es))

  -- What the events do to the text at an index, whose content was `a` and is to be `b`.
  abbrev pub Local : ℕ → Option Text → Option Text → List (Event j) → Type 0
  Local idx a b es =
      (seen : ℕ → Option Text)
      → seen idx ≡ a
      → (k : ℕ) → receive_all es seen k ≡ (if nat_beq idx k then b else seen k)

  pub IsGood-same : (m : Manager j) → IsValid m → IsGood m m []
  IsGood-same m v = record { valid = v; tracks = λ seen h k. h k }

  pub set_part-IsGood :
      (m : Manager j) (idx : ℕ) (p q : ManagedPart j) (es : List (Event j))
      → IsValid m
      → get_elem? m.parts idx ≡ some p
      → Local idx (content_of p) (content_of q) es
      → IsGood m (set_part idx q m) es
  set_part-IsGood m idx p q es v e l = record {
    valid = record { in_range = λ vid i h. rw length-set (v.in_range vid i h) };
    tracks = λ seen h k.
        rw (get_elem?-set m.parts idx k q (get_elem?-some m.parts idx e))
          (ground (arith, l seen (h idx ∙ rw e) k, h k));
  }
