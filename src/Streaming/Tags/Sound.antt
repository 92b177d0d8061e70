-- ===== src/Streaming/Tags/Sound.antt =====
-- Text with thinking tags (serdes-ai-streaming/src/parts_manager.rs): the loop ends, and where no slice
-- cuts a character, it keeps what the other handlers keep.
use serdes_ai.Prelude.{
  ℕ, zero, suc, ◌+◌, ◌-◌, ◌<◌, Bool, true, false, not, ◌≡◌, refl, ap, unwrap_or, inl, inr,
  Bool-cases, Option, none, some, List, [], ◌∷◌, ◌++◌, length, take, drop, length-drop,
  if◌then◌else◌, arith,
}
use serdes_ai.Prelude.Result.{Result, ok, err, ◌>>=◌}
use serdes_ai.Streaming.Part.{Json, Event}
use serdes_ai.Streaming.Text.{
  Text, Panic, slice_not_at_boundary, is_char_boundary, slice_from, slice_to, starts_with, find,
}
use serdes_ai.Streaming.Manager.{Manager, Step}
use serdes_ai.Streaming.Tags.{
  find_partial_tag_suffix, partial_from, Turn, TextDelta, turn, turn_at, turn_without_tag,
  next_turn, continue_with, unless_empty, emit_text, emit_thinking, either_turn, tags_loop,
  handle_text_with_thinking_tags, handle_text_delta,
}
use serdes_ai.Streaming.View.{IsValid, IsGood, Succeeds, succeeds, IsGood-same}
use serdes_ai.Streaming.Correct.{emit_text_delta-IsGood, handle_thinking_delta-IsGood}
use serdes_ai.Streaming.Session.{IsGood-trans}

-- A computation gives a value that meets `P`, or panics on a slice that cuts a character.
pub data Sound {ℓ} {A : Type ℓ} (P : A → Type 0) : Result A Panic → Type ℓ where
  gives : {a : A} → P a → Sound P (ok a)
  panics : Sound P (err slice_not_at_boundary)

-- A loop ends, in such a way.
pub data Ends {ℓ} {A : Type ℓ} (P : A → Type 0) : Option (Result A Panic) → Type ℓ where
  ends : {r : Result A Panic} → Sound P r → Ends P (some r)

Ends-imp {ℓ} :
    {A : Type ℓ} {P Q : A → Type 0} {o : Option (Result A Panic)}
    → ((a : A) → P a → Q a)
    → Ends P o
    → Ends Q o
Ends-imp f (ends panics) = ends panics
Ends-imp f (ends (gives p)) = ends (gives (f _ p))

bind-Sound {ℓ κ} :
    {A : Type ℓ} {B : Type κ} {P : A → Type 0} {Q : B → Type 0} {r : Result A Panic}
    (f : A → Result B Panic)
    → Sound P r
    → ((a : A) → P a → Sound Q (f a))
    → Sound Q (r >>= f)
bind-Sound f (gives p) h = h _ p
bind-Sound f panics h = panics

slice_from-Sound : (s : Text) (i : ℕ) → Sound (λ t. t ≡ drop i s) (slice_from s i)
unfolding slice_from
slice_from-Sound s i = elim (Bool-cases (is_char_boundary s i)) [
  | inl e ↦ rw e (gives refl)
  | inr e ↦ rw e panics
]

slice_to-Sound : (s : Text) (i : ℕ) → Sound (λ t. t ≡ take i s) (slice_to s i)
unfolding slice_to
slice_to-Sound s i = elim (Bool-cases (is_char_boundary s i)) [
  | inl e ↦ rw e (gives refl)
  | inr e ↦ rw e panics
]

either :
    (b : Bool) (s : Text) {r : Result (Option Text) Panic}
    → Sound (λ o. Unit) r
    → Sound (λ o. Unit) (if b then ok (some s) else r)
either true s h = gives tt
either false s h = h

partial_from-Sound :
    (rounds i : ℕ) (content tag : Text) → Sound (λ o. Unit) (partial_from rounds i content tag)
unfolding partial_from
partial_from-Sound zero i content tag = gives tt
partial_from-Sound (suc rounds) i content tag =
    bind-Sound _ (slice_from-Sound content (length content - i)) (λ suffix h.
      either (starts_with tag suffix) suffix (partial_from-Sound rounds (i + 1) content tag))

find_partial_tag_suffix-Sound :
    (content tag : Text) → Sound (λ o. Unit) (find_partial_tag_suffix content tag)
unfolding find_partial_tag_suffix
find_partial_tag_suffix-Sound content tag = partial_from-Sound (length tag - 1) 1 content tag

module _ {j : Json} where
  with_flag :
      {m m' : Manager j} {es : List (Event j)} (b : Bool)
      → IsGood m m' es
      → IsGood m (record m' { in_thinking = b }) es
  with_flag b g = record { valid = record { in_range = g.valid.in_range }; tracks = g.tracks }

  with_buffer :
      {m m' : Manager j} {es : List (Event j)} (s : Text)
      → IsGood m m' es
      → IsGood m (record m' { partial_tag_buffer = s }) es
  with_buffer s g = record { valid = record { in_range = g.valid.in_range }; tracks = g.tracks }

  -- A turn tracks the contents, and leaves less text than there was.
  IsTurn : Manager j → Text → Turn j → Type 0
  IsTurn m s t =
      IsGood m t.manager t.events
      × ((rest : Text) → t.remaining ≡ some rest → length rest < length s)

  abbrev pub IsResult : Manager j → Manager j × List (Event j) → Type 0
  IsResult m (m', es) = IsGood m m' es

  Emits : (Text → Manager j → Step j) → Type 0
  Emits emit = (s : Text) (m : Manager j) → IsValid m → Sound (IsResult m) (emit s m)

  unless_empty-Sound :
      (emit : Text → Manager j → Step j)
      → Emits emit
      → (s : Text) (m : Manager j) → IsValid m
      → Sound (IsResult m) (unless_empty s emit m)
  unfolding Emits
  unless_empty-Sound emit h [] m v = gives (IsGood-same m v)
  unless_empty-Sound emit h (b ∷ s) m v = h (b ∷ s) m v

  turn_without_tag-Sound :
      (emit : Text → Manager j → Step j) (s : Text) (m : Manager j) (partial : Option Text)
      → Emits emit
      → IsValid m
      → Sound (IsTurn m s) (turn_without_tag emit s m partial)
  unfolding turn_without_tag IsTurn Emits
  turn_without_tag-Sound emit s m (some p) h v =
      bind-Sound _ (slice_to-Sound s (length s - length p)) (λ content _.
        bind-Sound _ (unless_empty-Sound emit h content m v)
          (λ (m', es) g. gives (with_buffer p g, λ rest e. absurd (cc e))))
  turn_without_tag-Sound emit s m none h v =
      bind-Sound _ (h s m v) (λ (m', es) g. gives (g, λ rest e. absurd (cc e)))

  turn_at-Sound :
      (tag : Text) (inside : Bool) (emit : Text → Manager j → Step j) (s : Text) (m : Manager j)
      (found : Option ℕ)
      → 0 < length tag
      → 0 < length s
      → Emits emit
      → IsValid m
      → Sound (IsTurn m s) (turn_at tag inside emit s m found)
  unfolding turn_at IsTurn Emits
  turn_at-Sound tag inside emit s m (some pos) ht hs h v =
      bind-Sound _ (slice_to-Sound s pos) (λ content _.
        bind-Sound _ (unless_empty-Sound emit h content m v) (λ (m', es) g.
          bind-Sound _ (slice_from-Sound s (pos + length tag)) (λ rest r. gives (
            with_flag (not inside) g,
            λ rest' e. omega (
              arith,
              ht,
              hs,
              ap (λ o. length (unwrap_or o [])) e,
              ap length r,
              length-drop (pos + length tag) s,
            ),
          ))))
  turn_at-Sound tag inside emit s m none ht hs h v =
      bind-Sound _ (find_partial_tag_suffix-Sound s tag)
        (λ partial _. turn_without_tag-Sound emit s m partial h v)

  from_Succeeds : {m : Manager j} {s : Step j} → Succeeds (IsGood m) s → Sound (IsResult m) s
  from_Succeeds (succeeds g) = gives g

  -- A loop that ends on every text shorter than `s`.
  EndsBelow : (Text → Manager j → Option (Step j)) → Text → Type 0
  EndsBelow loop s =
      (rest : Text) (m : Manager j)
      → length rest < length s
      → IsValid m
      → Ends (IsResult m) (loop rest m)

  append-Ends :
      {m m' : Manager j} {es : List (Event j)} {o : Option (Step j)}
      → IsGood m m' es
      → Ends (IsResult m') o
      → Ends
          (IsResult m)
          (elim o [ none ↦ none | some r ↦ some (do (m'', es') ← r; ok (m'', es ++ es')) ])
  append-Ends g (ends panics) = ends panics
  append-Ends g (ends (gives h)) = ends (gives (IsGood-trans g h))

  continue_with-Ends :
      (loop : Text → Manager j → Option (Step j)) (s : Text) (m m' : Manager j)
      (es : List (Event j)) (remaining : Option Text)
      → EndsBelow loop s
      → IsGood m m' es
      → ((rest : Text) → remaining ≡ some rest → length rest < length s)
      → Ends (IsResult m) (continue_with loop m' es remaining)
  unfolding continue_with EndsBelow
  continue_with-Ends loop s m m' es none h g l = ends (gives g)
  continue_with-Ends loop s m m' es (some rest) h g l =
      append-Ends g (h rest m' (l rest refl) g.valid)

  next_turn-Ends :
      {r : Result (Turn j) Panic} (loop : Text → Manager j → Option (Step j)) (s : Text)
      (m : Manager j)
      → EndsBelow loop s
      → Sound (IsTurn m s) r
      → Ends (IsResult m) (next_turn loop r)
  unfolding next_turn IsTurn
  next_turn-Ends loop s m h panics = ends panics
  next_turn-Ends loop s m h (gives {a = t} g) =
      continue_with-Ends loop s m t.manager t.events t.remaining h g.0 g.1

module _ {j : Json} (d : TextDelta j) where
  emit_text-Emits : Emits (emit_text d)
  unfolding Emits
  emit_text-Emits s m v = from_Succeeds (
      emit_text_delta-IsGood m d.vendor_part_id s d.id d.provider_details
        d.ignore_leading_whitespace v)

  emit_thinking-Emits : Emits (emit_thinking d)
  unfolding Emits
  emit_thinking-Emits s m v =
      from_Succeeds (handle_thinking_delta-IsGood m none (some s) none none none none v)

  module _ (start_tag end_tag : Text) (hs : 0 < length start_tag) (he : 0 < length end_tag) where
    either_turn-Sound :
        (inside : Bool) (s : Text) (m : Manager j)
        → 0 < length s
        → IsValid m
        → Sound (IsTurn m s) (either_turn d start_tag end_tag inside s m)
    unfolding either_turn turn
    either_turn-Sound true s m h v =
        turn_at-Sound end_tag true (emit_thinking d) s m (find s end_tag) he h emit_thinking-Emits v
    either_turn-Sound false s m h v =
        turn_at-Sound start_tag false (emit_text d) s m (find s start_tag) hs h emit_text-Emits v

    tags_loop-Ends :
        (fuel : ℕ) (s : Text) (m : Manager j)
        → length s < fuel
        → IsValid m
        → Ends (IsResult m) (tags_loop d start_tag end_tag fuel s m)
    unfolding tags_loop EndsBelow
    tags_loop-Ends zero s m h v = absurd (omega arith)
    tags_loop-Ends (suc fuel) [] m h v = ends (gives (IsGood-same m v))
    tags_loop-Ends (suc fuel) (b ∷ s) m h v =
        next_turn-Ends (tags_loop d start_tag end_tag fuel) (b ∷ s) m
          (λ rest m' l v'. tags_loop-Ends fuel rest m' (omega arith) v')
          (either_turn-Sound m.in_thinking (b ∷ s) m (omega arith) v)

  -- Text with thinking tags, neither of them empty: the loop ends within the fuel, whatever is
  -- buffered and however the tags lie. Either a slice cuts a character, or the manager stays valid and
  -- a consumer's contents follow its own.
  pub handle_text_delta-Ends :
      (start_tag end_tag content : Text) (m : Manager j)
      → 0 < length start_tag
      → 0 < length end_tag
      → IsValid m
      → Ends (IsResult m) (handle_text_delta d (some (start_tag, end_tag)) content m)
  unfolding handle_text_delta handle_text_with_thinking_tags
  handle_text_delta-Ends start_tag end_tag content m hs he v =
      Ends-imp (λ (m', es) g. record { valid = g.valid; tracks = g.tracks })
        (tags_loop-Ends start_tag end_tag hs he (suc (length (m.partial_tag_buffer ++ content)))
          (m.partial_tag_buffer ++ content) (record m { partial_tag_buffer = [] }) (omega arith)
          (record { in_range = v.in_range }))
