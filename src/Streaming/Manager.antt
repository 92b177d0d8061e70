-- ===== src/Streaming/Manager.antt =====
-- The state of `ModelResponsePartsManager` (serdes-ai-streaming/src/parts_manager.rs) and the search
-- for the part that a delta belongs to. A method returns the new manager and its events, or the
-- panic that it ends with.
use serdes_ai.Prelude.{
  ℕ, suc, String, Bool, true, false, ◌≡◌, ◌↔◌, Option, none, some, List, [], ◌∷◌, ◌++◌, length, set,
  nat_beq, Key, string_key, arith, if◌then◌else◌, ◌==◌,
}
use serdes_ai.Prelude.Int.{ℤ, pos, negsuc}
use serdes_ai.Prelude.Map
use serdes_ai.Prelude.Map.{Map}
use serdes_ai.Prelude.Result.{Result}
use serdes_ai.Streaming.Part.{Json, ManagedPart, ModelResponsePart, Event, to_response_part}
use serdes_ai.Streaming.Text.{Text, Panic}

pub data VendorId : Type 0 where
  string : String → VendorId
  int : ℤ → VendorId

same_int : ℤ → ℤ → Bool
same_int (pos m) (pos n) = nat_beq m n
same_int (negsuc m) (negsuc n) = nat_beq m n
same_int _ _ = false

unfoldable pub same_id : VendorId → VendorId → Bool
unfolding same_int
same_id (string s) (string t) = s == t
same_id (int m) (int n) = same_int m n
same_id _ _ = false

same_int_iff : (m n : ℤ) → (same_int m n ≡ true) ↔ (m ≡ n)
unfolding same_int
same_int_iff (pos m) (pos n) = ground arith
same_int_iff (negsuc m) (negsuc n) = ground arith
same_int_iff (pos m) (negsuc n) = ground arith
same_int_iff (negsuc m) (pos n) = ground arith

pub same_id_iff : (x y : VendorId) → (same_id x y ≡ true) ↔ (x ≡ y)
unfolding same_id
same_id_iff (string s) (string t) = ground (arith, string_key.same_iff s t)
same_id_iff (int m) (int n) = ground (arith, same_int_iff m n)
same_id_iff (string s) (int n) = ground arith
same_id_iff (int m) (string t) = ground arith

instance abbrev pub vendor_key : Key VendorId
vendor_key = record { same = same_id; same_iff = same_id_iff }

pub record Manager (j : Json) : Type 0 where
  pub parts : List (ManagedPart j)
  pub vendor_id_to_index : Map VendorId ℕ
  pub in_thinking : Bool
  pub partial_tag_buffer : Text

abbrev pub Step : Json → Type 0
Step j = Result (Manager j × List (Event j)) Panic

-- `Iterator::rposition`
unfoldable pub rposition {ℓ} : {A : Type ℓ} → (A → Bool) → List A → Option ℕ
rposition p [] = none
rposition p (x ∷ xs) = elim (rposition p xs) [
  | some i ↦ some (suc i)
  | none ↦ if p x then some 0 else none
]

abbrev pub register : Option VendorId → ℕ → Map VendorId ℕ → Map VendorId ℕ
register none idx index = index
register (some vid) idx index = Map.insert vid idx index

module _ {j : Json} where
  abbrev pub new : Manager j
  new = record { parts = []; vendor_id_to_index = []; in_thinking = false; partial_tag_buffer = [] }

  unfoldable pub clear : Manager j → Manager j
  clear m = record m {
    parts = [];
    vendor_id_to_index = [];
    in_thinking = false;
    partial_tag_buffer = [];
  }

  collect : List (ManagedPart j) → List (ModelResponsePart j)
  collect [] = []
  collect (p ∷ ps) = elim (to_response_part p) [ some q ↦ q ∷ collect ps | none ↦ collect ps ]

  unfoldable pub get_parts : Manager j → List (ModelResponsePart j)
  unfolding collect
  get_parts m = collect m.parts

  -- `self.parts[idx] = part`, at an index that was read before
  abbrev pub set_part : ℕ → ManagedPart j → Manager j → Manager j
  set_part idx part m = record m { parts = set m.parts idx part }

  -- `find_latest_part_index`, where no vendor ID is given
  unfoldable pub known_index : Option VendorId → (ManagedPart j → Bool) → Manager j → Option ℕ
  unfolding rposition
  known_index (some vid) predicate m = Map.get vid m.vendor_id_to_index
  known_index none predicate m = rposition predicate m.parts

  -- `self.parts.push(part)`, with its vendor ID
  unfoldable pub push_part : Option VendorId → ManagedPart j → Manager j → Manager j
  push_part vid part m = record m {
    parts = m.parts ++ part ∷ [];
    vendor_id_to_index = register vid (length m.parts) m.vendor_id_to_index;
  }

  unfoldable pub get_or_create_part_index :
      Option VendorId → (ManagedPart j → Bool) → ManagedPart j → Manager j → ℕ × Bool × Manager j
  unfolding known_index push_part
  get_or_create_part_index vid predicate part m = elim (known_index vid predicate m) [
    | some idx ↦ (idx, false, m)
    | none ↦ (length m.parts, true, push_part vid part m)
  ]
