-- ===== src/Envelope/Json.antt =====
-- `sortedKeys` of packages/sync-protocol/src/envelope/SyncEnvelopeBuilder.ts.
use tauri_boilerplate.Base.{Bool, true, false, ltb, ◌==◌, nat_eq, if◌then◌else◌, [], ◌∷◌}
use tauri_boilerplate.Clock.Format.{Text}

-- `unknown`: an array, an object by its own entries in the order in which they were defined, or any other
-- value. Keys are their code units.
module _ (Leaf : Type 0) where
  mutual
    pub data Value : Type 0 where
      leaf : Leaf → Value
      array : Items → Value
      object : Fields → Value

    pub data Items : Type 0 where
      end : Items
      item : Value → Items → Items

    pub data Fields : Type 0 where
      close : Fields
      field : Text → Value → Fields → Fields

-- The order of `sort()` on texts.
abbrev pub text_le : Text → Text → Bool
text_le [] u = true
text_le (c ∷ t) [] = false
text_le (c ∷ t) (d ∷ u) = if c == d then text_le t u else ltb c d

module _ {Leaf : Type 0} where
  -- An entry's place among sorted ones.
  abbrev pub insert : Text → Value Leaf → Fields Leaf → Fields Leaf
  insert k v close = field k v close
  insert k v (field j w f) =
      if text_le k j then field k v (field j w f) else field j w (insert k v f)

  -- sortedKeys
  unfoldable mutual
    pub sorted_keys : Value Leaf → Value Leaf
    sorted_keys (leaf v) = leaf v
    sorted_keys (array xs) = array (sorted_items xs)
    sorted_keys (object fs) = object (sorted_fields fs)

    pub sorted_items : Items Leaf → Items Leaf
    sorted_items end = end
    sorted_items (item x xs) = item (sorted_keys x) (sorted_items xs)

    pub sorted_fields : Fields Leaf → Fields Leaf
    sorted_fields close = close
    sorted_fields (field k v f) = insert k (sorted_keys v) (sorted_fields f)
