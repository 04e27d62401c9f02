-- ===== src/Envelope/Canonical.antt =====
-- The canonical form of SyncEnvelopeBuilder does not depend on the order of keys.
use tauri_boilerplate.Base.{
  ◌≡◌, ◌≢◌, ◌↔◌, refl, sym, ◌∙◌, ap, subst, if_ind, true, false, nat_eq, [], ◌∷◌, arith,
}
use tauri_boilerplate.Clock.Format.{Text}
use tauri_boilerplate.Envelope.Json.{
  Value, leaf, array, object, Items, end, item, Fields, close, field, text_le, insert, sorted_keys,
  sorted_items, sorted_fields,
}

text_le_refl : (t : Text) → text_le t t ≡ true
text_le_refl [] = refl
text_le_refl (c ∷ t) = ground (arith, text_le_refl t)

text_le-total : (t u : Text) → text_le t u ≡ false → text_le u t ≡ true
text_le-total [] u h = cc
text_le-total (c ∷ t) [] h = refl
text_le-total (c ∷ t) (d ∷ u) h = ground (arith, text_le-total t u)

text_le_antisym : (t u : Text) → text_le t u ≡ true → text_le u t ≡ true → t ≡ u
text_le_antisym [] [] h k = refl
text_le_antisym [] (d ∷ u) h k = cc
text_le_antisym (c ∷ t) [] h k = cc
text_le_antisym (c ∷ t) (d ∷ u) h k = ground (arith, text_le_antisym t u)

text_le_trans : (t u v : Text) → text_le t u ≡ true → text_le u v ≡ true → text_le t v ≡ true
text_le_trans [] u v h k = refl
text_le_trans (c ∷ t) [] v h k = cc
text_le_trans (c ∷ t) (d ∷ u) [] h k = cc
text_le_trans (c ∷ t) (d ∷ u) (e ∷ v) h k = ground (arith, text_le_trans t u v)

module _ {Leaf : Type 0} where
  insert_comm :
      (k j : Text) (v w : Value Leaf) (f : Fields Leaf)
      → k ≢ j
      → insert k v (insert j w f) ≡ insert j w (insert k v f)
  insert_comm k j v w close apart =
      ground (arith, text_le-total k j, text_le_antisym k j, text_le-total j k)
  insert_comm k j v w (field i x f) apart = ground (
    arith,
    text_le-total k j,
    text_le_antisym k j,
    text_le-total j k,
    text_le_trans k i j,
    text_le_trans j i k,
    text_le_trans j k i,
    text_le_trans k j i,
    text_le-total k i,
    text_le-total j i,
    insert_comm k j v w f,
  )

-- The same value but for the order of the entries of objects, at any depth.
module _ {Leaf : Type 0} where
  mutual
    pub data Same : Value Leaf → Value Leaf → Type 0 where
      same_leaf : {x : Leaf} → Same (leaf x) (leaf x)
      same_array : {xs ys : Items Leaf} → SameItems xs ys → Same (array xs) (array ys)
      same_object : {f g : Fields Leaf} → SameFields f g → Same (object f) (object g)

    pub data SameItems : Items Leaf → Items Leaf → Type 0 where
      no_items : SameItems end end
      next_item :
          {x y : Value Leaf} {xs ys : Items Leaf}
          → Same x y
          → SameItems xs ys
          → SameItems (item x xs) (item y ys)

    pub data SameFields : Fields Leaf → Fields Leaf → Type 0 where
      no_fields : SameFields close close
      next_field :
          {k : Text} {v w : Value Leaf} {f g : Fields Leaf}
          → Same v w
          → SameFields f g
          → SameFields (field k v f) (field k w g)
      swapped :
          {k j : Text} {v w : Value Leaf} {f : Fields Leaf}
          → k ≢ j
          → SameFields (field k v (field j w f)) (field j w (field k v f))
      in_steps : {f g h : Fields Leaf} → SameFields f g → SameFields g h → SameFields f h

  mutual
    unfolding sorted_keys sorted_items sorted_fields

    Same-keys : {a b : Value Leaf} → Same a b → sorted_keys a ≡ sorted_keys b
    Same-keys same_leaf = refl
    Same-keys (same_array s) = ap array (same_items s)
    Same-keys (same_object s) = ap object (same_fields s)

    same_items : {xs ys : Items Leaf} → SameItems xs ys → sorted_items xs ≡ sorted_items ys
    same_items no_items = refl
    same_items (next_item s t) = rw (Same-keys s, same_items t) refl

    same_fields : {f g : Fields Leaf} → SameFields f g → sorted_fields f ≡ sorted_fields g
    same_fields no_fields = refl
    same_fields (next_field s t) = rw (Same-keys s, same_fields t) refl
    same_fields (swapped {k} {j} {v} {w} {f} apart) =
        insert_comm k j (sorted_keys v) (sorted_keys w) (sorted_fields f) apart
    same_fields (in_steps s t) = same_fields s ∙ same_fields t

  mutual
    Same-sym : {a b : Value Leaf} → Same a b → Same b a
    Same-sym same_leaf = same_leaf
    Same-sym (same_array s) = same_array (SameItems-sym s)
    Same-sym (same_object s) = same_object (SameFields-sym s)

    SameItems-sym : {xs ys : Items Leaf} → SameItems xs ys → SameItems ys xs
    SameItems-sym no_items = no_items
    SameItems-sym (next_item s t) = next_item (Same-sym s) (SameItems-sym t)

    SameFields-sym : {f g : Fields Leaf} → SameFields f g → SameFields g f
    SameFields-sym no_fields = no_fields
    SameFields-sym (next_field s t) = next_field (Same-sym s) (SameFields-sym t)
    SameFields-sym (swapped apart) = swapped (λ e. apart (sym e))
    SameFields-sym (in_steps s t) = in_steps (SameFields-sym t) (SameFields-sym s)

  mutual
    Same-refl : (a : Value Leaf) → Same a a
    Same-refl (leaf x) = same_leaf
    Same-refl (array xs) = same_array (SameItems-refl xs)
    Same-refl (object f) = same_object (SameFields-refl f)

    SameItems-refl : (xs : Items Leaf) → SameItems xs xs
    SameItems-refl end = no_items
    SameItems-refl (item x xs) = next_item (Same-refl x) (SameItems-refl xs)

    SameFields-refl : (f : Fields Leaf) → SameFields f f
    SameFields-refl close = no_fields
    SameFields-refl (field k v f) = next_field (Same-refl v) (SameFields-refl f)

  insert-Same :
      (k : Text) (v : Value Leaf) (f : Fields Leaf) → SameFields (field k v f) (insert k v f)
  insert-Same k v close = SameFields-refl (field k v close)
  insert-Same k v (field j w f) =
      if_ind (SameFields (field k v (field j w f))) (text_le k j)
        (λ _. SameFields-refl (field k v (field j w f)))
        λ after.
          in_steps (swapped (λ e. ground (arith, text_le_refl k)))
            (next_field (Same-refl w) (insert-Same k v f))

  mutual
    unfolding sorted_keys sorted_items sorted_fields

    sorted-Same : (a : Value Leaf) → Same a (sorted_keys a)
    sorted-Same (leaf x) = same_leaf
    sorted-Same (array xs) = same_array (sorted-SameItems xs)
    sorted-Same (object f) = same_object (sorted-SameFields f)

    sorted-SameItems : (xs : Items Leaf) → SameItems xs (sorted_items xs)
    sorted-SameItems end = no_items
    sorted-SameItems (item x xs) = next_item (sorted-Same x) (sorted-SameItems xs)

    sorted-SameFields : (f : Fields Leaf) → SameFields f (sorted_fields f)
    sorted-SameFields close = no_fields
    sorted-SameFields (field k v f) =
        in_steps (next_field (sorted-Same v) (sorted-SameFields f))
          (insert-Same k (sorted_keys v) (sorted_fields f))

  mutual
    Same-trans : {a b c : Value Leaf} → Same a b → Same b c → Same a c
    Same-trans same_leaf t = t
    Same-trans (same_array s) (same_array t) = same_array (SameItems-trans s t)
    Same-trans (same_object s) (same_object t) = same_object (in_steps s t)

    SameItems-trans : {xs ys zs : Items Leaf} → SameItems xs ys → SameItems ys zs → SameItems xs zs
    SameItems-trans no_items t = t
    SameItems-trans (next_item s t) (next_item u w) =
        next_item (Same-trans s u) (SameItems-trans t w)

  -- The sorted form forgets the order of object entries, at any depth, and nothing else: two values have
  -- the same sorted form exactly where swaps of entries with different keys turn one into the other.
  pub sorted_keys-eq_iff : (a b : Value Leaf) → (sorted_keys a ≡ sorted_keys b) ↔ Same a b
  sorted_keys-eq_iff a b = (
    λ e. Same-trans (subst (Same a) e (sorted-Same a)) (Same-sym (sorted-Same b)),
    λ s. Same-keys s,
  )
