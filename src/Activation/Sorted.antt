-- ===== src/Activation/Sorted.antt =====
-- Objects with their keys in order, as `json.dumps(…, sort_keys=True)` leaves them.
use lexicon_mcp.Prelude.{
  String, true, List, [], ◌∷◌, ◌≡◌, refl, ap, ap₂, ◌∙◌, string_le, string_le_total, map, Dict,
  arith, Bool-cases, inl, inr,
}
use lexicon_mcp.Json.{
  Value, str, arr, obj, Fields, cons, field, items, object, insert_field, sort_keys,
  sort_keys_items, sort_keys_fields,
}
use lexicon_mcp.Activation.Build.{texts, text_object, insert_item, sorted_items}

-- Items in order stay as they are.
abbrev AreInOrder : {V : Type 0} → Dict V → Type 0
AreInOrder [] = Unit
AreInOrder ((k, v) ∷ []) = Unit
AreInOrder ((k, v) ∷ (j, w) ∷ d) = (string_le k j ≡ true) × AreInOrder ((j, w) ∷ d)

insert_item-AreInOrder :
    {V : Type 0} (k : String) (v : V) (d : Dict V) → AreInOrder d → AreInOrder (insert_item k v d)
insert_item-AreInOrder k v [] h = tt
insert_item-AreInOrder k v ((j, w) ∷ []) h = ground (arith, string_le_total k j)
insert_item-AreInOrder k v ((j, w) ∷ (i, u) ∷ d) h =
    ground (arith, string_le_total k j, insert_item-AreInOrder k v ((i, u) ∷ d) h.1)

pub sorted_items-AreInOrder : {V : Type 0} (d : Dict V) → AreInOrder (sorted_items d)
sorted_items-AreInOrder [] = tt
sorted_items-AreInOrder ((k, v) ∷ d) =
    insert_item-AreInOrder k v (sorted_items d) (sorted_items-AreInOrder d)

pub sorted_items_of_AreInOrder : {V : Type 0} (d : Dict V) → AreInOrder d → sorted_items d ≡ d
sorted_items_of_AreInOrder [] h = refl
sorted_items_of_AreInOrder ((k, v) ∷ []) h = refl
sorted_items_of_AreInOrder ((k, v) ∷ (j, w) ∷ d) h =
    rw (sorted_items_of_AreInOrder ((j, w) ∷ d) h.1, h.0)

pub sorted_items_idem : {V : Type 0} (d : Dict V) → sorted_items (sorted_items d) ≡ sorted_items d
sorted_items_idem d = sorted_items_of_AreInOrder (sorted_items d) (sorted_items-AreInOrder d)

pub sort_keys-map :
    {A : Type 0} (f : A → Value) (xs : List A)
    → sort_keys_items (items (map f xs)) ≡ items (map (λ x. sort_keys (f x)) xs)
unfolding sort_keys
sort_keys-map f [] = refl
sort_keys-map f (x ∷ xs) = ap (cons (sort_keys (f x))) (sort_keys-map f xs)

-- A dict of values, as JSON fields.
abbrev pub fields_of : {V : Type 0} → (V → Value) → Dict V → Fields
fields_of g d = object (map (λ (k, v). (k, g v)) d)

insert_field-fields_of :
    {V : Type 0} (g : V → Value) (k : String) (v : V) (d : Dict V)
    → insert_field k (g v) (fields_of g d) ≡ fields_of g (insert_item k v d)
insert_field-fields_of g k v [] = refl
insert_field-fields_of g k v ((j, w) ∷ d) = elim (Bool-cases (string_le k j)) [
  | inl before ↦ rw before
  | inr behind ↦ rw behind (ap (field j (g w)) (insert_field-fields_of g k v d))
]

pub sort_keys-fields_of :
    {V : Type 0} (g : V → Value) (d : Dict V)
    → ((v : V) → sort_keys (g v) ≡ g v)
    → sort_keys_fields (fields_of g d) ≡ fields_of g (sorted_items d)
unfolding sort_keys
sort_keys-fields_of g [] h = refl
sort_keys-fields_of g ((k, v) ∷ d) h =
    ap₂ (insert_field k) (h v) (sort_keys-fields_of g d h)
    ∙ insert_field-fields_of g k v (sorted_items d)

pub sort_keys_strs : (ss : List String) → sort_keys_items (items (map str ss)) ≡ items (map str ss)
unfolding sort_keys
sort_keys_strs [] = refl
sort_keys_strs (s ∷ ss) = ap (cons (str s)) (sort_keys_strs ss)

pub sort_keys-texts : (ss : List String) → sort_keys (texts ss) ≡ texts ss
unfolding sort_keys
sort_keys-texts ss = ap arr (sort_keys_strs ss)

pub sort_keys-text_object :
    (d : Dict String) → sort_keys (text_object d) ≡ text_object (sorted_items d)
unfolding sort_keys
sort_keys-text_object d = ap obj (sort_keys-fields_of str d (λ v. refl))
