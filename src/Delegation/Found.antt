-- ===== src/Delegation/Found.antt =====
-- schema_parser.py: which items of a schema's arrays have a field among those of an operation.
use ap2030_uns.Prelude.{
  ℕ, suc, ◌≡◌, ◌∙◌, inl, inr, refl, sym, ap, String, Bool, true, false, not, ◌&&◌, ◌||◌, Option,
  none, some, List, [], ◌∷◌, if◌then◌else◌, ltb, leb, length, codes, lower, codes_eq, codes_eq_iff,
  str_eq, eq_iff, arith, Bool-cases,
}
use ap2030_uns.Prelude.Dict.{Dict}
use ap2030_uns.Delegation.Schema.{
  ArrayInfo, Item, ArrayMapping, find_field, nonempty, default_of, is_missing, same_name, map_items,
  keep_mapped, map_arrays,
}

-- Some field has the name of an item, up to letter case, and the name is not empty.
abbrev pub is_field : String → List String → Bool
is_field title [] = false
is_field title (f ∷ fs) = same_name f title || is_field title fs

abbrev pub is_found : List String → Item → Bool
is_found fields i = not (str_eq i.title "") && is_field i.title fields

abbrev pub found_items : List String → List Item → ℕ
found_items fields [] = 0
found_items fields (i ∷ items) =
    let rest = found_items fields items in if is_found fields i then suc rest else rest

empty_codes : (t : String) → codes_eq (lower (codes t)) [] ≡ str_eq t ""
empty_codes String.[] = refl
empty_codes (String.◌∷◌ c t) = elim (Bool-cases (str_eq (String.◌∷◌ c t) "")) [
  | inl e ↦ absurd (cons_filled ((eq_iff (String.◌∷◌ c t) "").0 e))
  | inr e ↦ sym e
]
  where
    cons_filled : Path String (String.◌∷◌ c t) "" → ⊥
    cons_filled e = cc

same_name-empty : (f t : String) → same_name f t ≡ true → str_eq f "" ≡ str_eq t ""
same_name-empty f t h = elim (Bool-cases (str_eq f t)) [
  | inl e ↦ ap (λ z. str_eq z "") ((eq_iff f t).0 e)
  | inr e ↦
      sym (empty_codes f)
      ∙ ap (λ z. codes_eq z [])
          ((codes_eq_iff (lower (codes f)) (lower (codes t))).0
            (second (str_eq f t) (codes_eq (lower (codes f)) (lower (codes t))) h e))
      ∙ empty_codes t
]
  where
    second : (a b : Bool) → (a || b) ≡ true → a ≡ false → b ≡ true
    second a b h e = ground (arith, h, e)

find_field-is_found :
    (fields : List String) (t : String)
    → is_missing (nonempty (find_field t fields)) ≡ not (not (str_eq t "") && is_field t fields)
find_field-is_found [] t = ground arith
find_field-is_found (f ∷ fields) t = by_name (same_name f t) refl (find_field-is_found fields t)
  where
    by_empty : (a b : Bool) → a ≡ b → is_missing (if a then none else some f) ≡ not (not b && true)
    by_empty a b e = ground (arith, e)

    by_name :
        (c : Bool)
        → same_name f t ≡ c
        → is_missing (nonempty (find_field t fields)) ≡ not (not (str_eq t "") && is_field t fields)
        → is_missing (nonempty (if c then some f else find_field t fields))
          ≡ not (not (str_eq t "") && (c || is_field t fields))
    by_name true e r = by_empty (str_eq f "") (str_eq t "") (same_name-empty f t e)
    by_name false e r = r

pub length-map_items :
    (fields : List String) (n : ℕ) (items : List Item)
    → length (map_items fields n items) ≡ found_items fields items
unfolding map_items
length-map_items fields n [] = refl
length-map_items fields n (i ∷ items) =
    by_field (nonempty (find_field i.title fields)) (is_found fields i)
      (find_field-is_found fields i.title) (length-map_items fields n items)
  where
    by_field :
        (o : Option String) (b : Bool)
        → is_missing o ≡ not b
        → length (map_items fields n items) ≡ found_items fields items
        → length (elim o as (λ x. List ArrayMapping) [
          | none ↦ map_items fields n items
          | some f ↦
              record {
                aas_field = f;
                index = i.index;
                optional = leb n i.index;
                default = default_of i.json_type;
              }
              ∷ map_items fields n items
        ])
          ≡ (if b then suc (found_items fields items) else found_items fields items)
    by_field none true e r = absurd cc
    by_field none false e r = r
    by_field (some f) true e r = ap suc r
    by_field (some f) false e r = absurd cc

-- Some array has a found item.
abbrev pub some_found : List String → Dict ArrayInfo → Bool
some_found fields [] = false
some_found fields ((name, info) ∷ rest) =
    ltb 0 (found_items fields info.items) || some_found fields rest

abbrev pub is_nil {ℓ} : {A : Type ℓ} → List A → Bool
is_nil [] = true
is_nil (x ∷ xs) = false

pub is_nil-map_arrays :
    (fields : List String) (arrays : Dict ArrayInfo)
    → is_nil (map_arrays fields arrays) ≡ not (some_found fields arrays)
unfolding map_arrays
is_nil-map_arrays fields [] = refl
is_nil-map_arrays fields ((name, info) ∷ rest) =
    by_items (map_items fields info.min_items info.items)
      (length-map_items fields info.min_items info.items) (is_nil-map_arrays fields rest)
  where
    by_items :
        (ms : List ArrayMapping)
        → length ms ≡ found_items fields info.items
        → is_nil (map_arrays fields rest) ≡ not (some_found fields rest)
        → is_nil (keep_mapped name ms (map_arrays fields rest))
          ≡ not (ltb 0 (found_items fields info.items) || some_found fields rest)
    by_items [] e r = ground (arith, e, r)
    by_items (m ∷ ms) e r = ground (arith, e, r)
