-- ===== src/Delegation/Packing.antt =====
-- The arrays of a command: how values are packed, and which arrays a schema gives.
use ap2030_uns.Prelude.{
  ℕ, suc, ◌≡◌, ◌<◌, ◌⊎◌, ◌∙◌, refl, sym, ap, String, Bool, true, false, ◌||◌, Option, none, some,
  List, [], ◌∷◌, All, if◌then◌else◌, leb, length, contains, str_eq, eq_iff, arith, Bool-cases, inl,
  inr,
}
use ap2030_uns.Prelude.Dict.{Dict, lookup}
use ap2030_uns.Delegation.Values.{Value}
use ap2030_uns.Delegation.Schema.{
  Structure, ArrayInfo, Item, ArrayMapping, find_field, nonempty, default_of, same_name, map_items,
  keep_mapped, map_arrays, determine_field_mappings,
}
use ap2030_uns.Delegation.Found.{found_items, length-map_items}
use ap2030_uns.Delegation.Command.{keys, insert_mapping, sort_mappings, put_value, pack_item, pack}

-- A value for each mapping's field.
abbrev pub AllPresent : Dict Value → List ArrayMapping → Type 0
AllPresent values = All (λ m. (v : Value) × (lookup m.aas_field values ≡ some v))

pub lookup-present {ℓ} :
    {V : Type ℓ} (k : String) (d : Dict V)
    → contains k (keys d) ≡ true
    → (v : V) × (lookup k d ≡ some v)
lookup-present k [] h = absurd cc
lookup-present k ((j, v) ∷ d) h = elim (Bool-cases (str_eq j k)) [
  | inl e ↦ (v, ap (λ c. if c then some v else lookup k d) e)
  | inr e ↦
      let (w, f) = lookup-present k d (ap (λ c. c || contains k (keys d)) (sym e) ∙ h) in
      (w, ap (λ c. if c then some v else lookup k d) e ∙ f)
]

AllPresent-insert_mapping :
    (values : Dict Value) (m : ArrayMapping) (ms : List ArrayMapping)
    → (v : Value) × (lookup m.aas_field values ≡ some v)
    → AllPresent values ms
    → AllPresent values (insert_mapping m ms)
AllPresent-insert_mapping values m [] h a = (h, tt)
AllPresent-insert_mapping values m (n ∷ ns) h a =
    by_order (leb m.index n.index) (AllPresent-insert_mapping values m ns h a.1)
  where
    by_order :
        (c : Bool)
        → AllPresent values (insert_mapping m ns)
        → AllPresent values (if c then m ∷ n ∷ ns else n ∷ insert_mapping m ns)
    by_order true r = (h, a)
    by_order false r = (a.0, r)

length-insert_mapping :
    (m : ArrayMapping) (ms : List ArrayMapping) → length (insert_mapping m ms) ≡ suc (length ms)
length-insert_mapping m [] = refl
length-insert_mapping m (n ∷ ns) = ground (arith, length-insert_mapping m ns)

AllPresent-sort_mappings :
    (values : Dict Value) (ms : List ArrayMapping)
    → AllPresent values ms
    → AllPresent values (sort_mappings ms)
unfolding sort_mappings
AllPresent-sort_mappings values [] a = tt
AllPresent-sort_mappings values (m ∷ ms) a =
    AllPresent-insert_mapping values m (sort_mappings ms) a.0
      (AllPresent-sort_mappings values ms a.1)

length-sort_mappings : (ms : List ArrayMapping) → length (sort_mappings ms) ≡ length ms
unfolding sort_mappings
length-sort_mappings [] = refl
length-sort_mappings (m ∷ ms) =
    length-insert_mapping m (sort_mappings ms) ∙ ap suc (length-sort_mappings ms)

pub pack-present :
    (values : Dict Value) (ms : List ArrayMapping)
    → AllPresent values ms
    → (vs : List Value) × (pack ms values ≡ some vs) × (length vs ≡ length ms)
unfolding pack
pack-present values [] a = ([], refl, refl)
pack-present values (m ∷ ms) a =
    let (v, e) = a.0 in
    let (vs, p, l) = pack-present values ms a.1 in
    (v ∷ vs, ap (λ o. pack_item m o (pack ms values)) e ∙ ap (put_value v) p, ap suc l)

find_field-contains :
    (name f : String) (fs : List String) → find_field name fs ≡ some f → contains f fs ≡ true
find_field-contains name f [] h = absurd cc
find_field-contains name f (g ∷ fs) h = elim (Bool-cases (same_name g name)) [
  | inl e ↦ ground (arith, h, e, eq_iff g f)
  | inr e ↦ ground (arith, h, e, find_field-contains name f fs)
]

nonempty-some : (o : Option String) (f : String) → nonempty o ≡ some f → o ≡ some f
nonempty-some none f h = absurd cc
nonempty-some (some g) f h = ground (arith, h)

map_items-AllPresent :
    (values : Dict Value) (n : ℕ) (items : List Item)
    → AllPresent values (map_items (keys values) n items)
unfolding map_items
map_items-AllPresent values n [] = tt
map_items-AllPresent values n (i ∷ items) =
    by_field (nonempty (find_field i.title (keys values))) refl
      (map_items-AllPresent values n items)
  where
    by_field :
        (o : Option String)
        → nonempty (find_field i.title (keys values)) ≡ o
        → AllPresent values (map_items (keys values) n items)
        → AllPresent values (elim o [
          | none ↦ map_items (keys values) n items
          | some f ↦
              record {
                aas_field = f;
                index = i.index;
                optional = leb n i.index;
                default = default_of i.json_type;
              }
              ∷ map_items (keys values) n items
        ])
    by_field none e r = r
    by_field (some f) e r = (
      lookup-present f values (
          find_field-contains i.title f (keys values)
            (nonempty-some (find_field i.title (keys values)) f e)),
      r,
    )

AllPresent-packed :
    (values : Dict Value) (ms : List ArrayMapping)
    → AllPresent values ms
    → (vs : List Value) × (pack (sort_mappings ms) values ≡ some vs) × (length vs ≡ length ms)
AllPresent-packed values ms a =
    let (vs, p, l) =
      pack-present values (sort_mappings ms) (AllPresent-sort_mappings values ms a) in
    (vs, p, l ∙ length-sort_mappings ms)

-- The mappings of a schema's arrays, in their order: an array without a found item has none, and
-- every other one has a mapping, which packs one value for each found item.
abbrev pub PackFound : Dict Value → Dict ArrayInfo → Dict (List ArrayMapping) → Type 0
PackFound values [] all = all ≡ []
PackFound values ((name, info) ∷ arrays) all =
    ((found_items (keys values) info.items ≡ 0) × PackFound values arrays all)
    ⊎ ((ms : List ArrayMapping) × (more : Dict (List ArrayMapping)) × (vs : List Value) × (all
          ≡ (name, ms) ∷ more)
        × (0 < found_items (keys values) info.items)
        × (pack (sort_mappings ms) values ≡ some vs)
        × (length vs ≡ found_items (keys values) info.items)
        × PackFound values arrays more)

map_arrays-PackFound :
    (values : Dict Value) (arrays : Dict ArrayInfo)
    → PackFound values arrays (map_arrays (keys values) arrays)
unfolding map_arrays
map_arrays-PackFound values [] = refl
map_arrays-PackFound values ((name, info) ∷ rest) =
    by_items (map_items (keys values) info.min_items info.items)
      (length-map_items (keys values) info.min_items info.items)
      (map_items-AllPresent values info.min_items info.items) (map_arrays-PackFound values rest)
  where
    by_items :
        (ms : List ArrayMapping)
        → length ms ≡ found_items (keys values) info.items
        → AllPresent values ms
        → PackFound values rest (map_arrays (keys values) rest)
        → PackFound values
            ((name, info) ∷ rest)
            (keep_mapped name ms (map_arrays (keys values) rest))
    by_items [] l a r = inl (sym l, r)
    by_items (m ∷ ms) l a r =
        let (vs, p, k) = AllPresent-packed values (m ∷ ms) a in
        inr (m ∷ ms, map_arrays (keys values) rest, vs, refl, omega (arith, l), p, k ∙ l, r)

-- Where the mappings come from a schema, an array is packed exactly if some item of it has a
-- field of its name among the operation's, up to letter case, and then with one value for each
-- such item: a required item without a field neither stops the packing nor leaves a place.
pub derived-pack :
    (values : Dict Value) (s : Structure)
    → PackFound values s.array_fields (determine_field_mappings (keys values) s).array_mappings
unfolding determine_field_mappings
derived-pack values s = map_arrays-PackFound values s.array_fields
