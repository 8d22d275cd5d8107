-- ===== src/Delegation/Items.antt =====
-- The items of the arrays in a command: each field's value at the index of the field.
use ap2030_uns.Prelude.{
  ℕ, suc, ◌≡◌, ◌≢◌, ◌∙◌, refl, sym, ap, subst, String, false, Option, none, some, List, [], ◌∷◌,
  ◌++◌, append_assoc, All, if◌then◌else◌, leb, length, length-append, contains, eq_iff, arith,
}
use ap2030_uns.Prelude.Dict.{Dict, lookup, lookup-insert}
use ap2030_uns.Delegation.Values.{Value, Field, single, array, Message}
use ap2030_uns.Delegation.Schema.{ArrayMapping}
use ap2030_uns.Delegation.Command.{
  keys, insert_mapping, sort_mappings, put_value, pack_item, pack, add_array, pack_arrays,
}
use ap2030_uns.Delegation.Response.{nth, items_of}
use ap2030_uns.Delegation.Packing.{AllPresent}

-- The indexes count on from a number.
abbrev pub IsIndexed : ℕ → List ArrayMapping → Type 0
IsIndexed k [] = Unit
IsIndexed k (m ∷ ms) = (m.index ≡ k) × IsIndexed (suc k) ms

-- Arrays with names of their own, each with mappings in order, for fields that have values.
abbrev pub AreArrays : Dict Value → Dict (List ArrayMapping) → Type 0
AreArrays values [] = Unit
AreArrays values ((parent, ms) ∷ rest) =
    ((length ms ≢ 0)
      × (contains parent (keys rest) ≡ false)
      × IsIndexed 0 ms
      × AllPresent values ms)
    × AreArrays values rest

-- An array has each field's value at the field's index.
abbrev pub HasItems : Dict Value → List Value → List ArrayMapping → Type 0
HasItems values vs = All (λ m. nth m.index vs ≡ lookup m.aas_field values)

abbrev pub single_of : Option Value → Option Field
single_of none = none
single_of (some v) = some (single v)

pub sort_mappings-indexed :
    (k : ℕ) (ms : List ArrayMapping) → IsIndexed k ms → sort_mappings ms ≡ ms
unfolding sort_mappings
sort_mappings-indexed k [] h = refl
sort_mappings-indexed k (m ∷ []) h = refl
sort_mappings-indexed k (m ∷ n ∷ ns) h =
    ap (insert_mapping m) (sort_mappings-indexed (suc k) (n ∷ ns) h.1)
    ∙ in_order (m.index) (n.index) h.0 h.1.0
  where
    in_order :
        (i j : ℕ)
        → i ≡ k
        → j ≡ suc k
        → (if leb i j then m ∷ n ∷ ns else n ∷ insert_mapping m ns) ≡ m ∷ n ∷ ns
    in_order i j p q = ground (arith, p, q)

pub nth-length :
    (pre : List Value) (v : Value) (vs : List Value) → nth (length pre) (pre ++ v ∷ vs) ≡ some v
nth-length [] v vs = refl
nth-length (p ∷ pre) v vs = nth-length pre v vs

pub packs :
    (values : Dict Value) (pre : List Value) (ms : List ArrayMapping)
    → IsIndexed (length pre) ms
    → AllPresent values ms
    → (vs : List Value) × (pack ms values ≡ some vs)
      × (length vs ≡ length ms)
      × HasItems values (pre ++ vs) ms
unfolding pack
packs values pre [] i a = ([], refl, refl, tt)
packs values pre (m ∷ ms) i a =
    let (v, e) = a.0 in
    let longer : suc (length pre) ≡ length (pre ++ v ∷ []) =
      omega (arith, length-append pre (v ∷ [])) in
    let (vs, p, l, h) =
      packs values (pre ++ v ∷ []) ms (subst (λ k. IsIndexed k ms) longer i.1) a.1 in
    (
      v ∷ vs,
      ap (λ o. pack_item m o (pack ms values)) e ∙ ap (put_value v) p,
      ap suc l,
      (
        ap (λ k. nth k (pre ++ v ∷ vs)) i.0 ∙ nth-length pre v vs ∙ sym e,
        subst (λ z. HasItems values z ms) (append_assoc pre (v ∷ []) vs) h,
      ),
    )

pub lookup-pack_arrays :
    (k : String) (arrays : Dict (List ArrayMapping)) (values : Dict Value) (c : Message)
    → contains k (keys arrays) ≡ false
    → lookup k (pack_arrays arrays values c) ≡ lookup k c
unfolding pack_arrays
lookup-pack_arrays k [] values c h = refl
lookup-pack_arrays k ((parent, ms) ∷ rest) values c h =
    lookup-pack_arrays k rest values (add_array parent (pack (sort_mappings ms) values) c)
      (ground (arith, h))
    ∙ by_result (pack (sort_mappings ms) values)
  where
    by_result : (o : Option (List Value)) → lookup k (add_array parent o c) ≡ lookup k c
    by_result none = refl
    by_result (some []) = refl
    by_result (some (v ∷ vs)) = ground (arith, h, lookup-insert parent k (array (v ∷ vs)) c)

-- A message that has the array of one mapping.
abbrev pub IsCarried : Dict Value → Message → String × List ArrayMapping → Type 0
IsCarried values c (parent, ms) =
    (vs : List Value) × (items_of (lookup parent c) ≡ vs)
    × (length vs ≢ 0)
    × HasItems values vs ms
    × AllPresent values ms

pub pack_arrays-IsCarried :
    (values : Dict Value) (arrays : Dict (List ArrayMapping)) (c : Message)
    → AreArrays values arrays
    → All (IsCarried values (pack_arrays arrays values c)) arrays
unfolding pack_arrays
pack_arrays-IsCarried values [] c h = tt
pack_arrays-IsCarried values ((parent, ms) ∷ rest) c ((n, apart, i, a), h) =
    let (vs, p, l, items) = packs values [] ms i a in
    let packed : pack (sort_mappings ms) values ≡ some vs =
      ap (λ z. pack z values) (sort_mappings-indexed 0 ms i) ∙ p in
    (
      (
        vs,
        ap items_of (
              lookup-pack_arrays parent rest values
                (add_array parent (pack (sort_mappings ms) values) c) apart
              ∙ ap (λ o. lookup parent (add_array parent o c)) packed)
            ∙ added vs (λ z. n (sym l ∙ z)),
        (λ z. n (sym l ∙ z)),
        items,
        a,
      ),
      pack_arrays-IsCarried values rest (add_array parent (pack (sort_mappings ms) values) c) h,
    )
  where
    added :
        (vs : List Value)
        → length vs ≢ 0
        → items_of (lookup parent (add_array parent (some vs) c)) ≡ vs
    added [] k = absurd (k refl)
    added (v ∷ vs) k = ap items_of (
        lookup-insert parent parent (array (v ∷ vs)) c
        ∙ ap (λ b. if b then some (array (v ∷ vs)) else lookup parent c)
            ((eq_iff parent parent).1 refl))
