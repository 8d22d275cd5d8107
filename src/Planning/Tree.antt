-- ===== src/Planning/Tree.antt =====
-- The XML elements that the planner builds (`xml.etree.ElementTree`), dictionaries with texts for
-- keys, and decimal numbers.
use ap2030_uns.Prelude.{
  ℕ, zero, suc, ◌+◌, ◌/◌, ◌%◌, String, Option, none, some, List, [], ◌∷◌, ◌++◌,
}
use ap2030_uns.Prelude.{if◌then◌else◌, ltb, codes_eq, str_eq}
use ap2030_uns.Prelude.Dict.{Dict}
use ap2030_uns.Planning.Text.{Text}

-- A tag, the attributes and the children.
mutual
  pub data Element : Type 0 where
    element : String → Dict Text → Elements → Element

  pub data Elements : Type 0 where
    end : Elements
    child : Element → Elements → Elements

abbrev pub leaf : String → Dict Text → Element
leaf tag attributes = element tag attributes end

abbrev pub only : Element → Elements
only e = child e end

abbrev pub add_children : Elements → Elements → Elements
add_children end es = es
add_children (child e rest) es = child e (add_children rest es)

abbrev pub of_list : List Element → Elements
of_list [] = end
of_list (e ∷ es) = child e (of_list es)

-- `[e for e in es if e.tag == tag]`
abbrev pub tagged : String → Elements → List Element
tagged tag end = []
tagged tag (child (element t a c) es) =
    let rest = tagged tag es in if str_eq t tag then element t a c ∷ rest else rest

-- The attributes of every element of a tag, in the order of the document.
unfoldable mutual
  pub iter : String → Element → List (Dict Text)
  iter tag (element t a es) = let rest = iter_each tag es in if str_eq t tag then a ∷ rest else rest

  pub iter_each : String → Elements → List (Dict Text)
  iter_each tag end = []
  iter_each tag (child e es) = iter tag e ++ iter_each tag es

module _ {ℓ} {V : Type ℓ} where
  -- `d.get(k)`
  abbrev pub find : Text → List (Text × V) → Option V
  find k [] = none
  find k ((j, v) ∷ d) = if codes_eq j k then some v else find k d

  -- `d[k] = v`
  abbrev pub set : Text → V → List (Text × V) → List (Text × V)
  set k v [] = (k, v) ∷ []
  set k v ((j, w) ∷ d) = if codes_eq j k then (j, v) ∷ d else (j, w) ∷ set k v d

-- `str(n)`, with fuel for the digits; `n + 1` is enough.
unfoldable pub digits : ℕ → ℕ → Text
digits zero n = []
digits (suc fuel) n =
    let rest = digits fuel (n / 10) in
    if ltb n 10 then (b'0' + n) ∷ [] else rest ++ (b'0' + n % 10) ∷ []

unfoldable pub decimal : ℕ → Text
unfolding digits
decimal n = digits (suc n) n

-- `sep.join(texts)`
abbrev pub join : Text → List Text → Text
join sep [] = []
join sep (t ∷ ts) = elim ts [ [] ↦ t | _ ∷ _ ↦ t ++ sep ++ join sep ts ]
