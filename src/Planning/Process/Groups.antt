-- ===== src/Planning/Process/Groups.antt =====
-- The groups of capabilities, against a grouping by filters.
use ap2030_uns.Prelude.{
  ◌≡◌, ◌∙◌, refl, sym, ap, Bool, true, false, Option, none, some, List, [], ◌∷◌, if◌then◌else◌,
  codes, codes_eq, codes_eq_iff,
}
use ap2030_uns.Planning.Text.{Text, is_empty}
use ap2030_uns.Planning.Matcher.{ResourceCapability, MatchingResult}
use ap2030_uns.Planning.Process.{
  TextDict, get, put, Group, set_resource, add_resource, add_matches, add_movers, planar_group,
  add_planar_table, generate_required_capabilities,
}
use ap2030_uns.Planning.Process.Needs.{
  get-put, Need, match_needs, mover_needs, needs_of, named, with_resource, group_for, extended,
  add_need, add_needs, add_needs-append, add_matches-needs, add_movers-needs,
}

same_get {ℓ} : {V : Type ℓ} (j k : Text) (d : TextDict V) → codes_eq j k ≡ true → get k d ≡ get j d
same_get j k d e = ap (λ z. get z d) (sym ((codes_eq_iff j k).0 e))

present {ℓ} :
    {V : Type ℓ} (j k : Text) (v : V) (d : TextDict V)
    → get j d ≡ some v
    → get k d ≡ (if codes_eq j k then some v else get k d)
present j k v d e = by_key (codes_eq j k) refl
  where
    by_key : (b : Bool) → codes_eq j k ≡ b → get k d ≡ (if b then some v else get k d)
    by_key true h = same_get j k d h ∙ e
    by_key false h = refl

get-set_resource :
    (j k : Text) (r : ResourceCapability) (g : Group) (d : TextDict Group)
    → get j d ≡ some g
    → get k (set_resource j r d) ≡ (
        if codes_eq j k
        then some (record g { resources = put r.resource_name r.aas_id g.resources })
        else get k d)
get-set_resource j k r g d e =
    ap
      (λ o. get k (elim o as (λ x. TextDict Group) [
        | none ↦ d
        | some g ↦ put j (record g { resources = put r.resource_name r.aas_id g.resources }) d
      ]))
      e
    ∙ get-put j k (record g { resources = put r.resource_name r.aas_id g.resources }) d

get-add_need :
    (n : Need) (d : TextDict Group) (k : Text)
    → get k (add_need n d)
      ≡ (if codes_eq n.name k then extended (get n.name d) (n ∷ []) else get k d)
get-add_need n d k = by_group (get n.name d) refl
  where
    new : Group
    new = record { semantic_id = n.semantic_id; description = n.description; resources = [] }

    ensured : Option Group → TextDict Group
    ensured o = elim o [ some g ↦ d | none ↦ put n.name new d ]

    collapse :
        (x y : Group) (o : Option Group) (b : Bool)
        → (if b then some y else if b then some x else o) ≡ (if b then some y else o)
    collapse x y o true = refl
    collapse x y o false = refl

    of_old :
        (g : Group)
        → get n.name d ≡ some g
        → (q : Option ResourceCapability)
        → get k (add_resource n.name q d) ≡ (
            if codes_eq n.name k
            then some (record g { resources = with_resource q g.resources })
            else get k d)
    of_old g e none = present n.name k g d e
    of_old g e (some r) = get-set_resource n.name k r g d e

    of_new :
        (q : Option ResourceCapability)
        → get k (add_resource n.name q (put n.name new d)) ≡ (
            if codes_eq n.name k
            then some (record new { resources = with_resource q [] })
            else get k d)
    of_new none = get-put n.name k new d
    of_new (some r) =
        get-set_resource n.name k r new (put n.name new d) (
          get-put n.name n.name new d
          ∙ ap (λ b. if b then some new else get n.name d) ((codes_eq_iff n.name n.name).1 refl))
        ∙ ap
            (λ o.
              if codes_eq n.name k
              then some (record new { resources = put r.resource_name r.aas_id [] })
              else o)
            (get-put n.name k new d)
        ∙ collapse new (record new { resources = put r.resource_name r.aas_id [] }) (get k d)
            (codes_eq n.name k)

    by_group :
        (o : Option Group)
        → get n.name d ≡ o
        → get k (add_resource n.name n.resource (ensured o))
          ≡ (if codes_eq n.name k then extended o (n ∷ []) else get k d)
    by_group (some g) e = of_old g e n.resource
    by_group none e = of_new n.resource

extended-nil : (o : Option Group) → o ≡ extended o []
extended-nil none = refl
extended-nil (some g) = refl

extended-cons :
    (o : Option Group) (n : Need) (ns : List Need)
    → extended (extended o (n ∷ [])) ns ≡ extended o (n ∷ ns)
extended-cons none n ns = refl
extended-cons (some g) n ns = refl

get-add_needs :
    (ns : List Need) (d : TextDict Group) (k : Text)
    → get k (add_needs ns d) ≡ extended (get k d) (named k ns)
get-add_needs [] d k = extended-nil (get k d)
get-add_needs (n ∷ ns) d k =
    get-add_needs ns (add_need n d) k
    ∙ ap (λ o. extended o (named k ns)) (get-add_need n d k)
    ∙ by_name (codes_eq n.name k) refl
  where
    by_name :
        (b : Bool)
        → codes_eq n.name k ≡ b
        → extended (if b then extended (get n.name d) (n ∷ []) else get k d) (named k ns)
          ≡ extended (get k d) (if b then n ∷ named k ns else named k ns)
    by_name true e =
        extended-cons (get n.name d) n (named k ns)
        ∙ ap (λ o. extended o (n ∷ named k ns)) (sym (same_get n.name k d e))
    by_name false e = refl

-- The planar table takes the place of any group of its name.
abbrev pub with_table : Option Text → Text → Option Group → Option Group
with_table none k g = g
with_table (some i) k g =
    if is_empty i then g else if codes_eq (codes "PlanarTable") k then some (planar_group i) else g

-- The required capabilities are grouped by name: under a name stand the semantic ID and the
-- description of its first use, by the process's steps in order and then by the movers'
-- capabilities, with the AAS ID of each resource that is assigned to a step of this name or has
-- it as a mover, in the order of their first use, and a later ID in place of an earlier one;
-- there is no group without a use, and only the planar table, where one is given, replaces a
-- group.
pub generate_required_capabilities_lem :
    (r : MatchingResult) (table : Option Text) (k : Text)
    → get k (generate_required_capabilities r table) ≡ with_table table k (group_for k r)
unfolding generate_required_capabilities
generate_required_capabilities_lem r table k =
    ap (λ d. get k (add_planar_table table d)) all ∙ by_table table
  where
    all :
        add_movers r.all_resources r.movers (add_matches r.process_matches [])
        ≡ add_needs (needs_of r) []
    all =
        ap (add_movers r.all_resources r.movers) (add_matches-needs r.process_matches [])
        ∙ add_movers-needs r.all_resources r.movers (add_needs (match_needs r.process_matches) [])
        ∙ sym (
            add_needs-append (match_needs r.process_matches) (mover_needs r.all_resources r.movers)
              [])

    grouped : get k (add_needs (needs_of r) []) ≡ group_for k r
    grouped = get-add_needs (needs_of r) [] k

    by_flag :
        (i : Text) (b : Bool)
        → get k (
            if b
            then add_needs (needs_of r) []
            else put (codes "PlanarTable") (planar_group i) (add_needs (needs_of r) []))
          ≡ (if b
              then group_for k r
              else if codes_eq (codes "PlanarTable") k
              then some (planar_group i)
              else group_for k r)
    by_flag i true = grouped
    by_flag i false =
        get-put (codes "PlanarTable") k (planar_group i) (add_needs (needs_of r) [])
        ∙ ap (λ o. if codes_eq (codes "PlanarTable") k then some (planar_group i) else o) grouped

    by_table :
        (o : Option Text)
        → get k (add_planar_table o (add_needs (needs_of r) [])) ≡ with_table o k (group_for k r)
    by_table none = grouped
    by_table (some i) = by_flag i (is_empty i)
