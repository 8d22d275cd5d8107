-- ===== src/Registration/Replay.antt =====
-- The topics after any registrations and removals, described by each asset's latest one.
use ap2030_uns.Prelude.{
  ◌≡◌, ◌∙◌, refl, sym, ap, String, Bool, true, false, ◌&&◌, Option, none, some, List, [], ◌∷◌,
  if◌then◌else◌, str_eq, eq_iff,
}
use ap2030_uns.Prelude.Dict.{Dict, lookup, insert, erase, lookup-insert, lookup-erase}
use ap2030_uns.Registration.Config.{Entry, is_some}
use ap2030_uns.Registration.Topics.{
  entry_of, has_skills, add_entry, add_from_config_data, remove_asset, Operation, add, remove,
  perform, run,
}

abbrev pub Registry : Type 0
Registry = String → Option Entry

abbrev pub registered : Option (String × Entry) → Registry → Registry
registered none r = r
registered (some (asset_id, e)) r = λ k. if has_skills e && str_eq asset_id k then some e else r k

abbrev pub apply : Operation → Registry → Registry
apply (add config_data) r = registered (entry_of config_data) r
apply (remove asset_id) r = λ k. if str_eq asset_id k then none else r k

abbrev pub replay : List Operation → Registry → Registry
replay [] r = r
replay (o ∷ os) r = replay os (apply o r)

abbrev pub registry_of : Dict Entry → Registry
registry_of topics = λ k. lookup k topics

add_entry_lem :
    (o : Option (String × Entry)) (topics : Dict Entry) (k : String)
    → lookup k (add_entry o topics).1 ≡ registered o (registry_of topics) k
add_entry_lem none topics k = refl
add_entry_lem (some (asset_id, e)) topics k = by_skills (has_skills e)
  where
    by_skills :
        (b : Bool)
        → lookup k (if b then insert asset_id e topics else topics)
          ≡ (if b && str_eq asset_id k then some e else lookup k topics)
    by_skills true = lookup-insert asset_id k e topics
    by_skills false = refl

remove_asset_lem :
    (asset_id : String) (topics : Dict Entry) (k : String)
    → lookup k (remove_asset asset_id topics).1
      ≡ (if str_eq asset_id k then none else lookup k topics)
unfolding remove_asset
remove_asset_lem asset_id topics k = by_entry (lookup asset_id topics) refl
  where
    absent :
        lookup asset_id topics ≡ none
        → (b : Bool) → str_eq asset_id k ≡ b
        → lookup k topics ≡ (if b then none else lookup k topics)
    absent e true h = ap (λ z. lookup z topics) (sym ((eq_iff asset_id k).0 h)) ∙ e
    absent e false h = refl

    outcome : Option Entry → Bool × Dict Entry
    outcome o = if is_some o then (true, erase asset_id topics) else (false, topics)

    by_entry :
        (o : Option Entry)
        → lookup asset_id topics ≡ o
        → lookup k (outcome o).1 ≡ (if str_eq asset_id k then none else lookup k topics)
    by_entry (some e) h = lookup-erase asset_id k topics
    by_entry none h = absent h (str_eq asset_id k) refl

perform-apply :
    (o : Operation) (topics : Dict Entry) (k : String)
    → lookup k (perform o topics) ≡ apply o (registry_of topics) k
unfolding add_from_config_data
perform-apply (add config_data) topics k = add_entry_lem (entry_of config_data) topics k
perform-apply (remove asset_id) topics k = remove_asset_lem asset_id topics k

-- The topics implement a function from assets to their entries: after any sequence of
-- registrations and removals what is looked up is what the same sequence gives on functions,
-- where a registration that fails or has no skills changes nothing, another one replaces the
-- asset's entry, and a removal takes it away.
pub run-replay :
    (os : List Operation) (topics : Dict Entry) (k : String)
    → lookup k (run os topics) ≡ replay os (registry_of topics) k
run-replay [] topics k = refl
run-replay (o ∷ os) topics k =
    run-replay os (perform o topics) k ∙ ap (λ r. replay os r k) (λ i j. perform-apply o topics j i)
