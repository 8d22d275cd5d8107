-- ===== src/Registration/Lookup.antt =====
-- Registration_Service/src: what is looked up in the topics after registrations.
use ap2030_uns.Prelude.{
  ◌≡◌, ◌∙◌, refl, ap, String, Bool, true, false, ◌&&◌, Option, none, some, List, [], ◌∷◌, ◌++◌,
  if◌then◌else◌, str_eq,
}
use ap2030_uns.Prelude.Dict.{Dict, lookup, insert, lookup-insert}
use ap2030_uns.Delegation.Service.{SkillConfig, AssetConfig}
use ap2030_uns.Registration.Endpoint.{Action}
use ap2030_uns.Registration.Config.{Entry, skill_entry, skills_from}
use ap2030_uns.Registration.Topics.{
  entry_of, has_skills, read_entry, load_topic_config, Operation, add, remove,
}
use ap2030_uns.Registration.Replay.{Registry, registered, apply, replay}

-- The last action of a name.
abbrev pub last_action : String → List Action → Option Action
last_action k [] = none
last_action k (a ∷ rest) = elim (last_action k rest) [
  | some b ↦ some b
  | none ↦ if str_eq a.name k then some a else none
]

pub lookup-skills_from :
    (k : String) (rest : List Action) (d : Dict SkillConfig)
    → lookup k (skills_from rest d)
      ≡ (elim (last_action k rest) [ none ↦ lookup k d | some a ↦ some (skill_entry a) ])
lookup-skills_from k [] d = refl
lookup-skills_from k (a ∷ rest) d =
    lookup-skills_from k rest (insert a.name (skill_entry a) d) ∙ by_last (last_action k rest)
  where
    by_name :
        (b : Bool)
        → (if b then some (skill_entry a) else lookup k d)
          ≡ (elim (if b then some a else none) as (λ x. Option SkillConfig) [
            | none ↦ lookup k d
            | some x ↦ some (skill_entry x)
          ])
    by_name true = refl
    by_name false = refl

    by_last :
        (o : Option Action)
        → (elim o as (λ x. Option SkillConfig) [
          | none ↦ lookup k (insert a.name (skill_entry a) d)
          | some x ↦ some (skill_entry x)
        ])
          ≡ (elim (elim o as (λ x. Option Action) [
            | some b ↦ some b
            | none ↦ if str_eq a.name k then some a else none
          ])
              as (λ x. Option SkillConfig) [ none ↦ lookup k d | some x ↦ some (skill_entry x) ])
    by_last (some b) = refl
    by_last none = lookup-insert a.name k (skill_entry a) d ∙ by_name (str_eq a.name k)

pub lookup-load_topic_config :
    (k : String) (topics : Dict Entry)
    → lookup k (load_topic_config topics)
      ≡ (elim (lookup k topics) [ none ↦ none | some e ↦ some (read_entry e) ])
lookup-load_topic_config k [] = refl
lookup-load_topic_config k ((j, e) ∷ topics) =
    by_key (str_eq j k) (lookup-load_topic_config k topics)
  where
    by_key :
        (b : Bool)
        → lookup k (load_topic_config topics)
          ≡ (elim (lookup k topics) as (λ x. Option AssetConfig) [
            | none ↦ none
            | some x ↦ some (read_entry x)
          ])
        → (if b then some (read_entry e) else lookup k (load_topic_config topics))
          ≡ (elim (if b then some e else lookup k topics) as (λ x. Option AssetConfig) [
            | none ↦ none
            | some x ↦ some (read_entry x)
          ])
    by_key true h = refl
    by_key false h = h

-- An operation that leaves an asset as it is.
abbrev pub Leaves : String → Operation → Type 0
Leaves k (add config_data) = elim (entry_of config_data) [
  | none ↦ Unit
  | some x ↦ (has_skills x.1 && str_eq x.0 k) ≡ false
]
Leaves k (remove asset_id) = str_eq asset_id k ≡ false

abbrev pub AllLeave : String → List Operation → Type 0
AllLeave k [] = Unit
AllLeave k (o ∷ os) = Leaves k o × AllLeave k os

pub apply-Leaves : (k : String) (o : Operation) (r : Registry) → Leaves k o → apply o r k ≡ r k
apply-Leaves k (remove asset_id) r h = ap (λ b. if b then none else r k) h
apply-Leaves k (add config_data) r h = by_entry (entry_of config_data) h
  where
    by_entry :
        (o : Option (String × Entry))
        → (elim o as (λ x. Type 0) [
          | none ↦ Unit
          | some x ↦ (has_skills x.1 && str_eq x.0 k) ≡ false
        ])
        → registered o r k ≡ r k
    by_entry none e = refl
    by_entry (some (j, x)) e = ap (λ b. if b then some x else r k) e

pub replay-AllLeave :
    (k : String) (os : List Operation) (r : Registry) → AllLeave k os → replay os r k ≡ r k
replay-AllLeave k [] r h = refl
replay-AllLeave k (o ∷ os) r h = replay-AllLeave k os (apply o r) h.1 ∙ apply-Leaves k o r h.0

pub replay-append :
    (xs ys : List Operation) (r : Registry) → replay (xs ++ ys) r ≡ replay ys (replay xs r)
replay-append [] ys r = refl
replay-append (x ∷ xs) ys r = replay-append xs ys (apply x r)
