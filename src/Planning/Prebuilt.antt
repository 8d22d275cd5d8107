-- ===== src/Planning/Prebuilt.antt =====
-- The prebuilt subtrees: each file is loaded once, and each needed subtree with a file is there.
pub mod Loading
use ap2030_uns.Prelude.{
  ◌≡◌, ◌⊎◌, inl, inr, refl, sym, ap, ◌∙◌, subst, true, false, ◌||◌, Option, none, some, List, [],
  ◌∷◌, ◌++◌,
}
use ap2030_uns.Prelude.{arith, if◌then◌else◌, codes_eq, codes_eq_iff, Bool-cases}
use ap2030_uns.Planning.Text.{Text, is_empty, is_in}
use ap2030_uns.Planning.Tree.{Element, Elements}
use ap2030_uns.Planning.Matcher.{is_nil}
use ap2030_uns.Planning.Generator.{BtGeneratorConfig}
use ap2030_uns.Planning.Subtrees.{
  Loaded, tree_id, ids_of, file_of, load_subtree_from_file, load_file, load_needed,
}
use ap2030_uns.Planning.Prebuilt.Loading.{
  DistinctFiles, trees_of, Provided, Inv, Step, load_file-Step,
}

module _ (parse : Text → Option Elements) (cfg : BtGeneratorConfig) where
  one-Step :
      (id : Text) (l : Loaded)
      → Inv parse cfg l
      → Step parse cfg id l (
          if is_in id l.subtrees
          then l
          else elim (file_of cfg id) [ none ↦ l | some f ↦ load_file parse id f l ])
  one-Step id l v = elim (Bool-cases (is_in id l.subtrees)) [
    | inl h ↦ rw h (record { inv = v; keeps = λ j p. p; gives = λ f e n. v.sound id h })
    | inr h ↦ rw h (by_file (file_of cfg id) refl)
  ]
    where
      by_file :
          (o : Option Text)
          → file_of cfg id ≡ o
          → Step parse cfg id l (elim o [ none ↦ l | some f ↦ load_file parse id f l ])
      by_file none e = record { inv = v; keeps = λ j p. p; gives = λ f q n. absurd (unfiled f e q) }
        where
          unfiled : (f : Text) → file_of cfg id ≡ none → file_of cfg id ≡ some f → ⊥
          unfiled f e q = cc
      by_file (some f) e = load_file-Step parse cfg id f l e v

  record AllGiven (ids : List Text) (l n : Loaded) : Type 0 where
    inv : Inv parse cfg n
    keeps : (j : Text) → Provided parse cfg j l → Provided parse cfg j n
    gives :
        (id f : Text)
        → is_in id ids ≡ true
        → file_of cfg id ≡ some f
        → is_nil (load_subtree_from_file parse f) ≡ false
        → Provided parse cfg id n

  load_needed-AllGiven :
      (ids : List Text) (l : Loaded)
      → Inv parse cfg l
      → AllGiven ids l (load_needed parse cfg ids l)
  unfolding load_needed
  load_needed-AllGiven [] l v = record {
    inv = v;
    keeps = λ j p. p;
    gives = λ id f h e n. absurd cc;
  }
  load_needed-AllGiven (i ∷ ids) l v =
      let first = one-Step i l v in
      let rest =
        load_needed-AllGiven ids
          (if is_in i l.subtrees
            then l
            else elim (file_of cfg i) [ none ↦ l | some f ↦ load_file parse i f l ])
          first.inv in
      record {
        inv = rest.inv;
        keeps = λ j p. rest.keeps j (first.keeps j p);
        gives = λ id f h e n. elim (Bool-cases (codes_eq i id)) [
          | inl q ↦
              let eq : i ≡ id = (codes_eq_iff i id).0 q in
              subst (λ x. Provided parse cfg x (load_needed parse cfg (i ∷ ids) l)) eq
                (rest.keeps i (first.gives f (ap (file_of cfg) eq ∙ e) n))
          | inr q ↦ rest.gives id f (ground arith) e n
        ];
      }

-- The loop over the needed subtrees, in any order, adds the trees of the files that it loaded and
-- no others, loads no file twice, and for every needed subtree whose file has trees it has added
-- a tree of that ID or loaded the file.
pub load_needed-Provided :
    (parse : Text → Option Elements) (cfg : BtGeneratorConfig) (ids : List Text)
    → let l = load_needed parse cfg ids (record { subtrees = []; files = []; trees = [] }) in
      (l.trees ≡ trees_of parse l.files)
      × DistinctFiles l.files
      × ((id f : Text)
          → is_in id ids ≡ true
          → file_of cfg id ≡ some f
          → is_nil (load_subtree_from_file parse f) ≡ false
          → Provided parse cfg id l)
load_needed-Provided parse cfg ids =
    (end.inv.trees, end.inv.distinct, λ id f h e n. end.gives id f h e n)
  where
    nothing : Loaded
    nothing = record { subtrees = []; files = []; trees = [] }

    end : AllGiven parse cfg ids nothing (load_needed parse cfg ids nothing)
    end =
        load_needed-AllGiven parse cfg ids nothing
          (record { trees = refl; distinct = tt; sound = λ j h. absurd cc })
