-- ===== src/Planning/Prebuilt/Loading.antt =====
-- `load_file`: what one step of the loop over the needed subtrees keeps and gives.
use ap2030_uns.Prelude.{
  ◌≡◌, ◌⊎◌, inl, inr, refl, sym, ap, ◌∙◌, true, false, ◌||◌, Option, some, List, [], ◌∷◌, ◌++◌,
}
use ap2030_uns.Prelude.{arith, codes_eq, codes_eq_iff, Bool-cases}
use ap2030_uns.Planning.Text.{Text, is_empty, is_in}
use ap2030_uns.Planning.Tree.{Element, Elements}
use ap2030_uns.Planning.Matcher.{is_nil}
use ap2030_uns.Planning.Generator.{BtGeneratorConfig}
use ap2030_uns.Planning.Subtrees.{
  Loaded, tree_id, ids_of, file_of, load_subtree_from_file, load_file,
}

is_in-append : (s : Text) (xs ys : List Text) → is_in s (xs ++ ys) ≡ (is_in s xs || is_in s ys)
is_in-append s [] ys = refl
is_in-append s (x ∷ xs) ys = ground (arith, is_in-append s xs ys)

ids_of-append : (xs ys : List Element) → ids_of (xs ++ ys) ≡ ids_of xs ++ ids_of ys
ids_of-append [] ys = refl
ids_of-append (x ∷ xs) ys = elim (Bool-cases (is_empty (tree_id x))) [
  | inl e ↦ rw e (ids_of-append xs ys)
  | inr e ↦ rw e (ap (λ l. tree_id x ∷ l) (ids_of-append xs ys))
]

abbrev pub DistinctFiles : List Text → Type 0
DistinctFiles [] = Unit
DistinctFiles (f ∷ fs) = (is_in f fs ≡ false) × DistinctFiles fs

module _ (parse : Text → Option Elements) where
  -- The trees of the files, the last file first in the list.
  abbrev pub trees_of : List Text → List Element
  trees_of [] = []
  trees_of (f ∷ fs) = trees_of fs ++ load_subtree_from_file parse f

  module _ (cfg : BtGeneratorConfig) where
    -- A tree of the subtree's ID was added, or its file was loaded.
    abbrev pub Provided : Text → Loaded → Type 0
    Provided id l =
        (is_in id (ids_of l.trees) ≡ true)
        ⊎ (f : Text) × (file_of cfg id ≡ some f) × (is_in f l.files ≡ true)

    pub record Inv (l : Loaded) : Type 0 where
      pub trees : l.trees ≡ trees_of l.files
      pub distinct : DistinctFiles l.files
      pub sound : (id : Text) → is_in id l.subtrees ≡ true → Provided id l

    -- What one step of the loop keeps and gives.
    pub record Step (id : Text) (l n : Loaded) : Type 0 where
      pub inv : Inv n
      pub keeps : (j : Text) → Provided j l → Provided j n
      pub gives :
          (f : Text)
          → file_of cfg id ≡ some f
          → is_nil (load_subtree_from_file parse f) ≡ false
          → Provided id n

    same_file :
        (i j f : Text) → codes_eq i j ≡ true → file_of cfg i ≡ some f → file_of cfg j ≡ some f
    same_file i j f k e = ap (file_of cfg) (sym ((codes_eq_iff i j).0 k)) ∙ e

    known_file-Step :
        (id f : Text) (l : Loaded)
        → file_of cfg id ≡ some f
        → is_in f l.files ≡ true
        → Inv l
        → Step id l (record l { subtrees = id ∷ l.subtrees })
    known_file-Step id f l e h v = record {
      inv = record {
        trees = v.trees;
        distinct = v.distinct;
        sound = λ j k. elim (Bool-cases (codes_eq id j)) [
          | inl q ↦ inr (f, same_file id j f q e, h)
          | inr q ↦ v.sound j (ground arith)
        ];
      };
      keeps = λ j p. p;
      gives = λ g q n. inr (f, e, h);
    }

    empty_file-Step :
        (id f : Text) (l : Loaded)
        → file_of cfg id ≡ some f
        → is_nil (load_subtree_from_file parse f) ≡ true
        → Inv l
        → Step id l l
    empty_file-Step id f l e z v = record {
      inv = v;
      keeps = λ j p. p;
      gives = λ g q n. absurd (full g q n);
    }
      where
        full :
            (g : Text)
            → file_of cfg id ≡ some g
            → is_nil (load_subtree_from_file parse g) ≡ false
            → ⊥
        full g q n = cc

    with_file : Text → Text → Loaded → Loaded
    with_file id f l = record {
      subtrees = id ∷ ids_of (load_subtree_from_file parse f) ++ l.subtrees;
      files = f ∷ l.files;
      trees = l.trees ++ load_subtree_from_file parse f;
    }

    with_file-keeps : (id f j : Text) (l : Loaded) → Provided j l → Provided j (with_file id f l)
    unfolding with_file
    with_file-keeps id f j l (inl p) = inl (
        rw
          (
            ids_of-append l.trees (load_subtree_from_file parse f),
            is_in-append j (ids_of l.trees) (ids_of (load_subtree_from_file parse f)),
            p,
          )
          refl)
    with_file-keeps id f j l (inr (g, e, p)) = inr (g, e, ground arith)

    is_in_self : (f : Text) (fs : List Text) → is_in f (f ∷ fs) ≡ true
    is_in_self f fs = ground (arith, codes_eq_iff f f)

    with_file_sound :
        (id f j : Text) (l : Loaded)
        → file_of cfg id ≡ some f
        → Inv l
        → is_in j (with_file id f l).subtrees ≡ true
        → Provided j (with_file id f l)
    unfolding with_file
    with_file_sound id f j l e v h = elim (Bool-cases (codes_eq id j)) [
      | inl q ↦ inr (f, same_file id j f q e, is_in_self f l.files)
      | inr q ↦ elim (Bool-cases (is_in j l.subtrees)) [
        | inl k ↦ with_file-keeps id f j l (v.sound j k)
        | inr k ↦ inl (
            rw
              (
                ids_of-append l.trees (load_subtree_from_file parse f),
                is_in-append j (ids_of l.trees) (ids_of (load_subtree_from_file parse f)),
              )
              (in_loaded j h q k))
      ]
    ]
      where
        added : List Text
        added = ids_of (load_subtree_from_file parse f)

        in_loaded :
            (j : Text)
            → is_in j (id ∷ added ++ l.subtrees) ≡ true
            → codes_eq id j ≡ false
            → is_in j l.subtrees ≡ false
            → (is_in j (ids_of l.trees) || is_in j added) ≡ true
        in_loaded j h q k = ground (arith, is_in-append j added l.subtrees)

    new_file-Step :
        (id f : Text) (l : Loaded)
        → file_of cfg id ≡ some f
        → is_in f l.files ≡ false
        → Inv l
        → Step id l (with_file id f l)
    unfolding with_file
    new_file-Step id f l e h v = record {
      inv = record {
        trees = ap (λ ts. ts ++ load_subtree_from_file parse f) v.trees;
        distinct = (h, v.distinct);
        sound = λ j k. with_file_sound id f j l e v k;
      };
      keeps = λ j p. with_file-keeps id f j l p;
      gives = λ g q n. inr (f, e, is_in_self f l.files);
    }

    pub load_file-Step :
        (id f : Text) (l : Loaded)
        → file_of cfg id ≡ some f
        → Inv l
        → Step id l (load_file parse id f l)
    unfolding load_file with_file
    load_file-Step id f l e v = elim (Bool-cases (is_in f l.files)) [
      | inl h ↦ rw h (known_file-Step id f l e h v)
      | inr h ↦ elim (Bool-cases (is_nil (load_subtree_from_file parse f))) [
        | inl z ↦ rw (h, z) (empty_file-Step id f l e z v)
        | inr z ↦ rw (h, z) (new_file-Step id f l e h v)
      ]
    ]
