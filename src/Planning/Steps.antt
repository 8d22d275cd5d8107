-- ===== src/Planning/Steps.antt =====
-- `extract_process_steps`: the process steps of a product's configuration, sorted by number.
use ap2030_uns.Prelude.{
  ap, sym, suc, append-nil, append_assoc, length-append, ℕ, ◌+◌, ◌≡◌, ◌≤◌, refl, ◌∙◌, Option, none,
  some, List, [], ◌∷◌, ◌++◌, All,
}
use ap2030_uns.Prelude.{arith, if◌then◌else◌, ◌==◌, leb, length, Bool-cases, inl, inr}
use ap2030_uns.Planning.Text.{Text}
use ap2030_uns.Planning.Matcher.{ProcessStep, get_or}

-- The keys of a step's configuration; one that is missing is `none`.
pub record StepConfig : Type 0 where
  pub step : Option ℕ
  pub semantic_id : Option Text
  pub description : Option Text
  pub estimated_duration : Option Text
  pub parameters : Option Text

-- An entry of `Processes`: a dictionary of names, whose values are dictionaries (`some`) or not,
-- or a value of another type.
pub data ProcessEntry : Type 0 where
  mapping : List (Text × Option StepConfig) → ProcessEntry
  other : ProcessEntry

abbrev zero_duration : Text
zero_duration = b'0' ∷ b'.' ∷ b'0' ∷ []

abbrev no_parameters : Text
no_parameters = b'{' ∷ b'}' ∷ []

-- `count` is `len(steps)` before the step is added.
abbrev pub step_of : ℕ → Text → StepConfig → ProcessStep
step_of count name c = record {
  name = name;
  step = get_or c.step (count + 1);
  semantic_id = get_or c.semantic_id [];
  description = get_or c.description [];
  estimated_duration = get_or c.estimated_duration zero_duration;
  parameters = get_or c.parameters no_parameters;
}

-- The inner loop, over one dictionary.
unfoldable pub add_processes : List (Text × Option StepConfig) → List ProcessStep → List ProcessStep
add_processes [] steps = steps
add_processes ((name, none) ∷ rest) steps = add_processes rest steps
add_processes ((name, some c) ∷ rest) steps =
    add_processes rest (steps ++ step_of (length steps) name c ∷ [])

unfoldable pub add_entries : List ProcessEntry → List ProcessStep → List ProcessStep
unfolding add_processes
add_entries [] steps = steps
add_entries (mapping d ∷ rest) steps = add_entries rest (add_processes d steps)
add_entries (other ∷ rest) steps = add_entries rest steps

-- `steps.sort(key=lambda s: s.step)`, Python's stable sort.
unfoldable pub insert : ProcessStep → List ProcessStep → List ProcessStep
insert s [] = s ∷ []
insert s (t ∷ ts) = if leb s.step t.step then s ∷ t ∷ ts else t ∷ insert s ts

unfoldable pub sort : List ProcessStep → List ProcessStep
unfolding insert
sort [] = []
sort (s ∷ ss) = insert s (sort ss)

-- `Processes` is missing as an empty list.
unfoldable pub extract_process_steps : List ProcessEntry → List ProcessStep
unfolding sort add_entries
extract_process_steps processes = sort (add_entries processes [])

abbrev pub IsSorted : List ProcessStep → Type 0
IsSorted [] = Unit
IsSorted (s ∷ ss) = All (λ t. s.step ≤ t.step) ss × IsSorted ss

-- The steps of one number, in their order.
abbrev pub numbered : ℕ → List ProcessStep → List ProcessStep
numbered k [] = []
numbered k (s ∷ ss) = let rest = numbered k ss in if s.step == k then s ∷ rest else rest

All-insert :
    (n : ℕ) (s : ProcessStep) (ss : List ProcessStep)
    → n ≤ s.step
    → All (λ t. n ≤ t.step) ss
    → All (λ t. n ≤ t.step) (insert s ss)
unfolding insert
All-insert n s [] h a = (h, tt)
All-insert n s (t ∷ ts) h a = elim (Bool-cases (leb s.step t.step)) [
  | inl e ↦ rw e (h, a)
  | inr e ↦ rw e (a.0, All-insert n s ts h a.1)
]

All-le :
    (m n : ℕ) (ss : List ProcessStep) → m ≤ n → All (λ t. n ≤ t.step) ss → All (λ t. m ≤ t.step) ss
All-le m n [] h a = tt
All-le m n (s ∷ ss) h a = (omega arith, All-le m n ss h a.1)

insert-IsSorted : (s : ProcessStep) (ss : List ProcessStep) → IsSorted ss → IsSorted (insert s ss)
unfolding insert
insert-IsSorted s [] h = (tt, tt)
insert-IsSorted s (t ∷ ts) h = elim (Bool-cases (leb s.step t.step)) [
  | inl e ↦
      let le : s.step ≤ t.step = ground arith in rw e ((le, All-le s.step t.step ts le h.0), h)
  | inr e ↦ rw e (All-insert t.step s ts (ground arith) h.0, insert-IsSorted s ts h.1)
]

numbered-insert :
    (k : ℕ) (s : ProcessStep) (ss : List ProcessStep)
    → numbered k (insert s ss) ≡ numbered k (s ∷ ss)
unfolding insert
numbered-insert k s [] = refl
numbered-insert k s (t ∷ ts) = ground (arith, numbered-insert k s ts)

sort-IsSorted : (ss : List ProcessStep) → IsSorted (sort ss)
unfolding sort
sort-IsSorted [] = tt
sort-IsSorted (s ∷ ss) = insert-IsSorted s (sort ss) (sort-IsSorted ss)

numbered-sort : (k : ℕ) (ss : List ProcessStep) → numbered k (sort ss) ≡ numbered k ss
unfolding sort
numbered-sort k [] = refl
numbered-sort k (s ∷ ss) = numbered-insert k s (sort ss) ∙ ground (arith, numbered-sort k ss)

-- The configured steps in their order: the dictionaries in the entries that are dictionaries.
abbrev pub configs_in : List (Text × Option StepConfig) → List (Text × StepConfig)
configs_in [] = []
configs_in ((name, none) ∷ d) = configs_in d
configs_in ((name, some c) ∷ d) = (name, c) ∷ configs_in d

abbrev pub configs : List ProcessEntry → List (Text × StepConfig)
configs [] = []
configs (mapping d ∷ entries) = configs_in d ++ configs entries
configs (other ∷ entries) = configs entries

-- A step without a number takes its place among the configured steps, of which `n` come before.
abbrev pub configured : ℕ → Text → StepConfig → ProcessStep
configured n name c = record {
  name = name;
  step = elim c.step [ none ↦ suc n | some k ↦ k ];
  semantic_id = elim c.semantic_id [ none ↦ [] | some t ↦ t ];
  description = elim c.description [ none ↦ [] | some t ↦ t ];
  estimated_duration = elim c.estimated_duration [ none ↦ zero_duration | some t ↦ t ];
  parameters = elim c.parameters [ none ↦ no_parameters | some t ↦ t ];
}

abbrev pub steps_from : ℕ → List (Text × StepConfig) → List ProcessStep
steps_from n [] = []
steps_from n ((name, c) ∷ cs) = configured n name c ∷ steps_from (suc n) cs

steps_from-append :
    (n : ℕ) (xs ys : List (Text × StepConfig))
    → steps_from n (xs ++ ys) ≡ steps_from n xs ++ steps_from (n + length xs) ys
steps_from-append n [] ys = ap (λ k. steps_from k ys) (omega arith)
steps_from-append n ((name, c) ∷ xs) ys =
    ap (λ l. configured n name c ∷ l)
      (steps_from-append (suc n) xs ys
        ∙ ap (λ k. steps_from (suc n) xs ++ steps_from k ys) (omega arith))

get_or-elim {ℓ} :
    {A : Type ℓ} (x : A) (o : Option A) → get_or o x ≡ elim o [ none ↦ x | some y ↦ y ]
get_or-elim x none = refl
get_or-elim x (some y) = refl

get_or-number : (n : ℕ) (o : Option ℕ) → get_or o (n + 1) ≡ elim o [ none ↦ suc n | some k ↦ k ]
get_or-number n none = omega arith
get_or-number n (some k) = refl

configured-step_of : (n : ℕ) (name : Text) (c : StepConfig) → step_of n name c ≡ configured n name c
configured-step_of n name c = λ i. record {
  name = name;
  step = get_or-number n c.step i;
  semantic_id = get_or-elim [] c.semantic_id i;
  description = get_or-elim [] c.description i;
  estimated_duration = get_or-elim zero_duration c.estimated_duration i;
  parameters = get_or-elim no_parameters c.parameters i;
}

length-snoc :
    (steps : List ProcessStep) (s : ProcessStep) → length (steps ++ s ∷ []) ≡ suc (length steps)
length-snoc steps s = length-append steps (s ∷ []) ∙ omega arith

add_processes-steps_from :
    (d : List (Text × Option StepConfig)) (steps : List ProcessStep)
    → add_processes d steps ≡ steps ++ steps_from (length steps) (configs_in d)
unfolding add_processes
add_processes-steps_from [] steps = sym (append-nil steps)
add_processes-steps_from ((name, none) ∷ d) steps = add_processes-steps_from d steps
add_processes-steps_from ((name, some c) ∷ d) steps =
    add_processes-steps_from d (steps ++ step_of (length steps) name c ∷ [])
    ∙ ap (λ k. (steps ++ step_of (length steps) name c ∷ []) ++ steps_from k (configs_in d))
        (length-snoc steps (step_of (length steps) name c))
    ∙ append_assoc steps (step_of (length steps) name c ∷ [])
        (steps_from (suc (length steps)) (configs_in d))
    ∙ ap (λ s. steps ++ s ∷ steps_from (suc (length steps)) (configs_in d))
        (configured-step_of (length steps) name c)

length-steps_from : (n : ℕ) (cs : List (Text × StepConfig)) → length (steps_from n cs) ≡ length cs
length-steps_from n [] = refl
length-steps_from n ((name, c) ∷ cs) = ap suc (length-steps_from (suc n) cs)

add_entries-steps_from :
    (entries : List ProcessEntry) (steps : List ProcessStep)
    → add_entries entries steps ≡ steps ++ steps_from (length steps) (configs entries)
unfolding add_entries
add_entries-steps_from [] steps = sym (append-nil steps)
add_entries-steps_from (mapping d ∷ entries) steps =
    add_entries-steps_from entries (add_processes d steps)
    ∙ ap (λ l. l ++ steps_from (length l) (configs entries)) (add_processes-steps_from d steps)
    ∙ ap (λ k. (steps ++ own) ++ steps_from k (configs entries))
        (length-append steps own
          ∙ ap (λ k. length steps + k) (length-steps_from (length steps) (configs_in d)))
    ∙ append_assoc steps own (steps_from (length steps + length (configs_in d)) (configs entries))
    ∙ ap (λ l. steps ++ l) (sym (steps_from-append (length steps) (configs_in d) (configs entries)))
  where
    own : List ProcessStep
    own = steps_from (length steps) (configs_in d)
add_entries-steps_from (other ∷ entries) steps = add_entries-steps_from entries steps

-- The extracted steps are in the order of their numbers, and for every number they are exactly the
-- configured steps of that number, in the order of the configuration; a step without a number has
-- that of its place among the configured ones, and other missing values have their defaults.
pub extract_process_steps-IsSorted :
    (processes : List ProcessEntry)
    → IsSorted (extract_process_steps processes)
      × ((k : ℕ)
          → numbered k (extract_process_steps processes)
            ≡ numbered k (steps_from 0 (configs processes)))
unfolding extract_process_steps
extract_process_steps-IsSorted processes = (
  sort-IsSorted (add_entries processes []),
  λ k.
      numbered-sort k (add_entries processes [])
      ∙ ap (numbered k) (add_entries-steps_from processes []),
)
