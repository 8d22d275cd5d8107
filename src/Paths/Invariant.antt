-- ===== src/Paths/Invariant.antt =====
-- What holds at every turn of the search, given the scores `c` at which positions were last taken
-- from the heap.
use ap2030_uns.Prelude.{
  ℕ, ◌+◌, ◌*◌, ◌≡◌, ◌≤◌, ◌⊎◌, refl, ap, Bool, true, false, ◌&&◌, ◌||◌, Option, none, some,
}
use ap2030_uns.Prelude.{List, [], ◌∷◌, All, ◌==◌, arith}
use ap2030_uns.Paths.Grid.{Point, pt_eq, Grid, is_inside}
use ap2030_uns.Paths.Search.{Entry, State, unit, set}
use ap2030_uns.Paths.Measure.{
  pt_eq_iff, unknown, total, total-set, total-set_le, cells, is_cell-cells,
}
use ap2030_uns.Paths.Route.{IsStep}

abbrev pub Scores : Type 0
Scores = Point → Option ℕ

abbrev pub waits : Point → ℕ → List Entry → Bool
waits p v [] = false
waits p v (e ∷ es) = (pt_eq e.position p && e.g == v) || waits p v es

pub set_same {ℓ} :
    {A : Type ℓ} (p q : Point) (v : A) (d : Point → Option A) → p ≡ q → set p v d q ≡ some v
set_same p q v d h = rw ((pt_eq_iff p q).1 h) refl

pub set_other {ℓ} :
    {A : Type ℓ} (p q : Point) (v : A) (d : Point → Option A)
    → pt_eq p q ≡ false
    → set p v d q ≡ d q
set_other p q v d h = rw h refl

pub All-imp {ℓ κ μ} :
    {A : Type ℓ} (P : A → Type κ) (Q : A → Type μ)
    → ((a : A) → P a → Q a)
    → (l : List A) → All P l
    → All Q l
All-imp P Q f [] h = tt
All-imp P Q f (a ∷ l) h = (f a h.0, All-imp P Q f l h.1)

pub mul_mono : (k a b : ℕ) → a ≤ b → k * a ≤ k * b
mul_mono k a b h = grind arith

module _ (grid : Grid) (start goal : Point) (turning_cost : ℕ) where
  abbrev pub rate : ℕ
  rate = unit + turning_cost

  abbrev pub size : ℕ
  size = grid.width * grid.height

  abbrev pub unknowns : Scores → ℕ
  unknowns g = total unknown (cells grid) g

  -- A score leaves room for one step to each cell that is not known yet.
  abbrev pub HasRoom : Scores → ℕ → Type 0
  HasRoom g v = v + rate * unknowns g ≤ rate * size

  abbrev pub ParentOk : Scores → Point → ℕ → Option Point → Type 0
  ParentOk c p v none = p ≡ start
  ParentOk c p v (some q) =
      (pt_eq p start ≡ false) × IsStep grid q p × (u : ℕ) × (c q ≡ some u) × (u + unit ≤ v)

  abbrev pub EntryOk : Scores → Scores → Entry → Type 0
  EntryOk c g e =
      ((v : ℕ) × (g e.position ≡ some v) × (v ≤ e.g)) × ParentOk c e.position e.g e.parent

  pub record Inv (c : Scores) (s : State) : Type 0 where
    pub entries : All (EntryOk c s.g_scores) s.open_set
    pub unparented : s.came_from start ≡ none
    pub linked : (p : Point) (v : ℕ) → c p ≡ some v → ParentOk c p v (s.came_from p)
    pub known :
        (p : Point) (v : ℕ) → s.g_scores p ≡ some v → (c p ≡ some v) ⊎ (waits p v s.open_set ≡ true)
    pub origin : s.g_scores start ≡ some 0
    pub lower : (p : Point) (v : ℕ) → c p ≡ some v → (u : ℕ) × (s.g_scores p ≡ some u) × (u ≤ v)
    pub bounded : (p : Point) (v : ℕ) → s.g_scores p ≡ some v → HasRoom s.g_scores v
    pub away : (p : Point) (v : ℕ) → c p ≡ some v → pt_eq p goal ≡ false

  -- Room is kept when a score improves.
  pub unknowns-set :
      (g : Scores) (p : Point) (v : ℕ)
      → is_inside grid p ≡ true
      → (o : Option ℕ) → g p ≡ o
      → unknowns (set p v g) + unknown o ≤ unknowns g
  unknowns-set g p v h none e =
      total-set unknown g p v (cells grid) (is_cell-cells grid p h) (omega (arith, ap unknown e))
  unknowns-set g p v h (some w) e =
      omega (arith, total-set_le unknown g p v (cells grid) (omega arith))

  pub room-set :
      (g : Scores) (p : Point) (v w : ℕ)
      → is_inside grid p ≡ true
      → HasRoom g w
      → HasRoom (set p v g) w
  room-set g p v w h r = omega (
    arith,
    r,
    mul_mono rate (unknowns (set p v g)) (unknowns g)
        (omega (arith, unknowns-set g p v h (g p) refl)),
  )

  -- A position that was not known takes one step of the room.
  pub room-new :
      (g : Scores) (p : Point) (v w : ℕ)
      → is_inside grid p ≡ true
      → g p ≡ none
      → v ≤ w + rate
      → HasRoom g w
      → HasRoom (set p v g) v
  room-new g p v w h e l r =
      omega (
        arith,
        r,
        l,
        suc_mono rate (unknowns (set p v g)) (unknowns g) (unknowns-set g p v h none e),
      )
    where
      distributes : (k a : ℕ) → k * (a + 1) ≡ k * a + k
      distributes k a = grind arith

      suc_mono : (k a b : ℕ) → a + 1 ≤ b → k * a + k ≤ k * b
      suc_mono k a b h = omega (arith, mul_mono k (a + 1) b h, distributes k a)
