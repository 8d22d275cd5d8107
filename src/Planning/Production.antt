-- ===== src/Planning/Production.antt =====
-- What the generated trees call: one run of the filling for each mover, each with its own port,
-- and in that run one subtree for each process step.
use ap2030_uns.Prelude.{
  ℕ, zero, suc, ◌+◌, ◌-◌, ◌*◌, ◌/◌, ◌%◌, ◌≡◌, ◌≤◌, ◌<◌, max, refl, ap, ◌∙◌, true, inl, inr, Option,
  none, some, List, [], ◌∷◌, ◌++◌, append-nil,
}
use ap2030_uns.Prelude.{arith, ltb, codes, length, get_elem?, Bool-cases}
use ap2030_uns.Prelude.Dict.{Dict}
use ap2030_uns.Planning.Text.{Text}
use ap2030_uns.Planning.Tree.{Elements, iter, iter_each, digits, decimal}
use ap2030_uns.Planning.Matcher.{MoverInfo, MatchingResult}
use ap2030_uns.Planning.Generator.{xbot_port, mover_calls, filling_call, main_tree, movers_flow}

-- Reading a decimal number.
abbrev read : ℕ → Text → ℕ
read acc [] = acc
read acc (c ∷ s) = read (10 * acc + (c - b'0')) s

read-snoc : (acc c : ℕ) (s : Text) → read acc (s ++ c ∷ []) ≡ 10 * read acc s + (c - b'0')
read-snoc acc c [] = refl
read-snoc acc c (d ∷ s) = read-snoc (10 * acc + (d - b'0')) c s

read-digits : (fuel n : ℕ) → n < fuel → read 0 (digits fuel n) ≡ n
unfolding digits
read-digits zero n h = absurd (omega arith)
read-digits (suc fuel) n h = elim (Bool-cases (ltb n 10)) [
  | inl e ↦ rw e (omega arith)
  | inr e ↦
      let big : 10 ≤ n = ground arith in
      let small : n / 10 < fuel = omega arith in
      rw e (
        read-snoc 0 (b'0' + n % 10) (digits fuel (n / 10))
        ∙ omega (arith, read-digits fuel (n / 10) small))
]

read-decimal : (n : ℕ) → read 0 (decimal n) ≡ n
unfolding decimal
read-decimal n = read-digits (suc n) n (omega arith)

-- The number in a port `{Xbot...}`, up to a factor and an offset.
abbrev read_port : Text → ℕ
read_port (a ∷ b ∷ c ∷ d ∷ e ∷ s) = read 0 s
read_port _ = 0

read_port-xbot_port : (i : ℕ) → read_port (xbot_port i) ≡ 10 * (i + 1) + (b'}' - b'0')
unfolding xbot_port
read_port-xbot_port i =
    read-snoc 0 b'}' (decimal (i + 1)) ∙ ap (λ n. 10 * n + (b'}' - b'0')) (read-decimal (i + 1))

pub xbot_port_injective : (i j : ℕ) → xbot_port i ≡ xbot_port j → i ≡ j
xbot_port_injective i j h =
    omega (arith, ap read_port h, read_port-xbot_port i, read_port-xbot_port j)

iter-mover_calls :
    (k : ℕ) (ms : List MoverInfo) → length (iter_each "SubTree" (mover_calls k ms)) ≡ length ms
unfolding iter mover_calls
iter-mover_calls k [] = refl
iter-mover_calls k (m ∷ ms) = ap suc (iter-mover_calls (suc k) ms)

port_eq :
    (i j : ℕ)
    → i ≡ j
    → ◌≡◌ {A = Option (Dict Text)}
        (some (filling_call (xbot_port i)))
        (some (filling_call (xbot_port j)))
port_eq i j h = ap (λ n. some (filling_call (xbot_port n))) h

get_elem?-mover_calls :
    (k i : ℕ) (ms : List MoverInfo)
    → i < length ms
    → get_elem? (iter_each "SubTree" (mover_calls k ms)) i ≡ some (filling_call (xbot_port (k + i)))
unfolding iter mover_calls
get_elem?-mover_calls k i [] h = absurd (omega arith)
get_elem?-mover_calls k zero (m ∷ ms) h = port_eq k (k + zero) (omega arith)
get_elem?-mover_calls k (suc i) (m ∷ ms) h =
    get_elem?-mover_calls (suc k) i ms (omega arith) ∙ port_eq (suc k + i) (k + suc i) (omega arith)

abbrev CallsEach : Elements → ℕ → Type 0
CallsEach es n =
    (length (iter_each "SubTree" es) ≡ n)
    × ((i : ℕ) → i < n → get_elem? (iter_each "SubTree" es) i ≡ some (filling_call (xbot_port i)))

single_call :
    (i : ℕ)
    → i < 1
    → get_elem? (filling_call (codes "{Xbot1}") ∷ []) i ≡ some (filling_call (xbot_port i))
unfolding xbot_port decimal digits
single_call zero h = refl
single_call (suc i) h = absurd (omega arith)

is_parallel : (n : ℕ) → ltb 1 (max 1 (suc (suc n))) ≡ true
is_parallel n = ground arith

iter-movers_flow :
    (r : MatchingResult) (m n : MoverInfo) (ms : List MoverInfo)
    → iter_each "SubTree" (movers_flow (record r { movers = m ∷ n ∷ ms }))
      ≡ iter_each "SubTree" (mover_calls 0 (m ∷ n ∷ ms))
unfolding iter movers_flow
iter-movers_flow r m n ms =
    rw (is_parallel (length ms)) (append-nil (iter_each "SubTree" (mover_calls 0 (m ∷ n ∷ ms))))

movers_flow-CallsEach :
    (r : MatchingResult) (ms : List MoverInfo)
    → CallsEach (movers_flow (record r { movers = ms })) (length ms)
unfolding iter movers_flow
movers_flow-CallsEach r [] = (refl, λ i h. absurd (omega arith))
movers_flow-CallsEach r (m ∷ []) = (refl, single_call)
movers_flow-CallsEach r (m ∷ n ∷ ms) = parallel
  where
    parallel : CallsEach (movers_flow (record r { movers = m ∷ n ∷ ms })) (length (m ∷ n ∷ ms))
    parallel = (
      ap length (iter-movers_flow r m n ms) ∙ iter-mover_calls 0 (m ∷ n ∷ ms),
      λ i h.
          ap (λ l. get_elem? l i) (iter-movers_flow r m n ms)
          ∙ get_elem?-mover_calls 0 i (m ∷ n ∷ ms) h
          ∙ port_eq (0 + i) i (omega arith),
    )

iter-main_tree :
    (r : MatchingResult) (product table : Option Text)
    → iter "SubTree" (main_tree r product table) ≡ iter_each "SubTree" (movers_flow r)
unfolding iter main_tree movers_flow
iter-main_tree r product none = simp append-nil
iter-main_tree r product (some []) = simp append-nil
iter-main_tree r product (some (c ∷ s)) = simp append-nil

-- The main tree calls the filling once for each mover, in the order of the movers, and the calls
-- pass different ports, `{Xbot1}`, `{Xbot2}` and so on.
pub main_tree-calls :
    (r : MatchingResult) (product table : Option Text)
    → let calls = iter "SubTree" (main_tree r product table) in
      (length calls ≡ length r.movers)
      × ((i : ℕ) → i < length r.movers → get_elem? calls i ≡ some (filling_call (xbot_port i)))
      × ((i j : ℕ) → xbot_port i ≡ xbot_port j → i ≡ j)
main_tree-calls r product table =
    let flow = movers_flow-CallsEach r r.movers in
    rw (iter-main_tree r product table) (flow.0, flow.1, xbot_port_injective)
