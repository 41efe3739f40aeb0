-- ===== src/Process/Tracking/Descendants.antt =====
-- The climb from a process to its ancestors ends, and finds out whether one of them is the given one.
use tlscope_rs.Base.{
  ℕ, zero, suc, ◌+◌, ◌≤◌, ◌<◌, ◌≡◌, ◌≢◌, refl, sym, ap, ◌∙◌, ◌↔◌, inl, inr, Bool, true, false, ◌||◌,
  List, [], ◌∷◌, none, some, arith, ◌==◌, if◌then◌else◌, length, All, Bool-cases, Option-cases,
}
use tlscope_rs.Process.Tracking.{Parents, parent_of, has_pid, climb, is_descendant_of}

-- A process is a child of the ancestor, or of a process that descends from it.
pub data Descends (parents : Parents) (ancestor : ℕ) : ℕ → Type 0 where
  child : {pid : ℕ} → parent_of parents pid ≡ some ancestor → Descends parents ancestor pid
  further :
      {pid parent : ℕ}
      → parent_of parents pid ≡ some parent
      → Descends parents ancestor parent
      → Descends parents ancestor pid

module _ (parents : Parents) (ancestor : ℕ) where
  -- Whether the ancestor is at most so many steps up.
  arrives : ℕ → ℕ → Bool
  arrives zero pid = false
  arrives (suc n) pid = elim (parent_of parents pid) [
    | none ↦ false
    | some parent ↦ parent == ancestor || arrives n parent
  ]

  arrives_zero : (pid : ℕ) → arrives 0 pid ≡ false
  unfolding arrives
  arrives_zero pid = refl

  climb_zero : (current : ℕ) (visited : List ℕ) → climb 0 ancestor parents current visited ≡ none
  unfolding climb
  climb_zero current visited = refl

  arrives_step :
      (n pid parent : ℕ)
      → parent_of parents pid ≡ some parent
      → arrives (suc n) pid ≡ (parent == ancestor || arrives n parent)
  unfolding arrives
  arrives_step n pid parent e = rw (arrives, e) refl

  arrives_root : (n pid : ℕ) → parent_of parents pid ≡ none → arrives n pid ≡ false
  unfolding arrives
  arrives_root zero pid e = refl
  arrives_root (suc n) pid e = rw (arrives, e) refl

  -- What is not so many steps up is not fewer steps up.
  arrives_fewer : (n pid : ℕ) → arrives (suc n) pid ≡ false → arrives n pid ≡ false
  arrives_fewer zero pid h = arrives_zero pid
  arrives_fewer (suc n) pid h = elim (Option-cases (parent_of parents pid)) [
    | inl e ↦ arrives_root (suc n) pid e
    | inr (parent, e) ↦
        let above : (parent == ancestor || arrives (suc n) parent) ≡ false =
          sym (arrives_step (suc n) pid parent e) ∙ h in
        let one : (parent == ancestor) ≡ false = ground arith in
        let rest : arrives (suc n) parent ≡ false = ground arith in
        rw (arrives_step n pid parent e, one, arrives_fewer n parent rest) refl
  ]

  Descends-arrives : {pid : ℕ} → Descends parents ancestor pid → (n : ℕ) × (arrives n pid ≡ true)
  Descends-arrives (child {pid} e) = (1, rw (arrives_step 0 pid ancestor e) (ground arith))
  Descends-arrives (further {pid} {parent} e d) =
      let (n, h) = Descends-arrives d in (suc n, rw (arrives_step n pid parent e, h) (ground arith))

  fresh :
      (n pid : ℕ) (visited : List ℕ)
      → All (λ v. arrives n v ≡ false) visited
      → arrives n pid ≡ true
      → has_pid visited pid ≡ false
  unfolding has_pid
  fresh n pid [] a h = refl
  fresh n pid (v ∷ visited) a h = elim (Bool-cases (v == pid)) [
    | inl e ↦
        let same : v ≡ pid = ground arith in
        let f : arrives n pid ≡ false = ap (arrives n) (sym same) ∙ a.0 in cc
    | inr e ↦ rw e (fresh n pid visited a.1 h)
  ]

  fewer-All :
      (n : ℕ) (visited : List ℕ)
      → All (λ v. arrives (suc n) v ≡ false) visited
      → All (λ v. arrives n v ≡ false) visited
  fewer-All n [] a = tt
  fewer-All n (v ∷ visited) a = (arrives_fewer n v a.0, fewer-All n visited a.1)

  -- The steps of the climb.
  climb_found :
      (fuel current parent : ℕ) (visited : List ℕ)
      → parent_of parents current ≡ some parent
      → (parent == ancestor) ≡ true
      → climb (suc fuel) ancestor parents current visited ≡ some true
  unfolding climb
  climb_found fuel current parent visited e f = rw (climb, e, f) refl

  climb_on :
      (fuel current parent : ℕ) (visited : List ℕ)
      → parent_of parents current ≡ some parent
      → (parent == ancestor) ≡ false
      → has_pid visited current ≡ false
      → climb (suc fuel) ancestor parents current visited
        ≡ climb fuel ancestor parents parent (current ∷ visited)
  unfolding climb
  climb_on fuel current parent visited e f g = rw (climb, e, f, g) refl

  climb_root :
      (fuel current : ℕ) (visited : List ℕ)
      → parent_of parents current ≡ none
      → climb (suc fuel) ancestor parents current visited ≡ some false
  unfolding climb
  climb_root fuel current visited e = rw (climb, e) refl

  climb_again :
      (fuel current parent : ℕ) (visited : List ℕ)
      → parent_of parents current ≡ some parent
      → (parent == ancestor) ≡ false
      → has_pid visited current ≡ true
      → climb (suc fuel) ancestor parents current visited ≡ some false
  unfolding climb
  climb_again fuel current parent visited e f g = rw (climb, e, f, g) refl

  -- An ancestor that is there is found, if the climb ends.
  climb_complete :
      (k fuel current : ℕ) (visited : List ℕ)
      → arrives (suc k) current ≡ true
      → arrives k current ≡ false
      → All (λ v. arrives (suc k) v ≡ false) visited
      → climb fuel ancestor parents current visited ≢ none
      → climb fuel ancestor parents current visited ≡ some true
  climb_complete k zero current visited h l a ends = absurd (ends (climb_zero current visited))
  climb_complete zero (suc fuel) current visited h l a ends =
      elim (Option-cases (parent_of parents current)) [
        | inl e ↦ let f : arrives 1 current ≡ false = arrives_root 1 current e in cc
        | inr (parent, e) ↦
            let above : (parent == ancestor || arrives 0 parent) ≡ true =
              sym (arrives_step 0 current parent e) ∙ h in
            let none_yet = arrives_zero parent in
            climb_found fuel current parent visited e (ground arith)
      ]
  climb_complete (suc k) (suc fuel) current visited h l a ends =
      elim (Option-cases (parent_of parents current)) [
        | inl e ↦
            let f : arrives (suc (suc k)) current ≡ false = arrives_root (suc (suc k)) current e in
            cc
        | inr (parent, e) ↦ elim (Bool-cases (parent == ancestor)) [
          | inl f ↦ climb_found fuel current parent visited e f
          | inr f ↦
              let above : (parent == ancestor || arrives (suc k) parent) ≡ true =
                sym (arrives_step (suc k) current parent e) ∙ h in
              let below : (parent == ancestor || arrives k parent) ≡ false =
                sym (arrives_step k current parent e) ∙ l in
              let high : arrives (suc k) parent ≡ true = ground arith in
              let low : arrives k parent ≡ false = ground arith in
              let step =
                climb_on fuel current parent visited e f
                  (fresh (suc (suc k)) current visited a h) in
              step
              ∙ climb_complete k fuel parent (current ∷ visited) high low
                  (l, fewer-All (suc k) visited a) (λ x. ends (step ∙ x))
        ]
      ]

  climb_sound :
      (fuel current : ℕ) (visited : List ℕ)
      → climb fuel ancestor parents current visited ≡ some true
      → Descends parents ancestor current
  climb_sound zero current visited h = let z = climb_zero current visited in absurd (cc)
  climb_sound (suc fuel) current visited h = elim (Option-cases (parent_of parents current)) [
    | inl e ↦ let z = climb_root fuel current visited e in absurd (ground arith)
    | inr (parent, e) ↦ elim (Bool-cases (parent == ancestor)) [
      | inl f ↦ let same : parent ≡ ancestor = ground arith in child (e ∙ ap some same)
      | inr f ↦ elim (Bool-cases (has_pid visited current)) [
        | inl g ↦ let z = climb_again fuel current parent visited e f g in absurd (ground arith)
        | inr g ↦ further e (
            climb_sound fuel parent (current ∷ visited)
              (sym (climb_on fuel current parent visited e f g) ∙ h))
      ]
    ]
  ]

-- How many pairs of the map are of processes that were not visited.
unvisited : List ℕ → Parents → ℕ
unvisited visited [] = 0
unvisited visited ((c, p) ∷ parents) =
    let rest = unvisited visited parents in if has_pid visited c then rest else suc rest

unvisited-le : (visited : List ℕ) (parents : Parents) → unvisited visited parents ≤ length parents
unfolding unvisited
unvisited-le visited [] = omega arith
unvisited-le visited ((c, p) ∷ parents) = ground (arith, unvisited-le visited parents)

unvisited_mono :
    (current : ℕ) (visited : List ℕ) (parents : Parents)
    → unvisited (current ∷ visited) parents ≤ unvisited visited parents
unfolding unvisited has_pid
unvisited_mono current visited [] = omega arith
unvisited_mono current visited ((c, p) ∷ parents) =
    ground (arith, unvisited_mono current visited parents)

has_pid_cons :
    (v pid : ℕ) (visited : List ℕ) → has_pid (v ∷ visited) pid ≡ (v == pid || has_pid visited pid)
unfolding has_pid
has_pid_cons v pid visited = refl

unvisited_less :
    (current parent : ℕ) (visited : List ℕ) (parents : Parents)
    → parent_of parents current ≡ some parent
    → has_pid visited current ≡ false
    → unvisited (current ∷ visited) parents < unvisited visited parents
unfolding unvisited parent_of
unvisited_less current parent visited [] e f = cc
unvisited_less current parent visited ((c, p) ∷ parents) e f = elim (Bool-cases (c == current)) [
  | inl g ↦
      let same : c ≡ current = ground arith in
      let out : has_pid visited c ≡ false = ap (has_pid visited) same ∙ f in
      ground (arith, has_pid_cons current c visited, unvisited_mono current visited parents)
  | inr g ↦
      let ih = unvisited_less current parent visited parents (rw g at e) f in
      ground (arith, has_pid_cons current c visited)
]

climb_ends :
    (parents : Parents) (ancestor fuel current : ℕ) (visited : List ℕ)
    → unvisited visited parents < fuel
    → climb fuel ancestor parents current visited ≢ none
climb_ends parents ancestor zero current visited k = absurd (omega arith)
climb_ends parents ancestor (suc fuel) current visited k =
    elim (Option-cases (parent_of parents current)) [
      | inl e ↦ λ x. let z = climb_root parents ancestor fuel current visited e in ground arith
      | inr (parent, e) ↦ elim (Bool-cases (parent == ancestor)) [
        | inl f ↦ λ x.
            let z = climb_found parents ancestor fuel current parent visited e f in ground arith
        | inr f ↦ elim (Bool-cases (has_pid visited current)) [
          | inl g ↦ λ x.
              let z = climb_again parents ancestor fuel current parent visited e f g in ground arith
          | inr g ↦ λ x.
              climb_ends parents ancestor fuel parent (current ∷ visited)
                (omega (arith, unvisited_less current parent visited parents e g))
                (sym (climb_on parents ancestor fuel current parent visited e f g) ∙ x)
        ]
      ]
    ]

-- The least number of steps.
least :
    (parents : Parents) (ancestor pid n : ℕ)
    → arrives parents ancestor n pid ≡ true
    → (k : ℕ) × (arrives parents ancestor (suc k) pid ≡ true)
      × (arrives parents ancestor k pid ≡ false)
least parents ancestor pid zero h = let z = arrives_zero parents ancestor pid in absurd (cc)
least parents ancestor pid (suc n) h = elim (Bool-cases (arrives parents ancestor n pid)) [
  | inl e ↦ least parents ancestor pid n e
  | inr e ↦ (n, h, e)
]

-- The climb ends, also where the parents form a cycle, and says whether the process descends from the
-- ancestor.
pub is_descendant_of_lem :
    (pid ancestor : ℕ) (parents : Parents)
    → (found : Bool) × (is_descendant_of pid ancestor parents ≡ some found)
      × ((found ≡ true) ↔ Descends parents ancestor pid)
unfolding is_descendant_of
is_descendant_of_lem pid ancestor parents =
    let ends =
      climb_ends parents ancestor (length parents + 2) pid []
        (omega (arith, unvisited-le [] parents)) in
    let full = λ (d : Descends parents ancestor pid).
      (let (n, h) = Descends-arrives parents ancestor d in
        let (k, high, low) = least parents ancestor pid n h in
        climb_complete parents ancestor k (length parents + 2) pid [] high low tt ends) in
    elim (Option-cases (climb (length parents + 2) ancestor parents pid [])) [
      | inl e ↦ absurd (ends e)
      | inr (found, e) ↦ (
        found,
        e,
        (
          λ t. climb_sound parents ancestor (length parents + 2) pid [] (e ∙ ap some t),
          λ d. let f = full d in ground arith,
        ),
      )
    ]
