-- ===== src/Fs/Path/Resolve.antt =====
-- kernel/src/fs/path.rs: a path, absolute or relative to a directory, as a normal absolute path. A text
-- is the list of its bytes.
use Prim.Native.Nat.{ℕ}
use saeos.Prelude.{
  Bool, true, false, not, ◌&&◌, List, [], ◌∷◌, ◌++◌, ◌==◌, if◌then◌else◌, ◌≡◌, refl, ◌∙◌, ap, sym,
  arith, Bool-cases, inl, inr, all, but_last, append_assoc, append_nil,
}

abbrev pub Text : Type 0
Text = List ℕ

abbrev pub slash : ℕ
slash = b'/'

-- A text has a first component always, so the first clause is not met.
abbrev pub split_step : ℕ → List Text → List Text
split_step c [] = []
split_step c (w ∷ ws) = if c == slash then [] ∷ w ∷ ws else (c ∷ w) ∷ ws

-- `split('/')`: at least one component.
unfoldable pub split : Text → List Text
split [] = [] ∷ []
split (c ∷ cs) = split_step c (split cs)

pub data Component : Type 0 where
  stay up name : Component

-- The arms of the match on a component.
abbrev pub dots : ℕ → Text → Component
dots c [] = if c == b'.' then Component.stay else Component.name
dots c (d ∷ []) = if c == b'.' && d == b'.' then Component.up else Component.name
dots c (d ∷ e ∷ es) = Component.name

abbrev pub component : Text → Component
component [] = Component.stay
component (c ∷ cs) = dots c cs

abbrev pub step : Component → Text → List Text → List Text
step Component.stay word components = components
step Component.up word components = but_last components
step Component.name word components = components ++ word ∷ []

-- The loop of `resolve`.
unfoldable pub walk : List Text → List Text → List Text
walk components [] = components
walk components (word ∷ words) = walk (step (component word) word components) words

-- `components.join("/")`.
unfoldable pub join : List Text → Text
join [] = []
join (w ∷ []) = w
join (w ∷ v ∷ vs) = w ++ slash ∷ join (v ∷ vs)

abbrev pub is_absolute : Text → Bool
is_absolute [] = false
is_absolute (c ∷ cs) = c == slash

-- `resolve`.
unfoldable pub resolve : Text → Text → Text
resolve cwd path =
    let start = if is_absolute path then [] else cwd in
    slash ∷ join (walk [] (split start ++ split path))

-- A component that stays in a path: a name without a slash.
abbrev pub is_whole : Text → Bool
is_whole word = all (λ c. not (c == slash)) word

abbrev pub is_name : Component → Bool
is_name Component.name = true
is_name _ = false

abbrev pub Whole : List Text → Type 0
Whole [] = Unit {0}
Whole (w ∷ ws) = (is_whole w ≡ true) × Whole ws

abbrev pub Names : List Text → Type 0
Names [] = Unit {0}
Names (w ∷ ws) = (is_whole w ≡ true) × (is_name (component w) ≡ true) × Names ws

split_step-Whole : (c : ℕ) (ws : List Text) → Whole ws → Whole (split_step c ws)
split_step-Whole c [] h = tt
split_step-Whole c (w ∷ ws) h = elim (Bool-cases (c == slash)) [
  | inl is ↦ simp is (refl, h)
  | inr other ↦ simp other (h.0, h.1)
]

pub split-Whole : (cs : Text) → Whole (split cs)
unfolding split
split-Whole [] = (refl, tt)
split-Whole (c ∷ cs) = split_step-Whole c (split cs) (split-Whole cs)

pub Whole-append : (vs ws : List Text) → Whole vs → Whole ws → Whole (vs ++ ws)
Whole-append [] ws h k = k
Whole-append (v ∷ vs) ws h k = (h.0, Whole-append vs ws h.1 k)

Names-append :
    (names : List Text) (w : Text)
    → Names names
    → is_whole w ≡ true
    → is_name (component w) ≡ true
    → Names (names ++ w ∷ [])
Names-append [] w n h k = (h, k, tt)
Names-append (v ∷ vs) w n h k = (n.0, n.1, Names-append vs w n.2 h k)

Names-but_last : (names : List Text) → Names names → Names (but_last names)
Names-but_last [] n = tt
Names-but_last (v ∷ []) n = tt
Names-but_last (v ∷ u ∷ us) n = (n.0, n.1, Names-but_last (u ∷ us) n.2)

step-Names :
    (k : Component) (w : Text) (names : List Text)
    → component w ≡ k
    → is_whole w ≡ true
    → Names names
    → Names (step k w names)
step-Names Component.stay w names e h n = n
step-Names Component.up w names e h n = Names-but_last names n
step-Names Component.name w names e h n = Names-append names w n h (ap is_name e)

pub walk-Names : (names ws : List Text) → Names names → Whole ws → Names (walk names ws)
unfolding walk
walk-Names names [] n h = n
walk-Names names (w ∷ ws) n h =
    walk-Names (step (component w) w names) ws (step-Names (component w) w names refl h.0 n) h.1

-- Splitting undoes joining.
pub split_whole : (w : Text) → is_whole w ≡ true → split w ≡ w ∷ []
unfolding split
split_whole [] h = refl
split_whole (c ∷ cs) h = elim (Bool-cases (c == slash)) [
  | inl is ↦ absurd (ground arith)
  | inr other ↦ rw (split_whole cs (ground arith)) (simp other refl)
]

pub split_some : (cs : Text) → (w : Text) × (ws : List Text) × (split cs ≡ w ∷ ws)
unfolding split
split_some [] = ([], [], refl)
split_some (c ∷ cs) =
    let (w, ws, e) = split_some cs in
    elim (Bool-cases (c == slash)) [
      | inl is ↦ ([], w ∷ ws, rw e (simp is refl))
      | inr other ↦ (c ∷ w, ws, rw e (simp other refl))
    ]

split-slash : (w cs : Text) → is_whole w ≡ true → split (w ++ slash ∷ cs) ≡ w ∷ split cs
unfolding split
split-slash [] cs h = let (w, ws, e) = split_some cs in rw e refl
split-slash (c ∷ w) cs h = elim (Bool-cases (c == slash)) [
  | inl is ↦ absurd (ground arith)
  | inr other ↦ rw (split-slash w cs (ground arith)) (simp other refl)
]

split-join : (w : Text) (ws : List Text) → Names (w ∷ ws) → split (join (w ∷ ws)) ≡ w ∷ ws
unfolding join
split-join w [] n = split_whole w n.0
split-join w (v ∷ vs) n = split-slash w (join (v ∷ vs)) n.0 ∙ ap (λ l. w ∷ l) (split-join v vs n.2)

-- Names are kept one by one.
pub is_name_lem : (k : Component) → is_name k ≡ true → k ≡ Component.name
is_name_lem Component.stay e = cc
is_name_lem Component.up e = cc
is_name_lem Component.name e = refl

walk_kept : (done names : List Text) → Names names → walk done names ≡ done ++ names
unfolding walk
walk_kept done [] n = sym (append_nil done)
walk_kept done (w ∷ ws) n =
    rw (is_name_lem (component w) n.1)
      (walk_kept (done ++ w ∷ []) ws n.2 ∙ append_assoc done (w ∷ []) ws)

walk_joined : (names : List Text) → Names names → walk [] (split (join names)) ≡ names
walk_joined [] n = unfold walk split join in refl
walk_joined (w ∷ ws) n = rw (split-join w ws n) (walk_kept [] (w ∷ ws) n)

-- Resolving a resolved path again, from any directory, changes nothing.
pub resolve_idem : (cwd path other : Text) → resolve other (resolve cwd path) ≡ resolve cwd path
unfolding resolve walk split
resolve_idem cwd path other =
    let start = if is_absolute path then [] else cwd in
    let names = walk [] (split start ++ split path) in
    let named =
      walk-Names [] (split start ++ split path) tt
        (Whole-append (split start) (split path) (split-Whole start) (split-Whole path)) in
    ap (λ ns. slash ∷ join ns)
      (ap (walk []) (split-slash [] (join names) refl) ∙ walk_joined names named)
