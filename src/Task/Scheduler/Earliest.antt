-- ===== src/Task/Scheduler/Earliest.antt =====
-- The loop of `pick_next` finds the least key among the entries that may run.
use Prim.Native.Nat.{ℕ, ◌+◌, zero, suc}
use saeos.Prelude.{
  Bool, true, false, Option, none, some, List, [], ◌∷◌, ◌≡◌, ◌⊎◌, refl, sym, ◌∙◌, ap, subst, arith,
  Option-cases, Bool-cases, inl, inr, get_elem?,
}
use saeos.Task.Record.{Tcb}
use saeos.Task.Scheduler.State.{Scheduler, task}
use saeos.Task.Scheduler.Pick.{
  Key, Candidate, less, policy_key, may_run, improve, pick_loop, pick_next, take_candidate,
  is_empty,
}

-- No candidate comes after the key.
abbrev pub Within : Key → Option Candidate → Type 0
Within k none = ⊥
Within k (some c) = less k c.key ≡ false

less_trans : (a b c : Key) → less a b ≡ true → less b c ≡ true → less a c ≡ true
unfolding less
less_trans a b c h k = ground arith

less_irrefl : (a : Key) → less a a ≡ false
unfolding less
less_irrefl a = ground arith

improve-Within :
    (b : Bool) (best : Option Candidate) (index : ℕ) (key k : Key)
    → Within k best
    → Within k (improve b best index key)
unfolding improve
improve-Within false best index key k w = w
improve-Within true none index key k w = elim w [ ]
improve-Within true (some c) index key k w = elim (Bool-cases (less key c.key)) [
  | inr h ↦ simp h w
  | inl h ↦ elim (Bool-cases (less k key)) [
    | inr g ↦ simp h g
    | inl g ↦ ground (arith, less_trans k key c.key g h)
  ]
]

improve_self :
    (best : Option Candidate) (index : ℕ) (key : Key) → Within key (improve true best index key)
unfolding improve
improve_self none index key = less_irrefl key
improve_self (some c) index key = elim (Bool-cases (less key c.key)) [
  | inl h ↦ simp h (less_irrefl key)
  | inr h ↦ simp h refl
]

improve_origin :
    (b : Bool) (best : Option Candidate) (index : ℕ) (key : Key) (c : Candidate)
    → improve b best index key ≡ some c
    → (best ≡ some c) ⊎ ((b ≡ true) × (c.index ≡ index) × (c.key ≡ key))
unfolding improve
improve_origin false best index key c e = inl e
improve_origin true none index key c e = inr (refl, ground arith, ground arith)
improve_origin true (some d) index key c e = elim (Bool-cases (less key d.key)) [
  | inl h ↦ inr (refl, ground arith, ground arith)
  | inr h ↦ inl (ground arith)
]

-- The candidate stands for entry `i` of the queue, whose task may run.
abbrev pub Stands : Scheduler → List ℕ → ℕ → Key → Type 0
Stands s queue i key =
    (id : ℕ) × (t : Tcb) × (get_elem? queue i ≡ some id)
    × (task s id ≡ some t)
    × (may_run s t.entity ≡ true)
    × (key ≡ policy_key s.policy t.entity id)

nonempty : (queue : List ℕ) (i id : ℕ) → get_elem? queue i ≡ some id → is_empty queue ≡ false
nonempty [] i id e = cc
nonempty (j ∷ rest) i id e = refl

module _ (s : Scheduler) where
  pick_loop_found :
      (index : ℕ) (best fallback : Option Candidate) (id : ℕ) (rest : List ℕ) (t : Tcb)
      → task s id ≡ some t
      → pick_loop s index best fallback (id ∷ rest)
        ≡ pick_loop s
            (index + 1)
            (improve (may_run s t.entity) best index (policy_key s.policy t.entity id))
            (improve true fallback index (record { time = t.entity.virtual_runtime; id = id }))
            rest
  unfolding pick_loop
  pick_loop_found index best fallback id rest t e = rw (e, pick_loop) refl

  pick_loop_missing :
      (index : ℕ) (best fallback : Option Candidate) (id : ℕ) (rest : List ℕ)
      → task s id ≡ none
      → pick_loop s index best fallback (id ∷ rest) ≡ pick_loop s (index + 1) best fallback rest
  unfolding pick_loop
  pick_loop_missing index best fallback id rest e = rw (e, pick_loop) refl

  -- What was found stays within.
  pick_loop-Within :
      (queue : List ℕ) (index : ℕ) (best fallback : Option Candidate) (k : Key)
      → Within k best
      → Within k (pick_loop s index best fallback queue).0
  unfolding pick_loop
  pick_loop-Within [] index best fallback k w = w
  pick_loop-Within (id ∷ rest) index best fallback k w = elim (Option-cases (task s id)) [
    | inl e ↦
        rw (pick_loop_missing index best fallback id rest e)
          (pick_loop-Within rest (index + 1) best fallback k w)
    | inr (t, e) ↦
        rw (pick_loop_found index best fallback id rest t e)
          (pick_loop-Within rest (index + 1) _ _ k (improve-Within _ best index _ k w))
  ]

  -- No entry that may run has a smaller key than what is found.
  pick_loop_least :
      (queue : List ℕ) (index : ℕ) (best fallback : Option Candidate) (i id : ℕ) (t : Tcb)
      → get_elem? queue i ≡ some id
      → task s id ≡ some t
      → may_run s t.entity ≡ true
      → Within (policy_key s.policy t.entity id) (pick_loop s index best fallback queue).0
  pick_loop_least [] index best fallback i id t at e may = cc
  pick_loop_least (j ∷ rest) index best fallback zero id t at e may =
      let same : j ≡ id = ground arith in
      let here : task s j ≡ some t = ap (task s) same ∙ e in
      let key = policy_key s.policy t.entity in
      rw (pick_loop_found index best fallback j rest t here) (
        pick_loop-Within rest (index + 1) _ _ _ (rw (may, same) (improve_self best index (key id))))
  pick_loop_least (j ∷ rest) index best fallback (suc i) id t at e may =
      elim (Option-cases (task s j)) [
        | inl h ↦
            rw (pick_loop_missing index best fallback j rest h)
              (pick_loop_least rest (index + 1) best fallback i id t at e may)
        | inr (u, h) ↦
            rw (pick_loop_found index best fallback j rest u h)
              (pick_loop_least rest (index + 1) _ _ i id t at e may)
      ]

  -- What is found stands for an entry of the queue, or was there before.
  pick_loop_origin :
      (queue : List ℕ) (index : ℕ) (best fallback : Option Candidate) (c : Candidate)
      → (pick_loop s index best fallback queue).0 ≡ some c
      → (best ≡ some c) ⊎ ((i : ℕ) × (c.index ≡ index + i) × Stands s queue i c.key)
  unfolding pick_loop
  pick_loop_origin [] index best fallback c e = inl e
  pick_loop_origin (j ∷ rest) index best fallback c e = elim (Option-cases (task s j)) [
    | inl h ↦
        elim (pick_loop_origin rest (index + 1) best fallback c
          (ap (λ p. p.0) (sym (pick_loop_missing index best fallback j rest h)) ∙ e)) [
            | inl old ↦ inl old
            | inr (i, at, stands) ↦ inr (suc i, omega arith, stands)
          ]
    | inr (t, h) ↦
        elim (pick_loop_origin rest (index + 1) _ _ c
          (ap (λ p. p.0) (sym (pick_loop_found index best fallback j rest t h)) ∙ e)) [
            | inr (i, at, stands) ↦ inr (suc i, omega arith, stands)
            | inl new ↦ elim (improve_origin (may_run s t.entity) best index _ c new) [
              | inl old ↦ inl old
              | inr (may, at, key) ↦ inr (0, omega arith, (j, t, refl, h, may, key))
            ]
          ]
  ]

  picked :
      (c : Candidate)
      → (pick_loop s 0 none none s.run_queue).0 ≡ some c
      → is_empty s.run_queue ≡ false
      → (pick_next s).0 ≡ get_elem? s.run_queue c.index
  unfolding pick_next take_candidate
  picked c h ne = ground (arith, h, ne)

  -- Where an entry of the run queue may run (under EEVDF: is eligible), `pick_next` returns a task of an
  -- entry that may run, and no entry that may run has a smaller key (under EEVDF: an earlier virtual
  -- deadline, or the same one and a smaller id).
  pub pick_next_least :
      (i id : ℕ) (t : Tcb)
      → get_elem? s.run_queue i ≡ some id
      → task s id ≡ some t
      → may_run s t.entity ≡ true
      → (found : ℕ) × (u : Tcb) × ((pick_next s).0 ≡ some found)
        × (task s found ≡ some u)
        × (may_run s u.entity ≡ true)
        × (less (policy_key s.policy t.entity id) (policy_key s.policy u.entity found) ≡ false)
  pick_next_least i id t at e may =
      let queue = s.run_queue in
      let key = policy_key s.policy t.entity id in
      let within = pick_loop_least queue 0 none none i id t at e may in
      elim (Option-cases (pick_loop s 0 none none queue).0) [
        | inl h ↦ elim (subst (Within key) h within) [ ]
        | inr (c, h) ↦ elim (pick_loop_origin queue 0 none none c h) [
          | inl old ↦ cc
          | inr (k, where_at, (found, u, at_k, e_u, may_u, is_key)) ↦
              let place : c.index ≡ k = omega (arith, where_at) in
              (
                found,
                u,
                picked c h (nonempty queue i id at) ∙ ap (get_elem? queue) place ∙ at_k,
                e_u,
                may_u,
                subst (λ x. less key x ≡ false) is_key (subst (Within key) h within),
              )
        ]
      ]
