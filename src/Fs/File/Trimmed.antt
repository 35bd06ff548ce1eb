-- ===== src/Fs/File/Trimmed.antt =====
-- The vector of a table of file descriptors: at most `max_fds` slots, the last of which holds a file.
use Prim.Native.Nat.{ℕ, zero, suc, ◌+◌, ◌-◌, ◌≤◌, ◌<◌}
use saeos.Prelude.{
  slot, is_none, Option, none, some, List, [], ◌∷◌, ◌++◌, leb, ◌==◌, length, set, replicate,
  position, ◌≡◌, refl, subst, sym, arith, Option-cases, Bool-cases, inl, inr, length-set,
  length-append, length-replicate, append_nil,
}
use saeos.Fs.File.Table.{max_fds, insert, trim, trim_step, remove, dup, resize, dup2}
use saeos.Fs.File.Slots.{length-trim}

module _ {File : Type 0} where
  abbrev pub IsHeld : Option File → Type 0
  IsHeld none = ⊥
  IsHeld (some f) = Unit {0}

  abbrev pub IsTrimmed : List (Option File) → Type 0
  IsTrimmed [] = Unit {0}
  IsTrimmed (s ∷ []) = IsHeld s
  IsTrimmed (s ∷ t ∷ ts) = IsTrimmed (t ∷ ts)

  pub record IsTable (ss : List (Option File)) : Type 0 where
    pub bounded : length ss ≤ max_fds
    pub trimmed : IsTrimmed ss

  trim_step-IsTrimmed :
      (s : Option File) (ts : List (Option File)) → IsTrimmed ts → IsTrimmed (trim_step s ts)
  trim_step-IsTrimmed none [] h = tt
  trim_step-IsTrimmed (some f) [] h = tt
  trim_step-IsTrimmed none (t ∷ ts) h = h
  trim_step-IsTrimmed (some f) (t ∷ ts) h = h

  trim-IsTrimmed : (ss : List (Option File)) → IsTrimmed (trim ss)
  unfolding trim
  trim-IsTrimmed [] = tt
  trim-IsTrimmed (s ∷ ss) = trim_step-IsTrimmed s (trim ss) (trim-IsTrimmed ss)

  append-IsTrimmed : (ss : List (Option File)) (f : File) → IsTrimmed (ss ++ some f ∷ [])
  append-IsTrimmed [] f = tt
  append-IsTrimmed (s ∷ []) f = tt
  append-IsTrimmed (s ∷ t ∷ ts) f = append-IsTrimmed (t ∷ ts) f

  set-IsTrimmed :
      (ss : List (Option File)) (k : ℕ) (f : File) → IsTrimmed ss → IsTrimmed (set ss k (some f))
  set-IsTrimmed [] k f h = tt
  set-IsTrimmed (s ∷ []) zero f h = tt
  set-IsTrimmed (s ∷ []) (suc k) f h = h
  set-IsTrimmed (s ∷ t ∷ ts) zero f h = h
  set-IsTrimmed (s ∷ t ∷ ts) (suc zero) f h = set-IsTrimmed (t ∷ ts) zero f h
  set-IsTrimmed (s ∷ t ∷ ts) (suc (suc k)) f h = set-IsTrimmed (t ∷ ts) (suc k) f h

  set_last-IsTrimmed :
      (ss : List (Option File)) (k : ℕ) (f : File)
      → length ss ≡ suc k
      → IsTrimmed (set ss k (some f))
  set_last-IsTrimmed [] k f e = tt
  set_last-IsTrimmed (s ∷ []) zero f e = tt
  set_last-IsTrimmed (s ∷ []) (suc k) f e = absurd (omega arith)
  set_last-IsTrimmed (s ∷ t ∷ ts) zero f e = absurd (omega arith)
  set_last-IsTrimmed (s ∷ t ∷ ts) (suc zero) f e = set_last-IsTrimmed (t ∷ ts) zero f (omega arith)
  set_last-IsTrimmed (s ∷ t ∷ ts) (suc (suc k)) f e =
      set_last-IsTrimmed (t ∷ ts) (suc k) f (omega arith)

  insert-IsTable : (file : File) (ss : List (Option File)) → IsTable ss → IsTable (insert file ss).1
  unfolding insert
  insert-IsTable file ss t = elim (Option-cases (position is_none ss)) [
    | inr (k, e) ↦
        rw (e, insert)
          record {
            bounded = omega (arith, length-set ss k (some file), t.bounded);
            trimmed = set-IsTrimmed ss k file t.trimmed;
          }
    | inl e ↦
        rw (e, insert)
          elim (Bool-cases (leb max_fds (length ss))) [
            | inl full ↦ simp full t
            | inr room ↦ simp room record {
              bounded = ground (arith, length-append ss (some file ∷ []));
              trimmed = append-IsTrimmed ss file;
            }
          ]
  ]

  pub remove-IsTable : (fd : ℕ) (ss : List (Option File)) → IsTable ss → IsTable (remove fd ss).1
  unfolding remove
  remove-IsTable fd ss t = elim (Option-cases (slot ss fd)) [
    | inl e ↦ rw (e, remove) t
    | inr (file, e) ↦
        rw (e, remove)
          record {
            bounded = omega (arith, length-trim (set ss fd none), length-set ss fd none, t.bounded);
            trimmed = trim-IsTrimmed (set ss fd none);
          }
  ]

  dup-IsTable : (fd : ℕ) (ss : List (Option File)) → IsTable ss → IsTable (dup fd ss).1
  unfolding dup
  dup-IsTable fd ss t = elim (Option-cases (slot ss fd)) [
    | inl e ↦ rw (e, dup) t
    | inr (file, e) ↦ rw (e, dup) (insert-IsTable file ss t)
  ]

  resize-IsTable :
      (ss : List (Option File)) (new : ℕ) (file : File)
      → new < max_fds
      → IsTable ss
      → IsTable (set (resize (new + 1) ss) new (some file))
  resize-IsTable ss new file h t =
      let more : List (Option File) = replicate (new + 1 - length ss) none in
      let long : length (ss ++ more) ≡ length ss + (new + 1 - length ss) = omega (
        arith,
        length-append ss more,
        length-replicate {A = Option File} (new + 1 - length ss) none,
      ) in
      record {
        bounded = omega (arith, length-set (ss ++ more) new (some file), long, t.bounded);
        trimmed = elim (Bool-cases (leb (length ss) new)) [
          | inl past ↦ set_last-IsTrimmed (ss ++ more) new file (ground (arith, long))
          | inr within ↦
              let none_more : new + 1 - length ss ≡ 0 = ground arith in
              subst (λ n. IsTrimmed (set (ss ++ replicate n none) new (some file))) (sym none_more)
                (subst (λ l. IsTrimmed (set l new (some file))) (sym (append_nil ss))
                  (set-IsTrimmed ss new file t.trimmed))
        ];
      }

  dup2-IsTable : (old new : ℕ) (ss : List (Option File)) → IsTable ss → IsTable (dup2 old new ss).1
  unfolding dup2
  dup2-IsTable old new ss t = elim (Option-cases (slot ss old)) [
    | inl e ↦ rw (e, dup2) t
    | inr (file, e) ↦
        rw (e, dup2)
          elim (Bool-cases (old == new)) [
            | inl same ↦ simp same t
            | inr other ↦ elim (Bool-cases (leb max_fds new)) [
              | inl high ↦ simp other (simp high t)
              | inr low ↦ simp other (simp low (resize-IsTable ss new file (ground arith) t))
            ]
          ]
  ]

  -- Every method, whether it succeeds or fails, keeps a table of at most 256 slots whose last holds a file.
  pub methods-IsTable :
      (ss : List (Option File))
      → IsTable ss
      → ((file : File) → IsTable (insert file ss).1)
        × ((fd : ℕ) → IsTable (remove fd ss).1)
        × ((fd : ℕ) → IsTable (dup fd ss).1)
        × ((old new : ℕ) → IsTable (dup2 old new ss).1)
  methods-IsTable ss t = (
    λ file. insert-IsTable file ss t,
    λ fd. remove-IsTable fd ss t,
    λ fd. dup-IsTable fd ss t,
    λ old new. dup2-IsTable old new ss t,
  )

  IsTrimmed-tail : (s : Option File) (ss : List (Option File)) → IsTrimmed (s ∷ ss) → IsTrimmed ss
  IsTrimmed-tail s [] h = tt
  IsTrimmed-tail s (t ∷ ts) h = h

  last_held :
      (s : Option File) (ss : List (Option File))
      → IsTrimmed (s ∷ ss)
      → (j : ℕ) × (f : File) × (slot (s ∷ ss) j ≡ some f)
  last_held none [] h = elim h [ ]
  last_held (some f) [] h = (0, f, refl)
  last_held s (t ∷ ts) h = let (j, f, e) = last_held t ts h in (suc j, f, e)

  -- A trimmed vector is settled by its slots.
  pub IsTrimmed-ext :
      (ss ts : List (Option File))
      → IsTrimmed ss
      → IsTrimmed ts
      → ((j : ℕ) → slot ss j ≡ slot ts j)
      → ss ≡ ts
  IsTrimmed-ext [] [] h k e = refl
  IsTrimmed-ext [] (t ∷ ts) h k e = let (j, f, held) = last_held t ts k in cc (e j)
  IsTrimmed-ext (s ∷ ss) [] h k e = let (j, f, held) = last_held s ss h in cc (e j)
  IsTrimmed-ext (s ∷ ss) (t ∷ ts) h k e =
      cc (e 0, IsTrimmed-ext ss ts (IsTrimmed-tail s ss h) (IsTrimmed-tail t ts k) (λ j. e (suc j)))
