-- ===== src/Task/Entity.antt =====
-- kernel/src/task/entity.rs: the EEVDF state of a task. `i128` virtual time is an unbounded integer.
use Prim.Native.Nat.{ℕ, ◌*◌, ◌/◌, max}
use saeos.Prelude.{Bool, true, false, List, [], ◌∷◌, if◌then◌else◌, get_or}
use saeos.Prelude.Words.{saturating_add}
use saeos.Prelude.Int.{ℤ, pos, negsuc, ◌+ℤ◌, ◌-ℤ◌, leb_ℤ, clamp_ℤ, pos_part}

abbrev pub nice_0_weight : ℕ
nice_0_weight = 1024

abbrev pub base_slice_ns : ℕ
base_slice_ns = 3_000_000

abbrev pub lag_limit : ℕ
lag_limit = 6_000_000

abbrev pub min_nice : ℤ
min_nice = negsuc 19

abbrev pub max_nice : ℤ
max_nice = pos 19

pub record EevdfEntity : Type 0 where
  pub virtual_runtime : ℤ
  pub virtual_deadline : ℤ
  pub weight : ℕ
  pub nice : ℤ
  pub exec_runtime : ℕ
  pub lag : ℤ
  pub enqueue_time : ℕ

-- `EevdfEntity::default`.
abbrev pub default_entity : EevdfEntity
default_entity = record {
  virtual_runtime = pos 0;
  virtual_deadline = pos 0;
  weight = nice_0_weight;
  nice = pos 0;
  exec_runtime = 0;
  lag = pos 0;
  enqueue_time = 0;
}

abbrev pub nice_weights : List ℕ
nice_weights =
    88761 ∷ 71755 ∷ 56483 ∷ 46273 ∷ 36291 ∷ 29154 ∷ 23254 ∷ 18705 ∷ 14949 ∷ 11916 ∷ 9548 ∷ 7620
    ∷ 6100 ∷ 4904 ∷ 3906 ∷ 3121 ∷ 2501 ∷ 1991 ∷ 1586 ∷ 1277 ∷ 1024 ∷ 820 ∷ 655 ∷ 526 ∷ 423 ∷ 335
    ∷ 272 ∷ 215 ∷ 172 ∷ 137 ∷ 110 ∷ 87 ∷ 70 ∷ 56 ∷ 45 ∷ 36 ∷ 29 ∷ 23 ∷ 18 ∷ 15 ∷ []

-- The index is within the table, which has an entry for every nice value.
unfoldable pub nice_to_weight : ℤ → ℕ
unfolding ◌-ℤ◌
nice_to_weight nice = get_or nice_weights (pos_part (clamp_ℤ nice min_nice max_nice -ℤ min_nice)) 0

unfoldable pub weighted_slice : EevdfEntity → ℕ
weighted_slice e = base_slice_ns * nice_0_weight / max e.weight 1

unfoldable pub virtual_delta : EevdfEntity → ℕ → ℕ
virtual_delta e ran = ran * nice_0_weight / max e.weight 1

-- `EevdfEntity::account`: the entity, and whether the request completed.
unfoldable pub account : EevdfEntity → ℕ → EevdfEntity × Bool
account e ran =
    let charged : EevdfEntity = record e {
      exec_runtime = saturating_add e.exec_runtime ran;
      virtual_runtime = e.virtual_runtime +ℤ pos (virtual_delta e ran);
    } in
    if leb_ℤ charged.virtual_deadline charged.virtual_runtime
    then (
      record charged { virtual_deadline = charged.virtual_runtime +ℤ pos (weighted_slice e) },
      true,
    )
    else (charged, false)

abbrev pub is_eligible : EevdfEntity → ℤ → Bool
is_eligible e average = leb_ℤ e.virtual_runtime average
