-- ===== src/Klog/Tests.antt =====
-- A log ring of eight bytes.
use Prim.Native.Nat.{ℕ}
use saeos.Prelude.{true, List, [], ◌∷◌, ◌≡◌, refl, arith}
use saeos.Klog.Ring.{Ring, new, push, store, as_slices, contains, matches_at, search_from}
use saeos.Klog.Contents.{contents, last}
use saeos.Klog.Last.{push_all, written, contents-push_all}

-- "abcdef" and "ghij".
abbrev texts : List (List ℕ)
texts = (b'a' ∷ b'b' ∷ b'c' ∷ b'd' ∷ b'e' ∷ b'f' ∷ []) ∷ (b'g' ∷ b'h' ∷ b'i' ∷ b'j' ∷ []) ∷ []

contents-push_all_example : contents 8 (push_all 8 texts (new 8)) ≡ last 8 (written texts)
contents-push_all_example = contents-push_all 8 texts (omega arith)

slices :
    as_slices 8 (push_all 8 texts (new 8))
    ≡ (b'c' ∷ b'd' ∷ b'e' ∷ b'f' ∷ b'g' ∷ b'h' ∷ [], b'i' ∷ b'j' ∷ [])
unfolding push_all push store as_slices
slices = refl

-- The ring that holds them: "ij" overwrote "ab".
abbrev wrapped : Ring
wrapped = record {
  bytes = b'i' ∷ b'j' ∷ b'c' ∷ b'd' ∷ b'e' ∷ b'f' ∷ b'g' ∷ b'h' ∷ [];
  head = 2;
  len = 8;
}

found : contains 8 (b'h' ∷ b'i' ∷ []) wrapped ≡ true
unfolding contains as_slices matches_at search_from
found = refl
