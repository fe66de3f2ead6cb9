-- ===== src/Base/Memory.antt =====
-- Byte buffers: a read or a copy out of range is `none`, and words are built from bytes.
use Prim.Native.Nat.{ℕ, suc, ◌+◌, ◌/◌, ◌%◌, ◌^◌, ◌≤◌}
use mathlib.Core.Path.{◌≡◌, refl, ap}
use mathlib.Core.Bool.{Bool}
use mathlib.Core.List.{List, [], ◌∷◌, ◌++◌}
use mathlib.Core.Option.{Option, none, some}
use native.Mathlib.Omega.{arith}
use ax88179_aroma_driver.Base.Tests.{◌==◌, leb, le→leb, if◌then◌else◌}
use ax88179_aroma_driver.Base.Lists.{
  length, take, drop, length-take, length-drop, length-append, take-append_left, drop-append_left,
}

abbrev pub Bytes : Type 0
Bytes = List ℕ

-- Bit `k` of a word.
abbrev pub bit : ℕ → ℕ → Bool
bit x k = (x / 2 ^ k) % 2 == 1

-- The `n` bytes from offset `i` on; `none` if they do not all lie in the buffer.
unfoldable pub slice : Bytes → ℕ → ℕ → Option Bytes
slice mem i n = if leb (i + n) (length mem) then some (take n (drop i mem)) else none

pub slice-in :
    (mem : Bytes) (i n : ℕ)
    → i + n ≤ length mem
    → (s : Bytes) × (slice mem i n ≡ some s) × (length s ≡ n)
unfolding slice
slice-in mem i n h = (
  take n (drop i mem),
  ground arith,
  omega (arith, length-take n (drop i mem), length-drop i mem),
)

-- A part of a buffer between two others is what a slice at its place gives.
pub slice-append :
    (pre xs post : Bytes) → slice (pre ++ (xs ++ post)) (length pre) (length xs) ≡ some xs
unfolding slice
slice-append pre xs post =
    rw (le→leb (length pre + length xs) (length (pre ++ (xs ++ post))) fits)
      (rw (drop-append_left pre (xs ++ post)) (rw (take-append_left xs post)))
  where
    fits : length pre + length xs ≤ length (pre ++ (xs ++ post))
    fits = omega (arith, length-append pre (xs ++ post), length-append xs post)

-- A transfer into a DMA buffer: it starts at the first byte and never passes the length asked for.
unfoldable pub overwrite : Bytes → Bytes → Bytes
overwrite [] dst = dst
overwrite (b ∷ bs) [] = []
overwrite (b ∷ bs) (_ ∷ dst) = b ∷ overwrite bs dst

pub length-overwrite : (bs dst : Bytes) → length (overwrite bs dst) ≡ length dst
unfolding overwrite
length-overwrite [] dst = refl
length-overwrite (b ∷ bs) [] = refl
length-overwrite (b ∷ bs) (_ ∷ dst) = ap suc (length-overwrite bs dst)
