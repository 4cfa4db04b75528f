-- ===== src/Tests/Strings.antt =====
-- Runs of the string functions and the stack on concrete buffers, and the theorems there.
use ech_os.Base.{ℕ, List, [], ◌∷◌, ok, fault, ◌≡◌, ◌≢◌, refl, arith, zero, suc, ◌<◌}
use ech_os.Strings.{strcpy, memcmp, strcmp, less, Stack64}
use ech_os.Strings.{stack64_push, stack64_pop}
use ech_os.Strings.Laws.{IsString, byte}
use ech_os.Strings.Laws.{Comparison, memcmp_lem, stack64_pop-stack64_push}

-- "os" and what follows it in its buffer.
abbrev pub name : List ℕ
name = 111 ∷ 115 ∷ 0 ∷ 77 ∷ []

abbrev buffer : List ℕ
buffer = 1 ∷ 2 ∷ 3 ∷ 4 ∷ 5 ∷ []

pub name-IsString : IsString name 2
name-IsString = record { inside = omega arith; stops = refl; before = λ i h. before i h }
  where
    before : (i : ℕ) → i < 2 → byte name i ≢ 0
    before zero h = omega arith
    before (suc zero) h = omega arith
    before (suc (suc i)) h = absurd (omega arith)

copied : strcpy buffer name ≡ ok (111 ∷ 115 ∷ 0 ∷ 4 ∷ 5 ∷ [])
unfolding strcpy
copied = refl

too_small : strcpy (1 ∷ []) name ≡ fault
unfolding strcpy
too_small = refl

smaller : strcmp name (111 ∷ 116 ∷ 0 ∷ []) ≡ ok less
unfolding strcmp
smaller = refl

compare_example : Comparison name buffer 0 4 (memcmp name buffer 4)
compare_example = memcmp_lem name buffer 4 (omega arith) (omega arith)

abbrev stack : Stack64
stack = record { stack = 5 ∷ 6 ∷ 0 ∷ []; size = 3; sp = 2 }

stack_example :
    (pushed popped : Stack64) × (stack64_push stack 9 ≡ ok pushed)
    × (stack64_pop pushed ≡ ok (9, popped))
    × (popped.sp ≡ 2)
    × (popped.size ≡ 3)
    × ((i : ℕ) → i < 2 → byte popped.stack i ≡ byte stack.stack i)
stack_example = stack64_pop-stack64_push stack 9 (omega arith) (omega arith)
