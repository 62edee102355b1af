-- ===== src/Cpu/Words.antt =====
-- The stack: 64-bit words in memory, growing down from `rsp`.
use titanium.Base.{ℕ, ◌+◌, ◌-◌, ◌*◌, ◌≤◌, ◌<◌, ◌≡◌, refl, subst, arith, List, [], ◌∷◌}
use titanium.Base.{◌==◌, if◌then◌else◌, length, ◌⊎◌, ◌∙◌}

pub record Stack : Type 0 where
  pub rsp : ℕ
  pub mem : ℕ → ℕ

unfoldable pub pushed : ℕ → Stack → Stack
pushed x s = record { rsp = s.rsp - 8; mem = λ a. if a == s.rsp - 8 then x else s.mem a }

abbrev pub top : Stack → ℕ
top s = s.mem s.rsp

abbrev pub popped : Stack → Stack
popped s = record s { rsp = s.rsp + 8 }

-- The words from an address up are those of the list.
abbrev pub WordsAt : (ℕ → ℕ) → ℕ → List ℕ → Type 0
WordsAt mem a [] = Unit {0}
WordsAt mem a (x ∷ xs) = (mem a ≡ x) × WordsAt mem (a + 8) xs

-- The words from the top of the stack down.
abbrev pub Holds : Stack → List ℕ → Type 0
Holds s xs = WordsAt s.mem s.rsp xs

WordsAt-store :
    (mem : ℕ → ℕ) (a b x : ℕ) (xs : List ℕ)
    → b < a
    → WordsAt mem a xs
    → WordsAt (λ d. if d == b then x else mem d) a xs
WordsAt-store mem a b x [] h w = tt
WordsAt-store mem a b x (y ∷ ys) h w =
    (ground (arith, w.0), WordsAt-store mem (a + 8) b x ys (omega arith) w.1)

-- A push on a stack with room below.
pub Holds-pushed :
    (x : ℕ) (s : Stack) (xs : List ℕ) → 8 ≤ s.rsp → Holds s xs → Holds (pushed x s) (x ∷ xs)
unfolding pushed
Holds-pushed x s xs room w =
    let back : s.rsp ≡ s.rsp - 8 + 8 = omega arith in
    (
      ground arith,
      subst (λ a. WordsAt (λ d. if d == s.rsp - 8 then x else s.mem d) a xs) back
          (WordsAt-store s.mem s.rsp (s.rsp - 8) x xs (omega arith) w),
    )

pub rsp-pushed : (x : ℕ) (s : Stack) → (pushed x s).rsp ≡ s.rsp - 8
unfolding pushed
rsp-pushed x s = refl

-- A list of words pushed one after the other.
abbrev pub pushed_all : List ℕ → Stack → Stack
pushed_all [] s = s
pushed_all (x ∷ xs) s = pushed_all xs (pushed x s)

abbrev pub onto : List ℕ → List ℕ → List ℕ
onto [] ys = ys
onto (x ∷ xs) ys = onto xs (x ∷ ys)

pub Holds-pushed_all :
    (xs : List ℕ) (s : Stack) (ys : List ℕ)
    → 8 * length xs ≤ s.rsp
    → Holds s ys
    → Holds (pushed_all xs s) (onto xs ys)
Holds-pushed_all [] s ys room w = w
Holds-pushed_all (x ∷ xs) s ys room w =
    Holds-pushed_all xs (pushed x s) (x ∷ ys) (omega (arith, rsp-pushed x s))
      (Holds-pushed x s ys (omega arith) w)

-- A word that lies beside the bytes from one address to another.
abbrev pub Beside : ℕ → ℕ → ℕ → Type 0
Beside lo hi a = (a + 8 ≤ lo) ⊎ (hi ≤ a)

pub WordsAt-store-Beside :
    (mem : ℕ → ℕ) (lo hi a b x : ℕ) (xs : List ℕ)
    → Beside lo hi b
    → lo ≤ a
    → a + 8 * length xs ≤ hi
    → WordsAt mem a xs
    → WordsAt (λ d. if d == b then x else mem d) a xs
WordsAt-store-Beside mem lo hi a b x [] beside low high w = tt
WordsAt-store-Beside mem lo hi a b x (y ∷ ys) beside low high w = (
  ground (arith, w.0),
  WordsAt-store-Beside mem lo hi (a + 8) b x ys beside (omega arith) (omega arith) w.1,
)

-- A word beside the stack's next words is not written by pushing them.
pub mem-pushed_all :
    (xs : List ℕ) (s : Stack) (lo hi a : ℕ)
    → Beside lo hi a
    → s.rsp ≤ hi
    → lo + 8 * length xs ≤ s.rsp
    → (pushed_all xs s).mem a ≡ s.mem a
unfolding pushed
mem-pushed_all [] s lo hi a beside high low = refl
mem-pushed_all (x ∷ xs) s lo hi a beside high low =
    mem-pushed_all xs (pushed x s) lo hi a beside (omega arith) (omega arith) ∙ ground arith
