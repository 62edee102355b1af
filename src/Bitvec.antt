-- ===== src/Bitvec.antt =====
-- What src/paging.rs and src/stack.rs use of the `bitvec` crate: an array of `n` bits with checked
-- reads and writes, the first set bit of a range, and the filling of a range. The crate is not
-- part of the repository, so its documented behaviour is the interface `BitArray`.
use titanium.Base.{ℕ, zero, suc, ◌+◌, ◌-◌, ◌≤◌, ◌<◌, ◌≡◌, refl, Bool, true, false, ◌&&◌}
use titanium.Base.{
  Option, none, some, ltb, leb, ◌==◌, if◌then◌else◌, arith, Bool-cases, ==_iff, subst, sym, inl,
  inr,
}

-- `position` is the place of the first set bit of `bits[start..n]`, counted from `start`.
abbrev pub IsFirstOne : (ℕ → Bool) → ℕ → ℕ → Option ℕ → Type 0
IsFirstOne get start n none = (i : ℕ) → start ≤ i → i < n → get i ≡ false
IsFirstOne get start n (some r) =
    (start + r < n)
    × (get (start + r) ≡ true)
    × ((i : ℕ) → start ≤ i → i < start + r → get i ≡ false)

pub record BitArray (n : ℕ) (B : Type 0) : Type 0 where
  pub get : B → ℕ → Bool
  pub set : B → ℕ → Bool → B
  pub first_one : B → ℕ → Option ℕ
  pub fill : B → ℕ → ℕ → Bool → B
  pub get-set :
      (b : B) (i : ℕ) (x : Bool) (j : ℕ)
      → i < n
      → get (set b i x) j ≡ (if i == j then x else get b j)
  pub first_one_lem :
      (b : B) (start : ℕ) → start ≤ n → IsFirstOne (get b) start n (first_one b start)
  pub get-fill :
      (b : B) (lo hi : ℕ) (x : Bool) (j : ℕ)
      → lo ≤ hi
      → hi ≤ n
      → get (fill b lo hi x) j ≡ (if leb lo j && ltb j hi then x else get b j)

-- Indexing and `set` panic out of bounds.
module _ {n : ℕ} {B : Type 0} (v : BitArray n B) where
  unfoldable pub set_checked : B → ℕ → Bool → Option B
  set_checked b i x = if ltb i n then some (v.set b i x) else none

  unfoldable pub get_checked : B → ℕ → Option Bool
  get_checked b i = if ltb i n then some (v.get b i) else none

  pub set_checked_lem : (b : B) (i : ℕ) (x : Bool) → i < n → set_checked b i x ≡ some (v.set b i x)
  unfolding set_checked
  set_checked_lem b i x h = ground arith

  pub get_checked_lem : (b : B) (i : ℕ) → i < n → get_checked b i ≡ some (v.get b i)
  unfolding get_checked
  get_checked_lem b i h = ground arith

-- Arrays as functions meet the interface.
unfoldable pub search_one : (ℕ → Bool) → ℕ → ℕ → ℕ → Option ℕ
search_one get start zero r = none
search_one get start (suc left) r = elim (get (start + r)) [
  | true ↦ some r
  | false ↦ search_one get start left (r + 1)
]

search_one_miss :
    (get : ℕ → Bool) (start left r : ℕ)
    → get (start + r) ≡ false
    → search_one get start (suc left) r ≡ search_one get start left (r + 1)
unfolding search_one
search_one_miss get start left r miss = ground arith

pub search_one_lem :
    (get : ℕ → Bool) (start n left r : ℕ)
    → start + r + left ≡ n
    → ((i : ℕ) → start ≤ i → i < start + r → get i ≡ false)
    → IsFirstOne get start n (search_one get start left r)
unfolding search_one
search_one_lem get start n zero r e before = λ i p q. before i p (omega arith)
search_one_lem get start n (suc left) r e before = elim (Bool-cases (get (start + r))) [
  | inl hit ↦ rw (hit, search_one) (omega arith, hit, before)
  | inr miss ↦
      let rest = search_one_lem get start n left (r + 1) (omega arith) (λ i p q.
        elim (Bool-cases (i == start + r)) [
          | inl same ↦ rw ((==_iff i (start + r)).0 same) miss
          | inr other ↦ before i p (ground arith)
        ]) in
      subst (IsFirstOne get start n) (sym (search_one_miss get start left r miss)) rest
]

unfoldable pub bit_function : (n : ℕ) → BitArray n (ℕ → Bool)
unfolding search_one
bit_function n = record {
  get = λ b i. b i;
  set = λ b i x j. if i == j then x else b j;
  first_one = λ b start. search_one b start (n - start) 0;
  fill = λ b lo hi x j. if leb lo j && ltb j hi then x else b j;
  get-set = λ b i x j h. refl;
  first_one_lem = λ b start h.
      search_one_lem b start n (n - start) 0 (omega arith) (λ i p q. absurd (omega arith));
  get-fill = λ b lo hi x j p q. refl;
}
