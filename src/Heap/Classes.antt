-- ===== src/Heap/Classes.antt =====
-- Which class of blocks of the heap (src/heap.rs) serves a request.
use titanium.Base.{ℕ, zero, suc, ◌+◌, ◌^◌, ◌≤◌, ◌<◌, ◌≡◌, refl, sym, ◌∙◌, subst, ◌⊎◌, inl, inr}
use titanium.Base.{List, [], ◌∷◌, none, some, arith, get_elem?, length, false, Bool-cases, leb}
use titanium.Base.{leb→le, leb→gt}
use mathlib.Core.Option
use titanium.Heap.Blocks.{Layout, position, block_sizes, block_size, list_index, max}

-- The requested size, alignment included.
abbrev pub request : Layout → ℕ
request l = max l.size l.align

position_lem :
    (req : ℕ) (ss : List ℕ)
    → ((position req ss ≡ none) × ((j x : ℕ) → get_elem? ss j ≡ some x → x < req))
      ⊎ ((i x : ℕ) × (position req ss ≡ some i)
          × (get_elem? ss i ≡ some x)
          × (req ≤ x)
          × ((j y : ℕ) → j < i → get_elem? ss j ≡ some y → y < req))
position_lem req [] = inl (refl, λ j x e. absurd (Option.none-ne-some x e))
position_lem req (s ∷ ss) = elim (Bool-cases (leb req s)) [
  | inl e ↦ inr (0, s, rw e refl, refl, leb→le req s e, λ j y h. absurd (omega arith))
  | inr e ↦ elim (position_lem req ss) [
    | inl (out, all) ↦ inl (rw (e, out) refl, past s ss e all)
    | inr (i, x, out, at, fits, before) ↦
        inr (suc i, x, rw (e, out) refl, at, fits, earlier s ss i e before)
  ]
]
  where
    past :
        (s : ℕ) (ss : List ℕ)
        → leb req s ≡ false
        → ((j x : ℕ) → get_elem? ss j ≡ some x → x < req)
        → (j x : ℕ) → get_elem? (s ∷ ss) j ≡ some x
        → x < req
    past s ss e all zero x at = subst (λ y. y < req) (Option.some-injective s x at) (leb→gt req s e)
    past s ss e all (suc j) x at = all j x at

    earlier :
        (s : ℕ) (ss : List ℕ) (i : ℕ)
        → leb req s ≡ false
        → ((j y : ℕ) → j < i → get_elem? ss j ≡ some y → y < req)
        → (j y : ℕ) → j < suc i
        → get_elem? (s ∷ ss) j ≡ some y
        → y < req
    earlier s ss i e before zero y h at =
        subst (λ y. y < req) (Option.some-injective s y at) (leb→gt req s e)
    earlier s ss i e before (suc j) y h at = before j y (omega arith) at

block_sizes-power : (i : ℕ) → i < 9 → get_elem? block_sizes i ≡ some (2 ^ (i + 3))
block_sizes-power zero h = refl
block_sizes-power (suc zero) h = refl
block_sizes-power (suc (suc zero)) h = refl
block_sizes-power (suc (suc (suc zero))) h = refl
block_sizes-power (suc (suc (suc (suc zero)))) h = refl
block_sizes-power (suc (suc (suc (suc (suc zero))))) h = refl
block_sizes-power (suc (suc (suc (suc (suc (suc zero)))))) h = refl
block_sizes-power (suc (suc (suc (suc (suc (suc (suc zero))))))) h = refl
block_sizes-power (suc (suc (suc (suc (suc (suc (suc (suc zero)))))))) h = refl
block_sizes-power (suc (suc (suc (suc (suc (suc (suc (suc (suc i))))))))) h = absurd (omega arith)

get_elem?-length : (ss : List ℕ) (i x : ℕ) → get_elem? ss i ≡ some x → i < length ss
get_elem?-length [] i x e = absurd (Option.none-ne-some x e)
get_elem?-length (s ∷ ss) zero x e = omega arith
get_elem?-length (s ∷ ss) (suc i) x e = omega (arith, get_elem?-length ss i x e)

-- A request is served by the smallest class of blocks that holds it, and by none where it is larger
-- than 2048.
pub list_index_lem :
    (l : Layout)
    → ((list_index l ≡ none) × (2048 < request l))
      ⊎ ((i : ℕ) × (list_index l ≡ some i)
          × (i < 9)
          × (block_size i ≡ 2 ^ (i + 3))
          × (request l ≤ 2 ^ (i + 3))
          × ((j : ℕ) → j < i → 2 ^ (j + 3) < request l))
unfolding list_index
list_index_lem l = elim (position_lem (request l) block_sizes) [
  | inl (out, all) ↦ inl (out, all 8 2048 refl)
  | inr (i, x, out, at, fits, before) ↦
      let bound : i < 9 = get_elem?-length block_sizes i x at in
      let power = block_sizes-power i bound in
      let value : x ≡ 2 ^ (i + 3) = Option.some-injective x (2 ^ (i + 3)) (sym at ∙ power) in
      inr (
        i,
        out,
        bound,
        rw power refl,
        subst (λ y. request l ≤ y) value fits,
        λ j h. before j (2 ^ (j + 3)) h (block_sizes-power j (omega arith)),
      )
]
