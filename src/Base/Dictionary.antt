-- ===== src/Base/Dictionary.antt =====
-- `std::unordered_map` as an association list: the list's order is the order of iteration, which
-- the standard leaves open.
use Prim.Native.Nat.{ℕ}
use mathlib.Core.Path.{◌≡◌, refl, ap, ◌∙◌}
use mathlib.Core.Logic.{inl, inr}
use mathlib.Core.Bool.{Bool, true, false}
use mathlib.Core.Option.{Option, none, some}
use mathlib.Core.List.{List, [], ◌∷◌}
use native.Mathlib.Omega.{arith}
use pico_radio.Base.Tests.{Bool-cases, if◌then◌else◌, ◌==◌}
use pico_radio.Base.Strings.{same, same_eq, same_refl}

-- Keys with an equality that can be computed.
pub record Key (K : Type 0) : Type 0 where
  pub beq : K → K → Bool
  pub beq_refl : (k : K) → beq k k ≡ true
  pub beq_eq : (j k : K) → beq j k ≡ true → j ≡ k

pub number_refl : (a : ℕ) → (a == a) ≡ true
number_refl a = ground arith

pub number_eq : (a b : ℕ) → (a == b) ≡ true → a ≡ b
number_eq a b e = ground (arith, e)

instance abbrev pub number_key : Key ℕ
number_key = record { beq = λ a b. a == b; beq_refl = number_refl; beq_eq = number_eq }

instance abbrev pub text_key : Key (List ℕ)
text_key = record { beq = same; beq_refl = same_refl; beq_eq = same_eq }

abbrev pub Dict : Type 0 → Type 0 → Type 0
Dict K V = List (K × V)

module _ {K V : Type 0} ⦃e : Key K⦄ where
  unfoldable pub get : K → Dict K V → Option V
  get k [] = none
  get k ((j, v) ∷ m) = if e.beq j k then some v else get k m

  unfoldable pub put : K → V → Dict K V → Dict K V
  put k v [] = (k, v) ∷ []
  put k v ((j, w) ∷ m) = if e.beq j k then (j, v) ∷ m else (j, w) ∷ put k v m

  unfoldable pub erase : K → Dict K V → Dict K V
  erase k [] = []
  erase k ((j, w) ∷ m) = if e.beq j k then erase k m else (j, w) ∷ erase k m

  unfoldable pub contains : K → Dict K V → Bool
  unfolding get
  contains k m = elim (get k m) [ none ↦ false | some v ↦ true ]

  pub get-put : (k : K) (v : V) (m : Dict K V) → get k (put k v m) ≡ some v
  unfolding get put
  get-put k v [] = rw (e.beq_refl k)
  get-put k v ((j, w) ∷ m) = elim (Bool-cases (e.beq j k)) [
    | inl here ↦ rw (here, here)
    | inr there ↦ rw (there, there) (get-put k v m)
  ]

  pub get-erase : (k : K) (m : Dict K V) → get k (erase k m) ≡ none
  unfolding get erase
  get-erase k [] = refl
  get-erase k ((j, w) ∷ m) = elim (Bool-cases (e.beq j k)) [
    | inl here ↦ rw here (get-erase k m)
    | inr there ↦ rw (there, there) (get-erase k m)
  ]

  -- Another key is not touched.
  pub get-erase_other : (j k : K) (m : Dict K V) → e.beq j k ≡ false → get k (erase j m) ≡ get k m
  unfolding get erase
  get-erase_other j k [] differ = refl
  get-erase_other j k ((i, w) ∷ m) differ = elim (Bool-cases (e.beq i j)) [
    | inl here ↦
        let other : e.beq i k ≡ false = ap (λ a. e.beq a k) (e.beq_eq i j here) ∙ differ in
        rw (here, other) (get-erase_other j k m differ)
    | inr there ↦ elim (Bool-cases (e.beq i k)) [
      | inl found ↦ rw (there, found)
      | inr on ↦ rw (there, on) (get-erase_other j k m differ)
    ]
  ]

  pub get-put_other :
      (j k : K) (v : V) (m : Dict K V) → e.beq j k ≡ false → get k (put j v m) ≡ get k m
  unfolding get put
  get-put_other j k v [] differ = rw differ
  get-put_other j k v ((i, w) ∷ m) differ = elim (Bool-cases (e.beq i j)) [
    | inl here ↦
        let other : e.beq i k ≡ false = ap (λ a. e.beq a k) (e.beq_eq i j here) ∙ differ in
        rw (here, other)
    | inr there ↦ elim (Bool-cases (e.beq i k)) [
      | inl found ↦ rw (there, found)
      | inr on ↦ rw (there, on) (get-put_other j k v m differ)
    ]
  ]
