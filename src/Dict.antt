-- ===== src/Dict.antt =====
-- Python's `dict`: an association list in insertion order, over keys with a Boolean equality.
use mirror_mirage.Prelude.{
  ◌≡◌, refl, ◌↔◌, Bool, true, false, ◌∙◌, Option, none, some, List, [], ◌∷◌, arith, if◌then◌else◌,
}

-- `k1 == k2` on a type of keys.
pub record Eq (K : Type 0) : Type 0 where
  pub beq : K → K → Bool
  pub beq_iff : (a b : K) → (beq a b ≡ true) ↔ (a ≡ b)

abbrev pub Dict : Type 0 → Type 0 → Type 0
Dict K V = List (K × V)

-- list(d)
abbrev pub keys : {K V : Type 0} → Dict K V → List K
keys [] = []
keys ((k, _) ∷ d) = k ∷ keys d

module _ {K V : Type 0} ⦃e : Eq K⦄ where
  -- d.get(k)
  unfoldable pub get : K → Dict K V → Option V
  get k [] = none
  get k ((j, v) ∷ d) = if e.beq j k then some v else get k d

  -- d[k] = v
  unfoldable pub put : K → V → Dict K V → Dict K V
  put k v [] = (k, v) ∷ []
  put k v ((j, w) ∷ d) = if e.beq j k then (j, v) ∷ d else (j, w) ∷ put k v d

  -- d.pop(k, None)
  unfoldable pub pop : K → Dict K V → Dict K V
  pop k [] = []
  pop k ((j, v) ∷ d) = if e.beq j k then pop k d else (j, v) ∷ pop k d

  pub get-put :
      (k j : K) (v : V) (d : Dict K V) → get j (put k v d) ≡ (if e.beq k j then some v else get j d)
  unfolding get put
  get-put k j v [] = refl
  get-put k j v ((i, w) ∷ d) =
      ground (arith, e.beq_iff k j, e.beq_iff i k, e.beq_iff i j, get-put k j v d)

  pub get-pop : (k j : K) (d : Dict K V) → get j (pop k d) ≡ (if e.beq k j then none else get j d)
  unfolding get pop
  get-pop k j [] = ground arith
  get-pop k j ((i, w) ∷ d) =
      ground (arith, e.beq_iff k j, e.beq_iff i k, e.beq_iff i j, get-pop k j d)

module _ {K : Type 0} ⦃e : Eq K⦄ where
  pub beq_refl : (k : K) → e.beq k k ≡ true
  beq_refl k = (e.beq_iff k k).1 refl

module _ {K V : Type 0} ⦃e : Eq K⦄ where
  pub get-put_self : (k : K) (v : V) (d : Dict K V) → get k (put k v d) ≡ some v
  get-put_self k v d = get-put k k v d ∙ rw (beq_refl k)

  pub get-put_ne :
      (k j : K) (v : V) (d : Dict K V) → e.beq k j ≡ false → get j (put k v d) ≡ get j d
  get-put_ne k j v d h = get-put k j v d ∙ rw h

  pub get-pop_self : (k : K) (d : Dict K V) → get k (pop k d) ≡ none
  get-pop_self k d = get-pop k k d ∙ rw (beq_refl k)

  pub get-pop_ne : (k j : K) (d : Dict K V) → e.beq k j ≡ false → get j (pop k d) ≡ get j d
  get-pop_ne k j d h = get-pop k j d ∙ rw h
