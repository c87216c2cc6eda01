-- ===== src/Map/Entries/Assoc.antt =====
-- Association lists in strictly rising key order: the plain description of a map.
use Prim.Native.Nat.Ordering.{lt, eq, gt}
use sprout_lang.Prelude.{ℕ, Option, none, some, List, [], ◌∷◌, ◌++◌, ◌≡◌, refl, arith}
use sprout_lang.Map.KeyOrder.{Strcmp, ◌≺◌}

module _ {ℓ} {K : Type ℓ} where
  abbrev pub AllKeys {κ} : (K → Type κ) → List (K × ℕ) → Type κ
  AllKeys P [] = Unit
  AllKeys P ((k, v) ∷ m) = P k × AllKeys P m

  pub AllKeys-imp {κ} :
      {P Q : K → Type κ} → ((k : K) → P k → Q k) → (m : List (K × ℕ)) → AllKeys P m → AllKeys Q m
  AllKeys-imp f [] a = tt
  AllKeys-imp f ((k, v) ∷ m) (p, a) = (f k p, AllKeys-imp f m a)

  pub AllKeys-append_left {κ} :
      (P : K → Type κ) (m n : List (K × ℕ)) → AllKeys P (m ++ n) → AllKeys P m
  AllKeys-append_left P [] n a = tt
  AllKeys-append_left P ((k, v) ∷ m) n (p, a) = (p, AllKeys-append_left P m n a)

  pub AllKeys-append_right {κ} :
      (P : K → Type κ) (m n : List (K × ℕ)) → AllKeys P (m ++ n) → AllKeys P n
  AllKeys-append_right P [] n a = a
  AllKeys-append_right P ((k, v) ∷ m) n (p, a) = AllKeys-append_right P m n a

module _ {ℓ} {K : Type ℓ} ⦃o : Strcmp K⦄ where
  abbrev pub Above : K → List (K × ℕ) → Type 0
  Above k = AllKeys (λ j. k ≺ j)

  abbrev pub Below : K → List (K × ℕ) → Type 0
  Below k = AllKeys (λ j. j ≺ k)

  abbrev pub IsSorted : List (K × ℕ) → Type 0
  IsSorted [] = Unit
  IsSorted ((k, v) ∷ m) = Above k m × IsSorted m

  unfoldable pub find_entry : K → List (K × ℕ) → Option ℕ
  find_entry key [] = none
  find_entry key ((k, v) ∷ m) = elim (o.strcmp key k) [
    | eq ↦ some v
    | lt ↦ none
    | gt ↦ find_entry key m
  ]

  unfoldable pub put_entry : K → ℕ → List (K × ℕ) → List (K × ℕ)
  put_entry key w [] = (key, w) ∷ []
  put_entry key w ((k, v) ∷ m) = elim (o.strcmp key k) [
    | eq ↦ (k, w) ∷ m
    | lt ↦ (key, w) ∷ (k, v) ∷ m
    | gt ↦ (k, v) ∷ put_entry key w m
  ]

  unfoldable pub drop_entry : K → List (K × ℕ) → List (K × ℕ)
  drop_entry key [] = []
  drop_entry key ((k, v) ∷ m) = elim (o.strcmp key k) [
    | eq ↦ m
    | lt ↦ (k, v) ∷ m
    | gt ↦ (k, v) ∷ drop_entry key m
  ]

  AllKeys-put_entry :
      (P : K → Type 0) (key : K) (w : ℕ) (m : List (K × ℕ))
      → P key
      → AllKeys P m
      → AllKeys P (put_entry key w m)
  unfolding put_entry
  AllKeys-put_entry P key w [] p a = (p, tt)
  AllKeys-put_entry P key w ((k, v) ∷ m) p a = ground (arith, AllKeys-put_entry P key w m)

  AllKeys-drop_entry :
      (P : K → Type 0) (key : K) (m : List (K × ℕ)) → AllKeys P m → AllKeys P (drop_entry key m)
  unfolding drop_entry
  AllKeys-drop_entry P key [] a = tt
  AllKeys-drop_entry P key ((k, v) ∷ m) a = ground (arith, AllKeys-drop_entry P key m)

  pub Above-trans : (j k : K) (m : List (K × ℕ)) → j ≺ k → Above k m → Above j m
  Above-trans j k m h = AllKeys-imp (λ x. o.lt_trans j k x h) m

  pub put_entry-IsSorted :
      (key : K) (w : ℕ) (m : List (K × ℕ)) → IsSorted m → IsSorted (put_entry key w m)
  unfolding put_entry
  put_entry-IsSorted key w [] s = (tt, tt)
  put_entry-IsSorted key w ((k, v) ∷ m) s = ground (
    arith,
    put_entry-IsSorted key w m s.1,
    AllKeys-put_entry (λ j. k ≺ j) key w m,
    o.lt_of_gt key k,
    Above-trans key k m,
  )

  pub drop_entry-IsSorted : (key : K) (m : List (K × ℕ)) → IsSorted m → IsSorted (drop_entry key m)
  unfolding drop_entry
  drop_entry-IsSorted key [] s = tt
  drop_entry-IsSorted key ((k, v) ∷ m) s =
      ground (arith, drop_entry-IsSorted key m s.1, AllKeys-drop_entry (λ j. k ≺ j) key m)

  -- A list whose keys are all above `key` does not hold it.
  pub find_entry-Above : (key : K) (m : List (K × ℕ)) → Above key m → find_entry key m ≡ none
  unfolding find_entry
  find_entry-Above key [] a = refl
  find_entry-Above key ((k, v) ∷ m) a = ground arith

  -- One key changes, the others keep their value.
  pub find_entry-put_entry :
      (key q : K) (w : ℕ) (m : List (K × ℕ))
      → find_entry q (put_entry key w m)
        ≡ (elim (o.strcmp q key) [ eq ↦ some w | _ ↦ find_entry q m ])
  unfolding find_entry put_entry
  find_entry-put_entry key q w [] = ground arith
  find_entry-put_entry key q w ((k, v) ∷ m) = ground (
    arith,
    find_entry-put_entry key q w m,
    o.eq_of_strcmp key k,
    o.eq_of_strcmp q k,
    o.eq_of_strcmp q key,
    o.strcmp_refl key,
    o.gt_of_lt key k,
    o.lt_of_gt key k,
    o.lt_of_gt q k,
    o.gt_of_lt k q,
    o.lt_trans q key k,
    o.lt_trans key k q,
    o.gt_of_lt key q,
  )

  pub find_entry-drop_entry :
      (key q : K) (m : List (K × ℕ))
      → IsSorted m
      → find_entry q (drop_entry key m) ≡ (elim (o.strcmp q key) [ eq ↦ none | _ ↦ find_entry q m ])
  unfolding find_entry drop_entry
  find_entry-drop_entry key q [] s = ground arith
  find_entry-drop_entry key q ((k, v) ∷ m) s = ground (
    arith,
    find_entry-drop_entry key q m s.1,
    find_entry-Above q m,
    Above-trans q k m,
    o.eq_of_strcmp key k,
    o.eq_of_strcmp q k,
    o.eq_of_strcmp q key,
    o.strcmp_refl key,
    o.gt_of_lt key k,
    o.lt_of_gt key k,
    o.lt_of_gt q k,
    o.lt_trans q key k,
    o.lt_trans key k q,
    o.gt_of_lt key q,
  )
