-- ===== src/Prelude/Lists.antt =====
-- Lists measured and indexed by native numbers, under the library's names.
use Prim.Native.Nat.{ℕ, zero, suc, ◌+◌, ◌<◌, ◌≤◌, min}
use mathlib.Core.Path.{◌≡◌, refl, ap}
use mathlib.Core.Logic.{◌≢◌}
use mathlib.Core.List.{List, [], ◌∷◌, ◌++◌}
use mathlib.Core.Option.{Option, none, some}
use native.Mathlib.Omega.{arith}

module _ {ℓ} {A : Type ℓ} where
  abbrev pub length : List A → ℕ
  length [] = 0
  length (x ∷ xs) = suc (length xs)

  abbrev pub get_elem? : List A → ℕ → Option A
  get_elem? [] i = none
  get_elem? (x ∷ xs) zero = some x
  get_elem? (x ∷ xs) (suc i) = get_elem? xs i

  abbrev pub get_or : List A → ℕ → A → A
  get_or [] i d = d
  get_or (x ∷ xs) zero d = x
  get_or (x ∷ xs) (suc i) d = get_or xs i d

  -- A write out of bounds changes nothing.
  abbrev pub set : List A → ℕ → A → List A
  set [] i v = []
  set (x ∷ xs) zero v = v ∷ xs
  set (x ∷ xs) (suc i) v = x ∷ set xs i v

  abbrev pub take : ℕ → List A → List A
  take zero xs = []
  take (suc n) [] = []
  take (suc n) (x ∷ xs) = x ∷ take n xs

  abbrev pub drop : ℕ → List A → List A
  drop zero xs = xs
  drop (suc n) [] = []
  drop (suc n) (x ∷ xs) = drop n xs

  abbrev pub replicate : ℕ → A → List A
  replicate zero a = []
  replicate (suc n) a = a ∷ replicate n a

  pub length-append : (xs ys : List A) → length (xs ++ ys) ≡ length xs + length ys
  length-append [] ys = omega arith
  length-append (x ∷ xs) ys = omega (arith, length-append xs ys)

  pub length-set : (xs : List A) (i : ℕ) (v : A) → length (set xs i v) ≡ length xs
  length-set [] i v = refl
  length-set (x ∷ xs) zero v = refl
  length-set (x ∷ xs) (suc i) v = ap suc (length-set xs i v)

  pub length-take : (n : ℕ) (xs : List A) → length (take n xs) ≡ min n (length xs)
  length-take zero xs = omega arith
  length-take (suc n) [] = omega arith
  length-take (suc n) (x ∷ xs) = omega (arith, length-take n xs)

  pub length-replicate : (n : ℕ) (a : A) → length (replicate n a) ≡ n
  length-replicate zero a = refl
  length-replicate (suc n) a = ap suc (length-replicate n a)

  pub get_or-set_self :
      (xs : List A) (i : ℕ) (v d : A) → i < length xs → get_or (set xs i v) i d ≡ v
  get_or-set_self [] i v d h = elim h [ ]
  get_or-set_self (x ∷ xs) zero v d h = refl
  get_or-set_self (x ∷ xs) (suc i) v d h = get_or-set_self xs i v d (omega arith)

  pub get_or-set_ne :
      (xs : List A) (i j : ℕ) (v d : A) → i ≢ j → get_or (set xs i v) j d ≡ get_or xs j d
  get_or-set_ne [] i j v d h = refl
  get_or-set_ne (x ∷ xs) zero zero v d h = absurd (h refl)
  get_or-set_ne (x ∷ xs) zero (suc j) v d h = refl
  get_or-set_ne (x ∷ xs) (suc i) zero v d h = refl
  get_or-set_ne (x ∷ xs) (suc i) (suc j) v d h = get_or-set_ne xs i j v d (λ e. h (ap suc e))

  pub get_or-take :
      (n : ℕ) (xs : List A) (i : ℕ) (d : A) → i < n → get_or (take n xs) i d ≡ get_or xs i d
  get_or-take zero xs i d h = elim h [ ]
  get_or-take (suc n) [] i d h = refl
  get_or-take (suc n) (x ∷ xs) zero d h = refl
  get_or-take (suc n) (x ∷ xs) (suc i) d h = get_or-take n xs i d (omega arith)

  pub get_elem?-append_left :
      (xs ys : List A) (i : ℕ) → i < length xs → get_elem? (xs ++ ys) i ≡ get_elem? xs i
  get_elem?-append_left [] ys i h = elim h [ ]
  get_elem?-append_left (x ∷ xs) ys zero h = refl
  get_elem?-append_left (x ∷ xs) ys (suc i) h = get_elem?-append_left xs ys i (omega arith)

  pub get_elem?-append_last :
      (xs : List A) (y : A) → get_elem? (xs ++ (y ∷ [])) (length xs) ≡ some y
  get_elem?-append_last [] y = refl
  get_elem?-append_last (x ∷ xs) y = get_elem?-append_last xs y

  pub take-ge : (xs : List A) (n : ℕ) → length xs ≤ n → take n xs ≡ xs
  take-ge [] zero h = refl
  take-ge [] (suc n) h = refl
  take-ge (x ∷ xs) zero h = elim h [ ]
  take-ge (x ∷ xs) (suc n) h = rw (take-ge xs n (omega arith)) refl

  pub get_elem?-lt : (xs : List A) (i : ℕ) (a : A) → get_elem? xs i ≡ some a → i < length xs
  get_elem?-lt [] i a h = absurd (cc)
  get_elem?-lt (x ∷ xs) zero a h = omega arith
  get_elem?-lt (x ∷ xs) (suc i) a h = omega (arith, get_elem?-lt xs i a h)

  pub take-append : (n : ℕ) (xs ys : List A) → n ≤ length xs → take n (xs ++ ys) ≡ take n xs
  take-append zero xs ys h = refl
  take-append (suc n) [] ys h = elim h [ ]
  take-append (suc n) (x ∷ xs) ys h = rw (take-append n xs ys (omega arith)) refl

  pub take-append_all : (xs ys : List A) → take (length xs) (xs ++ ys) ≡ xs
  take-append_all [] ys = refl
  take-append_all (x ∷ xs) ys = rw (take-append_all xs ys) refl

  pub drop-append : (n : ℕ) (xs ys : List A) → n ≤ length xs → drop n (xs ++ ys) ≡ drop n xs ++ ys
  drop-append zero xs ys h = refl
  drop-append (suc n) [] ys h = elim h [ ]
  drop-append (suc n) (x ∷ xs) ys h = drop-append n xs ys (omega arith)

  pub drop-append_all : (xs ys : List A) → drop (length xs) (xs ++ ys) ≡ ys
  drop-append_all [] ys = refl
  drop-append_all (x ∷ xs) ys = drop-append_all xs ys

  pub length-drop : (n : ℕ) (xs : List A) → length (drop n xs) + min n (length xs) ≡ length xs
  length-drop zero xs = omega arith
  length-drop (suc n) [] = omega arith
  length-drop (suc n) (x ∷ xs) = omega (arith, length-drop n xs)

  pub take-drop : (n : ℕ) (xs : List A) → take n xs ++ drop n xs ≡ xs
  take-drop zero xs = refl
  take-drop (suc n) [] = refl
  take-drop (suc n) (x ∷ xs) = rw (take-drop n xs) refl

  pub take-take : (m s : ℕ) (xs : List A) → m ≤ s → take m (take s xs) ≡ take m xs
  take-take zero s xs h = refl
  take-take (suc m) zero xs h = elim h [ ]
  take-take (suc m) (suc s) [] h = refl
  take-take (suc m) (suc s) (x ∷ xs) h = rw (take-take m s xs (omega arith)) refl

  abbrev nil : List A
  nil = []

  take-nil : (n : ℕ) → take n nil ≡ nil
  take-nil zero = refl
  take-nil (suc n) = refl

  drop-nil : (n : ℕ) → drop n nil ≡ nil
  drop-nil zero = refl
  drop-nil (suc n) = refl

  pub drop-take : (m s : ℕ) (xs : List A) → drop m (take (m + s) xs) ≡ take s (drop m xs)
  drop-take zero s xs = let z : 0 + s ≡ s = omega arith in rw z refl
  drop-take (suc m) s [] = rw (take-nil (suc m + s), take-nil s) refl
  drop-take (suc m) s (x ∷ xs) =
      let z : suc m + s ≡ suc (m + s) = omega arith in rw z (drop-take m s xs)

  pub drop-drop : (m b : ℕ) (xs : List A) → drop m (drop b xs) ≡ drop (b + m) xs
  drop-drop m zero xs = let z : 0 + m ≡ m = omega arith in rw z refl
  drop-drop m (suc b) [] = rw (drop-nil m, drop-nil (suc b + m)) refl
  drop-drop m (suc b) (x ∷ xs) =
      let z : suc b + m ≡ suc (b + m) = omega arith in rw z (drop-drop m b xs)

  pub drop_first :
      (i : ℕ) (xs : List A) (d : A)
      → i < length xs
      → (ys : List A) × (drop i xs ≡ get_or xs i d ∷ ys)
  drop_first i [] d h = elim h [ ]
  drop_first zero (x ∷ xs) d h = (xs, refl)
  drop_first (suc i) (x ∷ xs) d h = drop_first i xs d (omega arith)

  pub length-take_eq : (n : ℕ) (xs : List A) → n ≤ length xs → length (take n xs) ≡ n
  length-take_eq n xs h = omega (arith, length-take n xs)

  pub take_plus : (a k : ℕ) (xs : List A) → take (a + k) xs ≡ take a xs ++ take k (drop a xs)
  take_plus zero k xs = let z : 0 + k ≡ k = omega arith in rw z refl
  take_plus (suc a) k [] = rw (take-nil (suc a + k), take-nil k) refl
  take_plus (suc a) k (x ∷ xs) =
      let z : suc a + k ≡ suc (a + k) = omega arith in rw (z, take_plus a k xs) refl

  pub drop-ge : (n : ℕ) (xs : List A) → length xs ≤ n → drop n xs ≡ []
  drop-ge n [] h = drop-nil n
  drop-ge zero (x ∷ xs) h = elim h [ ]
  drop-ge (suc n) (x ∷ xs) h = drop-ge n xs (omega arith)

  pub get_or-drop :
      (i : ℕ) (xs : List A) (j : ℕ) (d : A) → get_or (drop i xs) j d ≡ get_or xs (i + j) d
  get_or-drop zero xs j d = let z : 0 + j ≡ j = omega arith in rw z refl
  get_or-drop (suc i) [] j d = refl
  get_or-drop (suc i) (x ∷ xs) j d =
      let z : suc i + j ≡ suc (i + j) = omega arith in rw z (get_or-drop i xs j d)

  pub take-min : (n : ℕ) (xs : List A) → take (min n (length xs)) xs ≡ take n xs
  take-min zero xs = let z : min 0 (length xs) ≡ 0 = omega arith in rw z refl
  take-min (suc n) [] = take-nil (min (suc n) 0)
  take-min (suc n) (x ∷ xs) =
      let z : min (suc n) (suc (length xs)) ≡ suc (min n (length xs)) = omega arith in
      rw (z, take-min n xs) refl

  pub get_or-append :
      (xs : List A) (w : A) (i : ℕ) (d : A)
      → i < length xs
      → get_or (xs ++ (w ∷ [])) i d ≡ get_or xs i d
  get_or-append [] w i d h = elim h [ ]
  get_or-append (x ∷ xs) w zero d h = refl
  get_or-append (x ∷ xs) w (suc i) d h = get_or-append xs w i d (omega arith)

  pub get_or-append_last : (xs : List A) (w d : A) → get_or (xs ++ (w ∷ [])) (length xs) d ≡ w
  get_or-append_last [] w d = refl
  get_or-append_last (x ∷ xs) w d = get_or-append_last xs w d
