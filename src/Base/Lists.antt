-- ===== src/Base/Lists.antt =====
-- Lists as the source uses them: `find`, `filter`, `some`, `includes`, the last element, and the
-- predicates and counts by recursion in which the theorems are stated.
use Prim.Native.Nat.{ℕ, suc}
use mathlib.Core.Path.{◌≡◌, sym, subst, refl}
use mathlib.Core.Bool.{Bool, true, false}
use mathlib.Core.Logic.{◌≢◌, ◌⊎◌, inl, inr}
use mathlib.Core.Option.{Option, none, some}
use mathlib.Core.List.{List, [], ◌∷◌, ◌++◌}
use native.Mathlib.Omega.{arith}
use fun_makers_system.Base.Tests.{if◌then◌else◌, ◌==◌, ==_refl, Bool-cases}

module _ {ℓ} {A : Type ℓ} where
  abbrev pub length : List A → ℕ
  length [] = 0
  length (x ∷ xs) = suc (length xs)

  -- `xs.find(p)`
  abbrev pub find : (A → Bool) → List A → Option A
  find p [] = none
  find p (x ∷ xs) = let rest = find p xs in if p x then some x else rest

  -- `xs.filter(p)`
  abbrev pub select : (A → Bool) → List A → List A
  select p [] = []
  select p (x ∷ xs) = let rest = select p xs in if p x then x ∷ rest else rest

  -- `xs[0]`
  abbrev pub first : List A → Option A
  first [] = none
  first (x ∷ xs) = some x

  -- `xs[xs.length - 1]`
  abbrev pub last : List A → Option A
  last [] = none
  last (x ∷ []) = some x
  last (x ∷ (y ∷ ys)) = last (y ∷ ys)

  -- The row that `where` selects is replaced; the others stay.
  abbrev pub update_where : (A → Bool) → (A → A) → List A → List A
  update_where p f [] = []
  update_where p f (x ∷ xs) = (if p x then f x else x) ∷ update_where p f xs

-- `xs.includes(a)`
abbrev pub includes : List ℕ → ℕ → Bool
includes [] a = false
includes (x ∷ xs) a = let rest = includes xs a in if x == a then true else rest

-- Predicates by recursion, which the tactics read and build.
abbrev pub All {ℓ κ} : {A : Type ℓ} → (A → Type κ) → List A → Type κ
All P [] = Unit
All P (x ∷ xs) = P x × All P xs

abbrev pub In : {A : Type 0} → A → List A → Type 0
In a [] = ⊥
In a (x ∷ xs) = (a ≡ x) ⊎ In a xs

pub All-In : {A : Type 0} (P : A → Type 0) (xs : List A) (a : A) → All P xs → In a xs → P a
All-In P (x ∷ xs) a h (inl e) = subst P (sym e) h.0
All-In P (x ∷ xs) a h (inr m) = All-In P xs a h.1 m
All-In P [] a h m = absurd m

-- What `find` returns is in the list and passes the test.
pub find-In :
    {A : Type 0} (p : A → Bool) (xs : List A) (a : A) → find p xs ≡ some a → In a xs × (p a ≡ true)
find-In p [] a h = cc
find-In p (x ∷ xs) a h = elim (Bool-cases (p x)) [
  | inl t ↦ let q : x ≡ a = ground arith in (inl (sym q), subst (λ y. p y ≡ true) q t)
  | inr f ↦ let (m, t) = find-In p xs a (rw f at h) in (inr m, t)
]

-- It finds nothing exactly where no element passes.
pub find-none :
    {A : Type 0} (p : A → Bool) (xs : List A) (a : A) → find p xs ≡ none → In a xs → p a ≡ false
find-none p [] a h m = absurd m
find-none p (x ∷ xs) a h (inl e) = elim (Bool-cases (p x)) [
  | inl t ↦ cc (rw t at h)
  | inr f ↦ rw e f
]
find-none p (x ∷ xs) a h (inr m) = elim (Bool-cases (p x)) [
  | inl t ↦ cc (rw t at h)
  | inr f ↦ find-none p xs a (rw f at h) m
]

pub All-map :
    {A : Type 0} (P Q : A → Type 0) → ((t : A) → P t → Q t) → (ss : List A) → All P ss → All Q ss
All-map P Q f [] h = tt
All-map P Q f (s ∷ ss) h = (f s h.0, All-map P Q f ss h.1)

-- What `filter` keeps.
pub All-select :
    {A : Type 0} (P : A → Type 0) (p : A → Bool) (ss : List A) → All P ss → All P (select p ss)
All-select P p [] h = tt
All-select P p (s ∷ ss) h = elim (Bool-cases (p s)) [
  | inl y ↦ rw y (h.0, All-select P p ss h.1)
  | inr n ↦ rw n (All-select P p ss h.1)
]

pub In-select :
    {A : Type 0} (p : A → Bool) (ss : List A) (s : A) → In s ss → p s ≡ true → In s (select p ss)
In-select p [] s m t = absurd m
In-select p (x ∷ xs) s (inl e) t = rw (← e, t) (inl refl)
In-select p (x ∷ xs) s (inr m) t = elim (Bool-cases (p x)) [
  | inl y ↦ rw y (inr (In-select p xs s m t))
  | inr n ↦ rw n (In-select p xs s m t)
]

pub select-In :
    {A : Type 0} (p : A → Bool) (ss : List A) (s : A) → In s (select p ss) → In s ss × (p s ≡ true)
select-In p [] s m = absurd m
select-In {A} p (x ∷ xs) s m = elim (Bool-cases (p x)) [
  | inl y ↦ head y (λ k. select-In p xs s k) (rw y at m)
  | inr n ↦ let (k, t) = select-In p xs s (rw n at m) in (inr k, t)
]
  where
    head :
        p x ≡ true
        → (In s (select p xs) → In s xs × (p s ≡ true))
        → (s ≡ x) ⊎ In s (select p xs)
        → In s (x ∷ xs) × (p s ≡ true)
    head y rec (inl e) = (inl e, rw e y)
    head y rec (inr k) = let (q, t) = rec k in (inr q, t)

-- Rows under a key: what an update by key, or a row added at the end, does to `find`.
abbrev pub map_option : {A B : Type 0} → (A → B) → Option A → Option B
map_option f none = none
map_option f (some a) = some (f a)

module _ {A : Type 0} (key : A → ℕ) where
  pub find-update_where_self :
      (k : ℕ) (f : A → A)
      → ((a : A) → key (f a) ≡ key a)
      → (xs : List A)
      → find (λ a. key a == k) (update_where (λ a. key a == k) f xs)
        ≡ map_option f (find (λ a. key a == k) xs)
  find-update_where_self k f same [] = refl
  find-update_where_self k f same (x ∷ xs) = elim (Bool-cases (key x == k)) [
    | inl y ↦ rw y (rw (same x) (rw y))
    | inr n ↦ rw n (rw n (find-update_where_self k f same xs))
  ]

  pub find-update_where_ne :
      (j k : ℕ) (f : A → A)
      → j ≢ k
      → ((a : A) → key (f a) ≡ key a)
      → (xs : List A)
      → find (λ a. key a == j) (update_where (λ a. key a == k) f xs) ≡ find (λ a. key a == j) xs
  find-update_where_ne j k f ne same [] = refl
  find-update_where_ne j k f ne same (x ∷ xs) =
      ground (arith, same x, find-update_where_ne j k f ne same xs)

  pub find-append_new :
      (k : ℕ) (xs : List A) (y : A)
      → find (λ a. key a == k) xs ≡ none
      → find (λ a. key a == k) (xs ++ (y ∷ [])) ≡ (if key y == k then some y else none)
  find-append_new k [] y h = refl
  find-append_new k (x ∷ xs) y h = ground (arith, find-append_new k xs y)

  pub find-append_old :
      (k : ℕ) (xs : List A) (x y : A)
      → find (λ a. key a == k) xs ≡ some x
      → find (λ a. key a == k) (xs ++ (y ∷ [])) ≡ some x
  find-append_old k [] x y h = cc
  find-append_old k (z ∷ xs) x y h = ground (arith, find-append_old k xs x y)

  -- No two rows share a key.
  abbrev pub DistinctKeys : List A → Type 0
  DistinctKeys [] = Unit
  DistinctKeys (x ∷ xs) = All (λ y. key x ≢ key y) xs × DistinctKeys xs

  pub find-by_key :
      (xs : List A) (a : A) → DistinctKeys xs → In a xs → find (λ x. key x == key a) xs ≡ some a
  find-by_key [] a h m = absurd m
  find-by_key (x ∷ xs) a h (inl e) = rw e (rw (==_refl (key x)))
  find-by_key (x ∷ xs) a h (inr m) =
      let d : key x ≢ key a = All-In (λ y. key x ≢ key y) xs a h.0 m in
      ground (arith, find-by_key xs a h.1 m)

-- A row added at the end, for any test.
pub find-append_fresh :
    {A : Type 0} (p : A → Bool) (xs : List A) (y : A)
    → find p xs ≡ none
    → find p (xs ++ (y ∷ [])) ≡ (if p y then some y else none)
find-append_fresh p [] y h = refl
find-append_fresh p (x ∷ xs) y h = ground (arith, find-append_fresh p xs y)

pub find-append_kept :
    {A : Type 0} (p : A → Bool) (xs : List A) (x y : A)
    → find p xs ≡ some x
    → find p (xs ++ (y ∷ [])) ≡ some x
find-append_kept p [] x y h = cc
find-append_kept p (z ∷ xs) x y h = ground (arith, find-append_kept p xs x y)

-- The first element that passes, changed.
abbrev pub update_first : {A : Type 0} → (A → Bool) → (A → A) → List A → List A
update_first p f [] = []
update_first p f (x ∷ xs) = if p x then f x ∷ xs else (x ∷ update_first p f xs)

pub All-update_first :
    {A : Type 0} (P : A → Type 0) (p : A → Bool) (f : A → A) (xs : List A) (a : A)
    → All P xs
    → find p xs ≡ some a
    → P (f a)
    → All P (update_first p f xs)
All-update_first P p f [] a h e k = tt
All-update_first P p f (x ∷ xs) a h e k = elim (Bool-cases (p x)) [
  | inl y ↦ let q : x ≡ a = ground arith in rw y (subst (λ z. P (f z)) (sym q) k, h.1)
  | inr n ↦ rw n (h.0, All-update_first P p f xs a h.1 (rw n at e) k)
]

-- Rows that a change leaves alone stay, the others are changed.
abbrev pub changed_where : {A : Type 0} → (A → Bool) → (A → A) → A → A
changed_where p f a = if p a then f a else a

pub find-update_where :
    {A : Type 0} (q p : A → Bool) (f : A → A)
    → ((a : A) → q (f a) ≡ q a)
    → (xs : List A) → find q (update_where p f xs) ≡ map_option (changed_where p f) (find q xs)
find-update_where q p f same [] = refl
find-update_where q p f same (x ∷ xs) = ground (arith, same x, find-update_where q p f same xs)

pub In-update_where :
    {A : Type 0} (p : A → Bool) (f : A → A) (xs : List A) (a : A)
    → In a (update_where p f xs)
    → (b : A) × In b xs × (a ≡ changed_where p f b)
In-update_where p f [] a m = absurd m
In-update_where p f (x ∷ xs) a (inl e) = (x, inl refl, e)
In-update_where p f (x ∷ xs) a (inr m) = let (b, k, e) = In-update_where p f xs a m in (b, inr k, e)

pub In-append_one : {A : Type 0} (xs : List A) (y a : A) → In a (xs ++ (y ∷ [])) → In a xs ⊎ (a ≡ y)
In-append_one [] y a (inl e) = inr e
In-append_one [] y a (inr m) = absurd m
In-append_one (x ∷ xs) y a (inl e) = inl (inl e)
In-append_one (x ∷ xs) y a (inr m) = elim (In-append_one xs y a m) [
  | inl k ↦ inl (inr k)
  | inr e ↦ inr e
]

pub All-append_one :
    {A : Type 0} (P : A → Type 0) (xs : List A) (y : A) → All P xs → P y → All P (xs ++ (y ∷ []))
All-append_one P [] y h k = (k, tt)
All-append_one P (x ∷ xs) y h k = (h.0, All-append_one P xs y h.1 k)
