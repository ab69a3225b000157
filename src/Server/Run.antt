-- ===== src/Server/Run.antt =====
-- How a call of the set-up code goes: it returns, it leaves the process by `exit(EXIT_FAILURE)`, it
-- reads or writes through a null or freed pointer or shifts beyond C's bounds, or a search that it
-- makes has no end within the fuel.
use rahunas.Prelude.{◌≡◌, refl}

pub data Run {ℓ} (A : Type ℓ) : Type ℓ where
  returned : A → Run A
  exits : Run A
  faults : Run A
  unended : Run A

infixl 5 ◌>>=◌
abbrev pub ◌>>=◌ {ℓ κ} : {A : Type ℓ} {B : Type κ} → Run A → (A → Run B) → Run B
returned a >>= f = f a
exits >>= f = exits
faults >>= f = faults
unended >>= f = unended

-- What holds of the result, if there is one.
abbrev pub OnReturn {ℓ κ} : {A : Type ℓ} → (A → Type κ) → Run A → Type κ
OnReturn P (returned a) = P a
OnReturn P exits = Unit
OnReturn P faults = Unit
OnReturn P unended = Unit

pub OnReturn->>= {ℓ κ} :
    {A : Type ℓ} {B : Type κ} (P : A → Type 0) (Q : B → Type 0) (r : Run A) (f : A → Run B)
    → OnReturn P r
    → ((a : A) → P a → OnReturn Q (f a))
    → OnReturn Q (r >>= f)
OnReturn->>= P Q (returned a) f h k = k a h
OnReturn->>= P Q exits f h k = tt
OnReturn->>= P Q faults f h k = tt
OnReturn->>= P Q unended f h k = tt

-- A fact about a result follows from another.
pub OnReturn-map {ℓ} :
    {A : Type ℓ} (P Q : A → Type 0) (r : Run A)
    → ((a : A) → P a → Q a)
    → OnReturn P r
    → OnReturn Q r
OnReturn-map P Q (returned a) f h = f a h
OnReturn-map P Q exits f h = tt
OnReturn-map P Q faults f h = tt
OnReturn-map P Q unended f h = tt

pub >>=_assoc {ℓ κ μ} :
    {A : Type ℓ} {B : Type κ} {C : Type μ} (r : Run A) (f : A → Run B) (g : B → Run C)
    → (r >>= f) >>= g ≡ r >>= λ a. f a >>= g
>>=_assoc (returned a) f g = refl
>>=_assoc exits f g = refl
>>=_assoc faults f g = refl
>>=_assoc unended f g = refl

-- Two ways to go on that agree where the first part returns.
pub >>=_ext {ℓ κ} :
    {A : Type ℓ} {B : Type κ} (P : A → Type 0) (r : Run A) (f g : A → Run B)
    → OnReturn P r
    → ((a : A) → P a → f a ≡ g a)
    → r >>= f ≡ r >>= g
>>=_ext P (returned a) f g h e = e a h
>>=_ext P exits f g h e = refl
>>=_ext P faults f g h e = refl
>>=_ext P unended f g h e = refl

pub any_return {ℓ} : {A : Type ℓ} (r : Run A) → OnReturn {ℓ, 0} (λ a. Unit) r
any_return (returned a) = tt
any_return exits = tt
any_return faults = tt
any_return unended = tt
